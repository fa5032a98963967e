-- ===== src/RestrictedString/Allowed.antt =====
-- The strings of X.680, and the validator, the reader and the writer against them.
use rs_verified_der.Base.{
  ℕ, suc, ◌+◌, ◌<◌, ◌≤◌, ◌^◌, ◌≡◌, ◌≢◌, ◌↔◌, ◌⊎◌, inl, inr, refl, ap, sym, ◌∙◌, arith, true, false,
  Bool-cases, List, [], ◌∷◌, ◌++◌, length, All,
}
use rs_verified_der.Base.Bits.{bit_and-0x80}
use rs_verified_der.Base.Codec
use rs_verified_der.Base.Codec.{Codec, At, IsByte, IsBytes}
use rs_verified_der.Base.Result.{
  Result, ok, err, panic, Ensures, Ensures-weaken, Ensures-self, Ensures-panic, ◌>>=◌,
}
use rs_verified_der.RestrictedString.{
  Charset, printable, ia5, numeric, visible, is_ia5, tag_number, contains, StringError, tlv,
  wrong_tag, constructed, out_of_charset, ia5_escape, none_if_err, scan, validate_content,
  decode_restricted_string, encode_restricted_string_into,
}
use rs_verified_der.Tlv.{encode_tlv_into}
use rs_verified_der.Tlv.Field.{read_valid-Ensures, read_valid-octets}
use rs_verified_der.Tlv.Typed.{universal_tag, wrap_octets, Fits}

-- X.680 41.4: the letters, the digits, the space, and eleven marks.
abbrev IsLetter : ℕ → Type 0
IsLetter b = ((65 ≤ b) × (b ≤ 90)) ⊎ ((97 ≤ b) × (b ≤ 122))

abbrev IsDecimal : ℕ → Type 0
IsDecimal b = (48 ≤ b) × (b ≤ 57)

abbrev IsMark : ℕ → Type 0
IsMark b = ((39 ≤ b) × (b ≤ 41)) ⊎ ((43 ≤ b) × (b ≤ 47)) ⊎ (b ≡ 58) ⊎ (b ≡ 61) ⊎ (b ≡ 63)

-- The repertoires, by ranges of codes.
abbrev pub InRepertoire : Charset → ℕ → Type 0
InRepertoire printable b = IsLetter b ⊎ IsDecimal b ⊎ (b ≡ 32) ⊎ IsMark b
InRepertoire ia5 b = b < 128
InRepertoire numeric b = IsDecimal b ⊎ (b ≡ 32)
InRepertoire visible b = (32 ≤ b) × (b ≤ 126)

-- The escape octet is in the repertoire of IA5String, and not allowed in one.
abbrev pub IsEscape : Charset → ℕ → Type 0
IsEscape charset b = (is_ia5 charset ≡ true) × (b ≡ 27)

abbrev pub IsAllowed : Charset → ℕ → Type 0
IsAllowed charset b = InRepertoire charset b × (IsEscape charset b → ⊥)

pub contains_iff :
    (charset : Charset) (b : ℕ) → b < 256 → (contains charset b ≡ true) ↔ InRepertoire charset b
unfolding contains
contains_iff printable b h = ((λ e. ground arith), (λ e. ground arith))
contains_iff ia5 b h =
    ((λ e. ground (arith, bit_and-0x80 b)), (λ e. ground (arith, bit_and-0x80 b)))
contains_iff numeric b h = ((λ e. ground arith), (λ e. ground arith))
contains_iff visible b h = ((λ e. ground arith), (λ e. ground arith))

-- A round of the loop, on the three kinds of octet.
scan-allowed :
    (charset : Charset) (i b : ℕ) (rest : List ℕ)
    → b < 256
    → IsAllowed charset b
    → scan i (b ∷ rest) charset ≡ scan (i + 1) rest charset
unfolding scan
scan-allowed charset i b rest small (inside, plain) =
    let member = (contains_iff charset b small).1 inside in rw member (ground arith)

scan-outside :
    (charset : Charset) (i b : ℕ) (rest : List ℕ)
    → b < 256
    → (InRepertoire charset b → ⊥)
    → scan i (b ∷ rest) charset ≡ err (out_of_charset i b)
unfolding scan
scan-outside charset i b rest small outside = elim (Bool-cases (contains charset b)) [
  | inl member ↦ absurd (outside ((contains_iff charset b small).0 member))
  | inr e ↦ rw e refl
]

scan-escape :
    (charset : Charset) (i b : ℕ) (rest : List ℕ)
    → b < 256
    → IsEscape charset b
    → scan i (b ∷ rest) charset ≡ err (ia5_escape i)
unfolding scan contains
scan-escape ia5 i b rest small (e, h) = rw h refl
scan-escape printable i b rest small (e, h) = cc
scan-escape numeric i b rest small (e, h) = cc
scan-escape visible i b rest small (e, h) = cc

-- So what the loop goes past is allowed.
scan_step :
    (charset : Charset) (i b : ℕ) (rest : List ℕ)
    → b < 256
    → scan i (b ∷ rest) charset ≡ ok tt
    → IsAllowed charset b
unfolding scan
scan_step charset i b rest small e = elim (Bool-cases (contains charset b)) [
  | inl member ↦ (
    (contains_iff charset b small).0 member,
    λ escape. absurd (clash (scan-escape charset i b rest small escape)),
  )
  | inr e' ↦ absurd (clash_out (outcome e'))
]
  where
    clash : scan i (b ∷ rest) charset ≡ err (ia5_escape i) → ⊥
    clash f = cc

    clash_out : scan i (b ∷ rest) charset ≡ err (out_of_charset i b) → ⊥
    clash_out f = cc

    outcome : contains charset b ≡ false → scan i (b ∷ rest) charset ≡ err (out_of_charset i b)
    outcome e' = rw e' refl

scan-ok :
    (charset : Charset) (i : ℕ) (content : List ℕ)
    → IsBytes content
    → All (IsAllowed charset) content
    → scan i content charset ≡ ok tt
unfolding scan
scan-ok charset i [] bytes h = refl
scan-ok charset i (b ∷ rest) (small, bytes) (hb, h) =
    scan-allowed charset i b rest small hb ∙ scan-ok charset (i + 1) rest bytes h

scan-All :
    (charset : Charset) (i : ℕ) (content : List ℕ)
    → IsBytes content
    → scan i content charset ≡ ok tt
    → All (IsAllowed charset) content
scan-All charset i [] bytes e = tt
scan-All charset i (b ∷ rest) (small, bytes) e =
    let hb = scan_step charset i b rest small e in
    (hb, scan-All charset (i + 1) rest bytes (sym (scan-allowed charset i b rest small hb) ∙ e))

-- The loop on a good front.
scan-append :
    (charset : Charset) (i : ℕ) (good rest : List ℕ)
    → IsBytes good
    → All (IsAllowed charset) good
    → scan i (good ++ rest) charset ≡ scan (i + length good) rest charset
scan-append charset i [] rest bytes h = let same : i + 0 ≡ i = omega arith in rw same refl
scan-append charset i (b ∷ good) rest (small, bytes) (hb, h) =
    let same : i + 1 + length good ≡ i + suc (length good) = omega arith in
    scan-allowed charset i b (good ++ rest) small hb
    ∙ scan-append charset (i + 1) good rest bytes h
    ∙ ap (λ (k : ℕ). scan k rest charset) same

-- On bytes, `validate_content` accepts the content exactly when every octet is in the repertoire of the
-- type and, in an IA5String, is not the escape octet.
pub validate_content_iff :
    (content : List ℕ) (charset : Charset)
    → IsBytes content
    → (validate_content content charset ≡ ok tt) ↔ All (IsAllowed charset) content
unfolding validate_content
validate_content_iff content charset bytes =
    (scan-All charset 0 content bytes, scan-ok charset 0 content bytes)

-- If the first octet that is not allowed stands behind some bytes `good`, `validate_content` reports its
-- position: as `OutOfCharset` with the octet if it is not in the repertoire, and as `Ia5Escape` if it is
-- the escape octet of an IA5String.
pub validate_content_first :
    (good rest : List ℕ) (b : ℕ) (charset : Charset)
    → IsBytes good
    → b < 256
    → All (IsAllowed charset) good
    → ((InRepertoire charset b → ⊥)
        → validate_content (good ++ b ∷ rest) charset ≡ err (out_of_charset (length good) b))
      × (IsEscape charset b
          → validate_content (good ++ b ∷ rest) charset ≡ err (ia5_escape (length good)))
unfolding validate_content
validate_content_first good rest b charset bytes small h =
    let front = scan-append charset 0 good (b ∷ rest) bytes h in
    let at : 0 + length good ≡ length good = omega arith in
    (
      (λ outside.
          front
          ∙ scan-outside charset (0 + length good) b rest small outside
          ∙ ap (λ k. err (out_of_charset k b)) at),
      (λ escape.
          front
          ∙ scan-escape charset (0 + length good) b rest small escape
          ∙ ap (λ k. err (ia5_escape k)) at),
    )

scan-ne-panic : (charset : Charset) (i : ℕ) (content : List ℕ) → scan i content charset ≢ panic
unfolding scan
scan-ne-panic charset i [] h = cc
scan-ne-panic charset i (b ∷ rest) h = ground (arith, scan-ne-panic charset (i + 1) rest)

abbrev pub Accepts : Charset → List ℕ → Type 0
Accepts charset content = IsBytes content × All (IsAllowed charset) content

-- A string that the validator accepts and that a length field can announce.
abbrev pub IsString : Charset → List ℕ → Type 0
IsString charset content = Fits content × Accepts charset content

abbrev pub string_octets : Charset → List ℕ → List ℕ
string_octets charset = wrap_octets (universal_tag false (tag_number charset))

validate_content-Ensures :
    (charset : Charset) (content : List ℕ)
    → IsBytes content
    → Ensures (λ _. Accepts charset content) (validate_content content charset)
unfolding validate_content
validate_content-Ensures charset content bytes =
    Ensures-weaken (λ _ e. (bytes, scan-All charset 0 content bytes e))
      (Ensures-self (scan 0 content charset) (scan-ne-panic charset 0 content))

validate_content-ok :
    (charset : Charset) (content : List ℕ)
    → Accepts charset content
    → validate_content content charset ≡ ok tt
validate_content-ok charset content (bytes, h) = (validate_content_iff content charset bytes).1 h

tag_number_small : (charset : Charset) → tag_number charset < 2 ^ 32
tag_number_small charset = ground arith

pub string_codec : Charset → Codec StringError (List ℕ)
unfolding decode_restricted_string
string_codec charset = record {
  decode = λ input. decode_restricted_string input charset;
  Is = IsString charset;
  octets = string_octets charset;
  sound =
      read_valid-Ensures tlv wrong_tag constructed (tag_number charset) (tag_number_small charset)
        (λ c. validate_content c charset) (Accepts charset) (validate_content-Ensures charset)
        (validate_content-ok charset);
  complete =
      read_valid-octets tlv wrong_tag constructed (tag_number charset) (tag_number_small charset)
        (λ c. validate_content c charset) (Accepts charset) (validate_content-Ensures charset)
        (validate_content-ok charset);
}

-- On bytes, `decode_restricted_string` returns `(content, k)` for a character set exactly when the input
-- begins with the DER encoding, of k octets, of the primitive TLV of the set's tag around `content`, every
-- octet of `content` is in the repertoire and, in an IA5String, is not the escape octet, and there are
-- fewer than 2 ^ 32 of them.
pub decode_restricted_string_iff :
    (input content : List ℕ) (k : ℕ) (charset : Charset)
    → IsBytes input
    → (decode_restricted_string input charset ≡ ok (content, k))
      ↔ At (IsString charset) (string_octets charset) input (content, k)
unfolding string_codec
decode_restricted_string_iff input content k charset bytes =
    Codec.decode_iff (string_codec charset) input content k bytes

-- On bytes, `encode_restricted_string_into` writes what `encode_tlv_into` does for the set's tag if every
-- octet of the content is allowed, and else gives `None`.
pub encode_restricted_string_into_lem :
    (content out : List ℕ) (charset : Charset)
    → IsBytes content
    → (All (IsAllowed charset) content
        → encode_restricted_string_into content charset out
          ≡ encode_tlv_into (universal_tag false (tag_number charset)) content out)
      × ((All (IsAllowed charset) content → ⊥)
          → encode_restricted_string_into content charset out ≡ err tt)
unfolding encode_restricted_string_into
encode_restricted_string_into_lem content out charset bytes = (
  (λ h. rw ((validate_content_iff content charset bytes).1 h) refl),
  (λ bad. none_of (validate_content content charset) refl bad),
)
  where
    none_of :
        (r : Result StringError (Unit {0}))
        → validate_content content charset ≡ r
        → (All (IsAllowed charset) content → ⊥)
        → (none_if_err r >>= λ _.
            encode_tlv_into (universal_tag false (tag_number charset)) content out)
          ≡ err tt
    none_of (ok tt) e bad = absurd (bad ((validate_content_iff content charset bytes).0 e))
    none_of (err x) e bad = refl
    none_of panic e bad = absurd (Ensures-panic (validate_content-Ensures charset content bytes) e)
