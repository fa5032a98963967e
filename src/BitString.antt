-- ===== src/BitString.antt =====
-- der-verified/src/bit_string.rs: BIT STRING content, the count of unused bits and the value octets.
use rs_verified_der.Base.{
  ℕ, suc, ◌+◌, ◌-◌, ◌%◌, ◌^◌, ◌≤◌, ◌<◌, ◌≡◌, ◌≢◌, ◌↔◌, inl, inr, refl, ap, sym, ◌∙◌, arith, List,
  [], ◌∷◌, ◌++◌, length, drop, Option, some, none, Bool, true, false, not, subst, Bool-cases,
  bit_and, ltb, ◌==◌, ◌!=◌, if◌then◌else◌,
}
use rs_verified_der.Base.Bits.{bit_and-mask}
use rs_verified_der.Base.Result.{
  Result, ok, err, panic, Ensures, holds, rejected, ◌>>=◌, index, store, copy_from_slice,
}
use rs_verified_der.Base.Slices.{last_octet, index-last, copy_from_slice-append}
use rs_verified_der.Base.Codec.{IsBytes}

abbrev pub tag : ℕ
tag = 3

pub record BitString : Type 0 where
  pub data_octets : List ℕ
  pub unused : ℕ

pub data BitStringError : Type 0 where
  empty unused_bits_too_large non_zero_padding empty_non_zero_unused : BitStringError

abbrev is_empty : List ℕ → Bool
is_empty [] = true
is_empty (_ ∷ _) = false

unfoldable pub decode_bit_string : List ℕ → Result BitStringError BitString
decode_bit_string [] = err empty
decode_bit_string (unused ∷ data_octets) =
    if ltb 7 unused
    then err unused_bits_too_large
    else if is_empty data_octets
    then (if unused != 0
        then err empty_non_zero_unused
        else ok (record { data_octets = data_octets; unused = 0 }))
    else do
      let mask = 2 ^ unused - 1
      last ← index data_octets (length data_octets - 1)
      if bit_and last mask != 0
          then err non_zero_padding
          else ok (record { data_octets = data_octets; unused = unused })

unfoldable pub require_octet_aligned : BitString → Option (List ℕ)
require_octet_aligned bs = if bs.unused == 0 then some bs.data_octets else none

-- The checks of `encode_bit_string_into` before it looks at `out`; `None` is `err tt`.
abbrev check_padding : List ℕ → ℕ → Result (Unit {0}) (Unit {0})
check_padding data_octets unused =
    if is_empty data_octets then (if unused != 0 then err tt else ok tt) else do
      let mask = 2 ^ unused - 1
      last ← index data_octets (length data_octets - 1)
      if bit_and last mask != 0 then err tt else ok tt

-- `out[0] = unused; out[1..total].copy_from_slice(data); Some(total)`
abbrev write : List ℕ → ℕ → List ℕ → Result (Unit {0}) (ℕ × List ℕ)
write data_octets unused out = do
  let total = suc (length data_octets)
  out' ← store out 0 unused
  out'' ← copy_from_slice out' 1 total data_octets
  ok (total, out'')

-- A success is the count and `out` as it then is.
unfoldable pub encode_bit_string_into : List ℕ → ℕ → List ℕ → Result (Unit {0}) (ℕ × List ℕ)
encode_bit_string_into data_octets unused out = if ltb 7 unused then err tt else do
  _ ← check_padding data_octets unused
  let total = suc (length data_octets)
  if ltb (length out) total then err tt else write data_octets unused out

-- X.690 11.2: the unused bits of the last octet are 0, and no octet has no unused bit.
abbrev pub CleanEnd : ℕ → List ℕ → Type 0
CleanEnd unused [] = unused ≡ 0
CleanEnd unused (c ∷ more) = last_octet c more % 2 ^ unused ≡ 0

abbrev pub IsBitString : BitString → Type 0
IsBitString bs = (bs.unused ≤ 7) × CleanEnd bs.unused bs.data_octets

abbrev pub bit_string_octets : BitString → List ℕ
bit_string_octets bs = bs.unused ∷ bs.data_octets

last_octet-IsByte : (c : ℕ) (more : List ℕ) → IsBytes (c ∷ more) → last_octet c more < 256
last_octet-IsByte c [] (h, _) = h
last_octet-IsByte c (d ∷ more) (_, h) = last_octet-IsByte d more h

decode_bit_string-cons :
    (unused c : ℕ) (more : List ℕ)
    → IsBytes (c ∷ more)
    → decode_bit_string (unused ∷ c ∷ more) ≡ (
        if ltb 7 unused
        then err unused_bits_too_large
        else if last_octet c more % 2 ^ unused != 0
        then err non_zero_padding
        else ok (record { data_octets = c ∷ more; unused = unused }))
unfolding decode_bit_string
decode_bit_string-cons unused c more bytes = elim (Bool-cases (ltb 7 unused)) [
  | inl e ↦ rw e refl
  | inr e ↦
      let low =
        bit_and-mask unused (last_octet c more) (ground arith) (last_octet-IsByte c more bytes) in
      let last = index-last {E = BitStringError} c more in rw (e, last, low) refl
]

decode_bit_string_sound :
    (content : List ℕ) (bs : BitString)
    → IsBytes content
    → decode_bit_string content ≡ ok bs
    → IsBitString bs × (content ≡ bit_string_octets bs)
unfolding decode_bit_string
decode_bit_string_sound [] bs bytes h = ground arith
decode_bit_string_sound (unused ∷ []) bs bytes h = ground arith
decode_bit_string_sound (unused ∷ c ∷ more) bs (_, bytes) h =
    sound (sym (decode_bit_string-cons unused c more bytes) ∙ h)
  where
    sound :
        (if ltb 7 unused
            then err unused_bits_too_large
            else if last_octet c more % 2 ^ unused != 0
            then err non_zero_padding
            else ok (record { data_octets = c ∷ more; unused = unused }))
          ≡ ok bs
        → IsBitString bs × (unused ∷ c ∷ more ≡ bit_string_octets bs)
    sound e = ground arith

decode_bit_string_complete :
    (unused : ℕ) (octets : List ℕ)
    → IsBytes octets
    → unused ≤ 7
    → CleanEnd unused octets
    → decode_bit_string (unused ∷ octets) ≡ ok (record { data_octets = octets; unused = unused })
unfolding decode_bit_string
decode_bit_string_complete unused [] bytes h clean = ground arith
decode_bit_string_complete unused (c ∷ more) bytes h clean =
    rw (decode_bit_string-cons unused c more bytes) (ground arith)

-- On bytes, `decode_bit_string` returns `bs` exactly when the content is the count of unused bits
-- followed by the value octets of `bs`, the count is at most 7, the unused bits of the last octet are 0,
-- and the count is 0 if there is no value octet.
pub decode_bit_string_iff :
    (content : List ℕ) (bs : BitString)
    → IsBytes content
    → (decode_bit_string content ≡ ok bs) ↔ (IsBitString bs × (content ≡ bit_string_octets bs))
decode_bit_string_iff content bs bytes = (
  decode_bit_string_sound content bs bytes,
  λ ((small, clean), e).
      ap decode_bit_string e
      ∙ decode_bit_string_complete bs.unused bs.data_octets (subst IsBytes e bytes).1 small clean,
)

decode_bit_string-ne-panic :
    (content : List ℕ) → IsBytes content → decode_bit_string content ≢ panic
unfolding decode_bit_string
decode_bit_string-ne-panic [] bytes h = cc
decode_bit_string-ne-panic (unused ∷ []) bytes h = ground arith
decode_bit_string-ne-panic (unused ∷ c ∷ more) (_, bytes) h =
    let outcome = sym (decode_bit_string-cons unused c more bytes) ∙ h in ground arith

pub decode_bit_string-Ensures :
    (content : List ℕ)
    → IsBytes content
    → Ensures (λ bs. IsBitString bs × (content ≡ bit_string_octets bs)) (decode_bit_string content)
decode_bit_string-Ensures content bytes = outcome (decode_bit_string content) refl
  where
    outcome :
        (r : Result BitStringError BitString)
        → decode_bit_string content ≡ r
        → Ensures (λ bs. IsBitString bs × (content ≡ bit_string_octets bs)) r
    outcome (ok bs) e = holds (decode_bit_string_sound content bs bytes e)
    outcome (err x) e = rejected
    outcome panic e = absurd (decode_bit_string-ne-panic content bytes e)

-- Whether the arguments are canonical, as a test.
abbrev pub canonical : List ℕ → ℕ → Bool
canonical [] unused = unused == 0
canonical (c ∷ more) unused = last_octet c more % 2 ^ unused == 0

check_padding_lem :
    (octets : List ℕ) (unused : ℕ)
    → IsBytes octets
    → unused ≤ 7
    → check_padding octets unused ≡ (if not (canonical octets unused) then err tt else ok tt)
check_padding_lem [] unused bytes h = refl
check_padding_lem (c ∷ more) unused bytes h =
    let low = bit_and-mask unused (last_octet c more) h (last_octet-IsByte c more bytes) in
    let last = index-last {E = Unit {0}} c more in rw (last, low) refl

store_first :
    (unused x : ℕ) (out : List ℕ) → store {E = Unit {0}} (x ∷ out) 0 unused ≡ ok (unused ∷ out)
store_first unused x out = ground arith

write_lem :
    (unused : ℕ) (octets out : List ℕ)
    → suc (length octets) ≤ length out
    → write octets unused out
      ≡ ok (suc (length octets), unused ∷ octets ++ drop (suc (length octets)) out)
write_lem unused octets [] h = absurd (omega arith)
write_lem unused octets (x ∷ out) h = rw (store_first unused x out, written) refl
  where
    to : suc (length octets) ≡ 1 + length octets
    to = omega arith

    written :
        copy_from_slice {E = Unit {0}} (unused ∷ out) 1 (suc (length octets)) octets
        ≡ ok (unused ∷ octets ++ drop (length octets) out)
    written = rw to (copy_from_slice-append {E = Unit {0}} (unused ∷ []) octets out (omega arith))

-- On bytes, `encode_bit_string_into` gives `None` if the count of unused bits is over 7, if the
-- unused bits of the last octet are not 0 (or the count is not 0 and there is no octet), or if `out` is
-- shorter than the content octets; else it returns their count and puts them in front of `out`, of
-- which it changes nothing more. It never panics.
pub encode_bit_string_into_lem :
    (bs : BitString) (out : List ℕ)
    → IsBytes bs.data_octets
    → encode_bit_string_into bs.data_octets bs.unused out ≡ (
        if ltb 7 bs.unused
        then err tt
        else if not (canonical bs.data_octets bs.unused)
        then err tt
        else if ltb (length out) (length (bit_string_octets bs))
        then err tt
        else ok (
          length (bit_string_octets bs),
          bit_string_octets bs ++ drop (length (bit_string_octets bs)) out,
        ))
unfolding encode_bit_string_into
encode_bit_string_into_lem bs out bytes = elim (Bool-cases (ltb 7 bs.unused)) [
  | inl e ↦ rw e refl
  | inr e ↦ elim (Bool-cases (canonical bs.data_octets bs.unused)) [
    | inl f ↦ elim (Bool-cases (ltb (length out) (length (bit_string_octets bs)))) [
      | inl g ↦ rw (e, check_padding_lem bs.data_octets bs.unused bytes (ground arith), f, g) refl
      | inr g ↦
          rw (e, check_padding_lem bs.data_octets bs.unused bytes (ground arith), f, g)
            (write_lem bs.unused bs.data_octets out (ground arith))
    ]
    | inr f ↦ rw (e, check_padding_lem bs.data_octets bs.unused bytes (ground arith), f) refl
  ]
]
