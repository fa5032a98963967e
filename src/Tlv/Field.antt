-- ===== src/Tlv/Field.antt =====
-- The reader of a primitive field whose content a validator checks, as the structures with INTEGER and
-- OBJECT IDENTIFIER fields write it.
use rs_verified_der.Base.{
  ℕ, ◌<◌, ◌^◌, ◌≡◌, ◌≢◌, refl, arith, Bool, true, false, List, [], ◌∷◌, ◌++◌, length, drop, ap, ◌∙◌,
  subst, if◌then◌else◌,
}
use rs_verified_der.Base.Codec.{At, IsBytes, ContentCodec}
use rs_verified_der.Base.Result.{
  Result, ok, err, panic, ◌>>=◌, map_err, Ensures, holds, Ensures-self, Ensures-weaken,
  Ensures-bind, Ensures-map_err,
}
use rs_verified_der.Tlv.{decode_tlv}
use rs_verified_der.Tlv.Error.{TlvError}
use rs_verified_der.Tlv.Decode.{decode_tlv-Ensures, decode_tlv-octets}
use rs_verified_der.Tlv.Typed.{
  universal_tag, wrap, wrap_octets, Fits, At-wrapped, At-IsBytes, not_universal, typed-Ensures,
}

abbrev pub is_empty : List ℕ → Bool
is_empty [] = true
is_empty (_ ∷ _) = false

-- With a validator of the content.
module _ {E : Type 0} (tlv : TlvError → E) (wrong_tag constructed : E) (number : ℕ)
    (small : number < 2 ^ 32) (validate : List ℕ → Result E (Unit {0})) (Accepts : List ℕ → Type 0)
    (sound : (content : List ℕ)
      → IsBytes content
      → Ensures (λ _. Accepts content) (validate content))
    (complete : (content : List ℕ) → Accepts content → validate content ≡ ok tt) where
  abbrev pub read_valid : List ℕ → Result E (List ℕ × ℕ)
  read_valid input = do
    (t, used) ← map_err tlv (decode_tlv input)
    if not_universal t number
        then err wrong_tag
        else if t.tag.constructed
        then err constructed
        else do _ ← validate t.value; ok (t.value, used)

  -- The content that the validator accepts and that a length field can announce.
  abbrev IsValid : List ℕ → Type 0
  IsValid content = Fits content × Accepts content

  pub read_valid-Ensures :
      (input : List ℕ)
      → IsBytes input
      → Ensures (At IsValid (wrap_octets (universal_tag false number)) input) (read_valid input)
  read_valid-Ensures input bytes =
      Ensures-bind (Ensures-map_err tlv (decode_tlv-Ensures input bytes)) λ (t, k) at.
        typed-Ensures _ t number false t.tag.constructed wrong_tag constructed _ (λ h. h)
          λ e.
            let (fits, size, split) = At-wrapped input t k (universal_tag false number) at e in
            Ensures-bind (sound t.value (At-IsBytes input t k bytes at).0)
              λ _ accepted. holds ((fits, accepted), size, split)

  pub read_valid-octets :
      (content rest : List ℕ)
      → IsValid content
      → read_valid (wrap_octets (universal_tag false number) content ++ rest)
        ≡ ok (content, length (wrap_octets (universal_tag false number) content))
  read_valid-octets content rest (fits, accepted) =
      rw
        (
          decode_tlv-octets (wrap (universal_tag false number) content) rest (small, fits),
          complete content accepted,
        )
        (ground arith)

-- With a validator that has its own error.
module _ {E V : Type 0} (tlv : TlvError → E) (wrong_tag constructed : E) (bad : V → E) (number : ℕ)
    (small : number < 2 ^ 32) (validate : List ℕ → Result V (Unit {0}))
    (total : (content : List ℕ) → validate content ≢ panic) where
  pub validate-Ensures :
      (content : List ℕ)
      → IsBytes content
      → Ensures (λ _. validate content ≡ ok tt) (map_err bad (validate content))
  validate-Ensures content bytes =
      Ensures-map_err bad
        (Ensures-weaken (λ _ e. e) (Ensures-self (validate content) (total content)))

  pub validate_complete :
      (content : List ℕ) → validate content ≡ ok tt → map_err bad (validate content) ≡ ok tt
  validate_complete content h = rw h refl

  abbrev read_field : List ℕ → Result E (List ℕ × ℕ)
  read_field =
      read_valid tlv wrong_tag constructed number small (λ c. map_err bad (validate c))
        (λ c. validate c ≡ ok tt) validate-Ensures validate_complete

  abbrev IsField : List ℕ → Type 0
  IsField content = Fits content × (validate content ≡ ok tt)

  pub read_field-Ensures :
      (input : List ℕ)
      → IsBytes input
      → Ensures (At IsField (wrap_octets (universal_tag false number)) input) (read_field input)
  read_field-Ensures =
      read_valid-Ensures tlv wrong_tag constructed number small (λ c. map_err bad (validate c))
        (λ c. validate c ≡ ok tt) validate-Ensures validate_complete

  pub read_field-octets :
      (content rest : List ℕ)
      → IsField content
      → read_field (wrap_octets (universal_tag false number) content ++ rest)
        ≡ ok (content, length (wrap_octets (universal_tag false number) content))
  read_field-octets =
      read_valid-octets tlv wrong_tag constructed number small (λ c. map_err bad (validate c))
        (λ c. validate c ≡ ok tt) validate-Ensures validate_complete

-- With a decoder of the content.
module _ {E A : Type 0} (tlv : TlvError → E) (wrong_tag constructed : E) (number : ℕ)
    (small : number < 2 ^ 32) (c : ContentCodec E A) where
  abbrev pub read_content : List ℕ → Result E (A × ℕ)
  read_content input = do
    (t, used) ← map_err tlv (decode_tlv input)
    if not_universal t number
        then err wrong_tag
        else if t.tag.constructed
        then err constructed
        else do a ← c.parse t.value; ok (a, used)

  abbrev IsContent : A → Type 0
  IsContent a = c.Is a × Fits (c.octets a)

  abbrev content_octets : A → List ℕ
  content_octets a = wrap_octets (universal_tag false number) (c.octets a)

  pub read_content-Ensures :
      (input : List ℕ)
      → IsBytes input
      → Ensures (At IsContent content_octets input) (read_content input)
  read_content-Ensures input bytes =
      Ensures-bind (Ensures-map_err tlv (decode_tlv-Ensures input bytes)) λ (t, k) at.
        typed-Ensures _ t number false t.tag.constructed wrong_tag constructed _ (λ h. h)
          λ e.
            let (fits, size, split) = At-wrapped input t k (universal_tag false number) at e in
            Ensures-bind (c.sound t.value (At-IsBytes input t k bytes at).0) λ a (h, same). holds (
              (h, subst Fits same fits),
              size ∙ ap (λ v. length (wrap_octets (universal_tag false number) v)) same,
              split ∙ ap (λ v. wrap_octets (universal_tag false number) v ++ drop k input) same,
            )

  pub read_content-octets :
      (a : A) (rest : List ℕ)
      → IsContent a
      → read_content (content_octets a ++ rest) ≡ ok (a, length (content_octets a))
  read_content-octets a rest (h, fits) =
      rw
        (
          decode_tlv-octets (wrap (universal_tag false number) (c.octets a)) rest (small, fits),
          c.complete a h,
        )
        (ground arith)
