-- ===== src/X509TbsCertificate/Extensions.antt =====
-- The end of a TBSCertificate: extensions in a wrapper `[3]`, or nothing.
use rs_verified_der.Base.{
  ℕ, ◌≡◌, refl, ap, sym, ◌∙◌, arith, false, not, ◌||◌, List, [], ◌∷◌, ◌++◌, append-nil, length,
  Option, none, some, inl, inr,
}
use rs_verified_der.Base.Codec.{At, IsBytes}
use rs_verified_der.Base.Result.{
  slice_from, ok, Ensures, holds, rejected, Ensures-bind, Ensures-if, Ensures-map_err,
  Ensures-cases,
}
use rs_verified_der.Base.Slices.{slice_from_in, slice_from-append}
use rs_verified_der.ContextTag.{
  decode_explicit_context, explicit_octets, context_tag, decode_explicit_context-Ensures,
  decode_explicit_context-octets,
}
use rs_verified_der.Tiling.{At-Left}
use rs_verified_der.Tlv.{decode_tlv}
use rs_verified_der.Tlv.Decode.{decode_tlv-Ensures, decode_tlv-octets}
use rs_verified_der.Tlv.Field.{is_empty}
use rs_verified_der.Tlv.Typed.{wrap, Fits, At-IsBytes}
use rs_verified_der.X509AlgorithmIdentifier.Parse.{is_empty-tlv_octets}
use rs_verified_der.X509Extension.{Extension, validate_extensions}
use rs_verified_der.X509Extension.Members.{
  AreExtensions, extensions_octets, validate_extensions-Ensures, validate_extensions-octets,
}
use rs_verified_der.X509TbsCertificate.{
  TbsCertificateError, bad_extensions_tag, bad_extensions, is_context, reject_unique_id,
  read_extensions, read_tail,
}

-- The octets of extensions that `validate_extensions` accepts and that fit the wrapper.
abbrev pub IsExtensions : List ℕ → Type 0
IsExtensions inner =
    Fits inner × ((es : List Extension) × AreExtensions es × (inner ≡ extensions_octets es))

abbrev pub IsTail : Option (List ℕ) → Type 0
IsTail none = Unit
IsTail (some inner) = IsExtensions inner

abbrev pub tail_octets : Option (List ℕ) → List ℕ
tail_octets none = []
tail_octets (some inner) = explicit_octets 3 inner

IsTailLeft : List ℕ → Option (List ℕ) × List ℕ → Type 0
IsTailLeft rest (e, rest') = IsTail e × (rest ≡ tail_octets e ++ rest')

read_extensions-Ensures :
    (rest : List ℕ)
    → IsBytes rest
    → Ensures (IsTailLeft rest) (read_extensions rest (decode_tlv rest))
unfolding read_extensions IsTailLeft
read_extensions-Ensures rest bytes = elim (Ensures-cases (decode_tlv-Ensures rest bytes)) [
  | inr (x, e) ↦ rw e (holds (tt, refl))
  | inl ((t, k), _, e) ↦ rw e (
      Ensures-if (not (is_context 3 t)) (λ _. holds (tt, refl))
        λ _.
          Ensures-bind
            (Ensures-map_err bad_extensions_tag (decode_explicit_context-Ensures 3 rest bytes))
            λ (inner, used) at.
              let (within, (fits, behind, split)) =
                At-Left Fits (explicit_octets 3) rest inner used bytes at in
              Ensures-bind
                (Ensures-map_err bad_extensions
                  (validate_extensions-Ensures inner (inner-IsBytes inner used at)))
                λ _ good.
                  rw (slice_from_in {E = TbsCertificateError} rest used within)
                    (holds ((fits, good), split)))
]
  where
    inner-IsBytes :
        (inner : List ℕ) (used : ℕ) → At Fits (explicit_octets 3) rest (inner, used) → IsBytes inner
    inner-IsBytes inner used (fits, size, split) =
        (At-IsBytes rest (wrap (context_tag 3) inner) used bytes
          ((omega arith, fits), size, split)).0

reject_unique_id-Ensures :
    (rest : List ℕ)
    → IsBytes rest
    → Ensures (λ _. Unit {0}) (reject_unique_id rest (decode_tlv rest))
unfolding reject_unique_id
reject_unique_id-Ensures rest bytes = elim (Ensures-cases (decode_tlv-Ensures rest bytes)) [
  | inr (x, e) ↦ rw e (holds tt)
  | inl ((t, k), _, e) ↦
      rw e (Ensures-if (is_context 1 t || is_context 2 t) (λ _. rejected) λ _. holds tt)
]

empty-nil : (xs : List ℕ) → not (is_empty xs) ≡ false → xs ≡ []
empty-nil [] h = refl
empty-nil (x ∷ xs) h = cc

pub read_tail-Ensures :
    (rest : List ℕ)
    → IsBytes rest
    → Ensures (λ e. IsTail e × (rest ≡ tail_octets e)) (read_tail rest)
unfolding read_tail IsTailLeft
read_tail-Ensures [] bytes = holds (tt, refl)
read_tail-Ensures (b ∷ bs) bytes = Ensures-bind (reject_unique_id-Ensures (b ∷ bs) bytes) λ _ _.
    Ensures-bind (read_extensions-Ensures (b ∷ bs) bytes) λ (e, rest') (h, split).
      Ensures-if (not (is_empty rest')) (λ _. rejected)
        λ over. holds (
          h,
          split ∙ ap (λ t. tail_octets e ++ t) (empty-nil rest' over) ∙ append-nil (tail_octets e),
        )

pub read_tail-octets : (e : Option (List ℕ)) → IsTail e → read_tail (tail_octets e) ≡ ok e
unfolding read_tail reject_unique_id read_extensions
read_tail-octets none h = refl
read_tail-octets (some inner) (fits, (es, good, same)) =
    let octets = explicit_octets 3 inner in
    let accepted : validate_extensions inner ≡ ok tt =
      ap validate_extensions same ∙ validate_extensions-octets es good in
    let read : decode_tlv octets ≡ ok (wrap (context_tag 3) inner, length octets) =
      ap decode_tlv (sym (append-nil octets))
      ∙ decode_tlv-octets (wrap (context_tag 3) inner) [] (omega arith, fits) in
    let unwrap : decode_explicit_context 3 octets ≡ ok (inner, length octets) =
      ap (decode_explicit_context 3) (sym (append-nil octets))
      ∙ decode_explicit_context-octets 3 inner [] (omega arith) fits in
    let behind : slice_from {E = TbsCertificateError} octets (length octets) ≡ ok [] =
      ap (λ v. slice_from {E = TbsCertificateError} v (length octets)) (sym (append-nil octets))
      ∙ slice_from-append {E = TbsCertificateError} octets [] in
    rw (is_empty-tlv_octets (wrap (context_tag 3) inner), read, unwrap, accepted, behind) refl
