-- ===== src/X509Name/Attribute.antt =====
-- `validate_atv` accepts the TLVs of an attribute type with one TLV of a legal form, and no more.
use rs_verified_der.Base.{
  ℕ, ◌≤◌, ◌≡◌, ◌↔◌, ap, sym, ◌∙◌, subst, arith, true, not, List, [], ◌++◌, append-nil, length,
  length-append, drop, All-split, ◌!=◌,
}
use rs_verified_der.Base.Codec.{Codec, IsByte, IsBytes, split-whole}
use rs_verified_der.Base.Result.{
  ok, Ensures, rejected, Ensures-bind, Ensures-if, Ensures-map_err, Ensures-weaken, Ensures-ok,
}
use rs_verified_der.Base.Slices.{slice_from_in, slice_from-append}
use rs_verified_der.IdentifierForm.Legal.{IsCheckedTlv, validate-Ensures, validate_complete}
use rs_verified_der.Oid
use rs_verified_der.Oid.{validate_oid}
use rs_verified_der.Sequence
use rs_verified_der.Tlv.{Tlv, decode_tlv}
use rs_verified_der.Tlv.Decode.{decode_tlv-Ensures, decode_tlv-octets}
use rs_verified_der.Tlv.Octets.{tlv_octets}
use rs_verified_der.Tlv.Field.{is_empty, read_field-Ensures, read_field-octets}
use rs_verified_der.Tlv.Typed.{universal_tag, wrap, typed-Ensures}
use rs_verified_der.X509AlgorithmIdentifier.Parse.{
  IsOid, oid_tlv_octets, validate_oid-ne-panic, is_empty-tlv_octets,
}
use rs_verified_der.X509Name.{
  NameError, bad_atv_oid_tlv, atv_oid_wrong_tag, atv_oid_constructed, bad_atv_oid,
  bad_atv_value_tlv, atv_value_form, atv_wrong_tag, atv_not_constructed, decode_atv_oid_tlv,
  validate_fields, validate_atv,
}

type_codec : Codec NameError (List ℕ)
unfolding decode_atv_oid_tlv
type_codec = record {
  decode = decode_atv_oid_tlv;
  Is = IsOid;
  octets = oid_tlv_octets;
  sound =
      read_field-Ensures bad_atv_oid_tlv atv_oid_wrong_tag atv_oid_constructed bad_atv_oid Oid.tag
        (omega arith) validate_oid validate_oid-ne-panic;
  complete =
      read_field-octets bad_atv_oid_tlv atv_oid_wrong_tag atv_oid_constructed bad_atv_oid Oid.tag
        (omega arith) validate_oid validate_oid-ne-panic;
}

-- An attribute type and the TLV of its value.
abbrev pub IsAttribute : List ℕ → Type 0
IsAttribute content =
    (oid : List ℕ) × (value : Tlv) × IsOid oid
    × IsCheckedTlv value
    × (content ≡ oid_tlv_octets oid ++ tlv_octets value)

-- The TLV of an attribute.
abbrev pub IsAtv : Tlv → Type 0
IsAtv t = (t ≡ wrap (universal_tag true Sequence.tag) t.value) × IsAttribute t.value

validate_fields-Ensures :
    (content : List ℕ)
    → IsBytes content
    → Ensures (λ _. IsAttribute content) (validate_fields content)
unfolding validate_fields type_codec
validate_fields-Ensures content bytes =
    Ensures-bind (Codec.sound type_codec content bytes) λ (oid, k) (h, size, split).
      let within : k ≤ length content = omega (
        arith,
        ap (λ (t : List ℕ). length t) split,
        length-append (oid_tlv_octets oid) (drop k content),
      ) in
      let rest = drop k content in
      let behind = (All-split IsByte (oid_tlv_octets oid) rest (subst IsBytes split bytes)).1 in
      rw (slice_from_in {E = NameError} content k within) (
        Ensures-if (is_empty rest) (λ _. rejected)
          λ _.
            Ensures-bind (Ensures-map_err bad_atv_value_tlv (decode_tlv-Ensures rest behind))
              λ (t, used) (good, size', split').
                Ensures-if (used != length rest) (λ _. rejected)
                  λ all.
                    Ensures-weaken
                      (λ _ legal. (
                        oid,
                        t,
                        h,
                        (good, legal),
                        split
                            ∙ ap (λ r. oid_tlv_octets oid ++ r)
                                (split-whole rest (tlv_octets t) used (ground arith) split'),
                      ))
                      (Ensures-map_err atv_value_form (validate-Ensures t.tag)))

validate_fields-octets : (content : List ℕ) → IsAttribute content → validate_fields content ≡ ok tt
unfolding validate_fields type_codec
validate_fields-octets content (oid, t, h, (good, legal), e) =
    let octets = tlv_octets t in
    let read : decode_tlv octets ≡ ok (t, length octets) =
      ap decode_tlv (sym (append-nil octets)) ∙ decode_tlv-octets t [] good in
    rw
      (
        e,
        Codec.complete type_codec oid octets h,
        slice_from-append {E = NameError} (oid_tlv_octets oid) octets,
        is_empty-tlv_octets t,
        read,
        validate_complete t.tag legal,
      )
      (ground arith)

pub validate_atv-Ensures : (t : Tlv) → IsBytes t.value → Ensures (λ _. IsAtv t) (validate_atv t)
unfolding validate_atv
validate_atv-Ensures t bytes =
    typed-Ensures (λ _. IsAtv t) t Sequence.tag true (not t.tag.constructed) atv_wrong_tag
      atv_not_constructed (validate_fields t.value) (λ h. ground arith)
      λ e. Ensures-weaken (λ _ h. (e, h)) (validate_fields-Ensures t.value bytes)

pub validate_atv-octets : (t : Tlv) → IsAtv t → validate_atv t ≡ ok tt
unfolding validate_atv
validate_atv-octets t (e, h) = rw e (validate_fields-octets t.value h)

-- On bytes, `validate_atv` accepts a TLV exactly when it is a constructed SEQUENCE (UNIVERSAL 16) and its value
-- is the DER encoding of an OID that `validate_oid` accepts, followed by that of one TLV whose identifier
-- has a form that X.690 allows, and by nothing more.
pub validate_atv_iff : (t : Tlv) → IsBytes t.value → (validate_atv t ≡ ok tt) ↔ IsAtv t
validate_atv_iff t bytes = (Ensures-ok (validate_atv-Ensures t bytes), validate_atv-octets t)
