-- ===== src/X509Extension/Parse.antt =====
-- `parse_extension` reads the DER encodings of extensions, and no more.
use rs_verified_der.Base.{
  ℕ, ◌≤◌, ◌≡◌, ◌≢◌, ◌↔◌, refl, ap, sym, ◌∙◌, subst, arith, Bool, true, false, not, List, [], ◌∷◌,
  ◌++◌, append-nil, length, length-append, drop, All-split, if◌then◌else◌, ◌!=◌, inl, inr,
}
use rs_verified_der.Base.Codec.{ContentCodec, Codec, At, IsByte, IsBytes, split-whole}
use mathlib.Core.Path.{ap₂}
use rs_verified_der.Base.Result.{
  ok, err, ◌>>=◌, map_err, slice_from, Ensures-self, Ensures-weaken, Ensures, holds, rejected,
  Ensures-bind, Ensures-if, Ensures-map_err, Ensures-cases,
}
use rs_verified_der.Base.Slices.{slice_from_in, slice_from-append}
use rs_verified_der.Boolean
use rs_verified_der.Boolean.{decode_bool, encode_bool, decode_bool_iff, decode_bool-ne-panic}
use rs_verified_der.IntegerField.{wrapped-ne-nil, is_empty-false}
use rs_verified_der.OctetString
use rs_verified_der.OctetString.{octet_string_octets, octet_string_codec, decode_octet_string}
use rs_verified_der.Oid
use rs_verified_der.Oid.{validate_oid}
use rs_verified_der.Sequence.Envelope.{sequence_octets}
use rs_verified_der.Sequence.Fields.{parse_whole-Ensures, parse_whole-octets, parse_whole_iff}
use rs_verified_der.Tlv.{Tlv, decode_tlv}
use rs_verified_der.Tlv.Decode.{decode_tlv-Ensures, decode_tlv-octets}
use rs_verified_der.Tlv.Octets.{IsTlv, tlv_octets}
use rs_verified_der.Tlv.Field.{is_empty, read_field-Ensures, read_field-octets}
use rs_verified_der.Tlv.Typed.{
  universal_tag, wrap, wrap_octets, Fits, At-wrapped, At-IsBytes, is_universal-wrapped,
  not_universal,
}
use rs_verified_der.X509AlgorithmIdentifier.Parse.{IsOid, oid_tlv_octets, validate_oid-ne-panic}
use rs_verified_der.X509Extension.{
  Extension, ExtensionError, bad_seq, bad_extn_id_tlv, extn_id_wrong_tag, extn_id_constructed,
  bad_oid, bad_critical, critical_must_be_true, bad_extn_value, decode_extn_id_tlv, peek_critical,
  read_value, parse_content, parse_extension,
}

id_codec : Codec ExtensionError (List ℕ)
unfolding decode_extn_id_tlv
id_codec = record {
  decode = decode_extn_id_tlv;
  Is = IsOid;
  octets = oid_tlv_octets;
  sound =
      read_field-Ensures bad_extn_id_tlv extn_id_wrong_tag extn_id_constructed bad_oid Oid.tag
        (omega arith) validate_oid validate_oid-ne-panic;
  complete =
      read_field-octets bad_extn_id_tlv extn_id_wrong_tag extn_id_constructed bad_oid Oid.tag
        (omega arith) validate_oid validate_oid-ne-panic;
}

-- X.690 11.5: the default is left out.
abbrev pub critical_octets : Bool → List ℕ
critical_octets false = []
critical_octets true = wrap_octets (universal_tag false Boolean.tag) (0xFF ∷ [])

abbrev IsPeeked : List ℕ → Bool × List ℕ → Type 0
IsPeeked rest (b, value) = IsBytes value × (rest ≡ critical_octets b ++ value)

true-octet : (b : Bool) (value : List ℕ) → decode_bool value ≡ ok b → b ≡ true → value ≡ 0xFF ∷ []
unfolding encode_bool
true-octet false value read marked = cc
true-octet true value read marked = (decode_bool_iff value true).0 read

peek_critical-Ensures :
    (rest : List ℕ) → IsBytes rest → Ensures (IsPeeked rest) (peek_critical rest (decode_tlv rest))
unfolding peek_critical
peek_critical-Ensures rest bytes = elim (Ensures-cases (decode_tlv-Ensures rest bytes)) [
  | inl ((t, k), at, e) ↦ rw e (
      Ensures-if (not_universal t Boolean.tag) (λ _. holds (bytes, refl))
        λ right.
          Ensures-if t.tag.constructed (λ _. rejected)
            λ form. found t k at (is_universal-wrapped t false Boolean.tag right form))
  | inr (x, e) ↦ rw e (holds (bytes, refl))
]
  where
    found :
        (t : Tlv) (k : ℕ)
        → At IsTlv tlv_octets rest (t, k)
        → t ≡ wrap (universal_tag false Boolean.tag) t.value
        → Ensures (IsPeeked rest) (do
          b ← map_err bad_critical (decode_bool t.value)
          if not b
              then err critical_must_be_true
              else (slice_from rest k >>= λ value_input. ok (true, value_input)))
    found t k at e =
        let (fits, size, split) = At-wrapped rest t k (universal_tag false Boolean.tag) at e in
        let (value, behind) = At-IsBytes rest t k bytes at in
        let within : k ≤ length rest = omega (
          arith,
          ap (λ (t : List ℕ). length t) split,
          length-append (wrap_octets (universal_tag false Boolean.tag) t.value) (drop k rest),
        ) in
        Ensures-bind
          (Ensures-map_err bad_critical
            (Ensures-self (decode_bool t.value) (decode_bool-ne-panic t.value)))
          λ b read.
            Ensures-if (not b) (λ _. rejected)
              λ marked. rw (slice_from_in {E = ExtensionError} rest k within) (
                holds (
                  behind,
                  split
                      ∙ ap (λ v. wrap_octets (universal_tag false Boolean.tag) v ++ drop k rest)
                          (true-octet b t.value read (ground arith)),
                ))

-- An identifier that `validate_oid` accepts and a value that fits its length field.
abbrev pub IsContent : Extension → Type 0
IsContent e = IsOid e.extn_id × Fits e.extn_value

-- What stands behind the identifier.
abbrev pub tail_octets : Extension → List ℕ
tail_octets e = critical_octets e.critical ++ octet_string_octets e.extn_value

abbrev pub content_octets : Extension → List ℕ
content_octets e = oid_tlv_octets e.extn_id ++ tail_octets e

read_value-Ensures :
    (extn_id : List ℕ) (critical : Bool) (value : List ℕ)
    → IsBytes value
    → Ensures
        (λ e.
          (e.extn_id ≡ extn_id)
          × (e.critical ≡ critical)
          × Fits e.extn_value
          × (value ≡ octet_string_octets e.extn_value))
        (read_value extn_id critical value)
unfolding read_value
read_value-Ensures extn_id critical value bytes =
    Ensures-if (is_empty value) (λ _. rejected)
      λ _.
        Ensures-bind (Ensures-map_err bad_extn_value (Codec.sound octet_string_codec value bytes))
          λ (content, k) (fits, size, split).
            Ensures-if (k != length value) (λ _. rejected)
              λ all. holds (
                refl,
                refl,
                fits,
                split-whole value (octet_string_octets content) k (ground arith) split,
              )

parse_content-Ensures :
    (content : List ℕ)
    → IsBytes content
    → Ensures (λ e. IsContent e × (content ≡ content_octets e)) (parse_content content)
unfolding parse_content id_codec
parse_content-Ensures content bytes =
    Ensures-bind (Codec.sound id_codec content bytes) λ (oid, k) (h, size, split).
      let within : k ≤ length content = omega (
        arith,
        ap (λ (t : List ℕ). length t) split,
        length-append (oid_tlv_octets oid) (drop k content),
      ) in
      let behind =
        (All-split IsByte (oid_tlv_octets oid) (drop k content) (subst IsBytes split bytes)).1 in
      rw (slice_from_in {E = ExtensionError} content k within) (
        Ensures-if (is_empty (drop k content)) (λ _. rejected)
          λ _.
            Ensures-bind (peek_critical-Ensures (drop k content) behind)
              λ (b, value) (value_bytes, shape).
                Ensures-weaken
                  (λ e (same, crit, fits, spelled). (
                    (subst IsOid (sym same) h, fits),
                    split
                        ∙ ap (λ t. oid_tlv_octets oid ++ t)
                            (shape ∙ ap (λ t. critical_octets b ++ t) spelled)
                        ∙ ap₂
                            (λ o c.
                              oid_tlv_octets o
                              ++ (critical_octets c ++ octet_string_octets e.extn_value))
                            (sym same) (sym crit),
                  ))
                  (read_value-Ensures oid b value value_bytes))

peek_critical-octets :
    (b : Bool) (value : List ℕ)
    → Fits value
    → let rest = critical_octets b ++ octet_string_octets value in
      peek_critical rest (decode_tlv rest) ≡ ok (b, octet_string_octets value)
unfolding peek_critical decode_bool
peek_critical-octets false value fits =
    let octets = octet_string_octets value in
    let read : decode_tlv octets
        ≡ ok (wrap (universal_tag false OctetString.tag) value, length octets) =
      ap decode_tlv (sym (append-nil octets))
      ∙ decode_tlv-octets (wrap (universal_tag false OctetString.tag) value) []
          (omega arith, fits) in
    rw read refl
peek_critical-octets true value fits =
    let octets = octet_string_octets value in
    let flag = wrap (universal_tag false Boolean.tag) (0xFF ∷ []) in
    rw
      (
        decode_tlv-octets flag octets (omega arith, omega arith),
        slice_from-append {E = ExtensionError} (critical_octets true) octets,
      )
      refl

tail-ne-nil : (b : Bool) (value : List ℕ) → critical_octets b ++ octet_string_octets value ≢ []
tail-ne-nil false value e =
    wrapped-ne-nil OctetString.tag value [] (append-nil (octet_string_octets value) ∙ e)
tail-ne-nil true value e = wrapped-ne-nil Boolean.tag (0xFF ∷ []) (octet_string_octets value) e

parse_content-octets : (e : Extension) → IsContent e → parse_content (content_octets e) ≡ ok e
unfolding parse_content read_value id_codec
parse_content-octets e (h, fits) =
    let octets = octet_string_octets e.extn_value in
    let read : decode_octet_string octets ≡ ok (e.extn_value, length octets) =
      ap decode_octet_string (sym (append-nil octets))
      ∙ Codec.complete octet_string_codec e.extn_value [] fits in
    rw
      (
        Codec.complete id_codec e.extn_id (tail_octets e) h,
        slice_from-append {E = ExtensionError} (oid_tlv_octets e.extn_id) (tail_octets e),
        is_empty-false (tail_octets e) (tail-ne-nil e.critical e.extn_value),
        peek_critical-octets e.critical e.extn_value fits,
        is_empty-false octets
            (λ none. wrapped-ne-nil OctetString.tag e.extn_value [] (append-nil octets ∙ none)),
        read,
      )
      (ground arith)

content_codec : ContentCodec ExtensionError Extension
content_codec = record {
  parse = parse_content;
  Is = IsContent;
  octets = content_octets;
  sound = parse_content-Ensures;
  complete = parse_content-octets;
}

abbrev pub IsExtension : Extension → Type 0
IsExtension e = IsContent e × Fits (content_octets e)

abbrev pub extension_octets : Extension → List ℕ
extension_octets e = sequence_octets (content_octets e)

pub parse_extension-Ensures :
    (input : List ℕ)
    → IsBytes input
    → Ensures (λ e. IsExtension e × (input ≡ extension_octets e)) (parse_extension input)
unfolding parse_extension content_codec
parse_extension-Ensures = parse_whole-Ensures bad_seq content_codec

pub parse_extension-octets :
    (e : Extension) → IsExtension e → parse_extension (extension_octets e) ≡ ok e
unfolding parse_extension content_codec
parse_extension-octets = parse_whole-octets bad_seq content_codec

-- On bytes, `parse_extension` returns e exactly when the whole input is the DER encoding of the SEQUENCE of
-- an OID that `validate_oid` accepts, the BOOLEAN TRUE if e is critical and no BOOLEAN if it is not, and
-- the OCTET STRING of the value of e. The contents have fewer than 2 ^ 32 octets.
pub parse_extension_iff :
    (input : List ℕ) (e : Extension)
    → IsBytes input
    → (parse_extension input ≡ ok e) ↔ (IsExtension e × (input ≡ extension_octets e))
unfolding parse_extension content_codec
parse_extension_iff = parse_whole_iff bad_seq content_codec
