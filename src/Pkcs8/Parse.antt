-- ===== src/Pkcs8/Parse.antt =====
-- The two parsers of a PrivateKeyInfo read the encodings of version 0 with an algorithm, a key and attributes, and
-- no more.
use rs_verified_der.Base.{
  ℕ, ◌≡◌, ◌↔◌, refl, ap, sym, ◌∙◌, arith, true, false, not, ◌||◌, List, [], ◌∷◌, ◌++◌, append-nil,
  append_assoc, length, drop, Option, none, some, ◌!=◌,
}
use rs_verified_der.Base.Codec
use rs_verified_der.Base.Codec.{ContentCodec, Codec, At, IsBytes, mapped, split-whole}
use rs_verified_der.Base.Result.{
  ok, map_err, Ensures, holds, rejected, Ensures-bind, Ensures-if, Ensures-map_err,
}
use rs_verified_der.BigInteger
use rs_verified_der.BigInteger.{validate_integer_content}
use rs_verified_der.ContextTag.{explicit_octets, context_tag}
use rs_verified_der.IntegerField.{
  IsInteger, integer_octets, validate-ne-panic, wrapped-ne-nil, sequence-ne-nil,
}
use rs_verified_der.OctetString
use rs_verified_der.OctetString.{decode_octet_string, octet_string_octets, octet_string_codec}
use rs_verified_der.Pkcs8.{
  PrivateKeyInfo, VersionError, tlv, wrong_tag, constructed, content, Pkcs8Error, bad_outer_seq,
  missing_version, version_error, missing_algorithm, algorithm_error, missing_private_key,
  private_key_error, attributes_error, bad_tlv, trailing_elements, decode_version_tlv, is_not_v1,
  read_attributes, parse_fields, parse_pkcs8_private_key_info, parse_pkcs8_private_key_info_strict,
}
use rs_verified_der.Sequence.Envelope.{sequence_octets}
use rs_verified_der.Sequence.Fields.{parse_prefix-Ensures, parse_prefix-octets, parse_whole_iff}
use rs_verified_der.Tag.{Tag, class_eq, context_specific, decode_tag}
use rs_verified_der.Tag.Octets.{IsTag, tag_octets}
use rs_verified_der.Tag.Complete.{decode_tag-octets}
use rs_verified_der.Tag.Decode.{decode_tag-Ensures}
use rs_verified_der.Length.Octets.{length_octets}
use rs_verified_der.Tiling.{require, require-Ensures, require-octets}
use rs_verified_der.Tlv.{Tlv, decode_tlv}
use rs_verified_der.Tlv.Decode.{decode_tlv-Ensures, decode_tlv-octets}
use rs_verified_der.Tlv.Field.{read_field-Ensures, read_field-octets}
use rs_verified_der.Tlv.Octets.{IsTlv, tlv_octets}
use rs_verified_der.Tlv.Reader.{tag_codec}
use rs_verified_der.Tlv.Typed.{wrap, wrapped, Fits}
use rs_verified_der.X509AlgorithmIdentifier.{parse_algorithm_identifier}
use rs_verified_der.X509AlgorithmIdentifier.Parse.{
  IsAlgorithmIdentifier, algorithm_identifier_octets, algorithm_identifier_codec,
  is_empty-tlv_octets,
}

version_codec : Codec VersionError (List ℕ)
unfolding decode_version_tlv
version_codec = record {
  decode = decode_version_tlv;
  Is = IsInteger;
  octets = integer_octets;
  sound =
      read_field-Ensures tlv wrong_tag constructed content BigInteger.tag (omega arith)
        validate_integer_content validate-ne-panic;
  complete =
      read_field-octets tlv wrong_tag constructed content BigInteger.tag (omega arith)
        validate_integer_content validate-ne-panic;
}

-- The attributes stand in a constructed TLV `[0]`, and no attributes in none.
abbrev pub IsAttributes : Option (List ℕ) → Type 0
IsAttributes none = Unit
IsAttributes (some value) = Fits value

abbrev pub attributes_octets : Option (List ℕ) → List ℕ
attributes_octets none = []
attributes_octets (some value) = explicit_octets 0 value

-- The tag that was peeked at is the tag of the TLV.
peeked-tag :
    (rest : List ℕ) (tag : Tag) (t : Tlv) (k used : ℕ)
    → At IsTag tag_octets rest (tag, k)
    → At IsTlv tlv_octets rest (t, used)
    → tag ≡ t.tag
peeked-tag rest tag t k used (h, _, split) ((h', _), _, split') =
    let back = append_assoc (tag_octets t.tag) (length_octets (length t.value)) t.value in
    let whole : tlv_octets t ++ drop used rest
        ≡ tag_octets t.tag ++ ((length_octets (length t.value) ++ t.value) ++ drop used rest) =
      ap (λ v. v ++ drop used rest) back ∙ append_assoc (tag_octets t.tag) _ (drop used rest) in
    (Codec.octets_prefix_free tag_codec tag t.tag _ _ h h' (sym split ∙ split' ∙ whole)).0

read_attributes-Ensures :
    (rest : List ℕ)
    → IsBytes rest
    → Ensures (λ a. IsAttributes a × (rest ≡ attributes_octets a)) (read_attributes rest)
unfolding read_attributes
read_attributes-Ensures [] bytes = holds (tt, refl)
read_attributes-Ensures (b ∷ bs) bytes =
    let rest : List ℕ = b ∷ bs in
    Ensures-bind (Ensures-map_err (λ _. trailing_elements) (decode_tag-Ensures rest bytes))
      λ (tag, k) at.
        Ensures-if (not (class_eq tag.class context_specific) || tag.number != 0) (λ _. rejected)
          λ right.
            Ensures-bind
              (Ensures-map_err (λ e. attributes_error (bad_tlv e)) (decode_tlv-Ensures rest bytes))
              λ (t, used) at'.
                Ensures-if (not t.tag.constructed) (λ _. rejected)
                  λ form.
                    Ensures-if (used != length rest) (λ _. rejected)
                      λ all.
                        let same = peeked-tag rest tag t k used at at' in
                        let ((_, fits), size, split) = at' in
                        let whole : t ≡ wrap (context_tag 0) t.value =
                          wrapped t context_specific true 0
                            (ap (λ (u : Tag). class_eq u.class context_specific) (sym same)
                              ∙ ground arith)
                            (ground arith) (ap (λ (u : Tag). u.number) (sym same) ∙ ground arith) in
                        holds (
                          fits,
                          split-whole rest (tlv_octets t) used (ground arith) split
                              ∙ ap tlv_octets whole,
                        )

read_attributes-octets :
    (a : Option (List ℕ)) → IsAttributes a → read_attributes (attributes_octets a) ≡ ok a
unfolding read_attributes
read_attributes-octets none h = refl
read_attributes-octets (some value) fits =
    let t : Tlv = wrap (context_tag 0) value in
    let octets = tlv_octets t in
    let peek : decode_tag octets ≡ ok (context_tag 0, length (tag_octets (context_tag 0))) =
      ap decode_tag (append_assoc (tag_octets (context_tag 0)) (length_octets (length value)) value)
      ∙ decode_tag-octets (context_tag 0) (length_octets (length value) ++ value) (omega arith) in
    let read : decode_tlv octets ≡ ok (t, length octets) =
      ap decode_tlv (sym (append-nil octets)) ∙ decode_tlv-octets t [] (omega arith, fits) in
    rw (is_empty-tlv_octets t, peek, read) (ground arith)

-- Each field by itself.
abbrev pub IsFields : PrivateKeyInfo → Type 0
IsFields info =
    IsAlgorithmIdentifier info.algorithm × Fits info.private_key × IsAttributes info.attributes

-- The version is 0.
abbrev pub fields_octets : PrivateKeyInfo → List ℕ
fields_octets info =
    integer_octets (0x00 ∷ [])
    ++ (algorithm_identifier_octets info.algorithm
        ++ (octet_string_octets info.private_key ++ attributes_octets info.attributes))

v1_content : (c : List ℕ) → is_not_v1 c ≡ false → c ≡ 0x00 ∷ []
v1_content [] h = cc
v1_content (c ∷ []) h = ap (λ x. x ∷ []) (ground arith)
v1_content (c ∷ d ∷ more) h = cc

parse_fields-Ensures :
    (outer_content : List ℕ)
    → IsBytes outer_content
    → Ensures
        (λ info. IsFields info × (outer_content ≡ fields_octets info))
        (parse_fields outer_content)
unfolding parse_fields version_codec
parse_fields-Ensures outer_content bytes =
    Ensures-bind
      (require-Ensures (mapped version_error version_codec) missing_version outer_content bytes)
      λ (v, r₁) (hv, b₁, e₁).
        Ensures-if (is_not_v1 v) (λ _. rejected)
          λ v1.
            Ensures-bind
              (require-Ensures (mapped algorithm_error algorithm_identifier_codec) missing_algorithm
                r₁ b₁)
              λ (a, r₂) (ha, b₂, e₂).
                Ensures-bind
                  (require-Ensures (mapped private_key_error octet_string_codec) missing_private_key
                    r₂ b₂)
                  λ (k, r₃) (hk, b₃, e₃). Ensures-bind (read_attributes-Ensures r₃ b₃) λ x (hx, e₄).
                    holds (
                      (ha, hk, hx),
                      e₁
                          ∙ ap (λ c. integer_octets c ++ r₁) (v1_content v v1)
                          ∙ ap (λ r. integer_octets (0x00 ∷ []) ++ r)
                              (e₂
                                ∙ ap (λ r. algorithm_identifier_octets a ++ r)
                                    (e₃ ∙ ap (λ r. octet_string_octets k ++ r) e₄)),
                    )

zero-IsInteger : IsInteger (0x00 ∷ [])
unfolding validate_integer_content
zero-IsInteger = (omega arith, refl)

parse_fields-octets :
    (info : PrivateKeyInfo) → IsFields info → parse_fields (fields_octets info) ≡ ok info
unfolding parse_fields version_codec
parse_fields-octets info (ha, hk, hx) =
    let r₃ = attributes_octets info.attributes in
    let r₂ = octet_string_octets info.private_key ++ r₃ in
    let r₁ = algorithm_identifier_octets info.algorithm ++ r₂ in
    let version : require missing_version (λ r. map_err version_error (decode_version_tlv r))
          (fields_octets info)
        ≡ ok (0x00 ∷ [], r₁) =
      require-octets (mapped version_error version_codec) missing_version (0x00 ∷ []) r₁
        zero-IsInteger (wrapped-ne-nil BigInteger.tag (0x00 ∷ []) r₁) in
    let algorithm : require missing_algorithm
          (λ r. map_err algorithm_error (parse_algorithm_identifier r)) r₁
        ≡ ok (info.algorithm, r₂) =
      require-octets (mapped algorithm_error algorithm_identifier_codec) missing_algorithm
        info.algorithm r₂ ha (sequence-ne-nil _ r₂) in
    let key : require missing_private_key (λ r. map_err private_key_error (decode_octet_string r))
          r₂
        ≡ ok (info.private_key, r₃) =
      require-octets (mapped private_key_error octet_string_codec) missing_private_key
        info.private_key r₃ hk (wrapped-ne-nil OctetString.tag info.private_key r₃) in
    rw (version, algorithm, key, read_attributes-octets info.attributes hx) refl

fields_codec : ContentCodec Pkcs8Error PrivateKeyInfo
fields_codec = record {
  parse = parse_fields;
  Is = IsFields;
  octets = fields_octets;
  sound = parse_fields-Ensures;
  complete = parse_fields-octets;
}

abbrev pub IsInfo : PrivateKeyInfo → Type 0
IsInfo info = IsFields info × Fits (fields_octets info)

abbrev pub info_octets : PrivateKeyInfo → List ℕ
info_octets info = sequence_octets (fields_octets info)

info_codec : Codec Pkcs8Error PrivateKeyInfo
unfolding parse_pkcs8_private_key_info fields_codec
info_codec = record {
  decode = parse_pkcs8_private_key_info;
  Is = IsInfo;
  octets = info_octets;
  sound = parse_prefix-Ensures bad_outer_seq fields_codec;
  complete = parse_prefix-octets bad_outer_seq fields_codec;
}

-- On bytes, `parse_pkcs8_private_key_info` returns `(info, k)` exactly when the input begins with the DER
-- encoding, of k octets, of the SEQUENCE of the INTEGER 0, the AlgorithmIdentifier of `info`, its key as an
-- OCTET STRING and its attributes, if any, as a constructed TLV `[0]`, whose contents have fewer than
-- 2 ^ 32 octets.
pub parse_pkcs8_private_key_info_iff :
    (input : List ℕ) (info : PrivateKeyInfo) (k : ℕ)
    → IsBytes input
    → (parse_pkcs8_private_key_info input ≡ ok (info, k)) ↔ At IsInfo info_octets input (info, k)
unfolding info_codec
parse_pkcs8_private_key_info_iff = Codec.decode_iff info_codec

-- On bytes, `parse_pkcs8_private_key_info_strict` returns `info` exactly when the whole input is the DER
-- encoding of the SEQUENCE of the INTEGER 0, the AlgorithmIdentifier of `info`, its key as an OCTET STRING
-- and its attributes, if any, as a constructed TLV `[0]`, whose contents have fewer than 2 ^ 32 octets.
pub parse_pkcs8_private_key_info_strict_iff :
    (input : List ℕ) (info : PrivateKeyInfo)
    → IsBytes input
    → (parse_pkcs8_private_key_info_strict input ≡ ok info)
      ↔ (IsInfo info × (input ≡ info_octets info))
unfolding parse_pkcs8_private_key_info_strict fields_codec
parse_pkcs8_private_key_info_strict_iff = parse_whole_iff bad_outer_seq fields_codec
