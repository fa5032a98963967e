-- ===== src/X509TbsCertificate/Parse.antt =====
-- `parse_tbs_certificate` reads the DER encodings of the TBSCertificates without unique identifiers, and no more.
use rs_verified_der.Base.{ℕ, ◌≤◌, ◌≡◌, ◌≢◌, ◌↔◌, refl, ap, sym, ◌∙◌, arith, false, List, [], ◌++◌}
use rs_verified_der.Base.Codec.{ContentCodec, IsBytes}
use rs_verified_der.Base.Result.{ok, Ensures, holds, Ensures-bind, map_err}
use rs_verified_der.BigInteger
use rs_verified_der.IntegerField.{IsInteger, integer_octets, wrapped-ne-nil, sequence-ne-nil}
use rs_verified_der.Sequence.Envelope.{sequence_octets}
use rs_verified_der.Sequence.Fields.{parse_whole-Ensures, parse_whole-octets, parse_whole_iff}
use rs_verified_der.Tiling.{require, read_span, require-Ensures, require-octets}
use rs_verified_der.Tlv.{decode_tlv}
use rs_verified_der.Tlv.Typed.{universal_tag, wrap, Fits}
use rs_verified_der.X509AlgorithmIdentifier.{parse_algorithm_identifier}
use rs_verified_der.X509AlgorithmIdentifier.Parse.{
  IsAlgorithmIdentifier, algorithm_identifier_octets,
}
use rs_verified_der.X509Spki.{parse_subject_public_key_info}
use rs_verified_der.X509Spki.Parse.{IsSpki, spki_octets}
use rs_verified_der.X509TbsCertificate.{
  TbsCertificate, TbsCertificateError, bad_outer_seq, missing_serial, missing_signature,
  bad_signature, missing_issuer, bad_issuer_tlv, bad_issuer, missing_validity, bad_validity_tlv,
  bad_validity, missing_subject, bad_subject_tlv, bad_subject, missing_spki, bad_spki_tlv, bad_spki,
  read_version, read_serial, checked_name, parse_content, parse_tbs_certificate,
}
use rs_verified_der.X509TbsCertificate.Extensions.{
  IsTail, tail_octets, read_tail-Ensures, read_tail-octets,
}
use rs_verified_der.X509TbsCertificate.Fields.{
  serial_codec, signature_codec, IsNameSpan, name_codec, validity_codec, spki_codec,
}
use rs_verified_der.X509TbsCertificate.Version.{
  version_octets, read_version-Ensures, read_version-octets,
}
use rs_verified_der.X509Validity.{parse_validity}
use rs_verified_der.X509Validity.Parse.{IsValidity, validity_octets}

-- Each field by itself.
abbrev pub IsContent : TbsCertificate → Type 0
IsContent tbs =
    (tbs.version ≤ 2)
    × IsInteger tbs.serial_number
    × IsAlgorithmIdentifier tbs.signature
    × IsNameSpan tbs.issuer
    × IsValidity tbs.validity
    × IsNameSpan tbs.subject
    × IsSpki tbs.subject_public_key_info
    × IsTail tbs.extensions

-- The fields one after the other, from each of them on.
abbrev pub key_octets : TbsCertificate → List ℕ
key_octets tbs = spki_octets tbs.subject_public_key_info ++ tail_octets tbs.extensions

abbrev pub names_octets : TbsCertificate → List ℕ
names_octets tbs = tbs.issuer ++ (validity_octets tbs.validity ++ (tbs.subject ++ key_octets tbs))

abbrev pub content_octets : TbsCertificate → List ℕ
content_octets tbs =
    version_octets tbs.version
    ++ (integer_octets tbs.serial_number
        ++ (algorithm_identifier_octets tbs.signature ++ names_octets tbs))

parse_content-Ensures :
    (content : List ℕ)
    → IsBytes content
    → Ensures (λ tbs. IsContent tbs × (content ≡ content_octets tbs)) (parse_content content)
unfolding parse_content serial_codec name_codec validity_codec spki_codec
parse_content-Ensures content bytes =
    Ensures-bind (read_version-Ensures content bytes) λ (v, r₁) (hv, b₁, e₁).
      Ensures-bind (require-Ensures serial_codec missing_serial r₁ b₁) λ (n, r₂) (hn, b₂, e₂).
        Ensures-bind (require-Ensures signature_codec missing_signature r₂ b₂)
          λ (a, r₃) (ha, b₃, e₃).
            Ensures-bind
              (require-Ensures (name_codec bad_issuer_tlv bad_issuer) missing_issuer r₃ b₃)
              λ (i, r₄) (hi, b₄, e₄).
                Ensures-bind (require-Ensures validity_codec missing_validity r₄ b₄)
                  λ (t, r₅) (ht, b₅, e₅).
                    Ensures-bind
                      (require-Ensures (name_codec bad_subject_tlv bad_subject) missing_subject r₅
                        b₅)
                      λ (s, r₆) (hs, b₆, e₆).
                        Ensures-bind (require-Ensures spki_codec missing_spki r₆ b₆)
                          λ (k, r₇) (hk, b₇, e₇).
                            Ensures-bind (read_tail-Ensures r₇ b₇) λ x (hx, e₈). holds (
                              (hv, hn, ha, hi, ht, hs, hk, hx),
                              e₁
                                  ∙ ap (λ r. version_octets v ++ r)
                                      (e₂
                                        ∙ ap (λ r. integer_octets n ++ r)
                                            (e₃
                                              ∙ ap (λ r. algorithm_identifier_octets a ++ r)
                                                  (e₄
                                                    ∙ ap (λ r. i ++ r)
                                                        (e₅
                                                          ∙ ap (λ r. validity_octets t ++ r)
                                                            (e₆
                                                            ∙ ap (λ r. s ++ r)
                                                            (e₇
                                                            ∙ ap (λ r. spki_octets k ++ r) e₈)))))),
                            )

name-ne-nil : (span rest : List ℕ) → IsNameSpan span → span ++ rest ≢ []
name-ne-nil span rest (rdns, h, e) none =
    sequence-ne-nil _ rest (ap (λ v. v ++ rest) (sym e) ∙ none)

parse_content-octets :
    (tbs : TbsCertificate) → IsContent tbs → parse_content (content_octets tbs) ≡ ok tbs
unfolding parse_content serial_codec name_codec validity_codec spki_codec
parse_content-octets tbs (hv, hn, ha, hi, ht, hs, hk, hx) =
    let r₇ = tail_octets tbs.extensions in
    let r₆ = key_octets tbs in
    let r₅ = tbs.subject ++ r₆ in
    let r₄ = validity_octets tbs.validity ++ r₅ in
    let r₃ = names_octets tbs in
    let r₂ = algorithm_identifier_octets tbs.signature ++ r₃ in
    let r₁ = integer_octets tbs.serial_number ++ r₂ in
    let content = content_octets tbs in
    let version : read_version content (decode_tlv content) ≡ ok (tbs.version, r₁) =
      read_version-octets tbs.version (wrap (universal_tag false BigInteger.tag) tbs.serial_number)
        r₂ hv (omega arith, hn.0) refl in
    let serial : require missing_serial read_serial r₁ ≡ ok (tbs.serial_number, r₂) =
      require-octets serial_codec missing_serial tbs.serial_number r₂ hn
        (wrapped-ne-nil BigInteger.tag tbs.serial_number r₂) in
    let signature : require missing_signature
          (λ r. map_err bad_signature (parse_algorithm_identifier r)) r₂
        ≡ ok (tbs.signature, r₃) =
      require-octets signature_codec missing_signature tbs.signature r₃ ha (sequence-ne-nil _ r₃) in
    let issuer : require missing_issuer (read_span bad_issuer_tlv (checked_name bad_issuer)) r₃
        ≡ ok (tbs.issuer, r₄) =
      require-octets (name_codec bad_issuer_tlv bad_issuer) missing_issuer tbs.issuer r₄ hi
        (name-ne-nil tbs.issuer r₄ hi) in
    let validity : require missing_validity
          (read_span bad_validity_tlv (λ s. map_err bad_validity (parse_validity s))) r₄
        ≡ ok (tbs.validity, r₅) =
      require-octets validity_codec missing_validity tbs.validity r₅ ht (sequence-ne-nil _ r₅) in
    let subject : require missing_subject (read_span bad_subject_tlv (checked_name bad_subject)) r₅
        ≡ ok (tbs.subject, r₆) =
      require-octets (name_codec bad_subject_tlv bad_subject) missing_subject tbs.subject r₆ hs
        (name-ne-nil tbs.subject r₆ hs) in
    let key : require missing_spki
          (read_span bad_spki_tlv (λ s. map_err bad_spki (parse_subject_public_key_info s))) r₆
        ≡ ok (tbs.subject_public_key_info, r₇) =
      require-octets spki_codec missing_spki tbs.subject_public_key_info r₇ hk
        (sequence-ne-nil _ r₇) in
    rw
      (
        version,
        serial,
        signature,
        issuer,
        validity,
        subject,
        key,
        read_tail-octets tbs.extensions hx,
      )
      refl

content_codec : ContentCodec TbsCertificateError TbsCertificate
content_codec = record {
  parse = parse_content;
  Is = IsContent;
  octets = content_octets;
  sound = parse_content-Ensures;
  complete = parse_content-octets;
}

abbrev pub IsTbs : TbsCertificate → Type 0
IsTbs tbs = IsContent tbs × Fits (content_octets tbs)

abbrev pub tbs_octets : TbsCertificate → List ℕ
tbs_octets tbs = sequence_octets (content_octets tbs)

pub parse_tbs_certificate-Ensures :
    (input : List ℕ)
    → IsBytes input
    → Ensures (λ tbs. IsTbs tbs × (input ≡ tbs_octets tbs)) (parse_tbs_certificate input)
unfolding parse_tbs_certificate content_codec
parse_tbs_certificate-Ensures = parse_whole-Ensures bad_outer_seq content_codec

pub parse_tbs_certificate-octets :
    (tbs : TbsCertificate) → IsTbs tbs → parse_tbs_certificate (tbs_octets tbs) ≡ ok tbs
unfolding parse_tbs_certificate content_codec
parse_tbs_certificate-octets = parse_whole-octets bad_outer_seq content_codec

-- On bytes, `parse_tbs_certificate` returns `tbs` exactly when the whole input is the DER encoding of the
-- SEQUENCE of the fields of `tbs`, in their order: the version as an INTEGER 1 or 2 in a wrapper `[0]`, or
-- no octets for 0; the serial number as a minimal INTEGER; the AlgorithmIdentifier; the issuer, the
-- validity, the subject and the public key, each as its own parser reads it; and the extensions, if any,
-- in a wrapper `[3]`, as `validate_extensions` accepts them. The contents have fewer than 2 ^ 32 octets.
pub parse_tbs_certificate_iff :
    (input : List ℕ) (tbs : TbsCertificate)
    → IsBytes input
    → (parse_tbs_certificate input ≡ ok tbs) ↔ (IsTbs tbs × (input ≡ tbs_octets tbs))
unfolding parse_tbs_certificate content_codec
parse_tbs_certificate_iff = parse_whole_iff bad_outer_seq content_codec
