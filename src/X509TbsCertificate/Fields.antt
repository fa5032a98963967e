-- ===== src/X509TbsCertificate/Fields.antt =====
-- The fields of a TBSCertificate between the version and the extensions, as codecs.
use rs_verified_der.Base.{ℕ, ◌≡◌, refl, ap, ◌∙◌, arith, true, List}
use rs_verified_der.Base.Codec.{ContentCodec, Codec, mapped, mapped_content}
use rs_verified_der.Base.Result.{ok, holds, Ensures-bind, Ensures-map_err}
use rs_verified_der.BigInteger
use rs_verified_der.BigInteger.{validate_integer_content}
use rs_verified_der.IntegerField.{IsInteger, integer_octets, validate-ne-panic}
use rs_verified_der.Sequence
use rs_verified_der.Sequence.Envelope.{sequence_octets}
use rs_verified_der.Tiling.{span_codec}
use rs_verified_der.Tlv.{Tlv}
use rs_verified_der.Tlv.Field.{read_field-Ensures, read_field-octets}
use rs_verified_der.Tlv.Error.{TlvError}
use rs_verified_der.Tlv.Octets.{IsTlv, tlv_octets}
use rs_verified_der.Tlv.Typed.{universal_tag, wrap, Fits}
use rs_verified_der.X509AlgorithmIdentifier.{AlgorithmIdentifier}
use rs_verified_der.X509AlgorithmIdentifier.Parse.{algorithm_identifier_codec}
use rs_verified_der.X509Name.{NameError, validate_name}
use rs_verified_der.X509Name.Rdn.{IsName, name_octets, validate_name-Ensures, validate_name-octets}
use rs_verified_der.X509Spki.{SubjectPublicKeyInfo, SpkiError, parse_subject_public_key_info}
use rs_verified_der.X509Spki.Parse.{
  IsSpki, spki_octets, parse_subject_public_key_info-Ensures, parse_subject_public_key_info-octets,
}
use rs_verified_der.X509TbsCertificate.{
  TbsCertificateError, bad_serial_tlv, serial_wrong_tag, bad_serial, bad_signature,
  bad_validity_tlv, bad_validity, bad_spki_tlv, bad_spki, read_serial, checked_name,
}
use rs_verified_der.X509Validity.{Validity, ValidityError, parse_validity}
use rs_verified_der.X509Validity.Parse.{
  IsValidity, validity_octets, parse_validity-Ensures, parse_validity-octets,
}

-- The encoding of a SEQUENCE is that of one TLV.
pub sequence_tlv :
    (content : List ℕ)
    → Fits content
    → (t : Tlv) × IsTlv t × (sequence_octets content ≡ tlv_octets t)
sequence_tlv content fits =
    (wrap (universal_tag true Sequence.tag) content, (omega arith, fits), refl)

unfoldable pub serial_codec : Codec TbsCertificateError (List ℕ)
unfolding read_serial
serial_codec = record {
  decode = read_serial;
  Is = IsInteger;
  octets = integer_octets;
  sound =
      read_field-Ensures bad_serial_tlv serial_wrong_tag serial_wrong_tag bad_serial BigInteger.tag
        (omega arith) validate_integer_content validate-ne-panic;
  complete =
      read_field-octets bad_serial_tlv serial_wrong_tag serial_wrong_tag bad_serial BigInteger.tag
        (omega arith) validate_integer_content validate-ne-panic;
}

abbrev pub signature_codec : Codec TbsCertificateError AlgorithmIdentifier
signature_codec = mapped bad_signature algorithm_identifier_codec

-- The octets of a name.
abbrev pub IsNameSpan : List ℕ → Type 0
IsNameSpan span = (rdns : List (List Tlv)) × IsName rdns × (span ≡ name_octets rdns)

name_content : (NameError → TbsCertificateError) → ContentCodec TbsCertificateError (List ℕ)
unfolding checked_name
name_content bad = record {
  parse = checked_name bad;
  Is = IsNameSpan;
  octets = λ span. span;
  sound = λ span bytes.
      Ensures-bind (Ensures-map_err bad (validate_name-Ensures span bytes)) λ _ h. holds (h, refl);
  complete = λ span (rdns, h, e).
      let accepted : validate_name span ≡ ok tt =
        ap validate_name e ∙ validate_name-octets rdns h in
      rw accepted refl;
}

unfoldable pub name_codec :
    (bad_tlv : TlvError → TbsCertificateError) (bad : NameError → TbsCertificateError)
    → Codec TbsCertificateError (List ℕ)
unfolding name_content
name_codec bad_tlv bad =
    span_codec bad_tlv (name_content bad)
      (λ span (rdns, (_, fits), e). let (t, h, same) = sequence_tlv _ fits in (t, h, e ∙ same))

validity_content : ContentCodec ValidityError Validity
validity_content = record {
  parse = parse_validity;
  Is = IsValidity;
  octets = validity_octets;
  sound = parse_validity-Ensures;
  complete = parse_validity-octets;
}

unfoldable pub validity_codec : Codec TbsCertificateError Validity
unfolding validity_content
validity_codec =
    span_codec bad_validity_tlv (mapped_content bad_validity validity_content)
      (λ v (_, fits). sequence_tlv _ fits)

spki_content : ContentCodec SpkiError SubjectPublicKeyInfo
spki_content = record {
  parse = parse_subject_public_key_info;
  Is = IsSpki;
  octets = spki_octets;
  sound = parse_subject_public_key_info-Ensures;
  complete = parse_subject_public_key_info-octets;
}

unfoldable pub spki_codec : Codec TbsCertificateError SubjectPublicKeyInfo
unfolding spki_content
spki_codec =
    span_codec bad_spki_tlv (mapped_content bad_spki spki_content)
      (λ spki (_, fits). sequence_tlv _ fits)
