-- ===== src/Examples/Structures.antt =====
-- Structures of several fields, the EXPLICIT wrapper and the form of identifiers.
use rs_verified_der.Base.{ℕ, ◌≡◌, ◌↔◌, arith, true, List, [], ◌∷◌, some, none}
use rs_verified_der.Base.Codec.{At}
use rs_verified_der.Base.Result.{ok}
use rs_verified_der.EcdsaSigValue.{EcdsaSigValue, parse_ecdsa_sig_value_strict}
use rs_verified_der.EcdsaSigValue.Parse.{IsSig, sig_octets, parse_ecdsa_sig_value_strict_iff}
use rs_verified_der.IdentifierForm.{validate_identifier_form}
use rs_verified_der.IdentifierForm.Legal.{IsLegal, validate_identifier_form_iff}
use rs_verified_der.Sequence.Envelope.{sequence_octets}
use rs_verified_der.Tlv.Typed.{Fits, universal_tag}
use rs_verified_der.X509AlgorithmIdentifier.{AlgorithmIdentifier, parse_algorithm_identifier}
use rs_verified_der.X509AlgorithmIdentifier.Parse.{
  IsAlgorithmIdentifier, algorithm_identifier_octets, parse_algorithm_identifier_iff,
}
use rs_verified_der.X509Spki.{SubjectPublicKeyInfo, parse_subject_public_key_info}
use rs_verified_der.X509Spki.Parse.{IsContent, content_octets, parse_subject_public_key_info_iff}

-- r = 128, which needs a sign octet, and s = 5.
abbrev signature : EcdsaSigValue
signature = record { r = 0x00 ∷ 0x80 ∷ []; s = 0x05 ∷ [] }

abbrev signature_octets : List ℕ
signature_octets = 0x30 ∷ 0x07 ∷ 0x02 ∷ 0x02 ∷ 0x00 ∷ 0x80 ∷ 0x02 ∷ 0x01 ∷ 0x05 ∷ []

parse_ecdsa_sig_value_strict_iff_example :
    (parse_ecdsa_sig_value_strict signature_octets ≡ ok signature)
    ↔ (IsSig signature × (signature_octets ≡ sig_octets signature))
parse_ecdsa_sig_value_strict_iff_example =
    parse_ecdsa_sig_value_strict_iff signature_octets signature (omega arith)

-- A constructed BOOLEAN.
validate_identifier_form_iff_example :
    (validate_identifier_form (universal_tag true 1) ≡ ok tt) ↔ IsLegal (universal_tag true 1)
validate_identifier_form_iff_example = validate_identifier_form_iff (universal_tag true 1)

-- The OID 1.3.101.112 with NULL parameters, and with none.
abbrev with_null : AlgorithmIdentifier
with_null = record { algorithm_oid = 0x2b ∷ 0x65 ∷ 0x70 ∷ []; parameters = some (0x05 ∷ 0x00 ∷ []) }

abbrev with_null_octets : List ℕ
with_null_octets = 0x30 ∷ 0x07 ∷ 0x06 ∷ 0x03 ∷ 0x2b ∷ 0x65 ∷ 0x70 ∷ 0x05 ∷ 0x00 ∷ []

parse_algorithm_identifier_iff_example :
    (parse_algorithm_identifier with_null_octets ≡ ok (with_null, 9))
    ↔ At IsAlgorithmIdentifier algorithm_identifier_octets with_null_octets (with_null, 9)
parse_algorithm_identifier_iff_example =
    parse_algorithm_identifier_iff with_null_octets with_null 9 (omega arith)

abbrev spki : SubjectPublicKeyInfo
spki = record {
  algorithm_oid = 0x2b ∷ 0x65 ∷ 0x70 ∷ [];
  parameters = none;
  subject_public_key = record { data_octets = 0xab ∷ 0xcd ∷ []; unused = 0 };
}

abbrev spki_octets : List ℕ
spki_octets =
    0x30 ∷ 0x0c ∷ 0x30 ∷ 0x05 ∷ 0x06 ∷ 0x03 ∷ 0x2b ∷ 0x65 ∷ 0x70 ∷ 0x03 ∷ 0x03 ∷ 0x00 ∷ 0xab ∷ 0xcd
    ∷ []

parse_subject_public_key_info_iff_example :
    (parse_subject_public_key_info spki_octets ≡ ok spki) ↔ (
      (IsContent spki × Fits (content_octets spki))
      × (spki_octets ≡ sequence_octets (content_octets spki)))
parse_subject_public_key_info_iff_example =
    parse_subject_public_key_info_iff spki_octets spki (omega arith)
