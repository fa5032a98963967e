-- ===== src/EncryptedPrivateKeyInfo/Parse.antt =====
-- The two parsers of an EncryptedPrivateKeyInfo read the encodings of an algorithm and a ciphertext, and no
-- more.
use rs_verified_der.Base.{ℕ, ◌≡◌, ◌↔◌, List, ◌++◌}
use rs_verified_der.Base.Codec
use rs_verified_der.Base.Codec.{ContentCodec, Codec, At, IsBytes}
use rs_verified_der.Base.Result.{ok}
use rs_verified_der.EncryptedPrivateKeyInfo.{
  EncryptedPrivateKeyInfo, EncryptedPrivateKeyInfoError, bad_outer_seq,
  missing_encryption_algorithm, encryption_algorithm_error, missing_encrypted_data,
  encrypted_data_error, trailing_elements, parse_fields, parse_encrypted_private_key_info,
  parse_encrypted_private_key_info_strict,
}
use rs_verified_der.IntegerField.{
  two_fields-Ensures, two_fields-octets, wrapped-ne-nil, sequence-ne-nil,
}
use rs_verified_der.OctetString
use rs_verified_der.OctetString.{octet_string_octets, octet_string_codec}
use rs_verified_der.Sequence.Envelope.{sequence_octets}
use rs_verified_der.Sequence.Fields.{parse_prefix-Ensures, parse_prefix-octets, parse_whole_iff}
use rs_verified_der.Tlv.Typed.{Fits}
use rs_verified_der.X509AlgorithmIdentifier.Parse.{
  IsAlgorithmIdentifier, algorithm_identifier_octets, algorithm_identifier_codec,
}

abbrev pub IsFields : EncryptedPrivateKeyInfo → Type 0
IsFields info = IsAlgorithmIdentifier info.encryption_algorithm × Fits info.encrypted_data

abbrev pub fields_octets : EncryptedPrivateKeyInfo → List ℕ
fields_octets info =
    algorithm_identifier_octets info.encryption_algorithm ++ octet_string_octets info.encrypted_data

abbrev pub IsInfo : EncryptedPrivateKeyInfo → Type 0
IsInfo info = IsFields info × Fits (fields_octets info)

abbrev pub info_octets : EncryptedPrivateKeyInfo → List ℕ
info_octets info = sequence_octets (fields_octets info)

fields_codec : ContentCodec EncryptedPrivateKeyInfoError EncryptedPrivateKeyInfo
unfolding parse_fields
fields_codec = record {
  parse = parse_fields;
  Is = IsFields;
  octets = fields_octets;
  sound = λ content bytes.
      two_fields-Ensures algorithm_identifier_codec octet_string_codec missing_encryption_algorithm
        missing_encrypted_data trailing_elements encryption_algorithm_error encrypted_data_error
        (λ a b. record { encryption_algorithm = a; encrypted_data = b }) _ content bytes
        (λ a b ha hb e. ((ha, hb), e));
  complete = λ info (h, k).
      two_fields-octets algorithm_identifier_codec octet_string_codec missing_encryption_algorithm
        missing_encrypted_data trailing_elements encryption_algorithm_error encrypted_data_error
        (λ a b. record { encryption_algorithm = a; encrypted_data = b }) info.encryption_algorithm
        info.encrypted_data (λ a rest. sequence-ne-nil _ rest) (wrapped-ne-nil OctetString.tag) h k;
}

info_codec : Codec EncryptedPrivateKeyInfoError EncryptedPrivateKeyInfo
unfolding parse_encrypted_private_key_info fields_codec
info_codec = record {
  decode = parse_encrypted_private_key_info;
  Is = IsInfo;
  octets = info_octets;
  sound = parse_prefix-Ensures bad_outer_seq fields_codec;
  complete = parse_prefix-octets bad_outer_seq fields_codec;
}

-- On bytes, `parse_encrypted_private_key_info` returns `(info, k)` exactly when the input begins with the
-- DER encoding, of k octets, of the SEQUENCE of the AlgorithmIdentifier of `info` and the OCTET STRING
-- of its data: the algorithm is one that `parse_algorithm_identifier` reads, and the contents have fewer
-- than 2 ^ 32 octets.
pub parse_encrypted_private_key_info_iff :
    (input : List ℕ) (info : EncryptedPrivateKeyInfo) (k : ℕ)
    → IsBytes input
    → (parse_encrypted_private_key_info input ≡ ok (info, k))
      ↔ At IsInfo info_octets input (info, k)
unfolding info_codec
parse_encrypted_private_key_info_iff = Codec.decode_iff info_codec

-- On bytes, `parse_encrypted_private_key_info_strict` returns `info` exactly when the whole input is the
-- DER encoding of the SEQUENCE of the AlgorithmIdentifier of `info` and the OCTET STRING of its data:
-- the algorithm is one that `parse_algorithm_identifier` reads, and the contents have fewer than 2 ^ 32
-- octets.
pub parse_encrypted_private_key_info_strict_iff :
    (input : List ℕ) (info : EncryptedPrivateKeyInfo)
    → IsBytes input
    → (parse_encrypted_private_key_info_strict input ≡ ok info)
      ↔ (IsInfo info × (input ≡ info_octets info))
unfolding parse_encrypted_private_key_info_strict fields_codec
parse_encrypted_private_key_info_strict_iff = parse_whole_iff bad_outer_seq fields_codec
