-- ===== src/EncryptedPrivateKeyInfo.antt =====
-- der-verified/src/encrypted_private_key_info.rs:
-- `EncryptedPrivateKeyInfo ::= SEQUENCE { encryptionAlgorithm AlgorithmIdentifier, encryptedData OCTET STRING }`.
pub mod Parse
use rs_verified_der.Base.{ℕ, List, length, if◌then◌else◌, ◌!=◌}
use rs_verified_der.Base.Result.{Result, ok, err, ◌>>=◌, map_err, slice_from}
use rs_verified_der.OctetString.{OctetStringError, decode_octet_string}
use rs_verified_der.Sequence.{SequenceError, decode_sequence_tlv, decode_sequence_tlv_strict}
use rs_verified_der.Tlv.Field.{is_empty}
use rs_verified_der.X509AlgorithmIdentifier.{
  AlgorithmIdentifier, AlgIdError, parse_algorithm_identifier,
}

pub record EncryptedPrivateKeyInfo : Type 0 where
  pub encryption_algorithm : AlgorithmIdentifier
  pub encrypted_data : List ℕ

pub data EncryptedPrivateKeyInfoError : Type 0 where
  bad_outer_seq : SequenceError → EncryptedPrivateKeyInfoError
  missing_encryption_algorithm : EncryptedPrivateKeyInfoError
  encryption_algorithm_error : AlgIdError → EncryptedPrivateKeyInfoError
  missing_encrypted_data : EncryptedPrivateKeyInfoError
  encrypted_data_error : OctetStringError → EncryptedPrivateKeyInfoError
  trailing_elements : EncryptedPrivateKeyInfoError

unfoldable pub parse_fields : List ℕ → Result EncryptedPrivateKeyInfoError EncryptedPrivateKeyInfo
parse_fields outer_content = if is_empty outer_content then err missing_encryption_algorithm else do
  (encryption_algorithm, alg_used) ←
      map_err encryption_algorithm_error (parse_algorithm_identifier outer_content)
  rest ← slice_from outer_content alg_used
  if is_empty rest then err missing_encrypted_data else do
    (encrypted_data, data_used) ← map_err encrypted_data_error (decode_octet_string rest)
    if data_used != length rest
        then err trailing_elements
        else ok (record {
          encryption_algorithm = encryption_algorithm;
          encrypted_data = encrypted_data;
        })

unfoldable pub parse_encrypted_private_key_info :
    List ℕ → Result EncryptedPrivateKeyInfoError (EncryptedPrivateKeyInfo × ℕ)
parse_encrypted_private_key_info input = do
  (outer_content, used) ← map_err bad_outer_seq (decode_sequence_tlv input)
  info ← parse_fields outer_content
  ok (info, used)

unfoldable pub parse_encrypted_private_key_info_strict :
    List ℕ → Result EncryptedPrivateKeyInfoError EncryptedPrivateKeyInfo
parse_encrypted_private_key_info_strict input = do
  outer_content ← map_err bad_outer_seq (decode_sequence_tlv_strict input)
  parse_fields outer_content
