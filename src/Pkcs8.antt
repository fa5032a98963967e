-- ===== src/Pkcs8.antt =====
-- der-verified/src/pkcs8.rs: `PrivateKeyInfo ::= SEQUENCE { version INTEGER, privateKeyAlgorithm
-- AlgorithmIdentifier, privateKey OCTET STRING, attributes [0] IMPLICIT SET OF Attribute OPTIONAL }`.
pub mod Parse
use rs_verified_der.Base.{
  ℕ, Bool, true, not, ◌||◌, List, [], ◌∷◌, length, Option, none, some, if◌then◌else◌, ◌!=◌,
}
use rs_verified_der.Base.Result.{Result, ok, err, ◌>>=◌, map_err, slice_from}
use rs_verified_der.BigInteger
use rs_verified_der.BigInteger.{BigIntError, validate_integer_content}
use rs_verified_der.OctetString.{OctetStringError, decode_octet_string}
use rs_verified_der.Sequence.{SequenceError, decode_sequence_tlv, decode_sequence_tlv_strict}
use rs_verified_der.Tag.{class_eq, context_specific, decode_tag}
use rs_verified_der.Tiling.{require}
use rs_verified_der.Tlv.{decode_tlv}
use rs_verified_der.Tlv.Error.{TlvError}
use rs_verified_der.Tlv.Field.{is_empty}
use rs_verified_der.Tlv.Typed.{not_universal}
use rs_verified_der.X509AlgorithmIdentifier.{
  AlgorithmIdentifier, AlgIdError, parse_algorithm_identifier,
}

pub record PrivateKeyInfo : Type 0 where
  pub algorithm : AlgorithmIdentifier
  pub private_key : List ℕ
  pub attributes : Option (List ℕ)

pub data VersionError : Type 0 where
  tlv : TlvError → VersionError
  wrong_tag constructed : VersionError
  content : BigIntError → VersionError

pub data AttributesError : Type 0 where
  bad_tlv : TlvError → AttributesError
  not_constructed : AttributesError

pub data Pkcs8Error : Type 0 where
  bad_outer_seq : SequenceError → Pkcs8Error
  missing_version : Pkcs8Error
  version_error : VersionError → Pkcs8Error
  unsupported_version missing_algorithm : Pkcs8Error
  algorithm_error : AlgIdError → Pkcs8Error
  missing_private_key : Pkcs8Error
  private_key_error : OctetStringError → Pkcs8Error
  attributes_error : AttributesError → Pkcs8Error
  trailing_elements : Pkcs8Error

unfoldable pub decode_version_tlv : List ℕ → Result VersionError (List ℕ × ℕ)
decode_version_tlv input = do
  (t, used) ← map_err tlv (decode_tlv input)
  if not_universal t BigInteger.tag
      then err wrong_tag
      else if t.tag.constructed
      then err constructed
      else do _ ← map_err content (validate_integer_content t.value); ok (t.value, used)

-- `version_content.len() != 1 || version_content[0] != 0x00`
abbrev pub is_not_v1 : List ℕ → Bool
is_not_v1 (c ∷ []) = c != 0x00
is_not_v1 _ = true

unfoldable pub read_attributes : List ℕ → Result Pkcs8Error (Option (List ℕ))
read_attributes rest = if is_empty rest then ok none else do
  (tag, _) ← map_err (λ _. trailing_elements) (decode_tag rest)
  if not (class_eq tag.class context_specific) || tag.number != 0 then err trailing_elements else do
    (t, tlv_used) ← map_err (λ e. attributes_error (bad_tlv e)) (decode_tlv rest)
    if not t.tag.constructed
        then err (attributes_error not_constructed)
        else if tlv_used != length rest
        then err trailing_elements
        else ok (some t.value)

unfoldable pub parse_fields : List ℕ → Result Pkcs8Error PrivateKeyInfo
parse_fields outer_content = do
  (version_content, rest₁) ←
      require missing_version (λ r. map_err version_error (decode_version_tlv r)) outer_content
  if is_not_v1 version_content then err unsupported_version else do
    (algorithm, rest₂) ←
        require missing_algorithm (λ r. map_err algorithm_error (parse_algorithm_identifier r))
          rest₁
    (private_key, rest₃) ←
        require missing_private_key (λ r. map_err private_key_error (decode_octet_string r)) rest₂
    attributes ← read_attributes rest₃
    ok (record { algorithm = algorithm; private_key = private_key; attributes = attributes })

unfoldable pub parse_pkcs8_private_key_info : List ℕ → Result Pkcs8Error (PrivateKeyInfo × ℕ)
parse_pkcs8_private_key_info input = do
  (outer_content, used) ← map_err bad_outer_seq (decode_sequence_tlv input)
  info ← parse_fields outer_content
  ok (info, used)

unfoldable pub parse_pkcs8_private_key_info_strict : List ℕ → Result Pkcs8Error PrivateKeyInfo
parse_pkcs8_private_key_info_strict input = do
  outer_content ← map_err bad_outer_seq (decode_sequence_tlv_strict input)
  parse_fields outer_content
