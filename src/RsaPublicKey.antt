-- ===== src/RsaPublicKey.antt =====
-- der-verified/src/rsa_public_key.rs: `RSAPublicKey ::= SEQUENCE { modulus INTEGER, publicExponent INTEGER }`.
pub mod Parse
use rs_verified_der.Base.{ℕ, List, length, if◌then◌else◌, ◌!=◌}
use rs_verified_der.Base.Result.{Result, ok, err, ◌>>=◌, map_err, slice_from}
use rs_verified_der.BigInteger
use rs_verified_der.BigInteger.{BigIntError, validate_integer_content}
use rs_verified_der.Sequence.{SequenceError, decode_sequence_tlv, decode_sequence_tlv_strict}
use rs_verified_der.Tlv.{decode_tlv}
use rs_verified_der.Tlv.Error.{TlvError}
use rs_verified_der.Tlv.Field.{is_empty}
use rs_verified_der.Tlv.Typed.{not_universal}

pub record RsaPublicKey : Type 0 where
  pub modulus : List ℕ
  pub public_exponent : List ℕ

pub data IntegerFieldError : Type 0 where
  tlv : TlvError → IntegerFieldError
  wrong_tag constructed : IntegerFieldError
  content : BigIntError → IntegerFieldError

pub data RsaPublicKeyError : Type 0 where
  bad_outer_seq : SequenceError → RsaPublicKeyError
  missing_modulus : RsaPublicKeyError
  bad_modulus : IntegerFieldError → RsaPublicKeyError
  missing_public_exponent : RsaPublicKeyError
  bad_public_exponent : IntegerFieldError → RsaPublicKeyError
  trailing_elements : RsaPublicKeyError

unfoldable pub decode_integer_tlv : List ℕ → Result IntegerFieldError (List ℕ × ℕ)
decode_integer_tlv input = do
  (t, used) ← map_err tlv (decode_tlv input)
  if not_universal t BigInteger.tag
      then err wrong_tag
      else if t.tag.constructed
      then err constructed
      else do _ ← map_err content (validate_integer_content t.value); ok (t.value, used)

unfoldable pub parse_fields : List ℕ → Result RsaPublicKeyError RsaPublicKey
parse_fields outer_content = if is_empty outer_content then err missing_modulus else do
  (modulus, modulus_used) ← map_err bad_modulus (decode_integer_tlv outer_content)
  rest ← slice_from outer_content modulus_used
  if is_empty rest then err missing_public_exponent else do
    (public_exponent, exponent_used) ← map_err bad_public_exponent (decode_integer_tlv rest)
    if exponent_used != length rest
        then err trailing_elements
        else ok (record { modulus = modulus; public_exponent = public_exponent })

unfoldable pub parse_rsa_public_key : List ℕ → Result RsaPublicKeyError (RsaPublicKey × ℕ)
parse_rsa_public_key input = do
  (outer_content, used) ← map_err bad_outer_seq (decode_sequence_tlv input)
  key ← parse_fields outer_content
  ok (key, used)

unfoldable pub parse_rsa_public_key_strict : List ℕ → Result RsaPublicKeyError RsaPublicKey
parse_rsa_public_key_strict input = do
  outer_content ← map_err bad_outer_seq (decode_sequence_tlv_strict input)
  parse_fields outer_content
