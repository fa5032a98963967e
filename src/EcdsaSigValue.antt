-- ===== src/EcdsaSigValue.antt =====
-- der-verified/src/ecdsa_sig_value.rs: `ECDSA-Sig-Value ::= SEQUENCE { r INTEGER, s INTEGER }`.
pub mod Parse
use rs_verified_der.Base.{ℕ, List, length, if◌then◌else◌, ◌!=◌}
use rs_verified_der.Base.Result.{Result, ok, err, ◌>>=◌, map_err, slice_from}
use rs_verified_der.BigInteger
use rs_verified_der.BigInteger.{BigIntError, validate_integer_content}
use rs_verified_der.Sequence.{SequenceError, decode_sequence_tlv, decode_sequence_tlv_strict}
use rs_verified_der.Tlv.{decode_tlv}
use rs_verified_der.Tlv.Error.{TlvError}
use rs_verified_der.Tlv.Field.{is_empty}
use rs_verified_der.Tlv.Typed.{not_universal}

pub record EcdsaSigValue : Type 0 where
  pub r : List ℕ
  pub s : List ℕ

pub data IntegerFieldError : Type 0 where
  tlv : TlvError → IntegerFieldError
  wrong_tag constructed : IntegerFieldError
  content : BigIntError → IntegerFieldError

pub data EcdsaSigValueError : Type 0 where
  bad_outer_seq : SequenceError → EcdsaSigValueError
  missing_r : EcdsaSigValueError
  bad_r : IntegerFieldError → EcdsaSigValueError
  missing_s : EcdsaSigValueError
  bad_s : IntegerFieldError → EcdsaSigValueError
  trailing_elements : EcdsaSigValueError

unfoldable pub decode_integer_tlv : List ℕ → Result IntegerFieldError (List ℕ × ℕ)
decode_integer_tlv input = do
  (t, used) ← map_err tlv (decode_tlv input)
  if not_universal t BigInteger.tag
      then err wrong_tag
      else if t.tag.constructed
      then err constructed
      else do _ ← map_err content (validate_integer_content t.value); ok (t.value, used)

unfoldable pub parse_fields : List ℕ → Result EcdsaSigValueError EcdsaSigValue
parse_fields outer_content = if is_empty outer_content then err missing_r else do
  (r, r_used) ← map_err bad_r (decode_integer_tlv outer_content)
  rest ← slice_from outer_content r_used
  if is_empty rest then err missing_s else do
    (s, s_used) ← map_err bad_s (decode_integer_tlv rest)
    if s_used != length rest then err trailing_elements else ok (record { r = r; s = s })

unfoldable pub parse_ecdsa_sig_value : List ℕ → Result EcdsaSigValueError (EcdsaSigValue × ℕ)
parse_ecdsa_sig_value input = do
  (outer_content, used) ← map_err bad_outer_seq (decode_sequence_tlv input)
  sig ← parse_fields outer_content
  ok (sig, used)

unfoldable pub parse_ecdsa_sig_value_strict : List ℕ → Result EcdsaSigValueError EcdsaSigValue
parse_ecdsa_sig_value_strict input = do
  outer_content ← map_err bad_outer_seq (decode_sequence_tlv_strict input)
  parse_fields outer_content
