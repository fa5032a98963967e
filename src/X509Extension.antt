-- ===== src/X509Extension.antt =====
-- der-verified/src/x509_extension.rs:
-- `Extension ::= SEQUENCE { extnID OBJECT IDENTIFIER, critical BOOLEAN DEFAULT FALSE, extnValue OCTET STRING }`
-- and a SEQUENCE of at least one of them.
pub mod Parse
pub mod Members
use rs_verified_der.Base.{
  ℕ, suc, ◌+◌, Bool, true, false, not, List, length, if◌then◌else◌, ◌==◌, ◌!=◌,
}
use rs_verified_der.Base.Result.{Result, ok, err, panic, ◌>>=◌, map_err, slice_from, slice}
use rs_verified_der.Boolean
use rs_verified_der.Boolean.{BoolError, decode_bool}
use rs_verified_der.OctetString.{OctetStringError, decode_octet_string}
use rs_verified_der.Oid
use rs_verified_der.Oid.{OidError, validate_oid}
use rs_verified_der.Sequence.{SequenceError, tlv, decode_sequence_tlv_strict}
use rs_verified_der.Tlv.{Tlv, decode_tlv}
use rs_verified_der.Tlv.Error.{TlvError}
use rs_verified_der.Tlv.Field.{is_empty}
use rs_verified_der.Tlv.Typed.{not_universal}
use rs_verified_der.Walk.{walk}

pub record Extension : Type 0 where
  pub extn_id : List ℕ
  pub critical : Bool
  pub extn_value : List ℕ

pub data ExtensionError : Type 0 where
  bad_seq : SequenceError → ExtensionError
  bad_extn_id_tlv : TlvError → ExtensionError
  extn_id_wrong_tag extn_id_constructed : ExtensionError
  bad_oid : OidError → ExtensionError
  critical_constructed : ExtensionError
  bad_critical : BoolError → ExtensionError
  critical_must_be_true missing_extn_value : ExtensionError
  bad_extn_value : OctetStringError → ExtensionError
  trailing_in_extension : ExtensionError

pub data ExtensionsError : Type 0 where
  bad_outer_seq : SequenceError → ExtensionsError
  empty_extensions : ExtensionsError
  bad_extension : ExtensionError → ExtensionsError

unfoldable pub decode_extn_id_tlv : List ℕ → Result ExtensionError (List ℕ × ℕ)
decode_extn_id_tlv input = do
  (t, used) ← map_err bad_extn_id_tlv (decode_tlv input)
  if not_universal t Oid.tag
      then err extn_id_wrong_tag
      else if t.tag.constructed
      then err extn_id_constructed
      else do _ ← map_err bad_oid (validate_oid t.value); ok (t.value, used)

-- The `match` on the peeked TLV.
unfoldable pub peek_critical :
    List ℕ → Result TlvError (Tlv × ℕ) → Result ExtensionError (Bool × List ℕ)
peek_critical rest (ok (peek, peek_used)) =
    if not_universal peek Boolean.tag
    then ok (false, rest)
    else if peek.tag.constructed
    then err critical_constructed
    else do
      b ← map_err bad_critical (decode_bool peek.value)
      if not b
          then err critical_must_be_true
          else (slice_from rest peek_used >>= λ value_input. ok (true, value_input))
peek_critical rest (err _) = ok (false, rest)
peek_critical rest panic = panic

unfoldable pub read_value : List ℕ → Bool → List ℕ → Result ExtensionError Extension
read_value extn_id critical value_input =
    if is_empty value_input then err missing_extn_value else do
      (extn_value, ev_used) ← map_err bad_extn_value (decode_octet_string value_input)
      if ev_used != length value_input
          then err trailing_in_extension
          else ok (record { extn_id = extn_id; critical = critical; extn_value = extn_value })

-- What `parse_extension` does with the content of the SEQUENCE.
unfoldable pub parse_content : List ℕ → Result ExtensionError Extension
parse_content content = do
  (extn_id, id_used) ← decode_extn_id_tlv content
  rest ← slice_from content id_used
  if is_empty rest then err missing_extn_value else do
    (critical, value_input) ← peek_critical rest (decode_tlv rest)
    read_value extn_id critical value_input

unfoldable pub parse_extension : List ℕ → Result ExtensionError Extension
parse_extension input = do
  content ← map_err bad_seq (decode_sequence_tlv_strict input)
  parse_content content

-- One round of the loop of `validate_extensions`.
unfoldable pub validate_member : List ℕ → ℕ → Result ExtensionsError ℕ
validate_member outer off = do
  rest ← slice_from outer off
  (_, used) ← map_err (λ e. bad_extension (bad_seq (tlv e))) (decode_tlv rest)
  child ← slice outer off (off + used)
  _ ← map_err bad_extension (parse_extension child)
  ok used

unfoldable pub validate_extensions : List ℕ → Result ExtensionsError (Unit {0})
validate_extensions input = do
  outer ← map_err bad_outer_seq (decode_sequence_tlv_strict input)
  count ← walk validate_member (suc (length outer)) outer 0 0
  if count == 0 then err empty_extensions else ok tt
