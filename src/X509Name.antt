-- ===== src/X509Name.antt =====
-- der-verified/src/x509_name.rs: `Name ::= SEQUENCE OF SET OF SEQUENCE { type OBJECT IDENTIFIER, value ANY }`.
pub mod Attribute
pub mod Rdn
use rs_verified_der.Base.{
  ℕ, zero, suc, ◌+◌, not, List, length, Option, none, some, if◌then◌else◌, ◌!=◌,
}
use rs_verified_der.Base.Result.{Result, ok, err, panic, ◌>>=◌, map_err, slice_from}
use rs_verified_der.IdentifierForm.{FormError, validate_identifier_form}
use rs_verified_der.Oid
use rs_verified_der.Oid.{OidError, validate_oid}
use rs_verified_der.Sequence
use rs_verified_der.Sequence.{
  SequenceError, Elements, elements, child, malformed, next, decode_sequence_tlv_strict,
}
use rs_verified_der.SetOf.{SetOfError, decode_set_of_tlv}
use rs_verified_der.Tlv.{Tlv, decode_tlv}
use rs_verified_der.Tlv.Error.{TlvError}
use rs_verified_der.Tlv.Field.{is_empty}
use rs_verified_der.Tlv.Typed.{not_universal}
use rs_verified_der.Walk.{walk}

pub data NameError : Type 0 where
  bad_outer_seq : SequenceError → NameError
  bad_rdn : SetOfError → NameError
  empty_rdn : NameError
  bad_atv_tlv : TlvError → NameError
  atv_wrong_tag atv_not_constructed : NameError
  bad_atv_oid_tlv : TlvError → NameError
  atv_oid_wrong_tag atv_oid_constructed : NameError
  bad_atv_oid : OidError → NameError
  missing_atv_value : NameError
  bad_atv_value_tlv : TlvError → NameError
  atv_trailing_elements : NameError
  atv_value_form : FormError → NameError

unfoldable pub decode_atv_oid_tlv : List ℕ → Result NameError (List ℕ × ℕ)
decode_atv_oid_tlv input = do
  (t, used) ← map_err bad_atv_oid_tlv (decode_tlv input)
  if not_universal t Oid.tag
      then err atv_oid_wrong_tag
      else if t.tag.constructed
      then err atv_oid_constructed
      else do _ ← map_err bad_atv_oid (validate_oid t.value); ok (t.value, used)

-- The two fields of an AttributeTypeAndValue.
unfoldable pub validate_fields : List ℕ → Result NameError (Unit {0})
validate_fields content = do
  (_, oid_used) ← decode_atv_oid_tlv content
  rest ← slice_from content oid_used
  if is_empty rest then err missing_atv_value else do
    (value_tlv, value_used) ← map_err bad_atv_value_tlv (decode_tlv rest)
    if value_used != length rest
        then err atv_trailing_elements
        else map_err atv_value_form (validate_identifier_form value_tlv.tag)

unfoldable pub validate_atv : Tlv → Result NameError (Unit {0})
validate_atv t =
    if not_universal t Sequence.tag
    then err atv_wrong_tag
    else if not t.tag.constructed
    then err atv_not_constructed
    else validate_fields t.value

-- `for child in Elements::new(rdn_content) { … }` on fuel.
unfoldable pub validate_children : ℕ → Elements → Result NameError (Unit {0})
validate_children zero e = panic
validate_children (suc fuel) e = do
  (item, e') ← next e
  elim item [
    | none ↦ ok tt
    | some (child t) ↦ validate_atv t >>= λ _. validate_children fuel e'
    | some (malformed x) ↦ err (bad_atv_tlv x)
  ]

unfoldable pub validate_rdn : List ℕ → Result NameError ℕ
validate_rdn input = do
  (rdn_content, used) ← map_err bad_rdn (decode_set_of_tlv input)
  if is_empty rdn_content
      then err empty_rdn
      else do _ ← validate_children (suc (length rdn_content)) (elements rdn_content); ok used

-- One round of the loop of `validate_name`.
unfoldable pub validate_member : List ℕ → ℕ → Result NameError ℕ
validate_member outer_content off = slice_from outer_content off >>= validate_rdn

unfoldable pub validate_name : List ℕ → Result NameError (Unit {0})
validate_name input = do
  outer_content ← map_err bad_outer_seq (decode_sequence_tlv_strict input)
  _ ← walk validate_member (suc (length outer_content)) outer_content 0 0
  ok tt
