-- ===== src/X509AlgorithmIdentifier.antt =====
-- der-verified/src/x509_algorithm_identifier.rs:
-- `AlgorithmIdentifier ::= SEQUENCE { algorithm OBJECT IDENTIFIER, parameters ANY OPTIONAL }`.
pub mod Parse
use rs_verified_der.Base.{ℕ, List, length, Option, some, none, if◌then◌else◌, ◌!=◌}
use rs_verified_der.Base.Result.{Result, ok, err, ◌>>=◌, map_err, slice_from, slice}
use rs_verified_der.IdentifierForm.{FormError, validate_identifier_form}
use rs_verified_der.Oid
use rs_verified_der.Oid.{OidError, validate_oid}
use rs_verified_der.Sequence.{SequenceError, decode_sequence_tlv}
use rs_verified_der.Tlv.{decode_tlv}
use rs_verified_der.Tlv.Error.{TlvError}
use rs_verified_der.Tlv.Field.{is_empty}
use rs_verified_der.Tlv.Typed.{not_universal}

pub record AlgorithmIdentifier : Type 0 where
  pub algorithm_oid : List ℕ
  pub parameters : Option (List ℕ)

pub data AlgIdError : Type 0 where
  bad_seq : SequenceError → AlgIdError
  bad_oid_tlv : TlvError → AlgIdError
  oid_wrong_tag oid_constructed : AlgIdError
  bad_oid : OidError → AlgIdError
  bad_parameters_tlv : TlvError → AlgIdError
  trailing_elements : AlgIdError
  parameters_form : FormError → AlgIdError

unfoldable pub decode_oid_tlv : List ℕ → Result AlgIdError (List ℕ × ℕ)
decode_oid_tlv input = do
  (t, used) ← map_err bad_oid_tlv (decode_tlv input)
  if not_universal t Oid.tag
      then err oid_wrong_tag
      else if t.tag.constructed
      then err oid_constructed
      else do _ ← map_err bad_oid (validate_oid t.value); ok (t.value, used)

-- What follows the OID.
unfoldable pub parse_parameters : List ℕ → Result AlgIdError (Option (List ℕ))
parse_parameters rest = if is_empty rest then ok none else do
  (params_tlv, params_used) ← map_err bad_parameters_tlv (decode_tlv rest)
  if params_used != length rest then err trailing_elements else do
    _ ← map_err parameters_form (validate_identifier_form params_tlv.tag)
    raw ← slice rest 0 params_used
    ok (some raw)

-- The inside of the SEQUENCE.
unfoldable pub parse_content : List ℕ → Result AlgIdError AlgorithmIdentifier
parse_content algo_content = do
  (algorithm_oid, oid_used) ← decode_oid_tlv algo_content
  rest ← slice_from algo_content oid_used
  parameters ← parse_parameters rest
  ok (record { algorithm_oid = algorithm_oid; parameters = parameters })

unfoldable pub parse_algorithm_identifier : List ℕ → Result AlgIdError (AlgorithmIdentifier × ℕ)
parse_algorithm_identifier input = do
  (algo_content, used) ← map_err bad_seq (decode_sequence_tlv input)
  algo ← parse_content algo_content
  ok (algo, used)
