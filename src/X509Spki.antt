-- ===== src/X509Spki.antt =====
-- der-verified/src/x509_spki.rs:
-- `SubjectPublicKeyInfo ::= SEQUENCE { algorithm AlgorithmIdentifier, subjectPublicKey BIT STRING }`.
pub mod Parse
use rs_verified_der.Base.{ℕ, List, length, Option, if◌then◌else◌, ◌!=◌}
use rs_verified_der.Base.Result.{Result, ok, err, ◌>>=◌, map_err, slice_from}
use rs_verified_der.BitString
use rs_verified_der.BitString.{BitString, BitStringError, decode_bit_string}
use rs_verified_der.IdentifierForm.{FormError}
use rs_verified_der.Oid.{OidError}
use rs_verified_der.Sequence.{SequenceError, decode_sequence_tlv_strict}
use rs_verified_der.Tlv.{decode_tlv}
use rs_verified_der.Tlv.Error.{TlvError}
use rs_verified_der.Tlv.Field.{is_empty}
use rs_verified_der.Tlv.Typed.{not_universal}
use rs_verified_der.X509AlgorithmIdentifier
use rs_verified_der.X509AlgorithmIdentifier.{AlgIdError, parse_algorithm_identifier}

pub record SubjectPublicKeyInfo : Type 0 where
  pub algorithm_oid : List ℕ
  pub parameters : Option (List ℕ)
  pub subject_public_key : BitString

pub data SpkiError : Type 0 where
  bad_outer_seq bad_algorithm_id : SequenceError → SpkiError
  bad_oid_tlv : TlvError → SpkiError
  oid_wrong_tag oid_constructed : SpkiError
  bad_oid : OidError → SpkiError
  bad_parameters_tlv : TlvError → SpkiError
  algorithm_trailing_elements : SpkiError
  algorithm_parameters_form : FormError → SpkiError
  missing_public_key : SpkiError
  bad_public_key_tlv : TlvError → SpkiError
  public_key_wrong_tag public_key_constructed : SpkiError
  bad_public_key : BitStringError → SpkiError
  trailing_bytes : SpkiError

abbrev pub map_algid_error : AlgIdError → SpkiError
map_algid_error (AlgIdError.bad_seq e) = bad_algorithm_id e
map_algid_error (AlgIdError.bad_oid_tlv e) = bad_oid_tlv e
map_algid_error AlgIdError.oid_wrong_tag = oid_wrong_tag
map_algid_error AlgIdError.oid_constructed = oid_constructed
map_algid_error (AlgIdError.bad_oid e) = bad_oid e
map_algid_error (AlgIdError.bad_parameters_tlv e) = bad_parameters_tlv e
map_algid_error AlgIdError.trailing_elements = algorithm_trailing_elements
map_algid_error (AlgIdError.parameters_form e) = algorithm_parameters_form e

unfoldable pub decode_public_key_tlv : List ℕ → Result SpkiError (BitString × ℕ)
decode_public_key_tlv input = do
  (t, used) ← map_err bad_public_key_tlv (decode_tlv input)
  if not_universal t BitString.tag
      then err public_key_wrong_tag
      else if t.tag.constructed
      then err public_key_constructed
      else do bs ← map_err bad_public_key (decode_bit_string t.value); ok (bs, used)

-- The inside of the outer SEQUENCE.
unfoldable pub parse_content : List ℕ → Result SpkiError SubjectPublicKeyInfo
parse_content outer_content = do
  (algo_id, algo_used) ← map_err map_algid_error (parse_algorithm_identifier outer_content)
  outer_rest ← slice_from outer_content algo_used
  if is_empty outer_rest then err missing_public_key else do
    (subject_public_key, pk_used) ← decode_public_key_tlv outer_rest
    if pk_used != length outer_rest
        then err trailing_bytes
        else ok (record {
          algorithm_oid = algo_id.algorithm_oid;
          parameters = algo_id.parameters;
          subject_public_key = subject_public_key;
        })

unfoldable pub parse_subject_public_key_info : List ℕ → Result SpkiError SubjectPublicKeyInfo
parse_subject_public_key_info input = do
  outer_content ← map_err bad_outer_seq (decode_sequence_tlv_strict input)
  parse_content outer_content
