-- ===== src/X509Validity.antt =====
-- der-verified/src/x509_validity.rs: `Validity ::= SEQUENCE { notBefore Time, notAfter Time }`, where a Time
-- is a UTCTime or a GeneralizedTime.
pub mod Parse
use rs_verified_der.Base.{ℕ, not, List, length, if◌then◌else◌, ◌==◌, ◌!=◌}
use rs_verified_der.Base.Result.{Result, ok, err, ◌>>=◌, map_err, slice_from}
use rs_verified_der.GeneralizedTime
use rs_verified_der.GeneralizedTime.{GeneralizedTime, GeneralizedTimeError, decode_generalized_time}
use rs_verified_der.Sequence.{SequenceError, decode_sequence_tlv_strict}
use rs_verified_der.Tag.{class_eq, universal}
use rs_verified_der.Tlv.{decode_tlv}
use rs_verified_der.Tlv.Error.{TlvError}
use rs_verified_der.Tlv.Field.{is_empty}
use rs_verified_der.UtcTime
use rs_verified_der.UtcTime.{UtcTime, UtcTimeError, decode_utc_time}

pub data Time : Type 0 where
  utc : UtcTime → Time
  generalized : GeneralizedTime → Time

pub record Validity : Type 0 where
  pub not_before : Time
  pub not_after : Time

pub data TimeError : Type 0 where
  bad_tlv : TlvError → TimeError
  wrong_tag constructed : TimeError
  bad_utc : UtcTimeError → TimeError
  bad_generalized : GeneralizedTimeError → TimeError

pub data ValidityError : Type 0 where
  bad_outer_seq : SequenceError → ValidityError
  missing_not_before : ValidityError
  not_before_error : TimeError → ValidityError
  missing_not_after : ValidityError
  not_after_error : TimeError → ValidityError
  trailing_bytes : ValidityError

unfoldable pub decode_time_tlv : List ℕ → Result TimeError (Time × ℕ)
decode_time_tlv input = do
  (t, used) ← map_err bad_tlv (decode_tlv input)
  if not (class_eq t.tag.class universal)
      then err wrong_tag
      else if t.tag.number == UtcTime.tag
      then (if t.tag.constructed
          then err constructed
          else (map_err bad_utc (decode_utc_time t.value) >>= λ time. ok (utc time, used)))
      else if t.tag.number == GeneralizedTime.tag
      then (if t.tag.constructed
          then err constructed
          else (map_err bad_generalized (decode_generalized_time t.value) >>= λ time.
              ok (generalized time, used)))
      else err wrong_tag

-- What `parse_validity` does with the content of the outer SEQUENCE.
unfoldable pub parse_fields : List ℕ → Result ValidityError Validity
parse_fields outer_content = if is_empty outer_content then err missing_not_before else do
  (not_before, nb_used) ← map_err not_before_error (decode_time_tlv outer_content)
  rest ← slice_from outer_content nb_used
  if is_empty rest then err missing_not_after else do
    (not_after, na_used) ← map_err not_after_error (decode_time_tlv rest)
    if na_used != length rest
        then err trailing_bytes
        else ok (record { not_before = not_before; not_after = not_after })

unfoldable pub parse_validity : List ℕ → Result ValidityError Validity
parse_validity input = do
  outer_content ← map_err bad_outer_seq (decode_sequence_tlv_strict input)
  parse_fields outer_content
