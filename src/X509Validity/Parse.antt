-- ===== src/X509Validity/Parse.antt =====
-- The parser of a Validity reads the encodings of pairs of times, and no more.
use rs_verified_der.Base.{
  ℕ, ◌≡◌, ◌≢◌, ◌↔◌, refl, ap, sym, ◌∙◌, subst, arith, not, false, true, List, [], ◌++◌, length,
  drop, if◌then◌else◌, ◌==◌,
}
use rs_verified_der.Base.Codec.{ContentCodec, Codec, At, IsBytes}
use rs_verified_der.Base.Result.{
  ok, err, ◌>>=◌, map_err, Ensures, holds, rejected, Ensures-bind, Ensures-if, Ensures-map_err,
}
use rs_verified_der.GeneralizedTime
use rs_verified_der.GeneralizedTime.Format.{
  IsGeneralizedTime, generalized_octets, generalized_time_codec,
}
use rs_verified_der.IntegerField.{wrapped-ne-nil, two_fields-Ensures, two_fields-octets}
use rs_verified_der.Sequence.Envelope.{sequence_octets}
use rs_verified_der.Sequence.Fields.{parse_whole-Ensures, parse_whole-octets, parse_whole_iff}
use rs_verified_der.Tag.{class_eq, universal}
use rs_verified_der.Tlv.{Tlv}
use rs_verified_der.Tlv.Decode.{decode_tlv-Ensures, decode_tlv-octets}
use rs_verified_der.Tlv.Octets.{IsTlv, tlv_octets}
use rs_verified_der.Tlv.Typed.{
  universal_tag, wrap, wrapped, wrap_octets, Fits, At-wrapped, At-IsBytes,
}
use rs_verified_der.UtcTime
use rs_verified_der.UtcTime.Format.{IsUtcTime, utc_octets, utc_time_codec}
use rs_verified_der.X509Validity.{
  Time, utc, generalized, Validity, TimeError, bad_tlv, constructed, bad_utc, bad_generalized,
  ValidityError, bad_outer_seq, missing_not_before, not_before_error, missing_not_after,
  not_after_error, trailing_bytes, decode_time_tlv, parse_fields, parse_validity,
}

abbrev pub IsTime : Time → Type 0
IsTime (utc t) = IsUtcTime t
IsTime (generalized t) = IsGeneralizedTime t × Fits (generalized_octets t)

abbrev pub time_octets : Time → List ℕ
time_octets (utc t) = wrap_octets (universal_tag false UtcTime.tag) (utc_octets t)
time_octets (generalized t) =
    wrap_octets (universal_tag false GeneralizedTime.tag) (generalized_octets t)

-- One arm of the choice.
module _ {F A : Type 0} (number : ℕ) (bad : F → TimeError) (c : ContentCodec F A)
    (mk : A → Time) where
  arm-Ensures :
      (input : List ℕ) (t : Tlv) (k : ℕ)
      → IsBytes input
      → At IsTlv tlv_octets input (t, k)
      → class_eq t.tag.class universal ≡ true
      → t.tag.number ≡ number
      → ((a : A) → c.Is a → Fits (c.octets a) → IsTime (mk a))
      → ((a : A) → time_octets (mk a) ≡ wrap_octets (universal_tag false number) (c.octets a))
      → Ensures (At IsTime time_octets input) (
          if t.tag.constructed
          then err constructed
          else (map_err bad (c.parse t.value) >>= λ a. ok (mk a, k)))
  arm-Ensures input t k bytes at hc hn good spelled =
      Ensures-if t.tag.constructed (λ _. rejected)
        λ form.
          let (fits, size, split) =
            At-wrapped input t k (universal_tag false number) at
              (wrapped t universal false number hc form hn) in
          Ensures-bind (Ensures-map_err bad (c.sound t.value (At-IsBytes input t k bytes at).0))
            λ a (h, same).
              let octets : wrap_octets (universal_tag false number) t.value ≡ time_octets (mk a) =
                ap (wrap_octets (universal_tag false number)) same ∙ sym (spelled a) in
              holds (
                good a h (subst Fits same fits),
                size ∙ ap (λ (v : List ℕ). length v) octets,
                split ∙ ap (λ v. v ++ drop k input) octets,
              )

decode_time_tlv-Ensures :
    (input : List ℕ) → IsBytes input → Ensures (At IsTime time_octets input) (decode_time_tlv input)
unfolding decode_time_tlv utc_time_codec generalized_time_codec
decode_time_tlv-Ensures input bytes =
    Ensures-bind (Ensures-map_err bad_tlv (decode_tlv-Ensures input bytes)) λ (t, k) at.
      Ensures-if (not (class_eq t.tag.class universal)) (λ _. rejected)
        λ hc.
          Ensures-if (t.tag.number == UtcTime.tag)
            (λ hn.
              arm-Ensures UtcTime.tag bad_utc utc_time_codec utc input t k bytes at (ground arith)
                (ground arith) (λ a h _. h) (λ a. refl))
            λ _.
              Ensures-if (t.tag.number == GeneralizedTime.tag)
                (λ hn.
                  arm-Ensures GeneralizedTime.tag bad_generalized generalized_time_codec generalized
                    input t k bytes at (ground arith) (ground arith) (λ a h fits. (h, fits))
                    (λ a. refl))
                (λ _. rejected)

decode_time_tlv-octets :
    (t : Time) (rest : List ℕ)
    → IsTime t
    → decode_time_tlv (time_octets t ++ rest) ≡ ok (t, length (time_octets t))
unfolding decode_time_tlv utc_time_codec generalized_time_codec
decode_time_tlv-octets (utc t) rest h =
    rw
      (
        decode_tlv-octets (wrap (universal_tag false UtcTime.tag) (utc_octets t)) rest
            (omega arith, omega arith),
        ContentCodec.complete utc_time_codec t h,
      )
      refl
decode_time_tlv-octets (generalized t) rest (h, fits) =
    rw
      (
        decode_tlv-octets (wrap (universal_tag false GeneralizedTime.tag) (generalized_octets t))
            rest (omega arith, fits),
        ContentCodec.complete generalized_time_codec t h,
      )
      refl

time_codec : Codec TimeError Time
time_codec = record {
  decode = decode_time_tlv;
  Is = IsTime;
  octets = time_octets;
  sound = decode_time_tlv-Ensures;
  complete = decode_time_tlv-octets;
}

time_octets-ne-nil : (t : Time) (rest : List ℕ) → time_octets t ++ rest ≢ []
time_octets-ne-nil (utc t) rest e = wrapped-ne-nil UtcTime.tag (utc_octets t) rest e
time_octets-ne-nil (generalized t) rest e =
    wrapped-ne-nil GeneralizedTime.tag (generalized_octets t) rest e

abbrev pub IsFields : Validity → Type 0
IsFields v = IsTime v.not_before × IsTime v.not_after

abbrev pub fields_octets : Validity → List ℕ
fields_octets v = time_octets v.not_before ++ time_octets v.not_after

-- Two times whose encodings fit the length field of the SEQUENCE.
abbrev pub IsValidity : Validity → Type 0
IsValidity v = IsFields v × Fits (fields_octets v)

abbrev pub validity_octets : Validity → List ℕ
validity_octets v = sequence_octets (fields_octets v)

fields_codec : ContentCodec ValidityError Validity
unfolding parse_fields time_codec
fields_codec = record {
  parse = parse_fields;
  Is = IsFields;
  octets = fields_octets;
  sound = λ content bytes.
      two_fields-Ensures time_codec time_codec missing_not_before missing_not_after trailing_bytes
        not_before_error not_after_error (λ a b. record { not_before = a; not_after = b }) _ content
        bytes (λ a b ha hb e. ((ha, hb), e));
  complete = λ v (h, k).
      two_fields-octets time_codec time_codec missing_not_before missing_not_after trailing_bytes
        not_before_error not_after_error (λ a b. record { not_before = a; not_after = b })
        v.not_before v.not_after time_octets-ne-nil time_octets-ne-nil h k;
}

pub parse_validity-Ensures :
    (input : List ℕ)
    → IsBytes input
    → Ensures (λ v. IsValidity v × (input ≡ validity_octets v)) (parse_validity input)
unfolding parse_validity fields_codec
parse_validity-Ensures = parse_whole-Ensures bad_outer_seq fields_codec

pub parse_validity-octets :
    (v : Validity) → IsValidity v → parse_validity (validity_octets v) ≡ ok v
unfolding parse_validity fields_codec
parse_validity-octets = parse_whole-octets bad_outer_seq fields_codec

-- On bytes, `parse_validity` returns v exactly when the whole input is the DER encoding of the SEQUENCE of
-- the two times of v: each is in the ranges of its format and written in the one form of a UTCTime
-- (tag 23) or of a GeneralizedTime (tag 24), as v says, and the contents have fewer than 2 ^ 32
-- octets.
pub parse_validity_iff :
    (input : List ℕ) (v : Validity)
    → IsBytes input
    → (parse_validity input ≡ ok v) ↔ (IsValidity v × (input ≡ validity_octets v))
unfolding parse_validity fields_codec
parse_validity_iff = parse_whole_iff bad_outer_seq fields_codec
