-- ===== src/EcdsaSigValue/Parse.antt =====
-- The two parsers of an ECDSA-Sig-Value read the encodings of pairs of minimal INTEGERs, and no more.
use rs_verified_der.Base.{ℕ, arith, ◌≡◌, ◌↔◌, List, ◌++◌}
use rs_verified_der.Base.Codec
use rs_verified_der.Base.Codec.{ContentCodec, Codec, At, IsBytes}
use rs_verified_der.Base.Result.{ok, Ensures}
use rs_verified_der.EcdsaSigValue.{
  EcdsaSigValue, IntegerFieldError, tlv, wrong_tag, constructed, content, EcdsaSigValueError,
  bad_outer_seq, missing_r, bad_r, missing_s, bad_s, trailing_elements, decode_integer_tlv,
  parse_fields, parse_ecdsa_sig_value, parse_ecdsa_sig_value_strict,
}
use rs_verified_der.BigInteger
use rs_verified_der.BigInteger.{validate_integer_content}
use rs_verified_der.IntegerField.{
  IsInteger, integer_octets, integer_octets-ne-nil, validate-ne-panic, two_fields-Ensures,
  two_fields-octets,
}
use rs_verified_der.Sequence.Envelope.{sequence_octets}
use rs_verified_der.Sequence.Fields.{parse_prefix-Ensures, parse_prefix-octets, parse_whole_iff}
use rs_verified_der.Tlv.Field.{read_field-Ensures, read_field-octets}
use rs_verified_der.Tlv.Typed.{Fits}

field_codec : Codec IntegerFieldError (List ℕ)
unfolding decode_integer_tlv
field_codec = record {
  decode = decode_integer_tlv;
  Is = IsInteger;
  octets = integer_octets;
  sound =
      read_field-Ensures tlv wrong_tag constructed content BigInteger.tag (omega arith)
        validate_integer_content validate-ne-panic;
  complete =
      read_field-octets tlv wrong_tag constructed content BigInteger.tag (omega arith)
        validate_integer_content validate-ne-panic;
}

abbrev pub fields_octets : EcdsaSigValue → List ℕ
fields_octets sig = integer_octets sig.r ++ integer_octets sig.s

abbrev pub IsFields : EcdsaSigValue → Type 0
IsFields sig = IsInteger sig.r × IsInteger sig.s

-- Two minimal INTEGERs that fit their length fields, and together that of the SEQUENCE.
abbrev pub IsSig : EcdsaSigValue → Type 0
IsSig sig = IsFields sig × Fits (fields_octets sig)

abbrev pub sig_octets : EcdsaSigValue → List ℕ
sig_octets sig = sequence_octets (fields_octets sig)

parse_fields-Ensures :
    (outer_content : List ℕ)
    → IsBytes outer_content
    → Ensures
        (λ sig. IsFields sig × (outer_content ≡ fields_octets sig))
        (parse_fields outer_content)
unfolding parse_fields field_codec
parse_fields-Ensures outer_content bytes =
    two_fields-Ensures field_codec field_codec missing_r missing_s trailing_elements bad_r bad_s
      (λ a b. record { r = a; s = b }) _ outer_content bytes (λ a b ha hb e. ((ha, hb), e))

parse_fields-octets :
    (sig : EcdsaSigValue) → IsFields sig → parse_fields (fields_octets sig) ≡ ok sig
unfolding parse_fields field_codec
parse_fields-octets sig (hr, hs) =
    two_fields-octets field_codec field_codec missing_r missing_s trailing_elements bad_r bad_s
      (λ a b. record { r = a; s = b }) sig.r sig.s integer_octets-ne-nil integer_octets-ne-nil hr hs

fields_codec : ContentCodec EcdsaSigValueError EcdsaSigValue
fields_codec = record {
  parse = parse_fields;
  Is = IsFields;
  octets = fields_octets;
  sound = parse_fields-Ensures;
  complete = parse_fields-octets;
}

pub ecdsa_codec : Codec EcdsaSigValueError EcdsaSigValue
unfolding parse_ecdsa_sig_value fields_codec
ecdsa_codec = record {
  decode = parse_ecdsa_sig_value;
  Is = IsSig;
  octets = sig_octets;
  sound = parse_prefix-Ensures bad_outer_seq fields_codec;
  complete = parse_prefix-octets bad_outer_seq fields_codec;
}

-- On bytes, `parse_ecdsa_sig_value` returns `(sig, k)` exactly when the input begins with the DER
-- encoding of the SEQUENCE of the two INTEGERs of `sig`, of k octets: the contents r and s are
-- minimal, and they and the SEQUENCE content have fewer than 2 ^ 32 octets.
pub parse_ecdsa_sig_value_iff :
    (input : List ℕ) (sig : EcdsaSigValue) (k : ℕ)
    → IsBytes input
    → (parse_ecdsa_sig_value input ≡ ok (sig, k)) ↔ At IsSig sig_octets input (sig, k)
unfolding ecdsa_codec
parse_ecdsa_sig_value_iff = Codec.decode_iff ecdsa_codec

-- On bytes, `parse_ecdsa_sig_value_strict` returns `sig` exactly when the whole input is the DER
-- encoding of the SEQUENCE of the two INTEGERs of `sig`: the contents r and s are minimal, and they
-- and the SEQUENCE content have fewer than 2 ^ 32 octets.
pub parse_ecdsa_sig_value_strict_iff :
    (input : List ℕ) (sig : EcdsaSigValue)
    → IsBytes input
    → (parse_ecdsa_sig_value_strict input ≡ ok sig) ↔ (IsSig sig × (input ≡ sig_octets sig))
unfolding parse_ecdsa_sig_value_strict fields_codec
parse_ecdsa_sig_value_strict_iff = parse_whole_iff bad_outer_seq fields_codec
