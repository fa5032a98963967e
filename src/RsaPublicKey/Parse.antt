-- ===== src/RsaPublicKey/Parse.antt =====
-- The two parsers of an RSAPublicKey read the encodings of pairs of minimal INTEGERs, and no more.
use rs_verified_der.Base.{ℕ, arith, ◌≡◌, ◌↔◌, List, ◌++◌}
use rs_verified_der.Base.Codec
use rs_verified_der.Base.Codec.{ContentCodec, Codec, At, IsBytes}
use rs_verified_der.Base.Result.{ok, Ensures}
use rs_verified_der.RsaPublicKey.{
  RsaPublicKey, IntegerFieldError, tlv, wrong_tag, constructed, content, RsaPublicKeyError,
  bad_outer_seq, missing_modulus, bad_modulus, missing_public_exponent, bad_public_exponent,
  trailing_elements, decode_integer_tlv, parse_fields, parse_rsa_public_key,
  parse_rsa_public_key_strict,
}
use rs_verified_der.BigInteger
use rs_verified_der.BigInteger.{validate_integer_content}
use rs_verified_der.IntegerField.{
  IsInteger, integer_octets, integer_octets-ne-nil, validate-ne-panic, two_fields-Ensures,
  two_fields-octets,
}
use rs_verified_der.Sequence.Envelope.{sequence_octets}
use rs_verified_der.Sequence.Fields.{parse_prefix-Ensures, parse_prefix-octets, parse_whole_iff}
use rs_verified_der.Tlv.Field.{read_field-Ensures, read_field-octets}
use rs_verified_der.Tlv.Typed.{Fits}

field_codec : Codec IntegerFieldError (List ℕ)
unfolding decode_integer_tlv
field_codec = record {
  decode = decode_integer_tlv;
  Is = IsInteger;
  octets = integer_octets;
  sound =
      read_field-Ensures tlv wrong_tag constructed content BigInteger.tag (omega arith)
        validate_integer_content validate-ne-panic;
  complete =
      read_field-octets tlv wrong_tag constructed content BigInteger.tag (omega arith)
        validate_integer_content validate-ne-panic;
}

abbrev pub fields_octets : RsaPublicKey → List ℕ
fields_octets key = integer_octets key.modulus ++ integer_octets key.public_exponent

abbrev pub IsFields : RsaPublicKey → Type 0
IsFields key = IsInteger key.modulus × IsInteger key.public_exponent

-- Two minimal INTEGERs that fit their length fields, and together that of the SEQUENCE.
abbrev pub IsKey : RsaPublicKey → Type 0
IsKey key = IsFields key × Fits (fields_octets key)

abbrev pub key_octets : RsaPublicKey → List ℕ
key_octets key = sequence_octets (fields_octets key)

parse_fields-Ensures :
    (outer_content : List ℕ)
    → IsBytes outer_content
    → Ensures
        (λ key. IsFields key × (outer_content ≡ fields_octets key))
        (parse_fields outer_content)
unfolding parse_fields field_codec
parse_fields-Ensures outer_content bytes =
    two_fields-Ensures field_codec field_codec missing_modulus missing_public_exponent
      trailing_elements bad_modulus bad_public_exponent
      (λ a b. record { modulus = a; public_exponent = b }) _ outer_content bytes
      (λ a b ha hb e. ((ha, hb), e))

parse_fields-octets :
    (key : RsaPublicKey) → IsFields key → parse_fields (fields_octets key) ≡ ok key
unfolding parse_fields field_codec
parse_fields-octets key (hr, hs) =
    two_fields-octets field_codec field_codec missing_modulus missing_public_exponent
      trailing_elements bad_modulus bad_public_exponent
      (λ a b. record { modulus = a; public_exponent = b }) key.modulus key.public_exponent
      integer_octets-ne-nil integer_octets-ne-nil hr hs

fields_codec : ContentCodec RsaPublicKeyError RsaPublicKey
fields_codec = record {
  parse = parse_fields;
  Is = IsFields;
  octets = fields_octets;
  sound = parse_fields-Ensures;
  complete = parse_fields-octets;
}

pub rsa_public_key_codec : Codec RsaPublicKeyError RsaPublicKey
unfolding parse_rsa_public_key fields_codec
rsa_public_key_codec = record {
  decode = parse_rsa_public_key;
  Is = IsKey;
  octets = key_octets;
  sound = parse_prefix-Ensures bad_outer_seq fields_codec;
  complete = parse_prefix-octets bad_outer_seq fields_codec;
}

-- On bytes, `parse_rsa_public_key` returns `(key, k)` exactly when the input begins with the DER
-- encoding of the SEQUENCE of the two INTEGERs of `key`, of k octets: the contents of both are
-- minimal, and they and the SEQUENCE content have fewer than 2 ^ 32 octets.
pub parse_rsa_public_key_iff :
    (input : List ℕ) (key : RsaPublicKey) (k : ℕ)
    → IsBytes input
    → (parse_rsa_public_key input ≡ ok (key, k)) ↔ At IsKey key_octets input (key, k)
unfolding rsa_public_key_codec
parse_rsa_public_key_iff = Codec.decode_iff rsa_public_key_codec

-- On bytes, `parse_rsa_public_key_strict` returns `key` exactly when the whole input is the DER
-- encoding of the SEQUENCE of the two INTEGERs of `key`: the contents of both are minimal, and they
-- and the SEQUENCE content have fewer than 2 ^ 32 octets.
pub parse_rsa_public_key_strict_iff :
    (input : List ℕ) (key : RsaPublicKey)
    → IsBytes input
    → (parse_rsa_public_key_strict input ≡ ok key) ↔ (IsKey key × (input ≡ key_octets key))
unfolding parse_rsa_public_key_strict fields_codec
parse_rsa_public_key_strict_iff = parse_whole_iff bad_outer_seq fields_codec
