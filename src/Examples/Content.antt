-- ===== src/Examples/Content.antt =====
-- Content octets: INTEGER, BOOLEAN, BIT STRING, OCTET STRING, OBJECT IDENTIFIER.
use rs_verified_der.Base.{
  ℕ, ◌-◌, ◌≤◌, ◌≡◌, ◌≢◌, ◌↔◌, arith, not, List, [], ◌∷◌, ◌++◌, length, drop, replicate, ltb,
  if◌then◌else◌, All,
}
use rs_verified_der.Base.Codec.{IsBytes}
use rs_verified_der.Base.Int.{negsuc}
use rs_verified_der.Base.Result.{ok, err}
use rs_verified_der.BigInteger.{validate_integer_content, encode_minimal_integer_into}
use rs_verified_der.BigInteger.Value.{twos_value}
use rs_verified_der.BigInteger.Minimal.{validate_integer_content_iff}
use rs_verified_der.BigInteger.Encode.{encode_minimal_integer_into_lem}
use rs_verified_der.BitString.{
  BitString, IsBitString, bit_string_octets, canonical, decode_bit_string, encode_bit_string_into,
  decode_bit_string_iff, encode_bit_string_into_lem,
}
use rs_verified_der.Integer.{encode_integer, decode_integer}
use rs_verified_der.Integer.Decode.{decode_integer_iff}
use rs_verified_der.Integer.Encode.{encode_integer_lem}
use rs_verified_der.Oid.{validate_oid}
use rs_verified_der.Oid.Arcs.{Arc, IsArc, oid_octets, validate_oid_iff}

-- 128, which needs a sign octet.
abbrev content_128 : List ℕ
content_128 = 0x00 ∷ 0x80 ∷ []

validate_integer_content_iff_example : (validate_integer_content content_128 ≡ ok tt) ↔ (
    (content_128 ≢ [])
    × ((d : List ℕ) → IsBytes d → d ≢ [] → twos_value d ≡ twos_value content_128 → 2 ≤ length d))
validate_integer_content_iff_example = validate_integer_content_iff content_128 (omega arith)

encode_minimal_integer_into_lem_example :
    (m : List ℕ) × (validate_integer_content m ≡ ok tt)
    × (twos_value m ≡ twos_value (0xff ∷ 0xff ∷ 0x80 ∷ []))
    × (length m ≤ 3)
    × (encode_minimal_integer_into (0xff ∷ 0xff ∷ 0x80 ∷ []) (0 ∷ 0 ∷ [])
        ≡ (if ltb 2 (length m) then err tt else ok (length m, m ++ drop (length m) (0 ∷ 0 ∷ []))))
encode_minimal_integer_into_lem_example =
    encode_minimal_integer_into_lem (0xff ∷ 0xff ∷ 0x80 ∷ []) (0 ∷ 0 ∷ []) (omega arith) (λ e. cc)

decode_integer_iff_example : (decode_integer (0xff ∷ 0x7f ∷ []) ≡ ok (negsuc 128)) ↔ (
    (validate_integer_content (0xff ∷ 0x7f ∷ []) ≡ ok tt)
    × (2 ≤ 8)
    × (twos_value (0xff ∷ 0x7f ∷ []) ≡ negsuc 128))
decode_integer_iff_example = decode_integer_iff (0xff ∷ 0x7f ∷ []) (negsuc 128) (omega arith)

encode_integer_lem_example :
    (m : List ℕ) × (encode_integer {E = Unit {0}} (negsuc 128)
      ≡ ok (m ++ replicate (8 - length m) 0, length m))
    × (validate_integer_content m ≡ ok tt)
    × (decode_integer m ≡ ok (negsuc 128))
encode_integer_lem_example = encode_integer_lem {E = Unit {0}} (negsuc 128) (omega arith)

-- Four bits, in the high half of the octet.
abbrev nibble : BitString
nibble = record { data_octets = 0xf0 ∷ []; unused = 4 }

decode_bit_string_iff_example :
    (decode_bit_string (0x04 ∷ 0xf0 ∷ []) ≡ ok nibble)
    ↔ (IsBitString nibble × (0x04 ∷ 0xf0 ∷ [] ≡ bit_string_octets nibble))
decode_bit_string_iff_example = decode_bit_string_iff (0x04 ∷ 0xf0 ∷ []) nibble (omega arith)

encode_bit_string_into_lem_example : encode_bit_string_into (0xf0 ∷ []) 4 (9 ∷ 9 ∷ 9 ∷ []) ≡ (
    if ltb 7 4
    then err tt
    else if not (canonical (0xf0 ∷ []) 4)
    then err tt
    else if ltb 3 2
    then err tt
    else ok (2, bit_string_octets nibble ++ drop 2 (9 ∷ 9 ∷ 9 ∷ [])))
encode_bit_string_into_lem_example =
    encode_bit_string_into_lem nibble (9 ∷ 9 ∷ 9 ∷ []) (omega arith)

-- 1.2.840.113549.
validate_oid_iff_example : (validate_oid (0x2a ∷ 0x86 ∷ 0x48 ∷ 0x86 ∷ 0xf7 ∷ 0x0d ∷ []) ≡ ok tt) ↔ (
    (arcs : List Arc) × (arcs ≢ [])
    × All IsArc arcs
    × (0x2a ∷ 0x86 ∷ 0x48 ∷ 0x86 ∷ 0xf7 ∷ 0x0d ∷ [] ≡ oid_octets arcs))
validate_oid_iff_example = validate_oid_iff _ (omega arith)
