-- ===== src/Examples/Framing.antt =====
-- Identifier, length and TLV octets.
use rs_verified_der.Base.{
  ℕ, ◌-◌, ◌^◌, ◌<◌, ◌≤◌, ◌≡◌, ◌↔◌, refl, arith, true, false, List, [], ◌∷◌, ◌++◌, length, replicate,
  drop, ltb, if◌then◌else◌,
}
use rs_verified_der.Base.Codec.{At}
use rs_verified_der.Base.Result.{ok, err}
use rs_verified_der.Length.Octets.{length_octets}
use rs_verified_der.Tag.{Tag, decode_tag, encode_tag, universal, context_specific, u32_max}
use rs_verified_der.Tag.Octets.{IsTag, tag_octets, encode_tag_lem}
use rs_verified_der.Length.{decode_length}
use rs_verified_der.Tlv.{Tlv, decode_tlv, encode_tlv_into}
use rs_verified_der.Tlv.Octets.{IsTlv, tlv_octets}
use rs_verified_der.Tlv.Reader.{
  decode_length_iff, decode_tag_iff, decode_tlv_iff, decode_tlv_stable,
}
use rs_verified_der.Tlv.Encode.{encode_tlv_into_lem}

-- INTEGER 5, with two octets behind it.
abbrev integer_5 : Tlv
integer_5 = record {
  tag = record { class = universal; constructed = false; number = 2 };
  value = 5 ∷ [];
}

abbrev input_5 : List ℕ
input_5 = 0x02 ∷ 0x01 ∷ 0x05 ∷ 0xaa ∷ 0xbb ∷ []

-- The tag `[201]`, in the high-tag form.
abbrev high_tag : Tag
high_tag = record { class = context_specific; constructed = true; number = 201 }

decode_length_iff_example :
    (decode_length (0x82 ∷ 0x01 ∷ 0x00 ∷ 0x07 ∷ []) ≡ ok (256, 3))
    ↔ At (λ n. n < 2 ^ 32) length_octets (0x82 ∷ 0x01 ∷ 0x00 ∷ 0x07 ∷ []) (256, 3)
decode_length_iff_example = decode_length_iff _ 256 3 (omega arith)

decode_tag_iff_example :
    (decode_tag (0xbf ∷ 0x81 ∷ 0x49 ∷ []) ≡ ok (high_tag, 3))
    ↔ At IsTag tag_octets (0xbf ∷ 0x81 ∷ 0x49 ∷ []) (high_tag, 3)
decode_tag_iff_example = decode_tag_iff _ high_tag 3 (omega arith)

decode_tlv_iff_example :
    (decode_tlv input_5 ≡ ok (integer_5, 3)) ↔ At IsTlv tlv_octets input_5 (integer_5, 3)
decode_tlv_iff_example = decode_tlv_iff input_5 integer_5 3 (omega arith)

decode_tlv_stable_example :
    (3 ≤ length input_5) × (decode_tlv (input_5 ++ 0xcc ∷ []) ≡ ok (integer_5, 3))
unfolding tag_octets length_octets
decode_tlv_stable_example = decode_tlv_stable input_5 (0xcc ∷ []) integer_5 3 (omega arith) read
  where
    read : decode_tlv input_5 ≡ ok (integer_5, 3)
    read =
        (decode_tlv_iff input_5 integer_5 3 (omega arith)).1
          ((omega arith, omega arith), refl, refl)

encode_tag_lem_example :
    encode_tag {E = Unit {0}} high_tag
    ≡ ok (
      tag_octets high_tag ++ replicate (6 - length (tag_octets high_tag)) 0,
      length (tag_octets high_tag),
    )
encode_tag_lem_example = encode_tag_lem {E = Unit {0}} high_tag (omega arith)

encode_tlv_into_lem_example : encode_tlv_into integer_5.tag integer_5.value input_5 ≡ (
    if ltb u32_max (length integer_5.value)
    then err tt
    else if ltb (length input_5) (length (tlv_octets integer_5))
    then err tt
    else ok (
      length (tlv_octets integer_5),
      tlv_octets integer_5 ++ drop (length (tlv_octets integer_5)) input_5,
    ))
encode_tlv_into_lem_example = encode_tlv_into_lem integer_5 input_5 (omega arith)
