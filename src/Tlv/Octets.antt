-- ===== src/Tlv/Octets.antt =====
-- The octets that X.690 prescribes for a TLV.
use rs_verified_der.Base.{
  ℕ, ◌+◌, ◌^◌, ◌≤◌, ◌<◌, ◌≡◌, arith, List, ◌++◌, length, length-append, All-append,
}
use rs_verified_der.Base.Codec.{IsBytes}
use rs_verified_der.Length.Octets.{length_octets, length_octets-IsBytes, length_octets_size}
use rs_verified_der.Tag.Octets.{tag_octets, IsTag, tag_octets-IsBytes, tag_octets_size}
use rs_verified_der.Tlv.{Tlv}

-- The tag and the length of the value fit 32 bits.
abbrev pub IsTlv : Tlv → Type 0
IsTlv t = IsTag t.tag × (length t.value < 2 ^ 32)

abbrev pub header_octets : Tlv → List ℕ
header_octets t = tag_octets t.tag ++ length_octets (length t.value)

abbrev pub tlv_octets : Tlv → List ℕ
tlv_octets t = header_octets t ++ t.value

pub length-tlv_octets :
    (t : Tlv)
    → length (tlv_octets t)
      ≡ length (tag_octets t.tag) + length (length_octets (length t.value)) + length t.value
length-tlv_octets t = omega (
  arith,
  length-append (header_octets t) t.value,
  length-append (tag_octets t.tag) (length_octets (length t.value)),
)

pub tlv_octets-IsBytes : (t : Tlv) → IsTlv t → IsBytes t.value → IsBytes (tlv_octets t)
tlv_octets-IsBytes t (h, k) bytes =
    All-append _ (header_octets t) t.value
      (All-append _ (tag_octets t.tag) (length_octets (length t.value)) (tag_octets-IsBytes t.tag h)
        (length_octets-IsBytes _ k))
      bytes

-- The shortest TLV has two octets.
pub tlv_octets_size :
    (t : Tlv) → (2 ≤ length (tlv_octets t)) × (length (tlv_octets t) ≤ 11 + length t.value)
tlv_octets_size t =
    omega (arith, length-tlv_octets t, tag_octets_size t.tag, length_octets_size (length t.value))
