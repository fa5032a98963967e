-- ===== src/Examples/Collections.antt =====
-- The walks over the children of a SEQUENCE and of a SET OF.
use Prim.Native.Nat.{compare}
use rs_verified_der.Base.{
  ℕ, ◌≡◌, ◌≢◌, ◌↔◌, refl, arith, some, false, List, [], ◌∷◌, ◌++◌, length, All,
}
use rs_verified_der.Base.Result.{ok, err, panic}
use rs_verified_der.Sequence.{decode_sequence, element, Elements, elements, child, count_children}
use rs_verified_der.Sequence.Iterator.{Calls, start, yielded, Reached-Children}
use rs_verified_der.Sequence.Children.{
  children_octets, next-child, decode_sequence_iff, decode_sequence_malformed, count_children_total,
}
use rs_verified_der.SetOf.{cmp_padded, decode_set_of, unsorted}
use rs_verified_der.SetOf.Children.{Ascending}
use rs_verified_der.SetOf.Padded.{padded_value, cmp_padded_lem}
use rs_verified_der.SetOf.Walk.{decode_set_of_iff, decode_set_of_unsorted}
use rs_verified_der.Length.{decode_length}
use rs_verified_der.Tag.{decode_tag}
use rs_verified_der.Tag.Octets.{tag_octets}
use rs_verified_der.Length.Octets.{length_octets}
use rs_verified_der.Tlv.{Tlv, decode_tlv}
use rs_verified_der.Tlv.Error.{truncated}
use rs_verified_der.Tlv.Octets.{IsTlv, tlv_octets}
use rs_verified_der.Tlv.Typed.{universal_tag}

-- INTEGER n, for one octet.
abbrev integer : ℕ → Tlv
integer n = record { tag = universal_tag false 2; value = n ∷ [] }

-- INTEGER 1, then INTEGER 2.
abbrev pair : List ℕ
pair = 0x02 ∷ 0x01 ∷ 0x01 ∷ 0x02 ∷ 0x01 ∷ 0x02 ∷ []

decode_sequence_iff_example :
    (decode_sequence pair ≡ ok 2)
    ↔ ((ts : List Tlv) × All IsTlv ts × (length ts ≡ 2) × (pair ≡ children_octets ts))
decode_sequence_iff_example = decode_sequence_iff pair 2 (omega arith)

decode_sequence_malformed_example :
    decode_sequence (children_octets (integer 1 ∷ []) ++ 0x02 ∷ 0x05 ∷ []) ≡ err (element truncated)
unfolding decode_tlv decode_tag decode_length
decode_sequence_malformed_example =
    decode_sequence_malformed (integer 1 ∷ []) 0x02 (0x05 ∷ []) truncated (omega arith) refl

decode_set_of_iff_example : (decode_set_of pair ≡ ok 2) ↔ (
    (ts : List Tlv) × All IsTlv ts × Ascending ts × (length ts ≡ 2) × (pair ≡ children_octets ts))
decode_set_of_iff_example = decode_set_of_iff pair 2 (omega arith)

decode_set_of_unsorted_example :
    decode_set_of (
      children_octets (integer 1 ∷ [])
      ++ (tlv_octets (integer 7) ++ (tlv_octets (integer 3) ++ 0xff ∷ [])))
    ≡ err (unsorted 1)
unfolding cmp_padded tag_octets length_octets
decode_set_of_unsorted_example =
    decode_set_of_unsorted (integer 1 ∷ []) (integer 7) (integer 3) (0xff ∷ []) (omega arith)
      ((refl, tt), (tt, tt)) refl

cmp_padded_lem_example :
    cmp_padded (0x02 ∷ 0x01 ∷ []) (0x02 ∷ 0x01 ∷ 0x00 ∷ [])
    ≡ compare (padded_value 3 (0x02 ∷ 0x01 ∷ [])) (padded_value 3 (0x02 ∷ 0x01 ∷ 0x00 ∷ []))
cmp_padded_lem_example =
    cmp_padded_lem 3 _ _ (omega arith) (omega arith) (omega arith) (omega arith)

count_children_total_example : count_children 7 (elements pair) 0 ≢ panic
count_children_total_example = count_children_total pair 7 0 (omega arith) (omega arith)

-- The state behind the first of the two.
abbrev behind : Elements
behind = elements (0x02 ∷ 0x01 ∷ 0x02 ∷ [])

first_call : Calls (elements pair) (some (child (integer 1))) behind
unfolding tag_octets length_octets
first_call = next-child (integer 1) behind.rest (omega arith, omega arith)

Reached-Children_example :
    All IsTlv (integer 1 ∷ []) × (pair ≡ children_octets (integer 1 ∷ []) ++ behind.rest)
Reached-Children_example =
    Reached-Children pair (integer 1 ∷ []) behind (omega arith)
      (yielded (integer 1) start first_call)
