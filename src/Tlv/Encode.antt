-- ===== src/Tlv/Encode.antt =====
-- `encode_tlv_into` writes the prescribed octets.
use rs_verified_der.Base.{
  ℕ, ◌+◌, ◌-◌, ◌%◌, ◌^◌, ◌≤◌, ◌<◌, ◌≡◌, sym, arith, List, [], ◌++◌, length, drop, length-append,
  drop-drop, length-drop, ltb, if◌then◌else◌, replicate, Bool-cases, inl, inr, true, false,
}
use Prim.Native.Nat.add
use rs_verified_der.Base.Result.{slice, Result, ok, err, copy_from_slice}
use rs_verified_der.Base.Slices.{slice-append, copy_from_slice-append}
use rs_verified_der.Length.Octets.{length_octets, encode_length_lem}
use rs_verified_der.Tag.{u32_max}
use rs_verified_der.Tag.Octets.{tag_octets, IsTag, encode_tag_lem}
use rs_verified_der.Tlv.{Tlv, encode_tlv_into}
use rs_verified_der.Tlv.Octets.{IsTlv, tlv_octets, length-tlv_octets}

-- The error is `None`.
abbrev Written : Type 0
Written = Result (Unit {0}) (List ℕ)

copy_first :
    (src out : List ℕ)
    → length src ≤ length out
    → copy_from_slice {E = Unit {0}} out 0 (length src) src ≡ ok (src ++ drop (length src) out)
copy_first src out h = rw add.zero at (copy_from_slice-append {E = Unit {0}} [] src out h)

encode_fits :
    (t : Tlv) (out : List ℕ)
    → IsTlv t
    → length (tlv_octets t) ≤ length out
    → encode_tlv_into t.tag t.value out
      ≡ ok (length (tlv_octets t), tlv_octets t ++ drop (length (tlv_octets t)) out)
unfolding encode_tlv_into
encode_fits t out (ht, hv) room =
    let T = tag_octets t.tag in
    let L = length_octets (length t.value) in
    let V = t.value in
    let n = length (tlv_octets t) in
    let total : length T + length L + length V ≡ n = sym (length-tlv_octets t) in
    let word : length V % 2 ^ 32 ≡ length V = omega arith in
    let whole_tag : slice {E = Unit {0}} (T ++ replicate (6 - length T) 0) 0 (length T) ≡ ok T =
      rw add.zero at (slice-append {E = Unit {0}} [] T (replicate (6 - length T) 0)) in
    let whole_length : slice {E = Unit {0}} (L ++ replicate (5 - length L) 0) 0 (length L) ≡ ok L =
      rw add.zero at (slice-append {E = Unit {0}} [] L (replicate (5 - length L) 0)) in
    let one = copy_first T out (omega (arith, total)) in
    let two =
      copy_from_slice-append {E = Unit {0}} T L (drop (length T) out)
        (omega (arith, total, length-drop (length T) out)) in
    let three =
      copy_from_slice-append {E = Unit {0}} (T ++ L) V (drop (length L) (drop (length T) out)) (
        omega (
          arith,
          total,
          length-drop (length T) out,
          length-drop (length L) (drop (length T) out),
        )) in
    let last : length (T ++ L) + length V ≡ n = omega (arith, total, length-append T L) in
    let rest : drop (length V) (drop (length L) (drop (length T) out)) ≡ drop n out = rw (
      drop-drop (length T) (length L) out,
      drop-drop (length T + length L) (length V) out,
      total,
    ) in
    elim (Bool-cases (ltb u32_max (length V))) [
      | inl e ↦ absurd (ground arith)
      | inr e ↦ elim (Bool-cases (ltb (length out) n)) [
        | inl f ↦ absurd (ground arith)
        | inr f ↦
            rw
              (
                e,
                encode_tag_lem {E = Unit {0}} t.tag ht,
                word,
                encode_length_lem {E = Unit {0}} (length V) hv,
              )
              (rw (total) (
                rw (f, whole_tag, one, whole_length, two)
                  (rw (← length-append T L) (rw (rw last at three, rest)))))
      ]
    ]

encode_no_room :
    (t : Tlv) (out : List ℕ)
    → IsTlv t
    → length out < length (tlv_octets t)
    → encode_tlv_into t.tag t.value out ≡ err tt
unfolding encode_tlv_into
encode_no_room t out (ht, hv) short =
    let word : length t.value % 2 ^ 32 ≡ length t.value = omega arith in
    let small : ltb u32_max (length t.value) ≡ false = ground arith in
    let full : ltb (length out) (length (tlv_octets t)) ≡ true = ground arith in
    rw
      (
        small,
        encode_tag_lem {E = Unit {0}} t.tag ht,
        word,
        encode_length_lem {E = Unit {0}} (length t.value) hv,
      )
      (rw (← length-tlv_octets t) (rw full))

-- For a tag number below 2 ^ 32, `encode_tlv_into` gives `None` if the value has 2 ^ 32 octets or more or
-- `out` is shorter than the DER encoding of the tag and the value; else it returns the length of that
-- encoding and writes the encoding to the front of `out`, of which it changes nothing more.
pub encode_tlv_into_lem :
    (t : Tlv) (out : List ℕ)
    → IsTag t.tag
    → encode_tlv_into t.tag t.value out ≡ (
        if ltb u32_max (length t.value)
        then err tt
        else if ltb (length out) (length (tlv_octets t))
        then err tt
        else ok (length (tlv_octets t), tlv_octets t ++ drop (length (tlv_octets t)) out))
encode_tlv_into_lem t out ht = elim (Bool-cases (ltb u32_max (length t.value))) [
  | inl e ↦ rw e (unfold encode_tlv_into in rw e)
  | inr e ↦ elim (Bool-cases (ltb (length out) (length (tlv_octets t)))) [
    | inl f ↦ rw (e, f) (encode_no_room t out (ht, ground arith) (ground arith))
    | inr f ↦ rw (e, f) (encode_fits t out (ht, ground arith) (ground arith))
  ]
]
