-- ===== src/Tlv/Decode.antt =====
-- `decode_tlv` against the prescribed octets.
use rs_verified_der.Base.{
  ℕ, ◌+◌, ◌-◌, ◌^◌, ◌≤◌, ◌<◌, ◌≡◌, ap, sym, ◌∙◌, arith, List, ◌++◌, length, take, drop,
  length-append, All-drop, append_assoc, take-append-drop, length-take, length-drop, drop-drop, ltb,
  Bool-cases, inl, inr,
}
use rs_verified_der.Base.Result.{
  ok, Ensures, holds, rejected, Ensures-bind, Ensures-map_err, Ensures-if, slice,
}
use rs_verified_der.Base.Codec.{At, IsBytes, IsByte}
use rs_verified_der.Base.Slices.{slice_from_in, slice_from-append, slice_in, slice-append}
use rs_verified_der.Length.Octets.{length_octets, length_octets_size}
use rs_verified_der.Length.Decode.{decode_length-Ensures, decode_length-octets}
use rs_verified_der.Tag.{Tag}
use rs_verified_der.Tag.Octets.{tag_octets, IsTag, tag_octets_size}
use rs_verified_der.Tag.Decode.{decode_tag-Ensures}
use rs_verified_der.Tag.Complete.{decode_tag-octets}
use rs_verified_der.Tlv.{Tlv, decode_tlv, usize_try_from, checked_add}
use rs_verified_der.Tlv.Error.{TlvError}
use rs_verified_der.Tlv.Octets.{IsTlv, tlv_octets, length-tlv_octets}

-- The value lies behind the header.
value-At :
    (t : Tag) (v k l : ℕ) (input : List ℕ)
    → IsTag t
    → v < 2 ^ 32
    → k ≡ length (tag_octets t)
    → input ≡ tag_octets t ++ drop k input
    → l ≡ length (length_octets v)
    → drop k input ≡ length_octets v ++ drop l (drop k input)
    → k + l + v ≤ length input
    → At IsTlv tlv_octets input (record { tag = t; value = take v (drop (k + l) input) }, k + l + v)
value-At t v k l input ht hv ek split el split' within =
    let size : length (take v (drop (k + l) input)) ≡ v =
      length-take v _ (omega (arith, length-drop (k + l) input)) in
    let value = take v (drop (k + l) input) in
    let rest = drop (k + l + v) input in
    let tail : drop l (drop k input) ≡ value ++ rest =
      drop-drop k l input
      ∙ sym (take-append-drop v (drop (k + l) input))
      ∙ ap (λ t. value ++ t) (drop-drop (k + l) v input) in
    let whole : input ≡ tag_octets t ++ (length_octets v ++ (value ++ rest)) =
      split ∙ ap (λ r. tag_octets t ++ r) (split' ∙ ap (λ r. length_octets v ++ r) tail) in
    let parts : tlv_octets (record { tag = t; value = value }) ++ rest
        ≡ tag_octets t ++ (length_octets v ++ (value ++ rest)) =
      rw size (simp append_assoc) in
    (
      (ht, omega arith),
      omega (
        arith,
        length-tlv_octets (record { tag = t; value = value }),
        ap (λ n. length (length_octets n)) size,
      ),
      whole ∙ sym parts,
    )

-- The guards on the width of `usize` let every length through.
usize_try_from_small : (v : ℕ) → v < 2 ^ 32 → usize_try_from v ≡ ok v
usize_try_from_small v h = ground arith

checked_add_small :
    (header v : ℕ) → header ≤ 11 → v < 2 ^ 32 → checked_add header v ≡ ok (header + v)
checked_add_small header v h k = ground arith

prefix_within :
    (k : ℕ) (octets input : List ℕ)
    → k ≡ length octets
    → input ≡ octets ++ drop k input
    → k ≤ length input
prefix_within k octets input e split =
    omega (arith, ap (λ (t : List ℕ). length t) split, length-append octets (drop k input))

pub decode_tlv-Ensures :
    (input : List ℕ) → IsBytes input → Ensures (At IsTlv tlv_octets input) (decode_tlv input)
unfolding decode_tlv
decode_tlv-Ensures input bytes =
    Ensures-bind (Ensures-map_err TlvError.tag (decode_tag-Ensures input bytes))
      λ (t, k) (ht, ek, split). rw (slice_from_in input k (prefix_within k _ input ek split)) (
        Ensures-bind
          (Ensures-map_err TlvError.length
            (decode_length-Ensures (drop k input) (All-drop IsByte k input bytes)))
          λ (v, l) (hv, el, split').
            let header : k + l ≤ 11 = omega (arith, tag_octets_size t, length_octets_size v) in
            rw (usize_try_from_small v hv, checked_add_small (k + l) v header hv)
              (Ensures-if (ltb (length input) (k + l + v)) (λ _. rejected)
                (λ e.
                  let within : k + l + v ≤ length input = ground arith in
                  let width : k + l + v - (k + l) ≡ v = omega arith in
                  rw (slice_in input (k + l) (k + l + v) (omega arith) within, width)
                    (holds (value-At t v k l input ht hv ek split el split' within)))))

pub decode_tlv-octets :
    (t : Tlv) (rest : List ℕ)
    → IsTlv t
    → decode_tlv (tlv_octets t ++ rest) ≡ ok (t, length (tlv_octets t))
unfolding decode_tlv
decode_tlv-octets t rest (ht, hv) =
    let T = tag_octets t.tag in
    let L = length_octets (length t.value) in
    let parts : tlv_octets t ++ rest ≡ T ++ (L ++ (t.value ++ rest)) = simp append_assoc in
    let header : length T + length L ≤ 11 =
      omega (arith, tag_octets_size t.tag, length_octets_size (length t.value)) in
    let all = T ++ (L ++ (t.value ++ rest)) in
    let cut : slice {E = TlvError} all (length T + length L) (length T + length L + length t.value)
        ≡ ok t.value =
      rw (← append_assoc T L (t.value ++ rest), ← length-append T L)
        (slice-append (T ++ L) t.value rest) in
    let size : length T + length L + length t.value ≤ length all = omega (
      arith,
      length-append T (L ++ (t.value ++ rest)),
      length-append L (t.value ++ rest),
      length-append t.value rest,
    ) in
    rw
      (
        parts,
        decode_tag-octets t.tag (L ++ (t.value ++ rest)) ht,
        slice_from-append T (L ++ (t.value ++ rest)),
        decode_length-octets (length t.value) (t.value ++ rest) hv,
        usize_try_from_small (length t.value) hv,
        checked_add_small (length T + length L) (length t.value) header hv,
      )
      (elim (Bool-cases (ltb (length all) (length T + length L + length t.value))) [
        | inl e ↦ absurd (ground arith)
        | inr e ↦ rw (e, cut) (ap (λ n. ok (t, n)) (sym (length-tlv_octets t)))
      ])
