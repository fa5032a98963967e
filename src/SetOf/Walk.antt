-- ===== src/SetOf/Walk.antt =====
-- `decode_set_of` against the concatenation of ascending encodings.
use native.Mathlib.Nat.{add-zero, zero-add}
use rs_verified_der.Base.{
  ℕ, zero, suc, ◌+◌, ◌-◌, ◌<◌, ◌≡◌, ◌↔◌, ap, sym, ◌∙◌, refl, subst, arith, List, [], ◌∷◌, ◌++◌,
  length, drop, length-append, append_assoc, All, All-drop, Option, none, some, inl, inr, true,
  false, if◌then◌else◌,
}
use rs_verified_der.Base.Result.{
  ok, err, slice, Ensures, holds, rejected, Ensures-ok, Ensures-cases, Ensures-weaken, Ensures-if,
}
use rs_verified_der.Base.Slices.{slice-append}
use rs_verified_der.Base.Codec.{At, IsBytes, IsByte}
use rs_verified_der.Sequence.{elements}
use rs_verified_der.Sequence.Children.{
  children_octets, children_octets_size, next-nil, next-child, next-malformed,
}
use rs_verified_der.SetOf.{
  SetOfError, unsorted, out_of_order, walk, decode_set_of, is_gt, cmp_padded,
}
use rs_verified_der.SetOf.Children.{Chained, Ascending, Chained→Ascending, Ascending→Chained}
use rs_verified_der.Tlv.{Tlv}
use rs_verified_der.Tlv.Octets.{IsTlv, tlv_octets, tlv_octets_size}
use rs_verified_der.Tlv.Decode.{decode_tlv-Ensures}

-- `&before[..before.len() - after.len()]` is the whole encoding of the child.
span :
    {E : Type 0} (octets rest : List ℕ)
    → slice {E = E} (octets ++ rest) 0 (length (octets ++ rest) - length rest) ≡ ok octets
span {E} octets rest =
    let used : length (octets ++ rest) - length rest ≡ length octets =
      omega (arith, length-append octets rest) in
    rw (used) (rw zero-add at (slice-append {E = E} [] octets rest))

-- One round on a child.
walk-child :
    (fuel : ℕ) (t : Tlv) (rest : List ℕ) (count : ℕ) (prev : Option (List ℕ))
    → IsTlv t
    → walk (suc fuel) (elements (tlv_octets t ++ rest)) count prev ≡ (
        if out_of_order prev (tlv_octets t)
        then err (unsorted (count - 1))
        else walk fuel (elements rest) (count + 1) (some (tlv_octets t)))
unfolding walk
walk-child fuel t rest count prev h =
    rw (next-child t rest h, span {E = SetOfError} (tlv_octets t) rest)

abbrev Counted : List ℕ → ℕ → Option (List ℕ) → ℕ → Type 0
Counted rest count prev n =
    (ts : List Tlv) × All IsTlv ts
    × Chained prev ts
    × (n ≡ count + length ts)
    × (rest ≡ children_octets ts)

Counted-cons :
    (input : List ℕ) (t : Tlv) (k count n : ℕ) (prev : Option (List ℕ))
    → At IsTlv tlv_octets input (t, k)
    → out_of_order prev (tlv_octets t) ≡ false
    → Counted (drop k input) (count + 1) (some (tlv_octets t)) n
    → Counted input count prev n
unfolding children_octets
Counted-cons input t k count n prev (h, size, split) order (ts, hs, chain, total, rest) = (
  t ∷ ts,
  (h, hs),
  (order, chain),
  omega (arith, total),
  split ∙ ap (λ r. tlv_octets t ++ r) rest,
)

walk-Ensures :
    (fuel : ℕ) (rest : List ℕ) (count : ℕ) (prev : Option (List ℕ))
    → length rest < fuel
    → IsBytes rest
    → Ensures (Counted rest count prev) (walk fuel (elements rest) count prev)
walk-Ensures zero rest count prev room bytes = absurd (omega arith)
walk-Ensures (suc fuel) [] count prev room bytes =
    unfold walk in rw next-nil (holds ([], tt, tt, omega arith, unfold children_octets in refl))
walk-Ensures (suc fuel) (b ∷ bs) count prev room bytes =
    let input : List ℕ = b ∷ bs in
    elim (Ensures-cases (decode_tlv-Ensures input bytes)) [
      | inl ((t, k), (h, size, split), e) ↦
          let shorter : length (drop k input) < fuel = omega (
            arith,
            ap (λ (xs : List ℕ). length xs) split,
            length-append (tlv_octets t) (drop k input),
            tlv_octets_size t,
          ) in
          subst
            (λ xs. Ensures (Counted input count prev) (walk (suc fuel) (elements xs) count prev))
            (sym split)
            (rw (walk-child fuel t (drop k input) count prev h) (
              Ensures-if (out_of_order prev (tlv_octets t)) (λ _. rejected)
                (λ order.
                  Ensures-weaken (λ n. Counted-cons input t k count n prev (h, size, split) order)
                    (walk-Ensures fuel (drop k input) (count + 1) (some (tlv_octets t)) shorter
                      (All-drop IsByte k input bytes)))))
      | inr (x, e) ↦ unfold walk in rw (next-malformed b bs x e) rejected
    ]

pub decode_set_of-Ensures :
    (content : List ℕ) → IsBytes content → Ensures (Counted content 0 none) (decode_set_of content)
unfolding decode_set_of
decode_set_of-Ensures content bytes =
    walk-Ensures (suc (length content)) content 0 none (omega arith) bytes

walk-octets :
    (ts : List Tlv) (fuel : ℕ) (count : ℕ) (prev : Option (List ℕ))
    → All IsTlv ts
    → Chained prev ts
    → length ts < fuel
    → walk fuel (elements (children_octets ts)) count prev ≡ ok (count + length ts)
unfolding children_octets
walk-octets ts zero count prev hs chain room = absurd (omega arith)
walk-octets [] (suc fuel) count prev hs chain room = unfold walk in rw (next-nil, add-zero)
walk-octets (t ∷ ts) (suc fuel) count prev (h, hs) (order, chain) room =
    rw (walk-child fuel t (children_octets ts) count prev h, order)
      (walk-octets ts fuel (count + 1) (some (tlv_octets t)) hs chain (omega arith)
        ∙ ap ok (omega arith))

pub decode_set_of-children :
    (ts : List Tlv)
    → All IsTlv ts
    → Ascending ts
    → decode_set_of (children_octets ts) ≡ ok (length ts)
unfolding decode_set_of
decode_set_of-children ts hs ascending =
    walk-octets ts _ 0 none hs (Ascending→Chained ts ascending)
      (omega (arith, children_octets_size ts))
    ∙ ap ok (zero-add (length ts))

-- On bytes, `decode_set_of` returns n exactly when the content is the concatenation of the DER encodings
-- of n TLVs (tag numbers and lengths below 2 ^ 32), each of which is not after any later one in the order
-- of `cmp_padded`.
pub decode_set_of_iff :
    (content : List ℕ) (n : ℕ)
    → IsBytes content
    → (decode_set_of content ≡ ok n) ↔ (
        (ts : List Tlv) × All IsTlv ts
        × Ascending ts
        × (length ts ≡ n)
        × (content ≡ children_octets ts))
unfolding decode_set_of
decode_set_of_iff content n bytes = (
  λ e.
      let (ts, hs, chain, total, whole) = Ensures-ok (decode_set_of-Ensures content bytes) e in
      (
        ts,
        hs,
        Chained→Ascending none ts (subst IsBytes whole bytes) chain,
        omega (arith, total),
        whole,
      ),
  λ (ts, hs, ascending, total, whole).
      ap decode_set_of whole ∙ decode_set_of-children ts hs ascending ∙ ap ok total,
)

walk_unsorted :
    (ts : List Tlv) (fuel count : ℕ) (prev : Option (List ℕ)) (t u : Tlv) (rest : List ℕ)
    → All IsTlv (ts ++ t ∷ u ∷ [])
    → Chained prev (ts ++ t ∷ [])
    → is_gt (cmp_padded (tlv_octets t) (tlv_octets u)) ≡ true
    → walk
        (suc (suc (length ts + fuel)))
        (elements (children_octets ts ++ (tlv_octets t ++ (tlv_octets u ++ rest))))
        count
        prev
      ≡ err (unsorted (count + length ts))
unfolding children_octets
walk_unsorted [] fuel count prev t u rest (ht, (hu, _)) (order, _) above =
    rw
      (
        walk-child _ t (tlv_octets u ++ rest) count prev ht,
        order,
        walk-child _ u rest (count + 1) (some (tlv_octets t)) hu,
        above,
      )
      (ap (λ n. err (unsorted n)) (omega arith))
walk_unsorted (s ∷ ts) fuel count prev t u rest (hs, h) (order, chain) above =
    let behind = children_octets ts ++ (tlv_octets t ++ (tlv_octets u ++ rest)) in
    let fuel' : suc (length ts) + fuel ≡ suc (length ts + fuel) = omega arith in
    rw
      (
        append_assoc (tlv_octets s) (children_octets ts) (tlv_octets t ++ (tlv_octets u ++ rest)),
        walk-child _ s behind count prev hs,
        order,
        fuel',
      )
      (walk_unsorted ts fuel (count + 1) (some (tlv_octets s)) t u rest h chain above
        ∙ ap (λ n. err (unsorted n)) (omega arith))

-- If the encodings of some TLVs ts and of t are in ascending order, u is a TLV whose encoding `cmp_padded`
-- puts before that of t, and the content is the encodings of ts, t and u and any octets, then
-- `decode_set_of` gives `Unsorted` with the index of t, whatever the octets are. Tag numbers and lengths
-- are below 2 ^ 32.
pub decode_set_of_unsorted :
    (ts : List Tlv) (t u : Tlv) (rest : List ℕ)
    → All IsTlv (ts ++ t ∷ u ∷ [])
    → Ascending (ts ++ t ∷ [])
    → is_gt (cmp_padded (tlv_octets t) (tlv_octets u)) ≡ true
    → decode_set_of (children_octets ts ++ (tlv_octets t ++ (tlv_octets u ++ rest)))
      ≡ err (unsorted (length ts))
unfolding decode_set_of
decode_set_of_unsorted ts t u rest hs ascending above =
    let behind = tlv_octets t ++ (tlv_octets u ++ rest) in
    let content = children_octets ts ++ behind in
    let spare = length content - (length ts + 1) in
    let fuel : suc (length content) ≡ suc (suc (length ts + spare)) = omega (
      arith,
      length-append (children_octets ts) behind,
      children_octets_size ts,
      length-append (tlv_octets t) (tlv_octets u ++ rest),
      tlv_octets_size t,
    ) in
    ap (λ n. walk n (elements content) 0 none) fuel
    ∙ walk_unsorted ts spare 0 none t u rest hs (Ascending→Chained (ts ++ t ∷ []) ascending) above
    ∙ ap (λ n. err (unsorted n)) (zero-add (length ts))
