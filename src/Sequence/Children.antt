-- ===== src/Sequence/Children.antt =====
-- The walk over the children, against the concatenation of their encodings.
use rs_verified_der.Base.{
  ℕ, zero, suc, ◌+◌, ◌-◌, ◌*◌, ◌≤◌, ◌<◌, ◌≡◌, ◌≢◌, ◌↔◌, ap, ◌∙◌, refl, arith, List, [], ◌∷◌, ◌++◌,
  length, drop, length-append, append_assoc, append-nil, All, All-drop, none, some, true, inl, inr,
}
use rs_verified_der.Base.Result.{
  ok, err, panic, Ensures, holds, rejected, Ensures-panic, Ensures-ok, Ensures-cases,
  Ensures-weaken,
}
use native.Mathlib.Nat.{add-zero, sub-zero, zero-add}
use mathlib.Core.Path.{ap₂}
use rs_verified_der.Base.Codec.{At, IsBytes, IsByte}
use rs_verified_der.Base.Slices.{slice_from-append}
use rs_verified_der.Sequence.{
  element, elements, child, malformed, advance, next, count_children, decode_sequence,
}
use rs_verified_der.Tlv.{Tlv, decode_tlv}
use rs_verified_der.Tlv.Error.{TlvError}
use rs_verified_der.Tlv.Octets.{IsTlv, tlv_octets, tlv_octets_size}
use rs_verified_der.Tlv.Decode.{decode_tlv-Ensures, decode_tlv-octets}

-- The encodings of the children, one after the other.
unfoldable pub children_octets : List Tlv → List ℕ
children_octets [] = []
children_octets (t ∷ ts) = tlv_octets t ++ children_octets ts

pub children_octets_size : (ts : List Tlv) → 2 * length ts ≤ length (children_octets ts)
unfolding children_octets
children_octets_size [] = omega arith
children_octets_size (t ∷ ts) = omega (
  arith,
  length-append (tlv_octets t) (children_octets ts),
  tlv_octets_size t,
  children_octets_size ts,
)

-- What `next` does on content that is left.
pub next-cons :
    {E : Type 0} (b : ℕ) (bs : List ℕ)
    → next {E = E} (elements (b ∷ bs)) ≡ advance (elements (b ∷ bs)) (decode_tlv (b ∷ bs))
unfolding next
next-cons b bs = refl

pub next-nil : {E : Type 0} → next {E = E} (elements []) ≡ ok (none, elements [])
unfolding next
next-nil = refl

advance-child :
    {E : Type 0} (xs ys : List ℕ) (t : Tlv)
    → advance {E = E} (elements (xs ++ ys)) (ok (t, length xs)) ≡ ok (some (child t), elements ys)
unfolding advance
advance-child {E} xs ys t = rw (slice_from-append {E = E} xs ys)

tlv_octets-ne-nil : (t : Tlv) (rest : List ℕ) → [] ≢ tlv_octets t ++ rest
tlv_octets-ne-nil t rest e =
    omega (
      arith,
      ap (λ (xs : List ℕ). length xs) e,
      length-append (tlv_octets t) rest,
      tlv_octets_size t,
    )

-- A child in front of the content is yielded, and the iterator goes on behind it.
pub next-child :
    {E : Type 0} (t : Tlv) (rest : List ℕ)
    → IsTlv t
    → next {E = E} (elements (tlv_octets t ++ rest)) ≡ ok (some (child t), elements rest)
next-child {E} t rest h = go (tlv_octets t ++ rest) refl
  where
    go :
        (input : List ℕ)
        → input ≡ tlv_octets t ++ rest
        → next {E = E} (elements input) ≡ ok (some (child t), elements rest)
    go [] e = absurd (tlv_octets-ne-nil t rest e)
    go (b ∷ bs) e =
        next-cons b bs ∙ rw (e, decode_tlv-octets t rest h) (advance-child (tlv_octets t) rest t)

pub next-malformed :
    {E : Type 0} (b : ℕ) (bs : List ℕ) (x : TlvError)
    → decode_tlv (b ∷ bs) ≡ err x
    → next {E = E} (elements (b ∷ bs))
      ≡ ok (some (malformed x), record { rest = b ∷ bs; done = true })
next-malformed b bs x e = next-cons b bs ∙ rw e (unfold advance in refl)

-- The children that the rest of the walk counts.
abbrev pub Counted : List ℕ → ℕ → ℕ → Type 0
Counted rest count n =
    (ts : List Tlv) × All IsTlv ts × (n ≡ count + length ts) × (rest ≡ children_octets ts)

Counted-cons :
    (input : List ℕ) (t : Tlv) (k count n : ℕ)
    → At IsTlv tlv_octets input (t, k)
    → Counted (drop k input) (count + 1) n
    → Counted input count n
unfolding children_octets
Counted-cons input t k count n (h, size, split) (ts, hs, total, rest) =
    (t ∷ ts, (h, hs), omega (arith, total), split ∙ ap (λ r. tlv_octets t ++ r) rest)

drop_shorter :
    (input : List ℕ) (t : Tlv) (k : ℕ)
    → At IsTlv tlv_octets input (t, k)
    → length (drop k input) < length input
drop_shorter input t k (h, size, split) = omega (
  arith,
  size,
  tlv_octets_size t,
  ap (λ (xs : List ℕ). length xs) split,
  length-append (tlv_octets t) (drop k input),
)

pub next-At :
    {E : Type 0} (input : List ℕ) (t : Tlv) (k : ℕ)
    → At IsTlv tlv_octets input (t, k)
    → next {E = E} (elements input) ≡ ok (some (child t), elements (drop k input))
next-At {E} input t k (h, size, split) =
    ap (λ xs. next {E = E} (elements xs)) split ∙ next-child t (drop k input) h

count_children-Ensures :
    (fuel : ℕ) (rest : List ℕ) (count : ℕ)
    → length rest < fuel
    → IsBytes rest
    → Ensures (Counted rest count) (count_children fuel (elements rest) count)
unfolding count_children
count_children-Ensures zero rest count room bytes = absurd (omega arith)
count_children-Ensures (suc fuel) [] count room bytes =
    rw next-nil (holds ([], tt, omega arith, unfold children_octets in refl))
count_children-Ensures (suc fuel) (b ∷ bs) count room bytes =
    let input : List ℕ = b ∷ bs in
    elim (Ensures-cases (decode_tlv-Ensures input bytes)) [
      | inl ((t, k), at, e) ↦ rw (next-At input t k at) (
          Ensures-weaken (λ n. Counted-cons input t k count n at)
            (count_children-Ensures fuel (drop k input) (count + 1)
              (omega (arith, drop_shorter input t k at)) (All-drop IsByte k input bytes)))
      | inr (x, e) ↦ rw (next-malformed b bs x e) rejected
    ]

pub decode_sequence-Ensures :
    (content : List ℕ) → IsBytes content → Ensures (Counted content 0) (decode_sequence content)
unfolding decode_sequence
decode_sequence-Ensures content bytes =
    count_children-Ensures (suc (length content)) content 0 (omega arith) bytes

-- The walk over well-formed children, whatever follows them.
count_children-octets :
    (ts : List Tlv) (fuel : ℕ) (rest : List ℕ) (count : ℕ)
    → All IsTlv ts
    → length ts ≤ fuel
    → count_children fuel (elements (children_octets ts ++ rest)) count
      ≡ count_children (fuel - length ts) (elements rest) (count + length ts)
unfolding count_children children_octets
count_children-octets [] fuel rest count hs room = rw (sub-zero fuel, add-zero count)
count_children-octets (t ∷ ts) zero rest count hs room = absurd (omega arith)
count_children-octets (t ∷ ts) (suc fuel) rest count (h, hs) room =
    rw
      (
        append_assoc (tlv_octets t) (children_octets ts) rest,
        next-child t (children_octets ts ++ rest) h,
      )
      (count_children-octets ts fuel rest (count + 1) hs (omega arith)
        ∙ ap₂ (λ f c. count_children f (elements rest) c) less more)
  where
    less : fuel - length ts ≡ suc fuel - suc (length ts)
    less = omega arith

    more : count + 1 + length ts ≡ count + suc (length ts)
    more = omega arith

count_children_end :
    (fuel count : ℕ) → 0 < fuel → count_children fuel (elements []) count ≡ ok count
unfolding count_children
count_children_end zero count h = absurd (omega arith)
count_children_end (suc fuel) count h = rw next-nil

count_children_malformed :
    (fuel count b : ℕ) (bs : List ℕ) (x : TlvError)
    → 0 < fuel
    → decode_tlv (b ∷ bs) ≡ err x
    → count_children fuel (elements (b ∷ bs)) count ≡ err (element x)
unfolding count_children
count_children_malformed zero count b bs x h e = absurd (omega arith)
count_children_malformed (suc fuel) count b bs x h e = rw (next-malformed b bs x e)

pub decode_sequence-children :
    (ts : List Tlv) → All IsTlv ts → decode_sequence (children_octets ts) ≡ ok (length ts)
unfolding decode_sequence
decode_sequence-children ts hs =
    let fuel = suc (length (children_octets ts)) in
    let enough : length ts < fuel = omega (arith, children_octets_size ts) in
    let walk = rw append-nil at (count_children-octets ts fuel [] 0 hs (omega arith)) in
    walk
    ∙ count_children_end (fuel - length ts) (0 + length ts) (omega arith)
    ∙ ap ok (zero-add (length ts))

-- If the content is made of bytes, the walk ends on every fuel above its length: it does not run out, and gives a count
-- or an error.
pub count_children_total :
    (content : List ℕ) (fuel count : ℕ)
    → length content < fuel
    → IsBytes content
    → count_children fuel (elements content) count ≢ panic
count_children_total content fuel count room bytes =
    Ensures-panic (count_children-Ensures fuel content count room bytes)

-- On bytes, `decode_sequence` returns n exactly when the content is the concatenation of the DER
-- encodings of n TLVs, with tag numbers and lengths below 2 ^ 32.
pub decode_sequence_iff :
    (content : List ℕ) (n : ℕ)
    → IsBytes content
    → (decode_sequence content ≡ ok n)
      ↔ ((ts : List Tlv) × All IsTlv ts × (length ts ≡ n) × (content ≡ children_octets ts))
decode_sequence_iff content n bytes = (
  λ e.
      let (ts, hs, total, whole) = Ensures-ok (decode_sequence-Ensures content bytes) e in
      (ts, hs, omega (arith, total), whole),
  λ (ts, hs, total, whole). ap decode_sequence whole ∙ decode_sequence-children ts hs ∙ ap ok total,
)

-- If the content is the encodings of some TLVs (tag numbers and lengths below 2 ^ 32) followed by octets,
-- at least one, on which `decode_tlv` gives the error x, then `decode_sequence` gives `Element(x)`.
pub decode_sequence_malformed :
    (ts : List Tlv) (b : ℕ) (bs : List ℕ) (x : TlvError)
    → All IsTlv ts
    → decode_tlv (b ∷ bs) ≡ err x
    → decode_sequence (children_octets ts ++ b ∷ bs) ≡ err (element x)
unfolding decode_sequence
decode_sequence_malformed ts b bs x hs e =
    let content = children_octets ts ++ b ∷ bs in
    let enough : length ts < suc (length content) =
      omega (arith, children_octets_size ts, length-append (children_octets ts) (b ∷ bs)) in
    count_children-octets ts (suc (length content)) (b ∷ bs) 0 hs (omega arith)
    ∙ count_children_malformed _ _ b bs x (omega arith) e
