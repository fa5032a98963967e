-- ===== src/Sequence/Iterator.antt =====
-- The states that the child iterator of sequence.rs can reach, and what holds in each of them.
use rs_verified_der.Base.{
  ℕ, ◌≡◌, refl, ap, sym, ◌∙◌, subst, Bool, true, false, List, [], ◌∷◌, ◌++◌, append-nil,
  append_assoc, All, All-append, All-split, Option, none, some, inl, inr,
}
use rs_verified_der.Base.Codec.{IsByte, IsBytes}
use rs_verified_der.Base.Result.{ok, Ensures, holds, Ensures-ok, Ensures-cases}
use rs_verified_der.Sequence.{SequenceError, Elements, elements, Item, child, malformed, next}
use rs_verified_der.Sequence.Children.{children_octets, next-At, next-nil, next-malformed}
use rs_verified_der.Tlv.{Tlv}
use rs_verified_der.Tlv.Error.{TlvError}
use rs_verified_der.Tlv.Decode.{decode_tlv-Ensures}
use rs_verified_der.Tlv.Octets.{IsTlv, tlv_octets}

-- One call of `next`.
abbrev pub Calls : Elements → Option Item → Elements → Type 0
Calls e item e' = next {E = SequenceError} e ≡ ok (item, e')

-- The calls from the start, with the children that they have yielded.
pub data Reached (content : List ℕ) : List Tlv → Elements → Type 0 where
  start : Reached content [] (elements content)
  yielded :
      {ts : List Tlv} {e e' : Elements} (t : Tlv)
      → Reached content ts e
      → Calls e (some (child t)) e'
      → Reached content (ts ++ t ∷ []) e'
  failed :
      {ts : List Tlv} {e e' : Elements} (x : TlvError)
      → Reached content ts e
      → Calls e (some (malformed x)) e'
      → Reached content ts e'
  ended :
      {ts : List Tlv} {e e' : Elements}
      → Reached content ts e
      → Calls e none e'
      → Reached content ts e'

-- What one call does to the state, for each of its outcomes.
abbrev Steps : Elements → Option Item → Elements → Type 0
Steps e none e' = e' ≡ e
Steps e (some (child t)) e' = IsTlv t × (e.rest ≡ tlv_octets t ++ e'.rest)
Steps e (some (malformed x)) e' = e'.rest ≡ e.rest

next-Ensures :
    (rest : List ℕ) (done : Bool)
    → IsBytes rest
    → let e : Elements = record { rest = rest; done = done } in
      Ensures (λ (item, e'). Steps e item e') (next {E = SequenceError} e)
next-Ensures rest true bytes = unfold next in holds refl
next-Ensures [] false bytes = rw next-nil (holds refl)
next-Ensures (b ∷ bs) false bytes = elim (Ensures-cases (decode_tlv-Ensures (b ∷ bs) bytes)) [
  | inl ((t, k), at, e) ↦
      let (h, size, split) = at in
      rw (next-At {E = SequenceError} (b ∷ bs) t k at) (holds (h, split))
  | inr (x, e) ↦ rw (next-malformed {E = SequenceError} b bs x e) (holds refl)
]

steps :
    (e : Elements) (item : Option Item) (e' : Elements)
    → IsBytes e.rest
    → Calls e item e'
    → Steps e item e'
steps e item e' bytes call = Ensures-ok (next-Ensures e.rest e.done bytes) call

children_octets-snoc :
    (ts : List Tlv) (t : Tlv) → children_octets (ts ++ t ∷ []) ≡ children_octets ts ++ tlv_octets t
unfolding children_octets
children_octets-snoc [] t = append-nil (tlv_octets t)
children_octets-snoc (u ∷ ts) t =
    ap (λ v. tlv_octets u ++ v) (children_octets-snoc ts t)
    ∙ sym (append_assoc (tlv_octets u) (children_octets ts) (tlv_octets t))

-- The iterator never loses, repeats or reorders an octet: in every state that calls of `next` reach from bytes, the
-- children yielded so far are TLVs with tag numbers and lengths below 2 ^ 32, and the content is their DER
-- encodings, in the order in which they were yielded, followed by what is left.
pub Reached-Children :
    (content : List ℕ) (ts : List Tlv) (e : Elements)
    → IsBytes content
    → Reached content ts e
    → All IsTlv ts × (content ≡ children_octets ts ++ e.rest)
unfolding children_octets
Reached-Children content _ _ bytes start = (tt, refl)
Reached-Children content _ e' bytes (yielded {ts} {e} t from call) =
    let (hs, split) = Reached-Children content ts e bytes from in
    let left = (All-split IsByte (children_octets ts) e.rest (subst IsBytes split bytes)).1 in
    let (h, front) = steps e (some (child t)) e' left call in
    (
      All-append IsTlv ts (t ∷ []) hs (h, tt),
      split
          ∙ ap (λ r. children_octets ts ++ r) front
          ∙ sym (append_assoc (children_octets ts) (tlv_octets t) e'.rest)
          ∙ ap (λ r. r ++ e'.rest) (sym (children_octets-snoc ts t)),
    )
Reached-Children content ts e' bytes (failed {e = e} x from call) =
    let (hs, split) = Reached-Children content ts e bytes from in
    let left = (All-split IsByte (children_octets ts) e.rest (subst IsBytes split bytes)).1 in
    (
      hs,
      split ∙ ap (λ r. children_octets ts ++ r) (sym (steps e (some (malformed x)) e' left call)),
    )
Reached-Children content ts e' bytes (ended {e = e} from call) =
    let (hs, split) = Reached-Children content ts e bytes from in
    let left = (All-split IsByte (children_octets ts) e.rest (subst IsBytes split bytes)).1 in
    (
      hs,
      split ∙ ap (λ (d : Elements). children_octets ts ++ d.rest) (sym (steps e none e' left call)),
    )
