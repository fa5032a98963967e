-- ===== src/SetOf/Children.antt =====
-- Children in the prescribed order, pair by pair and all pairs at once.
use rs_verified_der.Base.{ℕ, ◌≡◌, List, [], ◌∷◌, Option, none, some, All, All-split, false, refl}
use rs_verified_der.Base.Codec.{IsByte, IsBytes}
use rs_verified_der.Sequence.Children.{children_octets}
use rs_verified_der.SetOf.{out_of_order, cmp_padded, is_gt}
use rs_verified_der.SetOf.Padded.{not_gt_trans}
use rs_verified_der.Tlv.{Tlv}
use rs_verified_der.Tlv.Octets.{tlv_octets}

-- Each child does not come before the one that precedes it.
abbrev pub Chained : Option (List ℕ) → List Tlv → Type 0
Chained prev [] = Unit
Chained prev (t ∷ ts) =
    (out_of_order prev (tlv_octets t) ≡ false) × Chained (some (tlv_octets t)) ts

abbrev pub NotAfter : List ℕ → Tlv → Type 0
NotAfter octets u = is_gt (cmp_padded octets (tlv_octets u)) ≡ false

-- No child comes before any that precedes it (X.690 §11.6).
abbrev pub Ascending : List Tlv → Type 0
Ascending [] = Unit
Ascending (t ∷ ts) = All (NotAfter (tlv_octets t)) ts × Ascending ts

Chained→All :
    (octets : List ℕ) (ts : List Tlv)
    → IsBytes octets
    → IsBytes (children_octets ts)
    → Chained (some octets) ts
    → All (NotAfter octets) ts
unfolding children_octets
Chained→All octets [] ho h c = tt
Chained→All octets (t ∷ ts) ho h (first, c) =
    let (ht, hts) = All-split IsByte (tlv_octets t) (children_octets ts) h in
    (first, later ts hts (Chained→All (tlv_octets t) ts ht hts c))
  where
    ht' : IsBytes (tlv_octets t)
    ht' = (All-split IsByte (tlv_octets t) (children_octets ts) h).0

    later :
        (us : List Tlv)
        → IsBytes (children_octets us)
        → All (NotAfter (tlv_octets t)) us
        → All (NotAfter octets) us
    later [] hu k = tt
    later (u ∷ us) hu (k, ks) =
        let (hu₀, hus) = All-split IsByte (tlv_octets u) (children_octets us) hu in
        (not_gt_trans octets (tlv_octets t) (tlv_octets u) ho ht' hu₀ first k, later us hus ks)

pub Chained→Ascending :
    (prev : Option (List ℕ)) (ts : List Tlv)
    → IsBytes (children_octets ts)
    → Chained prev ts
    → Ascending ts
unfolding children_octets
Chained→Ascending prev [] h c = tt
Chained→Ascending prev (t ∷ ts) h (first, c) =
    let (ht, hts) = All-split IsByte (tlv_octets t) (children_octets ts) h in
    (Chained→All (tlv_octets t) ts ht hts c, Chained→Ascending (some (tlv_octets t)) ts hts c)

Ascending→Chained_behind :
    (octets : List ℕ) (ts : List Tlv)
    → All (NotAfter octets) ts
    → Ascending ts
    → Chained (some octets) ts
Ascending→Chained_behind octets [] h k = tt
Ascending→Chained_behind octets (t ∷ ts) (h, _) (k, ks) =
    (h, Ascending→Chained_behind (tlv_octets t) ts k ks)

pub Ascending→Chained : (ts : List Tlv) → Ascending ts → Chained none ts
Ascending→Chained [] k = tt
Ascending→Chained (t ∷ ts) (k, ks) = (refl, Ascending→Chained_behind (tlv_octets t) ts k ks)
