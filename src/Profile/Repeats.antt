-- ===== src/Profile/Repeats.antt =====
-- `has_repeated_leading_oid` on the encodings of elements, against the positions of two with
-- the same leading OID.
use rs_verified_der.Base.{
  ℕ, zero, suc, ◌<◌, ◌≡◌, ◌↔◌, refl, arith, Bool, true, false, List, [], ◌∷◌, length, All,
  All-split, Option, none, some, if◌then◌else◌,
}
use rs_verified_der.Base.Codec.{IsByte, IsBytes}
use rs_verified_der.Base.Result.{Result, ok}
use rs_verified_der.Profile.{
  same_option, later_has, repeats_later, outer_loop, has_repeated_leading_oid,
}
use rs_verified_der.Profile.LeadingOid.{oid_of, leading_oid-total, LeadsWith, oid_of_iff}
use rs_verified_der.Profile.Pairs.{
  Repeats, has_id, later, repeated, Agrees, repeated_iff, outcome_iff,
}
use rs_verified_der.Sequence.{elements}
use rs_verified_der.Sequence.Children.{children_octets, children_octets_size, next-child, next-nil}
use rs_verified_der.Tlv.{Tlv}
use rs_verified_der.Tlv.Octets.{IsTlv, tlv_octets, header_octets}

-- The elements, read from the front.
abbrev AreElements : List Tlv → Type 0
AreElements ts = All IsTlv ts × IsBytes (children_octets ts)

AreElements-tail :
    (t : Tlv) (ts : List Tlv) → AreElements (t ∷ ts) → IsTlv t × IsBytes t.value × AreElements ts
unfolding children_octets
AreElements-tail t ts ((h, hs), bytes) =
    let parts = All-split IsByte (tlv_octets t) (children_octets ts) bytes in
    (h, (All-split IsByte (header_octets t) t.value parts.0).1, (hs, parts.1))

later_has-elements :
    {E : Type 0} (ts : List Tlv) (fuel : ℕ) (id : List ℕ)
    → AreElements ts
    → length ts < fuel
    → later_has {E = E} fuel (elements (children_octets ts)) id ≡ ok (has_id oid_of id ts)
unfolding later_has children_octets has_id
later_has-elements ts zero id h room = absurd (omega arith)
later_has-elements {E} [] (suc fuel) id h room = rw next-nil refl
later_has-elements {E} (t ∷ ts) (suc fuel) id h room =
    let (ht, bytes, hs) = AreElements-tail t ts h in
    rw
      (
        next-child {E = E} t (children_octets ts) ht,
        leading_oid-total {E = E} t bytes,
        later_has-elements {E = E} ts fuel id hs (omega arith),
      )
      (branch (same_option (oid_of t) (some id)))
  where
    branch :
        (b : Bool)
        → ◌≡◌ {A = Result E Bool}
            (if b then ok true else ok (has_id oid_of id ts))
            (ok (if b then true else has_id oid_of id ts))
    branch true = refl
    branch false = refl

repeats_later-elements :
    {E : Type 0} (ts : List Tlv) (o : Option (List ℕ))
    → AreElements ts
    → repeats_later {E = E} (elements (children_octets ts)) o ≡ ok (later oid_of o ts)
unfolding later
repeats_later-elements ts none h = refl
repeats_later-elements {E} ts (some id) h =
    later_has-elements {E = E} ts _ id h (omega (arith, children_octets_size ts))

outer_loop-elements :
    {E : Type 0} (ts : List Tlv) (fuel : ℕ)
    → AreElements ts
    → length ts < fuel
    → outer_loop {E = E} fuel (elements (children_octets ts)) ≡ ok (repeated oid_of ts)
unfolding outer_loop children_octets repeated
outer_loop-elements ts zero h room = absurd (omega arith)
outer_loop-elements {E} [] (suc fuel) h room = rw next-nil refl
outer_loop-elements {E} (t ∷ ts) (suc fuel) h room =
    let (ht, bytes, hs) = AreElements-tail t ts h in
    rw
      (
        next-child {E = E} t (children_octets ts) ht,
        leading_oid-total {E = E} t bytes,
        repeats_later-elements {E = E} ts (oid_of t) hs,
        outer_loop-elements {E = E} ts fuel hs (omega arith),
      )
      (branch (later oid_of (oid_of t) ts))
  where
    branch :
        (b : Bool)
        → ◌≡◌ {A = Result E Bool}
            (if b then ok true else ok (repeated oid_of ts))
            (ok (if b then true else repeated oid_of ts))
    branch true = refl
    branch false = refl

pub has_repeated_leading_oid-elements :
    {E : Type 0} (ts : List Tlv)
    → All IsTlv ts
    → IsBytes (children_octets ts)
    → has_repeated_leading_oid {E = E} (children_octets ts) ≡ ok (repeated oid_of ts)
unfolding has_repeated_leading_oid
has_repeated_leading_oid-elements {E} ts hs bytes =
    outer_loop-elements {E = E} ts (suc (length (children_octets ts))) (hs, bytes)
      (omega (arith, children_octets_size ts))

pub elements-Agrees :
    (ts : List Tlv) → All IsTlv ts → IsBytes (children_octets ts) → All (Agrees oid_of LeadsWith) ts
elements-Agrees [] hs bytes = tt
elements-Agrees (t ∷ ts) hs bytes =
    let (_, value, (hs', rest)) = AreElements-tail t ts (hs, bytes) in
    (oid_of_iff t value, elements-Agrees ts hs' rest)

-- On content that is the DER encodings of TLVs with tag numbers and lengths below 2 ^ 32, made of bytes,
-- `has_repeated_leading_oid` returns true exactly when two of them, at different places, are SEQUENCEs that begin
-- with the encoding of the same OBJECT IDENTIFIER, and false exactly when no two are.
has_repeated_leading_oid_iff :
    {E : Type 0} (ts : List Tlv)
    → All IsTlv ts
    → IsBytes (children_octets ts)
    → ((has_repeated_leading_oid {E = E} (children_octets ts) ≡ ok true) ↔ Repeats LeadsWith ts)
      × ((has_repeated_leading_oid {E = E} (children_octets ts) ≡ ok false)
          ↔ (Repeats LeadsWith ts → ⊥))
has_repeated_leading_oid_iff {E} ts hs bytes =
    rw (has_repeated_leading_oid-elements {E = E} ts hs bytes) (
      outcome_iff (repeated oid_of ts)
        (repeated_iff oid_of LeadsWith ts (elements-Agrees ts hs bytes)))
