-- ===== src/Profile/Names.antt =====
-- `name_has_repeated_attribute_type` on the names that `validate_name` accepts.
use rs_verified_der.Base.{
  ℕ, zero, suc, ◌<◌, ◌≡◌, ◌↔◌, refl, ap, ◌∙◌, subst, arith, Bool, true, false, Bool-cases, List, [],
  ◌∷◌, ◌++◌, length, All, All-split, inl, inr, if◌then◌else◌,
}
use rs_verified_der.Base.Codec.{IsByte, IsBytes}
use rs_verified_der.Base.Result.{Result, ok}
use rs_verified_der.Profile.{rdn_loop, name_has_repeated_attribute_type}
use rs_verified_der.Profile.LeadingOid.{oid_of, LeadsWith}
use rs_verified_der.Profile.Pairs.{Repeats, Agrees, repeated, repeated_iff, outcome_iff}
use rs_verified_der.Profile.Repeats.{elements-Agrees, has_repeated_leading_oid-elements}
use rs_verified_der.Sequence.{elements}
use rs_verified_der.Sequence
use rs_verified_der.Sequence.Children.{children_octets, next-child, next-nil}
use rs_verified_der.Sequence.Fields.{strict-octets}
use rs_verified_der.Tlv.{Tlv}
use rs_verified_der.Tlv.Octets.{tlv_octets, header_octets}
use rs_verified_der.Tlv.Typed.{universal_tag, wrap}
use rs_verified_der.Walk.{members_octets, members_octets_size}
use rs_verified_der.X509Name.{validate_member}
use rs_verified_der.X509Name.Rdn.{IsRdn, rdn_octets, rdn_filled, IsName, name_octets}

any_repeated : List (List Tlv) → Bool
any_repeated [] = false
any_repeated (ts ∷ rdns) = let rest = any_repeated rdns in if repeated oid_of ts then true else rest

rdn_loop-names :
    {E : Type 0} (rdns : List (List Tlv)) (fuel : ℕ)
    → All IsRdn rdns
    → IsBytes (members_octets validate_member IsRdn rdn_octets rdns)
    → length rdns < fuel
    → rdn_loop {E = E} fuel (elements (members_octets validate_member IsRdn rdn_octets rdns))
      ≡ ok (any_repeated rdns)
unfolding rdn_loop members_octets any_repeated
rdn_loop-names rdns zero hs bytes room = absurd (omega arith)
rdn_loop-names {E} [] (suc fuel) hs bytes room = rw next-nil refl
rdn_loop-names {E} (ts ∷ rdns) (suc fuel) ((hts, atvs, ascending, one, fits), hs) bytes room =
    let t : Tlv = wrap (universal_tag true Sequence.set_tag) (children_octets ts) in
    let rest = members_octets validate_member IsRdn rdn_octets rdns in
    let parts = All-split IsByte (tlv_octets t) rest bytes in
    let value = (All-split IsByte (header_octets t) (children_octets ts) parts.0).1 in
    rw
      (
        next-child {E = E} t rest (omega arith, fits),
        has_repeated_leading_oid-elements {E = E} ts hts value,
        rdn_loop-names {E = E} rdns fuel hs parts.1 (omega arith),
      )
      (branch (repeated oid_of ts))
  where
    branch :
        (b : Bool)
        → ◌≡◌ {A = Result E Bool}
            (if b then ok true else ok (any_repeated rdns))
            (ok (if b then true else any_repeated rdns))
    branch true = refl
    branch false = refl

-- One of the relative distinguished names has two attributes, at different places, of the same type.
abbrev pub RepeatsType : List (List Tlv) → Type 0
RepeatsType rdns =
    (front : List (List Tlv)) × (ts : List Tlv) × (back : List (List Tlv)) × (rdns
      ≡ front ++ ts ∷ back)
    × Repeats LeadsWith ts

AllAgree : List (List Tlv) → Type 0
AllAgree = All (All (Agrees oid_of LeadsWith))

names-AllAgree :
    (rdns : List (List Tlv))
    → All IsRdn rdns
    → IsBytes (members_octets validate_member IsRdn rdn_octets rdns)
    → AllAgree rdns
unfolding members_octets AllAgree
names-AllAgree [] hs bytes = tt
names-AllAgree (ts ∷ rdns) ((hts, _, _, _, _), hs) bytes =
    let t : Tlv = wrap (universal_tag true Sequence.set_tag) (children_octets ts) in
    let rest = members_octets validate_member IsRdn rdn_octets rdns in
    let parts = All-split IsByte (tlv_octets t) rest bytes in
    let value = (All-split IsByte (header_octets t) (children_octets ts) parts.0).1 in
    (elements-Agrees ts hts value, names-AllAgree rdns hs parts.1)

any_repeated-RepeatsType :
    (rdns : List (List Tlv)) → AllAgree rdns → any_repeated rdns ≡ true → RepeatsType rdns
unfolding any_repeated AllAgree
any_repeated-RepeatsType [] agree h = cc
any_repeated-RepeatsType (ts ∷ rdns) (same, agree) h = elim (Bool-cases (repeated oid_of ts)) [
  | inl e ↦ ([], ts, rdns, refl, (repeated_iff oid_of LeadsWith ts same).0 e)
  | inr e ↦
      let rest : any_repeated rdns ≡ true = ground (arith, h, e) in
      let (front, us, back, split, r) = any_repeated-RepeatsType rdns agree rest in
      (ts ∷ front, us, back, ap (λ (xs : List (List Tlv)). ts ∷ xs) split, r)
]

RepeatsType-any_repeated :
    (front : List (List Tlv)) (ts : List Tlv) (back : List (List Tlv))
    → AllAgree (front ++ ts ∷ back)
    → Repeats LeadsWith ts
    → any_repeated (front ++ ts ∷ back) ≡ true
unfolding any_repeated AllAgree
RepeatsType-any_repeated [] ts back (same, agree) r =
    let found = (repeated_iff oid_of LeadsWith ts same).1 r in rw found refl
RepeatsType-any_repeated (us ∷ front) ts back (same, agree) r =
    rw (RepeatsType-any_repeated front ts back agree r) (either (repeated oid_of us))
  where
    either : (b : Bool) → (if b then true else true) ≡ true
    either true = refl
    either false = refl

any_repeated_iff :
    (rdns : List (List Tlv)) → AllAgree rdns → (any_repeated rdns ≡ true) ↔ RepeatsType rdns
any_repeated_iff rdns agree = (
  any_repeated-RepeatsType rdns agree,
  λ (front, ts, back, split, r).
      ap any_repeated split ∙ RepeatsType-any_repeated front ts back (subst AllAgree split agree) r,
)

-- On the DER encoding of a name that `validate_name` accepts, made of bytes,
-- `name_has_repeated_attribute_type` returns true exactly when two attributes of one of its relative distinguished
-- names, at different places, have the same type (they are SEQUENCEs that begin with the encoding of the same
-- OBJECT IDENTIFIER), and false exactly when that is nowhere the case.
pub name_has_repeated_attribute_type_iff :
    {E : Type 0} (rdns : List (List Tlv))
    → IsName rdns
    → IsBytes (name_octets rdns)
    → ((name_has_repeated_attribute_type {E = E} (name_octets rdns) ≡ ok true) ↔ RepeatsType rdns)
      × ((name_has_repeated_attribute_type {E = E} (name_octets rdns) ≡ ok false)
          ↔ (RepeatsType rdns → ⊥))
unfolding name_has_repeated_attribute_type
name_has_repeated_attribute_type_iff {E} rdns (hs, fits) bytes =
    let outer = members_octets validate_member IsRdn rdn_octets rdns in
    let inner =
      (All-split IsByte (header_octets (wrap (universal_tag true Sequence.tag) outer)) outer
        bytes).1 in
    let run =
      rdn_loop-names {E = E} rdns (suc (length outer)) hs inner
        (omega (arith, members_octets_size validate_member IsRdn rdn_octets rdn_filled rdns)) in
    rw (strict-octets outer fits, run)
      (outcome_iff (any_repeated rdns) (any_repeated_iff rdns (names-AllAgree rdns hs inner)))
