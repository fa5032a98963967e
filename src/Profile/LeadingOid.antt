-- ===== src/Profile/LeadingOid.antt =====
-- `leading_oid` on an element made of bytes, against the form of an attribute or an extension.
use rs_verified_der.Base.{
  ℕ, ◌≡◌, ◌↔◌, refl, ap, sym, ◌∙◌, subst, arith, true, false, not, ◌||◌, Bool-cases, List, ◌++◌,
  drop, Option, none, some, inl, inr,
}
use rs_verified_der.Base.Codec.{IsBytes}
use rs_verified_der.Base.Result.{Result, ok, err, panic, Ensures-cases}
use rs_verified_der.Profile.{first_oid, leading_oid}
use rs_verified_der.Tlv.{Tlv, decode_tlv}
use rs_verified_der.Tlv.Decode.{decode_tlv-Ensures, decode_tlv-octets}
use rs_verified_der.Tlv.Octets.{tlv_octets}
use rs_verified_der.Tlv.Typed.{
  universal_tag, wrap, wrap_octets, Fits, not_universal, is_universal-wrapped,
}

-- The leading OID of an element, where there is one.
abbrev value_of : Result (Unit {0}) (Option (List ℕ)) → Option (List ℕ)
value_of (ok o) = o
value_of (err _) = none
value_of panic = none

abbrev pub oid_of : Tlv → Option (List ℕ)
oid_of t = value_of (leading_oid t)

pub leading_oid-total :
    {E : Type 0} (t : Tlv) → IsBytes t.value → leading_oid {E = E} t ≡ ok (oid_of t)
unfolding leading_oid first_oid
leading_oid-total {E} t bytes = elim (Ensures-cases (decode_tlv-Ensures t.value bytes)) [
  | inl ((id, k), _, e) ↦ rw e (ground arith)
  | inr (x, e) ↦ rw e (ground arith)
]

-- The attribute or extension whose first field is the OBJECT IDENTIFIER with content id: a SEQUENCE (constructed,
-- UNIVERSAL 16) around the encoding of a primitive UNIVERSAL 6 and what follows it.
abbrev pub LeadsWith : List ℕ → Tlv → Type 0
LeadsWith id t =
    (rest : List ℕ) × Fits id
    × (t ≡ wrap (universal_tag true 16) (wrap_octets (universal_tag false 6) id ++ rest))

pub LeadsWith→oid_of : (id : List ℕ) (t : Tlv) → LeadsWith id t → oid_of t ≡ some id
unfolding leading_oid first_oid
LeadsWith→oid_of id t (rest, fits, e) =
    let read = decode_tlv-octets (wrap (universal_tag false 6) id) rest (omega arith, fits) in
    rw e (rw read refl)

-- What `first_oid` takes from the TLV in front.
first_oid-some :
    (u : Tlv) (k : ℕ) (id : List ℕ)
    → value_of (first_oid (ok (u, k))) ≡ some id
    → u ≡ wrap (universal_tag false 6) id
unfolding first_oid
first_oid-some u k id found = elim (Bool-cases (not_universal u 6 || u.tag.constructed)) [
  | inl e ↦ absurd (ground (arith, found, e))
  | inr e ↦
      let value : u.value ≡ id = ground (arith, found, e) in
      is_universal-wrapped u false 6 (ground arith) (ground arith)
      ∙ ap (wrap (universal_tag false 6)) value
]

first_oid-LeadsWith :
    (id content : List ℕ)
    → IsBytes content
    → value_of (first_oid (decode_tlv content)) ≡ some id
    → LeadsWith id (wrap (universal_tag true 16) content)
first_oid-LeadsWith id content bytes found =
    elim (Ensures-cases (decode_tlv-Ensures content bytes)) [
      | inl ((u, k), ((_, fits), _, split), read) ↦
          let oid : u ≡ wrap (universal_tag false 6) id =
            first_oid-some u k id (ap (λ r. value_of (first_oid r)) (sym read) ∙ found) in
          (
            drop k content,
            subst (λ (v : Tlv). Fits v.value) oid fits,
            ap (wrap (universal_tag true 16))
                (split ∙ ap (λ (v : Tlv). tlv_octets v ++ drop k content) oid),
          )
      | inr (x, read) ↦
          let nothing : value_of (first_oid (err x)) ≡ some id =
            ap (λ r. value_of (first_oid r)) (sym read) ∙ found in
          absurd (unfold first_oid in cc)
    ]

oid_of→LeadsWith : (id : List ℕ) (t : Tlv) → IsBytes t.value → oid_of t ≡ some id → LeadsWith id t
unfolding leading_oid
oid_of→LeadsWith id t bytes found =
    elim (Bool-cases (not_universal t 16 || not t.tag.constructed)) [
      | inl e ↦ absurd (ground (arith, found, e))
      | inr e ↦
          let outer : t ≡ wrap (universal_tag true 16) t.value =
            is_universal-wrapped t true 16 (ground arith) (ground arith) in
          let first : value_of (first_oid (decode_tlv t.value)) ≡ some id =
            ground (arith, found, e) in
          let (rest, fits, split) = first_oid-LeadsWith id t.value bytes first in
          (rest, fits, outer ∙ split)
    ]

pub oid_of_iff : (t : Tlv) → IsBytes t.value → (id : List ℕ) → (oid_of t ≡ some id) ↔ LeadsWith id t
oid_of_iff t bytes id = (oid_of→LeadsWith id t bytes, LeadsWith→oid_of id t)
