-- ===== src/X509Name/Rdn.antt =====
-- `validate_name` accepts the DER encodings of the sequences of sets of attributes, and no more.
use rs_verified_der.Base.{
  ℕ, zero, suc, ◌<◌, ◌≤◌, ◌≡◌, ◌↔◌, refl, ap, sym, ◌∙◌, subst, arith, true, false, List, [], ◌∷◌,
  ◌++◌, length, drop, All, All-split,
}
use rs_verified_der.Base.Codec.{At, IsByte, IsBytes}
use rs_verified_der.Base.Result.{
  ok, Ensures, holds, rejected, Ensures-bind, Ensures-if, Ensures-map_err, Ensures-weaken,
  Ensures-ok,
}
use rs_verified_der.Base.Slices.{slice_from-append}
use rs_verified_der.Sequence.{elements}
use rs_verified_der.Sequence.Children.{children_octets, children_octets_size, next-nil, next-child}
use rs_verified_der.Sequence.Envelope.{sequence_octets}
use rs_verified_der.Sequence.Fields.{strict-Ensures, strict-octets}
use rs_verified_der.SetOf
use rs_verified_der.SetOf.Children.{Ascending}
use rs_verified_der.SetOf.Envelope.{
  set_of_octets, decode_set_of_tlv-Ensures, decode_set_of_tlv-octets,
}
use rs_verified_der.Tlv.{Tlv}
use rs_verified_der.Tlv.Octets.{IsTlv, tlv_octets, header_octets, tlv_octets_size}
use rs_verified_der.Tlv.Typed.{universal_tag, wrap, Fits}
use rs_verified_der.Tlv.Field.{is_empty}
use rs_verified_der.Walk.{members_octets, members_octets_size, IsMember, walk-Ensures, walk-members}
use rs_verified_der.IntegerField.{is_empty-false}
use rs_verified_der.X509Name.{
  NameError, bad_outer_seq, bad_rdn, validate_children, validate_rdn, validate_member,
  validate_name,
}
use rs_verified_der.X509Name.Attribute.{IsAtv, validate_atv-Ensures, validate_atv-octets}

-- The attributes of one relative distinguished name: one at least, in ascending order, that fit the length
-- field of their SET.
abbrev pub IsRdn : List Tlv → Type 0
IsRdn ts = All IsTlv ts × All IsAtv ts × Ascending ts × (1 ≤ length ts) × Fits (children_octets ts)

abbrev pub rdn_octets : List Tlv → List ℕ
rdn_octets ts = set_of_octets (children_octets ts)

pub rdn_filled : (ts : List Tlv) → 1 ≤ length (rdn_octets ts)
rdn_filled ts =
    omega (arith, tlv_octets_size (wrap (universal_tag true SetOf.tag) (children_octets ts)))

-- The relative distinguished names of a name.
abbrev pub IsName : List (List Tlv) → Type 0
IsName rdns = All IsRdn rdns × Fits (members_octets validate_member IsRdn rdn_octets rdns)

abbrev pub name_octets : List (List Tlv) → List ℕ
name_octets rdns = sequence_octets (members_octets validate_member IsRdn rdn_octets rdns)

validate_children-Ensures :
    (ts : List Tlv) (fuel : ℕ)
    → All IsTlv ts
    → IsBytes (children_octets ts)
    → length ts < fuel
    → Ensures (λ _. All IsAtv ts) (validate_children fuel (elements (children_octets ts)))
unfolding validate_children children_octets
validate_children-Ensures ts zero hs bytes room = absurd (omega arith)
validate_children-Ensures [] (suc fuel) hs bytes room = rw next-nil (holds tt)
validate_children-Ensures (t ∷ ts) (suc fuel) (h, hs) bytes room =
    let parts = All-split IsByte (tlv_octets t) (children_octets ts) bytes in
    let value = (All-split IsByte (header_octets t) t.value parts.0).1 in
    rw (next-child {E = NameError} t (children_octets ts) h) (
      Ensures-bind (validate_atv-Ensures t value) λ _ atv.
        Ensures-weaken (λ _ rest. (atv, rest))
          (validate_children-Ensures ts fuel hs parts.1 (omega arith)))

validate_children-octets :
    (ts : List Tlv) (fuel : ℕ)
    → All IsTlv ts
    → All IsAtv ts
    → length ts < fuel
    → validate_children fuel (elements (children_octets ts)) ≡ ok tt
unfolding validate_children children_octets
validate_children-octets ts zero hs good room = absurd (omega arith)
validate_children-octets [] (suc fuel) hs good room = rw next-nil refl
validate_children-octets (t ∷ ts) (suc fuel) (h, hs) (g, good) room =
    rw (next-child {E = NameError} t (children_octets ts) h, validate_atv-octets t g)
      (validate_children-octets ts fuel hs good (omega arith))

enough_fuel : (ts : List Tlv) → length ts < suc (length (children_octets ts))
enough_fuel ts = omega (arith, children_octets_size ts)

filled-length : (ts : List Tlv) → is_empty (children_octets ts) ≡ false → 1 ≤ length ts
unfolding children_octets
filled-length [] e = cc
filled-length (t ∷ ts) e = omega arith

children-ne-nil : (ts : List Tlv) → 1 ≤ length ts → is_empty (children_octets ts) ≡ false
children-ne-nil ts h =
    is_empty-false (children_octets ts)
      (λ e. omega (arith, ap (λ (t : List ℕ). length t) e, children_octets_size ts))

validate_rdn-Ensures :
    (input : List ℕ)
    → IsBytes input
    → Ensures (λ used. (ts : List Tlv) × At IsRdn rdn_octets input (ts, used)) (validate_rdn input)
unfolding validate_rdn
validate_rdn-Ensures input bytes =
    Ensures-bind (Ensures-map_err bad_rdn (decode_set_of_tlv-Ensures input bytes))
      λ (content, used) ((fits, (ts, hs, ascending, whole)), size, split).
        let value =
          (All-split IsByte (set_of_octets content) (drop used input)
            (subst IsBytes split bytes)).0 in
        let inner =
          subst IsBytes whole
            (All-split IsByte (header_octets (wrap (universal_tag true SetOf.tag) content)) content
              value).1 in
        Ensures-if (is_empty content) (λ _. rejected)
          λ filled.
            Ensures-bind
              (subst
                (λ c. Ensures (λ _. All IsAtv ts) (validate_children (suc (length c)) (elements c)))
                (sym whole)
                (validate_children-Ensures ts (suc (length (children_octets ts))) hs inner
                  (enough_fuel ts)))
              λ _ atvs. holds (
                ts,
                (
                  (
                    hs,
                    atvs,
                    ascending,
                    filled-length ts (subst (λ c. is_empty c ≡ false) whole filled),
                    subst Fits whole fits,
                  ),
                  size ∙ ap (λ c. length (set_of_octets c)) whole,
                  split ∙ ap (λ c. set_of_octets c ++ drop used input) whole,
                ),
              )

validate_rdn-octets :
    (ts : List Tlv) (rest : List ℕ)
    → IsRdn ts
    → validate_rdn (rdn_octets ts ++ rest) ≡ ok (length (rdn_octets ts))
unfolding validate_rdn
validate_rdn-octets ts rest (hs, atvs, ascending, one, fits) =
    rw
      (
        decode_set_of_tlv-octets (children_octets ts) rest (fits, (ts, hs, ascending, refl)),
        children-ne-nil ts one,
        validate_children-octets ts (suc (length (children_octets ts))) hs atvs (enough_fuel ts),
      )
      refl

validate_member-Ensures :
    (done : List ℕ) (b : ℕ) (bs : List ℕ)
    → IsBytes (b ∷ bs)
    → Ensures
        (IsMember validate_member IsRdn rdn_octets (b ∷ bs))
        (validate_member (done ++ b ∷ bs) (length done))
unfolding validate_member
validate_member-Ensures done b bs bytes =
    rw (slice_from-append {E = NameError} done (b ∷ bs)) (validate_rdn-Ensures (b ∷ bs) bytes)

validate_member-octets :
    (done : List ℕ) (ts : List Tlv) (rest : List ℕ)
    → IsRdn ts
    → validate_member (done ++ (rdn_octets ts ++ rest)) (length done) ≡ ok (length (rdn_octets ts))
unfolding validate_member
validate_member-octets done ts rest h =
    rw (slice_from-append {E = NameError} done (rdn_octets ts ++ rest))
      (validate_rdn-octets ts rest h)

pub validate_name-Ensures :
    (input : List ℕ)
    → IsBytes input
    → Ensures
        (λ _. (rdns : List (List Tlv)) × IsName rdns × (input ≡ name_octets rdns))
        (validate_name input)
unfolding validate_name
validate_name-Ensures input bytes =
    Ensures-bind (Ensures-map_err bad_outer_seq (strict-Ensures input bytes))
      λ outer (behind, fits, split).
        Ensures-bind
          (walk-Ensures validate_member IsRdn rdn_octets rdn_filled validate_member-Ensures
            (suc (length outer)) [] outer 0 (omega arith) behind)
          λ n (rdns, hs, total, e).
            holds (rdns, (hs, subst Fits e fits), split ∙ ap sequence_octets e)

pub validate_name-octets :
    (rdns : List (List Tlv)) → IsName rdns → validate_name (name_octets rdns) ≡ ok tt
unfolding validate_name
validate_name-octets rdns (hs, fits) =
    let outer = members_octets validate_member IsRdn rdn_octets rdns in
    let enough : length rdns < suc (length outer) =
      omega (arith, members_octets_size validate_member IsRdn rdn_octets rdn_filled rdns) in
    rw
      (
        strict-octets outer fits,
        walk-members validate_member IsRdn rdn_octets rdn_filled validate_member-octets rdns
            (suc (length outer)) [] 0 hs enough,
      )
      refl

-- On bytes, `validate_name` accepts exactly the DER encodings of the SEQUENCE of some sets, each of at least
-- one attribute in the order of `cmp_padded`; an attribute is the TLV of a SEQUENCE of an OID that
-- `validate_oid` accepts and one TLV whose identifier has a form that X.690 allows. The contents have
-- fewer than 2 ^ 32 octets.
pub validate_name_iff :
    (input : List ℕ)
    → IsBytes input
    → (validate_name input ≡ ok tt)
      ↔ ((rdns : List (List Tlv)) × IsName rdns × (input ≡ name_octets rdns))
validate_name_iff input bytes = (
  Ensures-ok (validate_name-Ensures input bytes),
  λ (rdns, h, e). ap validate_name e ∙ validate_name-octets rdns h,
)
