-- ===== src/Profile/Checks.antt =====
-- The single checks of `validate_profile`.
use rs_verified_der.Base.{
  ℕ, ◌≤◌, ◌≡◌, ◌↔◌, refl, ap, subst, arith, Bool, true, false, Bool-cases, List, [], ◌∷◌, Option,
  none, some, inl, inr,
}
use rs_verified_der.Base.Result.{Result, ok, err, panic, ◌>>=◌}
use rs_verified_der.Profile.{
  ProfileError, check_time_encoding_year, check_time_no_fraction, same_option, same_algorithm,
  reject_if,
}
use rs_verified_der.Profile.Octets.{same_octets-eq, same_octets_refl}
use rs_verified_der.Tlv.Field.{is_empty}
use rs_verified_der.X509AlgorithmIdentifier.{AlgorithmIdentifier}
use rs_verified_der.X509Validity.{Time, utc, generalized}

-- One check after the other.
pub then_iff :
    (r s : Result ProfileError (Unit {0})) → ((r >>= λ _. s) ≡ ok tt) ↔ ((r ≡ ok tt) × (s ≡ ok tt))
then_iff (ok tt) s = (λ h. (refl, h), λ (_, h). h)
then_iff (err e) s = (λ h. cc, λ (h, _). cc)
then_iff panic s = (λ h. cc, λ (h, _). cc)

pub reject_iff :
    (e : ProfileError) (test : Result ProfileError Bool)
    → (reject_if e test ≡ ok tt) ↔ (test ≡ ok false)
reject_iff e (ok true) = (λ h. cc, λ h. cc)
reject_iff e (ok false) = (λ h. refl, λ h. refl)
reject_iff e (err x) = (λ h. cc, λ h. cc)
reject_iff e panic = (λ h. cc, λ h. cc)

same_option-eq : (a b : Option (List ℕ)) → same_option a b ≡ true → a ≡ b
same_option-eq none none h = refl
same_option-eq none (some ys) h = cc
same_option-eq (some xs) none h = cc
same_option-eq (some xs) (some ys) h = ap some (same_octets-eq xs ys h)

same_option_refl : (a : Option (List ℕ)) → same_option a a ≡ true
same_option_refl none = refl
same_option_refl (some xs) = same_octets_refl xs

pub same_algorithm_iff : (a b : AlgorithmIdentifier) → (same_algorithm a b ≡ true) ↔ (a ≡ b)
same_algorithm_iff a b = (
  λ h.
      let oid : a.algorithm_oid ≡ b.algorithm_oid = same_octets-eq _ _ (ground arith) in
      let parameters : a.parameters ≡ b.parameters = same_option-eq _ _ (ground arith) in
      λ i. record { algorithm_oid = oid i; parameters = parameters i },
  λ e.
      subst (λ (c : AlgorithmIdentifier). same_algorithm a c ≡ true) e
        (rw (same_octets_refl a.algorithm_oid, same_option_refl a.parameters) refl),
)

-- A GeneralizedTime is for the years from 2050 on, and has no fraction.
abbrev pub InEra : Time → Type 0
InEra (utc t) = Unit
InEra (generalized t) = 2050 ≤ t.year

abbrev pub IsWhole : Time → Type 0
IsWhole (utc t) = Unit
IsWhole (generalized t) = t.fraction ≡ []

pub check_year_iff :
    (t : Time) (e : ProfileError) → (check_time_encoding_year t e ≡ ok tt) ↔ InEra t
unfolding check_time_encoding_year
check_year_iff (utc t) e = (λ h. tt, λ h. refl)
check_year_iff (generalized t) e = (λ h. ground arith, λ h. ground arith)

pub is_empty_iff : (xs : List ℕ) → (is_empty xs ≡ true) ↔ (xs ≡ [])
is_empty_iff [] = (λ h. refl, λ h. refl)
is_empty_iff (x ∷ xs) = (λ h. cc, λ h. cc)

pub check_fraction_iff :
    (t : Time) (e : ProfileError) → (check_time_no_fraction t e ≡ ok tt) ↔ IsWhole t
unfolding check_time_no_fraction
check_fraction_iff (utc t) e = (λ h. tt, λ h. refl)
check_fraction_iff (generalized t) e = elim (Bool-cases (is_empty t.fraction)) [
  | inl f ↦ rw f (λ h. (is_empty_iff t.fraction).0 f, λ h. refl)
  | inr f ↦ rw f (λ h. cc, λ h. let g = (is_empty_iff t.fraction).1 h in cc)
]
