-- ===== src/Profile/Octets.antt =====
-- The derived equality of slices and of optional slices.
use rs_verified_der.Base.{
  ℕ, ◌≡◌, ◌↔◌, refl, ap, subst, arith, true, List, [], ◌∷◌, Option, none, some,
}
use rs_verified_der.Profile.{same_octets, same_option}

pub same_octets-eq : (xs ys : List ℕ) → same_octets xs ys ≡ true → xs ≡ ys
unfolding same_octets
same_octets-eq [] [] h = refl
same_octets-eq [] (y ∷ ys) h = cc
same_octets-eq (x ∷ xs) [] h = cc
same_octets-eq (x ∷ xs) (y ∷ ys) h = ground (arith, same_octets-eq xs ys)

pub same_octets_refl : (xs : List ℕ) → same_octets xs xs ≡ true
unfolding same_octets
same_octets_refl [] = refl
same_octets_refl (x ∷ xs) = ground (arith, same_octets_refl xs)

pub same_option_iff :
    (o : Option (List ℕ)) (id : List ℕ) → (same_option o (some id) ≡ true) ↔ (o ≡ some id)
same_option_iff none id = (λ h. cc, λ h. cc)
same_option_iff (some xs) id = (
  λ h. ap some (same_octets-eq xs id h),
  λ h. let e : xs ≡ id = cc in subst (λ ys. same_octets xs ys ≡ true) e (same_octets_refl xs),
)
