-- ===== src/Base/Slices.antt =====
-- Slices of a list that is known to be a concatenation.
use Prim.Native.Nat.{ℕ, ◌+◌, ◌-◌, ◌≤◌}
use mathlib.Core.Path.{◌≡◌, refl, ap, ◌∙◌}
use mathlib.Core.List.{List, [], ◌∷◌, ◌++◌, append_assoc}
use native.Mathlib.Omega.{arith}
use rs_verified_der.Base.Lists.{
  length, take, drop, length-append, take-append, drop-append, drop-drop,
}
use rs_verified_der.Base.Result.{ok, index, slice_from, slice, copy_from_slice}

module _ {E A : Type 0} where
  pub slice_from_in :
      (xs : List A) (n : ℕ) → n ≤ length xs → slice_from {E = E} xs n ≡ ok (drop n xs)
  slice_from_in xs n h = ground arith

  pub slice_from-append : (xs ys : List A) → slice_from {E = E} (xs ++ ys) (length xs) ≡ ok ys
  slice_from-append xs ys =
      let within : length xs ≤ length (xs ++ ys) = omega (arith, length-append xs ys) in
      slice_from_in (xs ++ ys) (length xs) within ∙ ap ok (drop-append xs ys)

  pub slice_in :
      (xs : List A) (from to : ℕ)
      → from ≤ to
      → to ≤ length xs
      → slice {E = E} xs from to ≡ ok (take (to - from) (drop from xs))
  slice_in xs from to h k = ground arith

  pub slice-append :
      (xs ys zs : List A)
      → slice {E = E} (xs ++ (ys ++ zs)) (length xs) (length xs + length ys) ≡ ok ys
  slice-append xs ys zs =
      let within : length xs + length ys ≤ length (xs ++ (ys ++ zs)) =
        omega (arith, length-append xs (ys ++ zs), length-append ys zs) in
      let width : length xs + length ys - length xs ≡ length ys = omega arith in
      slice_in _ _ _ (omega arith) within
      ∙ ap ok (rw (width, drop-append xs (ys ++ zs)) (take-append ys zs))

  -- Writing behind what is already written.
  pub copy_from_slice-append :
      (done src tail : List A)
      → length src ≤ length tail
      → copy_from_slice {E = E} (done ++ tail) (length done) (length done + length src) src
        ≡ ok ((done ++ src) ++ drop (length src) tail)
  unfolding copy_from_slice
  copy_from_slice-append done src tail h =
      let parts : take (length done) (done ++ tail)
            ++ (src ++ drop (length done + length src) (done ++ tail))
          ≡ (done ++ src) ++ drop (length src) tail =
        rw (
          take-append done tail,
          ← drop-drop (length done) (length src) (done ++ tail),
          drop-append done tail,
          append_assoc,
        ) in
      ground (arith, length-append done tail, parts)

-- The last element.
abbrev pub last_octet : ℕ → List ℕ → ℕ
last_octet c [] = c
last_octet c (d ∷ more) = last_octet d more

pub index-append :
    {E A : Type 0} (xs : List A) (y : A) (ys : List A)
    → index {E = E} (xs ++ y ∷ ys) (length xs) ≡ ok y
index-append [] y ys = refl
index-append {E} (x ∷ xs) y ys = index-append {E = E} xs y ys

pub index-last :
    {E : Type 0} (c : ℕ) (more : List ℕ)
    → index {E = E} (c ∷ more) (length (c ∷ more) - 1) ≡ ok (last_octet c more)
index-last {E} c more = rw before_last (at_last c more)
  where
    before_last : length (c ∷ more) - 1 ≡ length more
    before_last = omega arith

    at_last :
        (c : ℕ) (more : List ℕ) → index {E = E} (c ∷ more) (length more) ≡ ok (last_octet c more)
    at_last c [] = refl
    at_last c (d ∷ more) = at_last d more

-- A list that is not empty has a last element.
pub snoc : (x : ℕ) (xs : List ℕ) → (init : List ℕ) × (last : ℕ) × (x ∷ xs ≡ init ++ last ∷ [])
snoc x [] = ([], x, refl)
snoc x (y ∷ xs) = let (init, last, e) = snoc y xs in (x ∷ init, last, ap (λ t. x ∷ t) e)
