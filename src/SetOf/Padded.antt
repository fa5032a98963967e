-- ===== src/SetOf/Padded.antt =====
-- The padded comparison is the comparison of numbers.
use Prim.Native.Nat.{compare, Ordering}
use native.Mathlib.Nat.{pow-suc, one-le-pow}
use rs_verified_der.Base.{
  ℕ, zero, suc, ◌+◌, ◌*◌, ◌^◌, ◌≤◌, ◌<◌, ◌≡◌, sym, refl, arith, List, [], ◌∷◌, length, Bool, false,
  ◌!=◌, if◌then◌else◌,
}
use rs_verified_der.Base.Codec.{IsBytes}
use rs_verified_der.SetOf.{has_nonzero, cmp_padded, is_gt}

-- The octets as a big-endian number, after padding with zero octets to `m` octets.
unfoldable pub padded_value : ℕ → List ℕ → ℕ
padded_value zero xs = 0
padded_value (suc m) [] = 0
padded_value (suc m) (x ∷ xs) = x * 256 ^ m + padded_value m xs

digit_gap : (x y p : ℕ) → x < y → x * p + p ≤ y * p
digit_gap x y p h = grind arith

padded_value_bound : (m : ℕ) (xs : List ℕ) → IsBytes xs → padded_value m xs < 256 ^ m
unfolding padded_value
padded_value_bound zero xs h = omega arith
padded_value_bound (suc m) [] h = omega (arith, one-le-pow (suc m) 256)
padded_value_bound (suc m) (x ∷ xs) (small, h) =
    omega (arith, pow-suc 256 m, digit_gap x 256 (256 ^ m) small, padded_value_bound m xs h)

-- The tail of the longer encoding is a number above 0 exactly when it has an octet above 0.
has_nonzero-padded_value :
    (m : ℕ) (xs : List ℕ)
    → length xs ≤ m
    → compare (padded_value m xs) 0 ≡ (if has_nonzero xs then Ordering.gt else Ordering.eq)
unfolding padded_value has_nonzero
has_nonzero-padded_value zero [] h = refl
has_nonzero-padded_value zero (x ∷ xs) h = absurd (omega arith)
has_nonzero-padded_value (suc m) [] h = refl
has_nonzero-padded_value (suc m) (zero ∷ xs) h = ground (arith, has_nonzero-padded_value m xs)
has_nonzero-padded_value (suc m) (suc x ∷ xs) h =
    let positive : 0 < suc x * 256 ^ m + padded_value m xs =
      omega (arith, one-le-pow m 256, digit_gap 0 (suc x) (256 ^ m)) in
    ground arith

compare-swap_zero :
    (n : ℕ) (b : Bool)
    → compare n 0 ≡ (if b then Ordering.gt else Ordering.eq)
    → (if b then Ordering.lt else Ordering.eq) ≡ compare 0 n
compare-swap_zero n b h = ground arith

compare_digits :
    (x y v w p : ℕ)
    → v < p
    → w < p
    → (if x != y then compare x y else compare v w) ≡ compare (x * p + v) (y * p + w)
compare_digits x y v w p hv hw = ground (arith, digit_gap x y p, digit_gap y x p)

-- For bytes a and b of at most m octets each, `cmp_padded` is the comparison of the two numbers that they
-- spell in base 256 when zero octets are put behind each up to the width m.
pub cmp_padded_lem :
    (m : ℕ) (a b : List ℕ)
    → IsBytes a
    → IsBytes b
    → length a ≤ m
    → length b ≤ m
    → cmp_padded a b ≡ compare (padded_value m a) (padded_value m b)
unfolding cmp_padded padded_value
cmp_padded_lem zero [] [] ha hb la lb = refl
cmp_padded_lem zero (x ∷ a) b ha hb la lb = absurd (omega arith)
cmp_padded_lem zero [] (y ∷ b) ha hb la lb = absurd (omega arith)
cmp_padded_lem (suc m) [] [] ha hb la lb = refl
cmp_padded_lem (suc m) (x ∷ a) [] ha hb la lb = sym (has_nonzero-padded_value (suc m) (x ∷ a) la)
cmp_padded_lem (suc m) [] (y ∷ b) ha hb la lb =
    compare-swap_zero _ (has_nonzero (y ∷ b)) (has_nonzero-padded_value (suc m) (y ∷ b) lb)
cmp_padded_lem (suc m) (x ∷ a) (y ∷ b) ha hb la lb =
    rw (cmp_padded_lem m a b ha.1 hb.1 (omega arith) (omega arith))
      (compare_digits x y _ _ (256 ^ m) (padded_value_bound m a ha.1) (padded_value_bound m b hb.1))

-- So the order is transitive and total.
pub not_gt_trans :
    (a b c : List ℕ)
    → IsBytes a
    → IsBytes b
    → IsBytes c
    → is_gt (cmp_padded a b) ≡ false
    → is_gt (cmp_padded b c) ≡ false
    → is_gt (cmp_padded a c) ≡ false
not_gt_trans a b c ha hb hc h k =
    let m : ℕ = length a + length b + length c in
    ground (
      arith,
      cmp_padded_lem m a b ha hb (omega arith) (omega arith),
      cmp_padded_lem m b c hb hc (omega arith) (omega arith),
      cmp_padded_lem m a c ha hc (omega arith) (omega arith),
    )
