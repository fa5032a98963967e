-- ===== src/Base/Bits.antt =====
-- Masks, shifts and joins of bit fields as arithmetic.
use Prim.Native.Nat.{ℕ, zero, suc, ◌+◌, ◌-◌, ◌*◌, ◌/◌, ◌%◌, ◌^◌, ◌≤◌, ◌<◌, min, max}
use Prim.Native.Nat.{bit_and, bit_or, digits, bit_and-bitwise, bit_or-bitwise}
use mathlib.Core.Path.{◌≡◌, refl, ap}
use mathlib.Core.Bool.{Bool, true, ◌&&◌}
use native.Mathlib.Omega.{arith}
use native.Mathlib.Nat.{pow-suc}
use rs_verified_der.Base.Tests.{◌==◌, ==_iff}

-- A law of one byte is checked on its 256 values.
pub all_below : ℕ → (ℕ → Bool) → Bool
all_below zero p = true
all_below (suc n) p = p n && all_below n p

table_sound : (n : ℕ) (p : ℕ → Bool) (x : ℕ) → all_below n p ≡ true → x < n → p x ≡ true
unfolding all_below
table_sound zero p x h lt = absurd (omega arith)
table_sound (suc n) p x h lt = ground (arith, table_sound n p x)

by_table : (f g : ℕ → ℕ) → all_below 256 (λ x. f x == g x) ≡ true → (b : ℕ) → b < 256 → f b ≡ g b
by_table f g table b h = (==_iff _ _).0 (table_sound 256 _ b table h)

pub bit_and-0x80 : (b : ℕ) → b < 256 → bit_and b 0x80 ≡ b / 128 * 128
unfolding all_below
bit_and-0x80 = by_table _ _ refl

pub bit_and-0x20 : (b : ℕ) → b < 256 → bit_and b 0x20 ≡ b / 32 % 2 * 32
unfolding all_below
bit_and-0x20 = by_table _ _ refl

pub bit_and-0xc0 : (b : ℕ) → b < 256 → bit_and b 0xc0 ≡ b / 64 * 64
unfolding all_below
bit_and-0xc0 = by_table _ _ refl

pub bit_and-0xe0 : (b : ℕ) → b < 256 → bit_and b 0xe0 ≡ b / 32 * 32
unfolding all_below
bit_and-0xe0 = by_table _ _ refl

pub bit_and-0xf0 : (b : ℕ) → b < 256 → bit_and b 0xf0 ≡ b / 16 * 16
unfolding all_below
bit_and-0xf0 = by_table _ _ refl

pub bit_and-0xf8 : (b : ℕ) → b < 256 → bit_and b 0xf8 ≡ b / 8 * 8
unfolding all_below
bit_and-0xf8 = by_table _ _ refl

pub bit_and-0x1f : (b : ℕ) → b < 256 → bit_and b 0x1f ≡ b % 32
unfolding all_below
bit_and-0x1f = by_table _ _ refl

-- The native operations are x recursion on binary digits; these are its rounds without the fuel.
module _ (rest : ℕ → ℕ) (join : ℕ → ℕ → ℕ) where
  digits-fuel_free : (p q x y : ℕ) → x ≤ p → x ≤ q → digits rest join p x y ≡ digits rest join q x y
  digits-fuel_free (suc p) (suc q) zero y below under = refl
  digits-fuel_free (suc p) zero zero y below under = refl
  digits-fuel_free zero (suc q) zero y below under = refl
  digits-fuel_free zero zero x y below under = refl
  digits-fuel_free zero q (suc x) y below under = absurd (omega arith)
  digits-fuel_free (suc p) zero (suc x) y below under = absurd (omega arith)
  digits-fuel_free (suc p) (suc q) (suc x) y below under =
      omega (arith, digits-fuel_free p q (suc x / 2) (y / 2) (omega arith) (omega arith))

zero-bit_and : (y : ℕ) → bit_and 0 y ≡ 0
zero-bit_and y = bit_and-bitwise 0 y

zero-bit_or : (y : ℕ) → bit_or 0 y ≡ y
zero-bit_or y = bit_or-bitwise 0 y

bit_or-halves : (x y : ℕ) → bit_or x y ≡ bit_or (x / 2) (y / 2) * 2 + max (x % 2) (y % 2)
bit_or-halves zero y = omega (arith, zero-bit_or y, zero-bit_or (y / 2))
bit_or-halves (suc x) y = omega (
  arith,
  bit_or-bitwise (suc x) y,
  bit_or-bitwise (suc x / 2) (y / 2),
  digits-fuel_free (λ t. t) max x (suc x / 2) (suc x / 2) (y / 2) (omega arith) (omega arith),
)

bit_and-halves : (x y : ℕ) → bit_and x y ≡ bit_and (x / 2) (y / 2) * 2 + min (x % 2) (y % 2)
bit_and-halves zero y = omega (arith, zero-bit_and y, zero-bit_and (y / 2))
bit_and-halves (suc x) y = omega (
  arith,
  bit_and-bitwise (suc x) y,
  bit_and-bitwise (suc x / 2) (y / 2),
  digits-fuel_free (λ t. 0) min x (suc x / 2) (suc x / 2) (y / 2) (omega arith) (omega arith),
)

bit_or-zero_below : (p x : ℕ) → x ≤ p → bit_or x 0 ≡ x
bit_or-zero_below p zero below = zero-bit_or 0
bit_or-zero_below zero (suc x) below = absurd (omega arith)
bit_or-zero_below (suc p) (suc x) below =
    omega (arith, bit_or-halves (suc x) 0, bit_or-zero_below p (suc x / 2) (omega arith))

bit_and-zero_below : (p x : ℕ) → x ≤ p → bit_and x 0 ≡ 0
bit_and-zero_below p zero below = zero-bit_and 0
bit_and-zero_below zero (suc x) below = absurd (omega arith)
bit_and-zero_below (suc p) (suc x) below =
    omega (arith, bit_and-halves (suc x) 0, bit_and-zero_below p (suc x / 2) (omega arith))

-- Joining a field of `k` bits below a number that is shifted by `k`.
pub bit_or-shifted : (k a b : ℕ) → b < 2 ^ k → bit_or (a * 2 ^ k) b ≡ a * 2 ^ k + b
bit_or-shifted zero a b h =
    let none_left : b ≡ 0 = omega arith in
    rw none_left (omega (arith, bit_or-zero_below (a * 1) (a * 1) (omega arith)))
bit_or-shifted (suc k) a b h =
    let twice : a * 2 ^ suc k ≡ 2 * (a * 2 ^ k) =
      omega (arith, ap (λ (t : ℕ). a * t) (pow-suc 2 k)) in
    let smaller : b / 2 < 2 ^ k = omega (arith, pow-suc 2 k) in
    let halved : 2 * (a * 2 ^ k) / 2 ≡ a * 2 ^ k = omega arith in
    rw twice (
      omega (
        arith,
        bit_or-halves (2 * (a * 2 ^ k)) b,
        ap (λ (t : ℕ). bit_or t (b / 2)) halved,
        bit_or-shifted k a (b / 2) smaller,
      ))

-- The low bits of a number, one more at a time.
low_1 : (a : ℕ) → bit_and a 1 ≡ a % 2
low_1 a = omega (arith, bit_and-halves a 1, bit_and-zero_below a (a / 2) (omega arith))

low_2 : (a : ℕ) → bit_and a 3 ≡ a % 4
low_2 a = omega (arith, bit_and-halves a 3, low_1 (a / 2))

low_3 : (a : ℕ) → bit_and a 7 ≡ a % 8
low_3 a = omega (arith, bit_and-halves a 7, low_2 (a / 2))

low_4 : (a : ℕ) → bit_and a 15 ≡ a % 16
low_4 a = omega (arith, bit_and-halves a 15, low_3 (a / 2))

low_5 : (a : ℕ) → bit_and a 31 ≡ a % 32
low_5 a = omega (arith, bit_and-halves a 31, low_4 (a / 2))

low_6 : (a : ℕ) → bit_and a 63 ≡ a % 64
low_6 a = omega (arith, bit_and-halves a 63, low_5 (a / 2))

low_7 : (a : ℕ) → bit_and a 127 ≡ a % 128
low_7 a = omega (arith, bit_and-halves a 127, low_6 (a / 2))

pub bit_and-0x7f : (a : ℕ) → bit_and a 0x7f ≡ a % 128
bit_and-0x7f = low_7

pub bit_and-mask : (n b : ℕ) → n ≤ 7 → b < 256 → bit_and b (2 ^ n - 1) ≡ b % 2 ^ n
bit_and-mask zero b h k = omega (arith, bit_and-zero_below b b (omega arith))
bit_and-mask (suc zero) b h k = low_1 b
bit_and-mask (suc (suc zero)) b h k = low_2 b
bit_and-mask (suc (suc (suc zero))) b h k = low_3 b
bit_and-mask (suc (suc (suc (suc zero)))) b h k = low_4 b
bit_and-mask (suc (suc (suc (suc (suc zero))))) b h k = low_5 b
bit_and-mask (suc (suc (suc (suc (suc (suc zero)))))) b h k = low_6 b
bit_and-mask (suc (suc (suc (suc (suc (suc (suc zero))))))) b h k = low_7 b
bit_and-mask (suc (suc (suc (suc (suc (suc (suc (suc n)))))))) b h k = absurd (omega arith)

pub bit_or-0x80 : (b : ℕ) → b < 128 → bit_or b 0x80 ≡ b + 128
unfolding all_below
bit_or-0x80 b h = (==_iff _ _).0 (table_sound 128 (λ x. bit_or x 0x80 == x + 128) b table h)
  where
    table : all_below 128 (λ x. bit_or x 0x80 == x + 128) ≡ true
    table = refl
