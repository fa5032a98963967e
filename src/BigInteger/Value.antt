-- ===== src/BigInteger/Value.antt =====
-- The integer that a content octet string stands for, in two's complement.
use native.Mathlib.Nat.{pow-suc}
use rs_verified_der.Base.{
  ℕ, ◌+◌, ◌-◌, ◌*◌, ◌^◌, ◌≤◌, ◌<◌, ◌≡◌, arith, List, [], ◌∷◌, length, bit_and, ltb, ◌==◌,
  if◌then◌else◌,
}
use rs_verified_der.Base.Bits.{bit_and-0x80}
use rs_verified_der.Base.Codec.{IsBytes}
use rs_verified_der.Base.Int.{ℤ, pos, negsuc}

-- The octets as a big-endian number.
unfoldable pub be_value : List ℕ → ℕ
be_value [] = 0
be_value (x ∷ xs) = x * 256 ^ length xs + be_value xs

pub digit_gap : (x y p : ℕ) → x < y → x * p + p ≤ y * p
digit_gap x y p h = grind arith

pub be_value_bound : (xs : List ℕ) → IsBytes xs → be_value xs < 256 ^ length xs
unfolding be_value
be_value_bound [] h = omega arith
be_value_bound (x ∷ xs) (small, h) =
    omega
      (arith, pow-suc 256 (length xs), digit_gap x 256 (256 ^ length xs) small, be_value_bound xs h)

-- X.690 §8.3.3: bit 8 of the first octet counts with the negative sign.
unfoldable pub twos_value : List ℕ → ℤ
twos_value [] = pos 0
twos_value (x ∷ xs) =
    if ltb x 0x80
    then pos (be_value (x ∷ xs))
    else negsuc (256 ^ length (x ∷ xs) - 1 - be_value (x ∷ xs))

pub bit_8_clear : (c : ℕ) → c < 256 → (bit_and c 0x80 == 0) ≡ ltb c 0x80
bit_8_clear c h = ground (arith, bit_and-0x80 c)

-- Dropping redundant padding keeps the value.
pub strip_zero_value :
    (c : ℕ) (rest : List ℕ) → c < 0x80 → twos_value (0 ∷ c ∷ rest) ≡ twos_value (c ∷ rest)
unfolding twos_value be_value
strip_zero_value c rest h = ground arith

pub strip_ones_value :
    (c : ℕ) (rest : List ℕ)
    → 0x80 ≤ c
    → IsBytes (c ∷ rest)
    → twos_value (0xff ∷ c ∷ rest) ≡ twos_value (c ∷ rest)
unfolding twos_value be_value
strip_ones_value c rest h bytes =
    ground (arith, pow-suc 256 (length (c ∷ rest)), be_value_bound (c ∷ rest) bytes)
