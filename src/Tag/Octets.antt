-- ===== src/Tag/Octets.antt =====
-- The identifier octets that X.690 prescribes for a tag, and `encode_tag` against them.
use rs_verified_der.Base.{
  ℕ, ◌+◌, ◌-◌, ◌*◌, ◌/◌, ◌%◌, ◌^◌, ◌≤◌, ◌<◌, ◌≡◌, arith, ap, refl, Bool, true, false, List, [], ◌∷◌,
  ◌++◌, length, replicate, All, ltb, leb, bit_and, bit_or, if◌then◌else◌, Bool-cases, inl, inr,
}
use rs_verified_der.Base.Bits.{bit_or-shifted, bit_and-0x7f, bit_or-0x80}
use rs_verified_der.Base.Result.{ok}
use rs_verified_der.Tag.{
  Tag, Class, universal, application, context_specific, private, class_bits, encode_tag,
  count_digits, emit_digits,
}

-- X.690 §8.1.2.4.2: the fewest groups of seven bits, the most significant first, with bit 8 set on
-- all but the last.
abbrev pub base128 : ℕ → List ℕ
base128 v =
    if ltb v 0x80
    then v ∷ []
    else if ltb v 0x4000
    then (0x80 + v / 0x80) ∷ v % 0x80 ∷ []
    else if ltb v 0x200000
    then (0x80 + v / 0x4000) ∷ (0x80 + v / 0x80 % 0x80) ∷ v % 0x80 ∷ []
    else if ltb v 0x10000000
    then (0x80 + v / 0x200000)
      ∷ (0x80 + v / 0x4000 % 0x80)
      ∷ (0x80 + v / 0x80 % 0x80)
      ∷ v % 0x80
      ∷ []
    else (0x80 + v / 0x10000000)
      ∷ (0x80 + v / 0x200000 % 0x80)
      ∷ (0x80 + v / 0x4000 % 0x80)
      ∷ (0x80 + v / 0x80 % 0x80)
      ∷ v % 0x80
      ∷ []

-- X.690 §8.1.2.2, Table 1: the class in bits 8 and 7.
abbrev pub class_octet : Class → ℕ
class_octet universal = 0b0000_0000
class_octet application = 0b0100_0000
class_octet context_specific = 0b1000_0000
class_octet private = 0b1100_0000

-- The class, and the constructed flag in bit 6.
abbrev pub leading_bits : Tag → ℕ
leading_bits t = class_octet t.class + (if t.constructed then 32 else 0)

unfoldable pub tag_octets : Tag → List ℕ
tag_octets t =
    if leb t.number 30
    then (leading_bits t + t.number) ∷ []
    else (leading_bits t + 31) ∷ base128 t.number

abbrev pub IsTag : Tag → Type 0
IsTag t = t.number < 2 ^ 32

leading_bits_small : (t : Tag) → leading_bits t ≤ 224
leading_bits_small t = ground arith

pub tag_octets-IsBytes : (t : Tag) → IsTag t → All (λ b. b < 256) (tag_octets t)
unfolding tag_octets
tag_octets-IsBytes t h = ground (arith, leading_bits_small t)

pub tag_octets_size : (t : Tag) → (1 ≤ length (tag_octets t)) × (length (tag_octets t) ≤ 6)
unfolding tag_octets
tag_octets_size t = ground arith

-- The class and the flag, as the code joins them.
flag_bits : Tag → ℕ
flag_bits t = bit_or (class_bits t.class * 2 ^ 6 % 256) (if t.constructed then 0x20 else 0)

flag_bits_lem : (t : Tag) → flag_bits t ≡ leading_bits t
unfolding flag_bits
flag_bits_lem t = flags t.class t.constructed
  where
    flags :
        (c : Class) (b : Bool)
        → bit_or (class_bits c * 2 ^ 6 % 256) (if b then 0x20 else 0)
          ≡ class_octet c + (if b then 32 else 0)
    flags universal true = refl
    flags universal false = refl
    flags application true = refl
    flags application false = refl
    flags context_specific true = refl
    flags context_specific false = refl
    flags private true = refl
    flags private false = refl

join_number : (t : Tag) (n : ℕ) → n < 32 → bit_or (leading_bits t) n ≡ leading_bits t + n
join_number t n h =
    let high = leading_bits t / 32 in
    let split : leading_bits t ≡ high * 2 ^ 5 = ground arith in
    omega (arith, ap (λ (x : ℕ). bit_or x n) split, bit_or-shifted 5 high n h)

count_digits-base128 : (n : ℕ) → n < 2 ^ 32 → count_digits 5 (n / 2 ^ 7) 1 ≡ length (base128 n)
unfolding count_digits
count_digits-base128 n h = ground arith

-- An octet of the loop, before the last and at the end.
continuation : (n s : ℕ) → bit_or (bit_and (n / 2 ^ s) 0x7f % 256) 0x80 ≡ 0x80 + n / 2 ^ s % 0x80
continuation n s = ground (arith, bit_and-0x7f (n / 2 ^ s), bit_or-0x80 (n / 2 ^ s % 128))

last_octet : (n : ℕ) → bit_and (n / 1) 0x7f % 256 ≡ n % 0x80
last_octet n = omega (arith, bit_and-0x7f (n / 1))

emit_one :
    {E : Type 0} (x n : ℕ)
    → emit_digits {E = E} 1 0 1 n (x ∷ replicate 5 0) ≡ ok (x ∷ n % 0x80 ∷ 0 ∷ 0 ∷ 0 ∷ 0 ∷ [])
unfolding emit_digits
emit_one x n = simp (last_octet n)

emit_two :
    {E : Type 0} (x n : ℕ)
    → emit_digits {E = E} 2 0 2 n (x ∷ replicate 5 0)
      ≡ ok (x ∷ (0x80 + n / 0x80 % 0x80) ∷ n % 0x80 ∷ 0 ∷ 0 ∷ 0 ∷ [])
unfolding emit_digits
emit_two x n = simp (continuation n 7, last_octet n)

emit_three :
    {E : Type 0} (x n : ℕ)
    → emit_digits {E = E} 3 0 3 n (x ∷ replicate 5 0)
      ≡ ok (x ∷ (0x80 + n / 0x4000 % 0x80) ∷ (0x80 + n / 0x80 % 0x80) ∷ n % 0x80 ∷ 0 ∷ 0 ∷ [])
unfolding emit_digits
emit_three x n = simp (continuation n 14, continuation n 7, last_octet n)

emit_four :
    {E : Type 0} (x n : ℕ)
    → emit_digits {E = E} 4 0 4 n (x ∷ replicate 5 0)
      ≡ ok (
          x
          ∷ (0x80 + n / 0x200000 % 0x80)
          ∷ (0x80 + n / 0x4000 % 0x80)
          ∷ (0x80 + n / 0x80 % 0x80)
          ∷ n % 0x80
          ∷ 0
          ∷ [])
unfolding emit_digits
emit_four x n = simp (continuation n 21, continuation n 14, continuation n 7, last_octet n)

emit_five :
    {E : Type 0} (x n : ℕ)
    → emit_digits {E = E} 5 0 5 n (x ∷ replicate 5 0)
      ≡ ok (
          x
          ∷ (0x80 + n / 0x10000000 % 0x80)
          ∷ (0x80 + n / 0x200000 % 0x80)
          ∷ (0x80 + n / 0x4000 % 0x80)
          ∷ (0x80 + n / 0x80 % 0x80)
          ∷ n % 0x80
          ∷ [])
unfolding emit_digits
emit_five x n =
    simp (continuation n 28, continuation n 21, continuation n 14, continuation n 7, last_octet n)

emit_digits-base128 :
    {E : Type 0} (x n : ℕ)
    → n < 2 ^ 32
    → emit_digits {E = E} (length (base128 n)) 0 (length (base128 n)) n (x ∷ replicate 5 0)
      ≡ ok (x ∷ base128 n ++ replicate (5 - length (base128 n)) 0)
emit_digits-base128 {E} x n h = ground (
  arith,
  emit_one {E = E} x n,
  emit_two {E = E} x n,
  emit_three {E = E} x n,
  emit_four {E = E} x n,
  emit_five {E = E} x n,
)

-- For a tag whose number is below 2 ^ 32, `encode_tag` returns, without a panic, the six-octet buffer that
-- begins with the identifier octets that X.690 prescribes and is zero after them, with their count.
pub encode_tag_lem :
    {E : Type 0} (t : Tag)
    → IsTag t
    → encode_tag {E = E} t
      ≡ ok (tag_octets t ++ replicate (6 - length (tag_octets t)) 0, length (tag_octets t))
unfolding encode_tag flag_bits tag_octets
encode_tag_lem {E} t h =
    rw (flag_bits_lem t, count_digits-base128 t.number h)
      (elim (Bool-cases (leb t.number 30)) [
        | inl low ↦ ground (arith, join_number t t.number)
        | inr high ↦
            rw
              (
                high,
                join_number t 31 (omega arith),
                emit_digits-base128 {E = E} (leading_bits t + 31) t.number h,
              )
              (ground arith)
      ])
