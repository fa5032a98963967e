-- ===== src/Tag/Complete.antt =====
-- `decode_tag` reads the prescribed octets of every tag, whatever follows them.
use rs_verified_der.Base.{
  ℕ, ◌+◌, ◌*◌, ◌/◌, ◌%◌, ◌^◌, ◌≤◌, ◌<◌, ◌≡◌, arith, List, ◌∷◌, ◌++◌, length, leb, ltb, bit_and,
  Bool-cases, inl, inr,
}
use rs_verified_der.Base.Bits.{bit_and-0x80, bit_and-0x20, bit_and-0x1f}
use rs_verified_der.Base.Result.{ok}
use rs_verified_der.Tag.{Tag, read_number, decode_tag}
use rs_verified_der.Tag.Octets.{tag_octets, base128, IsTag, leading_bits}
use rs_verified_der.Tag.Decode.{read_step, tag_of}

-- Completeness. A round of the loop on a continuation octet, and on the last one.
read_continued :
    (v g i c : ℕ) (rest : List ℕ)
    → v < 2 ^ 25
    → g < 128
    → 0 < c + g
    → read_number ((0x80 + g) ∷ rest) v i c ≡ read_number rest (v * 128 + g) (i + 1) (c + 1)
unfolding read_number
read_continued v g i c rest h k l = ground (arith, read_step v (0x80 + g), bit_and-0x80 (0x80 + g))

read_last :
    (v g i c : ℕ) (rest : List ℕ)
    → v < 2 ^ 25
    → g < 128
    → read_number (g ∷ rest) v i c ≡ ok (v * 128 + g, i + 1)
unfolding read_number
read_last v g i c rest h k = ground (arith, read_step v g, bit_and-0x80 g)

read_one : (v : ℕ) (rest : List ℕ) → v < 0x80 → read_number (v ∷ rest) 0 1 0 ≡ ok (v, 2)
read_one v rest k = ground (arith, read_last 0 v 1 0 rest)

read_two :
    (v : ℕ) (rest : List ℕ)
    → 0x80 ≤ v
    → v < 0x4000
    → read_number ((0x80 + v / 0x80) ∷ v % 0x80 ∷ rest) 0 1 0 ≡ ok (v, 3)
read_two v rest h k = ground (
  arith,
  read_continued 0 (v / 0x80) 1 0 (v % 0x80 ∷ rest),
  read_last (v / 0x80) (v % 0x80) 2 1 rest,
)

read_three :
    (v : ℕ) (rest : List ℕ)
    → 0x4000 ≤ v
    → v < 0x200000
    → read_number ((0x80 + v / 0x4000) ∷ (0x80 + v / 0x80 % 0x80) ∷ v % 0x80 ∷ rest) 0 1 0
      ≡ ok (v, 4)
read_three v rest h k = ground (
  arith,
  read_continued 0 (v / 0x4000) 1 0 ((0x80 + v / 0x80 % 0x80) ∷ v % 0x80 ∷ rest),
  read_continued (v / 0x4000) (v / 0x80 % 0x80) 2 1 (v % 0x80 ∷ rest),
  read_last (v / 0x80) (v % 0x80) 3 2 rest,
)

read_four :
    (v : ℕ) (rest : List ℕ)
    → 0x200000 ≤ v
    → v < 0x10000000
    → read_number
        ((0x80 + v / 0x200000)
          ∷ (0x80 + v / 0x4000 % 0x80)
          ∷ (0x80 + v / 0x80 % 0x80)
          ∷ v % 0x80
          ∷ rest)
        0
        1
        0
      ≡ ok (v, 5)
read_four v rest h k = ground (
  arith,
  read_continued 0 (v / 0x200000) 1 0
      ((0x80 + v / 0x4000 % 0x80) ∷ (0x80 + v / 0x80 % 0x80) ∷ v % 0x80 ∷ rest),
  read_continued (v / 0x200000) (v / 0x4000 % 0x80) 2 1
      ((0x80 + v / 0x80 % 0x80) ∷ v % 0x80 ∷ rest),
  read_continued (v / 0x4000) (v / 0x80 % 0x80) 3 2 (v % 0x80 ∷ rest),
  read_last (v / 0x80) (v % 0x80) 4 3 rest,
)

read_five :
    (v : ℕ) (rest : List ℕ)
    → 0x10000000 ≤ v
    → v < 2 ^ 32
    → read_number
        ((0x80 + v / 0x10000000)
          ∷ (0x80 + v / 0x200000 % 0x80)
          ∷ (0x80 + v / 0x4000 % 0x80)
          ∷ (0x80 + v / 0x80 % 0x80)
          ∷ v % 0x80
          ∷ rest)
        0
        1
        0
      ≡ ok (v, 6)
read_five v rest h k = ground (
  arith,
  read_continued 0 (v / 0x10000000) 1 0 (
      (0x80 + v / 0x200000 % 0x80)
      ∷ (0x80 + v / 0x4000 % 0x80)
      ∷ (0x80 + v / 0x80 % 0x80)
      ∷ v % 0x80
      ∷ rest),
  read_continued (v / 0x10000000) (v / 0x200000 % 0x80) 2 1
      ((0x80 + v / 0x4000 % 0x80) ∷ (0x80 + v / 0x80 % 0x80) ∷ v % 0x80 ∷ rest),
  read_continued (v / 0x200000) (v / 0x4000 % 0x80) 3 2
      ((0x80 + v / 0x80 % 0x80) ∷ v % 0x80 ∷ rest),
  read_continued (v / 0x4000) (v / 0x80 % 0x80) 4 3 (v % 0x80 ∷ rest),
  read_last (v / 0x80) (v % 0x80) 5 4 rest,
)

read_number-base128 :
    (v : ℕ) (rest : List ℕ)
    → v < 2 ^ 32
    → read_number (base128 v ++ rest) 0 1 0 ≡ ok (v, 1 + length (base128 v))
read_number-base128 v rest h = elim (Bool-cases (ltb v 0x80)) [
  | inl e ↦ rw e (read_one v rest (ground arith))
  | inr e ↦ rw e (elim (Bool-cases (ltb v 0x4000)) [
    | inl f ↦ rw f (read_two v rest (ground arith) (ground arith))
    | inr f ↦ rw f (elim (Bool-cases (ltb v 0x200000)) [
      | inl g ↦ rw g (read_three v rest (ground arith) (ground arith))
      | inr g ↦ rw g (elim (Bool-cases (ltb v 0x10000000)) [
        | inl k ↦ rw k (read_four v rest (ground arith) (ground arith))
        | inr k ↦ rw k (read_five v rest (ground arith) h)
      ])
    ])
  ])
]

tag_of-leading_bits : (t : Tag) (n : ℕ) → n < 32 → tag_of (leading_bits t + n) t.number ≡ t
tag_of-leading_bits t n h = ground (arith, bit_and-0x20 (leading_bits t + n))

pub decode_tag-octets :
    (t : Tag) (rest : List ℕ)
    → IsTag t
    → decode_tag (tag_octets t ++ rest) ≡ ok (t, length (tag_octets t))
unfolding decode_tag tag_octets
decode_tag-octets t rest h = elim (Bool-cases (leb t.number 30)) [
  | inl low ↦ rw low (ground (arith, tag_of-leading_bits t t.number, mask t.number))
  | inr high ↦
      rw (high, mask 31 (omega arith), read_number-base128 t.number rest h)
        (rw high (rw (tag_of-leading_bits t 31 (omega arith)) (ground arith)))
]
  where
    mask : (n : ℕ) → n < 32 → bit_and (leading_bits t + n) 0x1f ≡ n
    mask n k = ground (arith, bit_and-0x1f (leading_bits t + n))
