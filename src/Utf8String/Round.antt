-- ===== src/Utf8String/Round.antt =====
-- What the decoder computes from the octets of a sequence, by arithmetic.
use rs_verified_der.Base.{
  ℕ, zero, suc, ◌+◌, ◌-◌, ◌*◌, ◌%◌, ◌^◌, ◌<◌, ◌≤◌, ◌≡◌, ◌⊎◌, inl, inr, refl, arith, true, false,
  Bool-cases, List, ◌∷◌, some, none, length, bit_and, bit_or, ltb,
}
use rs_verified_der.Base.Bits.{
  bit_and-0x80, bit_and-0xc0, bit_and-0xe0, bit_and-0xf0, bit_and-0xf8, bit_and-mask,
  bit_or-shifted,
}
use rs_verified_der.Base.Result.{ok, err}
use rs_verified_der.Utf8String.{
  ill_formed, sequence_len, lead_bits, check_code_point, read_continuation, read_code_point,
}

-- The number of octets that a leading octet announces.
pub sequence_len-one : (b : ℕ) → b < 0x80 → sequence_len b ≡ some 1
unfolding sequence_len
sequence_len-one b h = ground (arith, bit_and-0x80 b)

pub sequence_len-two : (a : ℕ) → a < 32 → sequence_len (0xc0 + a) ≡ some 2
unfolding sequence_len
sequence_len-two a h = ground (arith, bit_and-0x80 (0xc0 + a), bit_and-0xe0 (0xc0 + a))

pub sequence_len-three : (a : ℕ) → a < 16 → sequence_len (0xe0 + a) ≡ some 3
unfolding sequence_len
sequence_len-three a h =
    ground (arith, bit_and-0x80 (0xe0 + a), bit_and-0xe0 (0xe0 + a), bit_and-0xf0 (0xe0 + a))

pub sequence_len-four : (a : ℕ) → a < 8 → sequence_len (0xf0 + a) ≡ some 4
unfolding sequence_len
sequence_len-four a h = ground (
  arith,
  bit_and-0x80 (0xf0 + a),
  bit_and-0xe0 (0xf0 + a),
  bit_and-0xf0 (0xf0 + a),
  bit_and-0xf8 (0xf0 + a),
)

pub sequence_len-none :
    (b : ℕ) → b < 256 → ((0x80 ≤ b) × (b < 0xc0)) ⊎ (0xf8 ≤ b) → sequence_len b ≡ none
unfolding sequence_len
sequence_len-none b small h =
    ground (arith, bit_and-0x80 b, bit_and-0xe0 b, bit_and-0xf0 b, bit_and-0xf8 b)

-- A continuation octet carries six bits.
pub read_continuation-next :
    (left c cp i : ℕ) (after : List ℕ)
    → c < 64
    → cp < 2 ^ 26
    → read_continuation (suc left) ((0x80 + c) ∷ after) i cp
      ≡ read_continuation left after i (cp * 64 + c)
unfolding read_continuation
read_continuation-next left c cp i after h small =
    let six : bit_and (0x80 + c) 0x3f ≡ c =
      omega (arith, bit_and-mask 6 (0x80 + c) (omega arith) (omega arith)) in
    let kept : cp * 2 ^ 6 % 2 ^ 32 ≡ cp * 2 ^ 6 = omega arith in
    let joined : bit_or (cp * 2 ^ 6) c ≡ cp * 64 + c = bit_or-shifted 6 cp c h in
    rw (six, kept, joined) (ground (arith, bit_and-0xc0 (0x80 + c)))

pub read_continuation_bad :
    (left c cp i : ℕ) (after : List ℕ)
    → c < 256
    → (c < 0x80) ⊎ (0xc0 ≤ c)
    → read_continuation (suc left) (c ∷ after) i cp ≡ err (ill_formed i)
unfolding read_continuation
read_continuation_bad left c cp i after small h = ground (arith, bit_and-0xc0 c)

read_continuation-end : (cp i : ℕ) (after : List ℕ) → read_continuation zero after i cp ≡ ok cp
unfolding read_continuation
read_continuation-end cp i after = refl

-- What is computed from a leading octet and its continuation octets.
pub read_two :
    (a c i : ℕ) (rest : List ℕ)
    → a < 32
    → c < 64
    → read_code_point 2 (0xc0 + a) ((0x80 + c) ∷ rest) i ≡ check_code_point 2 i (a * 64 + c)
unfolding read_code_point
read_two a c i rest ha hc =
    let seed : bit_and (0xc0 + a) 0x1f ≡ a =
      omega (arith, bit_and-mask 5 (0xc0 + a) (omega arith) (omega arith)) in
    let long : ltb (suc (suc (length rest))) 2 ≡ false = ground arith in
    rw
      (
        long,
        seed,
        read_continuation-next 0 c a i rest hc (omega arith),
        read_continuation-end (a * 64 + c) i rest,
      )
      refl

pub read_three :
    (a c d i : ℕ) (rest : List ℕ)
    → a < 16
    → c < 64
    → d < 64
    → read_code_point 3 (0xe0 + a) ((0x80 + c) ∷ (0x80 + d) ∷ rest) i
      ≡ check_code_point 3 i ((a * 64 + c) * 64 + d)
unfolding read_code_point
read_three a c d i rest ha hc hd =
    let seed : bit_and (0xe0 + a) 0x0f ≡ a =
      omega (arith, bit_and-mask 4 (0xe0 + a) (omega arith) (omega arith)) in
    let long : ltb (suc (suc (suc (length rest)))) 3 ≡ false = ground arith in
    rw
      (
        long,
        seed,
        read_continuation-next 1 c a i ((0x80 + d) ∷ rest) hc (omega arith),
        read_continuation-next 0 d (a * 64 + c) i rest hd (omega arith),
        read_continuation-end ((a * 64 + c) * 64 + d) i rest,
      )
      refl

pub read_four :
    (a c d e i : ℕ) (rest : List ℕ)
    → a < 8
    → c < 64
    → d < 64
    → e < 64
    → read_code_point 4 (0xf0 + a) ((0x80 + c) ∷ (0x80 + d) ∷ (0x80 + e) ∷ rest) i
      ≡ check_code_point 4 i (((a * 64 + c) * 64 + d) * 64 + e)
unfolding read_code_point
read_four a c d e i rest ha hc hd he =
    let seed : bit_and (0xf0 + a) 0x07 ≡ a =
      omega (arith, bit_and-mask 3 (0xf0 + a) (omega arith) (omega arith)) in
    let long : ltb (suc (suc (suc (suc (length rest))))) 4 ≡ false = ground arith in
    rw
      (
        long,
        seed,
        read_continuation-next 2 c a i ((0x80 + d) ∷ (0x80 + e) ∷ rest) hc (omega arith),
        read_continuation-next 1 d (a * 64 + c) i ((0x80 + e) ∷ rest) hd (omega arith),
        read_continuation-next 0 e ((a * 64 + c) * 64 + d) i rest he (omega arith),
        read_continuation-end (((a * 64 + c) * 64 + d) * 64 + e) i rest,
      )
      refl

-- What is not read: too few octets, or an octet that is no continuation.
pub cut_short :
    (len lead i : ℕ) (after : List ℕ)
    → suc (length after) < len
    → read_code_point len lead after i ≡ err (ill_formed i)
unfolding read_code_point
cut_short len lead i after h =
    let short : ltb (suc (length after)) len ≡ true = ground arith in rw short refl

pub bad_second :
    (len lead c i : ℕ) (after : List ℕ)
    → 2 ≤ len
    → c < 256
    → (c < 0x80) ⊎ (0xc0 ≤ c)
    → read_code_point len lead (c ∷ after) i ≡ err (ill_formed i)
unfolding read_code_point
bad_second len lead c i after h small bad = elim (Bool-cases (ltb (suc (suc (length after))) len)) [
  | inl e ↦ rw e refl
  | inr e ↦
      let more : len - 1 ≡ suc (len - 2) = omega arith in
      rw (e, more, read_continuation_bad (len - 2) c (lead_bits len lead) i after small bad) refl
]

pub bad_third :
    (a c d i : ℕ) (after : List ℕ)
    → a < 16
    → c < 64
    → d < 256
    → (d < 0x80) ⊎ (0xc0 ≤ d)
    → read_code_point 3 (0xe0 + a) ((0x80 + c) ∷ d ∷ after) i ≡ err (ill_formed i)
unfolding read_code_point
bad_third a c d i after ha hc small bad =
    let seed : bit_and (0xe0 + a) 0x0f ≡ a =
      omega (arith, bit_and-mask 4 (0xe0 + a) (omega arith) (omega arith)) in
    let long : ltb (suc (suc (suc (length after)))) 3 ≡ false = ground arith in
    rw
      (
        long,
        seed,
        read_continuation-next 1 c a i (d ∷ after) hc (omega arith),
        read_continuation_bad 0 d (a * 64 + c) i after small bad,
      )
      refl

-- The third or the fourth octet of four, the fourth being the head of `after`.
pub bad_third_of_four :
    (a c d i : ℕ) (after : List ℕ)
    → a < 8
    → c < 64
    → d < 256
    → (d < 0x80) ⊎ (0xc0 ≤ d)
    → read_code_point 4 (0xf0 + a) ((0x80 + c) ∷ d ∷ after) i ≡ err (ill_formed i)
unfolding read_code_point
bad_third_of_four a c d i after ha hc small bad =
    elim (Bool-cases (ltb (suc (suc (suc (length after)))) 4)) [
      | inl e ↦ rw e refl
      | inr e ↦
          let seed : bit_and (0xf0 + a) 0x07 ≡ a =
            omega (arith, bit_and-mask 3 (0xf0 + a) (omega arith) (omega arith)) in
          rw
            (
              e,
              seed,
              read_continuation-next 2 c a i (d ∷ after) hc (omega arith),
              read_continuation_bad 1 d (a * 64 + c) i after small bad,
            )
            refl
    ]

pub bad_fourth :
    (a c d b i : ℕ) (after : List ℕ)
    → a < 8
    → c < 64
    → d < 64
    → b < 256
    → (b < 0x80) ⊎ (0xc0 ≤ b)
    → read_code_point 4 (0xf0 + a) ((0x80 + c) ∷ (0x80 + d) ∷ b ∷ after) i ≡ err (ill_formed i)
unfolding read_code_point
bad_fourth a c d b i after ha hc hd small bad =
    let seed : bit_and (0xf0 + a) 0x07 ≡ a =
      omega (arith, bit_and-mask 3 (0xf0 + a) (omega arith) (omega arith)) in
    let long : ltb (suc (suc (suc (suc (length after))))) 4 ≡ false = ground arith in
    rw
      (
        long,
        seed,
        read_continuation-next 2 c a i ((0x80 + d) ∷ b ∷ after) hc (omega arith),
        read_continuation-next 1 d (a * 64 + c) i (b ∷ after) hd (omega arith),
        read_continuation_bad 0 b ((a * 64 + c) * 64 + d) i after small bad,
      )
      refl
