-- ===== src/Integer/Decode.antt =====
-- `decode_integer` against the two's-complement value.
use native.Mathlib.Nat.{pow-suc, one-le-pow, pow-le-pow_right}
use rs_verified_der.Base.{
  ℕ, suc, ◌+◌, ◌-◌, ◌*◌, ◌%◌, ◌^◌, ◌≤◌, ◌<◌, ◌≡◌, ◌≢◌, ◌↔◌, ap, refl, arith, List, [], ◌∷◌, length,
  bit_and, bit_or, ltb, ◌!=◌, if◌then◌else◌, false, Bool-cases, inl, inr,
}
use rs_verified_der.Base.Bits.{bit_or-shifted}
use rs_verified_der.Base.Codec.{IsBytes}
use rs_verified_der.Base.Int.{ℤ, pos, negsuc}
use rs_verified_der.Base.Result.{ok, err}
use rs_verified_der.BigInteger.{validate_integer_content}
use rs_verified_der.BigInteger.Value.{digit_gap, be_value, be_value_bound, twos_value, bit_8_clear}
use rs_verified_der.Integer.{as_i64, shift_in, has_padding, decode_integer, non_minimal, too_large}

-- A round on a pattern that stands for a small number.
shift_step : (acc c : ℕ) → acc < 2 ^ 56 → c < 256 → bit_or (acc * 2 ^ 8 % 2 ^ 64) c ≡ acc * 256 + c
shift_step acc c h k =
    let small : acc * 2 ^ 8 % 2 ^ 64 ≡ acc * 2 ^ 8 = omega arith in
    omega (arith, bit_or-shifted 8 acc c, ap (λ (t : ℕ). bit_or t c) small)

-- A round on a pattern whose upper bits are all set: `acc` stands for `b - p`.
shift_step_ones :
    (acc p b c : ℕ)
    → acc + p ≡ 2 ^ 64 + b
    → b < p
    → p * 256 ≤ 2 ^ 64
    → c < 256
    → bit_or (acc * 2 ^ 8 % 2 ^ 64) c + p * 256 ≡ 2 ^ 64 + (b * 256 + c)
shift_step_ones acc p b c e h k l =
    let low : ℕ = 2 ^ 56 - p + b in
    let wrapped : acc * 2 ^ 8 % 2 ^ 64 ≡ low * 2 ^ 8 = omega arith in
    omega (arith, bit_or-shifted 8 low c, ap (λ (t : ℕ). bit_or t c) wrapped)

le-mul_pos : (a p : ℕ) → 1 ≤ p → a ≤ a * p
le-mul_pos a p h = grind arith

-- `p` more octets of room for each octet that is still to come.
room_step :
    (p : ℕ) (xs : List ℕ)
    → p * 256 ^ suc (length xs) ≤ 2 ^ 64
    → (p * 256 ≤ 2 ^ 64) × (p * 256 * 256 ^ length xs ≤ 2 ^ 64)
room_step p xs h =
    let one_more = ap (λ (t : ℕ). p * t) (pow-suc 256 (length xs)) in
    let all : p * 256 * 256 ^ length xs ≤ 2 ^ 64 = omega (arith, one_more) in
    (
      omega (
        arith,
        all,
        le-mul_pos (p * 256) (256 ^ length xs) (one-le-pow (length xs) 256 (omega arith)),
      ),
      all,
    )

shift_in-be_value :
    (xs : List ℕ) (acc p : ℕ)
    → IsBytes xs
    → acc < p
    → p * 256 ^ length xs ≤ 2 ^ 64
    → shift_in acc xs ≡ acc * 256 ^ length xs + be_value xs
unfolding shift_in be_value
shift_in-be_value [] acc p h k l = omega arith
shift_in-be_value (x ∷ xs) acc p (hx, h) k l =
    let n : ℕ = bit_or (acc * 2 ^ 8 % 2 ^ 64) x in
    let (fits, room) = room_step p xs l in
    let step : n ≡ acc * 256 + x = shift_step acc x (omega (arith, fits)) hx in
    omega (
      arith,
      shift_in-be_value xs n (p * 256) h (omega (arith, step)) room,
      ap (λ (t : ℕ). t * 256 ^ length xs) step,
      ap (λ (t : ℕ). acc * t) (pow-suc 256 (length xs)),
    )

shift_in_ones :
    (xs : List ℕ) (acc p b : ℕ)
    → IsBytes xs
    → acc + p ≡ 2 ^ 64 + b
    → b < p
    → p * 256 ^ length xs ≤ 2 ^ 64
    → shift_in acc xs + p * 256 ^ length xs ≡ 2 ^ 64 + (b * 256 ^ length xs + be_value xs)
unfolding shift_in be_value
shift_in_ones [] acc p b h e k l = omega arith
shift_in_ones (x ∷ xs) acc p b (hx, h) e k l =
    let n : ℕ = bit_or (acc * 2 ^ 8 % 2 ^ 64) x in
    let (fits, room) = room_step p xs l in
    let step : n + p * 256 ≡ 2 ^ 64 + (b * 256 + x) = shift_step_ones acc p b x e k fits hx in
    omega (
      arith,
      shift_in_ones xs n (p * 256) (b * 256 + x) h step (omega arith) room,
      ap (λ (t : ℕ). p * t) (pow-suc 256 (length xs)),
      ap (λ (t : ℕ). b * t) (pow-suc 256 (length xs)),
    )

pow_le_8 : (n : ℕ) → n ≤ 8 → 1 * 256 ^ n ≤ 2 ^ 64
pow_le_8 n h = let le : 256 ^ n ≤ 256 ^ 8 = pow-le-pow_right (omega arith) h in omega (arith, le)

-- The leading octet decides on which side of the middle the number lies.
below_half :
    (c : ℕ) (rest : List ℕ)
    → IsBytes rest
    → c < 0x80
    → 2 * be_value (c ∷ rest) < 256 ^ length (c ∷ rest)
unfolding be_value
below_half c rest h small = omega (
  arith,
  pow-suc 256 (length rest),
  be_value_bound rest h,
  digit_gap c 0x80 (256 ^ length rest) small,
)

above_half : (c : ℕ) (rest : List ℕ) → 0x80 ≤ c → 256 ^ length (c ∷ rest) ≤ 2 * be_value (c ∷ rest)
unfolding be_value
above_half c rest large =
    omega (arith, pow-suc 256 (length rest), digit_gap 0x7f c (256 ^ length rest) large)

as_i64_small : (acc v p : ℕ) → acc ≡ v → 2 * v < p → p ≤ 2 ^ 64 → as_i64 acc ≡ pos v
as_i64_small acc v p e h k = ground arith

as_i64_large :
    (acc v p : ℕ)
    → acc + p ≡ 2 ^ 64 + v
    → p ≤ 2 * v
    → v < p
    → p ≤ 2 ^ 64
    → as_i64 acc ≡ negsuc (p - 1 - v)
as_i64_large acc v p e h k l = ground arith

-- The accumulator at the end is the two's-complement pattern of the value.
as_i64-shift_in :
    (c : ℕ) (rest : List ℕ)
    → IsBytes (c ∷ rest)
    → length (c ∷ rest) ≤ 8
    → as_i64 (shift_in (if bit_and c 0x80 != 0 then 2 ^ 64 - 1 else 0) (c ∷ rest))
      ≡ twos_value (c ∷ rest)
unfolding twos_value
as_i64-shift_in c rest (hc, h) l =
    let content : List ℕ = c ∷ rest in
    let p = 256 ^ length content in
    let room : 1 * p ≤ 2 ^ 64 = pow_le_8 (length content) l in
    let zeros = shift_in-be_value content 0 1 (hc, h) (omega arith) room in
    let ones = shift_in_ones content (2 ^ 64 - 1) 1 0 (hc, h) (omega arith) (omega arith) room in
    let bound = be_value_bound content (hc, h) in
    rw (bit_8_clear c hc) (elim (Bool-cases (ltb c 0x80)) [
      | inl e ↦
          let small : c < 0x80 = ground arith in
          rw e (
            as_i64_small _ (be_value content) p (omega (arith, zeros)) (below_half c rest h small)
              (omega (arith, room)))
      | inr e ↦
          let large : 0x80 ≤ c = ground arith in
          rw e (
            as_i64_large _ (be_value content) p (omega (arith, ones)) (above_half c rest large)
              bound (omega (arith, room)))
    ])

has_padding-valid :
    (c : List ℕ) → c ≢ [] → (has_padding c ≡ false) ↔ (validate_integer_content c ≡ ok tt)
unfolding validate_integer_content
has_padding-valid [] h = absurd (h refl)
has_padding-valid (c₀ ∷ []) h = (λ _. refl, λ _. refl)
has_padding-valid (c₀ ∷ c₁ ∷ rest) h = (λ e. ground arith, λ e. ground arith)

-- All branches of `decode_integer` on content that is not empty.
pub decode_integer-cons :
    (c : ℕ) (rest : List ℕ)
    → IsBytes (c ∷ rest)
    → decode_integer (c ∷ rest) ≡ (
        if has_padding (c ∷ rest)
        then err non_minimal
        else if ltb 8 (length (c ∷ rest))
        then err too_large
        else ok (twos_value (c ∷ rest)))
unfolding decode_integer
decode_integer-cons c rest bytes = elim (Bool-cases (ltb 8 (length (c ∷ rest)))) [
  | inl e ↦ rw e
  | inr e ↦ rw (as_i64-shift_in c rest bytes (ground arith))
]

-- On bytes, `decode_integer` returns v exactly when `validate_integer_content` accepts the content, it has
-- at most 8 octets, and v is its two's-complement value.
pub decode_integer_iff :
    (content : List ℕ) (v : ℤ)
    → IsBytes content
    → (decode_integer content ≡ ok v) ↔ (
        (validate_integer_content content ≡ ok tt)
        × (length content ≤ 8)
        × (twos_value content ≡ v))
decode_integer_iff [] v bytes = (
  λ e. absurd (unfold decode_integer in ground arith),
  λ h. absurd (unfold validate_integer_content in ground arith),
)
decode_integer_iff (c ∷ rest) v bytes =
    let valid : (has_padding (c ∷ rest) ≡ false) ↔ (validate_integer_content (c ∷ rest) ≡ ok tt) =
      has_padding-valid (c ∷ rest) (λ e. omega (arith, ap (λ (xs : List ℕ). length xs) e)) in
    rw (decode_integer-cons c rest bytes) (
      λ e. (valid.0 (ground arith), ground arith, ground arith),
      λ (ok_content, short, e).
          let none : has_padding (c ∷ rest) ≡ false = valid.1 ok_content in ground arith,
    )
