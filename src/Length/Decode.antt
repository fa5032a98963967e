-- ===== src/Length/Decode.antt =====
-- `decode_length` against the prescribed octets, on any input.
use rs_verified_der.Base.{
  ℕ, zero, suc, ◌+◌, ◌*◌, ◌/◌, ◌%◌, ◌^◌, ◌<◌, ◌≡◌, ap, arith, List, [], ◌∷◌, ◌++◌, length, drop,
  All, ltb, ◌==◌, bit_and, bit_or, subst,
}
use rs_verified_der.Base.Bits.{bit_or-shifted, bit_and-0x7f}
use rs_verified_der.Base.Result.{ok, Ensures, Post, Post→Ensures, Post-if}
use rs_verified_der.Length.{decode_long, decode_length}
use rs_verified_der.Length.Octets.{length_octets}

-- One round of the loop appends an octet, as long as 24 bits have been read at most.
shift_in_step : (v b : ℕ) → v < 2 ^ 24 → b < 256 → bit_or (v * 2 ^ 8 % 2 ^ 32) b ≡ v * 256 + b
shift_in_step v b h k = omega (arith, bit_or-shifted 8 v b, ap (λ (t : ℕ). bit_or t b) small)
  where
    small : v * 2 ^ 8 % 2 ^ 32 ≡ v * 2 ^ 8
    small = omega arith

-- The length that was read, and the octets that it was read from.
abbrev pub IsLengthAt : List ℕ → ℕ × ℕ → Type 0
IsLengthAt input (v, k) =
    (v < 2 ^ 32) × (k ≡ length (length_octets v)) × (input ≡ length_octets v ++ drop k input)

decode_long-Post :
    (n : ℕ) (rest : List ℕ)
    → All (λ b. b < 256) rest
    → 0 < n
    → Post (IsLengthAt ((128 + n) ∷ rest)) (decode_long n ((128 + n) ∷ rest))
unfolding decode_long length_octets
decode_long-Post zero rest bytes h = absurd (omega arith)
decode_long-Post (suc n) [] bytes h = ground arith
decode_long-Post (suc zero) (a ∷ rest) bytes h = ground (arith, shift_in_step 0 a)
decode_long-Post (suc (suc zero)) (a ∷ []) bytes h = ground arith
decode_long-Post (suc (suc zero)) (a ∷ b ∷ rest) bytes h =
    ground (arith, shift_in_step 0 a, shift_in_step a b)
decode_long-Post (suc (suc (suc zero))) (a ∷ []) bytes h = ground arith
decode_long-Post (suc (suc (suc zero))) (a ∷ b ∷ []) bytes h = ground arith
decode_long-Post (suc (suc (suc zero))) (a ∷ b ∷ c ∷ rest) bytes h =
    ground (arith, shift_in_step 0 a, shift_in_step a b, shift_in_step (a * 256 + b) c)
decode_long-Post (suc (suc (suc (suc n)))) (a ∷ []) bytes h = ground arith
decode_long-Post (suc (suc (suc (suc n)))) (a ∷ b ∷ []) bytes h = ground arith
decode_long-Post (suc (suc (suc (suc n)))) (a ∷ b ∷ c ∷ []) bytes h = ground arith
decode_long-Post (suc (suc (suc (suc zero)))) (a ∷ b ∷ c ∷ d ∷ rest) bytes h = ground (
  arith,
  shift_in_step 0 a,
  shift_in_step a b,
  shift_in_step (a * 256 + b) c,
  shift_in_step (a * 65536 + b * 256 + c) d,
)
decode_long-Post (suc (suc (suc (suc (suc n))))) (a ∷ b ∷ c ∷ d ∷ rest) bytes h = ground arith

decode_long-Post_at :
    (first : ℕ) (rest : List ℕ)
    → All (λ b. b < 256) (first ∷ rest)
    → 128 < first
    → Post (IsLengthAt (first ∷ rest)) (decode_long (bit_and first 0x7f) (first ∷ rest))
decode_long-Post_at first rest (h, bytes) big =
    let split : 128 + first % 128 ≡ first = omega arith in
    rw (bit_and-0x7f first) (
      subst (λ b. Post (IsLengthAt (b ∷ rest)) (decode_long (first % 128) (b ∷ rest))) split
        (decode_long-Post (first % 128) rest bytes (omega arith)))

decode_length-Post :
    (input : List ℕ) → All (λ b. b < 256) input → Post (IsLengthAt input) (decode_length input)
unfolding decode_length length_octets
decode_length-Post [] bytes = tt
decode_length-Post (first ∷ rest) (h, bytes) =
    let P = IsLengthAt (first ∷ rest) in
    Post-if P (ltb first 0x80) _ _ (λ e. ground arith)
      (λ e.
        Post-if P (first == 0x80) _ _ (λ _. tt)
          (λ f.
            Post-if P (first == 0xff) _ _ (λ _. tt)
              (λ _. decode_long-Post_at first rest (h, bytes) (ground arith))))

-- Decoding never panics, and what it accepts is the prescribed field in front of the rest.
pub decode_length-Ensures :
    (input : List ℕ) → All (λ b. b < 256) input → Ensures (IsLengthAt input) (decode_length input)
decode_length-Ensures input bytes = Post→Ensures _ _ (decode_length-Post input bytes)

-- Completeness.
pub decode_length-octets :
    (v : ℕ) (rest : List ℕ)
    → v < 2 ^ 32
    → decode_length (length_octets v ++ rest) ≡ ok (v, length (length_octets v))
unfolding decode_length decode_long length_octets
decode_length-octets v rest h = ground (
  arith,
  shift_in_step 0 v,
  shift_in_step 0 (v / 256),
  shift_in_step (v / 256) (v % 256),
  shift_in_step 0 (v / 65536),
  shift_in_step (v / 65536) (v / 256 % 256),
  shift_in_step (v / 256) (v % 256),
  shift_in_step 0 (v / 16777216),
  shift_in_step (v / 16777216) (v / 65536 % 256),
  shift_in_step (v / 65536) (v / 256 % 256),
)
