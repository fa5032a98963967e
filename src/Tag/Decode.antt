-- ===== src/Tag/Decode.antt =====
-- `decode_tag` against the prescribed octets, on any input.
use rs_verified_der.Base.{
  ℕ, suc, ◌+◌, ◌*◌, ◌/◌, ◌%◌, ◌^◌, ◌≤◌, ◌<◌, ◌≡◌, ap, arith, List, [], ◌∷◌, ◌++◌, length, drop, All,
  ◌&&◌, ◌∙◌, length-append, drop-append, append_assoc, leb, ltb, ◌==◌, ◌!=◌, bit_and, bit_or, true,
  false, if◌then◌else◌,
}
use rs_verified_der.Base.Bits.{
  bit_or-shifted, bit_and-0x7f, bit_and-0x80, bit_and-0x20, bit_and-0x1f,
}
use rs_verified_der.Base.Result.{Ensures, Post, Post→Ensures, Post-if, Post-bind}
use rs_verified_der.Tag.{Tag, read_number, decode_tag, class_of, u32_max}
use rs_verified_der.Tag.Octets.{tag_octets, base128, IsTag, leading_bits, class_octet}

-- One round of the loop appends seven bits, as long as the number is within the checked bound.
pub read_step :
    (v b : ℕ) → v < 2 ^ 25 → bit_or (v * 2 ^ 7 % 2 ^ 32) (bit_and b 0x7f) ≡ v * 128 + b % 128
read_step v b h = omega (
  arith,
  bit_and-0x7f b,
  bit_or-shifted 7 v (bit_and b 0x7f),
  ap (λ (t : ℕ). bit_or t (bit_and b 0x7f)) small,
)
  where
    small : v * 2 ^ 7 % 2 ^ 32 ≡ v * 2 ^ 7
    small = omega arith

-- The octets that have been read when the number so far is `v`: each has its bit 8 set.
continued : ℕ → List ℕ
continued v =
    if ltb v 0x80
    then (0x80 + v) ∷ []
    else if ltb v 0x4000
    then (0x80 + v / 0x80) ∷ (0x80 + v % 0x80) ∷ []
    else if ltb v 0x200000
    then (0x80 + v / 0x4000) ∷ (0x80 + v / 0x80 % 0x80) ∷ (0x80 + v % 0x80) ∷ []
    else if ltb v 0x10000000
    then (0x80 + v / 0x200000)
      ∷ (0x80 + v / 0x4000 % 0x80)
      ∷ (0x80 + v / 0x80 % 0x80)
      ∷ (0x80 + v % 0x80)
      ∷ []
    else (0x80 + v / 0x10000000)
      ∷ (0x80 + v / 0x200000 % 0x80)
      ∷ (0x80 + v / 0x4000 % 0x80)
      ∷ (0x80 + v / 0x80 % 0x80)
      ∷ (0x80 + v % 0x80)
      ∷ []

continued_step :
    (v g : ℕ)
    → 0 < v
    → v < 2 ^ 25
    → g < 128
    → continued (v * 128 + g) ≡ continued v ++ (0x80 + g) ∷ []
unfolding continued
continued_step v g h k l = ground arith

base128_step :
    (v g : ℕ) → 0 < v → v < 2 ^ 25 → g < 128 → base128 (v * 128 + g) ≡ continued v ++ g ∷ []
unfolding continued
base128_step v g h k l = ground arith

-- The number that was read from the octets at index 1, and the index behind them.
abbrev IsNumberAt : List ℕ → ℕ × ℕ → Type 0
IsNumberAt rest (v, i) =
    (v < 2 ^ 32)
    × (i ≡ 1 + length (base128 v))
    × (rest ≡ base128 v ++ drop (length (base128 v)) rest)

continued_one : (v : ℕ) → v < 128 → continued v ≡ (0x80 + v) ∷ []
unfolding continued
continued_one v h = ground arith

last_round :
    (input rest : List ℕ) (v b i n : ℕ)
    → n ≡ v * 128 + b
    → 0 < v
    → v < 2 ^ 25
    → b < 128
    → input ≡ continued v ++ b ∷ rest
    → i ≡ 1 + length (continued v)
    → IsNumberAt input (n, i + 1)
last_round input rest v b i n e h k l split at =
    let octets : base128 n ≡ continued v ++ b ∷ [] = ap base128 e ∙ base128_step v b h k l in
    let whole : input ≡ base128 n ++ rest = rw (octets, append_assoc) split in
    (omega arith, rw (octets, length-append) (omega arith), rw whole (rw drop-append))

next_round :
    (input rest : List ℕ) (v b i n : ℕ)
    → n ≡ v * 128 + b % 128
    → 0 < v
    → v < 2 ^ 25
    → 128 ≤ b
    → b < 256
    → input ≡ continued v ++ b ∷ rest
    → i ≡ 1 + length (continued v)
    → (input ≡ continued n ++ rest) × (i + 1 ≡ 1 + length (continued n))
next_round input rest v b i n e h k l m split at =
    let octet : 0x80 + b % 128 ≡ b = omega arith in
    let octets : continued n ≡ continued v ++ b ∷ [] =
      rw e (rw (continued_step v (b % 128) h k (omega arith)) (rw octet)) in
    (rw (octets, append_assoc) split, rw (octets, length-append) (omega arith))

top_bit_clear : (b : ℕ) → b < 256 → (bit_and b 0x80 == 0) ≡ true → b < 128
top_bit_clear b h e = ground (arith, bit_and-0x80 b)

top_bit_set : (b : ℕ) → b < 256 → (bit_and b 0x80 == 0) ≡ false → 128 ≤ b
top_bit_set b h e = ground (arith, bit_and-0x80 b)

-- The rounds after the first; no number is 0 there.
read_number-Post :
    (rest input : List ℕ) (v i count : ℕ)
    → All (λ b. b < 256) rest
    → 0 < v
    → v < 2 ^ 32
    → 0 < count
    → input ≡ continued v ++ rest
    → i ≡ 1 + length (continued v)
    → Post (IsNumberAt input) (read_number rest v i count)
unfolding read_number
read_number-Post [] input v i count bytes h k c split at = tt
read_number-Post (b ∷ rest) input v i count (small, bytes) h k c split at =
    let P = IsNumberAt input in
    let n : ℕ = bit_or (v * 2 ^ 7 % 2 ^ 32) (bit_and b 0x7f) in
    Post-if P (count == 0 && b == 0x80) _ _ (λ e. absurd (ground arith))
      (λ _.
        Post-if P (ltb (u32_max / 2 ^ 7) v) _ _ (λ _. tt)
          (λ fits.
            let bound : v < 2 ^ 25 = ground arith in
            let read : n ≡ v * 128 + b % 128 = read_step v b bound in
            Post-if P (bit_and b 0x80 == 0) _ _
              (λ last.
                let low : b < 128 = top_bit_clear b small last in
                last_round input rest v b i n (omega arith) h bound low split at)
              (λ more.
                let high : 128 ≤ b = top_bit_set b small more in
                let round = next_round input rest v b i n read h bound high small split at in
                read_number-Post rest input n (i + 1) (count + 1) bytes (omega arith) (omega arith)
                  (omega arith) round.0 round.1)))

read_number-Post_first :
    (input : List ℕ) → All (λ b. b < 256) input → Post (IsNumberAt input) (read_number input 0 1 0)
unfolding read_number
read_number-Post_first [] bytes = tt
read_number-Post_first (b ∷ rest) (small, bytes) =
    let input : List ℕ = b ∷ rest in
    let P = IsNumberAt input in
    let n : ℕ = bit_or 0 (bit_and b 0x7f) in
    let read : n ≡ b % 128 = omega (arith, read_step 0 b) in
    Post-if P (b == 0x80) _ _ (λ _. tt)
      (λ lead.
        Post-if P (bit_and b 0x80 == 0) _ _
          (λ last. let low : b < 128 = top_bit_clear b small last in ground arith)
          (λ more.
            let high : 128 ≤ b = top_bit_set b small more in
            read_number-Post rest input n 2 1 bytes (ground arith) (omega arith) (omega arith)
              (rw (continued_one n (ground arith)) (ground arith))
              (rw (continued_one n (ground arith)))))

-- The tag that was read, and the octets that it was read from.
abbrev pub IsTagAt : List ℕ → Tag × ℕ → Type 0
IsTagAt input (t, k) =
    IsTag t × (k ≡ length (tag_octets t)) × (input ≡ tag_octets t ++ drop k input)

class_octet-class_of : (b : ℕ) → b < 4 → class_octet (class_of b) ≡ b * 64
class_octet-class_of b h = ground arith

-- The tag that the code builds from the first octet, and the number.
abbrev pub tag_of : ℕ → ℕ → Tag
tag_of first number = record {
  class = class_of (first / 2 ^ 6);
  constructed = bit_and first 0x20 != 0;
  number = number;
}

leading_bits-tag_of :
    (first number : ℕ) → first < 256 → leading_bits (tag_of first number) + first % 32 ≡ first
leading_bits-tag_of first number h =
    ground (arith, class_octet-class_of (first / 2 ^ 6), bit_and-0x20 first)

low_form :
    (first : ℕ) (rest : List ℕ)
    → first < 256
    → (bit_and first 0x1f != 0x1f) ≡ true
    → IsTagAt (first ∷ rest) (tag_of first (bit_and first 0x1f), 1)
unfolding tag_octets
low_form first rest h e =
    let number : bit_and first 0x1f ≡ first % 32 = bit_and-0x1f first h in
    let small : bit_and first 0x1f ≤ 30 = ground arith in
    ground (arith, leading_bits-tag_of first (bit_and first 0x1f))

high_form :
    (first number i : ℕ) (rest : List ℕ)
    → first < 256
    → first % 32 ≡ 31
    → leb number 30 ≡ false
    → IsNumberAt rest (number, i)
    → IsTagAt (first ∷ rest) (tag_of first number, i)
unfolding tag_octets
high_form first number i rest h e large (fits, at, split) =
    let lead : leading_bits (tag_of first number) + 31 ≡ first =
      omega (arith, leading_bits-tag_of first number h) in
    let octets : tag_octets (tag_of first number) ≡ first ∷ base128 number = rw (large, lead) in
    let at' : i ≡ suc (length (base128 number)) = omega (arith, at) in
    (fits, rw octets at', rw (octets, at') (ap (λ t. first ∷ t) split))

pub decode_tag-Post :
    (input : List ℕ) → All (λ b. b < 256) input → Post (IsTagAt input) (decode_tag input)
unfolding decode_tag
decode_tag-Post [] bytes = tt
decode_tag-Post (first ∷ rest) (small, bytes) =
    let P = IsTagAt (first ∷ rest) in
    Post-if P (bit_and first 0x1f != 0x1f) _ _ (λ low. low_form first rest small low)
      (λ high.
        Post-bind (IsNumberAt rest) P (read_number rest 0 1 0) _ (read_number-Post_first rest bytes)
          (λ (number, i) at.
            Post-if P (leb number 30) _ _ (λ _. tt)
              (λ large.
                high_form first number i rest small (ground (arith, bit_and-0x1f first)) large at)))

pub decode_tag-Ensures :
    (input : List ℕ) → All (λ b. b < 256) input → Ensures (IsTagAt input) (decode_tag input)
decode_tag-Ensures input bytes = Post→Ensures _ _ (decode_tag-Post input bytes)
