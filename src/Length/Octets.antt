-- ===== src/Length/Octets.antt =====
-- The octets that X.690 prescribes for a length, and `encode_length` against them.
use rs_verified_der.Base.{
  ℕ, ◌-◌, ◌/◌, ◌%◌, ◌^◌, ◌≤◌, ◌<◌, ◌≡◌, arith, List, [], ◌∷◌, ◌++◌, length, replicate, All, ltb,
  if◌then◌else◌,
}
use rs_verified_der.Base.Result.{ok}
use rs_verified_der.Length.{encode_length}

-- X.690 §8.1.3 with the minimality of §10.1: one octet below 128, and otherwise the number of
-- octets over 0x80, then the fewest octets, the most significant first.
unfoldable pub length_octets : ℕ → List ℕ
length_octets v =
    if ltb v 0x80
    then v ∷ []
    else if ltb v 0x100
    then 0x81 ∷ v ∷ []
    else if ltb v 0x10000
    then 0x82 ∷ v / 0x100 ∷ v % 0x100 ∷ []
    else if ltb v 0x1000000
    then 0x83 ∷ v / 0x10000 ∷ v / 0x100 % 0x100 ∷ v % 0x100 ∷ []
    else 0x84 ∷ v / 0x1000000 ∷ v / 0x10000 % 0x100 ∷ v / 0x100 % 0x100 ∷ v % 0x100 ∷ []

pub length_octets-IsBytes : (v : ℕ) → v < 2 ^ 32 → All (λ b. b < 256) (length_octets v)
unfolding length_octets
length_octets-IsBytes v h = ground arith

pub length_octets_size : (v : ℕ) → (1 ≤ length (length_octets v)) × (length (length_octets v) ≤ 5)
unfolding length_octets
length_octets_size v = ground arith

-- For v below 2 ^ 32, `encode_length` returns, without a panic, the five-octet buffer that begins with the
-- shortest definite length octets of v and is zero after them, with their count.
pub encode_length_lem :
    {E : Type 0} (v : ℕ)
    → v < 2 ^ 32
    → encode_length {E = E} v
      ≡ ok (length_octets v ++ replicate (5 - length (length_octets v)) 0, length (length_octets v))
unfolding encode_length length_octets
encode_length_lem v h = ground arith
