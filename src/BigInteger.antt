-- ===== src/BigInteger.antt =====
-- der-verified/src/big_integer.rs: INTEGER content of any magnitude.
pub mod Value
pub mod Minimal
pub mod Encode
use rs_verified_der.Base.{
  ℕ, Bool, true, false, ◌&&◌, ◌||◌, List, [], ◌∷◌, length, bit_and, ltb, ◌==◌, ◌!=◌, if◌then◌else◌,
}
use rs_verified_der.Base.Result.{Result, ok, err, ◌>>=◌, copy_from_slice}

abbrev pub tag : ℕ
tag = 2

pub data BigIntError : Type 0 where
  empty non_minimal : BigIntError

-- A leading 0x00 before a clear bit 8, and a leading 0xFF before a set one.
abbrev pub zero_padding : ℕ → ℕ → Bool
zero_padding c₀ c₁ = c₀ == 0 && bit_and c₁ 0x80 == 0

abbrev pub ones_padding : ℕ → ℕ → Bool
ones_padding c₀ c₁ = c₀ == 0xff && bit_and c₁ 0x80 != 0

unfoldable pub validate_integer_content : List ℕ → Result BigIntError (Unit {0})
validate_integer_content [] = err empty
validate_integer_content (c₀ ∷ []) = ok tt
validate_integer_content (c₀ ∷ c₁ ∷ _) =
    if zero_padding c₀ c₁ || ones_padding c₀ c₁ then err non_minimal else ok tt

unfoldable pub is_negative : List ℕ → Bool
is_negative [] = false
is_negative (b ∷ _) = bit_and b 0x80 != 0

-- The loop of `encode_minimal_integer_into`: `&content[start..]` at its end.
unfoldable pub strip : List ℕ → List ℕ
strip [] = []
strip (c₀ ∷ []) = c₀ ∷ []
strip (c₀ ∷ c₁ ∷ rest) =
    let more = strip (c₁ ∷ rest) in
    if zero_padding c₀ c₁ then more else if ones_padding c₀ c₁ then more else c₀ ∷ c₁ ∷ rest

-- `None` is `err tt`; a success is the count of octets with the new contents of `out`.
unfoldable pub encode_minimal_integer_into : List ℕ → List ℕ → Result (Unit {0}) (ℕ × List ℕ)
encode_minimal_integer_into [] out = err tt
encode_minimal_integer_into (c ∷ content) out =
    let minimal = strip (c ∷ content) in
    let write = do out' ← copy_from_slice out 0 (length minimal) minimal; ok (length minimal, out')
    in if ltb (length out) (length minimal) then err tt else write
