-- ===== src/Integer.antt =====
-- der-verified/src/integer.rs: INTEGER content as an `i64`, which is a ℤ in range with its 64 bits
-- in two's complement.
pub mod Decode
pub mod Encode
use rs_verified_der.Base.{
  ℕ, zero, suc, ◌+◌, ◌-◌, ◌*◌, ◌/◌, ◌%◌, ◌^◌, ◌<◌, Bool, true, false, ◌&&◌, ◌||◌, List, [], ◌∷◌,
  length, replicate, bit_and, bit_or, ltb, ◌==◌, ◌!=◌, if◌then◌else◌,
}
use rs_verified_der.Base.Int.{ℤ, pos, negsuc}
use rs_verified_der.Base.Result.{Result, ok, err, ◌>>=◌, index, store}
use rs_verified_der.BigInteger.{zero_padding, ones_padding}

abbrev pub tag : ℕ
tag = 2

pub data IntError : Type 0 where
  empty non_minimal too_large : IntError

abbrev pub IsI64 : ℤ → Type 0
IsI64 (pos n) = n < 2 ^ 63
IsI64 (negsuc n) = n < 2 ^ 63

-- The bit pattern of an `i64`, and `acc as i64`.
abbrev pub to_u64 : ℤ → ℕ
to_u64 (pos n) = n
to_u64 (negsuc n) = 2 ^ 64 - 1 - n

abbrev pub as_i64 : ℕ → ℤ
as_i64 acc = if ltb acc (2 ^ 63) then pos acc else negsuc (2 ^ 64 - 1 - acc)

-- `v.to_be_bytes()`
abbrev pub to_be_bytes : ℤ → List ℕ
to_be_bytes v =
    let u = to_u64 v in
    u / 2 ^ 56 % 256
    ∷ u / 2 ^ 48 % 256
    ∷ u / 2 ^ 40 % 256
    ∷ u / 2 ^ 32 % 256
    ∷ u / 2 ^ 24 % 256
    ∷ u / 2 ^ 16 % 256
    ∷ u / 2 ^ 8 % 256
    ∷ u % 256
    ∷ []

-- `while start < 7 && … { start += 1; }`, for either sign; the list is what is left of `be`.
unfoldable pub skip : (ℕ → ℕ → Bool) → List ℕ → ℕ
skip padding (b₀ ∷ b₁ ∷ be) =
    let more = skip padding (b₁ ∷ be) in if padding b₀ b₁ then suc more else 0
skip padding _ = 0

abbrev pub is_nonnegative : ℤ → Bool
is_nonnegative (pos n) = true
is_nonnegative (negsuc n) = false

-- `while i < n { out[i] = be[start + i]; i += 1; }`, with the `n - i` rounds left first.
unfoldable pub copy_octets : {E : Type 0} → ℕ → ℕ → List ℕ → ℕ → List ℕ → Result E (List ℕ)
copy_octets zero i be start out = ok out
copy_octets (suc left) i be start out = do
  octet ← index be (start + i)
  out' ← store out i octet
  copy_octets left (i + 1) be start out'

unfoldable pub encode_integer : {E : Type 0} → ℤ → Result E (List ℕ × ℕ)
unfolding skip copy_octets
encode_integer v = do
  let be = to_be_bytes v
  let start = if is_nonnegative v then skip zero_padding be else skip ones_padding be
  let n = 8 - start
  out ← copy_octets n 0 be start (replicate 8 0)
  ok (out, n)

-- `while i < content.len() { acc = (acc << 8) | content[i] as u64; i += 1; }`
unfoldable pub shift_in : ℕ → List ℕ → ℕ
shift_in acc [] = acc
shift_in acc (c ∷ content) = shift_in (bit_or (acc * 2 ^ 8 % 2 ^ 64) c) content

-- `content.len() >= 2 && …`
abbrev pub has_padding : List ℕ → Bool
has_padding (c₀ ∷ c₁ ∷ _) = zero_padding c₀ c₁ || ones_padding c₀ c₁
has_padding _ = false

unfoldable pub decode_integer : List ℕ → Result IntError ℤ
decode_integer [] = err empty
decode_integer (c₀ ∷ rest) =
    let content = c₀ ∷ rest in
    let neg = bit_and c₀ 0x80 != 0 in
    let seed = if neg then 2 ^ 64 - 1 else 0 in
    if has_padding content
    then err non_minimal
    else if ltb 8 (length content)
    then err too_large
    else ok (as_i64 (shift_in seed content))
