-- ===== src/Length.antt =====
-- der-verified/src/length.rs: the definite-length field. A `u32` is a number below `2 ^ 32`; a
-- buffer `[u8; 5]` is a list of five numbers, which the code fills by `store`.
pub mod Octets
pub mod Decode
use rs_verified_der.Base.{
  ℕ, zero, suc, ◌+◌, ◌-◌, ◌*◌, ◌/◌, ◌%◌, ◌^◌, bit_and, bit_or, List, [], ◌∷◌, length, replicate,
  ltb, ◌==◌, if◌then◌else◌,
}
use rs_verified_der.Base.Result.{Result, ok, err, panic, ◌>>=◌, index, slice, store}

pub data LengthError : Type 0 where
  truncated indefinite reserved non_minimal too_large : LengthError

-- `len.to_be_bytes()`
abbrev pub to_be_bytes : ℕ → List ℕ
to_be_bytes len = len / 0x1000000 % 256 ∷ len / 0x10000 % 256 ∷ len / 0x100 % 256 ∷ len % 256 ∷ []

-- `while lead < 4 && be[lead] == 0 { lead += 1; }`: the list is what is left of `be` at `lead`.
unfoldable pub leading_zeros : List ℕ → ℕ
leading_zeros [] = 0
leading_zeros (b ∷ be) = let more = leading_zeros be in if b == 0 then suc more else 0

-- `while i < n { out[1 + i] = be[lead + i]; i += 1; }`, with the `n - i` rounds left first.
unfoldable pub copy_octets : {E : Type 0} → ℕ → ℕ → List ℕ → ℕ → List ℕ → Result E (List ℕ)
copy_octets zero i be lead out = ok out
copy_octets (suc left) i be lead out = do
  octet ← index be (lead + i)
  out' ← store out (1 + i) octet
  copy_octets left (i + 1) be lead out'

unfoldable pub encode_length : {E : Type 0} → ℕ → Result E (List ℕ × ℕ)
unfolding leading_zeros copy_octets
encode_length len =
    let out = replicate 5 0 in
    let be = to_be_bytes len in
    let lead = leading_zeros be in
    let n = 4 - lead in
    let long = do
      out' ← store out 0 (bit_or 0x80 (n % 256))
      out'' ← copy_octets n 0 be lead out'
      ok (out'', 1 + n)
    in if ltb len 0x80 then (do out' ← store out 0 (len % 256); ok (out', 1)) else long

-- `while i < n { val = (val << 8) | octets[i] as u32; i += 1; }`, over the `n` octets.
unfoldable pub shift_in : ℕ → List ℕ → ℕ
shift_in val [] = val
shift_in val (octet ∷ octets) = shift_in (bit_or (val * 2 ^ 8 % 2 ^ 32) octet) octets

-- The part of `decode_length` behind the initial octet, which announces `n` octets.
unfoldable pub decode_long : ℕ → List ℕ → Result LengthError (ℕ × ℕ)
unfolding shift_in
decode_long n input = if ltb (length input) (1 + n) then err truncated else do
  octets ← slice input 1 (1 + n)
  octet₀ ← index octets 0
  let val = shift_in 0 octets
  if octet₀ == 0
      then err non_minimal
      else if ltb 4 n
      then err too_large
      else if ltb val 0x80
      then err non_minimal
      else ok (val, 1 + n)

unfoldable pub decode_length : List ℕ → Result LengthError (ℕ × ℕ)
decode_length [] = err truncated
decode_length (first ∷ rest) =
    if ltb first 0x80
    then ok (first, 1)
    else if first == 0x80
    then err indefinite
    else if first == 0xff
    then err reserved
    else decode_long (bit_and first 0x7f) (first ∷ rest)
