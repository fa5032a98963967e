-- ===== src/Tag.antt =====
-- der-verified/src/tag.rs: the identifier octets.
pub mod Octets
pub mod Decode
pub mod Complete
use rs_verified_der.Base.{
  ℕ, zero, suc, ◌+◌, ◌-◌, ◌*◌, ◌/◌, ◌%◌, ◌^◌, bit_and, bit_or, Bool, true, false, not, ◌&&◌, List,
  [], ◌∷◌, replicate, ltb, leb, ◌==◌, ◌!=◌, if◌then◌else◌,
}
use rs_verified_der.Base.Result.{Result, ok, err, panic, ◌>>=◌, store}

pub data Class : Type 0 where
  universal application context_specific private : Class

pub record Tag : Type 0 where
  pub class : Class
  pub constructed : Bool
  pub number : ℕ

pub data TagError : Type 0 where
  truncated non_minimal too_large : TagError

-- The derived `PartialEq`.
abbrev pub class_eq : Class → Class → Bool
class_eq universal universal = true
class_eq application application = true
class_eq context_specific context_specific = true
class_eq private private = true
class_eq _ _ = false

abbrev pub class_bits : Class → ℕ
class_bits universal = 0
class_bits application = 1
class_bits context_specific = 2
class_bits private = 3

-- `while t > 0 { ndig += 1; t >>= 7; }` on fuel: a `u32` that was shifted once has 4 digits at most.
unfoldable pub count_digits : ℕ → ℕ → ℕ → ℕ
count_digits zero t ndig = ndig
count_digits (suc fuel) t ndig =
    let more = count_digits fuel (t / 2 ^ 7) (ndig + 1) in if ltb 0 t then more else ndig

-- `while i < ndig { … out[1 + i] = byte; i += 1; }`, with the `ndig - i` rounds left first.
unfoldable pub emit_digits : {E : Type 0} → ℕ → ℕ → ℕ → ℕ → List ℕ → Result E (List ℕ)
emit_digits zero i ndig number out = ok out
emit_digits (suc left) i ndig number out = do
  let shift = 7 * (ndig - 1 - i)
  let byte = bit_and (number / 2 ^ shift) 0x7f % 256
  out' ← store out (1 + i) (if i != (ndig - 1) then bit_or byte 0x80 else byte)
  emit_digits left (i + 1) ndig number out'

unfoldable pub encode_tag : {E : Type 0} → Tag → Result E (List ℕ × ℕ)
encode_tag tag =
    let out = replicate 6 0 in
    let cc = bit_or (class_bits tag.class * 2 ^ 6 % 256) (if tag.constructed then 0x20 else 0) in
    let ndig = count_digits 5 (tag.number / 2 ^ 7) 1 in
    let high = do
      out' ← store out 0 (bit_or cc 0x1f)
      out'' ← emit_digits ndig 0 ndig tag.number out'
      ok (out'', 1 + ndig)
    in if leb tag.number 30
      then (do out' ← store out 0 (bit_or cc (tag.number % 256)); ok (out', 1))
      else high

abbrev pub u32_max : ℕ
u32_max = 0xffff_ffff

-- The loop over the continuation octets; the list is what is left of `input` at `i`.
unfoldable pub read_number : List ℕ → ℕ → ℕ → ℕ → Result TagError (ℕ × ℕ)
read_number [] number i count = err truncated
read_number (byte ∷ rest) number i count =
    let number' = bit_or (number * 2 ^ 7 % 2 ^ 32) (bit_and byte 0x7f) in
    let more = read_number rest number' (i + 1) (count + 1) in
    if count == 0 && byte == 0x80
    then err non_minimal
    else if ltb (u32_max / 2 ^ 7) number
    then err too_large
    else if bit_and byte 0x80 == 0
    then ok (number', i + 1)
    else more

-- `match first >> 6`
abbrev pub class_of : ℕ → Class
class_of bits =
    if bits == 0
    then universal
    else if bits == 1
    then application
    else if bits == 2
    then context_specific
    else private

unfoldable pub decode_tag : List ℕ → Result TagError (Tag × ℕ)
decode_tag [] = err truncated
decode_tag (first ∷ rest) =
    let class = class_of (first / 2 ^ 6) in
    let constructed = bit_and first 0x20 != 0 in
    let high = do
      (number, i) ← read_number rest 0 1 0
      if leb number 30
          then err non_minimal
          else ok (record { class = class; constructed = constructed; number = number }, i)
    in if bit_and first 0x1f != 0x1f
      then ok (record { class = class; constructed = constructed; number = bit_and first 0x1f }, 1)
      else high
