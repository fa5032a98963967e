-- ===== src/Utf8String.antt =====
-- der-verified/src/utf8_string.rs: well-formed UTF-8 without the five control functions that announce an
-- escape or a shift.
pub mod Scalars
pub mod Round
pub mod Walk
pub mod Text
pub mod Reader
use rs_verified_der.Base.{
  ℕ, zero, suc, ◌+◌, ◌-◌, ◌*◌, ◌^◌, ◌%◌, Bool, true, false, not, ◌&&◌, ◌||◌, List, [], ◌∷◌, Option,
  none, some, length, drop, bit_and, bit_or, leb, ltb, ◌==◌, ◌!=◌, if◌then◌else◌,
}
use rs_verified_der.Base.Result.{Result, ok, err, panic, ◌>>=◌, map_err}
use rs_verified_der.Tlv.{decode_tlv, encode_tlv_into}
use rs_verified_der.Tlv.Error.{TlvError}
use rs_verified_der.Tlv.Typed.{universal_tag, not_universal}

abbrev pub tag : ℕ
tag = 12

pub data Utf8Error : Type 0 where
  tlv : TlvError → Utf8Error
  wrong_tag constructed : Utf8Error
  ill_formed : (position : ℕ) → Utf8Error
  forbidden_control : (position code_point : ℕ) → Utf8Error

unfoldable pub is_forbidden_control : ℕ → Bool
is_forbidden_control cp = cp == 0x0e || cp == 0x0f || cp == 0x1b || cp == 0x8e || cp == 0x8f

unfoldable pub sequence_len : ℕ → Option ℕ
sequence_len b =
    if bit_and b 0x80 == 0x00
    then some 1
    else if bit_and b 0xe0 == 0xc0
    then some 2
    else if bit_and b 0xf0 == 0xe0
    then some 3
    else if bit_and b 0xf8 == 0xf0
    then some 4
    else none

-- `if forbidden.is_none() && is_forbidden_control(cp) { forbidden = Some((i, cp)); }`
abbrev pub note : Option (ℕ × ℕ) → ℕ → ℕ → Option (ℕ × ℕ)
note (some seen) i cp = some seen
note none i cp = if is_forbidden_control cp then some (i, cp) else none

-- The first part of the code point, from the leading octet.
abbrev pub lead_bits : ℕ → ℕ → ℕ
lead_bits len lead =
    if len == 2
    then bit_and lead 0x1f
    else if len == 3
    then bit_and lead 0x0f
    else bit_and lead 0x07

abbrev pub min_cp : ℕ → ℕ
min_cp len = if len == 2 then 0x80 else if len == 3 then 0x800 else 0x10000

-- `while k < len { … k += 1; }`, with the rounds and the octets that are left.
unfoldable pub read_continuation : ℕ → List ℕ → ℕ → ℕ → Result Utf8Error ℕ
read_continuation zero after i cp = ok cp
read_continuation (suc left) [] i cp = panic
read_continuation (suc left) (cont ∷ after) i cp =
    let more = read_continuation left after i (bit_or (cp * 2 ^ 6 % 2 ^ 32) (bit_and cont 0x3f)) in
    if bit_and cont 0xc0 != 0x80 then err (ill_formed i) else more

-- Shortest form, no surrogate, within the range of Unicode.
abbrev pub check_code_point : ℕ → ℕ → ℕ → Result Utf8Error ℕ
check_code_point len i cp =
    if ltb cp (min_cp len)
    then err (ill_formed i)
    else if leb 0xd800 cp && leb cp 0xdfff
    then err (ill_formed i)
    else if ltb 0x10ffff cp
    then err (ill_formed i)
    else ok cp

-- The code point of a sequence of two octets or more.
unfoldable pub read_code_point : ℕ → ℕ → List ℕ → ℕ → Result Utf8Error ℕ
read_code_point len lead after i =
    if ltb (suc (length after)) len
    then err (ill_formed i)
    else do cp ← read_continuation (len - 1) after i (lead_bits len lead); check_code_point len i cp

-- The outer loop on fuel, at `i`, with the octets that are left. It gives `forbidden`; running out of
-- fuel counts as a panic.
unfoldable pub walk : ℕ → List ℕ → ℕ → Option (ℕ × ℕ) → Result Utf8Error (Option (ℕ × ℕ))
walk fuel [] i forbidden = ok forbidden
walk zero (lead ∷ after) i forbidden = panic
walk (suc fuel) (lead ∷ after) i forbidden = elim (sequence_len lead) [
  | none ↦ err (ill_formed i)
  | some len ↦
      let next_octet = walk fuel after (i + 1) (note forbidden i lead) in
      if len == 1
      then next_octet
      else (read_code_point len lead after i >>= λ cp.
          walk fuel (drop (len - 1) after) (i + len) (note forbidden i cp))
]

-- The `match forbidden` at the end.
abbrev pub verdict : Option (ℕ × ℕ) → Result Utf8Error (Unit {0})
verdict none = ok tt
verdict (some (position, code_point)) = err (forbidden_control position code_point)

unfoldable pub validate_utf8 : List ℕ → Result Utf8Error (Unit {0})
validate_utf8 content = do forbidden ← walk (length content) content 0 none; verdict forbidden

unfoldable pub decode_utf8_string : List ℕ → Result Utf8Error (List ℕ × ℕ)
decode_utf8_string input = do
  (t, used) ← map_err tlv (decode_tlv input)
  if not_universal t tag
      then err wrong_tag
      else if t.tag.constructed
      then err constructed
      else do _ ← validate_utf8 t.value; ok (t.value, used)

unfoldable pub encode_utf8_string_into : List ℕ → List ℕ → Result (Unit {0}) (ℕ × List ℕ)
encode_utf8_string_into content out = do
  _ ← map_err (λ _. tt) (validate_utf8 content)
  encode_tlv_into (universal_tag false tag) content out
