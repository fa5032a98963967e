-- ===== src/RestrictedString.antt =====
-- der-verified/src/restricted_string.rs: the four restricted string types, by their character sets.
pub mod Allowed
use rs_verified_der.Base.{
  ℕ, ◌+◌, Bool, true, false, not, ◌&&◌, ◌||◌, List, [], ◌∷◌, bit_and, leb, ◌==◌, if◌then◌else◌,
}
use rs_verified_der.Base.Result.{Result, ok, err, panic, ◌>>=◌, map_err}
use rs_verified_der.Digits.{is_ascii_digit}
use rs_verified_der.Tlv.{decode_tlv, encode_tlv_into}
use rs_verified_der.Tlv.Error.{TlvError}
use rs_verified_der.Tlv.Typed.{universal_tag, not_universal}

pub data Charset : Type 0 where
  printable ia5 numeric visible : Charset

abbrev pub is_ia5 : Charset → Bool
is_ia5 ia5 = true
is_ia5 _ = false

abbrev pub tag_number : Charset → ℕ
tag_number printable = 19
tag_number ia5 = 22
tag_number numeric = 18
tag_number visible = 26

abbrev pub identifier : Charset → ℕ
identifier printable = 0x13
identifier ia5 = 0x16
identifier numeric = 0x12
identifier visible = 0x1a

-- Rust's `is_ascii_alphanumeric`.
abbrev pub is_ascii_alphanumeric : ℕ → Bool
is_ascii_alphanumeric b =
    is_ascii_digit b || (leb 0x41 b && leb b 0x5a) || (leb 0x61 b && leb b 0x7a)

unfoldable pub contains : Charset → ℕ → Bool
contains printable b =
    is_ascii_alphanumeric b
    || b == 0x20
    || (b == 0x27
        || b == 0x28
        || b == 0x29
        || b == 0x2b
        || b == 0x2c
        || b == 0x2d
        || b == 0x2e
        || b == 0x2f
        || b == 0x3a
        || b == 0x3d
        || b == 0x3f)
contains ia5 b = bit_and b 0x80 == 0
contains numeric b = is_ascii_digit b || b == 0x20
contains visible b = leb 0x20 b && leb b 0x7e

pub data StringError : Type 0 where
  tlv : TlvError → StringError
  wrong_tag constructed : StringError
  out_of_charset : (position byte : ℕ) → StringError
  ia5_escape : (position : ℕ) → StringError

-- The loop, at position `i`, with the octets that are left.
unfoldable pub scan : ℕ → List ℕ → Charset → Result StringError (Unit {0})
scan i [] charset = ok tt
scan i (b ∷ rest) charset =
    let more = scan (i + 1) rest charset in
    if not (contains charset b)
    then err (out_of_charset i b)
    else if is_ia5 charset && b == 0x1b
    then err (ia5_escape i)
    else more

unfoldable pub validate_content : List ℕ → Charset → Result StringError (Unit {0})
validate_content content charset = scan 0 content charset

unfoldable pub decode_restricted_string : List ℕ → Charset → Result StringError (List ℕ × ℕ)
decode_restricted_string input charset = do
  (t, used) ← map_err tlv (decode_tlv input)
  if not_universal t (tag_number charset)
      then err wrong_tag
      else if t.tag.constructed
      then err constructed
      else do _ ← validate_content t.value charset; ok (t.value, used)

-- `if validate_content(..).is_err() { return None; }`
abbrev pub none_if_err : {E A : Type 0} → Result E A → Result (Unit {0}) A
none_if_err r = map_err (λ _. tt) r

unfoldable pub encode_restricted_string_into :
    List ℕ → Charset → List ℕ → Result (Unit {0}) (ℕ × List ℕ)
encode_restricted_string_into content charset out = do
  _ ← none_if_err (validate_content content charset)
  encode_tlv_into (universal_tag false (tag_number charset)) content out

abbrev pub decode_printable_string : List ℕ → Result StringError (List ℕ × ℕ)
decode_printable_string input = decode_restricted_string input printable

abbrev pub decode_ia5_string : List ℕ → Result StringError (List ℕ × ℕ)
decode_ia5_string input = decode_restricted_string input ia5

abbrev pub decode_numeric_string : List ℕ → Result StringError (List ℕ × ℕ)
decode_numeric_string input = decode_restricted_string input numeric

abbrev pub decode_visible_string : List ℕ → Result StringError (List ℕ × ℕ)
decode_visible_string input = decode_restricted_string input visible

abbrev pub encode_printable_string_into : List ℕ → List ℕ → Result (Unit {0}) (ℕ × List ℕ)
encode_printable_string_into content out = encode_restricted_string_into content printable out

abbrev pub encode_ia5_string_into : List ℕ → List ℕ → Result (Unit {0}) (ℕ × List ℕ)
encode_ia5_string_into content out = encode_restricted_string_into content ia5 out

abbrev pub encode_numeric_string_into : List ℕ → List ℕ → Result (Unit {0}) (ℕ × List ℕ)
encode_numeric_string_into content out = encode_restricted_string_into content numeric out

abbrev pub encode_visible_string_into : List ℕ → List ℕ → Result (Unit {0}) (ℕ × List ℕ)
encode_visible_string_into content out = encode_restricted_string_into content visible out
