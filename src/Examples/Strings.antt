-- ===== src/Examples/Strings.antt =====
-- The string types.
use rs_verified_der.Base.{ℕ, ◌≡◌, ◌↔◌, arith, List, [], ◌∷◌, ◌++◌, All, length}
use rs_verified_der.Base.Codec.{At}
use rs_verified_der.Base.Result.{ok, err}
use rs_verified_der.RestrictedString.{printable, decode_restricted_string}
use rs_verified_der.RestrictedString.Allowed.{IsString, string_octets, decode_restricted_string_iff}
use rs_verified_der.Utf8String.{ill_formed, forbidden_control, validate_utf8}
use rs_verified_der.Utf8String.Text.{
  IsPlain, BreaksOff, validate_utf8_iff, validate_utf8_ill_formed, validate_utf8_control,
}
use rs_verified_der.Utf8String.Scalars.{text_octets}

-- The letter A and U+00E9, in two octets.
abbrev text : List ℕ
text = 0x41 ∷ 0xc3 ∷ 0xa9 ∷ []

validate_utf8_iff_example :
    (validate_utf8 text ≡ ok tt) ↔ ((cps : List ℕ) × All IsPlain cps × (text ≡ text_octets cps))
validate_utf8_iff_example = validate_utf8_iff text (omega arith)

-- ESC behind the letter A.
validate_utf8_control_example :
    validate_utf8 (text_octets (0x41 ∷ 0x1b ∷ []))
    ≡ err (forbidden_control (length (text_octets (0x41 ∷ []))) 0x1b)
validate_utf8_control_example =
    validate_utf8_control (0x41 ∷ []) 0x1b [] (ground arith) (ground arith) (ground arith)

-- The octet FF, which no encoding begins with.
abbrev stray : List ℕ
stray = 0xff ∷ []

stray-BreaksOff : BreaksOff stray
stray-BreaksOff = (λ e. ground arith, λ (cp, rest, scalar, e). ground arith)

validate_utf8_ill_formed_example :
    validate_utf8 (text_octets (0x41 ∷ []) ++ stray)
    ≡ err (ill_formed (length (text_octets (0x41 ∷ []))))
validate_utf8_ill_formed_example =
    validate_utf8_ill_formed (0x41 ∷ []) stray (ground arith) (omega arith) stray-BreaksOff

decode_restricted_string_iff_example :
    (decode_restricted_string (0x13 ∷ 0x02 ∷ 0x48 ∷ 0x69 ∷ []) printable ≡ ok (0x48 ∷ 0x69 ∷ [], 4))
    ↔ At
        (IsString printable)
        (string_octets printable)
        (0x13 ∷ 0x02 ∷ 0x48 ∷ 0x69 ∷ [])
        (0x48 ∷ 0x69 ∷ [], 4)
decode_restricted_string_iff_example =
    decode_restricted_string_iff (0x13 ∷ 0x02 ∷ 0x48 ∷ 0x69 ∷ []) (0x48 ∷ 0x69 ∷ []) 4 printable
      (omega arith)
