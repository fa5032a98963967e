-- ===== src/Utf8String/Scalars.antt =====
-- The UTF-8 encoding of RFC 3629, by arithmetic on the scalar value.
use rs_verified_der.Base.{ℕ, ◌+◌, ◌/◌, ◌%◌, ◌<◌, ◌≤◌, ◌⊎◌, List, [], ◌∷◌, ◌++◌, ltb, if◌then◌else◌}

-- A Unicode scalar value: a code point that is no surrogate.
abbrev pub IsScalar : ℕ → Type 0
IsScalar cp = (cp < 0xd800) ⊎ ((0xe000 ≤ cp) × (cp ≤ 0x10ffff))

abbrev pub scalar_octets : ℕ → List ℕ
scalar_octets cp =
    if ltb cp 0x80
    then cp ∷ []
    else if ltb cp 0x800
    then (0xc0 + cp / 0x40) ∷ (0x80 + cp % 0x40) ∷ []
    else if ltb cp 0x10000
    then (0xe0 + cp / 0x1000) ∷ (0x80 + cp / 0x40 % 0x40) ∷ (0x80 + cp % 0x40) ∷ []
    else (0xf0 + cp / 0x40000)
      ∷ (0x80 + cp / 0x1000 % 0x40)
      ∷ (0x80 + cp / 0x40 % 0x40)
      ∷ (0x80 + cp % 0x40)
      ∷ []

unfoldable pub text_octets : List ℕ → List ℕ
text_octets [] = []
text_octets (cp ∷ cps) = scalar_octets cp ++ text_octets cps
