-- ===== src/Enumerated.antt =====
-- der-verified/src/enumerated.rs: ENUMERATED content, which is INTEGER content.
use rs_verified_der.Base.{ℕ, List}
use rs_verified_der.Base.Int.{ℤ}
use rs_verified_der.Base.Result.{Result}
use rs_verified_der.Integer.{IntError, decode_integer, encode_integer}

abbrev pub tag : ℕ
tag = 10

abbrev pub decode_enumerated : List ℕ → Result IntError ℤ
decode_enumerated content = decode_integer content

abbrev pub encode_enumerated : {E : Type 0} → ℤ → Result E (List ℕ × ℕ)
encode_enumerated v = encode_integer v
