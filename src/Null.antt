-- ===== src/Null.antt =====
-- der-verified/src/null.rs: NULL content, which is empty.
use rs_verified_der.Base.{ℕ, List, [], ◌∷◌}
use rs_verified_der.Base.Result.{Result, ok, err}

abbrev pub tag : ℕ
tag = 5

pub data NullError : Type 0 where
  non_empty : NullError

unfoldable pub decode_null : List ℕ → Result NullError (Unit {0})
decode_null [] = ok tt
decode_null (_ ∷ _) = err non_empty
