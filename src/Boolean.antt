-- ===== src/Boolean.antt =====
-- der-verified/src/boolean.rs: BOOLEAN content, one canonical octet.
use rs_verified_der.Base.{
  ℕ, ◌≡◌, ◌≢◌, ◌↔◌, refl, arith, Bool, true, false, List, [], ◌∷◌, if◌then◌else◌, ◌==◌,
}
use rs_verified_der.Base.Result.{Result, ok, err, panic}

abbrev pub tag : ℕ
tag = 1

pub data BoolError : Type 0 where
  bad_length non_canonical : BoolError

unfoldable pub encode_bool : Bool → ℕ
encode_bool v = if v then 0xFF else 0x00

unfoldable pub decode_bool : List ℕ → Result BoolError Bool
decode_bool (c ∷ []) =
    if c == 0x00 then ok false else if c == 0xFF then ok true else err non_canonical
decode_bool _ = err bad_length

decode-encode : (v : Bool) → decode_bool (encode_bool v ∷ []) ≡ ok v
unfolding decode_bool encode_bool
decode-encode true = refl
decode-encode false = refl

encode-decode :
    (content : List ℕ) (v : Bool) → decode_bool content ≡ ok v → content ≡ encode_bool v ∷ []
unfolding decode_bool encode_bool
encode-decode [] v h = ground arith
encode-decode (c ∷ []) true h = ground arith
encode-decode (c ∷ []) false h = ground arith
encode-decode (c ∷ d ∷ content) v h = ground arith

pub decode_bool-ne-panic : (content : List ℕ) → decode_bool content ≢ panic
unfolding decode_bool
decode_bool-ne-panic [] h = cc
decode_bool-ne-panic (c ∷ []) h = ground arith
decode_bool-ne-panic (c ∷ d ∷ content) h = cc

-- `decode_bool` returns v exactly on the one octet that `encode_bool` gives for v.
pub decode_bool_iff :
    (content : List ℕ) (v : Bool) → (decode_bool content ≡ ok v) ↔ (content ≡ encode_bool v ∷ [])
decode_bool_iff content v = (encode-decode content v, λ e. rw e (decode-encode v))
