-- ===== src/SetOf.antt =====
-- der-verified/src/set_of.rs: SET OF, whose children stand in the order of their padded encodings.
pub mod Padded
pub mod Children
pub mod Walk
pub mod Envelope
use Prim.Native.Nat.{compare, Ordering}
use rs_verified_der.Base.{
  ℕ, zero, suc, ◌+◌, ◌-◌, Bool, true, false, not, List, [], ◌∷◌, Option, none, some, length, ◌!=◌,
  if◌then◌else◌,
}
use rs_verified_der.Base.Result.{Result, ok, err, panic, ◌>>=◌, map_err, slice}
use rs_verified_der.Sequence.{Elements, elements, remaining, child, malformed, next}
use rs_verified_der.Tlv.{decode_tlv, encode_tlv_into}
use rs_verified_der.Tlv.Error.{TlvError}
use rs_verified_der.Tlv.Typed.{universal_tag, not_universal}

abbrev pub tag : ℕ
tag = 17

pub data SetOfError : Type 0 where
  tlv : TlvError → SetOfError
  wrong_tag not_constructed : SetOfError
  element : TlvError → SetOfError
  unsorted : ℕ → SetOfError
  trailing_data : SetOfError

-- The loop over the tail of the longer encoding: is an octet of it not 0?
unfoldable pub has_nonzero : List ℕ → Bool
has_nonzero [] = false
has_nonzero (x ∷ xs) = let rest = has_nonzero xs in if x != 0 then true else rest

-- The lists are what the loop over the shared prefix has not reached.
unfoldable pub cmp_padded : List ℕ → List ℕ → Ordering
unfolding has_nonzero
cmp_padded (x ∷ a) (y ∷ b) = let rest = cmp_padded a b in if x != y then compare x y else rest
cmp_padded [] [] = Ordering.eq
cmp_padded (x ∷ a) [] = if has_nonzero (x ∷ a) then Ordering.gt else Ordering.eq
cmp_padded [] (y ∷ b) = if has_nonzero (y ∷ b) then Ordering.lt else Ordering.eq

abbrev pub is_gt : Ordering → Bool
is_gt Ordering.gt = true
is_gt _ = false

-- `if let Some(p) = prev { if cmp_padded(p, this) == Ordering::Greater { … } }`
abbrev pub out_of_order : Option (List ℕ) → List ℕ → Bool
out_of_order none this = false
out_of_order (some p) this = is_gt (cmp_padded p this)

-- The loop of `decode_set_of` on fuel. Running out of it counts as a panic.
unfoldable pub walk : ℕ → Elements → ℕ → Option (List ℕ) → Result SetOfError ℕ
walk zero e count prev = panic
walk (suc fuel) e count prev = do
  (item, e') ← next e
  elim item [
    | none ↦ ok count
    | some (malformed x) ↦ err (element x)
    | some (child _) ↦
        slice (remaining e) 0 (length (remaining e) - length (remaining e')) >>= λ this.
        let rest = walk fuel e' (count + 1) (some this) in
        if out_of_order prev this then err (unsorted (count - 1)) else rest
  ]

unfoldable pub decode_set_of : List ℕ → Result SetOfError ℕ
decode_set_of content = walk (suc (length content)) (elements content) 0 none

unfoldable pub decode_set_of_tlv : List ℕ → Result SetOfError (List ℕ × ℕ)
decode_set_of_tlv input = do
  (t, used) ← map_err tlv (decode_tlv input)
  let accept = do count ← decode_set_of t.value; ok (t.value, used)
  if not_universal t tag
      then err wrong_tag
      else if not t.tag.constructed
      then err not_constructed
      else accept

unfoldable pub decode_set_of_tlv_strict : List ℕ → Result SetOfError (List ℕ)
decode_set_of_tlv_strict input = do
  (content, used) ← decode_set_of_tlv input
  if used != length input then err trailing_data else ok content

unfoldable pub encode_set_of_into : List ℕ → List ℕ → Result (Unit {0}) (ℕ × List ℕ)
encode_set_of_into children_content out =
    encode_tlv_into (universal_tag true tag) children_content out
