-- ===== src/Sequence.antt =====
-- der-verified/src/sequence.rs: the walk over child TLVs, and the SEQUENCE envelope.
pub mod Children
pub mod Iterator
pub mod Envelope
pub mod Fields
use rs_verified_der.Base.{
  ℕ, zero, suc, ◌+◌, Bool, true, false, not, ◌||◌, List, [], ◌∷◌, Option, none, some, length, ◌!=◌,
  if◌then◌else◌,
}
use rs_verified_der.Base.Result.{Result, ok, err, panic, ◌>>=◌, map_err, slice_from}
use rs_verified_der.Tlv.{Tlv, decode_tlv, encode_tlv_into}
use rs_verified_der.Tlv.Error.{TlvError}
use rs_verified_der.Tlv.Typed.{universal_tag, not_universal}

abbrev pub tag : ℕ
tag = 16

abbrev pub set_tag : ℕ
set_tag = 17

pub data SequenceError : Type 0 where
  element : TlvError → SequenceError
  not_constructed wrong_tag : SequenceError
  tlv : TlvError → SequenceError
  trailing_data : SequenceError

-- The iterator over the children.
pub record Elements : Type 0 where
  pub rest : List ℕ
  pub done : Bool

abbrev pub elements : List ℕ → Elements
elements content = record { rest = content; done = false }

abbrev pub remaining : Elements → List ℕ
remaining e = e.rest

-- `Some(Ok(tlv))` or `Some(Err(e))`.
pub data Item : Type 0 where
  child : Tlv → Item
  malformed : TlvError → Item

is_empty : List ℕ → Bool
is_empty [] = true
is_empty (_ ∷ _) = false

-- What `next` does with the outcome of `decode_tlv` on what is left.
unfoldable pub advance :
    {E : Type 0} → Elements → Result TlvError (Tlv × ℕ) → Result E (Option Item × Elements)
advance e (ok (t, used)) = do
  rest ← slice_from e.rest used
  ok (some (child t), record e { rest = rest })
advance e (err x) = ok (some (malformed x), record e { done = true })
advance e panic = panic

unfoldable pub next : {E : Type 0} → Elements → Result E (Option Item × Elements)
unfolding is_empty advance
next e = if e.done || is_empty e.rest then ok (none, e) else advance e (decode_tlv e.rest)

-- `for child in Elements::new(content) { … count += 1 … }` on fuel. Running out of it counts as a
-- panic, so the theorem that there is none says that the fuel suffices.
unfoldable pub count_children : ℕ → Elements → ℕ → Result SequenceError ℕ
count_children zero e count = panic
count_children (suc fuel) e count = do
  (item, e') ← next e
  elim item [
    | none ↦ ok count
    | some (child _) ↦ count_children fuel e' (count + 1)
    | some (malformed x) ↦ err (element x)
  ]

unfoldable pub decode_sequence : List ℕ → Result SequenceError ℕ
decode_sequence content = count_children (suc (length content)) (elements content) 0

unfoldable pub decode_sequence_tlv : List ℕ → Result SequenceError (List ℕ × ℕ)
decode_sequence_tlv input = do
  (t, used) ← map_err tlv (decode_tlv input)
  if not_universal t tag
      then err wrong_tag
      else if not t.tag.constructed
      then err not_constructed
      else ok (t.value, used)

unfoldable pub decode_sequence_tlv_strict : List ℕ → Result SequenceError (List ℕ)
decode_sequence_tlv_strict input = do
  (content, used) ← decode_sequence_tlv input
  if used != length input then err trailing_data else ok content

unfoldable pub encode_sequence_into : List ℕ → List ℕ → Result (Unit {0}) (ℕ × List ℕ)
encode_sequence_into elements_content out =
    encode_tlv_into (universal_tag true tag) elements_content out
