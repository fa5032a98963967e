-- ===== src/Sequence/Fields.antt =====
-- A parser of the fields of a SEQUENCE, inside its envelope.
use rs_verified_der.Base.{
  ℕ, ◌≡◌, ◌↔◌, refl, ap, sym, ◌∙◌, subst, arith, List, [], ◌++◌, append-nil, length, drop, true,
  ◌!=◌,
}
use rs_verified_der.Base.Codec.{split-whole, At, IsBytes, ContentCodec}
use rs_verified_der.Base.Result.{
  Result, ok, ◌>>=◌, map_err, Ensures, holds, Ensures-ok, Ensures-bind, Ensures-if, rejected,
  Ensures-weaken, Ensures-map_err,
}
use rs_verified_der.Sequence.{SequenceError, tag, decode_sequence_tlv, decode_sequence_tlv_strict}
use rs_verified_der.Sequence.Envelope.{
  sequence_octets, decode_sequence_tlv-Ensures, decode_sequence_tlv-octets,
}
use rs_verified_der.Tlv.Typed.{universal_tag, wrap, Fits, At-IsBytes}

pub sequence-IsBytes :
    (input content : List ℕ) (k : ℕ)
    → IsBytes input
    → At Fits sequence_octets input (content, k)
    → IsBytes content
sequence-IsBytes input content k bytes (fits, size, split) =
    (At-IsBytes input (wrap (universal_tag true tag) content) k bytes
      ((omega arith, fits), size, split)).0

pub strict-Ensures :
    (input : List ℕ)
    → IsBytes input
    → Ensures
        (λ content. IsBytes content × Fits content × (input ≡ sequence_octets content))
        (decode_sequence_tlv_strict input)
unfolding decode_sequence_tlv_strict
strict-Ensures input bytes =
    Ensures-bind (decode_sequence_tlv-Ensures input bytes) λ (content, k) at.
      Ensures-if (k != length input) (λ _. rejected)
        λ all.
          let (fits, size, split) = at in
          holds (
            sequence-IsBytes input content k bytes at,
            fits,
            split-whole input (sequence_octets content) k (ground arith) split,
          )

pub strict-octets :
    (content : List ℕ)
    → Fits content
    → decode_sequence_tlv_strict (sequence_octets content) ≡ ok content
unfolding decode_sequence_tlv_strict
strict-octets content fits =
    let read : decode_sequence_tlv (sequence_octets content)
        ≡ ok (content, length (sequence_octets content)) =
      ap decode_sequence_tlv (sym (append-nil (sequence_octets content)))
      ∙ decode_sequence_tlv-octets content [] fits in
    rw read (ground arith)

module _ {E R : Type 0} (bad : SequenceError → E) (c : ContentCodec E R) where
  abbrev pub parse_prefix : List ℕ → Result E (R × ℕ)
  parse_prefix input = do
    (content, used) ← map_err bad (decode_sequence_tlv input)
    r ← c.parse content
    ok (r, used)

  abbrev pub parse_whole : List ℕ → Result E R
  parse_whole input = do content ← map_err bad (decode_sequence_tlv_strict input); c.parse content

  abbrev pub IsSequenceOf : R → Type 0
  IsSequenceOf r = c.Is r × Fits (c.octets r)

  abbrev pub octets_in_sequence : R → List ℕ
  octets_in_sequence r = sequence_octets (c.octets r)

  pub parse_prefix-Ensures :
      (input : List ℕ)
      → IsBytes input
      → Ensures (At IsSequenceOf octets_in_sequence input) (parse_prefix input)
  parse_prefix-Ensures input bytes =
      Ensures-bind (Ensures-map_err bad (decode_sequence_tlv-Ensures input bytes))
        λ (content, k) at.
          Ensures-bind (c.sound content (sequence-IsBytes input content k bytes at)) λ r (h, e).
            let (fits, size, split) = at in
            holds (
              (h, subst Fits e fits),
              size ∙ ap (λ t. length (sequence_octets t)) e,
              split ∙ ap (λ t. sequence_octets t ++ drop k input) e,
            )

  pub parse_prefix-octets :
      (r : R) (rest : List ℕ)
      → IsSequenceOf r
      → parse_prefix (octets_in_sequence r ++ rest) ≡ ok (r, length (octets_in_sequence r))
  parse_prefix-octets r rest (h, fits) =
      rw (decode_sequence_tlv-octets (c.octets r) rest fits, c.complete r h) refl

  pub parse_whole-Ensures :
      (input : List ℕ)
      → IsBytes input
      → Ensures (λ r. IsSequenceOf r × (input ≡ octets_in_sequence r)) (parse_whole input)
  parse_whole-Ensures input bytes =
      Ensures-bind (Ensures-map_err bad (strict-Ensures input bytes))
        λ content (behind, fits, split).
          Ensures-weaken (λ r (h, e). ((h, subst Fits e fits), split ∙ ap sequence_octets e))
            (c.sound content behind)

  pub parse_whole-octets : (r : R) → IsSequenceOf r → parse_whole (octets_in_sequence r) ≡ ok r
  parse_whole-octets r (h, fits) = rw (strict-octets (c.octets r) fits) (c.complete r h)

  pub parse_whole_iff :
      (input : List ℕ) (r : R)
      → IsBytes input
      → (parse_whole input ≡ ok r) ↔ (IsSequenceOf r × (input ≡ octets_in_sequence r))
  parse_whole_iff input r bytes = (
    Ensures-ok (parse_whole-Ensures input bytes),
    λ (h, split). ap parse_whole split ∙ parse_whole-octets r h,
  )
