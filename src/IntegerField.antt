-- ===== src/IntegerField.antt =====
-- What the structures of two INTEGER fields share: the octets of an INTEGER TLV and of two of them in
-- a SEQUENCE, and the readers of either.
use rs_verified_der.Base.{
  ℕ, ◌≤◌, ◌≡◌, ◌≢◌, refl, ap, sym, ◌∙◌, subst, arith, false, List, [], ◌∷◌, ◌++◌, append-nil,
  length, drop, length-append, true, ◌!=◌, if◌then◌else◌, All-split,
}
use rs_verified_der.Base.Codec.{split-whole, Codec, IsByte, IsBytes}
use rs_verified_der.Base.Result.{
  Result, ok, err, panic, ◌>>=◌, map_err, slice_from, Ensures, holds, rejected, Ensures-bind,
  Ensures-if, Ensures-map_err,
}
use rs_verified_der.Base.Slices.{slice_from_in, slice_from-append}
use rs_verified_der.BigInteger
use rs_verified_der.BigInteger.{BigIntError, validate_integer_content}
use rs_verified_der.Sequence
use rs_verified_der.Sequence.Envelope.{sequence_octets}
use rs_verified_der.Tag.{Tag}
use rs_verified_der.Tlv.Octets.{tlv_octets_size}
use rs_verified_der.Tlv.Field.{is_empty}
use rs_verified_der.Tlv.Typed.{universal_tag, wrap, wrap_octets, Fits}

-- The content of an INTEGER that a length field can announce.
abbrev pub IsInteger : List ℕ → Type 0
IsInteger content = Fits content × (validate_integer_content content ≡ ok tt)

abbrev pub integer_octets : List ℕ → List ℕ
integer_octets = wrap_octets (universal_tag false BigInteger.tag)

pub validate-ne-panic : (content : List ℕ) → validate_integer_content content ≢ panic
unfolding validate_integer_content
validate-ne-panic [] h = cc
validate-ne-panic (c ∷ []) h = cc
validate-ne-panic (c ∷ d ∷ rest) h = ground arith

-- The encoding of a TLV is never empty.
tagged-ne-nil : (tag : Tag) (content rest : List ℕ) → wrap_octets tag content ++ rest ≢ []
tagged-ne-nil tag content rest e = omega (
  arith,
  ap (λ (t : List ℕ). length t) e,
  length-append (wrap_octets tag content) rest,
  tlv_octets_size (wrap tag content),
)

pub wrapped-ne-nil :
    (number : ℕ) (content rest : List ℕ)
    → wrap_octets (universal_tag false number) content ++ rest ≢ []
wrapped-ne-nil number = tagged-ne-nil (universal_tag false number)

pub sequence-ne-nil : (content rest : List ℕ) → sequence_octets content ++ rest ≢ []
sequence-ne-nil = tagged-ne-nil (universal_tag true Sequence.tag)

pub integer_octets-ne-nil : (content rest : List ℕ) → integer_octets content ++ rest ≢ []
integer_octets-ne-nil = wrapped-ne-nil BigInteger.tag

pub is_empty-false : (xs : List ℕ) → xs ≢ [] → is_empty xs ≡ false
is_empty-false [] h = absurd (h refl)
is_empty-false (x ∷ xs) h = refl

-- Two fields that tile the content of a SEQUENCE.
module _ {E F A G B R : Type 0} (c : Codec F A) (d : Codec G B) (missing₁ missing₂ trailing : E)
    (bad₁ : F → E) (bad₂ : G → E) (mk : A → B → R) where
  abbrev pub two_fields : List ℕ → Result E R
  two_fields content = if is_empty content then err missing₁ else do
    (a, used) ← map_err bad₁ (c.decode content)
    rest ← slice_from content used
    if is_empty rest then err missing₂ else do
      (b, used') ← map_err bad₂ (d.decode rest)
      if used' != length rest then err trailing else ok (mk a b)

  pub two_fields-Ensures :
      (Q : R → Type 0) (content : List ℕ)
      → IsBytes content
      → ((a : A) (b : B) → c.Is a → d.Is b → content ≡ c.octets a ++ d.octets b → Q (mk a b))
      → Ensures Q (two_fields content)
  two_fields-Ensures Q content bytes k =
      Ensures-if (is_empty content) (λ _. rejected)
        λ _.
          Ensures-bind (Ensures-map_err bad₁ (c.sound content bytes)) λ (a, used) (ha, size, split).
            let within : used ≤ length content = omega (
              arith,
              ap (λ (t : List ℕ). length t) split,
              length-append (c.octets a) (drop used content),
            ) in
            rw (slice_from_in {E = E} content used within) (
              Ensures-if (is_empty (drop used content)) (λ _. rejected)
                λ _.
                  Ensures-bind
                    (Ensures-map_err bad₂ (
                      d.sound (drop used content)
                        (All-split IsByte (c.octets a) (drop used content)
                          (subst IsBytes split bytes)).1))
                    λ (b, used') (hb, size', split').
                      Ensures-if (used' != length (drop used content)) (λ _. rejected)
                        λ all. holds (
                          k a b ha hb (
                            split
                            ∙ ap (λ t. c.octets a ++ t)
                                (split-whole (drop used content) (d.octets b) used' (ground arith)
                                  split'))))

  pub two_fields-octets :
      (a : A) (b : B)
      → ((x : A) (rest : List ℕ) → c.octets x ++ rest ≢ [])
      → ((x : B) (rest : List ℕ) → d.octets x ++ rest ≢ [])
      → c.Is a
      → d.Is b
      → two_fields (c.octets a ++ d.octets b) ≡ ok (mk a b)
  two_fields-octets a b filled filled' ha hb =
      let last_filled : d.octets b ≢ [] = λ e. filled' b [] (append-nil (d.octets b) ∙ e) in
      let read_b : d.decode (d.octets b) ≡ ok (b, length (d.octets b)) =
        ap d.decode (sym (append-nil (d.octets b))) ∙ d.complete b [] hb in
      rw
        (
          is_empty-false (c.octets a ++ d.octets b) (filled a (d.octets b)),
          c.complete a (d.octets b) ha,
          slice_from-append {E = E} (c.octets a) (d.octets b),
          is_empty-false (d.octets b) last_filled,
          read_b,
        )
        (ground arith)
