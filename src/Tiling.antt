-- ===== src/Tiling.antt =====
-- What x509_tbs_certificate.rs and x509_certificate.rs repeat for one field after the other. There `off` is the
-- place in `content` that has been reached; here the octets behind it, `content[off..]`, are passed on.
use native.Mathlib.Nat.{sub-zero}
use rs_verified_der.Base.{
  ℕ, ◌≤◌, ◌≡◌, ◌≢◌, refl, ap, sym, ◌∙◌, subst, arith, List, [], ◌++◌, length, length-append,
  take-append, drop, All-split, if◌then◌else◌,
}
use rs_verified_der.Base.Codec.{ContentCodec, Codec, At, IsByte, IsBytes}
use rs_verified_der.Base.Result.{
  Result, ok, err, ◌>>=◌, map_err, slice_from, slice, Ensures, holds, rejected, Ensures-bind,
  Ensures-if, Ensures-map_err,
}
use rs_verified_der.Base.Slices.{slice_from_in, slice_from-append, slice_in}
use rs_verified_der.IntegerField.{is_empty-false}
use rs_verified_der.Tlv.{Tlv, decode_tlv}
use rs_verified_der.Tlv.Decode.{decode_tlv-Ensures, decode_tlv-octets}
use rs_verified_der.Tlv.Error.{TlvError}
use rs_verified_der.Tlv.Octets.{IsTlv, tlv_octets}
use rs_verified_der.Tlv.Field.{is_empty}

-- `if content[off..].is_empty() { return Err(missing); } let (a, used) = read(&content[off..])?; off += used;`
unfoldable pub require :
    {E A : Type 0} → E → (List ℕ → Result E (A × ℕ)) → List ℕ → Result E (A × List ℕ)
require missing read rest =
    if is_empty rest
    then err missing
    else do (a, used) ← read rest; rest' ← slice_from rest used; ok (a, rest')

-- A field whose parser takes exactly the octets of one TLV.
unfoldable pub read_span :
    {E A : Type 0} → (TlvError → E) → (List ℕ → Result E A) → List ℕ → Result E (A × ℕ)
read_span bad_tlv parse rest = do
  (_, used) ← map_err bad_tlv (decode_tlv rest)
  span ← slice rest 0 used
  a ← parse span
  ok (a, used)

slice-front :
    {E : Type 0} (rest octets tail : List ℕ) (used : ℕ)
    → used ≡ length octets
    → rest ≡ octets ++ tail
    → slice {E = E} rest 0 used ≡ ok octets
slice-front {E} rest octets tail used size split =
    let within : length octets ≤ length (octets ++ tail) =
      omega (arith, length-append octets tail) in
    rw (size, split)
      (slice_in {E = E} (octets ++ tail) 0 (length octets) (omega arith) within
        ∙ rw sub-zero (ap (λ (v : List ℕ). ok v) (take-append octets tail)))

-- What is left behind a field.
abbrev pub Left : {A : Type 0} → (A → Type 0) → (A → List ℕ) → List ℕ → A × List ℕ → Type 0
Left Is octets rest (a, rest') = Is a × IsBytes rest' × (rest ≡ octets a ++ rest')

-- A codec's value at the front, in the form that passes on what is left.
pub At-Left :
    {A : Type 0} (Is : A → Type 0) (octets : A → List ℕ) (rest : List ℕ) (a : A) (used : ℕ)
    → IsBytes rest
    → At Is octets rest (a, used)
    → (used ≤ length rest) × Left Is octets rest (a, drop used rest)
At-Left Is octets rest a used bytes (h, size, split) = (
  omega (arith, ap (λ (t : List ℕ). length t) split, length-append (octets a) (drop used rest)),
  (h, (All-split IsByte (octets a) (drop used rest) (subst IsBytes split bytes)).1, split),
)

module _ {E A : Type 0} (c : Codec E A) (missing : E) where
  pub require-Ensures :
      (rest : List ℕ)
      → IsBytes rest
      → Ensures (Left c.Is c.octets rest) (require missing c.decode rest)
  unfolding require
  require-Ensures rest bytes =
      Ensures-if (is_empty rest) (λ _. rejected)
        λ _. Ensures-bind (c.sound rest bytes) λ (a, used) at.
          let (within, left) = At-Left c.Is c.octets rest a used bytes at in
          rw (slice_from_in {E = E} rest used within) (holds left)

  pub require-octets :
      (a : A) (rest : List ℕ)
      → c.Is a
      → c.octets a ++ rest ≢ []
      → require missing c.decode (c.octets a ++ rest) ≡ ok (a, rest)
  unfolding require
  require-octets a rest h filled =
      rw
        (
          is_empty-false (c.octets a ++ rest) filled,
          c.complete a rest h,
          slice_from-append {E = E} (c.octets a) rest,
        )
        refl

-- A parser of a whole TLV as the codec of a field.
module _ {E A : Type 0} (bad_tlv : TlvError → E) (c : ContentCodec E A)
    (tlv_of : (a : A) → c.Is a → (t : Tlv) × IsTlv t × (c.octets a ≡ tlv_octets t)) where
  pub read_span-Ensures :
      (rest : List ℕ)
      → IsBytes rest
      → Ensures (At c.Is c.octets rest) (read_span bad_tlv c.parse rest)
  unfolding read_span
  read_span-Ensures rest bytes =
      Ensures-bind (Ensures-map_err bad_tlv (decode_tlv-Ensures rest bytes))
        λ (t, used) (h, size, split).
          let span =
            (All-split IsByte (tlv_octets t) (drop used rest) (subst IsBytes split bytes)).0 in
          rw (slice-front {E = E} rest (tlv_octets t) (drop used rest) used size split) (
            Ensures-bind (c.sound (tlv_octets t) span) λ a (good, same). holds (
              good,
              size ∙ ap (λ (v : List ℕ). length v) same,
              split ∙ ap (λ v. v ++ drop used rest) same,
            ))

  pub read_span-octets :
      (a : A) (rest : List ℕ)
      → c.Is a
      → read_span bad_tlv c.parse (c.octets a ++ rest) ≡ ok (a, length (c.octets a))
  unfolding read_span
  read_span-octets a rest good =
      let (t, h, same) = tlv_of a good in
      let read : decode_tlv (c.octets a ++ rest) ≡ ok (t, length (c.octets a)) =
        ap (λ v. decode_tlv (v ++ rest)) same
        ∙ decode_tlv-octets t rest h
        ∙ ap (λ v. ok (t, length v)) (sym same) in
      rw
        (
          read,
          slice-front {E = E} (c.octets a ++ rest) (c.octets a) rest (length (c.octets a)) refl
              refl,
          c.complete a good,
        )
        refl

  abbrev pub span_codec : Codec E A
  span_codec = record {
    decode = read_span bad_tlv c.parse;
    Is = c.Is;
    octets = c.octets;
    sound = read_span-Ensures;
    complete = read_span-octets;
  }
