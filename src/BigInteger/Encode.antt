-- ===== src/BigInteger/Encode.antt =====
-- `encode_minimal_integer_into` writes the minimal content octets.
use Prim.Native.Nat.add
use rs_verified_der.Base.{
  ℕ, ◌≤◌, ◌≡◌, ◌≢◌, refl, arith, List, [], ◌∷◌, ◌++◌, length, drop, ltb, if◌then◌else◌, Bool-cases,
  inl, inr,
}
use rs_verified_der.Base.Codec.{IsBytes}
use rs_verified_der.Base.Result.{ok, err}
use rs_verified_der.Base.Slices.{copy_from_slice-append}
use rs_verified_der.BigInteger.{strip, validate_integer_content, encode_minimal_integer_into}
use rs_verified_der.BigInteger.Value.{twos_value}
use rs_verified_der.BigInteger.Minimal.{strip-valid, strip-value, strip-length}

encode_strip :
    (content out : List ℕ)
    → content ≢ []
    → encode_minimal_integer_into content out ≡ (
        if ltb (length out) (length (strip content))
        then err tt
        else ok (length (strip content), strip content ++ drop (length (strip content)) out))
unfolding encode_minimal_integer_into
encode_strip [] out h = absurd (h refl)
encode_strip (c ∷ content) out h =
    let minimal = strip (c ∷ content) in
    elim (Bool-cases (ltb (length out) (length minimal))) [
      | inl e ↦ rw e
      | inr e ↦
          let written =
            rw add.zero at (copy_from_slice-append {E = Unit {0}} [] minimal out (ground arith)) in
          rw (e, written)
    ]

-- For bytes, at least one, there is content m, no longer than the given content, that
-- `validate_integer_content` accepts and that has the same two's-complement value, such that
-- `encode_minimal_integer_into` gives `None` if `out` is shorter than m, and else returns the length of m
-- and writes m to the front of `out`, of which it changes nothing more.
pub encode_minimal_integer_into_lem :
    (content out : List ℕ)
    → IsBytes content
    → content ≢ []
    → (m : List ℕ) × (validate_integer_content m ≡ ok tt)
      × (twos_value m ≡ twos_value content)
      × (length m ≤ length content)
      × (encode_minimal_integer_into content out ≡ (
          if ltb (length out) (length m) then err tt else ok (length m, m ++ drop (length m) out)))
encode_minimal_integer_into_lem content out bytes h = (
  strip content,
  strip-valid content h,
  strip-value content bytes,
  strip-length content,
  encode_strip content out h,
)
