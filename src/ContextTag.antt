-- ===== src/ContextTag.antt =====
-- der-verified/src/context_tag.rs: an EXPLICIT `[n]` wrapper, a constructed context-specific TLV whose
-- contents the caller decodes.
use rs_verified_der.Base.{
  ℕ, ◌≤◌, ◌≡◌, ◌↔◌, arith, List, ◌++◌, length, true, not, ◌!=◌, if◌then◌else◌,
}
use rs_verified_der.Base.Result.{
  Result, ok, err, ◌>>=◌, map_err, Ensures, holds, rejected, Ensures-bind, Ensures-if,
  Ensures-map_err,
}
use rs_verified_der.Base.Codec
use rs_verified_der.Base.Codec.{Codec, At, IsBytes}
use rs_verified_der.Tag.{Tag, context_specific, class_eq, u32_max}
use rs_verified_der.Tlv.{decode_tlv}
use rs_verified_der.Tlv.Error.{TlvError}
use rs_verified_der.Tlv.Decode.{decode_tlv-Ensures, decode_tlv-octets}
use rs_verified_der.Tlv.Typed.{wrap, wrap_octets, wrapped, Fits, At-wrapped}

pub data ContextTagError : Type 0 where
  bad_tlv : TlvError → ContextTagError
  wrong_class wrong_number not_constructed : ContextTagError

unfoldable pub decode_explicit_context : ℕ → List ℕ → Result ContextTagError (List ℕ × ℕ)
decode_explicit_context expected_number input = do
  (tlv, used) ← map_err bad_tlv (decode_tlv input)
  if not (class_eq tlv.tag.class context_specific)
      then err wrong_class
      else if tlv.tag.number != expected_number
      then err wrong_number
      else if not tlv.tag.constructed
      then err not_constructed
      else ok (tlv.value, used)

abbrev pub context_tag : ℕ → Tag
context_tag n = record { class = context_specific; constructed = true; number = n }

-- The wrapper `[n]` around `content`.
abbrev pub explicit_octets : ℕ → List ℕ → List ℕ
explicit_octets n = wrap_octets (context_tag n)

pub decode_explicit_context-Ensures :
    (n : ℕ) (input : List ℕ)
    → IsBytes input
    → Ensures (At Fits (explicit_octets n) input) (decode_explicit_context n input)
unfolding decode_explicit_context
decode_explicit_context-Ensures n input bytes =
    Ensures-bind (Ensures-map_err bad_tlv (decode_tlv-Ensures input bytes)) λ (t, k) at.
      Ensures-if (not (class_eq t.tag.class context_specific)) (λ _. rejected)
        λ class.
          Ensures-if (t.tag.number != n) (λ _. rejected)
            λ number.
              Ensures-if (not t.tag.constructed) (λ _. rejected)
                λ form. holds (
                  At-wrapped input t k (context_tag n) at (
                    wrapped t context_specific true n (ground arith) (ground arith) (ground arith)))

pub decode_explicit_context-octets :
    (n : ℕ) (content rest : List ℕ)
    → n ≤ u32_max
    → Fits content
    → decode_explicit_context n (explicit_octets n content ++ rest)
      ≡ ok (content, length (explicit_octets n content))
unfolding decode_explicit_context
decode_explicit_context-octets n content rest small fits =
    rw (decode_tlv-octets (wrap (context_tag n) content) rest (omega arith, fits)) (ground arith)

-- `[n]` is a codec for every tag number that a `u32` holds.
abbrev explicit_codec : (n : ℕ) → n ≤ u32_max → Codec ContextTagError (List ℕ)
explicit_codec n small = record {
  decode = decode_explicit_context n;
  Is = Fits;
  octets = explicit_octets n;
  sound = decode_explicit_context-Ensures n;
  complete = λ content rest fits. decode_explicit_context-octets n content rest small fits;
}

-- On bytes, for a tag number n that fits a `u32`, `decode_explicit_context n` returns `(content, k)`
-- exactly when the input begins with the constructed context-specific TLV `[n]` around `content`, of
-- k octets, and `content` has fewer than 2 ^ 32 octets. It does not look into `content`.
pub decode_explicit_context_iff :
    (n : ℕ) (input content : List ℕ) (k : ℕ)
    → n ≤ u32_max
    → IsBytes input
    → (decode_explicit_context n input ≡ ok (content, k))
      ↔ At Fits (explicit_octets n) input (content, k)
decode_explicit_context_iff n input content k small bytes =
    Codec.decode_iff (explicit_codec n small) input content k bytes
