-- ===== src/Sequence/Envelope.antt =====
-- The SEQUENCE envelope as a reader of the prescribed octets.
use rs_verified_der.Base.{arith, ℕ, ◌≡◌, ◌↔◌, List, ◌++◌, length, true, not}
use rs_verified_der.Base.Result.{ok, Ensures, holds, Ensures-bind, Ensures-map_err}
use rs_verified_der.Base.Codec
use rs_verified_der.Base.Codec.{Codec, At, IsBytes}
use rs_verified_der.Sequence.{
  tag, SequenceError, tlv, wrong_tag, not_constructed, trailing_data, decode_sequence_tlv,
  decode_sequence_tlv_strict,
}
use rs_verified_der.Tlv.Decode.{decode_tlv-Ensures, decode_tlv-octets}
use rs_verified_der.Tlv.Typed.{universal_tag, wrap, wrap_octets, Fits, At-wrapped, typed-Ensures}

abbrev pub sequence_octets : List ℕ → List ℕ
sequence_octets = wrap_octets (universal_tag true tag)

pub decode_sequence_tlv-Ensures :
    (input : List ℕ)
    → IsBytes input
    → Ensures (At Fits sequence_octets input) (decode_sequence_tlv input)
unfolding decode_sequence_tlv
decode_sequence_tlv-Ensures input bytes =
    Ensures-bind (Ensures-map_err tlv (decode_tlv-Ensures input bytes)) λ (t, k) at.
      typed-Ensures _ t tag true (not t.tag.constructed) wrong_tag not_constructed (ok (t.value, k))
        (λ h. ground arith) (λ e. holds (At-wrapped input t k (universal_tag true tag) at e))

pub decode_sequence_tlv-octets :
    (content rest : List ℕ)
    → Fits content
    → decode_sequence_tlv (sequence_octets content ++ rest)
      ≡ ok (content, length (sequence_octets content))
unfolding decode_sequence_tlv
decode_sequence_tlv-octets content rest fits =
    rw (decode_tlv-octets (wrap (universal_tag true tag) content) rest (omega arith, fits))

abbrev pub sequence_codec : Codec SequenceError (List ℕ)
sequence_codec = record {
  decode = decode_sequence_tlv;
  Is = Fits;
  octets = sequence_octets;
  sound = decode_sequence_tlv-Ensures;
  complete = decode_sequence_tlv-octets;
}

-- On bytes, `decode_sequence_tlv_strict` returns `content` exactly when the whole input is the DER encoding
-- of the constructed TLV of tag 16 around `content`, and `content` has fewer than 2 ^ 32 octets.
pub decode_sequence_tlv_strict_iff :
    (input content : List ℕ)
    → IsBytes input
    → (decode_sequence_tlv_strict input ≡ ok content)
      ↔ (Fits content × (input ≡ sequence_octets content))
unfolding decode_sequence_tlv_strict
decode_sequence_tlv_strict_iff = Codec.strict_iff sequence_codec trailing_data
