-- ===== src/SetOf/Envelope.antt =====
-- The SET OF envelope as a reader of the prescribed octets.
use rs_verified_der.Base.{arith, ap, subst, ◌∙◌, ℕ, ◌≡◌, ◌↔◌, List, ◌++◌, length, All, true, not}
use rs_verified_der.Base.Result.{ok, ◌>>=◌, Ensures, holds, Ensures-bind, Ensures-map_err}
use rs_verified_der.Base.Codec
use rs_verified_der.Base.Codec.{Codec, At, IsBytes}
use rs_verified_der.Sequence.Children.{children_octets}
use rs_verified_der.SetOf.{
  tag, SetOfError, tlv, wrong_tag, not_constructed, trailing_data, decode_set_of, decode_set_of_tlv,
  decode_set_of_tlv_strict,
}
use rs_verified_der.SetOf.Children.{Ascending, Chained→Ascending}
use rs_verified_der.SetOf.Walk.{decode_set_of-Ensures, decode_set_of-children}
use rs_verified_der.Tlv.{Tlv}
use rs_verified_der.Tlv.Octets.{IsTlv}
use rs_verified_der.Tlv.Decode.{decode_tlv-Ensures, decode_tlv-octets}
use rs_verified_der.Tlv.Typed.{
  universal_tag, wrap, wrap_octets, Fits, At-wrapped, At-IsBytes, typed-Ensures,
}

abbrev pub set_of_octets : List ℕ → List ℕ
set_of_octets = wrap_octets (universal_tag true tag)

-- The content of a SET OF: the encodings of children in ascending order, which fit the length field.
abbrev pub IsSetOf : List ℕ → Type 0
IsSetOf content =
    Fits content × ((ts : List Tlv) × All IsTlv ts × Ascending ts × (content ≡ children_octets ts))

pub decode_set_of_tlv-Ensures :
    (input : List ℕ)
    → IsBytes input
    → Ensures (At IsSetOf set_of_octets input) (decode_set_of_tlv input)
unfolding decode_set_of_tlv
decode_set_of_tlv-Ensures input bytes =
    Ensures-bind (Ensures-map_err tlv (decode_tlv-Ensures input bytes)) λ (t, k) at.
      typed-Ensures _ t tag true (not t.tag.constructed) wrong_tag not_constructed
        (decode_set_of t.value >>= λ _. ok (t.value, k)) (λ h. ground arith)
        (λ e.
          let (value, _) = At-IsBytes input t k bytes at in
          let (fits, size, split) = At-wrapped input t k (universal_tag true tag) at e in
          Ensures-bind (decode_set_of-Ensures t.value value) λ n (ts, hs, chain, _, whole). holds (
            (fits, (ts, hs, Chained→Ascending _ ts (subst IsBytes whole value) chain, whole)),
            size,
            split,
          ))

pub decode_set_of_tlv-octets :
    (content rest : List ℕ)
    → IsSetOf content
    → decode_set_of_tlv (set_of_octets content ++ rest)
      ≡ ok (content, length (set_of_octets content))
unfolding decode_set_of_tlv
decode_set_of_tlv-octets content rest (fits, (ts, hs, ascending, whole)) =
    let accepted : decode_set_of content ≡ ok (length ts) =
      ap decode_set_of whole ∙ decode_set_of-children ts hs ascending in
    rw
      (decode_tlv-octets (wrap (universal_tag true tag) content) rest (omega arith, fits), accepted)

abbrev pub set_of_codec : Codec SetOfError (List ℕ)
set_of_codec = record {
  decode = decode_set_of_tlv;
  Is = IsSetOf;
  octets = set_of_octets;
  sound = decode_set_of_tlv-Ensures;
  complete = decode_set_of_tlv-octets;
}

-- On bytes, `decode_set_of_tlv_strict` returns `content` exactly when the whole input is the DER encoding of
-- the constructed TLV of tag 17 around `content`, `content` has fewer than 2 ^ 32 octets, and it is the
-- concatenation of the DER encodings of TLVs (tag numbers and lengths below 2 ^ 32), each of which is
-- not after any later one in the order of `cmp_padded`.
pub decode_set_of_tlv_strict_iff :
    (input content : List ℕ)
    → IsBytes input
    → (decode_set_of_tlv_strict input ≡ ok content)
      ↔ (IsSetOf content × (input ≡ set_of_octets content))
unfolding decode_set_of_tlv_strict
decode_set_of_tlv_strict_iff = Codec.strict_iff set_of_codec trailing_data
