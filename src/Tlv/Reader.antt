-- ===== src/Tlv/Reader.antt =====
-- The readers of the length, the tag and the TLV as instances of the shared interface, and what
-- follows for them.
use rs_verified_der.Base.{ℕ, ◌^◌, ◌≤◌, ◌<◌, ◌≡◌, ◌≢◌, ◌↔◌, List, ◌++◌, length}
use rs_verified_der.Base.Result.{ok, panic}
use rs_verified_der.Base.Codec
use rs_verified_der.Base.Codec.{Codec, At, IsBytes}
use rs_verified_der.Length.{LengthError, decode_length}
use rs_verified_der.Length.Octets.{length_octets}
use rs_verified_der.Length.Decode.{decode_length-Ensures, decode_length-octets}
use rs_verified_der.Tag.{Tag, TagError, decode_tag}
use rs_verified_der.Tag.Octets.{tag_octets, IsTag}
use rs_verified_der.Tag.Decode.{decode_tag-Ensures}
use rs_verified_der.Tag.Complete.{decode_tag-octets}
use rs_verified_der.Tlv.{Tlv, decode_tlv, decode_tlv_strict}
use rs_verified_der.Tlv.Error.{TlvError}
use rs_verified_der.Tlv.Octets.{IsTlv, tlv_octets}
use rs_verified_der.Tlv.Decode.{decode_tlv-Ensures, decode_tlv-octets}

abbrev pub length_codec : Codec LengthError ℕ
length_codec = record {
  decode = decode_length;
  Is = λ v. v < 2 ^ 32;
  octets = length_octets;
  sound = decode_length-Ensures;
  complete = decode_length-octets;
}

abbrev pub tag_codec : Codec TagError Tag
tag_codec = record {
  decode = decode_tag;
  Is = IsTag;
  octets = tag_octets;
  sound = decode_tag-Ensures;
  complete = decode_tag-octets;
}

abbrev pub tlv_codec : Codec TlvError Tlv
tlv_codec = record {
  decode = decode_tlv;
  Is = IsTlv;
  octets = tlv_octets;
  sound = decode_tlv-Ensures;
  complete = decode_tlv-octets;
}

-- On bytes, `decode_length` returns `(v, k)` exactly when the input begins with the definite length
-- octets of v in their shortest form, which are k octets, and v is below 2 ^ 32.
pub decode_length_iff :
    (input : List ℕ) (v k : ℕ)
    → IsBytes input
    → (decode_length input ≡ ok (v, k)) ↔ At (λ n. n < 2 ^ 32) length_octets input (v, k)
decode_length_iff = Codec.decode_iff length_codec

-- On bytes, `decode_tag` returns `(t, k)` exactly when the input begins with the identifier octets that
-- X.690 prescribes for t, which are k octets (one for a number up to 30, else the leading octet and the
-- fewest base-128 digits), and the number of t is below 2 ^ 32.
pub decode_tag_iff :
    (input : List ℕ) (t : Tag) (k : ℕ)
    → IsBytes input
    → (decode_tag input ≡ ok (t, k)) ↔ At IsTag tag_octets input (t, k)
decode_tag_iff = Codec.decode_iff tag_codec

-- On bytes, `decode_tlv` returns `(t, k)` exactly when the input begins with the DER encoding of t (the
-- identifier octets, the shortest length octets, the value), of k octets, and the tag number and the
-- value's length are below 2 ^ 32.
pub decode_tlv_iff :
    (input : List ℕ) (t : Tlv) (k : ℕ)
    → IsBytes input
    → (decode_tlv input ≡ ok (t, k)) ↔ At IsTlv tlv_octets input (t, k)
decode_tlv_iff = Codec.decode_iff tlv_codec

-- If `decode_tlv` returns `(t, k)` on bytes, then k is at most the length of the input, and whatever
-- octets are put behind the input, the result is the same.
pub decode_tlv_stable :
    (input more : List ℕ) (t : Tlv) (k : ℕ)
    → IsBytes input
    → decode_tlv input ≡ ok (t, k)
    → (k ≤ length input) × (decode_tlv (input ++ more) ≡ ok (t, k))
decode_tlv_stable input more t k bytes e = (
  Codec.decode-within tlv_codec input t k bytes e,
  Codec.decode-append tlv_codec input more t k bytes e,
)

-- On bytes, `decode_tlv_strict` returns t exactly when the whole input is the DER encoding of t, and the
-- tag number and the value's length are below 2 ^ 32.
pub decode_tlv_strict_iff :
    (input : List ℕ) (t : Tlv)
    → IsBytes input
    → (decode_tlv_strict input ≡ ok t) ↔ (IsTlv t × (input ≡ tlv_octets t))
unfolding decode_tlv_strict
decode_tlv_strict_iff input t bytes =
    Codec.strict_iff tlv_codec TlvError.trailing_data input t bytes

-- On bytes, `decode_tlv` does not panic: no index and no slice is out of range.
pub decode_tlv-ne-panic : (input : List ℕ) → IsBytes input → decode_tlv input ≢ panic
decode_tlv-ne-panic = Codec.decode-ne-panic tlv_codec
