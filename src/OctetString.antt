-- ===== src/OctetString.antt =====
-- der-verified/src/octet_string.rs: a primitive TLV of tag 4 around arbitrary octets.
use rs_verified_der.Base.{arith, ℕ, ◌≡◌, ◌↔◌, List, ◌++◌, length, false, if◌then◌else◌}
use rs_verified_der.Base.Result.{
  Result, ok, err, ◌>>=◌, map_err, Ensures, holds, Ensures-bind, Ensures-map_err,
}
use rs_verified_der.Base.Codec
use rs_verified_der.Base.Codec.{Codec, At, IsBytes}
use rs_verified_der.Tlv.{decode_tlv, encode_tlv_into}
use rs_verified_der.Tlv.Error.{TlvError}
use rs_verified_der.Tlv.Decode.{decode_tlv-Ensures, decode_tlv-octets}
use rs_verified_der.Tlv.Typed.{
  universal_tag, wrap, wrap_octets, Fits, At-wrapped, not_universal, typed-Ensures,
}

abbrev pub tag : ℕ
tag = 4

pub data OctetStringError : Type 0 where
  tlv : TlvError → OctetStringError
  wrong_tag : OctetStringError
  constructed : OctetStringError

unfoldable pub decode_octet_string : List ℕ → Result OctetStringError (List ℕ × ℕ)
decode_octet_string input = do
  (t, used) ← map_err tlv (decode_tlv input)
  if not_universal t tag
      then err wrong_tag
      else if t.tag.constructed
      then err constructed
      else ok (t.value, used)

unfoldable pub encode_octet_string_into : List ℕ → List ℕ → Result (Unit {0}) (ℕ × List ℕ)
encode_octet_string_into content out = encode_tlv_into (universal_tag false tag) content out

abbrev pub octet_string_octets : List ℕ → List ℕ
octet_string_octets = wrap_octets (universal_tag false tag)

pub decode_octet_string-Ensures :
    (input : List ℕ)
    → IsBytes input
    → Ensures (At Fits octet_string_octets input) (decode_octet_string input)
unfolding decode_octet_string
decode_octet_string-Ensures input bytes =
    Ensures-bind (Ensures-map_err tlv (decode_tlv-Ensures input bytes)) λ (t, k) at.
      typed-Ensures _ t tag false t.tag.constructed wrong_tag constructed (ok (t.value, k)) (λ h. h)
        (λ e. holds (At-wrapped input t k (universal_tag false tag) at e))

pub decode_octet_string-octets :
    (content rest : List ℕ)
    → Fits content
    → decode_octet_string (octet_string_octets content ++ rest)
      ≡ ok (content, length (octet_string_octets content))
unfolding decode_octet_string
decode_octet_string-octets content rest fits =
    rw (decode_tlv-octets (wrap (universal_tag false tag) content) rest (omega arith, fits))

abbrev pub octet_string_codec : Codec OctetStringError (List ℕ)
octet_string_codec = record {
  decode = decode_octet_string;
  Is = Fits;
  octets = octet_string_octets;
  sound = decode_octet_string-Ensures;
  complete = decode_octet_string-octets;
}

-- On bytes, `decode_octet_string` returns `(content, k)` exactly when the input begins with the DER
-- encoding of the OCTET STRING `content`, of `k` octets, and `content` has fewer than 2 ^ 32 octets.
pub decode_octet_string_iff :
    (input content : List ℕ) (k : ℕ)
    → IsBytes input
    → (decode_octet_string input ≡ ok (content, k)) ↔ At Fits octet_string_octets input (content, k)
decode_octet_string_iff = Codec.decode_iff octet_string_codec
