-- ===== src/Utf8String/Reader.antt =====
-- The reader of UTF8String.
use rs_verified_der.Base.{
  ℕ, ◌≡◌, ◌≢◌, ◌↔◌, inl, inr, ap, sym, ◌∙◌, arith, false, List, ◌++◌, append-nil, length, All,
  Option, some, none,
}
use rs_verified_der.Base.Codec
use rs_verified_der.Base.Codec.{Codec, At, IsByte, IsBytes}
use rs_verified_der.Base.Result.{Result, ok, err, panic, Ensures, Ensures-weaken, Ensures-self}
use rs_verified_der.Tlv.Field.{read_valid-Ensures, read_valid-octets}
use rs_verified_der.Tlv.Typed.{universal_tag, wrap_octets, Fits}
use rs_verified_der.Utf8String.{
  tag, Utf8Error, tlv, wrong_tag, constructed, ill_formed, verdict, validate_utf8,
  decode_utf8_string,
}
use rs_verified_der.Utf8String.Scalars.{text_octets}
use rs_verified_der.Utf8String.Text.{
  IsPlain, first_control, IsText-of, walk-whole, walk-broken, validate_utf8_iff,
}

-- What the reader accepts.
abbrev pub IsPlainText : List ℕ → Type 0
IsPlainText content =
    (cps : List ℕ) × All IsPlain cps × (content ≡ text_octets cps) × IsBytes content

abbrev pub IsUtf8 : List ℕ → Type 0
IsUtf8 content = Fits content × IsPlainText content

abbrev pub utf8_octets : List ℕ → List ℕ
utf8_octets = wrap_octets (universal_tag false tag)

validate_utf8-ne-panic : (content : List ℕ) → IsBytes content → validate_utf8 content ≢ panic
validate_utf8-ne-panic content bytes e =
    let (cps, rest, (h, split, end)) = IsText-of (length content) content (omega arith) bytes in
    elim end [
      | inl none_left ↦
          let whole : content ≡ text_octets cps =
            split ∙ ap (λ t. text_octets cps ++ t) none_left ∙ append-nil (text_octets cps) in
          calm (first_control none 0 cps)
            (sym (walk-whole cps h) ∙ ap validate_utf8 (sym whole) ∙ e)
      | inr (more, stuck) ↦
          stop _ (sym (walk-broken cps rest h more stuck) ∙ ap validate_utf8 (sym split) ∙ e)
    ]
  where
    calm : (f : Option (ℕ × ℕ)) → verdict f ≢ panic
    calm none q = cc
    calm (some seen) q = cc

    stop : (k : ℕ) → ◌≡◌ {A = Result Utf8Error (Unit {0})} (err (ill_formed k)) panic → ⊥
    stop k q = cc

validate_utf8-Ensures :
    (content : List ℕ)
    → IsBytes content
    → Ensures (λ _. IsPlainText content) (validate_utf8 content)
validate_utf8-Ensures content bytes =
    Ensures-weaken
      (λ _ e. let (cps, h, split) = (validate_utf8_iff content bytes).0 e in (cps, h, split, bytes))
      (Ensures-self (validate_utf8 content) (validate_utf8-ne-panic content bytes))

validate_utf8-ok : (content : List ℕ) → IsPlainText content → validate_utf8 content ≡ ok tt
validate_utf8-ok content (cps, h, split, bytes) =
    (validate_utf8_iff content bytes).1 (cps, h, split)

pub utf8_codec : Codec Utf8Error (List ℕ)
unfolding decode_utf8_string
utf8_codec = record {
  decode = decode_utf8_string;
  Is = IsUtf8;
  octets = utf8_octets;
  sound =
      read_valid-Ensures tlv wrong_tag constructed tag (omega arith) validate_utf8 IsPlainText
        validate_utf8-Ensures validate_utf8-ok;
  complete =
      read_valid-octets tlv wrong_tag constructed tag (omega arith) validate_utf8 IsPlainText
        validate_utf8-Ensures validate_utf8-ok;
}

-- On bytes, `decode_utf8_string` returns `(content, k)` exactly when the input begins with the DER
-- encoding, of k octets, of the primitive TLV of tag 12 around `content`, which has fewer than 2 ^ 32
-- octets and is the UTF-8 encoding of scalar values without ESC, SO, SI, SS2 and SS3.
pub decode_utf8_string_iff :
    (input content : List ℕ) (k : ℕ)
    → IsBytes input
    → (decode_utf8_string input ≡ ok (content, k)) ↔ At IsUtf8 utf8_octets input (content, k)
unfolding utf8_codec
decode_utf8_string_iff = Codec.decode_iff utf8_codec
