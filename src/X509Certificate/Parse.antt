-- ===== src/X509Certificate/Parse.antt =====
-- `parse_certificate` reads the DER encodings of certificates, and no more.
use rs_verified_der.Base.{
  ℕ, ◌≡◌, ◌≢◌, ◌↔◌, refl, ap, sym, ◌∙◌, subst, arith, not, false, List, [], ◌∷◌, ◌++◌, append-nil,
}
use rs_verified_der.Base.Codec.{ContentCodec, Codec, IsBytes, mapped, mapped_content}
use rs_verified_der.Base.Result.{
  ok, Ensures, holds, rejected, Ensures-bind, Ensures-if, Ensures-weaken, map_err,
}
use rs_verified_der.BitString
use rs_verified_der.BitString.{
  BitString, BitStringError, decode_bit_string, IsBitString, bit_string_octets,
  decode_bit_string-Ensures, decode_bit_string_iff,
}
use rs_verified_der.IntegerField.{wrapped-ne-nil, sequence-ne-nil}
use rs_verified_der.Sequence.Envelope.{sequence_octets}
use rs_verified_der.Sequence.Fields.{parse_whole_iff}
use rs_verified_der.Tiling.{require, read_span, require-Ensures, require-octets, span_codec}
use rs_verified_der.Tlv.Field.{is_empty, read_content-Ensures, read_content-octets}
use rs_verified_der.Tlv.Typed.{Fits}
use rs_verified_der.X509AlgorithmIdentifier.{AlgorithmIdentifier, parse_algorithm_identifier}
use rs_verified_der.X509AlgorithmIdentifier.Parse.{
  IsAlgorithmIdentifier, algorithm_identifier_octets, algorithm_identifier_codec,
}
use rs_verified_der.X509Certificate.{
  Certificate, CertificateError, bad_outer_seq, missing_tbs, bad_tbs_tlv, bad_tbs,
  missing_signature_algorithm, bad_signature_algorithm, missing_signature_value,
  bad_signature_value_tlv, signature_value_wrong_tag, bad_signature_value, read_signature_value,
  parse_content, parse_certificate,
}
use rs_verified_der.X509Spki.Parse.{public_key_octets}
use rs_verified_der.X509TbsCertificate.{TbsCertificate, TbsCertificateError, parse_tbs_certificate}
use rs_verified_der.X509TbsCertificate.Fields.{sequence_tlv}
use rs_verified_der.X509TbsCertificate.Parse.{
  IsTbs, tbs_octets, parse_tbs_certificate-Ensures, parse_tbs_certificate-octets,
}

tbs_content : ContentCodec TbsCertificateError TbsCertificate
tbs_content = record {
  parse = parse_tbs_certificate;
  Is = IsTbs;
  octets = tbs_octets;
  sound = parse_tbs_certificate-Ensures;
  complete = parse_tbs_certificate-octets;
}

tbs_codec : Codec CertificateError TbsCertificate
unfolding tbs_content
tbs_codec =
    span_codec bad_tbs_tlv (mapped_content bad_tbs tbs_content)
      (λ tbs (_, fits). sequence_tlv _ fits)

abbrev algorithm_codec : Codec CertificateError AlgorithmIdentifier
algorithm_codec = mapped bad_signature_algorithm algorithm_identifier_codec

bits_content : ContentCodec BitStringError BitString
bits_content = record {
  parse = decode_bit_string;
  Is = λ bs. IsBitString bs × IsBytes (bit_string_octets bs);
  octets = bit_string_octets;
  sound = λ content bytes.
      Ensures-weaken (λ bs (h, e). ((h, subst IsBytes e bytes), e))
        (decode_bit_string-Ensures content bytes);
  complete = λ bs (h, bytes). (decode_bit_string_iff (bit_string_octets bs) bs bytes).1 (h, refl);
}

signature_codec : Codec CertificateError BitString
unfolding read_signature_value bits_content
signature_codec = record {
  decode = read_signature_value;
  Is = λ bs. (IsBitString bs × IsBytes (bit_string_octets bs)) × Fits (bit_string_octets bs);
  octets = public_key_octets;
  sound =
      read_content-Ensures bad_signature_value_tlv signature_value_wrong_tag
        signature_value_wrong_tag BitString.tag (omega arith)
        (mapped_content bad_signature_value bits_content);
  complete =
      read_content-octets bad_signature_value_tlv signature_value_wrong_tag
        signature_value_wrong_tag BitString.tag (omega arith)
        (mapped_content bad_signature_value bits_content);
}

-- Each field by itself.
abbrev pub IsContent : Certificate → Type 0
IsContent cert =
    IsTbs cert.tbs_certificate
    × IsAlgorithmIdentifier cert.signature_algorithm
    × ((IsBitString cert.signature_value × IsBytes (bit_string_octets cert.signature_value))
        × Fits (bit_string_octets cert.signature_value))

abbrev pub content_octets : Certificate → List ℕ
content_octets cert =
    tbs_octets cert.tbs_certificate
    ++ (algorithm_identifier_octets cert.signature_algorithm
        ++ public_key_octets cert.signature_value)

empty-nil : (xs : List ℕ) → not (is_empty xs) ≡ false → xs ≡ []
empty-nil [] h = refl
empty-nil (x ∷ xs) h = cc

parse_content-Ensures :
    (content : List ℕ)
    → IsBytes content
    → Ensures (λ cert. IsContent cert × (content ≡ content_octets cert)) (parse_content content)
unfolding parse_content tbs_codec signature_codec
parse_content-Ensures content bytes =
    Ensures-bind (require-Ensures tbs_codec missing_tbs content bytes) λ (t, r₁) (ht, b₁, e₁).
      Ensures-bind (require-Ensures algorithm_codec missing_signature_algorithm r₁ b₁)
        λ (a, r₂) (ha, b₂, e₂).
          Ensures-bind (require-Ensures signature_codec missing_signature_value r₂ b₂)
            λ (s, r₃) (hs, b₃, e₃).
              Ensures-if (not (is_empty r₃)) (λ _. rejected)
                λ over. holds (
                  (ht, ha, hs),
                  e₁
                      ∙ ap (λ r. tbs_octets t ++ r)
                          (e₂
                            ∙ ap (λ r. algorithm_identifier_octets a ++ r)
                                (e₃
                                  ∙ ap (λ r. public_key_octets s ++ r) (empty-nil r₃ over)
                                  ∙ append-nil (public_key_octets s))),
                )

parse_content-octets :
    (cert : Certificate) → IsContent cert → parse_content (content_octets cert) ≡ ok cert
unfolding parse_content tbs_codec signature_codec
parse_content-octets cert (ht, ha, hs) =
    let r₂ = public_key_octets cert.signature_value in
    let r₁ = algorithm_identifier_octets cert.signature_algorithm ++ r₂ in
    let tbs : require missing_tbs
          (read_span bad_tbs_tlv (λ s. map_err bad_tbs (parse_tbs_certificate s)))
          (content_octets cert)
        ≡ ok (cert.tbs_certificate, r₁) =
      require-octets tbs_codec missing_tbs cert.tbs_certificate r₁ ht (sequence-ne-nil _ r₁) in
    let algorithm : require missing_signature_algorithm
          (λ r. map_err bad_signature_algorithm (parse_algorithm_identifier r)) r₁
        ≡ ok (cert.signature_algorithm, r₂) =
      require-octets algorithm_codec missing_signature_algorithm cert.signature_algorithm r₂ ha
        (sequence-ne-nil _ r₂) in
    let filled : r₂ ++ [] ≢ [] =
      wrapped-ne-nil BitString.tag (bit_string_octets cert.signature_value) [] in
    let signature : require missing_signature_value read_signature_value r₂
        ≡ ok (cert.signature_value, []) =
      ap (require missing_signature_value read_signature_value) (sym (append-nil r₂))
      ∙ require-octets signature_codec missing_signature_value cert.signature_value [] hs filled in
    rw (tbs, algorithm, signature) refl

content_codec : ContentCodec CertificateError Certificate
content_codec = record {
  parse = parse_content;
  Is = IsContent;
  octets = content_octets;
  sound = parse_content-Ensures;
  complete = parse_content-octets;
}

abbrev pub IsCertificate : Certificate → Type 0
IsCertificate cert = IsContent cert × Fits (content_octets cert)

abbrev pub certificate_octets : Certificate → List ℕ
certificate_octets cert = sequence_octets (content_octets cert)

-- On bytes, `parse_certificate` returns `cert` exactly when the whole input is the DER encoding of the
-- SEQUENCE of the TBSCertificate of `cert`, as `parse_tbs_certificate` reads it, its AlgorithmIdentifier,
-- and its signature as a canonical BIT STRING. The contents have fewer than 2 ^ 32 octets.
pub parse_certificate_iff :
    (input : List ℕ) (cert : Certificate)
    → IsBytes input
    → (parse_certificate input ≡ ok cert) ↔ (IsCertificate cert × (input ≡ certificate_octets cert))
unfolding parse_certificate content_codec
parse_certificate_iff = parse_whole_iff bad_outer_seq content_codec
