-- ===== src/X509Certificate.antt =====
-- der-verified/src/x509_certificate.rs:
-- `Certificate ::= SEQUENCE { tbsCertificate, signatureAlgorithm AlgorithmIdentifier, signatureValue BIT STRING }`.
pub mod Parse
use rs_verified_der.Base.{ℕ, not, List, if◌then◌else◌}
use rs_verified_der.Base.Result.{Result, ok, err, ◌>>=◌, map_err}
use rs_verified_der.BitString
use rs_verified_der.BitString.{BitString, BitStringError, decode_bit_string}
use rs_verified_der.Sequence.{SequenceError, decode_sequence_tlv_strict}
use rs_verified_der.Tiling.{require, read_span}
use rs_verified_der.Tlv.{decode_tlv}
use rs_verified_der.Tlv.Error.{TlvError}
use rs_verified_der.Tlv.Field.{is_empty}
use rs_verified_der.Tlv.Typed.{not_universal}
use rs_verified_der.X509AlgorithmIdentifier.{
  AlgorithmIdentifier, AlgIdError, parse_algorithm_identifier,
}
use rs_verified_der.X509TbsCertificate.{TbsCertificate, TbsCertificateError, parse_tbs_certificate}

pub record Certificate : Type 0 where
  pub tbs_certificate : TbsCertificate
  pub signature_algorithm : AlgorithmIdentifier
  pub signature_value : BitString

pub data CertificateError : Type 0 where
  bad_outer_seq : SequenceError → CertificateError
  missing_tbs : CertificateError
  bad_tbs_tlv : TlvError → CertificateError
  bad_tbs : TbsCertificateError → CertificateError
  missing_signature_algorithm : CertificateError
  bad_signature_algorithm : AlgIdError → CertificateError
  missing_signature_value : CertificateError
  bad_signature_value_tlv : TlvError → CertificateError
  signature_value_wrong_tag : CertificateError
  bad_signature_value : BitStringError → CertificateError
  trailing_in_certificate : CertificateError

unfoldable pub read_signature_value : List ℕ → Result CertificateError (BitString × ℕ)
read_signature_value rest = do
  (sig_tlv, sig_used) ← map_err bad_signature_value_tlv (decode_tlv rest)
  if not_universal sig_tlv BitString.tag
      then err signature_value_wrong_tag
      else if sig_tlv.tag.constructed
      then err signature_value_wrong_tag
      else do bs ← map_err bad_signature_value (decode_bit_string sig_tlv.value); ok (bs, sig_used)

-- The content of the SEQUENCE.
unfoldable pub parse_content : List ℕ → Result CertificateError Certificate
parse_content content = do
  (tbs_certificate, rest₁) ←
      require missing_tbs (read_span bad_tbs_tlv (λ s. map_err bad_tbs (parse_tbs_certificate s)))
        content
  (signature_algorithm, rest₂) ←
      require missing_signature_algorithm
        (λ r. map_err bad_signature_algorithm (parse_algorithm_identifier r)) rest₁
  (signature_value, rest₃) ← require missing_signature_value read_signature_value rest₂
  if not (is_empty rest₃)
      then err trailing_in_certificate
      else ok (record {
        tbs_certificate = tbs_certificate;
        signature_algorithm = signature_algorithm;
        signature_value = signature_value;
      })

unfoldable pub parse_certificate : List ℕ → Result CertificateError Certificate
parse_certificate input = do
  content ← map_err bad_outer_seq (decode_sequence_tlv_strict input)
  parse_content content
