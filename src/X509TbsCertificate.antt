-- ===== src/X509TbsCertificate.antt =====
-- der-verified/src/x509_tbs_certificate.rs: the fields of a TBSCertificate, which tile its SEQUENCE.
pub mod Version
pub mod Extensions
pub mod Fields
pub mod Parse
use rs_verified_der.Base.{
  ℕ, Bool, not, ◌&&◌, ◌||◌, List, length, Option, none, some, if◌then◌else◌, ◌==◌, ◌!=◌,
}
use rs_verified_der.Base.Int.{ℤ, pos, negsuc}
use rs_verified_der.Base.Result.{Result, ok, err, panic, ◌>>=◌, map_err, slice_from}
use rs_verified_der.BigInteger
use rs_verified_der.BigInteger.{BigIntError, validate_integer_content}
use rs_verified_der.ContextTag.{ContextTagError, decode_explicit_context}
use rs_verified_der.Integer
use rs_verified_der.Integer.{IntError, decode_integer}
use rs_verified_der.Sequence.{SequenceError, decode_sequence_tlv_strict}
use rs_verified_der.Tag.{class_eq, context_specific}
use rs_verified_der.Tiling.{require, read_span}
use rs_verified_der.Tlv.{Tlv, decode_tlv}
use rs_verified_der.Tlv.Error.{TlvError}
use rs_verified_der.Tlv.Field.{is_empty}
use rs_verified_der.Tlv.Typed.{not_universal}
use rs_verified_der.X509AlgorithmIdentifier.{
  AlgorithmIdentifier, AlgIdError, parse_algorithm_identifier,
}
use rs_verified_der.X509Extension.{ExtensionsError, validate_extensions}
use rs_verified_der.X509Name.{NameError, validate_name}
use rs_verified_der.X509Spki.{SubjectPublicKeyInfo, SpkiError, parse_subject_public_key_info}
use rs_verified_der.X509Validity.{Validity, ValidityError, parse_validity}

pub record TbsCertificate : Type 0 where
  pub version : ℕ
  pub serial_number : List ℕ
  pub signature : AlgorithmIdentifier
  pub issuer : List ℕ
  pub validity : Validity
  pub subject : List ℕ
  pub subject_public_key_info : SubjectPublicKeyInfo
  pub extensions : Option (List ℕ)

pub data TbsCertificateError : Type 0 where
  bad_outer_seq : SequenceError → TbsCertificateError
  bad_version_tag : ContextTagError → TbsCertificateError
  bad_version_inner_tlv : TlvError → TbsCertificateError
  version_inner_wrong_tag version_inner_constructed version_inner_trailing : TbsCertificateError
  bad_version_int : IntError → TbsCertificateError
  version_must_be_omitted unsupported_version missing_serial : TbsCertificateError
  bad_serial_tlv : TlvError → TbsCertificateError
  serial_wrong_tag : TbsCertificateError
  bad_serial : BigIntError → TbsCertificateError
  missing_signature : TbsCertificateError
  bad_signature : AlgIdError → TbsCertificateError
  missing_issuer : TbsCertificateError
  bad_issuer_tlv : TlvError → TbsCertificateError
  bad_issuer : NameError → TbsCertificateError
  missing_validity : TbsCertificateError
  bad_validity_tlv : TlvError → TbsCertificateError
  bad_validity : ValidityError → TbsCertificateError
  missing_subject : TbsCertificateError
  bad_subject_tlv : TlvError → TbsCertificateError
  bad_subject : NameError → TbsCertificateError
  missing_spki : TbsCertificateError
  bad_spki_tlv : TlvError → TbsCertificateError
  bad_spki : SpkiError → TbsCertificateError
  unsupported_unique_id : TbsCertificateError
  bad_extensions_tag : ContextTagError → TbsCertificateError
  bad_extensions : ExtensionsError → TbsCertificateError
  trailing_in_tbs : TbsCertificateError

abbrev pub is_context : ℕ → Tlv → Bool
is_context n t = class_eq t.tag.class context_specific && t.tag.number == n

-- `v == 0`, `v != 1 && v != 2`, and `v as u8` for the 1 and 2 that are left.
abbrev pub check_version : ℤ → Result TbsCertificateError ℕ
check_version (pos v) =
    if v == 0
    then err version_must_be_omitted
    else if v != 1 && v != 2
    then err unsupported_version
    else ok v
check_version (negsuc _) = err unsupported_version

-- The content of the wrapper `[0]`.
unfoldable pub read_inner_version : List ℕ → Result TbsCertificateError ℕ
read_inner_version inner = do
  (int_tlv, int_used) ← map_err bad_version_inner_tlv (decode_tlv inner)
  if not_universal int_tlv Integer.tag
      then err version_inner_wrong_tag
      else if int_tlv.tag.constructed
      then err version_inner_constructed
      else if int_used != length inner
      then err version_inner_trailing
      else (map_err bad_version_int (decode_integer int_tlv.value) >>= check_version)

-- The version, and the octets behind it, by what is peeked at the front.
unfoldable pub read_version :
    List ℕ → Result TlvError (Tlv × ℕ) → Result TbsCertificateError (ℕ × List ℕ)
read_version content (ok (peek, _)) = if not (is_context 0 peek) then ok (0, content) else do
  (inner, wrapper_used) ← map_err bad_version_tag (decode_explicit_context 0 content)
  version ← read_inner_version inner
  rest ← slice_from content wrapper_used
  ok (version, rest)
read_version content (err _) = ok (0, content)
read_version content panic = panic

unfoldable pub read_serial : List ℕ → Result TbsCertificateError (List ℕ × ℕ)
read_serial rest = do
  (serial_tlv, serial_used) ← map_err bad_serial_tlv (decode_tlv rest)
  if not_universal serial_tlv BigInteger.tag
      then err serial_wrong_tag
      else if serial_tlv.tag.constructed
      then err serial_wrong_tag
      else do
        _ ← map_err bad_serial (validate_integer_content serial_tlv.value)
        ok (serial_tlv.value, serial_used)

-- A Name is handed on as the octets that were validated.
unfoldable pub checked_name :
    (NameError → TbsCertificateError) → List ℕ → Result TbsCertificateError (List ℕ)
checked_name bad span = do _ ← map_err bad (validate_name span); ok span

unfoldable pub reject_unique_id :
    List ℕ → Result TlvError (Tlv × ℕ) → Result TbsCertificateError (Unit {0})
reject_unique_id rest (ok (peek, _)) =
    if is_context 1 peek || is_context 2 peek then err unsupported_unique_id else ok tt
reject_unique_id rest (err _) = ok tt
reject_unique_id rest panic = panic

unfoldable pub read_extensions :
    List ℕ → Result TlvError (Tlv × ℕ) → Result TbsCertificateError (Option (List ℕ) × List ℕ)
read_extensions rest (ok (peek, _)) = if not (is_context 3 peek) then ok (none, rest) else do
  (inner, ext_used) ← map_err bad_extensions_tag (decode_explicit_context 3 rest)
  _ ← map_err bad_extensions (validate_extensions inner)
  rest' ← slice_from rest ext_used
  ok (some inner, rest')
read_extensions rest (err _) = ok (none, rest)
read_extensions rest panic = panic

-- What stands behind the subjectPublicKeyInfo, to the end.
unfoldable pub read_tail : List ℕ → Result TbsCertificateError (Option (List ℕ))
read_tail rest = if is_empty rest then ok none else do
  _ ← reject_unique_id rest (decode_tlv rest)
  (extensions, rest') ← read_extensions rest (decode_tlv rest)
  if not (is_empty rest') then err trailing_in_tbs else ok extensions

-- The content of the SEQUENCE.
unfoldable pub parse_content : List ℕ → Result TbsCertificateError TbsCertificate
parse_content content = do
  (version, rest₁) ← read_version content (decode_tlv content)
  (serial_number, rest₂) ← require missing_serial read_serial rest₁
  (signature, rest₃) ←
      require missing_signature (λ r. map_err bad_signature (parse_algorithm_identifier r)) rest₂
  (issuer, rest₄) ←
      require missing_issuer (read_span bad_issuer_tlv (checked_name bad_issuer)) rest₃
  (validity, rest₅) ←
      require missing_validity
        (read_span bad_validity_tlv (λ s. map_err bad_validity (parse_validity s))) rest₄
  (subject, rest₆) ←
      require missing_subject (read_span bad_subject_tlv (checked_name bad_subject)) rest₅
  (subject_public_key_info, rest₇) ←
      require missing_spki
        (read_span bad_spki_tlv (λ s. map_err bad_spki (parse_subject_public_key_info s))) rest₆
  extensions ← read_tail rest₇
  ok (record {
    version = version;
    serial_number = serial_number;
    signature = signature;
    issuer = issuer;
    validity = validity;
    subject = subject;
    subject_public_key_info = subject_public_key_info;
    extensions = extensions;
  })

unfoldable pub parse_tbs_certificate : List ℕ → Result TbsCertificateError TbsCertificate
parse_tbs_certificate input = do
  content ← map_err bad_outer_seq (decode_sequence_tlv_strict input)
  parse_content content
