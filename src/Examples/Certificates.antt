-- ===== src/Examples/Certificates.antt =====
-- Times, and the parts of a certificate.
use rs_verified_der.Base.{
  refl, sym, subst, false, ℕ, ◌≡◌, ◌↔◌, ◌⊎◌, ◌≤◌, ◌%◌, arith, true, List, [], ◌∷◌, ◌++◌, length,
  drop, none, some,
}
use rs_verified_der.Base.Result.{ok, err}
use rs_verified_der.GeneralizedTime.{GeneralizedTime, decode_generalized_time}
use rs_verified_der.GeneralizedTime.Format.{
  IsGeneralizedTime, generalized_octets, decode_generalized_time_iff,
}
use rs_verified_der.IdentifierForm.{validate_identifier_form, required_form}
use rs_verified_der.IdentifierForm.Legal.{IsLegal, validate_identifier_form_iff}
use rs_verified_der.Oid.{validate_oid, scan}
use rs_verified_der.X509Name.Attribute.{IsAtv}
use rs_verified_der.Length.Octets.{length_octets}
use rs_verified_der.Pkcs8.{PrivateKeyInfo, parse_pkcs8_private_key_info_strict}
use rs_verified_der.Pkcs8.Parse.{IsInfo, info_octets, parse_pkcs8_private_key_info_strict_iff}
use rs_verified_der.Profile.{ProfileError, name_has_repeated_attribute_type}
use rs_verified_der.Profile.{validate_profile}
use rs_verified_der.Profile.Conforms.{HasParts, Conforms, validate_profile_iff}
use rs_verified_der.Profile.Names.{RepeatsType, name_has_repeated_attribute_type_iff}
use rs_verified_der.Walk.{members_octets}
use rs_verified_der.Sequence.Children.{children_octets}
use rs_verified_der.Tag.Octets.{tag_octets}
use rs_verified_der.Tlv.{Tlv}
use rs_verified_der.Tlv.Typed.{universal_tag}
use rs_verified_der.Base.Codec.{IsBytes}
use rs_verified_der.UtcTime.{UtcTime, decode_utc_time, encode_utc_time, full_year_rfc5280}
use rs_verified_der.UtcTime.Format.{
  IsUtcTime, utc_octets, decode_utc_time_iff, encode_utc_time_lem, full_year_rfc5280_lem,
}
use rs_verified_der.X509AlgorithmIdentifier.{AlgorithmIdentifier}
use rs_verified_der.X509Certificate.{Certificate, parse_certificate}
use rs_verified_der.X509Certificate.Parse.{IsCertificate, certificate_octets, parse_certificate_iff}
use rs_verified_der.X509Extension.{Extension, validate_extensions}
use rs_verified_der.X509Extension.Members.{
  AreExtensions, extensions_octets, validate_extensions_iff,
}
use rs_verified_der.X509Name.{validate_name}
use rs_verified_der.X509Name.Rdn.{IsName, name_octets, validate_name_iff}
use rs_verified_der.X509TbsCertificate.{TbsCertificate, parse_tbs_certificate}
use rs_verified_der.X509TbsCertificate.Parse.{IsTbs, tbs_octets, parse_tbs_certificate_iff}
use rs_verified_der.X509Validity.{Validity, utc, generalized, parse_validity}
use rs_verified_der.X509Validity.Parse.{IsValidity, validity_octets, parse_validity_iff}

-- 990101000000Z.
abbrev new_year : UtcTime
new_year = record { year2 = 99; month = 1; day = 1; hour = 0; minute = 0; second = 0 }

abbrev encoded_new_year : List ℕ
encoded_new_year =
    0x39 ∷ 0x39 ∷ 0x30 ∷ 0x31 ∷ 0x30 ∷ 0x31 ∷ 0x30 ∷ 0x30 ∷ 0x30 ∷ 0x30 ∷ 0x30 ∷ 0x30 ∷ 0x5a ∷ []

decode_utc_time_iff_example :
    (decode_utc_time encoded_new_year ≡ ok new_year)
    ↔ (IsUtcTime new_year × (encoded_new_year ≡ utc_octets new_year))
decode_utc_time_iff_example = decode_utc_time_iff encoded_new_year new_year (omega arith)

encode_utc_time_lem_example :
    (IsUtcTime new_year
      × (13 ≤ length encoded_new_year)
      × (encode_utc_time new_year encoded_new_year
          ≡ ok (13, utc_octets new_year ++ drop 13 encoded_new_year)))
    ⊎ ((IsUtcTime new_year × (13 ≤ length encoded_new_year) → ⊥)
        × (encode_utc_time new_year encoded_new_year ≡ err tt))
encode_utc_time_lem_example = encode_utc_time_lem new_year encoded_new_year

full_year_rfc5280_lem_example :
    (1950 ≤ full_year_rfc5280 new_year)
    × (full_year_rfc5280 new_year ≤ 2049)
    × (full_year_rfc5280 new_year % 100 ≡ 99)
full_year_rfc5280_lem_example = full_year_rfc5280_lem new_year (omega arith)

-- 20500101000000.5Z.
abbrev later_year : GeneralizedTime
later_year = record {
  year = 2050;
  month = 1;
  day = 1;
  hour = 0;
  minute = 0;
  second = 0;
  fraction = 0x35 ∷ [];
}

abbrev encoded_later_year : List ℕ
encoded_later_year =
    0x32 ∷ 0x30 ∷ 0x35 ∷ 0x30 ∷ 0x30 ∷ 0x31 ∷ 0x30 ∷ 0x31 ∷ 0x30 ∷ 0x30 ∷ 0x30 ∷ 0x30 ∷ 0x30 ∷ 0x30
    ∷ 0x2e ∷ 0x35 ∷ 0x5a ∷ []

decode_generalized_time_iff_example :
    (decode_generalized_time encoded_later_year ≡ ok later_year)
    ↔ (IsGeneralizedTime later_year × (encoded_later_year ≡ generalized_octets later_year))
decode_generalized_time_iff_example =
    decode_generalized_time_iff encoded_later_year later_year (omega arith)

abbrev validity : Validity
validity = record { not_before = utc new_year; not_after = generalized later_year }

abbrev encoded_validity : List ℕ
encoded_validity =
    0x30 ∷ 0x22 ∷ 0x17 ∷ 0x0d ∷ (encoded_new_year ++ 0x18 ∷ 0x11 ∷ encoded_later_year)

parse_validity_iff_example :
    (parse_validity encoded_validity ≡ ok validity)
    ↔ (IsValidity validity × (encoded_validity ≡ validity_octets validity))
parse_validity_iff_example = parse_validity_iff encoded_validity validity (omega arith)

-- The common name (2.5.4.3) with the PrintableString "A".
abbrev name : List ℕ
name =
    0x30 ∷ 0x0c ∷ 0x31 ∷ 0x0a ∷ 0x30 ∷ 0x08 ∷ 0x06 ∷ 0x03 ∷ 0x55 ∷ 0x04 ∷ 0x03 ∷ 0x13 ∷ 0x01 ∷ 0x41
    ∷ []

validate_name_iff_example :
    (validate_name name ≡ ok tt)
    ↔ ((rdns : List (List Tlv)) × IsName rdns × (name ≡ name_octets rdns))
validate_name_iff_example = validate_name_iff name (omega arith)

-- A critical basicConstraints extension (2.5.29.19) around an empty SEQUENCE.
abbrev extension : Extension
extension = record {
  extn_id = 0x55 ∷ 0x1d ∷ 0x13 ∷ [];
  critical = true;
  extn_value = 0x30 ∷ 0x00 ∷ [];
}

abbrev encoded_extension : List ℕ
encoded_extension =
    0x30 ∷ 0x0c ∷ 0x06 ∷ 0x03 ∷ 0x55 ∷ 0x1d ∷ 0x13 ∷ 0x01 ∷ 0x01 ∷ 0xff ∷ 0x04 ∷ 0x02 ∷ 0x30 ∷ 0x00
    ∷ []

validate_extensions_iff_example :
    (validate_extensions (0x30 ∷ 0x0e ∷ encoded_extension) ≡ ok tt) ↔ (
      (es : List Extension) × AreExtensions es
      × (0x30 ∷ 0x0e ∷ encoded_extension ≡ extensions_octets es))
validate_extensions_iff_example =
    validate_extensions_iff (0x30 ∷ 0x0e ∷ encoded_extension) (omega arith)

-- id-Ed25519 without parameters.
abbrev ed25519 : AlgorithmIdentifier
ed25519 = record { algorithm_oid = 0x2b ∷ 0x65 ∷ 0x70 ∷ []; parameters = none }

abbrev encoded_ed25519 : List ℕ
encoded_ed25519 = 0x30 ∷ 0x05 ∷ 0x06 ∷ 0x03 ∷ 0x2b ∷ 0x65 ∷ 0x70 ∷ []

abbrev tbs : TbsCertificate
tbs = record {
  version = 2;
  serial_number = 0x05 ∷ [];
  signature = ed25519;
  issuer = name;
  validity = validity;
  subject = name;
  subject_public_key_info = record {
    algorithm_oid = 0x2b ∷ 0x65 ∷ 0x70 ∷ [];
    parameters = none;
    subject_public_key = record { data_octets = 0xab ∷ []; unused = 0 };
  };
  extensions = some (0x30 ∷ 0x0e ∷ encoded_extension);
}

-- Its content has 110 octets.
abbrev encoded_tbs : List ℕ
encoded_tbs =
    0x30
    ∷ 0x6e
    ∷ 0xa0
    ∷ 0x03
    ∷ 0x02
    ∷ 0x01
    ∷ 0x02
    ∷ 0x02
    ∷ 0x01
    ∷ 0x05
    ∷ (encoded_ed25519
        ++ (name
            ++ (encoded_validity
                ++ (name
                    ++ (0x30
                        ∷ 0x0b
                        ∷ (encoded_ed25519
                            ++ (0x03 ∷ 0x02 ∷ 0x00 ∷ 0xab ∷ 0xa3 ∷ 0x10 ∷ 0x30 ∷ 0x0e
                                ∷ encoded_extension)))))))

parse_tbs_certificate_iff_example :
    (parse_tbs_certificate encoded_tbs ≡ ok tbs) ↔ (IsTbs tbs × (encoded_tbs ≡ tbs_octets tbs))
parse_tbs_certificate_iff_example = parse_tbs_certificate_iff encoded_tbs tbs (omega arith)

abbrev certificate : Certificate
certificate = record {
  tbs_certificate = tbs;
  signature_algorithm = ed25519;
  signature_value = record { data_octets = 0xcd ∷ []; unused = 0 };
}

abbrev encoded_certificate : List ℕ
encoded_certificate =
    0x30 ∷ 0x7b ∷ (encoded_tbs ++ (encoded_ed25519 ++ 0x03 ∷ 0x02 ∷ 0x00 ∷ 0xcd ∷ []))

parse_certificate_iff_example :
    (parse_certificate encoded_certificate ≡ ok certificate)
    ↔ (IsCertificate certificate × (encoded_certificate ≡ certificate_octets certificate))
parse_certificate_iff_example = parse_certificate_iff encoded_certificate certificate (omega arith)

-- Version 0, Ed25519, two octets of key, and no attributes.
abbrev private_key_info : PrivateKeyInfo
private_key_info = record { algorithm = ed25519; private_key = 0xaa ∷ 0xbb ∷ []; attributes = none }

abbrev encoded_private_key_info : List ℕ
encoded_private_key_info =
    0x30 ∷ 0x0e ∷ 0x02 ∷ 0x01 ∷ 0x00 ∷ (encoded_ed25519 ++ 0x04 ∷ 0x02 ∷ 0xaa ∷ 0xbb ∷ [])

parse_pkcs8_private_key_info_strict_iff_example :
    (parse_pkcs8_private_key_info_strict encoded_private_key_info ≡ ok private_key_info)
    ↔ (IsInfo private_key_info × (encoded_private_key_info ≡ info_octets private_key_info))
parse_pkcs8_private_key_info_strict_iff_example =
    parse_pkcs8_private_key_info_strict_iff encoded_private_key_info private_key_info (omega arith)

-- A name whose one relative distinguished name has one attribute, the common name "A".
abbrev common_name : Tlv
common_name = record {
  tag = universal_tag true 16;
  value = 0x06 ∷ 0x03 ∷ 0x55 ∷ 0x04 ∷ 0x03 ∷ 0x13 ∷ 0x01 ∷ 0x41 ∷ [];
}

abbrev one_name : List (List Tlv)
one_name = (common_name ∷ []) ∷ []

name_octets-one_name : name_octets one_name ≡ name
unfolding members_octets children_octets tag_octets length_octets
name_octets-one_name = refl

one_name-IsBytes : IsBytes (name_octets one_name)
one_name-IsBytes = subst IsBytes (sym name_octets-one_name) (omega arith)

-- Its value is a PrintableString.
abbrev letter : Tlv
letter = record { tag = universal_tag false 19; value = 0x41 ∷ [] }

letter-IsLegal : IsLegal (universal_tag false 19)
letter-IsLegal =
    (validate_identifier_form_iff (universal_tag false 19)).0
      (unfold validate_identifier_form required_form in refl)

common_name-IsAtv : IsAtv common_name
unfolding validate_oid scan tag_octets length_octets
common_name-IsAtv = (
  refl,
  (
    0x55 ∷ 0x04 ∷ 0x03 ∷ [],
    letter,
    (omega arith, refl),
    ((omega arith, omega arith), letter-IsLegal),
    refl,
  ),
)

one_name-IsName : IsName one_name
unfolding members_octets children_octets tag_octets length_octets
one_name-IsName = (
  (
    (((omega arith, omega arith), tt), (common_name-IsAtv, tt), (tt, tt), omega arith, omega arith),
    tt,
  ),
  omega arith,
)

name_has_repeated_attribute_type_iff_example :
    ((name_has_repeated_attribute_type {E = ProfileError} (name_octets one_name) ≡ ok true)
      ↔ RepeatsType one_name)
    × ((name_has_repeated_attribute_type {E = ProfileError} (name_octets one_name) ≡ ok false)
        ↔ (RepeatsType one_name → ⊥))
name_has_repeated_attribute_type_iff_example =
    name_has_repeated_attribute_type_iff {E = ProfileError} one_name one_name-IsName
      one_name-IsBytes

extension-AreExtensions : AreExtensions (extension ∷ [])
unfolding members_octets validate_oid scan tag_octets length_octets
extension-AreExtensions =
    (((((omega arith, refl), omega arith), omega arith), tt), omega arith, omega arith)

certificate-HasParts : HasParts certificate one_name one_name (extension ∷ [])
unfolding members_octets tag_octets length_octets
certificate-HasParts = (
  (one_name-IsName, one_name-IsBytes, sym name_octets-one_name),
  (one_name-IsName, one_name-IsBytes, sym name_octets-one_name),
  (omega arith, extension-AreExtensions, refl),
)

validate_profile_iff_example :
    (validate_profile certificate ≡ ok tt) ↔ Conforms certificate one_name one_name (extension ∷ [])
validate_profile_iff_example =
    validate_profile_iff certificate one_name one_name (extension ∷ []) certificate-HasParts
