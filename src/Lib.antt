-- ===== src/Lib.antt =====
-- der-verified: a DER codec without allocation (crate der-verified, sources der-verified/src).
--
-- The crate is layered. At the bottom, `length` and `tag` read and write length and identifier octets;
-- `tlv` puts them together and is the only reader of framing. Above it stand the content codecs
-- (`boolean`, `null`, `integer`, `big_integer`, `enumerated`, `oid`, `bit_string`, `octet_string`,
-- `utf8_string`, `restricted_string`, `utc_time`, `generalized_time`), the containers (`sequence`,
-- `set_of`, `context_tag`), the check of identifier forms (`identifier_form`) and the structures that
-- compose these: `ecdsa_sig_value`, `rsa_public_key`, `x509_algorithm_identifier`, `x509_spki`,
-- `x509_validity`, `x509_name`, `x509_extension`, `encrypted_private_key_info`, `pkcs8`, and over them
-- `x509_tbs_certificate` and `x509_certificate`; `profile` checks the certificate that they return.
-- Nothing is shared or mutated but the output buffers and the child iterator of `sequence`.
--
-- Files. Each module is named for the source file that it models, in UpperCamelCase: Length for
-- der-verified/src/length.rs, X509Spki for der-verified/src/x509_spki.rs, and so on. The module itself
-- holds the data and the operations, under the source's names in snake_case; its child modules hold
-- the proofs. Besides:
--   Base          lists over the native numbers, bit masks, slices; Base.Result has Rust's `Result`
--                 and panics; Base.Codec has what every reader owes to those above it (Codec for a
--                 prefix of the input, ContentCodec for a whole content)
--   Tlv.Error     the error of tlv.rs, apart because other modules name it
--   Tlv.Typed     TLVs of one known tag; Tlv.Field the reader of a primitive field, with a validator or
--                 a decoder of the content
--   Profile.LeadingOid, Profile.Pairs
--                 the form of an element that begins with an OBJECT IDENTIFIER, and the search of a
--                 list for two elements with the same identifier
--   Sequence.Fields, IntegerField, Tiling
--                 the parsers of the fields of a SEQUENCE: the whole, two fields, and one field after
--                 the other as x509_tbs_certificate.rs, x509_certificate.rs and pkcs8.rs read them
--   Sequence.Iterator
--                 the states that the child iterator can reach
--   Walk          the loop by offset over the members of a SEQUENCE OF
--   Digits        the decimal helpers that utc_time.rs and generalized_time.rs both declare
--   Examples      concrete inputs
--
-- Correspondence. A slice is a list of numbers; that they are bytes is a hypothesis where it matters.
-- An output buffer is passed in and its new contents are returned. An `Option` result of an
-- encoder is `err tt` for `None`. A panic (an index or a slice out of range) is a third outcome
-- of `Result`, and no theorem takes its absence for granted. Arithmetic on machine integers keeps
-- its wrap-around (`% 2 ^ w`) where it can wrap; `usize` has 64 bits, and an i64 is an integer in
-- range with its bit pattern written out. Loops are recursions on the octets or rounds that are left;
-- `count_children` (decode_sequence) and `walk` (decode_set_of) run on fuel, one more than the octets
-- of the content, and running out counts as a panic: a child has at least two octets, so the fuel
-- suffices, which the theorems on accepted and on rejected content include. The same holds of
-- `validate_children` in X509Name and of the three loops of Profile. The loop of Walk runs on one more
-- than the octets of the content, and
-- each round takes one octet at least; `walk` of Utf8String runs on as many as there are octets, since
-- each round takes one. The place `off` that x509_tbs_certificate.rs and x509_certificate.rs keep is
-- represented by the octets behind it. Where a test and its negation report the same error one
-- after the other, the model may write two tests for one `||`.
--
-- Not modelled: the RSA and EC private keys; `decode_utf8_str`, which adds only
-- the conversion of core::str; `Debug` and the other derived traits but the equality of classes,
-- character sets and AlgorithmIdentifiers; lifetimes. The Kani harnesses and the tests of the source are not modelled.
pub mod Base
pub mod Length
pub mod Tag
pub mod Tlv
pub mod OctetString
pub mod Sequence
pub mod SetOf
pub mod BigInteger
pub mod Integer
pub mod Enumerated
pub mod Boolean
pub mod Null
pub mod ContextTag
pub mod BitString
pub mod Oid
pub mod IdentifierForm
pub mod IntegerField
pub mod EcdsaSigValue
pub mod RsaPublicKey
pub mod X509AlgorithmIdentifier
pub mod X509Spki
pub mod Examples
pub mod RestrictedString
pub mod Utf8String
pub mod Digits
pub mod UtcTime
pub mod GeneralizedTime
pub mod Walk
pub mod X509Validity
pub mod EncryptedPrivateKeyInfo
pub mod X509Extension
pub mod X509Name
pub mod Tiling
pub mod X509TbsCertificate
pub mod X509Certificate
pub mod Pkcs8
pub mod Profile
