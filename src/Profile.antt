-- ===== src/Profile.antt =====
-- der-verified/src/profile.rs: the rules of RFC 5280 over a parsed certificate.
pub mod Octets
pub mod Pairs
pub mod LeadingOid
pub mod Repeats
pub mod Names
pub mod Checks
pub mod Extensions
pub mod Conforms
use rs_verified_der.Base.{
  ℕ, zero, suc, Bool, true, false, not, ◌&&◌, ◌||◌, List, [], ◌∷◌, length, Option, none, some, leb,
  if◌then◌else◌, ◌==◌, ◌!=◌,
}
use rs_verified_der.Base.Result.{Result, ok, err, panic, ◌>>=◌}
use rs_verified_der.GeneralizedTime.{require_no_fraction}
use rs_verified_der.Oid
use rs_verified_der.Sequence
use rs_verified_der.Sequence.{
  SequenceError, Elements, elements, Item, child, malformed, next, set_tag,
  decode_sequence_tlv_strict,
}
use rs_verified_der.Tlv.{Tlv, decode_tlv}
use rs_verified_der.Tlv.Error.{TlvError}
use rs_verified_der.Tlv.Field.{is_empty}
use rs_verified_der.Tlv.Typed.{not_universal}
use rs_verified_der.X509AlgorithmIdentifier.{AlgorithmIdentifier}
use rs_verified_der.X509Certificate.{Certificate}
use rs_verified_der.X509Validity.{Time, utc, generalized}

pub data ProfileError : Type 0 where
  signature_algorithm_mismatch extensions_require_v3 : ProfileError
  not_before_generalized_time_year_too_early not_after_generalized_time_year_too_early :
      ProfileError
  not_before_generalized_time_has_fraction not_after_generalized_time_has_fraction : ProfileError
  duplicate_extension empty_issuer : ProfileError
  issuer_duplicate_attribute_type subject_duplicate_attribute_type : ProfileError

unfoldable pub check_time_encoding_year : Time → ProfileError → Result ProfileError (Unit {0})
check_time_encoding_year (utc t) on_generalized_too_early = ok tt
check_time_encoding_year (generalized t) on_generalized_too_early =
    if leb t.year 2049 then err on_generalized_too_early else ok tt

unfoldable pub check_time_no_fraction : Time → ProfileError → Result ProfileError (Unit {0})
check_time_no_fraction (utc t) on_fraction = ok tt
check_time_no_fraction (generalized t) on_fraction =
    if not (require_no_fraction t) then err on_fraction else ok tt

-- The derived equality of slices and of AlgorithmIdentifiers.
unfoldable pub same_octets : List ℕ → List ℕ → Bool
same_octets [] [] = true
same_octets (x ∷ xs) (y ∷ ys) = let rest = same_octets xs ys in if x != y then false else rest
same_octets _ _ = false

abbrev pub same_option : Option (List ℕ) → Option (List ℕ) → Bool
same_option none none = true
same_option (some xs) (some ys) = same_octets xs ys
same_option _ _ = false

abbrev pub same_algorithm : AlgorithmIdentifier → AlgorithmIdentifier → Bool
same_algorithm a b =
    same_octets a.algorithm_oid b.algorithm_oid && same_option a.parameters b.parameters

-- The `match` of `leading_oid`; a panic stays one.
unfoldable pub first_oid : {E : Type 0} → Result TlvError (Tlv × ℕ) → Result E (Option (List ℕ))
first_oid (ok (id, _)) =
    if not_universal id Oid.tag || id.tag.constructed then ok none else ok (some id.value)
first_oid (err _) = ok none
first_oid panic = panic

unfoldable pub leading_oid : {E : Type 0} → Tlv → Result E (Option (List ℕ))
leading_oid element =
    if not_universal element Sequence.tag || not element.tag.constructed
    then ok none
    else first_oid (decode_tlv element.value)

-- The inner loop, on fuel.
unfoldable pub later_has : {E : Type 0} → ℕ → Elements → List ℕ → Result E Bool
later_has zero later id = panic
later_has (suc fuel) later id = do
  (item, later') ← next later
  elim item [
    | some (child other) ↦ leading_oid other >>= λ oid.
        let rest = later_has fuel later' id in if same_option oid (some id) then ok true else rest
    | some (malformed _) ↦ ok false
    | none ↦ ok false
  ]

-- The body of the outer loop for what `leading_oid` gave, with the clone of the iterator.
abbrev pub repeats_later : {E : Type 0} → Elements → Option (List ℕ) → Result E Bool
repeats_later outer none = ok false
repeats_later outer (some id) = later_has (suc (length outer.rest)) outer id

-- The outer loop, on fuel.
unfoldable pub outer_loop : {E : Type 0} → ℕ → Elements → Result E Bool
outer_loop zero outer = panic
outer_loop (suc fuel) outer = do
  (item, outer') ← next outer
  elim item [
    | some (child first) ↦ leading_oid first >>= λ oid. repeats_later outer' oid >>= λ found.
        let rest = outer_loop fuel outer' in if found then ok true else rest
    | some (malformed _) ↦ ok false
    | none ↦ ok false
  ]

unfoldable pub has_repeated_leading_oid : {E : Type 0} → List ℕ → Result E Bool
has_repeated_leading_oid content = outer_loop (suc (length content)) (elements content)

-- `Err(_) => return false`.
abbrev pub or_false :
    {E : Type 0} → (List ℕ → Result E Bool) → Result SequenceError (List ℕ) → Result E Bool
or_false test (ok content) = test content
or_false test (err _) = ok false
or_false test panic = panic

unfoldable pub extensions_repeat_an_id : {E : Type 0} → List ℕ → Result E Bool
extensions_repeat_an_id extensions =
    or_false has_repeated_leading_oid (decode_sequence_tlv_strict extensions)

unfoldable pub name_is_empty : {E : Type 0} → List ℕ → Result E Bool
name_is_empty name = or_false (λ content. ok (is_empty content)) (decode_sequence_tlv_strict name)

-- `for rdn in Elements::new(rdns)`, on fuel.
unfoldable pub rdn_loop : {E : Type 0} → ℕ → Elements → Result E Bool
rdn_loop zero e = panic
rdn_loop (suc fuel) e = do
  (item, e') ← next e
  elim item [
    | some (child rdn) ↦
        let rest = rdn_loop fuel e' in
        if not_universal rdn set_tag || not rdn.tag.constructed
        then ok false
        else (has_repeated_leading_oid rdn.value >>= λ found. if found then ok true else rest)
    | some (malformed _) ↦ ok false
    | none ↦ ok false
  ]

unfoldable pub name_has_repeated_attribute_type : {E : Type 0} → List ℕ → Result E Bool
name_has_repeated_attribute_type name =
    or_false (λ rdns. rdn_loop (suc (length rdns)) (elements rdns))
      (decode_sequence_tlv_strict name)

-- `if test { return Err(e); }`
abbrev pub reject_if : ProfileError → Result ProfileError Bool → Result ProfileError (Unit {0})
reject_if e test = test >>= λ b. if b then err e else ok tt

abbrev pub check_extensions : Option (List ℕ) → Result ProfileError (Unit {0})
check_extensions none = ok tt
check_extensions (some extensions) =
    reject_if duplicate_extension (extensions_repeat_an_id extensions)

abbrev pub is_some : Option (List ℕ) → Bool
is_some none = false
is_some (some _) = true

unfoldable pub validate_profile : Certificate → Result ProfileError (Unit {0})
validate_profile cert =
    if not (same_algorithm cert.signature_algorithm cert.tbs_certificate.signature)
    then err signature_algorithm_mismatch
    else if is_some cert.tbs_certificate.extensions && cert.tbs_certificate.version != 2
    then err extensions_require_v3
    else do
      let validity = cert.tbs_certificate.validity
      _ ← check_time_encoding_year validity.not_before not_before_generalized_time_year_too_early
      _ ← check_time_encoding_year validity.not_after not_after_generalized_time_year_too_early
      _ ← check_time_no_fraction validity.not_before not_before_generalized_time_has_fraction
      _ ← check_time_no_fraction validity.not_after not_after_generalized_time_has_fraction
      _ ← check_extensions cert.tbs_certificate.extensions
      _ ← reject_if empty_issuer (name_is_empty cert.tbs_certificate.issuer)
      _ ←
          reject_if issuer_duplicate_attribute_type
            (name_has_repeated_attribute_type cert.tbs_certificate.issuer)
      reject_if subject_duplicate_attribute_type
          (name_has_repeated_attribute_type cert.tbs_certificate.subject)
