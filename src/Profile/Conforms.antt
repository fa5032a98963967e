-- ===== src/Profile/Conforms.antt =====
-- `validate_profile` on the certificates that `parse_certificate` returns, against the rules of RFC 5280.
use rs_verified_der.Base.{
  ℕ, ◌≡◌, ◌≢◌, ◌↔◌, ◌⊎◌, refl, ap, sym, ◌∙◌, arith, Bool, true, false, Bool-cases, not, ◌&&◌, List,
  [], ◌∷◌, length, Option, none, some, inl, inr, if◌then◌else◌, ◌!=◌,
}
use rs_verified_der.Base.Codec.{IsBytes}
use rs_verified_der.Base.Result.{Result, ok, err}
use rs_verified_der.Profile.{
  ProfileError, signature_algorithm_mismatch, extensions_require_v3,
  not_before_generalized_time_year_too_early, not_after_generalized_time_year_too_early,
  not_before_generalized_time_has_fraction, not_after_generalized_time_has_fraction, empty_issuer,
  issuer_duplicate_attribute_type, subject_duplicate_attribute_type, same_algorithm, name_is_empty,
  name_has_repeated_attribute_type, reject_if, is_some, validate_profile,
}
use rs_verified_der.Profile.Checks.{
  then_iff, reject_iff, same_algorithm_iff, check_year_iff, check_fraction_iff, is_empty_iff, InEra,
  IsWhole,
}
use rs_verified_der.Profile.Extensions.{HasId, HasExtensions, check_extensions_iff}
use rs_verified_der.Profile.Names.{RepeatsType, name_has_repeated_attribute_type_iff}
use rs_verified_der.Profile.Pairs.{Repeats}
use rs_verified_der.Sequence.Fields.{strict-octets}
use rs_verified_der.Tlv.{Tlv}
use rs_verified_der.Tlv.Field.{is_empty}
use rs_verified_der.Walk.{members_octets, members_octets_size}
use rs_verified_der.X509Certificate.{Certificate}
use rs_verified_der.X509Extension.{Extension}
use rs_verified_der.X509Name
use rs_verified_der.X509Name.Rdn.{IsRdn, rdn_octets, rdn_filled, IsName, name_octets}

members_empty :
    (rdns : List (List Tlv))
    → (is_empty (members_octets X509Name.validate_member IsRdn rdn_octets rdns) ≡ false)
      ↔ (rdns ≢ [])
unfolding members_octets
members_empty [] = (λ h. cc, λ h. absurd (h refl))
members_empty (ts ∷ rdns) =
    let outer = members_octets X509Name.validate_member IsRdn rdn_octets (ts ∷ rdns) in
    let size =
      members_octets_size X509Name.validate_member IsRdn rdn_octets rdn_filled (ts ∷ rdns) in
    (
      λ _ e. cc,
      λ _. elim (Bool-cases (is_empty outer)) [
        | inl e ↦ absurd (
            let none_left = (is_empty_iff outer).0 e in
            omega (arith, size, ap (λ (v : List ℕ). length v) none_left))
        | inr e ↦ e
      ],
    )

name_is_empty_iff :
    (rdns : List (List Tlv))
    → IsName rdns
    → (name_is_empty {E = ProfileError} (name_octets rdns) ≡ ok false) ↔ (rdns ≢ [])
unfolding name_is_empty
name_is_empty_iff rdns (hs, fits) =
    let outer = members_octets X509Name.validate_member IsRdn rdn_octets rdns in
    rw (strict-octets outer fits)
      (λ h. (members_empty rdns).0 (cc), λ h. ap (λ (b : Bool). ok b) ((members_empty rdns).1 h))

-- The rules: one signature algorithm, extensions only in version 3 (which is 2), the times, no extension twice, an
-- issuer, and no attribute type twice in a relative distinguished name.
abbrev pub Conforms : Certificate → List (List Tlv) → List (List Tlv) → List Extension → Type 0
Conforms cert issuer subject es =
    (cert.signature_algorithm ≡ cert.tbs_certificate.signature)
    × ((cert.tbs_certificate.extensions ≡ none) ⊎ (cert.tbs_certificate.version ≡ 2))
    × InEra cert.tbs_certificate.validity.not_before
    × InEra cert.tbs_certificate.validity.not_after
    × IsWhole cert.tbs_certificate.validity.not_before
    × IsWhole cert.tbs_certificate.validity.not_after
    × (Repeats HasId es → ⊥)
    × (issuer ≢ [])
    × (RepeatsType issuer → ⊥)
    × (RepeatsType subject → ⊥)

-- The parts of a certificate as their parsers read them.
abbrev pub HasParts : Certificate → List (List Tlv) → List (List Tlv) → List Extension → Type 0
HasParts cert issuer subject es =
    (IsName issuer
      × IsBytes (name_octets issuer)
      × (cert.tbs_certificate.issuer ≡ name_octets issuer))
    × (IsName subject
        × IsBytes (name_octets subject)
        × (cert.tbs_certificate.subject ≡ name_octets subject))
    × HasExtensions cert.tbs_certificate.extensions es

repeated_type_iff :
    (e : ProfileError) (octets : List ℕ) (rdns : List (List Tlv))
    → IsName rdns
    → IsBytes (name_octets rdns)
    → octets ≡ name_octets rdns
    → (reject_if e (name_has_repeated_attribute_type octets) ≡ ok tt) ↔ (RepeatsType rdns → ⊥)
repeated_type_iff e octets rdns h bytes same =
    let both = (name_has_repeated_attribute_type_iff {E = ProfileError} rdns h bytes).1 in
    let reject = reject_iff e (name_has_repeated_attribute_type octets) in
    (
      λ p. both.0 (ap name_has_repeated_attribute_type (sym same) ∙ reject.0 p),
      λ q. reject.1 (ap name_has_repeated_attribute_type same ∙ both.1 q),
    )

issuer_iff :
    (octets : List ℕ) (rdns : List (List Tlv))
    → IsName rdns
    → octets ≡ name_octets rdns
    → (reject_if empty_issuer (name_is_empty octets) ≡ ok tt) ↔ (rdns ≢ [])
issuer_iff octets rdns h same =
    let both = name_is_empty_iff rdns h in
    let reject = reject_iff empty_issuer (name_is_empty octets) in
    (
      λ p. both.0 (ap name_is_empty (sym same) ∙ reject.0 p),
      λ q. reject.1 (ap name_is_empty same ∙ both.1 q),
    )

-- The two checks in front, which compare fields.
guards_iff :
    (same : Bool) (field : Option (List ℕ)) (version : ℕ) (rest : Result ProfileError (Unit {0}))
    → ((if not same
          then err signature_algorithm_mismatch
          else if is_some field && version != 2
          then err extensions_require_v3
          else rest)
        ≡ ok tt)
      ↔ ((same ≡ true) × ((field ≡ none) ⊎ (version ≡ 2)) × (rest ≡ ok tt))
guards_iff false field version rest = (λ h. cc, λ (h, _, _). cc)
guards_iff true none version rest = (λ h. (refl, inl refl, h), λ (_, _, h). h)
guards_iff true (some octets) version rest = elim (Bool-cases (version != 2)) [
  | inl e ↦ rw e (λ h. cc, λ (_, v, _). elim v [ inl clash ↦ cc | inr two ↦ absurd (ground arith) ])
  | inr e ↦ rw e (λ h. (refl, inr (ground arith), h), λ (_, _, h). h)
]

-- For a certificate whose issuer, subject and extensions are the DER encodings, made of bytes, of names and of
-- extensions as `validate_name` and `validate_extensions` accept them (no extensions if the field is absent),
-- `validate_profile` accepts exactly if: the two signature algorithms are equal; the field for extensions is absent
-- or the version is 2; a GeneralizedTime has a year from 2050 on and no fraction; no two extensions, at different
-- places, have the same `extn_id`; the issuer has a relative distinguished name; and no relative distinguished name
-- of the issuer or the subject has two attributes, at different places, of the same type (SEQUENCEs that begin with
-- the encoding of the same OBJECT IDENTIFIER).
pub validate_profile_iff :
    (cert : Certificate) (issuer subject : List (List Tlv)) (es : List Extension)
    → HasParts cert issuer subject es
    → (validate_profile cert ≡ ok tt) ↔ Conforms cert issuer subject es
unfolding validate_profile
validate_profile_iff cert issuer subject es ((hi, bi, ei), (hs, bs, es'), hx) =
    let tbs = cert.tbs_certificate in
    let nb = tbs.validity.not_before in
    let na = tbs.validity.not_after in
    let guards =
      guards_iff (same_algorithm cert.signature_algorithm tbs.signature) tbs.extensions
        tbs.version in
    let algorithms = same_algorithm_iff cert.signature_algorithm tbs.signature in
    let c1 = check_year_iff nb not_before_generalized_time_year_too_early in
    let c2 = check_year_iff na not_after_generalized_time_year_too_early in
    let c3 = check_fraction_iff nb not_before_generalized_time_has_fraction in
    let c4 = check_fraction_iff na not_after_generalized_time_has_fraction in
    let c5 = check_extensions_iff tbs.extensions es hx in
    let c6 = issuer_iff tbs.issuer issuer hi ei in
    let c7 = repeated_type_iff issuer_duplicate_attribute_type tbs.issuer issuer hi bi ei in
    let c8 = repeated_type_iff subject_duplicate_attribute_type tbs.subject subject hs bs es' in
    (
      λ h.
          let (same, version, h0) = (guards _).0 h in
          let (p1, h1) = (then_iff _ _).0 h0 in
          let (p2, h2) = (then_iff _ _).0 h1 in
          let (p3, h3) = (then_iff _ _).0 h2 in
          let (p4, h4) = (then_iff _ _).0 h3 in
          let (p5, h5) = (then_iff _ _).0 h4 in
          let (p6, h6) = (then_iff _ _).0 h5 in
          let (p7, p8) = (then_iff _ _).0 h6 in
          (
            algorithms.0 same,
            version,
            c1.0 p1,
            c2.0 p2,
            c3.0 p3,
            c4.0 p4,
            c5.0 p5,
            c6.0 p6,
            c7.0 p7,
            c8.0 p8,
          ),
      λ (same, version, q1, q2, q3, q4, q5, q6, q7, q8). (guards _).1 (
        algorithms.1 same,
        version,
        (then_iff _ _).1 (
          c1.1 q1,
          (then_iff _ _).1 (
            c2.1 q2,
            (then_iff _ _).1 (
              c3.1 q3,
              (then_iff _ _).1 (
                c4.1 q4,
                (then_iff _ _).1
                    (c5.1 q5, (then_iff _ _).1 (c6.1 q6, (then_iff _ _).1 (c7.1 q7, c8.1 q8))),
              ),
            ),
          ),
        ),
      ),
    )
