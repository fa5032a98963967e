-- ===== src/Profile/Extensions.antt =====
-- `check_extensions` on the extensions that `validate_extensions` accepts.
use rs_verified_der.Base.{
  ℕ, ◌≡◌, ◌↔◌, refl, ap, sym, ◌∙◌, subst, arith, true, false, List, [], ◌∷◌, ◌++◌, All, All-split,
  Option, none, some,
}
use rs_verified_der.Base.Codec.{IsByte, IsBytes}
use rs_verified_der.Base.Result.{ok}
use rs_verified_der.Profile.{
  ProfileError, duplicate_extension, extensions_repeat_an_id, check_extensions,
}
use rs_verified_der.Profile.Checks.{reject_iff}
use rs_verified_der.Profile.LeadingOid.{oid_of, LeadsWith→oid_of}
use rs_verified_der.Profile.Pairs.{
  Repeats, has_id, later, repeated, Agrees, repeated_iff, outcome_iff,
}
use rs_verified_der.Profile.Repeats.{has_repeated_leading_oid-elements}
use rs_verified_der.Sequence
use rs_verified_der.Sequence.Children.{children_octets}
use rs_verified_der.Sequence.Fields.{strict-octets}
use rs_verified_der.Tlv.{Tlv}
use rs_verified_der.Tlv.Octets.{IsTlv, header_octets}
use rs_verified_der.Tlv.Typed.{universal_tag, wrap}
use rs_verified_der.Walk.{members_octets}
use rs_verified_der.X509Extension
use rs_verified_der.X509Extension.{Extension}
use rs_verified_der.X509Extension.Members.{AreExtensions, extensions_octets}
use rs_verified_der.X509Extension.Parse.{IsExtension, content_octets, extension_octets, tail_octets}

-- The extensions as TLVs.
abbrev extension_tlv : Extension → Tlv
extension_tlv e = wrap (universal_tag true Sequence.tag) (content_octets e)

abbrev extension_tlvs : List Extension → List Tlv
extension_tlvs [] = []
extension_tlvs (e ∷ es) = extension_tlv e ∷ extension_tlvs es

extension_tlvs-octets :
    (es : List Extension)
    → members_octets X509Extension.validate_member IsExtension extension_octets es
      ≡ children_octets (extension_tlvs es)
unfolding members_octets children_octets
extension_tlvs-octets [] = refl
extension_tlvs-octets (e ∷ es) = ap (λ v. extension_octets e ++ v) (extension_tlvs-octets es)

extension_tlvs-IsTlv : (es : List Extension) → All IsExtension es → All IsTlv (extension_tlvs es)
extension_tlvs-IsTlv [] h = tt
extension_tlvs-IsTlv (e ∷ es) ((_, fits), hs) = ((omega arith, fits), extension_tlvs-IsTlv es hs)

-- The extensions of a certificate, none if it has no such field.
abbrev pub HasExtensions : Option (List ℕ) → List Extension → Type 0
HasExtensions none es = es ≡ []
HasExtensions (some inner) es = IsBytes inner × AreExtensions es × (inner ≡ extensions_octets es)

-- The identifier of an extension.
abbrev pub HasId : List ℕ → Extension → Type 0
HasId id e = e.extn_id ≡ id

extension_id : Extension → Option (List ℕ)
extension_id e = some e.extn_id

-- The code finds it as the leading OID of the encoding.
oid_of-extension_tlv : (e : Extension) → IsExtension e → oid_of (extension_tlv e) ≡ extension_id e
unfolding extension_id
oid_of-extension_tlv e (((fits, valid), _), _) =
    LeadsWith→oid_of e.extn_id (extension_tlv e) (tail_octets e, fits, refl)

has_id-extension_tlvs :
    (id : List ℕ) (es : List Extension)
    → All IsExtension es
    → has_id oid_of id (extension_tlvs es) ≡ has_id extension_id id es
unfolding has_id
has_id-extension_tlvs id [] hs = refl
has_id-extension_tlvs id (e ∷ es) (h, hs) =
    rw (oid_of-extension_tlv e h, has_id-extension_tlvs id es hs) refl

repeated-extension_tlvs :
    (es : List Extension)
    → All IsExtension es
    → repeated oid_of (extension_tlvs es) ≡ repeated extension_id es
unfolding repeated later extension_id
repeated-extension_tlvs [] hs = refl
repeated-extension_tlvs (e ∷ es) (h, hs) =
    rw
      (
        oid_of-extension_tlv e h,
        has_id-extension_tlvs e.extn_id es hs,
        repeated-extension_tlvs es hs,
      )
      refl

extensions-Agrees : (es : List Extension) → All (Agrees extension_id HasId) es
unfolding extension_id
extensions-Agrees [] = tt
extensions-Agrees (e ∷ es) = (λ id. (λ h. cc, λ h. ap some h), extensions-Agrees es)

repeat_an_id_iff :
    (es : List Extension)
    → AreExtensions es
    → IsBytes (extensions_octets es)
    → (extensions_repeat_an_id {E = ProfileError} (extensions_octets es) ≡ ok false)
      ↔ (Repeats HasId es → ⊥)
unfolding extensions_repeat_an_id
repeat_an_id_iff es (hs, _, fits) bytes =
    let outer = members_octets X509Extension.validate_member IsExtension extension_octets es in
    let inner =
      (All-split IsByte (header_octets (wrap (universal_tag true Sequence.tag) outer)) outer
        bytes).1 in
    let same = extension_tlvs-octets es in
    rw (strict-octets outer fits, same)
      (rw
        (
          has_repeated_leading_oid-elements {E = ProfileError} (extension_tlvs es)
              (extension_tlvs-IsTlv es hs) (subst IsBytes same inner),
          repeated-extension_tlvs es hs,
        )
        (outcome_iff (repeated extension_id es)
          (repeated_iff extension_id HasId es (extensions-Agrees es))).1)

no-Repeats : (es : List Extension) → es ≡ [] → Repeats HasId es → ⊥
no-Repeats es e ([], t, behind, id, split, _, _) = cc
no-Repeats es e (x ∷ front, t, behind, id, split, _, _) = cc

pub check_extensions_iff :
    (field : Option (List ℕ)) (es : List Extension)
    → HasExtensions field es
    → (check_extensions field ≡ ok tt) ↔ (Repeats HasId es → ⊥)
check_extensions_iff none es h = (λ _. no-Repeats es h, λ _. refl)
check_extensions_iff (some inner) es (bytes, h, e) =
    let both = repeat_an_id_iff es h (subst IsBytes e bytes) in
    let reject = reject_iff duplicate_extension (extensions_repeat_an_id inner) in
    (
      λ p. both.0 (ap extensions_repeat_an_id (sym e) ∙ reject.0 p),
      λ q. reject.1 (ap extensions_repeat_an_id e ∙ both.1 q),
    )
