-- ===== src/X509Extension/Members.antt =====
-- `validate_extensions` accepts the DER encodings of the sequences of at least one extension, and no more.
use rs_verified_der.Base.{
  ℕ, suc, ◌+◌, ◌≤◌, ◌<◌, ◌≡◌, ◌↔◌, refl, ap, ◌∙◌, subst, arith, true, List, [], ◌∷◌, ◌++◌, length,
  drop, All, All-split, ◌==◌,
}
use rs_verified_der.Base.Codec.{IsByte, IsBytes}
use rs_verified_der.Base.Result.{
  ok, slice, Ensures, holds, rejected, Ensures-bind, Ensures-if, Ensures-map_err, Ensures-ok,
}
use rs_verified_der.Base.Slices.{slice_from-append, slice-append}
use rs_verified_der.Sequence.{SequenceError, tlv}
use rs_verified_der.Sequence
use rs_verified_der.Sequence.Envelope.{sequence_octets}
use rs_verified_der.Sequence.Fields.{strict-Ensures, strict-octets}
use rs_verified_der.Tlv.Decode.{decode_tlv-Ensures, decode_tlv-octets}
use rs_verified_der.Tlv.Octets.{tlv_octets, tlv_octets_size}
use rs_verified_der.Tlv.Typed.{universal_tag, wrap, Fits}
use rs_verified_der.Walk.{members_octets, members_octets_size, IsMember, walk-Ensures, walk-members}
use rs_verified_der.X509Extension.{
  Extension, ExtensionsError, bad_outer_seq, bad_extension, bad_seq, validate_member,
  validate_extensions,
}
use rs_verified_der.X509Extension.Parse.{
  IsExtension, content_octets, extension_octets, parse_extension-Ensures, parse_extension-octets,
}

extension_filled : (e : Extension) → 1 ≤ length (extension_octets e)
extension_filled e =
    omega (arith, tlv_octets_size (wrap (universal_tag true Sequence.tag) (content_octets e)))

-- Extensions that fit the length field of their SEQUENCE, one at least.
abbrev pub AreExtensions : List Extension → Type 0
AreExtensions es =
    All IsExtension es
    × (1 ≤ length es)
    × Fits (members_octets validate_member IsExtension extension_octets es)

abbrev pub extensions_octets : List Extension → List ℕ
extensions_octets es =
    sequence_octets (members_octets validate_member IsExtension extension_octets es)

child-slice :
    (done rest octets tail : List ℕ) (used : ℕ)
    → used ≡ length octets
    → rest ≡ octets ++ tail
    → slice {E = ExtensionsError} (done ++ rest) (length done) (length done + used) ≡ ok octets
child-slice done rest octets tail used size split =
    rw (size, split) (slice-append {E = ExtensionsError} done octets tail)

validate_member-Ensures :
    (done : List ℕ) (b : ℕ) (bs : List ℕ)
    → IsBytes (b ∷ bs)
    → Ensures
        (IsMember validate_member IsExtension extension_octets (b ∷ bs))
        (validate_member (done ++ b ∷ bs) (length done))
unfolding validate_member
validate_member-Ensures done b bs bytes =
    let rest : List ℕ = b ∷ bs in
    rw (slice_from-append {E = ExtensionsError} done rest) (
      Ensures-bind
        (Ensures-map_err (λ e. bad_extension (bad_seq (tlv e))) (decode_tlv-Ensures rest bytes))
        λ (t, used) (h, size, split).
          let front =
            (All-split IsByte (tlv_octets t) (drop used rest) (subst IsBytes split bytes)).0 in
          rw (child-slice done rest (tlv_octets t) (drop used rest) used size split) (
            Ensures-bind
              (Ensures-map_err bad_extension (parse_extension-Ensures (tlv_octets t) front))
              λ e (good, same). holds (
                e,
                (
                  good,
                  size ∙ ap (λ (v : List ℕ). length v) same,
                  split ∙ ap (λ v. v ++ drop used rest) same,
                ),
              )))

validate_member-octets :
    (done : List ℕ) (e : Extension) (rest : List ℕ)
    → IsExtension e
    → validate_member (done ++ (extension_octets e ++ rest)) (length done)
      ≡ ok (length (extension_octets e))
unfolding validate_member
validate_member-octets done e rest (good, fits) =
    rw
      (
        slice_from-append {E = ExtensionsError} done (extension_octets e ++ rest),
        decode_tlv-octets (wrap (universal_tag true Sequence.tag) (content_octets e)) rest
            (omega arith, fits),
        slice-append {E = ExtensionsError} done (extension_octets e) rest,
        parse_extension-octets e (good, fits),
      )
      refl

pub validate_extensions-Ensures :
    (input : List ℕ)
    → IsBytes input
    → Ensures
        (λ _. (es : List Extension) × AreExtensions es × (input ≡ extensions_octets es))
        (validate_extensions input)
unfolding validate_extensions
validate_extensions-Ensures input bytes =
    Ensures-bind (Ensures-map_err bad_outer_seq (strict-Ensures input bytes))
      λ outer (behind, fits, split).
        Ensures-bind
          (walk-Ensures validate_member IsExtension extension_octets extension_filled
            validate_member-Ensures (suc (length outer)) [] outer 0 (omega arith) behind)
          λ n (es, hs, total, e).
            Ensures-if (n == 0) (λ _. rejected)
              λ some.
                holds (es, (hs, ground arith, subst Fits e fits), split ∙ ap sequence_octets e)

pub validate_extensions-octets :
    (es : List Extension) → AreExtensions es → validate_extensions (extensions_octets es) ≡ ok tt
unfolding validate_extensions
validate_extensions-octets es (hs, one, fits) =
    let outer = members_octets validate_member IsExtension extension_octets es in
    let enough : length es < suc (length outer) = omega (
      arith,
      members_octets_size validate_member IsExtension extension_octets extension_filled es,
    ) in
    rw
      (
        strict-octets outer fits,
        walk-members validate_member IsExtension extension_octets extension_filled
            validate_member-octets es (suc (length outer)) [] 0 hs enough,
      )
      (ground arith)

-- On bytes, `validate_extensions` accepts exactly the DER encodings of the SEQUENCE of some extensions, at
-- least one, each as `parse_extension` reads it, and with fewer than 2 ^ 32 octets together.
pub validate_extensions_iff :
    (input : List ℕ)
    → IsBytes input
    → (validate_extensions input ≡ ok tt)
      ↔ ((es : List Extension) × AreExtensions es × (input ≡ extensions_octets es))
validate_extensions_iff input bytes = (
  Ensures-ok (validate_extensions-Ensures input bytes),
  λ (es, h, e). ap validate_extensions e ∙ validate_extensions-octets es h,
)
