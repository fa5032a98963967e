-- ===== src/X509TbsCertificate/Version.antt =====
-- The version of a TBSCertificate: left out for v1, an INTEGER 1 or 2 in a wrapper `[0]` for v2 and v3.
use rs_verified_der.Base.{
  ℕ, zero, suc, ◌≤◌, ◌≡◌, ◌≢◌, refl, ap, sym, ◌∙◌, arith, false, not, ◌&&◌, List, [], ◌∷◌, ◌++◌,
  append-nil, length, drop, ◌==◌, ◌!=◌, inl, inr,
}
use rs_verified_der.Base.Codec.{At, IsBytes}
use rs_verified_der.Base.Codec.{split-whole}
use rs_verified_der.Base.Int.{ℤ, pos, negsuc}
use rs_verified_der.Base.Result.{
  ok, panic, Ensures, holds, rejected, Ensures-bind, Ensures-if, Ensures-map_err, Ensures-cases,
  Ensures-self, Ensures-weaken,
}
use rs_verified_der.Base.Slices.{slice_from_in, slice_from-append}
use rs_verified_der.BigInteger.{strip, validate_integer_content}
use rs_verified_der.BigInteger.Value.{twos_value, be_value}
use rs_verified_der.BigInteger.Minimal.{strip_unique, strip-of_valid, valid-ne-nil}
use rs_verified_der.ContextTag.{
  explicit_octets, context_tag, decode_explicit_context-Ensures, decode_explicit_context-octets,
}
use rs_verified_der.Integer
use rs_verified_der.Integer.{decode_integer}
use rs_verified_der.Integer.Decode.{decode_integer_iff, decode_integer-cons}
use rs_verified_der.Tiling.{At-Left}
use rs_verified_der.Tlv.{Tlv, decode_tlv}
use rs_verified_der.Tlv.Decode.{decode_tlv-Ensures, decode_tlv-octets}
use rs_verified_der.Tlv.Octets.{IsTlv, tlv_octets}
use rs_verified_der.Tlv.Typed.{
  universal_tag, wrap, wrap_octets, Fits, At-wrapped, At-IsBytes, typed-Ensures,
}
use rs_verified_der.X509TbsCertificate.{
  TbsCertificateError, bad_version_tag, bad_version_inner_tlv, version_inner_wrong_tag,
  version_inner_constructed, bad_version_int, is_context, check_version, read_inner_version,
  read_version,
}

abbrev pub integer_octets : ℕ → List ℕ
integer_octets v = wrap_octets (universal_tag false Integer.tag) (v ∷ [])

abbrev pub version_octets : ℕ → List ℕ
version_octets zero = []
version_octets (suc v) = explicit_octets 0 (integer_octets (suc v))

decode_integer-ne-panic : (content : List ℕ) → IsBytes content → decode_integer content ≢ panic
decode_integer-ne-panic [] bytes e = unfold decode_integer in cc
decode_integer-ne-panic (c ∷ rest) bytes e =
    let all = sym (decode_integer-cons c rest bytes) ∙ e in ground arith

octet_value : (v : ℕ) → v ≤ 2 → twos_value (v ∷ []) ≡ pos v
unfolding twos_value be_value
octet_value v h = ground arith

octet_valid : (v : ℕ) → validate_integer_content (v ∷ []) ≡ ok tt
unfolding validate_integer_content
octet_valid v = refl

octet-IsBytes : (v : ℕ) → v ≤ 2 → IsBytes (v ∷ [])
octet-IsBytes v h = (omega arith, tt)

-- The minimal content of a small INTEGER.
version_content :
    (content : List ℕ) (v : ℕ)
    → IsBytes content
    → v ≤ 2
    → decode_integer content ≡ ok (pos v)
    → content ≡ v ∷ []
version_content content v bytes small e =
    let (valid, short, value) = (decode_integer_iff content (pos v) bytes).0 e in
    let same : strip content ≡ strip (v ∷ []) =
      strip_unique content (v ∷ []) (valid-ne-nil content valid)
        (valid-ne-nil (v ∷ []) (octet_valid v)) bytes (octet-IsBytes v small)
        (value ∙ sym (octet_value v small)) in
    sym (strip-of_valid content valid) ∙ same ∙ strip-of_valid (v ∷ []) (octet_valid v)

version_read : (v : ℕ) → v ≤ 2 → decode_integer (v ∷ []) ≡ ok (pos v)
version_read v small =
    (decode_integer_iff (v ∷ []) (pos v) (octet-IsBytes v small)).1
      (octet_valid v, omega arith, octet_value v small)

check_version-Ensures : (z : ℤ) → Ensures (λ v. (z ≡ pos v) × (1 ≤ v) × (v ≤ 2)) (check_version z)
check_version-Ensures (pos v) =
    Ensures-if (v == 0) (λ _. rejected)
      λ some.
        Ensures-if (v != 1 && v != 2) (λ _. rejected)
          λ known. holds (refl, ground arith, ground arith)
check_version-Ensures (negsuc v) = rejected

read_inner_version-Ensures :
    (inner : List ℕ)
    → IsBytes inner
    → Ensures (λ v. (1 ≤ v) × (v ≤ 2) × (inner ≡ integer_octets v)) (read_inner_version inner)
unfolding read_inner_version
read_inner_version-Ensures inner bytes =
    Ensures-bind (Ensures-map_err bad_version_inner_tlv (decode_tlv-Ensures inner bytes))
      λ (t, k) at.
        typed-Ensures _ t Integer.tag false t.tag.constructed version_inner_wrong_tag
          version_inner_constructed _ (λ h. h)
          λ e.
            let (fits, size, split) = At-wrapped inner t k (universal_tag false Integer.tag) at e in
            let value = (At-IsBytes inner t k bytes at).0 in
            Ensures-if (k != length inner) (λ _. rejected)
              λ all.
                Ensures-bind
                  (Ensures-map_err bad_version_int
                    (Ensures-self (decode_integer t.value) (decode_integer-ne-panic t.value value)))
                  λ z read.
                    Ensures-weaken
                      (λ v (same, one, two). (
                        one,
                        two,
                        split-whole inner _ k (ground arith) split
                            ∙ ap (wrap_octets (universal_tag false Integer.tag)) (
                                version_content t.value v value two
                                  (read ∙ ap (λ (y : ℤ). ok y) same)),
                      ))
                      (check_version-Ensures z)

read_inner_version-octets : (v : ℕ) → 1 ≤ v → v ≤ 2 → read_inner_version (integer_octets v) ≡ ok v
unfolding read_inner_version
read_inner_version-octets v one two =
    let octets = integer_octets v in
    let read : decode_tlv octets
        ≡ ok (wrap (universal_tag false Integer.tag) (v ∷ []), length octets) =
      ap decode_tlv (sym (append-nil octets))
      ∙ decode_tlv-octets (wrap (universal_tag false Integer.tag) (v ∷ [])) []
          (omega arith, omega arith) in
    rw (read, version_read v two) (ground arith)

abbrev IsLeft : List ℕ → ℕ × List ℕ → Type 0
IsLeft content (v, rest) = (v ≤ 2) × IsBytes rest × (content ≡ version_octets v ++ rest)

version_octets-one : (v : ℕ) → 1 ≤ v → version_octets v ≡ explicit_octets 0 (integer_octets v)
version_octets-one zero h = absurd (omega arith)
version_octets-one (suc v) h = refl

pub read_version-Ensures :
    (content : List ℕ)
    → IsBytes content
    → Ensures (IsLeft content) (read_version content (decode_tlv content))
unfolding read_version
read_version-Ensures content bytes = elim (Ensures-cases (decode_tlv-Ensures content bytes)) [
  | inr (x, e) ↦ rw e (holds (omega arith, bytes, refl))
  | inl ((t, k), _, e) ↦ rw e (
      Ensures-if (not (is_context 0 t)) (λ _. holds (omega arith, bytes, refl))
        λ _.
          Ensures-bind
            (Ensures-map_err bad_version_tag (decode_explicit_context-Ensures 0 content bytes))
            λ (inner, used) at.
              let (within, (fits, behind, split)) =
                At-Left Fits (explicit_octets 0) content inner used bytes at in
              Ensures-bind (read_inner_version-Ensures inner (inner-IsBytes inner used at))
                λ v (one, two, same).
                  rw (slice_from_in {E = TbsCertificateError} content used within) (
                    holds (
                      two,
                      behind,
                      split
                          ∙ ap (λ c. explicit_octets 0 c ++ drop used content) same
                          ∙ ap (λ c. c ++ drop used content) (sym (version_octets-one v one)),
                    )))
]
  where
    inner-IsBytes :
        (inner : List ℕ) (used : ℕ)
        → At Fits (explicit_octets 0) content (inner, used)
        → IsBytes inner
    inner-IsBytes inner used (fits, size, split) =
        (At-IsBytes content (wrap (context_tag 0) inner) used bytes
          ((omega arith, fits), size, split)).0

inner-Fits : (v : ℕ) → Fits (integer_octets v)
unfolding rs_verified_der.Tag.Octets.tag_octets rs_verified_der.Length.Octets.length_octets
inner-Fits v = omega arith

pub read_version-octets :
    (v : ℕ) (t : Tlv) (rest : List ℕ)
    → v ≤ 2
    → IsTlv t
    → is_context 0 t ≡ false
    → let content = version_octets v ++ (tlv_octets t ++ rest) in
      read_version content (decode_tlv content) ≡ ok (v, tlv_octets t ++ rest)
unfolding read_version
read_version-octets zero t rest small h other = rw (decode_tlv-octets t rest h, other) refl
read_version-octets (suc v) t rest small h other =
    let inner = integer_octets (suc v) in
    rw
      (
        decode_tlv-octets (wrap (context_tag 0) inner) (tlv_octets t ++ rest)
            (omega arith, inner-Fits (suc v)),
        decode_explicit_context-octets 0 inner (tlv_octets t ++ rest) (omega arith)
            (inner-Fits (suc v)),
        read_inner_version-octets (suc v) (omega arith) small,
        slice_from-append {E = TbsCertificateError} (explicit_octets 0 inner)
            (tlv_octets t ++ rest),
      )
      refl
