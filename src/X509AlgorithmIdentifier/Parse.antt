-- ===== src/X509AlgorithmIdentifier/Parse.antt =====
-- `parse_algorithm_identifier` reads the encodings of an OID with at most one TLV of a legal form.
use rs_verified_der.Base.{
  ℕ, ◌-◌, ◌≤◌, ◌≡◌, ◌≢◌, ◌↔◌, refl, ap, sym, ◌∙◌, subst, arith, List, [], ◌∷◌, ◌++◌, append-nil,
  length, length-append, take, drop, take-append, Bool, true, bit_and, ◌==◌, Option, some, none,
  All-split, false, ◌!=◌, Bool-cases, inl, inr,
}
use rs_verified_der.Base.Codec
use rs_verified_der.Base.Codec.{ContentCodec, split-whole, Codec, At, IsByte, IsBytes}
use rs_verified_der.Base.Result.{
  ok, panic, Ensures, holds, rejected, Ensures-if, Ensures-bind, Ensures-map_err,
}
use rs_verified_der.Base.Slices.{slice_from_in, slice_from-append, slice_in}
use rs_verified_der.IdentifierForm.Legal.{IsCheckedTlv, validate-Ensures, validate_complete}
use rs_verified_der.Oid
use rs_verified_der.Oid.{validate_oid, scan}
use rs_verified_der.Sequence.Envelope.{sequence_octets}
use rs_verified_der.Sequence.Fields.{parse_prefix-Ensures, parse_prefix-octets}
use rs_verified_der.Tlv.{Tlv, decode_tlv}
use rs_verified_der.Tlv.Decode.{decode_tlv-Ensures, decode_tlv-octets}
use rs_verified_der.Tlv.Octets.{tlv_octets, tlv_octets_size}
use rs_verified_der.Tlv.Field.{is_empty, read_field-Ensures, read_field-octets}
use rs_verified_der.Tlv.Typed.{universal_tag, wrap_octets, Fits}
use rs_verified_der.X509AlgorithmIdentifier.{
  AlgorithmIdentifier, AlgIdError, bad_seq, bad_oid_tlv, oid_wrong_tag, oid_constructed, bad_oid,
  bad_parameters_tlv, parameters_form, decode_oid_tlv, parse_parameters, parse_content,
  parse_algorithm_identifier,
}

scan-ne-panic : (s : Bool) (content : List ℕ) → scan s content ≢ panic
unfolding scan
scan-ne-panic s [] h = cc
scan-ne-panic s (b ∷ rest) h = ground (arith, scan-ne-panic (bit_and b 0x80 == 0) rest)

pub validate_oid-ne-panic : (content : List ℕ) → validate_oid content ≢ panic
unfolding validate_oid
validate_oid-ne-panic [] h = cc
validate_oid-ne-panic (b ∷ rest) h = ground (arith, scan-ne-panic true (b ∷ rest))

-- The content octets of an OID that `validate_oid` accepts.
abbrev pub IsOid : List ℕ → Type 0
IsOid content = Fits content × (validate_oid content ≡ ok tt)

abbrev pub oid_tlv_octets : List ℕ → List ℕ
oid_tlv_octets = wrap_octets (universal_tag false Oid.tag)

oid_codec : Codec AlgIdError (List ℕ)
unfolding decode_oid_tlv
oid_codec = record {
  decode = decode_oid_tlv;
  Is = IsOid;
  octets = oid_tlv_octets;
  sound =
      read_field-Ensures bad_oid_tlv oid_wrong_tag oid_constructed bad_oid Oid.tag (omega arith)
        validate_oid validate_oid-ne-panic;
  complete =
      read_field-octets bad_oid_tlv oid_wrong_tag oid_constructed bad_oid Oid.tag (omega arith)
        validate_oid validate_oid-ne-panic;
}

-- The parameters, if any, are the octets of one TLV of a legal form.
abbrev pub IsParameters : Option (List ℕ) → Type 0
IsParameters none = Unit
IsParameters (some raw) = (t : Tlv) × IsCheckedTlv t × (raw ≡ tlv_octets t)

abbrev pub parameters_octets : Option (List ℕ) → List ℕ
parameters_octets none = []
parameters_octets (some raw) = raw

take_whole : (xs : List ℕ) (k : ℕ) → k ≡ length xs → take (k - 0) (drop 0 xs) ≡ xs
take_whole xs k all =
    let width : k - 0 ≡ length xs = omega (arith, all) in
    rw width (ap (take (length xs)) (sym (append-nil xs)) ∙ take-append xs [])

parse_parameters-Ensures :
    (rest : List ℕ)
    → IsBytes rest
    → Ensures (λ p. IsParameters p × (rest ≡ parameters_octets p)) (parse_parameters rest)
unfolding parse_parameters
parse_parameters-Ensures [] bytes = holds (tt, refl)
parse_parameters-Ensures (b ∷ more) bytes =
    let rest = b ∷ more in
    Ensures-bind (Ensures-map_err bad_parameters_tlv (decode_tlv-Ensures rest bytes))
      λ (t, k) (h, size, split).
        Ensures-if (k != length rest) (λ _. rejected)
          λ whole.
            let all : k ≡ length rest = ground arith in
            Ensures-bind (Ensures-map_err parameters_form (validate-Ensures t.tag)) λ _ legal.
              rw (slice_in {E = AlgIdError} rest 0 k (omega arith) (omega arith)) (
                holds (
                  (
                    t,
                    (h, legal),
                    take_whole rest k all ∙ split-whole rest (tlv_octets t) k all split,
                  ),
                  sym (take_whole rest k all),
                ))

tlv_octets-ne-nil : (t : Tlv) → tlv_octets t ≢ []
tlv_octets-ne-nil t e = omega (arith, ap (λ (t : List ℕ). length t) e, tlv_octets_size t)

is_empty-nil : (xs : List ℕ) → is_empty xs ≡ true → xs ≡ []
is_empty-nil [] h = refl
is_empty-nil (x ∷ xs) h = cc

pub is_empty-tlv_octets : (t : Tlv) → is_empty (tlv_octets t) ≡ false
is_empty-tlv_octets t = elim (Bool-cases (is_empty (tlv_octets t))) [
  | inl e ↦ absurd (tlv_octets-ne-nil t (is_empty-nil (tlv_octets t) e))
  | inr e ↦ e
]

parse_parameters-octets :
    (p : Option (List ℕ)) → IsParameters p → parse_parameters (parameters_octets p) ≡ ok p
unfolding parse_parameters
parse_parameters-octets none h = refl
parse_parameters-octets (some raw) (t, (h, legal), e) =
    let octets = tlv_octets t in
    let read : decode_tlv octets ≡ ok (t, length octets) =
      ap decode_tlv (sym (append-nil octets)) ∙ decode_tlv-octets t [] h in
    let cut = slice_in {E = AlgIdError} octets 0 (length octets) (omega arith) (omega arith) in
    rw
      (
        e,
        is_empty-tlv_octets t,
        read,
        validate_complete t.tag legal,
        cut,
        take_whole octets (length octets) refl,
      )
      (ground arith)

-- An OID and its parameters.
abbrev pub IsContent : AlgorithmIdentifier → Type 0
IsContent a = IsOid a.algorithm_oid × IsParameters a.parameters

abbrev pub content_octets : AlgorithmIdentifier → List ℕ
content_octets a = oid_tlv_octets a.algorithm_oid ++ parameters_octets a.parameters

parse_content-Ensures :
    (content : List ℕ)
    → IsBytes content
    → Ensures (λ a. IsContent a × (content ≡ content_octets a)) (parse_content content)
unfolding parse_content oid_codec
parse_content-Ensures content bytes =
    Ensures-bind (Codec.sound oid_codec content bytes) λ (oid, k) (h, size, split).
      let within : k ≤ length content = omega (
        arith,
        ap (λ (t : List ℕ). length t) split,
        length-append (oid_tlv_octets oid) (drop k content),
      ) in
      let behind =
        (All-split IsByte (oid_tlv_octets oid) (drop k content) (subst IsBytes split bytes)).1 in
      rw (slice_from_in {E = AlgIdError} content k within) (
        Ensures-bind (parse_parameters-Ensures (drop k content) behind)
          λ p (good, e). holds ((h, good), split ∙ ap (λ t. oid_tlv_octets oid ++ t) e))

parse_content-octets :
    (a : AlgorithmIdentifier) → IsContent a → parse_content (content_octets a) ≡ ok a
unfolding parse_content oid_codec
parse_content-octets a (h, good) =
    rw
      (
        Codec.complete oid_codec a.algorithm_oid (parameters_octets a.parameters) h,
        slice_from-append {E = AlgIdError} (oid_tlv_octets a.algorithm_oid)
            (parameters_octets a.parameters),
        parse_parameters-octets a.parameters good,
      )
      refl

content_codec : ContentCodec AlgIdError AlgorithmIdentifier
content_codec = record {
  parse = parse_content;
  Is = IsContent;
  octets = content_octets;
  sound = parse_content-Ensures;
  complete = parse_content-octets;
}

abbrev pub IsAlgorithmIdentifier : AlgorithmIdentifier → Type 0
IsAlgorithmIdentifier a = IsContent a × Fits (content_octets a)

abbrev pub algorithm_identifier_octets : AlgorithmIdentifier → List ℕ
algorithm_identifier_octets a = sequence_octets (content_octets a)

pub parse_algorithm_identifier-Ensures :
    (input : List ℕ)
    → IsBytes input
    → Ensures
        (At IsAlgorithmIdentifier algorithm_identifier_octets input)
        (parse_algorithm_identifier input)
unfolding parse_algorithm_identifier content_codec
parse_algorithm_identifier-Ensures = parse_prefix-Ensures bad_seq content_codec

pub parse_algorithm_identifier-octets :
    (a : AlgorithmIdentifier) (rest : List ℕ)
    → IsAlgorithmIdentifier a
    → parse_algorithm_identifier (algorithm_identifier_octets a ++ rest)
      ≡ ok (a, length (algorithm_identifier_octets a))
unfolding parse_algorithm_identifier content_codec
parse_algorithm_identifier-octets = parse_prefix-octets bad_seq content_codec

abbrev pub algorithm_identifier_codec : Codec AlgIdError AlgorithmIdentifier
algorithm_identifier_codec = record {
  decode = parse_algorithm_identifier;
  Is = IsAlgorithmIdentifier;
  octets = algorithm_identifier_octets;
  sound = parse_algorithm_identifier-Ensures;
  complete = parse_algorithm_identifier-octets;
}

-- On bytes, `parse_algorithm_identifier` returns `(a, k)` exactly when the input begins with the DER
-- encoding of a SEQUENCE, of k octets, of an OID that `validate_oid` accepts and, if a has parameters,
-- of one TLV whose identifier has a form that X.690 allows, which are those parameters. Each content
-- has fewer than 2 ^ 32 octets.
pub parse_algorithm_identifier_iff :
    (input : List ℕ) (a : AlgorithmIdentifier) (k : ℕ)
    → IsBytes input
    → (parse_algorithm_identifier input ≡ ok (a, k))
      ↔ At IsAlgorithmIdentifier algorithm_identifier_octets input (a, k)
parse_algorithm_identifier_iff = Codec.decode_iff algorithm_identifier_codec
