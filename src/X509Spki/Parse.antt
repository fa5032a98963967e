-- ===== src/X509Spki/Parse.antt =====
-- `parse_subject_public_key_info` reads the encodings of an AlgorithmIdentifier with a BIT STRING.
use rs_verified_der.Base.{
  ℕ, ◌≤◌, ◌≡◌, ◌↔◌, refl, ap, sym, ◌∙◌, subst, arith, List, [], ◌++◌, append-nil, length,
  length-append, drop, false, ◌!=◌, All-split,
}
use rs_verified_der.Base.Codec.{ContentCodec, split-whole, At, IsByte, IsBytes}
use rs_verified_der.Base.Result.{
  ok, Ensures, holds, rejected, Ensures-if, Ensures-bind, Ensures-map_err,
}
use rs_verified_der.Base.Slices.{slice_from_in, slice_from-append}
use rs_verified_der.BitString
use rs_verified_der.BitString.{
  BitString, BitStringError, decode_bit_string, bit_string_octets, IsBitString,
  decode_bit_string-Ensures, decode_bit_string_iff,
}
use rs_verified_der.Sequence.Envelope.{sequence_octets}
use rs_verified_der.Sequence.Fields.{parse_whole-Ensures, parse_whole-octets, parse_whole_iff}
use rs_verified_der.Tlv.Decode.{decode_tlv-Ensures, decode_tlv-octets}
use rs_verified_der.Tlv.Field.{is_empty}
use rs_verified_der.Tlv.Typed.{
  universal_tag, wrap, wrap_octets, Fits, At-wrapped, At-IsBytes, typed-Ensures,
}
use rs_verified_der.X509AlgorithmIdentifier.{AlgorithmIdentifier}
use rs_verified_der.X509AlgorithmIdentifier.Parse.{
  is_empty-tlv_octets, IsAlgorithmIdentifier, algorithm_identifier_octets,
  parse_algorithm_identifier-Ensures, parse_algorithm_identifier-octets,
}
use rs_verified_der.X509Spki.{
  SubjectPublicKeyInfo, SpkiError, map_algid_error, bad_outer_seq, bad_public_key_tlv,
  public_key_wrong_tag, public_key_constructed, bad_public_key, decode_public_key_tlv,
  parse_content, parse_subject_public_key_info,
}

-- A canonical BIT STRING of bytes that its length field can announce.
abbrev pub IsPublicKey : BitString → Type 0
IsPublicKey bs = IsBitString bs × IsBytes (bit_string_octets bs) × Fits (bit_string_octets bs)

abbrev pub public_key_octets : BitString → List ℕ
public_key_octets bs = wrap_octets (universal_tag false BitString.tag) (bit_string_octets bs)

decode_public_key_tlv-Ensures :
    (input : List ℕ)
    → IsBytes input
    → Ensures (At IsPublicKey public_key_octets input) (decode_public_key_tlv input)
unfolding decode_public_key_tlv
decode_public_key_tlv-Ensures input bytes =
    Ensures-bind (Ensures-map_err bad_public_key_tlv (decode_tlv-Ensures input bytes)) λ (t, k) at.
      typed-Ensures _ t BitString.tag false t.tag.constructed public_key_wrong_tag
        public_key_constructed _ (λ h. h)
        λ e.
          let (fits, size, split) = At-wrapped input t k (universal_tag false BitString.tag) at e in
          let inside = (At-IsBytes input t k bytes at).0 in
          Ensures-bind (Ensures-map_err bad_public_key (decode_bit_string-Ensures t.value inside))
            λ bs (h, same). holds (
              (h, subst IsBytes same inside, subst Fits same fits),
              size ∙ ap (λ v. length (wrap_octets (universal_tag false BitString.tag) v)) same,
              split
                  ∙ ap (λ v. wrap_octets (universal_tag false BitString.tag) v ++ drop k input)
                      same,
            )

decode_public_key_tlv-octets :
    (bs : BitString) (rest : List ℕ)
    → IsPublicKey bs
    → decode_public_key_tlv (public_key_octets bs ++ rest) ≡ ok (bs, length (public_key_octets bs))
unfolding decode_public_key_tlv
decode_public_key_tlv-octets bs rest (h, bytes, fits) =
    rw
      (
        decode_tlv-octets (wrap (universal_tag false BitString.tag) (bit_string_octets bs)) rest
            (omega arith, fits),
        (decode_bit_string_iff (bit_string_octets bs) bs bytes).1 (h, refl),
      )
      refl

abbrev pub algorithm : SubjectPublicKeyInfo → AlgorithmIdentifier
algorithm spki = record { algorithm_oid = spki.algorithm_oid; parameters = spki.parameters }

abbrev pub IsContent : SubjectPublicKeyInfo → Type 0
IsContent spki = IsAlgorithmIdentifier (algorithm spki) × IsPublicKey spki.subject_public_key

abbrev pub content_octets : SubjectPublicKeyInfo → List ℕ
content_octets spki =
    algorithm_identifier_octets (algorithm spki) ++ public_key_octets spki.subject_public_key

parse_content-Ensures :
    (content : List ℕ)
    → IsBytes content
    → Ensures (λ spki. IsContent spki × (content ≡ content_octets spki)) (parse_content content)
unfolding parse_content
parse_content-Ensures content bytes =
    Ensures-bind
      (Ensures-map_err map_algid_error (parse_algorithm_identifier-Ensures content bytes))
      λ (a, k) (h, size, split).
        let front = algorithm_identifier_octets a in
        let within : k ≤ length content =
          omega
            (arith, ap (λ (t : List ℕ). length t) split, length-append front (drop k content)) in
        let behind = (All-split IsByte front (drop k content) (subst IsBytes split bytes)).1 in
        rw (slice_from_in {E = SpkiError} content k within) (
          Ensures-if (is_empty (drop k content)) (λ _. rejected)
            λ _.
              Ensures-bind (decode_public_key_tlv-Ensures (drop k content) behind)
                λ (bs, used) (hb, size', split').
                  Ensures-if (used != length (drop k content)) (λ _. rejected)
                    λ all. holds (
                      (h, hb),
                      split
                          ∙ ap (λ t. front ++ t)
                              (split-whole (drop k content) (public_key_octets bs) used
                                (ground arith) split'),
                    ))

parse_content-octets :
    (spki : SubjectPublicKeyInfo) → IsContent spki → parse_content (content_octets spki) ≡ ok spki
unfolding parse_content
parse_content-octets spki (h, hb) =
    let key = public_key_octets spki.subject_public_key in
    let read : decode_public_key_tlv key ≡ ok (spki.subject_public_key, length key) =
      ap decode_public_key_tlv (sym (append-nil key))
      ∙ decode_public_key_tlv-octets spki.subject_public_key [] hb in
    rw
      (
        parse_algorithm_identifier-octets (algorithm spki) key h,
        slice_from-append {E = SpkiError} (algorithm_identifier_octets (algorithm spki)) key,
        is_empty-tlv_octets
            (wrap (universal_tag false BitString.tag) (bit_string_octets spki.subject_public_key)),
        read,
      )
      (ground arith)

content_codec : ContentCodec SpkiError SubjectPublicKeyInfo
content_codec = record {
  parse = parse_content;
  Is = IsContent;
  octets = content_octets;
  sound = parse_content-Ensures;
  complete = parse_content-octets;
}

abbrev pub IsSpki : SubjectPublicKeyInfo → Type 0
IsSpki spki = IsContent spki × Fits (content_octets spki)

abbrev pub spki_octets : SubjectPublicKeyInfo → List ℕ
spki_octets spki = sequence_octets (content_octets spki)

pub parse_subject_public_key_info-Ensures :
    (input : List ℕ)
    → IsBytes input
    → Ensures
        (λ spki. IsSpki spki × (input ≡ spki_octets spki))
        (parse_subject_public_key_info input)
unfolding parse_subject_public_key_info content_codec
parse_subject_public_key_info-Ensures = parse_whole-Ensures bad_outer_seq content_codec

pub parse_subject_public_key_info-octets :
    (spki : SubjectPublicKeyInfo)
    → IsSpki spki
    → parse_subject_public_key_info (spki_octets spki) ≡ ok spki
unfolding parse_subject_public_key_info content_codec
parse_subject_public_key_info-octets = parse_whole-octets bad_outer_seq content_codec

-- On bytes, `parse_subject_public_key_info` returns `spki` exactly when the whole input is the DER
-- encoding of the SEQUENCE of the AlgorithmIdentifier and the BIT STRING of `spki`: the OID is one
-- that `validate_oid` accepts, the parameters, if any, are one TLV whose identifier has an allowed form,
-- the BIT STRING is canonical, and each content has fewer than 2 ^ 32 octets.
pub parse_subject_public_key_info_iff :
    (input : List ℕ) (spki : SubjectPublicKeyInfo)
    → IsBytes input
    → (parse_subject_public_key_info input ≡ ok spki) ↔ (
        (IsContent spki × Fits (content_octets spki))
        × (input ≡ sequence_octets (content_octets spki)))
unfolding parse_subject_public_key_info content_codec
parse_subject_public_key_info_iff = parse_whole_iff bad_outer_seq content_codec
