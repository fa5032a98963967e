-- ===== src/IdentifierForm/Legal.antt =====
-- The identifiers that X.690 allows, and the checked TLV reader against them.
use rs_verified_der.Base.{
  ℕ, ◌≤◌, ◌≡◌, ◌≢◌, ◌↔◌, ◌⊎◌, inl, inr, refl, sym, ◌∙◌, arith, Bool, true, false, List, ◌++◌,
  length, Bool-cases,
}
use rs_verified_der.Base.Codec
use rs_verified_der.Base.Codec.{Codec, At, IsBytes}
use rs_verified_der.Base.Result.{
  Result, ok, err, panic, Ensures, holds, rejected, Ensures-bind, Ensures-map_err,
}
use rs_verified_der.IdentifierForm.{
  RequiredForm, primitive_form, constructed_form, unspecified, FormError, CheckedTlvError, tlv,
  form, required_form, check_form, validate_identifier_form, decode_tlv_form_checked,
  decode_tlv_form_checked_strict,
}
use rs_verified_der.Tag.{Tag, class_eq, universal}
use rs_verified_der.Tlv.{Tlv}
use rs_verified_der.Tlv.Error.{trailing_data}
use rs_verified_der.Tlv.Typed.{class_eq→eq}
use rs_verified_der.Tlv.Octets.{IsTlv, tlv_octets}
use rs_verified_der.Tlv.Decode.{decode_tlv-Ensures, decode_tlv-octets}

-- The UNIVERSAL types that are sequences of components: EXTERNAL, EMBEDDED PDV, SEQUENCE, SET and
-- CHARACTER STRING. The other assigned numbers are simple types or, in DER, primitive strings.
abbrev pub IsStructured : ℕ → Type 0
IsStructured n = (n ≡ 8) ⊎ (n ≡ 11) ⊎ (n ≡ 16) ⊎ (n ≡ 17) ⊎ (n ≡ 29)

abbrev pub IsSimple : ℕ → Type 0
IsSimple n = (1 ≤ n) × (n ≤ 36) × (n ≢ 15) × (n ≢ 8) × (n ≢ 11) × (n ≢ 16) × (n ≢ 17) × (n ≢ 29)

abbrev pub IsLegal : Tag → Type 0
IsLegal t =
    t.class ≡ universal
    → (t.number ≢ 0)
      × (IsStructured t.number → t.constructed ≡ true)
      × (IsSimple t.number → t.constructed ≡ false)

required_form-structured : (n : ℕ) → IsStructured n → required_form n ≡ constructed_form
unfolding required_form
required_form-structured n h = ground arith

required_form-simple : (n : ℕ) → IsSimple n → required_form n ≡ primitive_form
unfolding required_form
required_form-simple n h = ground arith

IsStructured-required_form : (n : ℕ) → required_form n ≡ constructed_form → IsStructured n
unfolding required_form
IsStructured-required_form n h = ground arith

IsSimple-required_form : (n : ℕ) → required_form n ≡ primitive_form → IsSimple n
unfolding required_form
IsSimple-required_form n h = ground arith

check_form_sound :
    (n : ℕ) (b : Bool) (r : RequiredForm)
    → required_form n ≡ r
    → check_form r b ≡ ok tt
    → (IsStructured n → b ≡ true) × (IsSimple n → b ≡ false)
check_form_sound n true primitive_form e h = cc
check_form_sound n false primitive_form e h =
    ((λ s. absurd (clash (required_form-structured n s))), λ _. refl)
  where
    clash : required_form n ≡ constructed_form → ⊥
    clash f = cc
check_form_sound n true constructed_form e h =
    ((λ _. refl), (λ s. absurd (clash (required_form-simple n s))))
  where
    clash : required_form n ≡ primitive_form → ⊥
    clash f = cc
check_form_sound n false constructed_form e h = cc
check_form_sound n b unspecified e h = (
  (λ s. absurd (first (required_form-structured n s))),
  (λ s. absurd (second (required_form-simple n s))),
)
  where
    first : required_form n ≡ constructed_form → ⊥
    first f = cc

    second : required_form n ≡ primitive_form → ⊥
    second f = cc

check_form_complete :
    (n : ℕ) (b : Bool) (r : RequiredForm)
    → required_form n ≡ r
    → (IsStructured n → b ≡ true)
    → (IsSimple n → b ≡ false)
    → check_form r b ≡ ok tt
check_form_complete n b primitive_form e h k = rw (k (IsSimple-required_form n e)) refl
check_form_complete n b constructed_form e h k = rw (h (IsStructured-required_form n e)) refl
check_form_complete n b unspecified e h k = refl

check_form-ne-panic : (r : RequiredForm) (b : Bool) → check_form r b ≢ panic
check_form-ne-panic r b = ground arith

class_eq-universal : (t : Tag) → t.class ≡ universal → class_eq t.class universal ≡ true
class_eq-universal t e = rw e refl

validate-universal :
    (t : Tag)
    → t.class ≡ universal
    → t.number ≢ 0
    → validate_identifier_form t ≡ check_form (required_form t.number) t.constructed
unfolding validate_identifier_form
validate-universal t e h = ground (arith, class_eq-universal t e)

validate-reserved :
    (t : Tag) → t.class ≡ universal → t.number ≡ 0 → validate_identifier_form t ≢ ok tt
unfolding validate_identifier_form
validate-reserved t e h = ground (arith, class_eq-universal t e)

validate-other : (t : Tag) → class_eq t.class universal ≡ false → validate_identifier_form t ≡ ok tt
unfolding validate_identifier_form
validate-other t e = rw e refl

validate_sound : (t : Tag) → validate_identifier_form t ≡ ok tt → IsLegal t
validate_sound t h u =
    let nonzero : t.number ≢ 0 = λ zero. validate-reserved t u zero h in
    let checked = sym (validate-universal t u nonzero) ∙ h in
    let (structured, simple) =
      check_form_sound t.number t.constructed (required_form t.number) refl checked in
    (nonzero, structured, simple)

pub validate_complete : (t : Tag) → IsLegal t → validate_identifier_form t ≡ ok tt
validate_complete t legal = elim (Bool-cases (class_eq t.class universal)) [
  | inl e ↦
      let u = class_eq→eq t.class universal e in
      let (nonzero, structured, simple) = legal u in
      validate-universal t u nonzero
      ∙ check_form_complete t.number t.constructed (required_form t.number) refl structured simple
  | inr e ↦ validate-other t e
]

validate-ne-panic : (t : Tag) → validate_identifier_form t ≢ panic
unfolding validate_identifier_form
validate-ne-panic t h = ground (arith, check_form-ne-panic (required_form t.number) t.constructed)

-- `validate_identifier_form` accepts a tag exactly when it is not UNIVERSAL or, being UNIVERSAL, its
-- number is not 0, it is constructed if the number is that of EXTERNAL, EMBEDDED PDV, SEQUENCE, SET or
-- CHARACTER STRING, and primitive if it is another number from 1 to 36 than 15.
pub validate_identifier_form_iff : (t : Tag) → (validate_identifier_form t ≡ ok tt) ↔ IsLegal t
validate_identifier_form_iff t = (validate_sound t, validate_complete t)

-- The checked reader.
abbrev pub IsCheckedTlv : Tlv → Type 0
IsCheckedTlv t = IsTlv t × IsLegal t.tag

pub validate-Ensures : (t : Tag) → Ensures (λ _. IsLegal t) (validate_identifier_form t)
validate-Ensures t = outcome (validate_identifier_form t) refl
  where
    outcome :
        (r : Result FormError (Unit {0}))
        → validate_identifier_form t ≡ r
        → Ensures (λ _. IsLegal t) r
    outcome (ok tt) e = holds (validate_sound t e)
    outcome (err x) e = rejected
    outcome panic e = absurd (validate-ne-panic t e)

pub decode_tlv_form_checked-Ensures :
    (input : List ℕ)
    → IsBytes input
    → Ensures (At IsCheckedTlv tlv_octets input) (decode_tlv_form_checked input)
unfolding decode_tlv_form_checked
decode_tlv_form_checked-Ensures input bytes =
    Ensures-bind (Ensures-map_err tlv (decode_tlv-Ensures input bytes)) λ (t, k) (h, size, split).
      Ensures-bind (Ensures-map_err form (validate-Ensures t.tag))
        λ _ legal. holds ((h, legal), size, split)

pub decode_tlv_form_checked-octets :
    (t : Tlv) (rest : List ℕ)
    → IsCheckedTlv t
    → decode_tlv_form_checked (tlv_octets t ++ rest) ≡ ok (t, length (tlv_octets t))
unfolding decode_tlv_form_checked
decode_tlv_form_checked-octets t rest (h, legal) =
    rw (decode_tlv-octets t rest h, validate_complete t.tag legal) refl

abbrev pub checked_tlv_codec : Codec CheckedTlvError Tlv
checked_tlv_codec = record {
  decode = decode_tlv_form_checked;
  Is = IsCheckedTlv;
  octets = tlv_octets;
  sound = decode_tlv_form_checked-Ensures;
  complete = decode_tlv_form_checked-octets;
}

-- On bytes, `decode_tlv_form_checked_strict` returns t exactly when the whole input is the DER
-- encoding of t (a tag number and a length below 2 ^ 32 included) and the form of its tag is one
-- that X.690 allows.
pub decode_tlv_form_checked_strict_iff :
    (input : List ℕ) (t : Tlv)
    → IsBytes input
    → (decode_tlv_form_checked_strict input ≡ ok t) ↔ (IsCheckedTlv t × (input ≡ tlv_octets t))
unfolding decode_tlv_form_checked_strict
decode_tlv_form_checked_strict_iff = Codec.strict_iff checked_tlv_codec (tlv trailing_data)
