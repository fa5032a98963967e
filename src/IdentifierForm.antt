-- ===== src/IdentifierForm.antt =====
-- der-verified/src/identifier_form.rs: the form, primitive or constructed, that a UNIVERSAL identifier
-- must have, and the TLV reader that requires it.
pub mod Legal
use rs_verified_der.Base.{ℕ, Bool, not, ◌&&◌, ◌||◌, List, length, leb, ◌==◌, ◌!=◌, if◌then◌else◌}
use rs_verified_der.Base.Result.{Result, ok, err, ◌>>=◌, map_err}
use rs_verified_der.Tag.{Tag, class_eq, universal}
use rs_verified_der.Tlv.{Tlv, decode_tlv}
use rs_verified_der.Tlv.Error.{TlvError, trailing_data}

pub data RequiredForm : Type 0 where
  primitive_form constructed_form unspecified : RequiredForm

pub data FormError : Type 0 where
  reserved_identifier must_be_primitive must_be_constructed : FormError

pub data CheckedTlvError : Type 0 where
  tlv : TlvError → CheckedTlvError
  form : FormError → CheckedTlvError

-- `from..=to`
abbrev between : ℕ → ℕ → ℕ → Bool
between from to n = leb from n && leb n to

unfoldable pub required_form : ℕ → RequiredForm
required_form number =
    if number == 1 || number == 2
    then primitive_form
    else if number == 3 || number == 4
    then primitive_form
    else if between 5 7 number
    then primitive_form
    else if number == 8
    then constructed_form
    else if number == 9 || number == 10
    then primitive_form
    else if number == 11
    then constructed_form
    else if between 12 14 number
    then primitive_form
    else if number == 15
    then unspecified
    else if number == 16 || number == 17
    then constructed_form
    else if between 18 28 number
    then primitive_form
    else if number == 29
    then constructed_form
    else if number == 30
    then primitive_form
    else if between 31 36 number
    then primitive_form
    else unspecified

-- The `match` on the required form.
abbrev pub check_form : RequiredForm → Bool → Result FormError (Unit {0})
check_form primitive_form constructed = if constructed then err must_be_primitive else ok tt
check_form constructed_form constructed = if not constructed then err must_be_constructed else ok tt
check_form unspecified constructed = ok tt

unfoldable pub validate_identifier_form : Tag → Result FormError (Unit {0})
validate_identifier_form tag =
    if not (class_eq tag.class universal)
    then ok tt
    else if tag.number == 0
    then err reserved_identifier
    else check_form (required_form tag.number) tag.constructed

unfoldable pub decode_tlv_form_checked : List ℕ → Result CheckedTlvError (Tlv × ℕ)
decode_tlv_form_checked input = do
  (t, used) ← map_err tlv (decode_tlv input)
  _ ← map_err form (validate_identifier_form t.tag)
  ok (t, used)

unfoldable pub decode_tlv_form_checked_strict : List ℕ → Result CheckedTlvError Tlv
decode_tlv_form_checked_strict input = do
  (t, used) ← decode_tlv_form_checked input
  if used != length input then err (tlv trailing_data) else ok t
