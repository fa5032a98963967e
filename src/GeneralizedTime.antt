-- ===== src/GeneralizedTime.antt =====
-- der-verified/src/generalized_time.rs: GeneralizedTime content, `YYYYMMDDHHMMSS[.fff]Z`.
pub mod Fraction
pub mod Format
use rs_verified_der.Base.{
  ℕ, zero, suc, ◌+◌, ◌-◌, ◌*◌, ◌/◌, ◌%◌, Bool, true, false, not, ◌&&◌, ◌||◌, List, [], ◌∷◌, length,
  leb, ltb, ◌==◌, ◌!=◌, if◌then◌else◌,
}
use rs_verified_der.Base.Result.{Result, ok, err, panic, ◌>>=◌, index, slice, store}
use rs_verified_der.Digits.{is_ascii_digit, check_digits, two_digits, write_two}
use rs_verified_der.Tlv.Field.{is_empty}

abbrev pub tag : ℕ
tag = 24

pub record GeneralizedTime : Type 0 where
  pub year : ℕ
  pub month : ℕ
  pub day : ℕ
  pub hour : ℕ
  pub minute : ℕ
  pub second : ℕ
  pub fraction : List ℕ

pub data GeneralizedTimeError : Type 0 where
  bad_length non_digit not_zulu : GeneralizedTimeError
  month_range day_range hour_range minute_range second_range : GeneralizedTimeError
  bad_fraction_separator fraction_empty fraction_trailing_zero : GeneralizedTimeError

-- The loop of `fraction_is_canonical`.
unfoldable pub all_digits : List ℕ → Bool
all_digits [] = true
all_digits (b ∷ rest) = let more = all_digits rest in if not (is_ascii_digit b) then false else more

unfoldable pub fraction_is_canonical : {E : Type 0} → List ℕ → Result E Bool
fraction_is_canonical frac =
    if not (all_digits frac)
    then ok false
    else if is_empty frac
    then ok true
    else do last ← index frac (length frac - 1); ok (last != 0x30)

abbrev pub fields_in_range : GeneralizedTime → Bool
fields_in_range t =
    leb t.year 9999
    && leb 1 t.month
    && leb t.month 12
    && leb 1 t.day
    && leb t.day 31
    && leb t.hour 23
    && leb t.minute 59
    && leb t.second 59

-- The checks of the fraction digits.
unfoldable pub check_fraction : List ℕ → Result GeneralizedTimeError (List ℕ)
check_fraction frac = if is_empty frac then err fraction_empty else do
  _ ← check_digits non_digit (length frac) frac
  last ← index frac (length frac - 1)
  if last == 0x30 then err fraction_trailing_zero else ok frac

unfoldable pub read_fraction : List ℕ → ℕ → Result GeneralizedTimeError (List ℕ)
read_fraction content last = if last == 14 then slice content 14 14 else do
  separator ← index content 14
  if separator != 0x2e
      then err bad_fraction_separator
      else (slice content 15 last >>= check_fraction)

unfoldable pub decode_generalized_time : List ℕ → Result GeneralizedTimeError GeneralizedTime
decode_generalized_time content = if ltb (length content) 15 then err bad_length else do
  _ ← check_digits non_digit 14 content
  let last = length content - 1
  end ← index content last
  if end != 0x5a then err not_zulu else do
    century ← two_digits content 0
    year2 ← two_digits content 2
    let year = century * 100 + year2
    month ← two_digits content 4
    day ← two_digits content 6
    hour ← two_digits content 8
    minute ← two_digits content 10
    second ← two_digits content 12
    if ltb month 1 || ltb 12 month
        then err month_range
        else if ltb day 1 || ltb 31 day
        then err day_range
        else if ltb 23 hour
        then err hour_range
        else if ltb 59 minute
        then err minute_range
        else if ltb 59 second
        then err second_range
        else do
          fraction ← read_fraction content last
          ok (record {
            year = year;
            month = month;
            day = day;
            hour = hour;
            minute = minute;
            second = second;
            fraction = fraction;
          })

-- `while k < t.fraction.len() { out[pos + k] = t.fraction[k]; k += 1; }`, with the digits left.
unfoldable pub write_fraction : {E : Type 0} → List ℕ → ℕ → List ℕ → Result E (List ℕ)
write_fraction out pos [] = ok out
write_fraction out pos (digit ∷ rest) = do
  out' ← store out pos digit
  write_fraction out' (pos + 1) rest

-- The year, the other fields, and the fraction with the end.
unfoldable pub write_year : {E : Type 0} → List ℕ → ℕ → Result E (List ℕ)
write_year out year = do
  out₁ ← store out 0 (0x30 + year / 1000)
  out₂ ← store out₁ 1 (0x30 + year / 100 % 10)
  out₃ ← store out₂ 2 (0x30 + year / 10 % 10)
  store out₃ 3 (0x30 + year % 10)

unfoldable pub write_end : {E : Type 0} → List ℕ → List ℕ → Result E (ℕ × List ℕ)
write_end out fraction =
    if is_empty fraction then (store out 14 0x5a >>= λ done. ok (15, done)) else do
      out₁ ← store out 14 0x2e
      out₂ ← write_fraction out₁ 15 fraction
      let pos = 15 + length fraction
      out₃ ← store out₂ pos 0x5a
      ok (pos + 1, out₃)

-- `None` is `err tt`; a success is the count and `out` as it then is.
unfoldable pub encode_generalized_time_into :
    GeneralizedTime → List ℕ → Result (Unit {0}) (ℕ × List ℕ)
encode_generalized_time_into t out = if not (fields_in_range t) then err tt else do
  canonical ← fraction_is_canonical t.fraction
  if not canonical then err tt else do
    let total = 14 + (if is_empty t.fraction then 0 else 1 + length t.fraction) + 1
    if ltb (length out) total then err tt else do
      out₁ ← write_year out t.year
      out₂ ← write_two out₁ 4 t.month
      out₃ ← write_two out₂ 6 t.day
      out₄ ← write_two out₃ 8 t.hour
      out₅ ← write_two out₄ 10 t.minute
      out₆ ← write_two out₅ 12 t.second
      write_end out₆ t.fraction

abbrev pub require_no_fraction : GeneralizedTime → Bool
require_no_fraction t = is_empty t.fraction
