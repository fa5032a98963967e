-- ===== src/UtcTime.antt =====
-- der-verified/src/utc_time.rs: UTCTime content, `YYMMDDHHMMSSZ`.
pub mod Format
use rs_verified_der.Base.{
  ℕ, ◌+◌, Bool, not, ◌&&◌, ◌||◌, List, length, leb, ltb, ◌!=◌, if◌then◌else◌,
}
use rs_verified_der.Base.Result.{Result, ok, err, ◌>>=◌, index, store}
use rs_verified_der.Digits.{check_digits, two_digits, write_two}

abbrev pub tag : ℕ
tag = 23

pub record UtcTime : Type 0 where
  pub year2 : ℕ
  pub month : ℕ
  pub day : ℕ
  pub hour : ℕ
  pub minute : ℕ
  pub second : ℕ

pub data UtcTimeError : Type 0 where
  bad_length non_digit not_zulu : UtcTimeError
  month_range day_range hour_range minute_range second_range : UtcTimeError

abbrev pub fields_in_range : UtcTime → Bool
fields_in_range t =
    leb t.year2 99
    && leb 1 t.month
    && leb t.month 12
    && leb 1 t.day
    && leb t.day 31
    && leb t.hour 23
    && leb t.minute 59
    && leb t.second 59

unfoldable pub decode_utc_time : List ℕ → Result UtcTimeError UtcTime
decode_utc_time content = if length content != 13 then err bad_length else do
  _ ← check_digits non_digit 12 content
  last ← index content 12
  if last != 0x5a then err not_zulu else do
    year2 ← two_digits content 0
    month ← two_digits content 2
    day ← two_digits content 4
    hour ← two_digits content 6
    minute ← two_digits content 8
    second ← two_digits content 10
    if ltb month 1 || ltb 12 month
        then err month_range
        else if ltb day 1 || ltb 31 day
        then err day_range
        else if ltb 23 hour
        then err hour_range
        else if ltb 59 minute
        then err minute_range
        else if ltb 59 second
        then err second_range
        else ok (record {
          year2 = year2;
          month = month;
          day = day;
          hour = hour;
          minute = minute;
          second = second;
        })

-- `None` is `err tt`; a success is the count and `out` as it then is.
unfoldable pub encode_utc_time : UtcTime → List ℕ → Result (Unit {0}) (ℕ × List ℕ)
encode_utc_time t out =
    if not (fields_in_range t) then err tt else if ltb (length out) 13 then err tt else do
      out₁ ← write_two out 0 t.year2
      out₂ ← write_two out₁ 2 t.month
      out₃ ← write_two out₂ 4 t.day
      out₄ ← write_two out₃ 6 t.hour
      out₅ ← write_two out₄ 8 t.minute
      out₆ ← write_two out₅ 10 t.second
      out₇ ← store out₆ 12 0x5a
      ok (13, out₇)

-- `t.year2 as u16` is `t.year2`.
unfoldable pub full_year_rfc5280 : UtcTime → ℕ
full_year_rfc5280 t = if ltb t.year2 50 then 2000 + t.year2 else 1900 + t.year2
