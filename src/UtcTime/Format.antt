-- ===== src/UtcTime/Format.antt =====
-- The one form of a UTCTime, and its decoder and encoder against it.
use rs_verified_der.Base.{
  ℕ, ◌+◌, ◌%◌, ◌≤◌, ◌≡◌, ◌↔◌, ◌⊎◌, refl, ap, sym, subst, arith, true, false, ◌||◌, List, [], ◌∷◌,
  ◌++◌, length, drop, ltb, ◌!=◌, Bool-cases, inl, inr,
}
use rs_verified_der.Base.Codec.{ContentCodec, parse_iff, IsBytes}
use rs_verified_der.Base.Result.{ok, err, Ensures, holds, rejected, Ensures-if, Ensures-bind, store}
use rs_verified_der.Digits.{
  two, number, two-append, IsDigit, check_digits-Ensures, check_digits-ok, two_digits-number,
  two_digits-two, first_twelve, write_two, write_two_in, store_in,
}
use rs_verified_der.UtcTime.{
  UtcTime, UtcTimeError, bad_length, non_digit, fields_in_range, decode_utc_time, encode_utc_time,
  full_year_rfc5280,
}

abbrev pub IsUtcTime : UtcTime → Type 0
IsUtcTime t =
    (t.year2 ≤ 99)
    × (1 ≤ t.month)
    × (t.month ≤ 12)
    × (1 ≤ t.day)
    × (t.day ≤ 31)
    × (t.hour ≤ 23)
    × (t.minute ≤ 59)
    × (t.second ≤ 59)

abbrev pub utc_octets : UtcTime → List ℕ
utc_octets t =
    two t.year2
    ++ (two t.month
        ++ (two t.day ++ (two t.hour ++ (two t.minute ++ (two t.second ++ (0x5a ∷ []))))))

decode_utc_time-thirteen :
    (a b c d e f g h p q r s z : ℕ)
    → let content = a ∷ b ∷ c ∷ d ∷ e ∷ f ∷ g ∷ h ∷ p ∷ q ∷ r ∷ s ∷ z ∷ [] in
      Ensures (λ t. IsUtcTime t × (content ≡ utc_octets t)) (decode_utc_time content)
unfolding decode_utc_time
decode_utc_time-thirteen a b c d e f g h p q r s z =
    let content = a ∷ b ∷ c ∷ d ∷ e ∷ f ∷ g ∷ h ∷ p ∷ q ∷ r ∷ s ∷ z ∷ [] in
    let E = UtcTimeError in
    Ensures-bind (check_digits-Ensures non_digit 12 content (omega arith))
      λ _ (ha, (hb, (hc, (hd, (he, (hf, (hg, (hh, (hp, (hq, (hr, (hs, _)))))))))))).
        Ensures-if (z != 0x5a) (λ _. rejected)
          λ zulu.
            rw
              (
                two_digits-number {E = E} content 0 a b refl refl ha hb,
                two_digits-number {E = E} content 2 c d refl refl hc hd,
                two_digits-number {E = E} content 4 e f refl refl he hf,
                two_digits-number {E = E} content 6 g h refl refl hg hh,
                two_digits-number {E = E} content 8 p q refl refl hp hq,
                two_digits-number {E = E} content 10 r s refl refl hr hs,
              )
              (Ensures-if (ltb (number c d) 1 || ltb 12 (number c d)) (λ _. rejected)
                λ month.
                  Ensures-if (ltb (number e f) 1 || ltb 31 (number e f)) (λ _. rejected)
                    λ day.
                      Ensures-if (ltb 23 (number g h)) (λ _. rejected)
                        λ hour.
                          Ensures-if (ltb 59 (number p q)) (λ _. rejected)
                            λ minute.
                              Ensures-if (ltb 59 (number r s)) (λ _. rejected)
                                λ second. holds (
                                  (
                                    ground arith,
                                    ground arith,
                                    ground arith,
                                    ground arith,
                                    ground arith,
                                    ground arith,
                                    ground arith,
                                    ground arith,
                                  ),
                                  spelled ha hb hc hd he hf hg hh hp hq hr hs (ground arith),
                                ))
  where
    spelled :
        IsDigit a
        → IsDigit b
        → IsDigit c
        → IsDigit d
        → IsDigit e
        → IsDigit f
        → IsDigit g
        → IsDigit h
        → IsDigit p
        → IsDigit q
        → IsDigit r
        → IsDigit s
        → z ≡ 0x5a
        → a ∷ b ∷ c ∷ d ∷ e ∷ f ∷ g ∷ h ∷ p ∷ q ∷ r ∷ s ∷ z ∷ []
          ≡ utc_octets (record {
            year2 = number a b;
            month = number c d;
            day = number e f;
            hour = number g h;
            minute = number p q;
            second = number r s;
          })
    spelled ha hb hc hd he hf hg hh hp hq hr hs zulu = two-append ha hb (
        two-append hc hd (
          two-append he hf
            (two-append hg hh (two-append hp hq (two-append hr hs (ap (λ x. x ∷ []) zulu))))))

decode_utc_time_short :
    (content : List ℕ) → (length content != 13) ≡ true → decode_utc_time content ≡ err bad_length
unfolding decode_utc_time
decode_utc_time_short content e = rw e refl

-- What the decoder ensures of one content.
abbrev pub IsRead : List ℕ → Type 0
IsRead content = Ensures (λ t. IsUtcTime t × (content ≡ utc_octets t)) (decode_utc_time content)

IsRead-twelve :
    (a b c d e f g h p q r s : ℕ) (rest : List ℕ)
    → length rest ≡ 1
    → IsRead (a ∷ b ∷ c ∷ d ∷ e ∷ f ∷ g ∷ h ∷ p ∷ q ∷ r ∷ s ∷ rest)
IsRead-twelve a b c d e f g h p q r s [] one = absurd (omega arith)
IsRead-twelve a b c d e f g h p q r s (z ∷ []) one =
    decode_utc_time-thirteen a b c d e f g h p q r s z
IsRead-twelve a b c d e f g h p q r s (z ∷ y ∷ rest) one = absurd (omega arith)

pub decode_utc_time-Ensures : (content : List ℕ) → IsBytes content → IsRead content
decode_utc_time-Ensures content bytes = elim (Bool-cases (length content != 13)) [
  | inl e ↦ rw (decode_utc_time_short content e) rejected
  | inr e ↦
      let (a, b, c, d, e', f, g, h, p, q, r, s, rest, split) =
        first_twelve content (ground arith) in
      let size : length content ≡ 12 + length rest =
        omega (arith, ap (λ (t : List ℕ). length t) split) in
      subst IsRead (sym split) (IsRead-twelve a b c d e' f g h p q r s rest (ground arith))
]

pub decode_utc_time-octets : (t : UtcTime) → IsUtcTime t → decode_utc_time (utc_octets t) ≡ ok t
unfolding decode_utc_time
decode_utc_time-octets t (hy, hm, hm', hd, hd', hh, hmin, hs) =
    let E = UtcTimeError in
    rw
      (
        check_digits-ok {E = E} non_digit 12 (utc_octets t) (omega arith) (omega arith),
        two_digits-two {E = E} (utc_octets t) 0 t.year2 refl refl hy,
        two_digits-two {E = E} (utc_octets t) 2 t.month refl refl (omega arith),
        two_digits-two {E = E} (utc_octets t) 4 t.day refl refl (omega arith),
        two_digits-two {E = E} (utc_octets t) 6 t.hour refl refl (omega arith),
        two_digits-two {E = E} (utc_octets t) 8 t.minute refl refl (omega arith),
        two_digits-two {E = E} (utc_octets t) 10 t.second refl refl (omega arith),
      )
      (ground arith)

unfoldable pub utc_time_codec : ContentCodec UtcTimeError UtcTime
utc_time_codec = record {
  parse = decode_utc_time;
  Is = IsUtcTime;
  octets = utc_octets;
  sound = decode_utc_time-Ensures;
  complete = decode_utc_time-octets;
}

-- On bytes, `decode_utc_time` returns t exactly when the content is the two decimal digits of each of the
-- year, the month, the day, the hour, the minute and the second of t, in this order, and `Z`, and the
-- fields of t are in the ranges of the format (month 1 to 12, day 1 to 31, hour up to 23, minute and
-- second up to 59, year up to 99).
pub decode_utc_time_iff :
    (content : List ℕ) (t : UtcTime)
    → IsBytes content
    → (decode_utc_time content ≡ ok t) ↔ (IsUtcTime t × (content ≡ utc_octets t))
unfolding utc_time_codec
decode_utc_time_iff = parse_iff utc_time_codec

-- What the encoder writes.
write-utc :
    (t : UtcTime) (a b c d e f g h p q r s z : ℕ) (rest : List ℕ)
    → IsUtcTime t
    → encode_utc_time t (a ∷ b ∷ c ∷ d ∷ e ∷ f ∷ g ∷ h ∷ p ∷ q ∷ r ∷ s ∷ z ∷ rest)
      ≡ ok (13, utc_octets t ++ rest)
unfolding encode_utc_time
write-utc t a b c d e f g h p q r s z rest ranges =
    let E = Unit {0} in
    let e0 : write_two {E = E} (a ∷ b ∷ c ∷ d ∷ e ∷ f ∷ g ∷ h ∷ p ∷ q ∷ r ∷ s ∷ z ∷ rest) 0 t.year2
        ≡ ok (two t.year2 ++ (c ∷ d ∷ e ∷ f ∷ g ∷ h ∷ p ∷ q ∷ r ∷ s ∷ z ∷ rest)) =
      write_two_in {E = E} _ 0 t.year2 (omega arith) in
    let e1 : write_two {E = E} (two t.year2 ++ (c ∷ d ∷ e ∷ f ∷ g ∷ h ∷ p ∷ q ∷ r ∷ s ∷ z ∷ rest)) 2
          t.month
        ≡ ok (two t.year2 ++ (two t.month ++ (e ∷ f ∷ g ∷ h ∷ p ∷ q ∷ r ∷ s ∷ z ∷ rest))) =
      write_two_in {E = E} _ 2 t.month (omega arith) in
    let e2 : write_two {E = E}
          (two t.year2 ++ (two t.month ++ (e ∷ f ∷ g ∷ h ∷ p ∷ q ∷ r ∷ s ∷ z ∷ rest))) 4 t.day
        ≡ ok (two t.year2 ++ (two t.month ++ (two t.day ++ (g ∷ h ∷ p ∷ q ∷ r ∷ s ∷ z ∷ rest)))) =
      write_two_in {E = E} _ 4 t.day (omega arith) in
    let e3 : write_two {E = E}
          (two t.year2 ++ (two t.month ++ (two t.day ++ (g ∷ h ∷ p ∷ q ∷ r ∷ s ∷ z ∷ rest)))) 6
          t.hour
        ≡ ok (
            two t.year2
            ++ (two t.month ++ (two t.day ++ (two t.hour ++ (p ∷ q ∷ r ∷ s ∷ z ∷ rest))))) =
      write_two_in {E = E} _ 6 t.hour (omega arith) in
    let e4 : write_two {E = E}
          (two t.year2
            ++ (two t.month ++ (two t.day ++ (two t.hour ++ (p ∷ q ∷ r ∷ s ∷ z ∷ rest)))))
          8 t.minute
        ≡ ok (
            two t.year2
            ++ (two t.month
                ++ (two t.day ++ (two t.hour ++ (two t.minute ++ (r ∷ s ∷ z ∷ rest)))))) =
      write_two_in {E = E} _ 8 t.minute (omega arith) in
    let e5 : write_two {E = E}
          (two t.year2
            ++ (two t.month ++ (two t.day ++ (two t.hour ++ (two t.minute ++ (r ∷ s ∷ z ∷ rest))))))
          10 t.second
        ≡ ok (
            two t.year2
            ++ (two t.month
                ++ (two t.day ++ (two t.hour ++ (two t.minute ++ (two t.second ++ (z ∷ rest))))))) =
      write_two_in {E = E} _ 10 t.second (omega arith) in
    let e6 : store {E = E}
          (two t.year2
            ++ (two t.month
                ++ (two t.day ++ (two t.hour ++ (two t.minute ++ (two t.second ++ (z ∷ rest)))))))
          12 0x5a
        ≡ ok (utc_octets t ++ rest) =
      store_in {E = E}
        (two t.year2
          ++ (two t.month
              ++ (two t.day ++ (two t.hour ++ (two t.minute ++ (two t.second ++ z ∷ rest))))))
        12 0x5a (omega arith) in
    let good : fields_in_range t ≡ true = ground arith in
    let room : ltb (length (a ∷ b ∷ c ∷ d ∷ e ∷ f ∷ g ∷ h ∷ p ∷ q ∷ r ∷ s ∷ z ∷ rest)) 13 ≡ false =
      ground arith in
    rw (good, room, e0, e1, e2, e3, e4, e5, e6) refl

write-utc_room :
    (t : UtcTime) (out : List ℕ)
    → IsUtcTime t
    → 13 ≤ length out
    → encode_utc_time t out ≡ ok (13, utc_octets t ++ drop 13 out)
write-utc_room t out ranges h =
    let (a, b, c, d, e, f, g, h', p, q, r, s, rest, split) = first_twelve out (omega arith) in
    let size : length out ≡ 12 + length rest = omega (arith, ap (λ (x : List ℕ). length x) split) in
    subst (λ (x : List ℕ). encode_utc_time t x ≡ ok (13, utc_octets t ++ drop 13 x)) (sym split)
      (last a b c d e f g h' p q r s rest (omega arith))
  where
    last :
        (a b c d e f g h p q r s : ℕ) (rest : List ℕ)
        → 1 ≤ length rest
        → let out = a ∷ b ∷ c ∷ d ∷ e ∷ f ∷ g ∷ h ∷ p ∷ q ∷ r ∷ s ∷ rest in
          encode_utc_time t out ≡ ok (13, utc_octets t ++ drop 13 out)
    last a b c d e f g h p q r s [] h' = absurd (omega arith)
    last a b c d e f g h p q r s (z ∷ rest) h' = write-utc t a b c d e f g h p q r s z rest ranges

fields_in_range→IsUtcTime : (t : UtcTime) → fields_in_range t ≡ true → IsUtcTime t
fields_in_range→IsUtcTime t h = (
  ground arith,
  ground arith,
  ground arith,
  ground arith,
  ground arith,
  ground arith,
  ground arith,
  ground arith,
)

IsUtcTime→fields_in_range : (t : UtcTime) → IsUtcTime t → fields_in_range t ≡ true
IsUtcTime→fields_in_range t h = ground arith

-- If the fields of t are in the ranges of the format (year up to 99, month 1 to 12, day 1 to 31, hour up to 23,
-- minute and second up to 59) and `out` has at least 13 octets, `encode_utc_time` returns 13 and puts the one form
-- of t in front of what `out` has from its octet 13 on; if not, it gives `None`. It never panics.
pub encode_utc_time_lem :
    (t : UtcTime) (out : List ℕ)
    → (IsUtcTime t
        × (13 ≤ length out)
        × (encode_utc_time t out ≡ ok (13, utc_octets t ++ drop 13 out)))
      ⊎ ((IsUtcTime t × (13 ≤ length out) → ⊥) × (encode_utc_time t out ≡ err tt))
encode_utc_time_lem t out = elim (Bool-cases (fields_in_range t)) [
  | inr e ↦ inr (
    λ (ranges, _). let good = IsUtcTime→fields_in_range t ranges in cc,
    unfold encode_utc_time in rw e refl,
  )
  | inl e ↦
      let ranges = fields_in_range→IsUtcTime t e in
      elim (Bool-cases (ltb (length out) 13)) [
        | inl f ↦ inr (λ (_, room). ground arith, unfold encode_utc_time in rw (e, f) refl)
        | inr f ↦
            let room : 13 ≤ length out = ground arith in
            inl (ranges, room, write-utc_room t out ranges room)
      ]
]

-- Below 50 the two digits are a year from 2000 to 2049, and from 50 on one from 1950 to 1999.
pub full_year_rfc5280_lem :
    (t : UtcTime)
    → t.year2 ≤ 99
    → (1950 ≤ full_year_rfc5280 t)
      × (full_year_rfc5280 t ≤ 2049)
      × (full_year_rfc5280 t % 100 ≡ t.year2)
unfolding full_year_rfc5280
full_year_rfc5280_lem t h = ground arith
