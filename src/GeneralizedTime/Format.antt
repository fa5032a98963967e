-- ===== src/GeneralizedTime/Format.antt =====
-- The one form of a GeneralizedTime, and its decoder against it.
use rs_verified_der.Base.{
  ℕ, ◌+◌, ◌-◌, ◌*◌, ◌/◌, ◌%◌, ◌≤◌, ◌≡◌, ◌↔◌, refl, ap, sym, ◌∙◌, subst, arith, true, false, ◌||◌,
  List, [], ◌∷◌, ◌++◌, length, length-append, take, All, ltb, ◌!=◌, Bool-cases, inl, inr,
}
use rs_verified_der.Base.Codec.{ContentCodec, parse_iff, IsBytes}
use rs_verified_der.Base.Result.{ok, err, Ensures, holds, rejected, Ensures-if, Ensures-bind, index}
use rs_verified_der.Base.Slices.{snoc}
use rs_verified_der.Digits.{
  two, number, two-append, two-IsDigit, IsDigit, check_digits, check_digits-Ensures,
  check_digits-ok, two_digits-number, two_digits-two, first_fourteen,
}
use rs_verified_der.GeneralizedTime.{
  GeneralizedTime, GeneralizedTimeError, bad_length, non_digit, read_fraction,
  decode_generalized_time,
}
use rs_verified_der.GeneralizedTime.Fraction.{
  IsFraction, fraction_octets, read_fraction-Ensures, read_fraction-octets, index-end,
}

abbrev pub IsGeneralizedTime : GeneralizedTime → Type 0
IsGeneralizedTime t =
    (t.year ≤ 9999)
    × (1 ≤ t.month)
    × (t.month ≤ 12)
    × (1 ≤ t.day)
    × (t.day ≤ 31)
    × (t.hour ≤ 23)
    × (t.minute ≤ 59)
    × (t.second ≤ 59)
    × IsFraction t.fraction

-- The fourteen digits in front of `rest`.
abbrev pub date_octets : GeneralizedTime → List ℕ → List ℕ
date_octets t rest =
    two (t.year / 100)
    ++ (two (t.year % 100)
        ++ (two t.month ++ (two t.day ++ (two t.hour ++ (two t.minute ++ (two t.second ++ rest))))))

abbrev pub generalized_octets : GeneralizedTime → List ℕ
generalized_octets t = date_octets t (fraction_octets t.fraction ++ 0x5a ∷ [])

-- The year of its two pairs of digits.
year-parts :
    (a b c d : ℕ)
    → IsDigit a
    → IsDigit b
    → IsDigit c
    → IsDigit d
    → (number a b * 100 + number c d ≤ 9999)
      × (number a b ≡ (number a b * 100 + number c d) / 100)
      × (number c d ≡ (number a b * 100 + number c d) % 100)
year-parts a b c d ha hb hc hd = omega arith

year-whole : (y : ℕ) → (y / 100) * 100 + y % 100 ≡ y
year-whole y = omega arith

year-ranges : (y : ℕ) → y ≤ 9999 → (y / 100 ≤ 99) × (y % 100 ≤ 99)
year-ranges y h = omega arith

-- What the decoder ensures of one content.
abbrev pub IsRead : List ℕ → Type 0
IsRead content =
    Ensures (λ t. IsGeneralizedTime t × (content ≡ generalized_octets t))
      (decode_generalized_time content)

IsRead-fourteen :
    (a b c d e f g h p q r s v w : ℕ) (init : List ℕ) (z : ℕ)
    → IsRead (a ∷ b ∷ c ∷ d ∷ e ∷ f ∷ g ∷ h ∷ p ∷ q ∷ r ∷ s ∷ v ∷ w ∷ (init ++ z ∷ []))
unfolding decode_generalized_time
IsRead-fourteen a b c d e f g h p q r s v w init z =
    let front = a ∷ b ∷ c ∷ d ∷ e ∷ f ∷ g ∷ h ∷ p ∷ q ∷ r ∷ s ∷ v ∷ w ∷ [] in
    let content = front ++ (init ++ z ∷ []) in
    let E = GeneralizedTimeError in
    Ensures-if (ltb (length content) 15) (λ _. rejected)
      λ _.
        Ensures-bind (check_digits-Ensures non_digit 14 content (omega arith))
          λ _ (ha, (hb, (hc, (hd, (he, (hf, (hg, (hh, (hp, (hq, (hr, (hs, (hv, (hw, _)))))))))))))).
            Ensures-bind
              (subst (Ensures (λ x. x ≡ z)) (sym (index-end {E = E} (front ++ init) z))
                (holds refl))
              λ x ex.
                Ensures-if (x != 0x5a) (λ _. rejected)
                  λ zulu.
                    rw
                      (
                        two_digits-number {E = E} content 0 a b refl refl ha hb,
                        two_digits-number {E = E} content 2 c d refl refl hc hd,
                        two_digits-number {E = E} content 4 e f refl refl he hf,
                        two_digits-number {E = E} content 6 g h refl refl hg hh,
                        two_digits-number {E = E} content 8 p q refl refl hp hq,
                        two_digits-number {E = E} content 10 r s refl refl hr hs,
                        two_digits-number {E = E} content 12 v w refl refl hv hw,
                      )
                      (Ensures-if (ltb (number e f) 1 || ltb 12 (number e f)) (λ _. rejected)
                        λ month.
                          Ensures-if (ltb (number g h) 1 || ltb 31 (number g h)) (λ _. rejected)
                            λ day.
                              Ensures-if (ltb 23 (number p q)) (λ _. rejected)
                                λ hour.
                                  Ensures-if (ltb 59 (number r s)) (λ _. rejected)
                                    λ minute.
                                      Ensures-if (ltb 59 (number v w)) (λ _. rejected)
                                        λ second.
                                          Ensures-bind (read_fraction-Ensures front init z refl)
                                            λ frac (fraction, shape). holds (
                                              (
                                                (year-parts a b c d ha hb hc hd).0,
                                                ground arith,
                                                ground arith,
                                                ground arith,
                                                ground arith,
                                                ground arith,
                                                ground arith,
                                                ground arith,
                                                fraction,
                                              ),
                                              spelled frac
                                                  (
                                                    (year-parts a b c d ha hb hc hd).1,
                                                    (year-parts a b c d ha hb hc hd).2,
                                                  )
                                                  ha hb hc hd he hf hg hh hp hq hr hs hv hw
                                                  (ap2-end shape (ground arith)),
                                            ))
  where
    spelled :
        (frac : List ℕ) {tail : List ℕ}
        → (number a b ≡ (number a b * 100 + number c d) / 100)
          × (number c d ≡ (number a b * 100 + number c d) % 100)
        → IsDigit a
        → IsDigit b
        → IsDigit c
        → IsDigit d
        → IsDigit e
        → IsDigit f
        → IsDigit g
        → IsDigit h
        → IsDigit p
        → IsDigit q
        → IsDigit r
        → IsDigit s
        → IsDigit v
        → IsDigit w
        → tail ≡ fraction_octets frac ++ 0x5a ∷ []
        → a ∷ b ∷ c ∷ d ∷ e ∷ f ∷ g ∷ h ∷ p ∷ q ∷ r ∷ s ∷ v ∷ w ∷ tail
          ≡ generalized_octets (record {
            year = number a b * 100 + number c d;
            month = number e f;
            day = number g h;
            hour = number p q;
            minute = number r s;
            second = number v w;
            fraction = frac;
          })
    spelled frac (eh, el) ha hb hc hd he hf hg hh hp hq hr hs hv hw end =
        let rest =
          two (number e f)
          ++ (two (number g h)
              ++ (two (number p q)
                  ++ (two (number r s)
                      ++ (two (number v w) ++ (fraction_octets frac ++ 0x5a ∷ []))))) in
        two-append ha hb (
          two-append hc hd (
            two-append he hf
              (two-append hg hh (two-append hp hq (two-append hr hs (two-append hv hw end))))))
        ∙ ap (λ y. two y ++ (two (number c d) ++ rest)) eh
        ∙ ap (λ y. two ((number a b * 100 + number c d) / 100) ++ (two y ++ rest)) el

    ap2-end :
        {init frac : List ℕ} {x : ℕ} → init ≡ frac → x ≡ 0x5a → init ++ x ∷ [] ≡ frac ++ 0x5a ∷ []
    ap2-end {init} {frac} {x} e f = ap (λ t. t ++ x ∷ []) e ∙ ap (λ y. frac ++ y ∷ []) f

decode_generalized_time_short :
    (content : List ℕ)
    → ltb (length content) 15 ≡ true
    → decode_generalized_time content ≡ err bad_length
unfolding decode_generalized_time
decode_generalized_time_short content e = rw e refl

IsRead-tail :
    (a b c d e f g h p q r s v w : ℕ) (rest : List ℕ)
    → 1 ≤ length rest
    → IsRead (a ∷ b ∷ c ∷ d ∷ e ∷ f ∷ g ∷ h ∷ p ∷ q ∷ r ∷ s ∷ v ∷ w ∷ rest)
IsRead-tail a b c d e f g h p q r s v w [] one = absurd (omega arith)
IsRead-tail a b c d e f g h p q r s v w (x ∷ rest) one =
    let (init, z, split) = snoc x rest in
    subst (λ t. IsRead (a ∷ b ∷ c ∷ d ∷ e ∷ f ∷ g ∷ h ∷ p ∷ q ∷ r ∷ s ∷ v ∷ w ∷ t)) (sym split)
      (IsRead-fourteen a b c d e f g h p q r s v w init z)

pub decode_generalized_time-Ensures : (content : List ℕ) → IsBytes content → IsRead content
decode_generalized_time-Ensures content bytes = elim (Bool-cases (ltb (length content) 15)) [
  | inl e ↦ rw (decode_generalized_time_short content e) rejected
  | inr e ↦
      let (a, b, c, d, e', f, g, h, p, q, r, s, v, w, rest, split) =
        first_fourteen content (ground arith) in
      let size : length content ≡ 14 + length rest =
        omega (arith, ap (λ (t : List ℕ). length t) split) in
      subst IsRead (sym split) (IsRead-tail a b c d e' f g h p q r s v w rest (ground arith))
]

pub decode_generalized_time-octets :
    (t : GeneralizedTime)
    → IsGeneralizedTime t
    → decode_generalized_time (generalized_octets t) ≡ ok t
unfolding decode_generalized_time
decode_generalized_time-octets t (hy, hm, hm', hd, hd', hh, hmin, hs, hf) =
    let E = GeneralizedTimeError in
    let (hy1, hy2) = year-ranges t.year hy in
    let content = generalized_octets t in
    let tail = fraction_octets t.fraction ++ 0x5a ∷ [] in
    let long : length tail ≡ length (fraction_octets t.fraction) + 1 =
      length-append (fraction_octets t.fraction) (0x5a ∷ []) in
    let room : ltb (length content) 15 ≡ false = ground (arith, long) in
    let digits : check_digits non_digit 14 content ≡ ok tt =
      check_digits-ok {E = E} non_digit 14 content (omega (arith, long))
        (date-digits t tail hy hm' hd' hh hmin hs) in
    let end : index {E = E} content (length content - 1) ≡ ok 0x5a =
      index-end {E = E} (date_octets t (fraction_octets t.fraction)) 0x5a in
    let fraction : read_fraction content (length content - 1) ≡ ok t.fraction =
      read_fraction-octets (date_octets t []) t.fraction 0x5a (length content - 1) refl hf
        (omega (arith, long)) in
    rw
      (
        room,
        digits,
        end,
        two_digits-two {E = E} content 0 (t.year / 100) refl refl hy1,
        two_digits-two {E = E} content 2 (t.year % 100) refl refl hy2,
        two_digits-two {E = E} content 4 t.month refl refl (omega arith),
        two_digits-two {E = E} content 6 t.day refl refl (omega arith),
        two_digits-two {E = E} content 8 t.hour refl refl (omega arith),
        two_digits-two {E = E} content 10 t.minute refl refl (omega arith),
        two_digits-two {E = E} content 12 t.second refl refl (omega arith),
        fraction,
        year-whole t.year,
      )
      (ground arith)
  where
    date-digits :
        (t : GeneralizedTime) (rest : List ℕ)
        → t.year ≤ 9999
        → t.month ≤ 12
        → t.day ≤ 31
        → t.hour ≤ 23
        → t.minute ≤ 59
        → t.second ≤ 59
        → All IsDigit (take 14 (date_octets t rest))
    date-digits t rest hy hm hd hh hmin hs =
        let (hy1, hy2) = year-ranges t.year hy in
        let (y0, y1) = two-IsDigit (t.year / 100) hy1 in
        let (y2, y3) = two-IsDigit (t.year % 100) hy2 in
        let (m0, m1) = two-IsDigit t.month (omega arith) in
        let (d0, d1) = two-IsDigit t.day (omega arith) in
        let (h0, h1) = two-IsDigit t.hour (omega arith) in
        let (n0, n1) = two-IsDigit t.minute (omega arith) in
        let (s0, s1) = two-IsDigit t.second (omega arith) in
        (y0, (y1, (y2, (y3, (m0, (m1, (d0, (d1, (h0, (h1, (n0, (n1, (s0, (s1, tt))))))))))))))

unfoldable pub generalized_time_codec : ContentCodec GeneralizedTimeError GeneralizedTime
generalized_time_codec = record {
  parse = decode_generalized_time;
  Is = IsGeneralizedTime;
  octets = generalized_octets;
  sound = decode_generalized_time-Ensures;
  complete = decode_generalized_time-octets;
}

-- On bytes, `decode_generalized_time` returns t exactly when the content is the four decimal digits of the
-- year of t, the two of each of its month, day, hour, minute and second, a point and its fraction if the
-- fraction is not empty, and `Z`, the fields are in the ranges of the format, and the fraction is
-- digits that do not end in 0.
pub decode_generalized_time_iff :
    (content : List ℕ) (t : GeneralizedTime)
    → IsBytes content
    → (decode_generalized_time content ≡ ok t)
      ↔ (IsGeneralizedTime t × (content ≡ generalized_octets t))
unfolding generalized_time_codec
decode_generalized_time_iff = parse_iff generalized_time_codec
