-- ===== src/GeneralizedTime/Fraction.antt =====
-- The canonical fractions of a second, and the reader of one.
use rs_verified_der.Base.{
  ℕ, ◌+◌, ◌-◌, ◌≤◌, ◌≡◌, ◌≢◌, refl, ap, sym, ◌∙◌, subst, arith, false, List, [], ◌∷◌, ◌++◌, length,
  take, length-append, append_assoc, All, ◌==◌, ◌!=◌, if◌then◌else◌,
}
use rs_verified_der.Base.Result.{
  ok, err, index, slice, Ensures, holds, rejected, Ensures-if, Ensures-bind,
}
use rs_verified_der.Base.Slices.{last_octet, index-append, index-last, slice_in, slice-append}
use rs_verified_der.Digits.{IsDigit, check_digits-Ensures, check_digits-ok}
use rs_verified_der.GeneralizedTime.{
  GeneralizedTimeError, non_digit, bad_fraction_separator, check_fraction, read_fraction,
}

-- X.690 11.7.3: no digit 0 at the end.
abbrev pub EndsWell : List ℕ → Type 0
EndsWell [] = Unit
EndsWell (c ∷ more) = last_octet c more ≢ 0x30

abbrev pub IsFraction : List ℕ → Type 0
IsFraction frac = All IsDigit frac × EndsWell frac

-- A fraction stands behind a point, and no fraction has none.
abbrev pub fraction_octets : List ℕ → List ℕ
fraction_octets [] = []
fraction_octets (c ∷ more) = 0x2e ∷ c ∷ more

take-all : (xs : List ℕ) → take (length xs) xs ≡ xs
take-all [] = refl
take-all (x ∷ xs) = ap (λ t. x ∷ t) (take-all xs)

check_fraction-Ensures :
    (frac : List ℕ)
    → Ensures (λ f. IsFraction f × (0x2e ∷ frac ≡ fraction_octets f)) (check_fraction frac)
unfolding check_fraction
check_fraction-Ensures [] = rejected
check_fraction-Ensures (c ∷ more) =
    Ensures-bind (check_digits-Ensures non_digit (length (c ∷ more)) (c ∷ more) (omega arith))
      λ _ digits. rw (index-last {E = GeneralizedTimeError} c more) (
        Ensures-if (last_octet c more == 0x30) (λ _. rejected)
          λ end.
            holds ((subst (All IsDigit) (take-all (c ∷ more)) digits, λ e. ground arith), refl))

check_fraction-ok :
    (c : ℕ) (more : List ℕ) → IsFraction (c ∷ more) → check_fraction (c ∷ more) ≡ ok (c ∷ more)
unfolding check_fraction
check_fraction-ok c more (digits, end) =
    rw
      (
        check_digits-ok non_digit (length (c ∷ more)) (c ∷ more) (omega arith)
            (subst (All IsDigit) (sym (take-all (c ∷ more))) digits),
        index-last {E = GeneralizedTimeError} c more,
      )
      (ground arith)

-- Behind fourteen octets and in front of the last one.
read_fraction-none :
    (front : List ℕ) (z last : ℕ)
    → length front ≡ 14
    → last ≡ 14
    → read_fraction (front ++ z ∷ []) last ≡ ok []
unfolding read_fraction
read_fraction-none front z last h e =
    let long : 14 ≤ length (front ++ z ∷ []) = omega (arith, length-append front (z ∷ [])) in
    rw (e, slice_in {E = GeneralizedTimeError} (front ++ z ∷ []) 14 14 (omega arith) long) refl

read_fraction-some :
    (front frac : List ℕ) (separator z last : ℕ)
    → length front ≡ 14
    → last ≡ 15 + length frac
    → read_fraction (front ++ separator ∷ (frac ++ z ∷ [])) last
      ≡ (if separator != 0x2e then err bad_fraction_separator else check_fraction frac)
unfolding read_fraction
read_fraction-some front frac separator z last h e =
    let E = GeneralizedTimeError in
    let content = front ++ separator ∷ (frac ++ z ∷ []) in
    let further : (last == 14) ≡ false = ground arith in
    let at : index {E = E} content 14 ≡ ok separator =
      subst (λ n. index {E = E} content n ≡ ok separator) h
        (index-append {E = E} front separator (frac ++ z ∷ [])) in
    let split : (front ++ separator ∷ []) ++ (frac ++ z ∷ []) ≡ content =
      append_assoc front (separator ∷ []) (frac ++ z ∷ []) in
    let size : length (front ++ separator ∷ []) ≡ 15 =
      omega (arith, length-append front (separator ∷ [])) in
    let read : slice {E = E} content 15 last ≡ ok frac =
      subst (λ (xs : List ℕ). slice {E = E} xs 15 last ≡ ok frac) split
        (subst (λ n. slice {E = E} ((front ++ separator ∷ []) ++ (frac ++ z ∷ [])) n last ≡ ok frac)
          size
          (subst
            (λ n.
              slice {E = E} ((front ++ separator ∷ []) ++ (frac ++ z ∷ []))
                (length (front ++ separator ∷ [])) n
              ≡ ok frac)
            (omega arith) (slice-append {E = E} (front ++ separator ∷ []) frac (z ∷ [])))) in
    rw (further, at, read) refl

pub index-end :
    {E : Type 0} (xs : List ℕ) (z : ℕ)
    → index {E = E} (xs ++ z ∷ []) (length (xs ++ z ∷ []) - 1) ≡ ok z
index-end {E} xs z =
    let size : length (xs ++ z ∷ []) - 1 ≡ length xs = omega (arith, length-append xs (z ∷ [])) in
    rw size (index-append {E = E} xs z [])

pub read_fraction-Ensures :
    (front init : List ℕ) (z : ℕ)
    → length front ≡ 14
    → let content = front ++ (init ++ z ∷ []) in
      Ensures
        (λ f. IsFraction f × (init ≡ fraction_octets f))
        (read_fraction content (length content - 1))
read_fraction-Ensures front [] z h =
    rw
      (read_fraction-none front z (length (front ++ z ∷ []) - 1) h
        (omega (arith, length-append front (z ∷ []))))
      (holds ((tt, tt), refl))
read_fraction-Ensures front (separator ∷ frac) z h =
    let content = front ++ (separator ∷ (frac ++ z ∷ [])) in
    let last : length content - 1 ≡ 15 + length frac =
      omega
        (arith, length-append front (separator ∷ (frac ++ z ∷ [])), length-append frac (z ∷ [])) in
    rw (read_fraction-some front frac separator z (length content - 1) h last) (
      Ensures-if (separator != 0x2e) (λ _. rejected)
        λ point.
          subst
            (λ n.
              Ensures (λ f. IsFraction f × (n ∷ frac ≡ fraction_octets f)) (check_fraction frac))
            (ground arith) (check_fraction-Ensures frac))

pub read_fraction-octets :
    (front f : List ℕ) (z last : ℕ)
    → length front ≡ 14
    → IsFraction f
    → last ≡ 14 + length (fraction_octets f)
    → read_fraction (front ++ (fraction_octets f ++ z ∷ [])) last ≡ ok f
read_fraction-octets front [] z last h k e = read_fraction-none front z last h e
read_fraction-octets front (c ∷ more) z last h k e =
    read_fraction-some front (c ∷ more) 0x2e z last h (omega arith) ∙ check_fraction-ok c more k
