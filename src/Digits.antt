-- ===== src/Digits.antt =====
-- der-verified/src/utc_time.rs and generalized_time.rs: the decimal digits of a time, two at a time. The
-- two files declare the same helpers.
use rs_verified_der.Base.{
  ℕ, zero, suc, ◌+◌, ◌-◌, ◌*◌, ◌/◌, ◌%◌, ◌<◌, ◌≤◌, ◌≡◌, refl, ap, sym, ◌∙◌, arith, Bool, not, ◌&&◌,
  List, [], ◌∷◌, ◌++◌, length, take, set, All, leb, ltb, if◌then◌else◌,
}
use rs_verified_der.Base.Result.{
  Result, ok, err, panic, ◌>>=◌, index, store, Ensures, holds, rejected, Ensures-if, Ensures-weaken,
}

-- Rust's `is_ascii_digit`.
abbrev pub is_ascii_digit : ℕ → Bool
is_ascii_digit b = leb 0x30 b && leb b 0x39

-- `while i < n { if !content[i].is_ascii_digit() { return Err(bad); } i += 1; }`, with the rounds and the
-- octets that are left.
unfoldable pub check_digits : {E : Type 0} → E → ℕ → List ℕ → Result E (Unit {0})
check_digits bad zero content = ok tt
check_digits bad (suc left) [] = panic
check_digits bad (suc left) (b ∷ content) =
    let more = check_digits bad left content in if not (is_ascii_digit b) then err bad else more

-- `b - b'0'`, which panics below 0, and the result as a `u8`, which panics from 256 on.
abbrev pub digit_value : {E : Type 0} → ℕ → Result E ℕ
digit_value b = if ltb b 0x30 then panic else ok (b - 0x30)

abbrev pub checked_u8 : {E : Type 0} → ℕ → Result E ℕ
checked_u8 v = if ltb v 256 then ok v else panic

unfoldable pub two_digits : {E : Type 0} → List ℕ → ℕ → Result E ℕ
two_digits b i = do
  x ← index b i
  high ← digit_value x
  tens ← checked_u8 (high * 10)
  y ← index b (i + 1)
  low ← digit_value y
  checked_u8 (tens + low)

unfoldable pub write_two : {E : Type 0} → List ℕ → ℕ → ℕ → Result E (List ℕ)
write_two out i v = do out' ← store out i (0x30 + v / 10); store out' (i + 1) (0x30 + v % 10)

-- The decimal form of a number below 100.
abbrev pub two : ℕ → List ℕ
two v = (0x30 + v / 10) ∷ (0x30 + v % 10) ∷ []

abbrev pub IsDigit : ℕ → Type 0
IsDigit b = (0x30 ≤ b) × (b ≤ 0x39)

abbrev pub number : ℕ → ℕ → ℕ
number x y = (x - 0x30) * 10 + (y - 0x30)

pub two-number : (x y : ℕ) → IsDigit x → IsDigit y → two (number x y) ≡ x ∷ y ∷ []
two-number x y hx hy = ground arith

pub two-append :
    {x y : ℕ} {xs ys : List ℕ}
    → IsDigit x
    → IsDigit y
    → xs ≡ ys
    → x ∷ y ∷ xs ≡ two (number x y) ++ ys
two-append {x} {y} {xs} {ys} hx hy e =
    ap (λ t. x ∷ y ∷ t) e ∙ ap (λ t. t ++ ys) (sym (two-number x y hx hy))

-- The other way.
pub two-IsDigit : (v : ℕ) → v ≤ 99 → IsDigit (0x30 + v / 10) × IsDigit (0x30 + v % 10)
two-IsDigit v h = omega arith

pub number-two : (v : ℕ) → v ≤ 99 → number (0x30 + v / 10) (0x30 + v % 10) ≡ v
number-two v h = omega arith

pub two_digits-number :
    {E : Type 0} (b : List ℕ) (i x y : ℕ)
    → index {E = E} b i ≡ ok x
    → index {E = E} b (i + 1) ≡ ok y
    → IsDigit x
    → IsDigit y
    → two_digits {E = E} b i ≡ ok (number x y)
unfolding two_digits
two_digits-number b i x y ex ey hx hy = rw (ex, ey) (ground arith)

pub two_digits-two :
    {E : Type 0} (b : List ℕ) (i v : ℕ)
    → index {E = E} b i ≡ ok (0x30 + v / 10)
    → index {E = E} b (i + 1) ≡ ok (0x30 + v % 10)
    → v ≤ 99
    → two_digits {E = E} b i ≡ ok v
two_digits-two {E} b i v ex ey h =
    two_digits-number {E = E} b i _ _ ex ey (two-IsDigit v h).0 (two-IsDigit v h).1
    ∙ ap (λ (n : ℕ). ok n) (number-two v h)

length-set : {A : Type 0} (xs : List A) (i : ℕ) (v : A) → length (set xs i v) ≡ length xs
length-set [] i v = refl
length-set (x ∷ xs) zero v = refl
length-set (x ∷ xs) (suc i) v = ap suc (length-set xs i v)

pub store_in :
    {E : Type 0} (out : List ℕ) (i v : ℕ)
    → i < length out
    → store {E = E} out i v ≡ ok (set out i v)
store_in out i v h = ground arith

pub write_two_in :
    {E : Type 0} (out : List ℕ) (i v : ℕ)
    → i + 1 < length out
    → write_two {E = E} out i v ≡ ok (set (set out i (0x30 + v / 10)) (i + 1) (0x30 + v % 10))
unfolding write_two
write_two_in {E} out i v h = rw (store_in {E = E} out i (0x30 + v / 10) (omega arith)) (
    store_in {E = E} (set out i (0x30 + v / 10)) (i + 1) (0x30 + v % 10)
      (omega (arith, length-set out i (0x30 + v / 10))))

pub check_digits-Ensures :
    {E : Type 0} (bad : E) (n : ℕ) (content : List ℕ)
    → n ≤ length content
    → Ensures (λ _. All IsDigit (take n content)) (check_digits bad n content)
unfolding check_digits
check_digits-Ensures bad zero content h = holds tt
check_digits-Ensures bad (suc left) [] h = absurd (omega arith)
check_digits-Ensures bad (suc left) (b ∷ content) h =
    Ensures-if (not (is_ascii_digit b)) (λ _. rejected)
      λ digit.
        Ensures-weaken (λ _ rest. (ground arith, rest))
          (check_digits-Ensures bad left content (omega arith))

pub check_digits-ok :
    {E : Type 0} (bad : E) (n : ℕ) (content : List ℕ)
    → n ≤ length content
    → All IsDigit (take n content)
    → check_digits bad n content ≡ ok tt
unfolding check_digits
check_digits-ok bad zero content h k = refl
check_digits-ok bad (suc left) [] h k = absurd (omega arith)
check_digits-ok {E} bad (suc left) (b ∷ content) h (hb, k) =
    ground (arith, check_digits-ok {E = E} bad left content)

pub first_twelve :
    (xs : List ℕ)
    → 12 ≤ length xs
    → (a : ℕ) × (b : ℕ) × (c : ℕ) × (d : ℕ) × (e : ℕ) × (f : ℕ) × (g : ℕ) × (h : ℕ) × (p : ℕ)
      × (q : ℕ) × (r : ℕ) × (s : ℕ) × (rest : List ℕ) × (xs
          ≡ a ∷ b ∷ c ∷ d ∷ e ∷ f ∷ g ∷ h ∷ p ∷ q ∷ r ∷ s ∷ rest)
first_twelve [] more = absurd (omega arith)
first_twelve (a ∷ []) more = absurd (omega arith)
first_twelve (a ∷ b ∷ []) more = absurd (omega arith)
first_twelve (a ∷ b ∷ c ∷ []) more = absurd (omega arith)
first_twelve (a ∷ b ∷ c ∷ d ∷ []) more = absurd (omega arith)
first_twelve (a ∷ b ∷ c ∷ d ∷ e ∷ []) more = absurd (omega arith)
first_twelve (a ∷ b ∷ c ∷ d ∷ e ∷ f ∷ []) more = absurd (omega arith)
first_twelve (a ∷ b ∷ c ∷ d ∷ e ∷ f ∷ g ∷ []) more = absurd (omega arith)
first_twelve (a ∷ b ∷ c ∷ d ∷ e ∷ f ∷ g ∷ h ∷ []) more = absurd (omega arith)
first_twelve (a ∷ b ∷ c ∷ d ∷ e ∷ f ∷ g ∷ h ∷ p ∷ []) more = absurd (omega arith)
first_twelve (a ∷ b ∷ c ∷ d ∷ e ∷ f ∷ g ∷ h ∷ p ∷ q ∷ []) more = absurd (omega arith)
first_twelve (a ∷ b ∷ c ∷ d ∷ e ∷ f ∷ g ∷ h ∷ p ∷ q ∷ r ∷ []) more = absurd (omega arith)
first_twelve (a ∷ b ∷ c ∷ d ∷ e ∷ f ∷ g ∷ h ∷ p ∷ q ∷ r ∷ s ∷ rest) more =
    (a, b, c, d, e, f, g, h, p, q, r, s, rest, refl)

pub first_fourteen :
    (xs : List ℕ)
    → 14 ≤ length xs
    → (a : ℕ) × (b : ℕ) × (c : ℕ) × (d : ℕ) × (e : ℕ) × (f : ℕ) × (g : ℕ) × (h : ℕ) × (p : ℕ)
      × (q : ℕ) × (r : ℕ) × (s : ℕ) × (v : ℕ) × (w : ℕ) × (rest : List ℕ) × (xs
          ≡ a ∷ b ∷ c ∷ d ∷ e ∷ f ∷ g ∷ h ∷ p ∷ q ∷ r ∷ s ∷ v ∷ w ∷ rest)
first_fourteen [] more = absurd (omega arith)
first_fourteen (a ∷ []) more = absurd (omega arith)
first_fourteen (a ∷ b ∷ []) more = absurd (omega arith)
first_fourteen (a ∷ b ∷ c ∷ []) more = absurd (omega arith)
first_fourteen (a ∷ b ∷ c ∷ d ∷ []) more = absurd (omega arith)
first_fourteen (a ∷ b ∷ c ∷ d ∷ e ∷ []) more = absurd (omega arith)
first_fourteen (a ∷ b ∷ c ∷ d ∷ e ∷ f ∷ []) more = absurd (omega arith)
first_fourteen (a ∷ b ∷ c ∷ d ∷ e ∷ f ∷ g ∷ []) more = absurd (omega arith)
first_fourteen (a ∷ b ∷ c ∷ d ∷ e ∷ f ∷ g ∷ h ∷ []) more = absurd (omega arith)
first_fourteen (a ∷ b ∷ c ∷ d ∷ e ∷ f ∷ g ∷ h ∷ p ∷ []) more = absurd (omega arith)
first_fourteen (a ∷ b ∷ c ∷ d ∷ e ∷ f ∷ g ∷ h ∷ p ∷ q ∷ []) more = absurd (omega arith)
first_fourteen (a ∷ b ∷ c ∷ d ∷ e ∷ f ∷ g ∷ h ∷ p ∷ q ∷ r ∷ []) more = absurd (omega arith)
first_fourteen (a ∷ b ∷ c ∷ d ∷ e ∷ f ∷ g ∷ h ∷ p ∷ q ∷ r ∷ s ∷ []) more = absurd (omega arith)
first_fourteen (a ∷ b ∷ c ∷ d ∷ e ∷ f ∷ g ∷ h ∷ p ∷ q ∷ r ∷ s ∷ v ∷ []) more = absurd (omega arith)
first_fourteen (a ∷ b ∷ c ∷ d ∷ e ∷ f ∷ g ∷ h ∷ p ∷ q ∷ r ∷ s ∷ v ∷ w ∷ rest) more =
    (a, b, c, d, e, f, g, h, p, q, r, s, v, w, rest, refl)
