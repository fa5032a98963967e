-- ===== src/BigInteger/Minimal.antt =====
-- Minimal content octets: `strip` computes them, and `validate_integer_content` recognises them.
use rs_verified_der.Base.{
  ℕ, zero, suc, ◌+◌, ◌*◌, ◌^◌, ◌≤◌, ◌<◌, ◌≡◌, ◌≢◌, ◌↔◌, ap, sym, ◌∙◌, refl, arith, List, [], ◌∷◌,
  length, ltb, if◌then◌else◌, Bool, true, false, Bool-cases, inl, inr,
}
use rs_verified_der.Base.Codec.{IsBytes}
use rs_verified_der.Base.Result.{ok}
use rs_verified_der.BigInteger.{strip, zero_padding, ones_padding, validate_integer_content}
use rs_verified_der.BigInteger.Value.{
  digit_gap, be_value, be_value_bound, twos_value, bit_8_clear, strip_zero_value, strip_ones_value,
}

-- What the two tests of a leading octet say.
zero_padding→ : (c₀ c₁ : ℕ) → c₁ < 256 → zero_padding c₀ c₁ ≡ true → (c₀ ≡ 0) × (c₁ < 0x80)
zero_padding→ c₀ c₁ h e = ground (arith, bit_8_clear c₁)

ones_padding→ : (c₀ c₁ : ℕ) → c₁ < 256 → ones_padding c₀ c₁ ≡ true → (c₀ ≡ 0xff) × (0x80 ≤ c₁)
ones_padding→ c₀ c₁ h e = ground (arith, bit_8_clear c₁)

pub strip-value : (c : List ℕ) → IsBytes c → twos_value (strip c) ≡ twos_value c
unfolding strip
strip-value [] h = refl
strip-value (c₀ ∷ []) h = refl
strip-value (c₀ ∷ c₁ ∷ rest) (h₀, (h₁, h)) =
    let ih = strip-value (c₁ ∷ rest) (h₁, h) in
    elim (Bool-cases (zero_padding c₀ c₁)) [
      | inl e ↦
          let (lead, small) = zero_padding→ c₀ c₁ h₁ e in
          rw e (
            ih
            ∙ sym (strip_zero_value c₁ rest small)
            ∙ ap (λ x. twos_value (x ∷ c₁ ∷ rest)) (sym lead))
      | inr e ↦ rw e (elim (Bool-cases (ones_padding c₀ c₁)) [
        | inl f ↦
            let (lead, large) = ones_padding→ c₀ c₁ h₁ f in
            rw f (
              ih
              ∙ sym (strip_ones_value c₁ rest large (h₁, h))
              ∙ ap (λ x. twos_value (x ∷ c₁ ∷ rest)) (sym lead))
        | inr f ↦ rw f
      ])
    ]

pub strip-valid : (c : List ℕ) → c ≢ [] → validate_integer_content (strip c) ≡ ok tt
unfolding strip validate_integer_content
strip-valid [] h = absurd (h refl)
strip-valid (c₀ ∷ []) h = refl
strip-valid (c₀ ∷ c₁ ∷ rest) h = ground (arith, strip-valid (c₁ ∷ rest))

pub strip-length : (c : List ℕ) → length (strip c) ≤ length c
unfolding strip
strip-length [] = omega arith
strip-length (c₀ ∷ []) = omega arith
strip-length (c₀ ∷ c₁ ∷ rest) = ground (arith, strip-length (c₁ ∷ rest))

pub strip-of_valid : (c : List ℕ) → validate_integer_content c ≡ ok tt → strip c ≡ c
unfolding strip validate_integer_content
strip-of_valid [] h = refl
strip-of_valid (c₀ ∷ []) h = refl
strip-of_valid (c₀ ∷ c₁ ∷ rest) h = ground arith

pub valid-ne-nil : (c : List ℕ) → validate_integer_content c ≡ ok tt → c ≢ []
unfolding validate_integer_content
valid-ne-nil [] h = absurd (ground arith)
valid-ne-nil (x ∷ c) h = λ e. ground arith

-- At one width no two octet strings stand for the same number.
digits_unique : (x y v w p : ℕ) → v < p → w < p → x * p + v ≡ y * p + w → (x ≡ y) × (v ≡ w)
digits_unique x y v w p hv hw e = ground (arith, digit_gap x y p, digit_gap y x p)

be_value-injective :
    (a b : List ℕ) → IsBytes a → IsBytes b → length a ≡ length b → be_value a ≡ be_value b → a ≡ b
unfolding be_value
be_value-injective [] [] ha hb l e = refl
be_value-injective [] (y ∷ b) ha hb l e = absurd (omega arith)
be_value-injective (x ∷ a) [] ha hb l e = absurd (omega arith)
be_value-injective (x ∷ a) (y ∷ b) (hx, ha) (hy, hb) l e =
    let width : length b ≡ length a = omega arith in
    let bound : be_value b < 256 ^ length a = rw width at (be_value_bound b hb) in
    let same =
      digits_unique x y (be_value a) (be_value b) (256 ^ length a) (be_value_bound a ha) bound
        (rw width at e) in
    λ i. same.0 i ∷ be_value-injective a b ha hb (sym width) same.1 i

twos_value-injective :
    (a b : List ℕ)
    → IsBytes a
    → IsBytes b
    → length a ≡ length b
    → twos_value a ≡ twos_value b
    → a ≡ b
unfolding twos_value
twos_value-injective [] [] ha hb l e = refl
twos_value-injective [] (y ∷ b) ha hb l e = absurd (omega arith)
twos_value-injective (x ∷ a) [] ha hb l e = absurd (omega arith)
twos_value-injective (x ∷ a) (y ∷ b) ha hb l e = be_value-injective (x ∷ a) (y ∷ b) ha hb l (
    ground (arith, be_value_bound (x ∷ a) ha, be_value_bound (y ∷ b) hb, ap (λ (n : ℕ). 256 ^ n) l))

-- Sign extension, which `strip` undoes.
sign_octet : List ℕ → ℕ
sign_octet [] = 0
sign_octet (x ∷ _) = if ltb x 0x80 then 0 else 0xff

extend : ℕ → List ℕ → List ℕ
extend zero c = c
extend (suc n) c = let rest = extend n c in sign_octet rest ∷ rest

length-extend : (n : ℕ) (c : List ℕ) → length (extend n c) ≡ n + length c
unfolding extend
length-extend zero c = omega arith
length-extend (suc n) c = omega (arith, length-extend n c)

extend-IsBytes : (n : ℕ) (c : List ℕ) → IsBytes c → IsBytes (extend n c)
unfolding extend
extend-IsBytes zero c h = h
extend-IsBytes (suc n) c h = (small (extend n c), extend-IsBytes n c h)
  where
    small : (d : List ℕ) → sign_octet d < 256
    small d = unfold sign_octet in ground arith

strip-sign_octet : (c : List ℕ) → c ≢ [] → IsBytes c → strip (sign_octet c ∷ c) ≡ strip c
unfolding strip sign_octet
strip-sign_octet [] h bytes = absurd (h refl)
strip-sign_octet (x ∷ c) h (hx, bytes) = ground (arith, bit_8_clear x hx)

extend-ne-nil : (n : ℕ) (c : List ℕ) → c ≢ [] → extend n c ≢ []
unfolding extend
extend-ne-nil zero c h = h
extend-ne-nil (suc n) c h = λ e. absurd (omega (arith, ap (λ (xs : List ℕ). length xs) e))

strip-extend : (n : ℕ) (c : List ℕ) → c ≢ [] → IsBytes c → strip (extend n c) ≡ strip c
unfolding extend
strip-extend zero c h bytes = refl
strip-extend (suc n) c h bytes =
    strip-sign_octet (extend n c) (extend-ne-nil n c h) (extend-IsBytes n c bytes)
    ∙ strip-extend n c h bytes

twos_value-extend :
    (n : ℕ) (c : List ℕ) → c ≢ [] → IsBytes c → twos_value (extend n c) ≡ twos_value c
twos_value-extend n c h bytes =
    sym (strip-value (extend n c) (extend-IsBytes n c bytes))
    ∙ ap twos_value (strip-extend n c h bytes)
    ∙ strip-value c bytes

-- Octet strings for the same integer have the same minimal form.
pub strip_unique :
    (a b : List ℕ)
    → a ≢ []
    → b ≢ []
    → IsBytes a
    → IsBytes b
    → twos_value a ≡ twos_value b
    → strip a ≡ strip b
strip_unique a b na nb ha hb e =
    let a' = extend (length b) a in
    let b' = extend (length a) b in
    let width : length a' ≡ length b' =
      omega (arith, length-extend (length b) a, length-extend (length a) b) in
    let same : a' ≡ b' =
      twos_value-injective a' b' (extend-IsBytes _ a ha) (extend-IsBytes _ b hb) width
        (twos_value-extend _ a na ha ∙ e ∙ sym (twos_value-extend _ b nb hb)) in
    sym (strip-extend (length b) a na ha) ∙ ap strip same ∙ strip-extend (length a) b nb hb

pub strip-IsBytes : (c : List ℕ) → IsBytes c → IsBytes (strip c)
unfolding strip
strip-IsBytes [] h = tt
strip-IsBytes (c₀ ∷ []) h = h
strip-IsBytes (c₀ ∷ c₁ ∷ rest) (h₀, h) =
    if-IsBytes (zero_padding c₀ c₁) _ _ (strip-IsBytes (c₁ ∷ rest) h)
      (if-IsBytes (ones_padding c₀ c₁) _ _ (strip-IsBytes (c₁ ∷ rest) h) (h₀, h))
  where
    if-IsBytes :
        (b : Bool) (xs ys : List ℕ) → IsBytes xs → IsBytes ys → IsBytes (if b then xs else ys)
    if-IsBytes true xs ys hx hy = hx
    if-IsBytes false xs ys hx hy = hy

pub strip-ne-nil : (c : List ℕ) → c ≢ [] → strip c ≢ []
strip-ne-nil c h = valid-ne-nil (strip c) (strip-valid c h)

valid_of_strip-length :
    (c : List ℕ) → c ≢ [] → length c ≤ length (strip c) → validate_integer_content c ≡ ok tt
unfolding strip validate_integer_content
valid_of_strip-length [] h k = absurd (h refl)
valid_of_strip-length (c₀ ∷ []) h k = refl
valid_of_strip-length (c₀ ∷ c₁ ∷ rest) h k = ground (arith, strip-length (c₁ ∷ rest))

-- On bytes, `validate_integer_content` accepts the content exactly when it is not empty and no shorter
-- non-empty list of bytes has the same two's-complement value.
pub validate_integer_content_iff :
    (c : List ℕ)
    → IsBytes c
    → (validate_integer_content c ≡ ok tt) ↔ (
        (c ≢ [])
        × ((d : List ℕ) → IsBytes d → d ≢ [] → twos_value d ≡ twos_value c → length c ≤ length d))
validate_integer_content_iff c bytes = (
  λ valid.
      let nonempty = valid-ne-nil c valid in
      (nonempty, λ d hd nd e. shorter d hd nd e nonempty (strip-of_valid c valid)),
  λ (nonempty, least).
      valid_of_strip-length c nonempty
        (least (strip c) (strip-IsBytes c bytes) (strip-ne-nil c nonempty) (strip-value c bytes)),
)
  where
    shorter :
        (d : List ℕ)
        → IsBytes d
        → d ≢ []
        → twos_value d ≡ twos_value c
        → c ≢ []
        → strip c ≡ c
        → length c ≤ length d
    shorter d hd nd e nc fixed = omega (
      arith,
      ap (λ (xs : List ℕ). length xs) (sym fixed ∙ strip_unique c d nc nd bytes hd (sym e)),
      strip-length d,
    )
