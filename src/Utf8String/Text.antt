-- ===== src/Utf8String/Text.antt =====
-- `validate_utf8` against the texts of Unicode.
use rs_verified_der.Base.{
  ℕ, zero, suc, ◌+◌, ◌-◌, ◌≤◌, ◌≡◌, ◌≢◌, ◌↔◌, ◌⊎◌, inl, inr, refl, ap, sym, ◌∙◌, subst, arith, true,
  false, Bool-cases, List, [], ◌∷◌, ◌++◌, append-nil, append_assoc, length, length-append, All,
  All-split, Option, some, none,
}
use rs_verified_der.Base.Codec.{IsByte, IsBytes}
use rs_verified_der.Base.Result.{Result, ok, err}
use rs_verified_der.Utf8String.{
  Utf8Error, ill_formed, forbidden_control, is_forbidden_control, note, walk, verdict,
  validate_utf8,
}
use rs_verified_der.Utf8String.Scalars.{IsScalar, scalar_octets, text_octets}
use rs_verified_der.Utf8String.Walk.{BeginsWithScalar, IsStuck, first-cases, walk-scalar}

-- X.690 8.23.9: ESC, SO, SI, SS2 and SS3 are not allowed.
abbrev pub IsControl : ℕ → Type 0
IsControl cp = (cp ≡ 0x1b) ⊎ (cp ≡ 0x0e) ⊎ (cp ≡ 0x0f) ⊎ (cp ≡ 0x8e) ⊎ (cp ≡ 0x8f)

abbrev pub IsPlain : ℕ → Type 0
IsPlain cp = IsScalar cp × (IsControl cp → ⊥)

-- A text breaks off where no scalar value begins.
abbrev pub BreaksOff : List ℕ → Type 0
BreaksOff rest = (rest ≢ []) × (BeginsWithScalar rest → ⊥)

-- The first control function of a text, with its position.
abbrev pub first_control : Option (ℕ × ℕ) → ℕ → List ℕ → Option (ℕ × ℕ)
first_control f i [] = f
first_control f i (cp ∷ cps) = first_control (note f i cp) (i + length (scalar_octets cp)) cps

scalar_octets_size : (cp : ℕ) → 1 ≤ length (scalar_octets cp)
scalar_octets_size cp = ground arith

text_octets_size : (cps : List ℕ) → length cps ≤ length (text_octets cps)
unfolding text_octets
text_octets_size [] = omega arith
text_octets_size (cp ∷ cps) = omega (
  arith,
  length-append (scalar_octets cp) (text_octets cps),
  scalar_octets_size cp,
  text_octets_size cps,
)

-- The loop on a text with something behind it.
walk-text :
    (cps : List ℕ) (fuel i : ℕ) (rest : List ℕ) (f : Option (ℕ × ℕ))
    → All IsScalar cps
    → length cps ≤ fuel
    → walk fuel (text_octets cps ++ rest) i f
      ≡ walk (fuel - length cps) rest (i + length (text_octets cps)) (first_control f i cps)
unfolding text_octets
walk-text [] fuel i rest f h enough =
    let a : i + 0 ≡ i = omega arith in let b : fuel - 0 ≡ fuel = omega arith in rw (a, b) refl
walk-text (cp ∷ cps) zero i rest f h enough = absurd (omega arith)
walk-text (cp ∷ cps) (suc fuel) i rest f (hc, h) enough =
    let first = scalar_octets cp in
    let a : i + length first + length (text_octets cps) ≡ i + length (first ++ text_octets cps) =
      omega (arith, length-append first (text_octets cps)) in
    let b : fuel - length cps ≡ suc fuel - suc (length cps) = omega arith in
    ap (λ t. walk (suc fuel) t i f) (append_assoc first (text_octets cps) rest)
    ∙ walk-scalar fuel cp i (text_octets cps ++ rest) f hc
    ∙ walk-text cps fuel (i + length first) rest (note f i cp) h (omega arith)
    ∙ ap (λ (k : ℕ). walk (fuel - length cps) rest k (first_control f i (cp ∷ cps))) a
    ∙ ap
        (λ (k : ℕ).
          walk k rest (i + length (first ++ text_octets cps)) (first_control f i (cp ∷ cps)))
        b

is_forbidden_control_iff : (cp : ℕ) → (is_forbidden_control cp ≡ true) ↔ IsControl cp
unfolding is_forbidden_control
is_forbidden_control_iff cp = ((λ e. ground arith), (λ e. ground arith))

note-control : (i cp : ℕ) → IsControl cp → note none i cp ≡ some (i, cp)
note-control i cp h = rw ((is_forbidden_control_iff cp).1 h) refl

note-plain : (i cp : ℕ) (f : Option (ℕ × ℕ)) → (IsControl cp → ⊥) → note f i cp ≡ f
note-plain i cp (some seen) h = refl
note-plain i cp none h = elim (Bool-cases (is_forbidden_control cp)) [
  | inl e ↦ absurd (h ((is_forbidden_control_iff cp).0 e))
  | inr e ↦ rw e refl
]

first_control-some :
    (seen : ℕ × ℕ) (i : ℕ) (cps : List ℕ) → first_control (some seen) i cps ≡ some seen
first_control-some seen i [] = refl
first_control-some seen i (cp ∷ cps) = first_control-some seen (i + length (scalar_octets cp)) cps

first_control-plain :
    (f : Option (ℕ × ℕ)) (i : ℕ) (cps : List ℕ) → All IsPlain cps → first_control f i cps ≡ f
first_control-plain f i [] h = refl
first_control-plain f i (cp ∷ cps) (hc, h) =
    rw (note-plain i cp f hc.1) (first_control-plain f (i + length (scalar_octets cp)) cps h)

first_control-none :
    (i : ℕ) (cps : List ℕ) → All IsScalar cps → first_control none i cps ≡ none → All IsPlain cps
first_control-none i [] h e = tt
first_control-none i (cp ∷ cps) (hc, h) e = elim (Bool-cases (is_forbidden_control cp)) [
  | inl control ↦
      let seen : note none i cp ≡ some (i, cp) =
        note-control i cp ((is_forbidden_control_iff cp).0 control) in
      absurd (
        clash (
          sym (first_control-some (i, cp) (i + length (scalar_octets cp)) cps)
          ∙ ap (λ f. first_control f (i + length (scalar_octets cp)) cps) (sym seen)
          ∙ e))
  | inr plain ↦
      let not_control : IsControl cp → ⊥ =
        λ c. absurd (differ (sym plain ∙ (is_forbidden_control_iff cp).1 c)) in
      (
        (hc, not_control),
        first_control-none (i + length (scalar_octets cp)) cps h (
            sym (
              ap (λ f. first_control f (i + length (scalar_octets cp)) cps)
                (note-plain i cp none not_control))
            ∙ e),
      )
]
  where
    clash : ◌≡◌ {A = Option (ℕ × ℕ)} (some (i, cp)) none → ⊥
    clash q = cc

    differ : false ≡ true → ⊥
    differ q = cc

first_control-first :
    (good : List ℕ) (c i : ℕ) (more : List ℕ)
    → All IsPlain good
    → IsControl c
    → first_control none i (good ++ c ∷ more) ≡ some (i + length (text_octets good), c)
unfolding text_octets
first_control-first [] c i more h hc =
    let same : i + 0 ≡ i = omega arith in
    ap (λ f. first_control f (i + length (scalar_octets c)) more) (note-control i c hc)
    ∙ first_control-some (i, c) (i + length (scalar_octets c)) more
    ∙ ap (λ (k : ℕ). some (k, c)) (sym same)
first_control-first (cp ∷ good) c i more (hp, h) hc =
    let first = scalar_octets cp in
    let same : i + length first + length (text_octets good)
        ≡ i + length (first ++ text_octets good) =
      omega (arith, length-append first (text_octets good)) in
    ap (λ f. first_control f (i + length first) (good ++ c ∷ more)) (note-plain i cp none hp.1)
    ∙ (first_control-first good c (i + length first) more h hc ∙ ap (λ (k : ℕ). some (k, c)) same)

-- Any bytes are a text, and then nothing or something that stops the loop.
abbrev IsText : List ℕ → List ℕ → List ℕ → Type 0
IsText content cps rest =
    All IsScalar cps
    × (content ≡ text_octets cps ++ rest)
    × ((rest ≡ []) ⊎ ((rest ≢ []) × IsStuck rest))

pub IsText-of :
    (bound : ℕ) (content : List ℕ)
    → length content ≤ bound
    → IsBytes content
    → (cps : List ℕ) × (rest : List ℕ) × IsText content cps rest
unfolding text_octets
IsText-of bound [] h bytes = ([], [], (tt, refl, inl refl))
IsText-of zero (lead ∷ after) h bytes = absurd (omega arith)
IsText-of (suc bound) (lead ∷ after) h bytes = elim (first-cases lead after bytes) [
  | inr stuck ↦ ([], lead ∷ after, (tt, refl, inr ((λ e. cc), stuck)))
  | inl (cp, more, scalar, split) ↦
      let size : suc (length after) ≡ length (scalar_octets cp) + length more =
        ap (λ (t : List ℕ). length t) split ∙ length-append (scalar_octets cp) more in
      let smaller : length more ≤ bound = omega (arith, scalar_octets_size cp) in
      let inside = (All-split IsByte (scalar_octets cp) more (subst IsBytes split bytes)).1 in
      let (cps, rest, (scalars, e, end)) = IsText-of bound more smaller inside in
      (
        cp ∷ cps,
        rest,
        (
          (scalar, scalars),
          split
              ∙ ap (λ t. scalar_octets cp ++ t) e
              ∙ sym (append_assoc (scalar_octets cp) (text_octets cps) rest),
          end,
        ),
      )
]

-- The loop on the whole content.
pub walk-whole :
    (cps : List ℕ)
    → All IsScalar cps
    → validate_utf8 (text_octets cps) ≡ verdict (first_control none 0 cps)
unfolding validate_utf8 walk
walk-whole cps h =
    let content = text_octets cps in
    let end = walk-text cps (length content) 0 [] none h (text_octets_size cps) in
    let run : walk (length content) content 0 none ≡ ok (first_control none 0 cps) =
      ap (λ t. walk (length content) t 0 none) (sym (append-nil content)) ∙ end in
    rw run refl

pub walk-broken :
    (cps rest : List ℕ)
    → All IsScalar cps
    → rest ≢ []
    → IsStuck rest
    → validate_utf8 (text_octets cps ++ rest) ≡ err (ill_formed (length (text_octets cps)))
unfolding validate_utf8
walk-broken cps [] h more stuck = absurd (more refl)
walk-broken cps (lead ∷ after) h more stuck =
    let rest = lead ∷ after in
    let content = text_octets cps ++ rest in
    let size : length content ≡ length (text_octets cps) + suc (length after) =
      length-append (text_octets cps) rest in
    let front =
      walk-text cps (length content) 0 rest none h (omega (arith, text_octets_size cps)) in
    let left : length content - length cps ≡ suc (length content - length cps - 1) =
      omega (arith, text_octets_size cps) in
    let stop =
      stuck (length content - length cps - 1) (0 + length (text_octets cps))
        (first_control none 0 cps) in
    let position : 0 + length (text_octets cps) ≡ length (text_octets cps) = omega arith in
    let run : walk (length content) content 0 none ≡ err (ill_formed (length (text_octets cps))) =
      front
      ∙ ap (λ (k : ℕ). walk k rest (0 + length (text_octets cps)) (first_control none 0 cps)) left
      ∙ stop
      ∙ ap (λ (k : ℕ). err (ill_formed k)) position in
    rw run refl

-- On bytes, `validate_utf8` accepts the content exactly when it is the UTF-8 encoding of a sequence of
-- Unicode scalar values (no surrogate, none above U+10FFFF, each in its shortest form) without ESC, SO,
-- SI, SS2 and SS3.
pub validate_utf8_iff :
    (content : List ℕ)
    → IsBytes content
    → (validate_utf8 content ≡ ok tt)
      ↔ ((cps : List ℕ) × All IsPlain cps × (content ≡ text_octets cps))
validate_utf8_iff content bytes = (
  accepted,
  λ (cps, h, e).
      ap validate_utf8 e
      ∙ walk-whole cps (scalars cps h)
      ∙ ap verdict (first_control-plain none 0 cps h),
)
  where
    scalars : (cps : List ℕ) → All IsPlain cps → All IsScalar cps
    scalars [] h = tt
    scalars (cp ∷ cps) (hc, h) = (hc.0, scalars cps h)

    verdict-none : (f : Option (ℕ × ℕ)) → verdict f ≡ ok tt → f ≡ none
    verdict-none none e = refl
    verdict-none (some seen) e = cc

    failed : (k : ℕ) → ◌≡◌ {A = Result Utf8Error (Unit {0})} (err (ill_formed k)) (ok tt) → ⊥
    failed k e = cc

    accepted :
        validate_utf8 content ≡ ok tt
        → (cps : List ℕ) × All IsPlain cps × (content ≡ text_octets cps)
    accepted e =
        let (cps, rest, (h, split, end)) = IsText-of (length content) content (omega arith) bytes in
        elim end [
          | inl none_left ↦
              let whole : content ≡ text_octets cps =
                split ∙ ap (λ t. text_octets cps ++ t) none_left ∙ append-nil (text_octets cps) in
              let outcome = sym (walk-whole cps h) ∙ ap validate_utf8 (sym whole) ∙ e in
              (
                cps,
                first_control-none 0 cps h (verdict-none (first_control none 0 cps) outcome),
                whole,
              )
          | inr (more, stuck) ↦ absurd (
              failed _ (sym (walk-broken cps rest h more stuck) ∙ ap validate_utf8 (sym split) ∙ e))
        ]

-- If the content is the encoding of scalar values followed by bytes, at least one, that begin with the
-- encoding of no scalar value, `validate_utf8` reports `IllFormed` at the length of the encoding, the
-- control functions in it notwithstanding.
pub validate_utf8_ill_formed :
    (cps rest : List ℕ)
    → All IsScalar cps
    → IsBytes rest
    → BreaksOff rest
    → validate_utf8 (text_octets cps ++ rest) ≡ err (ill_formed (length (text_octets cps)))
validate_utf8_ill_formed cps [] h bytes (more, breaks) = absurd (more refl)
validate_utf8_ill_formed cps (lead ∷ after) h bytes (more, breaks) =
    elim (first-cases lead after bytes) [
      | inl begins ↦ absurd (breaks begins)
      | inr stuck ↦ walk-broken cps (lead ∷ after) h more stuck
    ]

-- If the content is the encoding of scalar values of which c is the first that is ESC, SO, SI, SS2 or SS3,
-- `validate_utf8` reports `ForbiddenControl` with c and the length of the encoding of what precedes it.
pub validate_utf8_control :
    (good : List ℕ) (c : ℕ) (more : List ℕ)
    → All IsPlain good
    → IsControl c
    → All IsScalar (good ++ c ∷ more)
    → validate_utf8 (text_octets (good ++ c ∷ more))
      ≡ err (forbidden_control (length (text_octets good)) c)
validate_utf8_control good c more h hc scalars =
    walk-whole (good ++ c ∷ more) scalars
    ∙ ap verdict (first_control-first good c 0 more h hc)
    ∙ ap (λ (k : ℕ). err (forbidden_control k c)) position
  where
    position : 0 + length (text_octets good) ≡ length (text_octets good)
    position = omega arith
