-- ===== src/Profile/Pairs.antt =====
-- The search for two elements of a list with the same identifier, against the positions of such elements. The
-- elements are those of the loops of `has_repeated_leading_oid`, or what these are the encodings of.
use rs_verified_der.Base.{
  ℕ, ◌≡◌, ◌↔◌, refl, ap, ◌∙◌, arith, Bool, true, false, Bool-cases, List, [], ◌∷◌, ◌++◌, All,
  All-split, subst, Option, none, some, inl, inr, if◌then◌else◌,
}
use rs_verified_der.Base.Result.{Result, ok}
use rs_verified_der.Profile.{same_option}
use rs_verified_der.Profile.Octets.{same_option_iff}

-- An element with this identifier, and two, at different places, with the same. `R id x` is that x has the
-- identifier id.
abbrev pub Has : {A : Type 0} → (List ℕ → A → Type 0) → List ℕ → List A → Type 0
Has {A} R id xs = (front : List A) × (u : A) × (back : List A) × (xs ≡ front ++ u ∷ back) × R id u

abbrev pub Repeats : {A : Type 0} → (List ℕ → A → Type 0) → List A → Type 0
Repeats {A} R xs =
    (front : List A) × (t : A) × (behind : List A) × (id : List ℕ) × (xs ≡ front ++ t ∷ behind)
    × R id t
    × Has R id behind

module _ {A : Type 0} (oid : A → Option (List ℕ)) where
  unfoldable pub has_id : List ℕ → List A → Bool
  has_id id [] = false
  has_id id (t ∷ ts) =
      let rest = has_id id ts in if same_option (oid t) (some id) then true else rest

  -- Is the identifier of an element that of a later one?
  unfoldable pub later : Option (List ℕ) → List A → Bool
  later none ts = false
  later (some id) ts = has_id id ts

  unfoldable pub repeated : List A → Bool
  repeated [] = false
  repeated (t ∷ ts) = let rest = repeated ts in if later (oid t) ts then true else rest

  module _ (R : List ℕ → A → Type 0) where
    -- The identifier that `oid` finds is the one that the element has.
    abbrev pub Agrees : A → Type 0
    Agrees t = (id : List ℕ) → (oid t ≡ some id) ↔ R id t

    has_id-Has : (id : List ℕ) (ts : List A) → All Agrees ts → has_id id ts ≡ true → Has R id ts
    unfolding has_id
    has_id-Has id [] agree h = cc
    has_id-Has id (t ∷ ts) (same, agree) h = elim (Bool-cases (same_option (oid t) (some id))) [
      | inl e ↦ ([], t, ts, refl, (same id).0 ((same_option_iff (oid t) id).0 e))
      | inr e ↦
          let rest : has_id id ts ≡ true = ground (arith, h, e) in
          let (front, u, back, split, has) = has_id-Has id ts agree rest in
          (t ∷ front, u, back, ap (λ (xs : List A). t ∷ xs) split, has)
    ]

    Has-has_id :
        (id : List ℕ) (front : List A) (u : A) (back : List A)
        → oid u ≡ some id
        → has_id id (front ++ u ∷ back) ≡ true
    unfolding has_id
    Has-has_id id [] u back same = let found = (same_option_iff (oid u) id).1 same in rw found refl
    Has-has_id id (t ∷ front) u back same =
        rw (Has-has_id id front u back same) (either (same_option (oid t) (some id)))
      where
        either : (b : Bool) → (if b then true else true) ≡ true
        either true = refl
        either false = refl

    later-Has :
        (o : Option (List ℕ)) (ts : List A)
        → All Agrees ts
        → later o ts ≡ true
        → (id : List ℕ) × (o ≡ some id) × Has R id ts
    unfolding later
    later-Has none ts agree h = cc
    later-Has (some id) ts agree h = (id, refl, has_id-Has id ts agree h)

    repeated-Repeats : (ts : List A) → All Agrees ts → repeated ts ≡ true → Repeats R ts
    unfolding repeated
    repeated-Repeats [] agree h = cc
    repeated-Repeats (t ∷ ts) (same, agree) h = elim (Bool-cases (later (oid t) ts)) [
      | inl e ↦
          let (id, own, has) = later-Has (oid t) ts agree e in
          ([], t, ts, id, refl, (same id).0 own, has)
      | inr e ↦
          let rest : repeated ts ≡ true = ground (arith, h, e) in
          let (front, u, behind, id, split, own, has) = repeated-Repeats ts agree rest in
          (t ∷ front, u, behind, id, ap (λ (xs : List A). t ∷ xs) split, own, has)
    ]

    Repeats-repeated :
        (front : List A) (t : A) (behind : List A) (id : List ℕ)
        → All Agrees (front ++ t ∷ behind)
        → R id t
        → Has R id behind
        → repeated (front ++ t ∷ behind) ≡ true
    unfolding repeated later
    Repeats-repeated [] t behind id (same, agree) own (f, u, b, split, own') =
        let (_, (same', _)) = All-split Agrees f (u ∷ b) (subst (All Agrees) split agree) in
        let found : has_id id behind ≡ true =
          ap (has_id id) split ∙ Has-has_id id f u b ((same' id).1 own') in
        rw ((same id).1 own, found) refl
    Repeats-repeated (x ∷ front) t behind id (same, agree) own has =
        rw (Repeats-repeated front t behind id agree own has)
          (either (later (oid x) (front ++ t ∷ behind)))
      where
        either : (b : Bool) → (if b then true else true) ≡ true
        either true = refl
        either false = refl

    pub repeated_iff : (ts : List A) → All Agrees ts → (repeated ts ≡ true) ↔ Repeats R ts
    repeated_iff ts agree = (
      repeated-Repeats ts agree,
      λ (front, t, behind, id, split, own, has).
          ap repeated split
          ∙ Repeats-repeated front t behind id (subst (All Agrees) split agree) own has,
    )

-- What a search that ends with b says, if b decides P.
pub outcome_iff :
    {E P : Type 0} (b : Bool)
    → (b ≡ true) ↔ P
    → ((◌≡◌ {A = Result E Bool} (ok b) (ok true)) ↔ P)
      × ((◌≡◌ {A = Result E Bool} (ok b) (ok false)) ↔ (P → ⊥))
outcome_iff true (found, back) =
    ((λ h. found refl, λ p. refl), (λ h p. cc, λ none_left. absurd (none_left (found refl))))
outcome_iff false (found, back) =
    ((λ h. cc, λ p. let clash = back p in cc), (λ h p. let clash = back p in cc, λ none_left. refl))
