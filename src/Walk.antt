-- ===== src/Walk.antt =====
-- The loops that read one member of a SEQUENCE OF after the other by its offset:
-- `let mut off = 0; while off < outer.len() { … off += used; }`.
use rs_verified_der.Base.{
  ℕ, zero, suc, ◌+◌, ◌≤◌, ◌<◌, ◌≡◌, refl, ap, sym, ◌∙◌, subst, arith, List, [], ◌∷◌, ◌++◌,
  append_assoc, length, length-append, drop, All, All-drop, if◌then◌else◌, ltb, true, false,
}
use rs_verified_der.Base.Codec.{At, IsByte, IsBytes}
use rs_verified_der.Base.Result.{
  Result, ok, panic, ◌>>=◌, Ensures, holds, Ensures-bind, Ensures-weaken,
}

-- A round reads the member at an offset and gives the octets that it used.
module _ {E : Type 0} (round : List ℕ → ℕ → Result E ℕ) where
  -- The loop from an offset, on fuel; it returns the number of its rounds.
  unfoldable pub walk : ℕ → List ℕ → ℕ → ℕ → Result E ℕ
  walk zero outer off count = panic
  walk (suc fuel) outer off count =
      if ltb off (length outer)
      then (round outer off >>= λ used. walk fuel outer (off + used) (count + 1))
      else ok count

  -- The members in front of nothing else, and what a round owes.
  module _ {A : Type 0} (Is : A → Type 0) (octets : A → List ℕ) where
    unfoldable pub members_octets : List A → List ℕ
    members_octets [] = []
    members_octets (a ∷ xs) = octets a ++ members_octets xs

    -- The used octets are those of one member.
    abbrev pub IsMember : List ℕ → ℕ → Type 0
    IsMember rest used = (a : A) × At Is octets rest (a, used)

    abbrev pub AreMembers : List ℕ → ℕ → ℕ → Type 0
    AreMembers rest count n =
        (xs : List A) × All Is xs × (n ≡ count + length xs) × (rest ≡ members_octets xs)

    pub members_octets-cons :
        (a : A) (xs : List A) → members_octets (a ∷ xs) ≡ octets a ++ members_octets xs
    unfolding members_octets
    members_octets-cons a xs = refl

    module _ (filled : (a : A) → 1 ≤ length (octets a)) where
      pub members_octets_size : (xs : List A) → length xs ≤ length (members_octets xs)
      unfolding members_octets
      members_octets_size [] = omega arith
      members_octets_size (a ∷ xs) =
          omega
            (arith, length-append (octets a) (members_octets xs), filled a, members_octets_size xs)

      pub walk-Ensures :
          ((done : List ℕ) (b : ℕ) (bs : List ℕ)
            → IsBytes (b ∷ bs)
            → Ensures (IsMember (b ∷ bs)) (round (done ++ b ∷ bs) (length done)))
          → (fuel : ℕ) (done rest : List ℕ) (count : ℕ) → length rest < fuel
          → IsBytes rest
          → Ensures (AreMembers rest count) (walk fuel (done ++ rest) (length done) count)
      unfolding walk members_octets
      walk-Ensures sound zero done rest count room bytes = absurd (omega arith)
      walk-Ensures sound (suc fuel) done [] count room bytes =
          let over : ltb (length done) (length (done ++ [])) ≡ false =
            ground (arith, length-append done []) in
          rw over (holds ([], tt, omega arith, refl))
      walk-Ensures sound (suc fuel) done (b ∷ bs) count room bytes =
          let rest = b ∷ bs in
          let more : ltb (length done) (length (done ++ rest)) ≡ true =
            ground (arith, length-append done rest) in
          rw more (
            Ensures-bind (sound done b bs bytes) λ used (a, (h, size, split)).
              let there : (done ++ octets a) ++ drop used rest ≡ done ++ rest =
                append_assoc done (octets a) (drop used rest) ∙ ap (λ t. done ++ t) (sym split) in
              let at : length (done ++ octets a) ≡ length done + used =
                omega (arith, length-append done (octets a)) in
              let shorter : length (drop used rest) < fuel = omega (
                arith,
                filled a,
                ap (λ (t : List ℕ). length t) split,
                length-append (octets a) (drop used rest),
              ) in
              subst
                (λ (outer : List ℕ).
                  Ensures (AreMembers rest count)
                    (walk fuel outer (length done + used) (count + 1)))
                there
                (subst
                  (λ off.
                    Ensures (AreMembers rest count)
                      (walk fuel ((done ++ octets a) ++ drop used rest) off (count + 1)))
                  at
                  (Ensures-weaken
                    (λ n (xs, hs, total, e).
                      (a ∷ xs, (h, hs), omega (arith, total), split ∙ ap (λ t. octets a ++ t) e))
                    (walk-Ensures sound fuel (done ++ octets a) (drop used rest) (count + 1) shorter
                      (All-drop IsByte used rest bytes)))))

      pub walk-members :
          ((done : List ℕ) (a : A) (rest : List ℕ)
            → Is a
            → round (done ++ (octets a ++ rest)) (length done) ≡ ok (length (octets a)))
          → (xs : List A) (fuel : ℕ) (done : List ℕ) (count : ℕ) → All Is xs
          → length xs < fuel
          → walk fuel (done ++ members_octets xs) (length done) count ≡ ok (count + length xs)
      unfolding walk members_octets
      walk-members complete [] (suc fuel) done count hs room =
          let over : ltb (length done) (length (done ++ [])) ≡ false =
            ground (arith, length-append done []) in
          rw over (ap (λ (n : ℕ). ok n) (omega arith))
      walk-members complete [] zero done count hs room = absurd (omega arith)
      walk-members complete (a ∷ xs) zero done count hs room = absurd (omega arith)
      walk-members complete (a ∷ xs) (suc fuel) done count (h, hs) room =
          let rest = octets a ++ members_octets xs in
          let more : ltb (length done) (length (done ++ rest)) ≡ true = ground (
            arith,
            length-append done rest,
            length-append (octets a) (members_octets xs),
            filled a,
          ) in
          rw
            (
              more,
              complete done a (members_octets xs) h,
              ← append_assoc done (octets a) (members_octets xs),
              ← length-append done (octets a),
            )
            (walk-members complete xs fuel (done ++ octets a) (count + 1) hs (omega arith)
              ∙ ap (λ (n : ℕ). ok n) (omega arith))
