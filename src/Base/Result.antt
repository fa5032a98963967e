-- ===== src/Base/Result.antt =====
-- Rust's `Result`, with a third outcome for a panic: an index or a slice out of range.
use mathlib.Core.Path.{◌≡◌, refl, subst}
use mathlib.Core.Logic.{◌≢◌, ◌⊎◌, inl, inr}
use mathlib.Core.Bool.{Bool, true, false, ◌&&◌}
use mathlib.Core.List.{List, [], ◌∷◌, ◌++◌}
use Prim.Native.Nat.{ℕ, zero, suc, ◌-◌}
use rs_verified_der.Base.Tests.{if◌then◌else◌, leb, ltb, ◌==◌}
use rs_verified_der.Base.Lists.{length, take, drop, set}

pub data Result (E A : Type 0) : Type 0 where
  ok : A → Result E A
  err : E → Result E A
  panic : Result E A

infixl 5 ◌>>=◌
abbrev pub ◌>>=◌ : {E A B : Type 0} → Result E A → (A → Result E B) → Result E B
panic >>= next = panic
err reason >>= next = err reason
ok value >>= next = next value

abbrev pub map_err : {E F A : Type 0} → (E → F) → Result E A → Result F A
map_err wrap panic = panic
map_err wrap (err reason) = err (wrap reason)
map_err wrap (ok value) = ok value

-- `xs[i]`, `&xs[from..]` and `&xs[from..to]`, which panic out of range.
abbrev pub index : {E A : Type 0} → List A → ℕ → Result E A
index [] i = panic
index (x ∷ xs) zero = ok x
index (x ∷ xs) (suc i) = index xs i

abbrev pub slice_from : {E A : Type 0} → List A → ℕ → Result E (List A)
slice_from xs from = if leb from (length xs) then ok (drop from xs) else panic

abbrev pub slice : {E A : Type 0} → List A → ℕ → ℕ → Result E (List A)
slice xs from to =
    if leb from to && leb to (length xs) then ok (take (to - from) (drop from xs)) else panic

-- `xs[i] = v`.
abbrev pub store : {E A : Type 0} → List A → ℕ → A → Result E (List A)
store xs i v = if ltb i (length xs) then ok (set xs i v) else panic

-- `xs[from..to].copy_from_slice(src)`, which panics unless the lengths agree.
unfoldable pub copy_from_slice : {E A : Type 0} → List A → ℕ → ℕ → List A → Result E (List A)
copy_from_slice xs from to src =
    if leb from to && (leb to (length xs) && length src == to - from)
    then ok (take from xs ++ (src ++ drop to xs))
    else panic

-- No panic, and `P` holds of the value if there is one.
pub data Ensures {E A : Type 0} (P : A → Type 0) : Result E A → Type 0 where
  holds : {a : A} → P a → Ensures P (ok a)
  rejected : {e : E} → Ensures P (err e)

module _ {E A : Type 0} {P : A → Type 0} where
  pub Ensures-ok : {r : Result E A} {a : A} → Ensures P r → r ≡ ok a → P a
  Ensures-ok (holds h) e = subst P (cc) h
  Ensures-ok rejected e = cc

  pub Ensures-panic : {r : Result E A} → Ensures P r → r ≢ panic
  Ensures-panic (holds h) = cc
  Ensures-panic rejected = cc

  pub Ensures-if :
      (b : Bool) {x y : Result E A}
      → (b ≡ true → Ensures P x)
      → (b ≡ false → Ensures P y)
      → Ensures P (if b then x else y)
  Ensures-if true hx hy = hx refl
  Ensures-if false hx hy = hy refl

  pub Ensures-map_err :
      {F : Type 0} (f : E → F) {r : Result E A} → Ensures P r → Ensures P (map_err f r)
  Ensures-map_err f (holds h) = holds h
  Ensures-map_err f rejected = rejected

  pub Ensures-bind :
      {B : Type 0} {Q : B → Type 0} {r : Result E A} {f : A → Result E B}
      → Ensures P r
      → ((a : A) → P a → Ensures Q (f a))
      → Ensures Q (r >>= f)
  Ensures-bind (holds {a} h) k = k a h
  Ensures-bind rejected k = rejected

  pub Ensures-weaken :
      {Q : A → Type 0} {r : Result E A} → ((a : A) → P a → Q a) → Ensures P r → Ensures Q r
  Ensures-weaken k (holds {a} h) = holds (k a h)
  Ensures-weaken k rejected = rejected

  pub Ensures-cases :
      {r : Result E A} → Ensures P r → ((a : A) × P a × (r ≡ ok a)) ⊎ ((e : E) × (r ≡ err e))
  Ensures-cases (holds {a} h) = inl (a, h, refl)
  Ensures-cases (rejected {e}) = inr (e, refl)

pub Ensures-self : {E A : Type 0} (r : Result E A) → r ≢ panic → Ensures (λ a. r ≡ ok a) r
Ensures-self (ok a) h = holds refl
Ensures-self (err e) h = rejected
Ensures-self panic h = absurd (h refl)

-- The same by cases on the outcome, for proofs by computation.
abbrev pub Post : {E A : Type 0} → (A → Type 0) → Result E A → Type 0
Post P (ok a) = P a
Post P (err e) = Unit
Post P panic = ⊥

pub Post→Ensures : {E A : Type 0} (P : A → Type 0) (r : Result E A) → Post P r → Ensures P r
Post→Ensures P (ok a) h = holds h
Post→Ensures P (err e) h = rejected
Post→Ensures P panic h = absurd h

pub Post-if :
    {E A : Type 0} (P : A → Type 0) (b : Bool) (x y : Result E A)
    → (b ≡ true → Post P x)
    → (b ≡ false → Post P y)
    → Post P (if b then x else y)
Post-if P true x y hx hy = hx refl
Post-if P false x y hx hy = hy refl

pub Post-bind :
    {E A B : Type 0} (P : A → Type 0) (Q : B → Type 0) (r : Result E A) (f : A → Result E B)
    → Post P r
    → ((a : A) → P a → Post Q (f a))
    → Post Q (r >>= f)
Post-bind P Q (ok a) f h k = k a h
Post-bind P Q (err e) f h k = tt
Post-bind P Q panic f h k = absurd h

pub >>=-eq-ok :
    {E A B : Type 0} (r : Result E A) (f : A → Result E B) {b : B}
    → (r >>= f) ≡ ok b
    → (a : A) × (r ≡ ok a) × (f a ≡ ok b)
>>=-eq-ok (ok a) f h = (a, refl, h)
>>=-eq-ok (err e) f h = cc
>>=-eq-ok panic f h = cc
