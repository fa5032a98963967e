-- ===== src/Base/Codec.antt =====
-- What a component that reads a value off the front of its input owes to the components above it.
use Prim.Native.Nat.{ℕ, ◌≤◌, ◌<◌}
use mathlib.Core.Path.{◌≡◌, sym, ap, ◌∙◌, subst}
use mathlib.Core.Logic.{◌≢◌, ◌↔◌}
use mathlib.Core.List.{List, [], ◌++◌, append_assoc, append-nil}
use native.Mathlib.Omega.{arith}
use rs_verified_der.Base.Tests.{◌!=◌, if◌then◌else◌}
use rs_verified_der.Base.Lists.{length, drop-length, drop, All, length-append, drop-append}
use rs_verified_der.Base.Result.{
  Result, ok, err, panic, ◌>>=◌, >>=-eq-ok, map_err, Ensures, Ensures-map_err, Ensures-ok,
  Ensures-panic,
}

abbrev pub IsByte : ℕ → Type 0
IsByte b = b < 256

abbrev pub IsBytes : List ℕ → Type 0
IsBytes = All IsByte

-- The value `a` was read with `k` octets: they are its prescribed octets, in front of the rest.
abbrev pub At : {A : Type 0} → (A → Type 0) → (A → List ℕ) → List ℕ → A × ℕ → Type 0
At Is octets input (a, k) = Is a × (k ≡ length (octets a)) × (input ≡ octets a ++ drop k input)

-- What is left when the whole input was read.
pub split-whole :
    {A : Type 0} (xs front : List A) (k : ℕ) → k ≡ length xs → xs ≡ front ++ drop k xs → xs ≡ front
split-whole xs front k all split =
    let none_left : drop k xs ≡ [] = rw all (drop-length xs) in
    split ∙ ap (λ t. front ++ t) none_left ∙ append-nil front

-- A reader and the prescribed octets of the values that it accepts.
pub record Codec (E A : Type 0) : Type 1 where
  pub decode : List ℕ → Result E (A × ℕ)
  pub Is : A → Type 0
  pub octets : A → List ℕ
  pub sound : (input : List ℕ) → IsBytes input → Ensures (At Is octets input) (decode input)
  pub complete :
      (a : A) (rest : List ℕ) → Is a → decode (octets a ++ rest) ≡ ok (a, length (octets a))

-- What a decoder of a whole content owes: the content is the octets of its value.
pub record ContentCodec (E R : Type 0) : Type 1 where
  pub parse : List ℕ → Result E R
  pub Is : R → Type 0
  pub octets : R → List ℕ
  pub sound :
      (content : List ℕ)
      → IsBytes content
      → Ensures (λ r. Is r × (content ≡ octets r)) (parse content)
  pub complete : (r : R) → Is r → parse (octets r) ≡ ok r

ok-injective : {E A : Type 0} {a b : A} (r : Result E A) → r ≡ ok a → r ≡ ok b → a ≡ b
ok-injective r h k = cc

module _ {E A : Type 0} (c : Codec E A) where
  open c use {decode, Is, octets, sound, complete}

  -- A reader accepts exactly the prescribed octets in front of anything.
  pub decode_iff :
      (input : List ℕ) (a : A) (k : ℕ)
      → IsBytes input
      → (decode input ≡ ok (a, k)) ↔ At Is octets input (a, k)
  decode_iff input a k bytes = (
    Ensures-ok (sound input bytes),
    λ (h, size, split).
        ap decode split ∙ complete a (drop k input) h ∙ ap (λ n. ok (a, n)) (sym size),
  )

  pub decode-ne-panic : (input : List ℕ) → IsBytes input → decode input ≢ panic
  decode-ne-panic input bytes = Ensures-panic (sound input bytes)

  -- No over-read.
  pub decode-within :
      (input : List ℕ) (a : A) (k : ℕ) → IsBytes input → decode input ≡ ok (a, k) → k ≤ length input
  decode-within input a k bytes e =
      let (h, size, split) = Ensures-ok (sound input bytes) e in
      omega (arith, ap (λ (t : List ℕ). length t) split, length-append (octets a) (drop k input))

  -- What was read does not depend on what follows.
  pub decode-append :
      (input more : List ℕ) (a : A) (k : ℕ)
      → IsBytes input
      → decode input ≡ ok (a, k)
      → decode (input ++ more) ≡ ok (a, k)
  decode-append input more a k bytes e =
      let (h, size, split) = Ensures-ok (sound input bytes) e in
      let whole : input ++ more ≡ octets a ++ (drop k input ++ more) =
        ap (λ t. t ++ more) split ∙ append_assoc (octets a) (drop k input) more in
      ap decode whole ∙ complete a (drop k input ++ more) h ∙ ap (λ n. ok (a, n)) (sym size)

  -- No prescribed octets begin with those of another value.
  pub octets_prefix_free :
      (a b : A) (r s : List ℕ) → Is a → Is b → octets a ++ r ≡ octets b ++ s → (a ≡ b) × (r ≡ s)
  octets_prefix_free a b r s h k e =
      let same : (a, length (octets a)) ≡ (b, length (octets b)) =
        ok-injective _ (complete a r h) (ap decode e ∙ complete b s k) in
      let value : a ≡ b = ap (λ (p : A × ℕ). p.0) same in
      let rests : octets a ++ r ≡ octets a ++ s = e ∙ ap (λ t. octets t ++ s) (sym value) in
      (
        value,
        sym (drop-append (octets a) r)
            ∙ ap (drop (length (octets a))) rests
            ∙ drop-append (octets a) s,
      )

  -- The end of a strict entry point: nothing may follow what was read.
  pub strict_iff :
      (e : E) (input : List ℕ) (a : A)
      → IsBytes input
      → ((decode input >>= λ (v, used). if used != length input then err e else ok v) ≡ ok a)
        ↔ (Is a × (input ≡ octets a))
  strict_iff e input a bytes = (
    λ p.
        let ((v, k), q, r) = >>=-eq-ok (decode input) _ p in
        let (h, size, split) = (decode_iff input v k bytes).0 q in
        let same : v ≡ a = ground arith in
        let all : k ≡ length input = ground arith in
        let whole : input ≡ octets v = split-whole input (octets v) k all split in
        (subst Is same h, whole ∙ ap octets same),
    λ (h, whole).
        let read : decode input ≡ ok (a, length (octets a)) =
          ap decode (whole ∙ sym (append-nil (octets a))) ∙ complete a [] h in
        rw (read, whole) (ground arith),
  )

-- The two directions of a content codec.
pub parse_iff :
    {E R : Type 0} (c : ContentCodec E R) (content : List ℕ) (r : R)
    → IsBytes content
    → (c.parse content ≡ ok r) ↔ (c.Is r × (content ≡ c.octets r))
parse_iff c content r bytes =
    (Ensures-ok (c.sound content bytes), λ (h, e). ap c.parse e ∙ c.complete r h)

-- With the error of a component above.
abbrev pub mapped : {E F A : Type 0} → (F → E) → Codec F A → Codec E A
mapped wrap c = record {
  decode = λ input. map_err wrap (c.decode input);
  Is = c.Is;
  octets = c.octets;
  sound = λ input bytes. Ensures-map_err wrap (c.sound input bytes);
  complete = λ a rest h. ap (map_err wrap) (c.complete a rest h);
}

abbrev pub mapped_content : {E F R : Type 0} → (F → E) → ContentCodec F R → ContentCodec E R
mapped_content wrap c = record {
  parse = λ content. map_err wrap (c.parse content);
  Is = c.Is;
  octets = c.octets;
  sound = λ content bytes. Ensures-map_err wrap (c.sound content bytes);
  complete = λ r h. ap (map_err wrap) (c.complete r h);
}
