-- ===== src/Tlv/Typed.antt =====
-- TLVs of one known tag, as the typed decoders above the TLV reader take them.
use rs_verified_der.Base.{
  ℕ, ◌^◌, ◌<◌, ◌≡◌, ap, ◌∙◌, subst, arith, List, ◌++◌, length, drop, Bool, true, false, not, ◌||◌,
  ◌!=◌, All-split, if◌then◌else◌,
}
use rs_verified_der.Base.Result.{Result, err, Ensures, rejected, Ensures-if}
use rs_verified_der.Base.Codec.{At, IsByte, IsBytes}
use rs_verified_der.Tag.{Tag, Class, class_eq, universal}
use rs_verified_der.Tlv.{Tlv}
use rs_verified_der.Tlv.Octets.{IsTlv, tlv_octets, header_octets}

abbrev pub universal_tag : Bool → ℕ → Tag
universal_tag constructed number = record {
  class = universal;
  constructed = constructed;
  number = number;
}

-- The TLV of tag `tag` around `content`.
abbrev pub wrap : Tag → List ℕ → Tlv
wrap tag content = record { tag = tag; value = content }

abbrev pub wrap_octets : Tag → List ℕ → List ℕ
wrap_octets tag content = tlv_octets (wrap tag content)

-- What fits the length field.
abbrev pub Fits : List ℕ → Type 0
Fits content = length content < 2 ^ 32

pub class_eq→eq : (a b : Class) → class_eq a b ≡ true → a ≡ b
class_eq→eq a b h = ground arith

-- A TLV that passed the checks of a typed decoder is its tag around its value.
pub wrapped :
    (t : Tlv) (c : Class) (b : Bool) (n : ℕ)
    → class_eq t.tag.class c ≡ true
    → t.tag.constructed ≡ b
    → t.tag.number ≡ n
    → t ≡ wrap (record { class = c; constructed = b; number = n }) t.value
wrapped t c b n hc hb hn =
    let same = class_eq→eq t.tag.class c hc in
    λ i. record {
      tag = record { class = same i; constructed = hb i; number = hn i };
      value = t.value;
    }

-- So what was read is the wrapped value.
pub At-wrapped :
    (input : List ℕ) (t : Tlv) (k : ℕ) (tag : Tag)
    → At IsTlv tlv_octets input (t, k)
    → t ≡ wrap tag t.value
    → At Fits (wrap_octets tag) input (t.value, k)
At-wrapped input t k tag ((_, fits), size, split) e = (
  fits,
  size ∙ ap (λ u. length (tlv_octets u)) e,
  split ∙ ap (λ u. tlv_octets u ++ drop k input) e,
)

-- The value of a TLV and what follows it are made of bytes if the input is.
pub At-IsBytes :
    (input : List ℕ) (t : Tlv) (k : ℕ)
    → IsBytes input
    → At IsTlv tlv_octets input (t, k)
    → IsBytes t.value × IsBytes (drop k input)
At-IsBytes input t k bytes (h, size, split) =
    let parts = All-split IsByte (tlv_octets t) (drop k input) (subst IsBytes split bytes) in
    ((All-split IsByte (header_octets t) t.value parts.0).1, parts.1)

-- The checks of a typed decoder: the identity of the tag, then its form.
abbrev pub not_universal : Tlv → ℕ → Bool
not_universal t number = not (class_eq t.tag.class universal) || t.tag.number != number

pub is_universal-wrapped :
    (t : Tlv) (b : Bool) (number : ℕ)
    → not_universal t number ≡ false
    → t.tag.constructed ≡ b
    → t ≡ wrap (universal_tag b number) t.value
is_universal-wrapped t b number h hb = wrapped t universal b number (ground arith) hb (ground arith)

pub typed-Ensures :
    {E B : Type 0} (Q : B → Type 0) (t : Tlv) (number : ℕ) (b bad_form : Bool) (e₁ e₂ : E)
    (r : Result E B)
    → (bad_form ≡ false → t.tag.constructed ≡ b)
    → (t ≡ wrap (universal_tag b number) t.value → Ensures Q r)
    → Ensures Q (if not_universal t number then err e₁ else if bad_form then err e₂ else r)
typed-Ensures Q t number b bad_form e₁ e₂ r form rest =
    Ensures-if (not_universal t number) (λ _. rejected)
      (λ right.
        Ensures-if bad_form (λ _. rejected)
          (λ good. rest (is_universal-wrapped t b number right (form good))))
