-- ===== src/Oid/Arcs.antt =====
-- `validate_oid` against the list of arcs that the content spells.
use rs_verified_der.Base.{
  ℕ, ◌+◌, ◌-◌, ◌<◌, ◌≤◌, ◌≡◌, ◌≢◌, ◌↔◌, refl, ap, sym, ◌∙◌, arith, Bool, true, false, Bool-cases,
  inl, inr, List, [], ◌∷◌, ◌++◌, All, ltb, not, if◌then◌else◌,
}
use rs_verified_der.Base.Bits.{bit_and-0x80}
use rs_verified_der.Base.Codec.{IsBytes}
use rs_verified_der.Base.Result.{Result, ok, err, panic, ◌>>=◌}
use rs_verified_der.Oid.{OidError, truncated, scan, validate_oid}

-- A subidentifier by its base-128 digits: those before the last, and the last.
abbrev pub Arc : Type 0
Arc = List ℕ × ℕ

-- X.690 8.19.2: a digit has seven bits, and the first of several is not 0.
abbrev pub IsDigit : ℕ → Type 0
IsDigit d = d < 128

abbrev pub IsMinimal : List ℕ → Type 0
IsMinimal [] = Unit
IsMinimal (d ∷ _) = d ≢ 0

abbrev pub IsArc : Arc → Type 0
IsArc (leading, last) = All IsDigit leading × IsMinimal leading × IsDigit last

-- Bit 8 is set on every octet but the last.
abbrev pub raise : List ℕ → List ℕ
raise [] = []
raise (d ∷ leading) = (128 + d) ∷ raise leading

abbrev pub oid_octets : List Arc → List ℕ
oid_octets [] = []
oid_octets ((leading, last) ∷ arcs) = raise leading ++ (last ∷ oid_octets arcs)

-- A round on the last octet of a subidentifier, and on one before it.
scan-last : (s : Bool) (b : ℕ) (rest : List ℕ) → b < 128 → scan s (b ∷ rest) ≡ scan true rest
unfolding scan
scan-last s b rest h = ground (arith, bit_and-0x80 b)

scan-leading :
    (s : Bool) (d : ℕ) (rest : List ℕ)
    → d < 128
    → (s ≡ true → d ≢ 0)
    → scan s ((128 + d) ∷ rest) ≡ scan false rest
unfolding scan
scan-leading s d rest h k = ground (arith, bit_and-0x80 (128 + d))

scan-raise :
    (leading : List ℕ) (last : ℕ) (rest : List ℕ)
    → All IsDigit leading
    → last < 128
    → scan false (raise leading ++ (last ∷ rest)) ≡ scan true rest
scan-raise [] last rest h k = scan-last false last rest k
scan-raise (d ∷ leading) last rest (hd, h) k =
    scan-leading false d _ hd (λ e. cc) ∙ scan-raise leading last rest h k

scan-arc :
    (arc : Arc) (rest : List ℕ)
    → IsArc arc
    → scan true (raise arc.0 ++ (arc.1 ∷ rest)) ≡ scan true rest
scan-arc ([], last) rest (_, _, k) = scan-last true last rest k
scan-arc (d ∷ leading, last) rest ((hd, h), m, k) =
    scan-leading true d _ hd (λ _. m) ∙ scan-raise leading last rest h k

scan-oid_octets : (arcs : List Arc) → All IsArc arcs → scan true (oid_octets arcs) ≡ ok true
unfolding scan
scan-oid_octets [] h = refl
scan-oid_octets (arc ∷ arcs) (ha, h) = scan-arc arc (oid_octets arcs) ha ∙ scan-oid_octets arcs h

-- What the loop has left to read at the start of a subidentifier, and within one.
abbrev AtStart : List ℕ → Type 0
AtStart content = (arcs : List Arc) × All IsArc arcs × (content ≡ oid_octets arcs)

abbrev Within : List ℕ → Type 0
Within content =
    (leading : List ℕ) × (last : ℕ) × (arcs : List Arc) × All IsDigit leading
    × IsDigit last
    × All IsArc arcs
    × (content ≡ raise leading ++ (last ∷ oid_octets arcs))

scan-padding : (b : ℕ) (rest : List ℕ) → scan true (b ∷ rest) ≡ ok true → b ≢ 128
unfolding scan
scan-padding b rest h = ground arith

scan-raised :
    (s : Bool) (b : ℕ) (rest : List ℕ)
    → 128 ≤ b
    → b < 256
    → (s ≡ true → b ≢ 128)
    → scan s (b ∷ rest) ≡ scan false rest
unfolding scan
scan-raised s b rest h k l = ground (arith, bit_and-0x80 b)

scan_sound :
    (content : List ℕ)
    → IsBytes content
    → (scan true content ≡ ok true → AtStart content)
      × (scan false content ≡ ok true → Within content)
unfolding scan
scan_sound [] bytes = ((λ _. ([], tt, refl)), (λ e. cc))
scan_sound (b ∷ rest) (hb, bytes) = elim (Bool-cases (ltb b 128)) [
  | inl low ↦
      let digit : b < 128 = ground arith in
      (
        (λ e.
            let (arcs, h, split) =
              (scan_sound rest bytes).0 (sym (scan-last true b rest digit) ∙ e) in
            (([], b) ∷ arcs, ((tt, tt, digit), h), ap (λ t. b ∷ t) split)),
        (λ e.
            let (arcs, h, split) =
              (scan_sound rest bytes).0 (sym (scan-last false b rest digit) ∙ e) in
            ([], b, arcs, tt, digit, h, ap (λ t. b ∷ t) split)),
      )
  | inr high ↦
      let large : 128 ≤ b = ground arith in
      let digit : b - 128 < 128 = omega arith in
      let octet : b ≡ 128 + (b - 128) = omega arith in
      (
        (λ e.
            let nonzero : b ≢ 128 = scan-padding b rest e in
            let (leading, last, arcs, hl, hd, h, split) =
              (scan_sound rest bytes).1
                (sym (scan-raised true b rest large hb (λ _. nonzero)) ∙ e) in
            (
              ((b - 128) ∷ leading, last) ∷ arcs,
              (((digit, hl), (λ z. nonzero (omega arith)), hd), h),
              ap (λ t. b ∷ t) split ∙ ap (λ x. x ∷ raise leading ++ (last ∷ oid_octets arcs)) octet,
            )),
        (λ e.
            let (leading, last, arcs, hl, hd, h, split) =
              (scan_sound rest bytes).1 (sym (scan-raised false b rest large hb (λ f. cc)) ∙ e) in
            (
              (b - 128) ∷ leading,
              last,
              arcs,
              (digit, hl),
              hd,
              h,
              ap (λ t. b ∷ t) split ∙ ap (λ x. x ∷ raise leading ++ (last ∷ oid_octets arcs)) octet,
            )),
      )
]

validate_oid-scan :
    (b : ℕ) (rest : List ℕ) → (validate_oid (b ∷ rest) ≡ ok tt) ↔ (scan true (b ∷ rest) ≡ ok true)
unfolding validate_oid
validate_oid-scan b rest = finish (scan true (b ∷ rest))
  where
    finish :
        (r : Result OidError Bool)
        → ((r >>= λ s. if not s then err truncated else ok tt) ≡ ok tt) ↔ (r ≡ ok true)
    finish (ok true) = ((λ e. refl), (λ e. refl))
    finish (ok false) = ((λ e. cc), (λ e. cc))
    finish (err x) = ((λ e. cc), (λ e. cc))
    finish panic = ((λ e. cc), (λ e. cc))

oid_octets-ne-nil : (arcs : List Arc) → arcs ≢ [] → oid_octets arcs ≢ []
oid_octets-ne-nil [] h = λ e. h refl
oid_octets-ne-nil (([], last) ∷ arcs) h = λ e. cc
oid_octets-ne-nil ((d ∷ leading, last) ∷ arcs) h = λ e. cc

validate_oid_sound :
    (content : List ℕ)
    → IsBytes content
    → validate_oid content ≡ ok tt
    → (arcs : List Arc) × (arcs ≢ []) × All IsArc arcs × (content ≡ oid_octets arcs)
unfolding validate_oid
validate_oid_sound [] bytes h = cc
validate_oid_sound (b ∷ rest) bytes h =
    let (arcs, good, split) = (scan_sound (b ∷ rest) bytes).0 ((validate_oid-scan b rest).0 h) in
    (arcs, (λ none. absurd (cons-ne-nil (split ∙ ap oid_octets none))), good, split)
  where
    cons-ne-nil : b ∷ rest ≢ []
    cons-ne-nil = λ e. cc

validate_oid_complete :
    (content : List ℕ) (arcs : List Arc)
    → arcs ≢ []
    → All IsArc arcs
    → content ≡ oid_octets arcs
    → validate_oid content ≡ ok tt
validate_oid_complete [] arcs some good split = absurd (oid_octets-ne-nil arcs some (sym split))
validate_oid_complete (b ∷ rest) arcs some good split =
    (validate_oid-scan b rest).1 (ap (λ t. scan true t) split ∙ scan-oid_octets arcs good)

-- On bytes, `validate_oid` accepts the content exactly when it is the concatenation of the base-128
-- forms of one or more subidentifiers, each with bit 8 set on all its octets but the last and with
-- no leading digit 0.
pub validate_oid_iff :
    (content : List ℕ)
    → IsBytes content
    → (validate_oid content ≡ ok tt)
      ↔ ((arcs : List Arc) × (arcs ≢ []) × All IsArc arcs × (content ≡ oid_octets arcs))
validate_oid_iff content bytes = (
  validate_oid_sound content bytes,
  λ (arcs, some, good, split). validate_oid_complete content arcs some good split,
)
