-- ===== src/Utf8String/Walk.antt =====
-- One round of the loop of `validate_utf8`: it goes past the octets of a scalar value, and stops in front
-- of anything else.
use rs_verified_der.Base.{
  ℕ, suc, ◌+◌, ◌-◌, ◌*◌, ◌/◌, ◌%◌, ◌<◌, ◌≤◌, ◌≡◌, ◌⊎◌, inl, inr, refl, ap, sym, ◌∙◌, arith, false,
  Bool-cases, List, [], ◌∷◌, ◌++◌, Option, some, none, length, drop, ltb, leb, ◌==◌,
}
use rs_verified_der.Base.Codec.{IsBytes}
use rs_verified_der.Base.Result.{ok, err, ◌>>=◌}
use rs_verified_der.Utf8String.{
  ill_formed, note, min_cp, sequence_len, check_code_point, read_code_point, walk,
}
use rs_verified_der.Utf8String.Round.{
  sequence_len-one, sequence_len-two, sequence_len-three, sequence_len-four, sequence_len-none,
  read_two, read_three, read_four, cut_short, bad_second, bad_third, bad_third_of_four, bad_fourth,
}
use rs_verified_der.Utf8String.Scalars.{IsScalar, scalar_octets}

walk-one :
    (fuel lead i : ℕ) (after : List ℕ) (f : Option (ℕ × ℕ))
    → lead < 0x80
    → walk (suc fuel) (lead ∷ after) i f ≡ walk fuel after (i + 1) (note f i lead)
unfolding walk
walk-one fuel lead i after f h = rw (walk, sequence_len-one lead h) refl

walk-many :
    (fuel lead len i : ℕ) (after : List ℕ) (f : Option (ℕ × ℕ))
    → sequence_len lead ≡ some len
    → (len == 1) ≡ false
    → walk (suc fuel) (lead ∷ after) i f ≡ (
        read_code_point len lead after i >>= λ cp.
        walk fuel (drop (len - 1) after) (i + len) (note f i cp))
unfolding walk
walk-many fuel lead len i after f e more = rw (walk, e, more) refl

-- The two outcomes of a round.
abbrev pub BeginsWithScalar : List ℕ → Type 0
BeginsWithScalar content =
    (cp : ℕ) × (rest : List ℕ) × IsScalar cp × (content ≡ scalar_octets cp ++ rest)

abbrev pub IsStuck : List ℕ → Type 0
IsStuck content =
    (fuel i : ℕ) (f : Option (ℕ × ℕ)) → walk (suc fuel) content i f ≡ err (ill_formed i)

IsStuck-none : (lead : ℕ) (after : List ℕ) → sequence_len lead ≡ none → IsStuck (lead ∷ after)
unfolding walk
IsStuck-none lead after e fuel i f = rw (walk, e) refl

IsStuck-many :
    (lead len : ℕ) (after : List ℕ)
    → sequence_len lead ≡ some len
    → (len == 1) ≡ false
    → ((i : ℕ) → read_code_point len lead after i ≡ err (ill_formed i))
    → IsStuck (lead ∷ after)
IsStuck-many lead len after e more bad fuel i f =
    walk-many fuel lead len i after f e more ∙ rw (bad i) refl

check-cases :
    (len cp : ℕ)
    → ((min_cp len ≤ cp) × IsScalar cp × ((i : ℕ) → check_code_point len i cp ≡ ok cp))
      ⊎ ((i : ℕ) → check_code_point len i cp ≡ err (ill_formed i))
check-cases len cp = elim (Bool-cases (ltb cp (min_cp len))) [
  | inl low ↦ inr (λ i. rw low refl)
  | inr high ↦ elim (Bool-cases (leb 0xd800 cp)) [
    | inl above ↦ elim (Bool-cases (leb cp 0xdfff)) [
      | inl surrogate ↦ inr (λ i. rw (high, above, surrogate) refl)
      | inr beyond ↦ elim (Bool-cases (ltb 0x10ffff cp)) [
        | inl large ↦ inr (λ i. rw (high, above, beyond, large) refl)
        | inr good ↦ inl (
          ground arith,
          inr (ground arith, ground arith),
          λ i. rw (high, above, beyond, good) refl,
        )
      ]
    ]
    | inr below ↦ elim (Bool-cases (ltb 0x10ffff cp)) [
      | inl large ↦ absurd (ground arith)
      | inr good ↦ inl (ground arith, inl (ground arith), λ i. rw (high, below, good) refl)
    ]
  ]
]

continuation-cases :
    (c : ℕ) → c < 256 → ((x : ℕ) × (x < 64) × (c ≡ 0x80 + x)) ⊎ ((c < 0x80) ⊎ (0xc0 ≤ c))
continuation-cases c h = elim (Bool-cases (ltb c 0x80)) [
  | inl low ↦ inr (inl (ground arith))
  | inr e ↦ elim (Bool-cases (ltb c 0xc0)) [
    | inl within ↦ inl (c - 0x80, ground arith, ground arith)
    | inr high ↦ inr (inr (ground arith))
  ]
]

-- The octets of a scalar value that has `len` octets by its size.
scalar_octets-two :
    (a c : ℕ)
    → c < 64
    → 0x80 ≤ a * 64 + c
    → a < 32
    → scalar_octets (a * 64 + c) ≡ (0xc0 + a) ∷ (0x80 + c) ∷ []
scalar_octets-two a c hc h ha = ground arith

scalar_octets-three :
    (a c d : ℕ)
    → c < 64
    → d < 64
    → 0x800 ≤ (a * 64 + c) * 64 + d
    → a < 16
    → scalar_octets ((a * 64 + c) * 64 + d) ≡ (0xe0 + a) ∷ (0x80 + c) ∷ (0x80 + d) ∷ []
scalar_octets-three a c d hc hd h ha = ground arith

scalar_octets-four :
    (a c d e : ℕ)
    → c < 64
    → d < 64
    → e < 64
    → 0x10000 ≤ ((a * 64 + c) * 64 + d) * 64 + e
    → scalar_octets (((a * 64 + c) * 64 + d) * 64 + e)
      ≡ (0xf0 + a) ∷ (0x80 + c) ∷ (0x80 + d) ∷ (0x80 + e) ∷ []
scalar_octets-four a c d e hc hd he h = ground arith

two_octets :
    (a : ℕ) (after : List ℕ)
    → a < 32
    → IsBytes after
    → BeginsWithScalar ((0xc0 + a) ∷ after) ⊎ IsStuck ((0xc0 + a) ∷ after)
two_octets a [] ha bytes = inr (
    IsStuck-many (0xc0 + a) 2 [] (sequence_len-two a ha) refl
      (λ i. cut_short 2 (0xc0 + a) i [] (omega arith)))
two_octets a (b ∷ rest) ha (hb, bytes) = elim (continuation-cases b hb) [
  | inr bad ↦ inr (
      IsStuck-many (0xc0 + a) 2 (b ∷ rest) (sequence_len-two a ha) refl
        (λ i. bad_second 2 (0xc0 + a) b i rest (omega arith) hb bad))
  | inl (c, hc, e) ↦
      let split : (0xc0 + a) ∷ b ∷ rest ≡ (0xc0 + a) ∷ (0x80 + c) ∷ rest =
        ap (λ x. (0xc0 + a) ∷ x ∷ rest) e in
      elim (check-cases 2 (a * 64 + c)) [
        | inl (least, scalar, good) ↦ inl (
          a * 64 + c,
          rest,
          scalar,
          split ∙ ap (λ t. t ++ rest) (sym (scalar_octets-two a c hc least ha)),
        )
        | inr bad ↦ inr (
            IsStuck-many (0xc0 + a) 2 (b ∷ rest) (sequence_len-two a ha) refl (λ i.
              ap (λ x. read_code_point 2 (0xc0 + a) (x ∷ rest) i) e
              ∙ read_two a c i rest ha hc
              ∙ bad i))
      ]
]

three_octets :
    (a : ℕ) (after : List ℕ)
    → a < 16
    → IsBytes after
    → BeginsWithScalar ((0xe0 + a) ∷ after) ⊎ IsStuck ((0xe0 + a) ∷ after)
three_octets a [] ha bytes = inr (
    IsStuck-many (0xe0 + a) 3 [] (sequence_len-three a ha) refl
      (λ i. cut_short 3 (0xe0 + a) i [] (omega arith)))
three_octets a (b ∷ []) ha bytes = inr (
    IsStuck-many (0xe0 + a) 3 (b ∷ []) (sequence_len-three a ha) refl
      (λ i. cut_short 3 (0xe0 + a) i (b ∷ []) (omega arith)))
three_octets a (b ∷ b' ∷ rest) ha (hb, (hb', bytes)) = elim (continuation-cases b hb) [
  | inr bad ↦ inr (
      IsStuck-many (0xe0 + a) 3 (b ∷ b' ∷ rest) (sequence_len-three a ha) refl
        (λ i. bad_second 3 (0xe0 + a) b i (b' ∷ rest) (omega arith) hb bad))
  | inl (c, hc, e) ↦ elim (continuation-cases b' hb') [
    | inr bad ↦ inr (
        IsStuck-many (0xe0 + a) 3 (b ∷ b' ∷ rest) (sequence_len-three a ha) refl (λ i.
          ap (λ x. read_code_point 3 (0xe0 + a) (x ∷ b' ∷ rest) i) e
          ∙ bad_third a c b' i rest ha hc hb' bad))
    | inl (d, hd, e') ↦
        let same : b ∷ b' ∷ rest ≡ (0x80 + c) ∷ (0x80 + d) ∷ rest =
          ap (λ x. x ∷ b' ∷ rest) e ∙ ap (λ x. (0x80 + c) ∷ x ∷ rest) e' in
        elim (check-cases 3 ((a * 64 + c) * 64 + d)) [
          | inl (least, scalar, good) ↦ inl (
            (a * 64 + c) * 64 + d,
            rest,
            scalar,
            ap (λ t. (0xe0 + a) ∷ t) same
                ∙ ap (λ t. t ++ rest) (sym (scalar_octets-three a c d hc hd least ha)),
          )
          | inr bad ↦ inr (
              IsStuck-many (0xe0 + a) 3 (b ∷ b' ∷ rest) (sequence_len-three a ha) refl (λ i.
                ap (λ t. read_code_point 3 (0xe0 + a) t i) same
                ∙ read_three a c d i rest ha hc hd
                ∙ bad i))
        ]
  ]
]

four_octets :
    (a : ℕ) (after : List ℕ)
    → a < 8
    → IsBytes after
    → BeginsWithScalar ((0xf0 + a) ∷ after) ⊎ IsStuck ((0xf0 + a) ∷ after)
four_octets a [] ha bytes = inr (
    IsStuck-many (0xf0 + a) 4 [] (sequence_len-four a ha) refl
      (λ i. cut_short 4 (0xf0 + a) i [] (omega arith)))
four_octets a (b ∷ []) ha bytes = inr (
    IsStuck-many (0xf0 + a) 4 (b ∷ []) (sequence_len-four a ha) refl
      (λ i. cut_short 4 (0xf0 + a) i (b ∷ []) (omega arith)))
four_octets a (b ∷ b' ∷ []) ha bytes = inr (
    IsStuck-many (0xf0 + a) 4 (b ∷ b' ∷ []) (sequence_len-four a ha) refl
      (λ i. cut_short 4 (0xf0 + a) i (b ∷ b' ∷ []) (omega arith)))
four_octets a (b ∷ b' ∷ b'' ∷ rest) ha (hb, (hb', (hb'', bytes))) = elim (continuation-cases b hb) [
  | inr bad ↦ stuck (λ i. bad_second 4 (0xf0 + a) b i (b' ∷ b'' ∷ rest) (omega arith) hb bad)
  | inl (c, hc, e) ↦ elim (continuation-cases b' hb') [
    | inr bad ↦ stuck (λ i.
        ap (λ x. read_code_point 4 (0xf0 + a) (x ∷ b' ∷ b'' ∷ rest) i) e
        ∙ bad_third_of_four a c b' i (b'' ∷ rest) ha hc hb' bad)
    | inl (d, hd, e') ↦
        let front : b ∷ b' ∷ b'' ∷ rest ≡ (0x80 + c) ∷ (0x80 + d) ∷ b'' ∷ rest =
          ap (λ x. x ∷ b' ∷ b'' ∷ rest) e ∙ ap (λ x. (0x80 + c) ∷ x ∷ b'' ∷ rest) e' in
        elim (continuation-cases b'' hb'') [
          | inr bad ↦ stuck (λ i.
              ap (λ t. read_code_point 4 (0xf0 + a) t i) front
              ∙ bad_fourth a c d b'' i rest ha hc hd hb'' bad)
          | inl (f, hf, e'') ↦
              let same : b ∷ b' ∷ b'' ∷ rest ≡ (0x80 + c) ∷ (0x80 + d) ∷ (0x80 + f) ∷ rest =
                front ∙ ap (λ x. (0x80 + c) ∷ (0x80 + d) ∷ x ∷ rest) e'' in
              elim (check-cases 4 (((a * 64 + c) * 64 + d) * 64 + f)) [
                | inl (least, scalar, good) ↦ inl (
                  ((a * 64 + c) * 64 + d) * 64 + f,
                  rest,
                  scalar,
                  ap (λ t. (0xf0 + a) ∷ t) same
                      ∙ ap (λ t. t ++ rest) (sym (scalar_octets-four a c d f hc hd hf least)),
                )
                | inr bad ↦ stuck (λ i.
                    ap (λ t. read_code_point 4 (0xf0 + a) t i) same
                    ∙ read_four a c d f i rest ha hc hd hf
                    ∙ bad i)
              ]
        ]
  ]
]
  where
    stuck :
        ((i : ℕ) → read_code_point 4 (0xf0 + a) (b ∷ b' ∷ b'' ∷ rest) i ≡ err (ill_formed i))
        → BeginsWithScalar ((0xf0 + a) ∷ b ∷ b' ∷ b'' ∷ rest)
          ⊎ IsStuck ((0xf0 + a) ∷ b ∷ b' ∷ b'' ∷ rest)
    stuck bad =
        inr (IsStuck-many (0xf0 + a) 4 (b ∷ b' ∷ b'' ∷ rest) (sequence_len-four a ha) refl bad)

-- Any octets but none: they begin with a scalar value, or the loop stops there.
pub first-cases :
    (lead : ℕ) (after : List ℕ)
    → IsBytes (lead ∷ after)
    → BeginsWithScalar (lead ∷ after) ⊎ IsStuck (lead ∷ after)
first-cases lead after (h, bytes) = elim (Bool-cases (ltb lead 0x80)) [
  | inl low ↦ inl (lead, after, inl (ground arith), ground arith)
  | inr e ↦ elim (Bool-cases (ltb lead 0xc0)) [
    | inl stray ↦
        inr (IsStuck-none lead after (sequence_len-none lead h (inl (ground arith, ground arith))))
    | inr e' ↦ elim (Bool-cases (ltb lead 0xe0)) [
      | inl two ↦
          let same : 0xc0 + (lead - 0xc0) ≡ lead = ground arith in
          rw same at (two_octets (lead - 0xc0) after (ground arith) bytes)
      | inr e'' ↦ elim (Bool-cases (ltb lead 0xf0)) [
        | inl three ↦
            let same : 0xe0 + (lead - 0xe0) ≡ lead = ground arith in
            rw same at (three_octets (lead - 0xe0) after (ground arith) bytes)
        | inr e''' ↦ elim (Bool-cases (ltb lead 0xf8)) [
          | inl four ↦
              let same : 0xf0 + (lead - 0xf0) ≡ lead = ground arith in
              rw same at (four_octets (lead - 0xf0) after (ground arith) bytes)
          | inr high ↦ inr (IsStuck-none lead after (sequence_len-none lead h (inr (ground arith))))
        ]
      ]
    ]
  ]
]

-- A round on a scalar value.
check-scalar : (len i cp : ℕ) → min_cp len ≤ cp → IsScalar cp → check_code_point len i cp ≡ ok cp
check-scalar len i cp h k = ground arith

read_scalar-two :
    (cp i : ℕ) (rest : List ℕ)
    → 0x80 ≤ cp
    → cp < 0x800
    → read_code_point 2 (0xc0 + cp / 0x40) ((0x80 + cp % 0x40) ∷ rest) i ≡ ok cp
read_scalar-two cp i rest h k =
    let same : cp / 0x40 * 64 + cp % 0x40 ≡ cp = omega arith in
    read_two (cp / 0x40) (cp % 0x40) i rest (omega arith) (omega arith)
    ∙ ap (λ (x : ℕ). check_code_point 2 i x) same
    ∙ check-scalar 2 i cp h (inl (omega arith))

read_scalar-three :
    (cp i : ℕ) (rest : List ℕ)
    → 0x800 ≤ cp
    → cp < 0x10000
    → IsScalar cp
    → read_code_point 3
        (0xe0 + cp / 0x1000)
        ((0x80 + cp / 0x40 % 0x40) ∷ (0x80 + cp % 0x40) ∷ rest)
        i
      ≡ ok cp
read_scalar-three cp i rest h k scalar =
    let same : (cp / 0x1000 * 64 + cp / 0x40 % 0x40) * 64 + cp % 0x40 ≡ cp = omega arith in
    read_three (cp / 0x1000) (cp / 0x40 % 0x40) (cp % 0x40) i rest (omega arith) (omega arith)
      (omega arith)
    ∙ ap (λ (x : ℕ). check_code_point 3 i x) same
    ∙ check-scalar 3 i cp h scalar

read_scalar-four :
    (cp i : ℕ) (rest : List ℕ)
    → 0x10000 ≤ cp
    → IsScalar cp
    → read_code_point 4
        (0xf0 + cp / 0x40000)
        ((0x80 + cp / 0x1000 % 0x40) ∷ (0x80 + cp / 0x40 % 0x40) ∷ (0x80 + cp % 0x40) ∷ rest)
        i
      ≡ ok cp
read_scalar-four cp i rest h scalar =
    let same : ((cp / 0x40000 * 64 + cp / 0x1000 % 0x40) * 64 + cp / 0x40 % 0x40) * 64 + cp % 0x40
        ≡ cp =
      omega arith in
    read_four (cp / 0x40000) (cp / 0x1000 % 0x40) (cp / 0x40 % 0x40) (cp % 0x40) i rest
      (omega arith) (omega arith) (omega arith) (omega arith)
    ∙ ap (λ (x : ℕ). check_code_point 4 i x) same
    ∙ check-scalar 4 i cp h scalar

pub walk-scalar :
    (fuel cp i : ℕ) (rest : List ℕ) (f : Option (ℕ × ℕ))
    → IsScalar cp
    → walk (suc fuel) (scalar_octets cp ++ rest) i f
      ≡ walk fuel rest (i + length (scalar_octets cp)) (note f i cp)
walk-scalar fuel cp i rest f h = elim (Bool-cases (ltb cp 0x80)) [
  | inl e ↦ rw e (walk-one fuel cp i rest f (ground arith))
  | inr e ↦ elim (Bool-cases (ltb cp 0x800)) [
    | inl e' ↦
        rw (e, e')
          (walk-many fuel (0xc0 + cp / 0x40) 2 i ((0x80 + cp % 0x40) ∷ rest) f
              (sequence_len-two (cp / 0x40) (ground arith)) refl
            ∙ rw (read_scalar-two cp i rest (ground arith) (ground arith)) refl)
    | inr e' ↦ elim (Bool-cases (ltb cp 0x10000)) [
      | inl e'' ↦
          rw (e, e', e'')
            (walk-many fuel (0xe0 + cp / 0x1000) 3 i
                ((0x80 + cp / 0x40 % 0x40) ∷ (0x80 + cp % 0x40) ∷ rest) f
                (sequence_len-three (cp / 0x1000) (ground arith)) refl
              ∙ rw (read_scalar-three cp i rest (ground arith) (ground arith) h) refl)
      | inr e'' ↦
          rw (e, e', e'')
            (walk-many fuel (0xf0 + cp / 0x40000) 4 i
                ((0x80 + cp / 0x1000 % 0x40)
                  ∷ (0x80 + cp / 0x40 % 0x40)
                  ∷ (0x80 + cp % 0x40)
                  ∷ rest)
                f (sequence_len-four (cp / 0x40000) (ground arith)) refl
              ∙ rw (read_scalar-four cp i rest (ground arith) h) refl)
    ]
  ]
]
