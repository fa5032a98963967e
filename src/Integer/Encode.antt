-- ===== src/Integer/Encode.antt =====
-- `encode_integer` writes the minimal content octets, which `decode_integer` reads back.
use rs_verified_der.Base.{
  ℕ, zero, suc, ◌-◌, ◌/◌, ◌%◌, ◌^◌, ◌≤◌, ◌<◌, ◌≡◌, ap, sym, ◌∙◌, refl, arith, List, [], ◌∷◌, ◌++◌,
  length, drop, replicate, if◌then◌else◌, Bool, length-drop,
}
use rs_verified_der.Base.Codec.{IsBytes}
use rs_verified_der.Base.Int.{ℤ, pos, negsuc}
use rs_verified_der.Base.Result.{ok}
use rs_verified_der.BigInteger.{strip, zero_padding, ones_padding, validate_integer_content}
use rs_verified_der.BigInteger.Value.{be_value, twos_value, bit_8_clear}
use rs_verified_der.BigInteger.Minimal.{strip-valid, strip-value, strip-length, strip-IsBytes}
use rs_verified_der.Integer.{
  IsI64, to_be_bytes, skip, is_nonnegative, copy_octets, encode_integer, decode_integer,
}
use rs_verified_der.Integer.Decode.{decode_integer_iff}

to_be_bytes-IsBytes : (v : ℤ) → IsBytes (to_be_bytes v)
to_be_bytes-IsBytes v = omega arith

-- Eight octets of a word hold it.
be_value-digits :
    (u : ℕ)
    → u < 2 ^ 64
    → be_value (
        u / 2 ^ 56 % 256
        ∷ u / 2 ^ 48 % 256
        ∷ u / 2 ^ 40 % 256
        ∷ u / 2 ^ 32 % 256
        ∷ u / 2 ^ 24 % 256
        ∷ u / 2 ^ 16 % 256
        ∷ u / 2 ^ 8 % 256
        ∷ u % 256
        ∷ [])
      ≡ u
unfolding be_value
be_value-digits u h = omega arith

twos_value-to_be_bytes : (v : ℤ) → IsI64 v → twos_value (to_be_bytes v) ≡ v
unfolding twos_value
twos_value-to_be_bytes (pos n) h = ground (arith, be_value-digits n)
twos_value-to_be_bytes (negsuc n) h = ground (arith, be_value-digits (2 ^ 64 - 1 - n))

-- The octet count that the loops skip is what `strip` strips, on either side of 0.
skip_zeros :
    (c : ℕ) (rest : List ℕ)
    → IsBytes (c ∷ rest)
    → c < 0x80
    → drop (skip zero_padding (c ∷ rest)) (c ∷ rest) ≡ strip (c ∷ rest)
unfolding skip strip
skip_zeros c [] h small = refl
skip_zeros c (d ∷ rest) (hc, (hd, h)) small =
    ground (arith, bit_8_clear d hd, skip_zeros d rest (hd, h))

skip_ones :
    (c : ℕ) (rest : List ℕ)
    → IsBytes (c ∷ rest)
    → 0x80 ≤ c
    → drop (skip ones_padding (c ∷ rest)) (c ∷ rest) ≡ strip (c ∷ rest)
unfolding skip strip
skip_ones c [] h large = refl
skip_ones c (d ∷ rest) (hc, (hd, h)) large =
    ground (arith, bit_8_clear d hd, skip_ones d rest (hd, h))

skip-lt : (padding : ℕ → ℕ → Bool) (c : ℕ) (rest : List ℕ) → skip padding (c ∷ rest) ≤ length rest
unfolding skip
skip-lt padding c [] = omega arith
skip-lt padding c (d ∷ rest) = ground (arith, skip-lt padding d rest)

-- The copy loop moves what is left of the eight octets to the front.
copy_octets_lem :
    {E : Type 0} (s a b c d e f g h : ℕ)
    → s ≤ 7
    → let be = a ∷ b ∷ c ∷ d ∷ e ∷ f ∷ g ∷ h ∷ [] in
      copy_octets {E = E} (8 - s) 0 be s (replicate 8 0) ≡ ok (drop s be ++ replicate s 0)
unfolding copy_octets
copy_octets_lem zero a b c d e f g h k = refl
copy_octets_lem (suc zero) a b c d e f g h k = refl
copy_octets_lem (suc (suc zero)) a b c d e f g h k = refl
copy_octets_lem (suc (suc (suc zero))) a b c d e f g h k = refl
copy_octets_lem (suc (suc (suc (suc zero)))) a b c d e f g h k = refl
copy_octets_lem (suc (suc (suc (suc (suc zero))))) a b c d e f g h k = refl
copy_octets_lem (suc (suc (suc (suc (suc (suc zero)))))) a b c d e f g h k = refl
copy_octets_lem (suc (suc (suc (suc (suc (suc (suc zero))))))) a b c d e f g h k = refl
copy_octets_lem (suc (suc (suc (suc (suc (suc (suc (suc s)))))))) a b c d e f g h k =
    absurd (omega arith)

-- The buffer after the loops.
encode_at :
    {E : Type 0} (v : ℤ) (s : ℕ)
    → s ≤ 7
    → (if is_nonnegative v
        then skip zero_padding (to_be_bytes v)
        else skip ones_padding (to_be_bytes v))
      ≡ s
    → drop s (to_be_bytes v) ≡ strip (to_be_bytes v)
    → encode_integer {E = E} v
      ≡ ok (
        strip (to_be_bytes v) ++ replicate (8 - length (strip (to_be_bytes v))) 0,
        length (strip (to_be_bytes v)),
      )
unfolding encode_integer
encode_at {E} v s h start left =
    let m = strip (to_be_bytes v) in
    let size : 8 - s ≡ length m =
      sym (length-drop s (to_be_bytes v)) ∙ ap (λ (xs : List ℕ). length xs) left in
    let pad : s ≡ 8 - length m = omega (arith, size) in
    rw (start, copy_octets_lem {E = E} s _ _ _ _ _ _ _ _ h, left, size)
      (ap (λ k. ok (m ++ replicate k 0, length m)) pad)

encode_integer-strip :
    {E : Type 0} (v : ℤ)
    → IsI64 v
    → encode_integer {E = E} v
      ≡ ok (
        strip (to_be_bytes v) ++ replicate (8 - length (strip (to_be_bytes v))) 0,
        length (strip (to_be_bytes v)),
      )
encode_integer-strip {E} (pos n) h =
    encode_at {E = E} (pos n) _ (skip-lt zero_padding _ _) refl
      (skip_zeros _ _ (to_be_bytes-IsBytes (pos n)) (omega arith))
encode_integer-strip {E} (negsuc n) h =
    encode_at {E = E} (negsuc n) _ (skip-lt ones_padding _ _) refl
      (skip_ones _ _ (to_be_bytes-IsBytes (negsuc n)) (omega arith))

-- For an `i64` v, `encode_integer` returns without a panic the eight-octet buffer that begins with
-- some content m and is zero after it, with the length of m; `validate_integer_content` accepts m
-- (it has no needless padding octet), and `decode_integer` reads v back from it.
pub encode_integer_lem :
    {E : Type 0} (v : ℤ)
    → IsI64 v
    → (m : List ℕ) × (encode_integer {E = E} v ≡ ok (m ++ replicate (8 - length m) 0, length m))
      × (validate_integer_content m ≡ ok tt)
      × (decode_integer m ≡ ok v)
encode_integer_lem {E} v h =
    let be = to_be_bytes v in
    let m = strip be in
    let valid : validate_integer_content m ≡ ok tt =
      strip-valid be (λ e. omega (arith, ap (λ (xs : List ℕ). length xs) e)) in
    (
      m,
      encode_integer-strip v h,
      valid,
      (decode_integer_iff m v (strip-IsBytes be (to_be_bytes-IsBytes v))).1 (
        valid,
        strip-length be,
        strip-value be (to_be_bytes-IsBytes v) ∙ twos_value-to_be_bytes v h,
      ),
    )
