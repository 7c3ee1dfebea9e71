-- ===== src/Stdlib/Laws.antt =====
-- What the conversions of stdlib.c give.
use light_os.Base.{
  ℕ, zero, suc, ◌+◌, ◌-◌, ◌*◌, ◌%◌, ◌^◌, ◌<◌, ◌≤◌, ◌≡◌, refl, ap, ◌∙◌, ◌⊎◌, true, List, [], ◌∷◌,
  ◌++◌, replicate, All, arith, ◌==◌, up_to, up_to-lt, ==_iff,
}
use light_os.Stdlib.{
  bcd_to_bin, bin_to_bcd, div_round_up, skip_spaces, read_digits, signed, read_sign, atoi,
}

bcd_table : up_to (λ x. bcd_to_bin (bin_to_bcd x) == x) 100 ≡ true
unfolding up_to bcd_to_bin bin_to_bcd
bcd_table = refl

-- A clock value below 100 survives the way to packed decimal and back.
bcd_to_bin-bin_to_bcd : (x : ℕ) → x < 100 → bcd_to_bin (bin_to_bcd x) ≡ x
bcd_to_bin-bin_to_bcd x h =
    (==_iff _ x).0 (up_to-lt (λ x. bcd_to_bin (bin_to_bcd x) == x) h bcd_table)

-- Where the sum fits in 32 bits, `div_round_up` is the least number of parts of `size` that hold
-- `num`: so many hold it, and one part less does not.
div_round_up_lem :
    (num size : ℕ)
    → 0 < size
    → num + size ≤ 2 ^ 32
    → (num ≤ div_round_up num size * size) × (div_round_up num size * size < num + size)
unfolding div_round_up
div_round_up_lem num size pos fits =
    let e : (num + size + 2 ^ 32 - 1) % 2 ^ 32 ≡ num + size - 1 = omega arith in
    rw e (grind arith, grind arith)

-- the number that decimal digits stand for
unfoldable pub value : ℕ → List ℕ → ℕ
value acc [] = acc
value acc (c ∷ s) = value (acc * 10 + (c - b'0')) s

abbrev pub IsDigit : ℕ → Type 0
IsDigit c = (b'0' ≤ c) × (c ≤ b'9')

value_mono : (a b : ℕ) (s : List ℕ) → a ≤ b → value a s ≤ value b s
unfolding value
value_mono a b [] h = h
value_mono a b (c ∷ s) h = value_mono (a * 10 + (c - b'0')) (b * 10 + (c - b'0')) s (omega arith)

value-ge : (a : ℕ) (s : List ℕ) → a ≤ value a s
unfolding value
value-ge a [] = omega arith
value-ge a (c ∷ s) = omega (arith, value-ge (a * 10 + (c - b'0')) s)

-- `tail` does not go on with a digit.
abbrev pub Stops : List ℕ → Type 0
Stops [] = Unit
Stops (c ∷ s) = (c < b'0') ⊎ (b'9' < c)

read_digits-value :
    (a : ℕ) (s rest : List ℕ)
    → All IsDigit s
    → Stops rest
    → value a s < 2 ^ 32
    → read_digits a (s ++ rest) ≡ value a s
unfolding read_digits value
read_digits-value a [] [] d p h = refl
read_digits-value a [] (c ∷ s) d p h = ground arith
read_digits-value a (c ∷ s) rest d p h =
    let e : (a * 10 + (c - b'0')) % 2 ^ 32 ≡ a * 10 + (c - b'0') =
      omega (arith, value-ge (a * 10 + (c - b'0')) s) in
    rw e (ground (arith, read_digits-value (a * 10 + (c - b'0')) s rest d.1 p h, d.0))

skip_spaces_all : (n : ℕ) (s : List ℕ) → skip_spaces (replicate n b' ' ++ s) ≡ skip_spaces s
unfolding skip_spaces
skip_spaces_all zero s = refl
skip_spaces_all (suc n) s = skip_spaces_all n s

read_sign-digit :
    (c : ℕ) (t : List ℕ) → IsDigit c → read_sign (skip_spaces (c ∷ t)) ≡ read_digits 0 (c ∷ t)
unfolding read_sign skip_spaces
read_sign-digit c t d = ground arith

read_sign-minus :
    (t : List ℕ) → read_sign (skip_spaces (b'-' ∷ t)) ≡ (2 ^ 32 - read_digits 0 t) % 2 ^ 32
unfolding read_sign skip_spaces signed
read_sign-minus t = refl

-- `atoi` of blanks, an optional minus, and at least one digit is the number written, or its
-- two's complement, as far as it fits in 32 bits; what follows the digits does not matter.
atoi-value :
    (n c : ℕ) (s rest : List ℕ)
    → IsDigit c
    → All IsDigit s
    → Stops rest
    → value 0 (c ∷ s) < 2 ^ 32
    → (atoi (replicate n b' ' ++ ((c ∷ s) ++ rest)) ≡ value 0 (c ∷ s))
      × (atoi (replicate n b' ' ++ (b'-' ∷ ((c ∷ s) ++ rest)))
          ≡ (2 ^ 32 - value 0 (c ∷ s)) % 2 ^ 32)
unfolding atoi
atoi-value n c s rest dc ds p h =
    let digits = read_digits-value 0 (c ∷ s) rest (dc, ds) p h in
    (
      ap read_sign (skip_spaces_all n ((c ∷ s) ++ rest))
          ∙ read_sign-digit c (s ++ rest) dc
          ∙ digits,
      ap read_sign (skip_spaces_all n (b'-' ∷ ((c ∷ s) ++ rest)))
          ∙ read_sign-minus ((c ∷ s) ++ rest)
          ∙ ap (λ v. (2 ^ 32 - v) % 2 ^ 32) digits,
    )
