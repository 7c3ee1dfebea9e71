-- ===== src/Lock/Pool.antt =====
-- A pool of threads: where each one stands, and how many stand at places of a kind.
use light_os.Base.{
  ℕ, zero, suc, ◌+◌, ◌≤◌, ◌≡◌, ◌≢◌, refl, List, [], ◌∷◌, some, length, get_elem?, set, arith,
}

module _ {A : Type 0} where
  -- the sum of the weights
  unfoldable pub total : (A → ℕ) → List A → ℕ
  total w [] = 0
  total w (x ∷ xs) = w x + total w xs

  -- Thread `i` goes from `p` to `q`.
  pub total-set :
      (w : A → ℕ) (xs : List A) (i : ℕ) (p q : A)
      → get_elem? xs i ≡ some p
      → total w (set xs i q) + w p ≡ total w xs + w q
  unfolding total
  total-set w [] i p q e = cc
  total-set w (x ∷ xs) zero p q e = ground arith
  total-set w (x ∷ xs) (suc i) p q e = omega (arith, total-set w xs i p q e)

  pub le-total :
      (w : A → ℕ) (xs : List A) (i : ℕ) (p : A) → get_elem? xs i ≡ some p → w p ≤ total w xs
  unfolding total
  le-total w [] i p e = cc
  le-total w (x ∷ xs) zero p e = ground arith
  le-total w (x ∷ xs) (suc i) p e = omega (arith, le-total w xs i p e)

  -- Two different threads count separately.
  pub le-total_two :
      (w : A → ℕ) (xs : List A) (i j : ℕ) (p q : A)
      → get_elem? xs i ≡ some p
      → get_elem? xs j ≡ some q
      → i ≢ j
      → w p + w q ≤ total w xs
  unfolding total
  le-total_two w [] i j p q e f ne = cc
  le-total_two w (x ∷ xs) zero zero p q e f ne = absurd (ne refl)
  le-total_two w (x ∷ xs) zero (suc j) p q e f ne = ground (arith, le-total w xs j q f)
  le-total_two w (x ∷ xs) (suc i) zero p q e f ne = ground (arith, le-total w xs i p e)
  le-total_two w (x ∷ xs) (suc i) (suc j) p q e f ne =
      omega (arith, le-total_two w xs i j p q e f (λ h. ne (omega arith)))

  pub total_mono : (w v : A → ℕ) (xs : List A) → ((x : A) → w x ≤ v x) → total w xs ≤ total v xs
  unfolding total
  total_mono w v [] h = omega arith
  total_mono w v (x ∷ xs) h = omega (arith, h x, total_mono w v xs h)

  -- A thread that weighs more in `v` leaves a gap between the sums.
  pub total_gap :
      (w v : A → ℕ) (xs : List A) (i : ℕ) (p : A)
      → ((x : A) → w x ≤ v x)
      → get_elem? xs i ≡ some p
      → total w xs + v p ≤ total v xs + w p
  unfolding total
  total_gap w v [] i p h e = cc
  total_gap w v (x ∷ xs) zero p h e = ground (arith, total_mono w v xs h)
  total_gap w v (x ∷ xs) (suc i) p h e = omega (arith, h x, total_gap w v xs i p h e)

  pub total-le-length : (w : A → ℕ) (xs : List A) → ((x : A) → w x ≤ 1) → total w xs ≤ length xs
  unfolding total
  total-le-length w [] h = omega arith
  total-le-length w (x ∷ xs) h = omega (arith, h x, total-le-length w xs h)
