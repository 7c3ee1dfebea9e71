-- ===== src/Memory/Used.antt =====
-- How the number of pages in use follows a write to `mem_map`.
use light_os.Base.{
  ℕ, zero, suc, ◌+◌, ◌<◌, ◌≤◌, ◌≡◌, refl, List, [], ◌∷◌, length, get_or, set, arith,
}
use light_os.Memory.{used, weight}

pub used-set :
    (n : ℕ) (xs : List ℕ) (i v : ℕ)
    → i < n
    → i < length xs
    → used n (set xs i v) + weight (get_or xs i 0) ≡ used n xs + weight v
unfolding used
used-set zero xs i v p q = absurd (omega arith)
used-set (suc n) [] i v p q = absurd (omega arith)
used-set (suc n) (x ∷ xs) zero v p q = omega arith
used-set (suc n) (x ∷ xs) (suc i) v p q =
    omega (arith, used-set n xs i v (omega arith) (omega arith))

pub used-le : (n : ℕ) (xs : List ℕ) → used n xs ≤ n
unfolding used
used-le zero xs = omega arith
used-le (suc n) [] = omega arith
used-le (suc n) (x ∷ xs) = ground (arith, used-le n xs)

-- A page that is not in use leaves room.
pub used-lt : (n : ℕ) (xs : List ℕ) (i : ℕ) → i < n → get_or xs i 0 ≡ 0 → used n xs < n
unfolding used
used-lt zero xs i p e = absurd (omega arith)
used-lt (suc n) [] i p e = omega arith
used-lt (suc n) (x ∷ xs) zero p e = ground (arith, used-le n xs)
used-lt (suc n) (x ∷ xs) (suc i) p e = ground (arith, used-lt n xs i (omega arith) e)

pub used-pos : (n : ℕ) (xs : List ℕ) (i : ℕ) → i < n → 0 < get_or xs i 0 → 0 < used n xs
unfolding used
used-pos zero xs i p e = absurd (omega arith)
used-pos (suc n) [] i p e = absurd (omega arith)
used-pos (suc n) (x ∷ xs) zero p e = ground arith
used-pos (suc n) (x ∷ xs) (suc i) p e = ground (arith, used-pos n xs i (omega arith) e)

pub used-nil : (n : ℕ) → used n [] ≡ 0
unfolding used
used-nil zero = refl
used-nil (suc n) = refl

-- Maps that agree at every index have the same pages in use.
pub used-cong :
    (n : ℕ) (xs ys : List ℕ) → ((j : ℕ) → get_or xs j 0 ≡ get_or ys j 0) → used n xs ≡ used n ys
unfolding used
used-cong zero xs ys h = refl
used-cong (suc n) [] [] h = refl
used-cong (suc n) [] (y ∷ ys) h =
    ground (arith, h 0, used-cong n [] ys (λ j. h (suc j)), used-nil n)
used-cong (suc n) (x ∷ xs) [] h =
    ground (arith, h 0, used-cong n xs [] (λ j. h (suc j)), used-nil n)
used-cong (suc n) (x ∷ xs) (y ∷ ys) h = ground (arith, h 0, used-cong n xs ys (λ j. h (suc j)))
