-- ===== src/Cache/Lists.antt =====
-- Lists of indexes: membership, removal of a node, and the last node.
use light_os.Base.{
  ℕ, ◌≡◌, refl, Bool, true, false, not, ◌&&◌, ◌||◌, Option, none, some, List, [], ◌∷◌, ◌==◌,
  if◌then◌else◌, ==_iff, ==_refl, arith,
}

unfoldable pub mem : ℕ → List ℕ → Bool
mem i [] = false
mem i (j ∷ xs) = (j == i) || mem i xs

unfoldable pub remove : ℕ → List ℕ → List ℕ
remove i [] = []
remove i (j ∷ xs) = let rest = remove i xs in if j == i then rest else j ∷ rest

-- `list_popback` takes the last node.
unfoldable pub last : List ℕ → Option ℕ
last [] = none
last (i ∷ []) = some i
last (i ∷ j ∷ xs) = last (j ∷ xs)

pub mem-cons : (j i : ℕ) (xs : List ℕ) → mem j (i ∷ xs) ≡ ((i == j) || mem j xs)
unfolding mem
mem-cons j i xs = refl

pub mem-remove : (j i : ℕ) (xs : List ℕ) → mem j (remove i xs) ≡ (not (i == j) && mem j xs)
unfolding mem remove
mem-remove j i [] = ground arith
mem-remove j i (k ∷ xs) = ground (arith, mem-remove j i xs, ==_iff k i, ==_iff k j, ==_iff i j)

pub mem-last : (xs : List ℕ) (i : ℕ) → last xs ≡ some i → mem i xs ≡ true
unfolding mem last
mem-last [] i e = absurd (cc)
mem-last (j ∷ []) i e = ground (arith, e, ==_refl i)
mem-last (j ∷ k ∷ xs) i e = ground (arith, mem-last (k ∷ xs) i e)

pub last-none : (xs : List ℕ) (j : ℕ) → last xs ≡ none → mem j xs ≡ false
unfolding mem last
last-none [] j e = refl
last-none (i ∷ []) j e = absurd (cc)
last-none (i ∷ k ∷ xs) j e = ground (arith, last-none (k ∷ xs) j e, last-some i k xs e)
  where
    last-some : (i k : ℕ) (xs : List ℕ) → last (k ∷ xs) ≡ none → ⊥
    last-some i k [] e = cc
    last-some i k (l ∷ xs) e = last-some k l xs e
