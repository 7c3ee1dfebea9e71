-- ===== src/Linked/Loops.antt =====
-- The lists of src/lib/list.c as plain lists of node addresses, and the loops along them.
use light_os.Base.{
  ℕ, zero, suc, ◌+◌, ◌%◌, ◌^◌, ◌<◌, ◌≡◌, refl, sym, ap, ◌∙◌, Bool, false, ◌||◌, some, List, [], ◌∷◌,
  ◌++◌, length, ltb, ◌==◌, if◌then◌else◌, ◌>>=◌, arith, ==_ne, ==_refl, Bool-cases, inl, inr,
}
use light_os.Linked.{Heap, LinkedList, next_of, search_from, search, size_from, size, anchor_from}
use light_os.Linked.Chains.{Chain, Apart, Distinct, Apart-++}
use light_os.Linked.Relink.{next_of-some}

-- The nodes between the end nodes of `list` are `xs`, linked in both directions and all different.
pub record Holds (h : Heap) (list : LinkedList) (xs : List ℕ) : Type 0 where
  pub chain : Chain h list.head (xs ++ list.tail ∷ [])
  pub distinct : Distinct (0 ∷ list.head ∷ xs ++ list.tail ∷ [])

unfoldable pub member : ℕ → List ℕ → Bool
member a [] = false
member a (x ∷ xs) = x == a || member a xs

search_from_lem :
    (fuel : ℕ) (h : Heap) (p : ℕ) (xs : List ℕ) (tail node : ℕ)
    → length xs < fuel
    → Chain h p (xs ++ tail ∷ [])
    → Distinct (0 ∷ p ∷ xs ++ tail ∷ [])
    → (next_of h p >>= λ q. search_from fuel h tail q node) ≡ some (member node xs)
unfolding search_from member
search_from_lem zero h p xs tail node l c d = absurd (omega arith)
search_from_lem (suc fuel) h p [] tail node l (e, _, _) ((zp, _), _) =
    rw (next_of-some h p tail zp e, ==_refl tail)
search_from_lem (suc fuel) h p (x ∷ xs) tail node l (e, _, c)
      ((zp, (zx, zs)), ((px, ps), (xx, d))) =
    let (xt, _) = Apart-++ x xs (tail ∷ []) xx in
    let rest = search_from_lem fuel h x xs tail node (omega arith) c ((zx, zs), (xx, d)) in
    rw (next_of-some h p x zp e, ==_ne x tail xt)
      (elim (Bool-cases (x == node)) [ inl m ↦ rw m | inr m ↦ rw (m, rest) ])

size_from_lem :
    (fuel : ℕ) (h : Heap) (p : ℕ) (xs : List ℕ) (tail n : ℕ)
    → length xs < fuel
    → Chain h p (xs ++ tail ∷ [])
    → Distinct (0 ∷ p ∷ xs ++ tail ∷ [])
    → n < 2 ^ 32
    → (next_of h p >>= λ q. size_from fuel h tail q n) ≡ some ((n + length xs) % 2 ^ 32)
unfolding size_from
size_from_lem zero h p xs tail n l c d w = absurd (omega arith)
size_from_lem (suc fuel) h p [] tail n l (e, _, _) ((zp, _), _) w =
    rw (next_of-some h p tail zp e, ==_refl tail) (ap some (omega arith))
size_from_lem (suc fuel) h p (x ∷ xs) tail n l (e, _, c) ((zp, (zx, zs)), ((px, ps), (xx, d))) w =
    let (xt, _) = Apart-++ x xs (tail ∷ []) xx in
    let rest =
      size_from_lem fuel h x xs tail ((n + 1) % 2 ^ 32) (omega arith) c ((zx, zs), (xx, d))
        (omega arith) in
    rw (next_of-some h p x zp e, ==_ne x tail xt, rest) (ap some (omega arith))

-- On a list of `xs` the loop of `list_search` ends after at most one round more than there are nodes,
-- and says whether `node` is one of them.
pub search-Holds :
    (fuel : ℕ) {h : Heap} {list : LinkedList} {xs : List ℕ} (node : ℕ)
    → Holds h list xs
    → length xs < fuel
    → search fuel h list node ≡ some (member node xs)
unfolding search
search-Holds fuel {h} {list} {xs} node v l =
    search_from_lem fuel h list.head xs list.tail node l v.chain v.distinct

-- `list_size` ends with the number of the nodes, as an unsigned word.
pub size-Holds :
    (fuel : ℕ) {h : Heap} {list : LinkedList} {xs : List ℕ}
    → Holds h list xs
    → length xs < fuel
    → size fuel h list ≡ some (length xs % 2 ^ 32)
unfolding size
size-Holds fuel {h} {list} {xs} v l =
    size_from_lem fuel h list.head xs list.tail 0 l v.chain v.distinct (omega arith)
    ∙ ap some (omega arith)

pub member-Apart : (n : ℕ) (xs ys : List ℕ) → Apart n (xs ++ ys) → member n xs ≡ false
unfolding member
member-Apart n [] ys a = refl
member-Apart n (x ∷ xs) ys (d, a) = rw (==_ne x n λ e. d (sym e)) (member-Apart n xs ys a)

-- The order of `list_insert_sort`: behind every node up to the first with a greater key.
unfoldable pub place : (key : ℕ → ℕ) → ℕ → List ℕ → List ℕ
place key n [] = n ∷ []
place key n (x ∷ xs) = if ltb (key n) (key x) then n ∷ x ∷ xs else x ∷ place key n xs

-- Where the loop stops, and the list that inserting there gives.
pub anchor_from_lem :
    (fuel : ℕ) (key : ℕ → ℕ) (h : Heap) (p : ℕ) (xs : List ℕ) (tail n : ℕ)
    → length xs < fuel
    → Chain h p (xs ++ tail ∷ [])
    → Distinct (0 ∷ p ∷ xs ++ tail ∷ [])
    → (a : ℕ) × (ys : List ℕ) × (zs : List ℕ) × (ws : List ℕ) × ((next_of h p >>= λ q.
          anchor_from fuel key h tail q (key n))
        ≡ some a)
      × (xs ≡ ys ++ zs)
      × (zs ++ tail ∷ [] ≡ a ∷ ws)
      × (place key n xs ≡ ys ++ n ∷ zs)
unfolding anchor_from place
anchor_from_lem zero key h p xs tail n l c d = absurd (omega arith)
anchor_from_lem (suc fuel) key h p [] tail n l (e, _, _) ((zp, _), _) =
    (tail, [], [], [], rw (next_of-some h p tail zp e, ==_refl tail), refl, refl, refl)
anchor_from_lem (suc fuel) key h p (x ∷ xs) tail n l (e, _, c)
      ((zp, (zx, zs)), ((px, ps), (xx, d))) =
    let (xt, _) = Apart-++ x xs (tail ∷ []) xx in
    let first = next_of-some h p x zp e in
    elim (Bool-cases (ltb (key n) (key x))) [
      | inl g ↦
          (x, [], x ∷ xs, xs ++ tail ∷ [], rw (first, ==_ne x tail xt, g), refl, refl, rw g refl)
      | inr g ↦
          let (a, ys, zs', ws, r, s, t, u) =
            anchor_from_lem fuel key h x xs tail n (omega arith) c ((zx, zs), (xx, d)) in
          (
            a,
            x ∷ ys,
            zs',
            ws,
            rw (first, ==_ne x tail xt, g, r),
            ap (λ vs. x ∷ vs) s,
            t,
            rw g (ap (λ vs. x ∷ vs) u),
          )
    ]
