-- ===== src/Linked/Relink.antt =====
-- Relinking one node in the lists of src/lib/list.c, and the lists of nodes that this gives.
use light_os.Base.{ℕ, ◌≡◌, refl, sym, ap, ◌≢◌, some, List, [], ◌∷◌, ◌++◌, arith}
use light_os.Linked.{Heap, next_of, prev_of, insert_before, insert_after, remove}
use light_os.Linked.Chains.{
  Chain, Apart, Distinct, last, linked, unlinked, Chain-linked, Chain-unlinked, Chain-prev,
  Chain-next, Apart-++,
}

pub insert_before-linked :
    (h : Heap) (b n a : ℕ)
    → 0 ≢ a
    → 0 ≢ n
    → 0 ≢ b
    → n ≢ a
    → n ≢ b
    → h.prev a ≡ b
    → insert_before h a n ≡ some (linked h b n a)
unfolding insert_before
insert_before-linked h b n a za zn zb na nb e = ground arith

pub insert_after-linked :
    (h : Heap) (b n a : ℕ)
    → 0 ≢ a
    → 0 ≢ n
    → 0 ≢ b
    → n ≢ a
    → n ≢ b
    → a ≢ b
    → h.next b ≡ a
    → insert_after h b n ≡ some (linked h b n a)
unfolding insert_after
insert_after-linked h b n a za zn zb na nb ab e = ground arith

pub remove-unlinked :
    (h : Heap) (b n a : ℕ)
    → 0 ≢ a
    → 0 ≢ n
    → 0 ≢ b
    → n ≢ b
    → h.next n ≡ a
    → h.prev n ≡ b
    → remove h n ≡ some (unlinked h b n a)
unfolding remove
remove-unlinked h b n a za zn zb nb e e' = ground arith

pub next_of-some : (h : Heap) (p x : ℕ) → 0 ≢ p → h.next p ≡ x → next_of h p ≡ some x
next_of-some h p x z e = ground arith

pub prev_of-some : (h : Heap) (p x : ℕ) → 0 ≢ p → h.prev p ≡ x → prev_of h p ≡ some x
prev_of-some h p x z e = ground arith

pub last-snoc : (p n : ℕ) (xs : List ℕ) → last p (xs ++ n ∷ []) ≡ n
last-snoc p n [] = refl
last-snoc p n (x ∷ xs) = last-snoc x n xs

pub Apart-insert : (b n : ℕ) (xs ys : List ℕ) → b ≢ n → Apart b (xs ++ ys) → Apart b (xs ++ n ∷ ys)
Apart-insert b n [] ys d ds = (d, ds)
Apart-insert b n (x ∷ xs) ys d (e, ds) = (e, Apart-insert b n xs ys d ds)

pub Apart-drop : (b n : ℕ) (xs ys : List ℕ) → Apart b (xs ++ n ∷ ys) → Apart b (xs ++ ys)
Apart-drop b n [] ys (d, ds) = ds
Apart-drop b n (x ∷ xs) ys (e, ds) = (e, Apart-drop b n xs ys ds)

pub Distinct-insert :
    (n : ℕ) (xs ys : List ℕ) → Apart n (xs ++ ys) → Distinct (xs ++ ys) → Distinct (xs ++ n ∷ ys)
Distinct-insert n [] ys a d = (a, d)
Distinct-insert n (x ∷ xs) ys (e, a) (f, d) =
    (Apart-insert x n xs ys (λ g. e (sym g)) f, Distinct-insert n xs ys a d)

pub Distinct-drop : (n : ℕ) (xs ys : List ℕ) → Distinct (xs ++ n ∷ ys) → Distinct (xs ++ ys)
Distinct-drop n [] ys (a, d) = d
Distinct-drop n (x ∷ xs) ys (f, d) = (Apart-drop x n xs ys f, Distinct-drop n xs ys d)

-- The end of a part of the list is apart from what every node of the list is apart from.
pub Apart-last : (a p : ℕ) (xs ys : List ℕ) → Apart a (p ∷ xs ++ ys) → a ≢ last p xs
Apart-last a p [] ys (d, _) = d
Apart-last a p (x ∷ xs) ys (_, ds) = Apart-last a x xs ys ds

pub Distinct-last : (p n : ℕ) (xs ys : List ℕ) → Distinct (p ∷ xs ++ n ∷ ys) → n ≢ last p xs
Distinct-last p n [] ys ((d, _), _) = λ e. d (sym e)
Distinct-last p n (x ∷ xs) ys (_, d) = Distinct-last x n xs ys d

module _ (h : Heap) (p n a : ℕ) (xs ys : List ℕ) where
  pub insert_before-Chain :
      Chain h p (xs ++ a ∷ ys)
      → Distinct (0 ∷ p ∷ xs ++ a ∷ ys)
      → Apart n (0 ∷ p ∷ xs ++ a ∷ ys)
      → (insert_before h a n ≡ some (linked h (last p xs) n a))
        × Chain (linked h (last p xs) n a) p (xs ++ n ∷ a ∷ ys)
        × Distinct (0 ∷ p ∷ xs ++ n ∷ a ∷ ys)
  insert_before-Chain c (z, d) (nz, ns) =
      let (za, _) = Apart-++ 0 (p ∷ xs) (a ∷ ys) z in
      let (na, _) = Apart-++ n (p ∷ xs) (a ∷ ys) ns in
      (
        insert_before-linked h (last p xs) n a za (λ e. nz (sym e)) (Apart-last 0 p xs (a ∷ ys) z)
            na (Apart-last n p xs (a ∷ ys) ns) (Chain-prev h p a xs ys c),
        Chain-linked h p n a xs ys c d ns,
        Distinct-insert n (0 ∷ p ∷ xs) (a ∷ ys) (nz, ns) (z, d),
      )

  pub remove-Chain :
      Chain h p (xs ++ n ∷ a ∷ ys)
      → Distinct (0 ∷ p ∷ xs ++ n ∷ a ∷ ys)
      → (remove h n ≡ some (unlinked h (last p xs) n a))
        × Chain (unlinked h (last p xs) n a) p (xs ++ a ∷ ys)
        × Distinct (0 ∷ p ∷ xs ++ a ∷ ys)
  remove-Chain c (z, d) =
      let (zn, (za, _)) = Apart-++ 0 (p ∷ xs) (n ∷ a ∷ ys) z in
      (
        remove-unlinked h (last p xs) n a za zn (Apart-last 0 p xs (n ∷ a ∷ ys) z)
            (Distinct-last p n xs (a ∷ ys) d) (Chain-next h p n a xs ys c)
            (Chain-prev h p n xs (a ∷ ys) c),
        Chain-unlinked h p n a xs ys c d,
        Distinct-drop n (0 ∷ p ∷ xs) (a ∷ ys) (z, d),
      )

pub snoc-++ : (xs ys : List ℕ) (n : ℕ) → (xs ++ n ∷ []) ++ ys ≡ xs ++ n ∷ ys
snoc-++ [] ys n = refl
snoc-++ (x ∷ xs) ys n = ap (λ zs. x ∷ zs) (snoc-++ xs ys n)

pub ++-++ : (xs ys zs : List ℕ) → (xs ++ ys) ++ zs ≡ xs ++ (ys ++ zs)
++-++ [] ys zs = refl
++-++ (x ∷ xs) ys zs = ap (λ ws. x ∷ ws) (++-++ xs ys zs)

pub uncons : (ys : List ℕ) (t : ℕ) → (a : ℕ) × (zs : List ℕ) × (ys ++ t ∷ [] ≡ a ∷ zs)
uncons [] t = (t, [], refl)
uncons (y ∷ ys) t = (y, ys ++ t ∷ [], refl)

pub ++-[] : (xs : List ℕ) → xs ++ [] ≡ xs
++-[] [] = refl
++-[] (x ∷ xs) = ap (λ ys. x ∷ ys) (++-[] xs)
