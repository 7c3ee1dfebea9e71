-- ===== src/Linked/Chains.antt =====
-- Chains of nodes for the lists of src/lib/list.c, and what relinking does to them.
use light_os.Base.{ℕ, ◌≡◌, ◌≢◌, List, [], ◌∷◌, ◌++◌, arith}
use light_os.Linked.{Heap, update}

-- Every node of the list, reached from `p`, is linked to the one in front of it in both directions.
abbrev pub Chain : Heap → ℕ → List ℕ → Type 0
Chain h p [] = Unit
Chain h p (x ∷ xs) = (h.next p ≡ x) × (h.prev x ≡ p) × Chain h x xs

abbrev pub Apart : ℕ → List ℕ → Type 0
Apart a [] = Unit
Apart a (x ∷ xs) = (a ≢ x) × Apart a xs

abbrev pub Distinct : List ℕ → Type 0
Distinct [] = Unit
Distinct (x ∷ xs) = Apart x xs × Distinct xs

abbrev pub last : ℕ → List ℕ → ℕ
last p [] = p
last p (x ∷ xs) = last x xs

-- `node` between `before` and `after`
abbrev pub linked : Heap → (before node after : ℕ) → Heap
linked h before node after = record {
  prev = update (update h.prev node before) after node;
  next = update (update h.next node after) before node;
}

-- `node` taken out from between `before` and `after`
abbrev pub unlinked : Heap → (before node after : ℕ) → Heap
unlinked h before node after = record {
  prev = update (update h.prev after before) node 0;
  next = update (update h.next before after) node 0;
}

pub update_same : (f : ℕ → ℕ) (p v : ℕ) → update f p v p ≡ v
update_same f p v = ground arith

pub update_other : (f : ℕ → ℕ) (p v q : ℕ) → p ≢ q → update f p v q ≡ f q
update_other f p v q d = ground arith

Apart-last : (a p : ℕ) (xs ys : List ℕ) → Apart a (p ∷ xs ++ ys) → a ≢ last p xs
Apart-last a p [] ys (d, _) = d
Apart-last a p (x ∷ xs) ys (_, ds) = Apart-last a x xs ys ds

pub Apart-++ : (a : ℕ) (xs ys : List ℕ) → Apart a (xs ++ ys) → Apart a ys
Apart-++ a [] ys ds = ds
Apart-++ a (x ∷ xs) ys (_, ds) = Apart-++ a xs ys ds

pub Chain-prev :
    (h : Heap) (p a : ℕ) (xs ys : List ℕ) → Chain h p (xs ++ a ∷ ys) → h.prev a ≡ last p xs
Chain-prev h p a [] ys (_, e, _) = e
Chain-prev h p a (x ∷ xs) ys (_, _, c) = Chain-prev h x a xs ys c

pub Chain-next :
    (h : Heap) (p a b : ℕ) (xs ys : List ℕ) → Chain h p (xs ++ a ∷ b ∷ ys) → h.next a ≡ b
Chain-next h p a b [] ys (_, _, (e, _, _)) = e
Chain-next h p a b (x ∷ xs) ys (_, _, c) = Chain-next h x a b xs ys c

-- Relinking elsewhere keeps a chain.
frame_linked :
    (h : Heap) (b n a p : ℕ) (xs : List ℕ)
    → Apart b (p ∷ xs)
    → Apart n (p ∷ xs)
    → Apart a xs
    → Chain h p xs
    → Chain (linked h b n a) p xs
frame_linked h b n a p [] _ _ _ c = tt
frame_linked h b n a p (x ∷ xs) (bp, bs) (np, ns) (ax, ws) (e, e', c) =
    (ground arith, ground arith, frame_linked h b n a x xs bs ns ws c)

frame_unlinked :
    (h : Heap) (b n a p : ℕ) (xs : List ℕ)
    → Apart b (p ∷ xs)
    → Apart n (p ∷ xs)
    → Apart a xs
    → Chain h p xs
    → Chain (unlinked h b n a) p xs
frame_unlinked h b n a p [] _ _ _ c = tt
frame_unlinked h b n a p (x ∷ xs) (bp, bs) (np, ns) (ax, ws) (e, e', c) =
    (ground arith, ground arith, frame_unlinked h b n a x xs bs ns ws c)

pub Chain-linked :
    (h : Heap) (p n a : ℕ) (xs ys : List ℕ)
    → Chain h p (xs ++ a ∷ ys)
    → Distinct (p ∷ xs ++ a ∷ ys)
    → Apart n (p ∷ xs ++ a ∷ ys)
    → Chain (linked h (last p xs) n a) p (xs ++ n ∷ a ∷ ys)
Chain-linked h p n a [] ys (e, e', c) ((pa, ps), (ws, d)) (np, (na, ns)) = (
  ground arith,
  ground arith,
  (ground arith, ground arith, frame_linked h p n a a ys (pa, ps) (na, ns) ws c),
)
Chain-linked h p n a (x ∷ xs) ys (e, e', c) ((px, ps), (xx, d)) (np, (nx, ns)) =
    let pl : p ≢ last x xs = Apart-last p x xs (a ∷ ys) (px, ps) in
    let (xa, _) = Apart-++ x xs (a ∷ ys) xx in
    (ground arith, ground arith, Chain-linked h x n a xs ys c (xx, d) (nx, ns))

pub Chain-unlinked :
    (h : Heap) (p n a : ℕ) (xs ys : List ℕ)
    → Chain h p (xs ++ n ∷ a ∷ ys)
    → Distinct (p ∷ xs ++ n ∷ a ∷ ys)
    → Chain (unlinked h (last p xs) n a) p (xs ++ a ∷ ys)
Chain-unlinked h p n a [] ys (e, e', (ea, ea', c)) ((pn, (pa, ps)), ((na, ns), (ws, d))) =
    (ground arith, ground arith, frame_unlinked h p n a a ys (pa, ps) (na, ns) ws c)
Chain-unlinked h p n a (x ∷ xs) ys (e, e', c) ((px, ps), (xx, d)) =
    let pl : p ≢ last x xs = Apart-last p x xs (n ∷ a ∷ ys) (px, ps) in
    let (xn, (xa, _)) = Apart-++ x xs (n ∷ a ∷ ys) xx in
    let (pn, (pa, _)) = Apart-++ p xs (n ∷ a ∷ ys) ps in
    (ground arith, ground arith, Chain-unlinked h x n a xs ys c (xx, d))
