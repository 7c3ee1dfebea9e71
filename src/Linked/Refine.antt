-- ===== src/Linked/Refine.antt =====
-- The operations of src/lib/list.c on the list of node addresses that a list holds.
use light_os.Base.{
  ℕ, ◌<◌, ◌≡◌, refl, sym, ap, ◌∙◌, ◌≢◌, false, some, List, [], ◌∷◌, ◌++◌, length, ◌>>=◌, arith,
  ==_ne,
}
use mathlib.Core.Path.{subst}
use light_os.Linked.{
  Heap, LinkedList, update, init, insert_before, remove, search, push, pushback, empty, pop,
  popback, anchor_from, insert_sort,
}
use light_os.Linked.Chains.{
  Chain, Apart, Distinct, last, linked, unlinked, Chain-linked, Chain-prev, Apart-++, update_same,
}
use light_os.Linked.Relink.{
  insert_after-linked, next_of-some, prev_of-some, last-snoc, Distinct-insert, insert_before-Chain,
  remove-Chain, ++-++, uncons, ++-[],
}
use light_os.Linked.Loops.{Holds, place, search-Holds, anchor_from_lem, member-Apart}

-- `list_init` makes an empty list, whatever the memory held.
pub init-Holds :
    (h : Heap) (list : LinkedList)
    → Distinct (0 ∷ list.head ∷ list.tail ∷ [])
    → (h' : Heap) × (init h list ≡ some h') × Holds h' list []
unfolding init
init-Holds h list d = (
  record {
    prev = update (update h.prev list.head 0) list.tail list.head;
    next = update (update h.next list.tail 0) list.head list.tail;
  },
  ground arith,
  record { chain = (ground arith, ground arith, tt); distinct = d },
)

-- A node of the list, or its end, in front of which another is inserted or removed.
module _ {h : Heap} {list : LinkedList} where
  insert_before-Holds :
      (n a : ℕ) (xs ys zs : List ℕ)
      → ys ++ list.tail ∷ [] ≡ a ∷ zs
      → Holds h list (xs ++ ys)
      → Apart n (0 ∷ list.head ∷ (xs ++ ys) ++ list.tail ∷ [])
      → (h' : Heap) × (insert_before h a n ≡ some h') × Holds h' list (xs ++ n ∷ ys)
  insert_before-Holds n a xs ys zs e v ns =
      let split : (xs ++ ys) ++ list.tail ∷ [] ≡ xs ++ a ∷ zs =
        ++-++ xs ys (list.tail ∷ []) ∙ ap (λ ws. xs ++ ws) e in
      let joined : xs ++ n ∷ a ∷ zs ≡ (xs ++ n ∷ ys) ++ list.tail ∷ [] =
        ap (λ ws. xs ++ n ∷ ws) (sym e) ∙ sym (++-++ xs (n ∷ ys) (list.tail ∷ [])) in
      let (done, c, d) =
        insert_before-Chain h list.head n a xs zs (subst (Chain h list.head) split v.chain)
          (subst (λ ws. Distinct (0 ∷ list.head ∷ ws)) split v.distinct)
          (subst (λ ws. Apart n (0 ∷ list.head ∷ ws)) split ns) in
      (
        _,
        done,
        record {
          chain = subst (Chain _ list.head) joined c;
          distinct = subst (λ ws. Distinct (0 ∷ list.head ∷ ws)) joined d;
        },
      )

  -- `list_remove` of a node of a list, wherever it stands, succeeds; the list then holds the other
  -- nodes in their order, and both pointers of the removed node are `NULL`.
  pub remove-Holds :
      (n : ℕ) (xs ys : List ℕ)
      → Holds h list (xs ++ n ∷ ys)
      → (h' : Heap) × (remove h n ≡ some h')
        × Holds h' list (xs ++ ys)
        × (h'.next n ≡ 0)
        × (h'.prev n ≡ 0)
  remove-Holds n xs ys v =
      let (a, zs, e) = uncons ys list.tail in
      let split : (xs ++ n ∷ ys) ++ list.tail ∷ [] ≡ xs ++ n ∷ a ∷ zs =
        ++-++ xs (n ∷ ys) (list.tail ∷ []) ∙ ap (λ ws. xs ++ n ∷ ws) e in
      let joined : xs ++ a ∷ zs ≡ (xs ++ ys) ++ list.tail ∷ [] =
        ap (λ ws. xs ++ ws) (sym e) ∙ sym (++-++ xs ys (list.tail ∷ [])) in
      let (done, c, d) =
        remove-Chain h list.head n a xs zs (subst (Chain h list.head) split v.chain)
          (subst (λ ws. Distinct (0 ∷ list.head ∷ ws)) split v.distinct) in
      (
        unlinked h (last list.head xs) n a,
        done,
        record {
          chain = subst (Chain _ list.head) joined c;
          distinct = subst (λ ws. Distinct (0 ∷ list.head ∷ ws)) joined d;
        },
        update_same (update h.next (last list.head xs) a) n 0,
        update_same (update h.prev a (last list.head xs)) n 0,
      )

-- `list_push` of a node that is not in the list and none of its ends, with fuel for more rounds than
-- there are nodes, succeeds; the list then holds the node in front of the others.
push-Holds :
    (fuel : ℕ) {h : Heap} {list : LinkedList} {xs : List ℕ} (n : ℕ)
    → Holds h list xs
    → Apart n (0 ∷ list.head ∷ xs ++ list.tail ∷ [])
    → length xs < fuel
    → (h' : Heap) × (push fuel h list n ≡ some h') × Holds h' list (n ∷ xs)
unfolding push
push-Holds fuel {h} {list} {xs} n v (nz, (nh, ns)) l =
    let found : search fuel h list n ≡ some false =
      search-Holds fuel n v l ∙ ap some (member-Apart n xs _ ns) in
    let (a, zs, e) = uncons xs list.tail in
    let c : Chain h list.head (a ∷ zs) = subst (Chain h list.head) e v.chain in
    let d : Distinct (0 ∷ list.head ∷ a ∷ zs) =
      subst (λ ws. Distinct (0 ∷ list.head ∷ ws)) e v.distinct in
    let as' : Apart n (a ∷ zs) = subst (Apart n) e ns in
    let done =
      insert_after-linked h list.head n a d.0.1.0 (λ q. nz (sym q)) d.0.0 as'.0 nh
        (λ q. d.1.0.0 (sym q)) c.0 in
    let c' = Chain-linked h list.head n a [] zs c d.1 (nh, as') in
    (
      linked h list.head n a,
      rw found done,
      record {
        chain = subst (λ ws. Chain (linked h list.head n a) list.head (n ∷ ws)) (sym e) c';
        distinct =
            subst (λ ws. Distinct (0 ∷ list.head ∷ n ∷ ws)) (sym e)
              (Distinct-insert n (0 ∷ list.head ∷ []) (a ∷ zs) (nz, (nh, as')) d);
      },
    )

-- The same for `list_pushback`, at the end.
pub pushback-Holds :
    (fuel : ℕ) {h : Heap} {list : LinkedList} {xs : List ℕ} (n : ℕ)
    → Holds h list xs
    → Apart n (0 ∷ list.head ∷ xs ++ list.tail ∷ [])
    → length xs < fuel
    → (h' : Heap) × (pushback fuel h list n ≡ some h') × Holds h' list (xs ++ n ∷ [])
unfolding pushback
pushback-Holds fuel {h} {list} {xs} n v (nz, (nh, ns)) l =
    let found : search fuel h list n ≡ some false =
      search-Holds fuel n v l ∙ ap some (member-Apart n xs _ ns) in
    let e : xs ++ [] ≡ xs = ++-[] xs in
    let (h', done, v') =
      insert_before-Holds n list.tail xs [] [] refl (subst (Holds h list) (sym e) v)
        (subst (λ ws. Apart n (0 ∷ list.head ∷ ws ++ list.tail ∷ [])) (sym e) (nz, (nh, ns))) in
    (h', rw found done, v')

-- `list_pop` takes the first node out.
pub pop-Holds :
    {h : Heap} {list : LinkedList} (n : ℕ) (xs : List ℕ)
    → Holds h list (n ∷ xs)
    → (h' : Heap) × (pop h list ≡ some (n, h')) × Holds h' list xs
unfolding pop empty
pop-Holds {h} {list} n xs v =
    let (h', done, v', _, _) = remove-Holds n [] xs v in
    let first = next_of-some h list.head n v.distinct.0.0 v.chain.0 in
    let (nt, _) = Apart-++ n xs (list.tail ∷ []) v.distinct.1.1.0 in
    (h', rw (first, ==_ne n list.tail nt, done), v')

-- `list_popback` takes the last node out.
pub popback-Holds :
    {h : Heap} {list : LinkedList} (n : ℕ) (xs : List ℕ)
    → Holds h list (xs ++ n ∷ [])
    → (h' : Heap) × (popback h list ≡ some (n, h')) × Holds h' list xs
unfolding popback empty
popback-Holds {h} {list} n xs v =
    let (h', done, v', _, _) = remove-Holds n xs [] v in
    let (a, zs, e) = uncons xs n in
    let w = subst (Holds h list) e v in
    let first = next_of-some h list.head a w.distinct.0.0 w.chain.0 in
    let (ne, _) = Apart-++ a zs (list.tail ∷ []) w.distinct.1.1.0 in
    let (zt, _) = Apart-++ 0 (list.head ∷ (xs ++ n ∷ [])) (list.tail ∷ []) v.distinct.0 in
    let end =
      Chain-prev h list.head list.tail (xs ++ n ∷ []) [] v.chain ∙ last-snoc list.head n xs in
    (
      h',
      rw (first, ==_ne a list.tail ne, prev_of-some h list.tail n zt end, done),
      subst (Holds h' list) (++-[] xs) v',
    )

-- `list_insert_sort` of a node that is in no list, as its `NULL` pointers say, succeeds with fuel for
-- more rounds than there are nodes; the list then holds the node in front of the first of a greater
-- key, and the others in their order.
pub insert_sort-Holds :
    (fuel : ℕ) (key : ℕ → ℕ) {h : Heap} {list : LinkedList} {xs : List ℕ} (n : ℕ)
    → Holds h list xs
    → Apart n (0 ∷ list.head ∷ xs ++ list.tail ∷ [])
    → h.next n ≡ 0
    → h.prev n ≡ 0
    → length xs < fuel
    → (h' : Heap) × (insert_sort fuel key h list n ≡ some h') × Holds h' list (place key n xs)
unfolding insert_sort
insert_sort-Holds fuel key {h} {list} {xs} n v ns e e' l =
    let (a, ys, zs, ws, r, s, t, u) =
      anchor_from_lem fuel key h list.head xs list.tail n l v.chain v.distinct in
    let (h', done, v') =
      insert_before-Holds n a ys zs ws t (subst (Holds h list) s v)
        (subst (λ vs. Apart n (0 ∷ list.head ∷ vs ++ list.tail ∷ [])) s ns) in
    let z : 0 ≢ n = λ q. ns.0 (sym q) in
    let first = next_of-some h list.head (h.next list.head) v.distinct.0.0 refl in
    let found =
      subst (λ o. (o >>= λ q. anchor_from fuel key h list.tail q (key n)) ≡ some a) first r in
    (
      h',
      rw (first, found, next_of-some h n 0 z e, prev_of-some h n 0 z e', done),
      subst (Holds h' list) (sym u) v',
    )
