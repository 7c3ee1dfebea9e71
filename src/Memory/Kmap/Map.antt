-- ===== src/Memory/Kmap/Map.antt =====
-- What the pool of `kmap` finds for a page of src/kernel/memory.c.
use light_os.Base.{
  ℕ, zero, suc, ◌+◌, ◌*◌, ◌%◌, ◌^◌, ◌<◌, ◌≤◌, ◌≡◌, ◌≢◌, refl, sym, ap, ◌∙◌, Bool, true, false,
  Option, none, some, List, [], ◌∷◌, length, get_or, set, ◌==◌, if◌then◌else◌, ◌>>=◌, arith,
  length-set, get_or-set, Bool-cases, inl, inr, le→leb, ==_ne, ==_iff, ==_refl,
}
use mathlib.Core.Path.{subst}
use light_os.Memory.{page_idx, kernel_pages}
use light_os.Memory.Kmap.{
  entry_init, Mapping, Pool, pool_len, vaddr_of, unused, not_present, slot, find_slot, map_slot,
  kmap, target, IsValid,
}

-- What the loop finds in `ss`, the slots from `i` on.
record Slot (ss : List Mapping) (paddr : ℕ) (hit : Bool) (n : ℕ) : Type 0 where
  inside : n < length ss
  state : (get_or ss n unused).present ≡ hit
  page : hit ≡ true → (get_or ss n unused).paddr ≡ paddr

abbrev Searched : List Mapping → (paddr i : ℕ) → Option (Bool × ℕ) → Type 0
Searched ss paddr i none =
    (n : ℕ)
    → n < length ss
    → ((get_or ss n unused).present ≡ true) × ((get_or ss n unused).paddr ≢ paddr)
Searched ss paddr i (some (hit, j)) = (n : ℕ) × (j ≡ i + n) × Slot ss paddr hit n

Searched-cons :
    (s : Mapping) (ss : List Mapping) (paddr i : ℕ) (r : Option (Bool × ℕ))
    → s.present ≡ true
    → (s.paddr == paddr) ≡ false
    → Searched ss paddr (i + 1) r
    → Searched (s ∷ ss) paddr i r
Searched-cons s ss paddr i none p ne h = λ n lt. later n lt
  where
    later :
        (n : ℕ)
        → n < suc (length ss)
        → ((get_or (s ∷ ss) n unused).present ≡ true) × ((get_or (s ∷ ss) n unused).paddr ≢ paddr)
    later zero lt = (p, λ e. ground arith)
    later (suc n) lt = h n (omega arith)
Searched-cons s ss paddr i (some (hit, j)) p ne (n, e, f) = (
  suc n,
  omega arith,
  record { inside = omega (arith, f.inside); state = f.state; page = f.page },
)

find_slot-Searched : (ss : List Mapping) (paddr i : ℕ) → Searched ss paddr i (find_slot ss paddr i)
unfolding find_slot
find_slot-Searched [] paddr i = λ n lt. absurd (omega arith)
find_slot-Searched (s ∷ ss) paddr i = elim (Bool-cases s.present) [
  | inr free ↦
      let e : find_slot (s ∷ ss) paddr i ≡ some (false, i) = ground arith in
      subst (Searched (s ∷ ss) paddr i) (sym e)
        (0, omega arith, record { inside = omega arith; state = free; page = λ h. cc })
  | inl p ↦ elim (Bool-cases (s.paddr == paddr)) [
    | inl same ↦
        let e : find_slot (s ∷ ss) paddr i ≡ some (true, i) = ground arith in
        subst (Searched (s ∷ ss) paddr i) (sym e) (
          0,
          omega arith,
          record { inside = omega arith; state = p; page = λ h. (==_iff _ _).0 same },
        )
    | inr ne ↦
        let e : find_slot (s ∷ ss) paddr i ≡ find_slot ss paddr (i + 1) = ground arith in
        subst (Searched (s ∷ ss) paddr i) (sym e) (
          Searched-cons s ss paddr i (find_slot ss paddr (i + 1)) p ne
            (find_slot-Searched ss paddr (i + 1)))
  ]
]

-- What a call of `kmap` does.
pub data Mapped (k : Pool) (paddr : ℕ) : Option (ℕ × Pool) → Type 0 where
  panic :
      ((i : ℕ) → i < pool_len → ((slot k i).present ≡ true) × ((slot k i).paddr ≢ paddr))
      → Mapped k paddr none
  mapped :
      {i : ℕ} {k' : Pool}
      → i < pool_len
      → IsValid k'
      → target k' i ≡ some paddr
      → ((j : ℕ) → (slot k j).present ≡ true → target k' j ≡ target k j)
      → Mapped k paddr (some (vaddr_of i, k'))

-- the page was mapped already: one user more
abbrev more : Pool → ℕ → Mapping
more k i = record (slot k i) { cnt = ((slot k i).cnt + 1) % 2 ^ 31 }

abbrev shared : Pool → ℕ → Pool
shared k i = record k { pool = set k.pool i (more k i) }

-- the free slot `i` maps the page
abbrev first : ℕ → Mapping
first paddr = record { present = true; cnt = 1; paddr = paddr }

abbrev fresh : Pool → (paddr i : ℕ) → Pool
fresh k paddr i = record {
  pool = set k.pool i (first paddr);
  pte = set k.pte i (entry_init (page_idx paddr));
}

module _ {k : Pool} {paddr : ℕ} (v : IsValid k) (aligned : paddr % 4096 ≡ 0) (i : ℕ) where
  module _ (f : Slot k.pool paddr true i) where
    shared-slot :
        (j : ℕ)
        → ((slot (shared k i) j).present ≡ (slot k j).present)
          × ((slot (shared k i) j).paddr ≡ (slot k j).paddr)
    shared-slot j =
        let e = get_or-set k.pool i j (more k i) unused f.inside in
        (ap (λ s. s.present) e ∙ ground arith, ap (λ s. s.paddr) e ∙ ground arith)

    shared-Mapped : Mapped k paddr (some (map_slot k paddr (true, i)))
    unfolding map_slot
    shared-Mapped =
        mapped {k' = shared k i} (omega (arith, f.inside, v.pool_length))
          (record {
            pool_length = omega (arith, length-set k.pool i (more k i), v.pool_length);
            pte_length = v.pte_length;
            mapped =
                λ j p. v.mapped j (sym (shared-slot j).0 ∙ p) ∙ ap some (sym (shared-slot j).1);
          })
          (v.mapped i f.state ∙ ap some (f.page refl)) (λ j p. refl)

  module _ (f : Slot k.pool paddr false i) where
    fresh-slot : (j : ℕ) → slot (fresh k paddr i) j ≡ (if i == j then first paddr else slot k j)
    fresh-slot j = get_or-set k.pool i j (first paddr) unused f.inside

    fresh-target :
        (j : ℕ) → target (fresh k paddr i) j ≡ (if i == j then some paddr else target k j)
    fresh-target j =
        let e =
          get_or-set k.pte i j (entry_init (page_idx paddr)) not_present
            (omega (arith, f.inside, v.pool_length, v.pte_length)) in
        ap (λ e. if e.present then some (e.index * 4096) else none) e
        ∙ (let back : page_idx paddr * 4096 ≡ paddr = omega arith in ground (arith, back))

    fresh_ne : (j : ℕ) → (slot k j).present ≡ true → i ≢ j
    fresh_ne j p e = ground (arith, ap (λ n. (slot k n).present) e, f.state)

    fresh_maps :
        (j : ℕ)
        → (slot (fresh k paddr i) j).present ≡ true
        → (if i == j then some paddr else target k j) ≡ some (slot (fresh k paddr i) j).paddr
    fresh_maps j p = elim (Bool-cases (i == j)) [
      | inl e ↦ rw e (ap some (sym (ap (λ s. s.paddr) (fresh-slot j) ∙ rw e)))
      | inr e ↦
          let here : (slot k j).present ≡ true =
            sym (ap (λ s. s.present) (fresh-slot j) ∙ rw e) ∙ p in
          rw e (v.mapped j here ∙ ap some (sym (ap (λ s. s.paddr) (fresh-slot j) ∙ rw e)))
    ]

    fresh-Mapped : Mapped k paddr (some (map_slot k paddr (false, i)))
    unfolding map_slot
    fresh-Mapped =
        mapped {k' = fresh k paddr i} (omega (arith, f.inside, v.pool_length))
          (record {
            pool_length = omega (arith, length-set k.pool i (first paddr), v.pool_length);
            pte_length =
                omega (arith, length-set k.pte i (entry_init (page_idx paddr)), v.pte_length);
            mapped = λ j p. fresh-target j ∙ fresh_maps j p;
          })
          (fresh-target i ∙ rw (==_refl i))
          (λ j p. fresh-target j ∙ rw (==_ne i j (λ e. fresh_ne j p e)))

kmap_found :
    (k : Pool) (paddr : ℕ) (r : Option (Bool × ℕ))
    → IsValid k
    → paddr % 4096 ≡ 0
    → Searched k.pool paddr 0 r
    → Mapped k paddr (r >>= λ s. some (map_slot k paddr s))
kmap_found k paddr none v a h = panic (λ i lt. h i (omega (arith, v.pool_length)))
kmap_found k paddr (some (true, j)) v a (n, e, f) =
    let e' : n ≡ j = omega arith in shared-Mapped v a j (subst (Slot k.pool paddr true) e' f)
kmap_found k paddr (some (false, j)) v a (n, e, f) =
    let e' : n ≡ j = omega arith in fresh-Mapped v a j (subst (Slot k.pool paddr false) e' f)

-- For a page above 16 MB `kmap` panics only if all slots map other pages. Otherwise the address that
-- it returns leads to the page, the pool stays consistent with the page table, and no slot in use
-- changes the page that it leads to.
pub kmap-Mapped :
    (k : Pool) (paddr : ℕ)
    → IsValid k
    → kernel_pages * 4096 ≤ paddr
    → paddr % 4096 ≡ 0
    → Mapped k paddr (kmap k paddr)
unfolding kmap
kmap-Mapped k paddr v high aligned =
    rw (le→leb (kernel_pages * 4096) paddr high, aligned)
      (kmap_found k paddr (find_slot k.pool paddr 0) v aligned (find_slot-Searched k.pool paddr 0))
