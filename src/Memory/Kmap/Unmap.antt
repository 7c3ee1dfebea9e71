-- ===== src/Memory/Kmap/Unmap.antt =====
-- What `kunmap` of src/kernel/memory.c leaves of a slot.
use light_os.Base.{
  ℕ, zero, suc, ◌≢◌, refl, sym, List, [], ◌∷◌, ==_ne, length-set, ◌+◌, ◌-◌, ◌*◌, ◌%◌, ◌^◌, ◌<◌, ◌≤◌,
  ◌≡◌, ap, ◌∙◌, Bool, true, false, none, some, length, get_or, set, ◌==◌, if◌then◌else◌, arith,
  get_or-set, lt→ltb, le→leb, ==_refl,
}
use mathlib.Core.Path.{subst}
use light_os.Memory.{page_idx, kernel_pages}
use light_os.Memory.Kmap.{
  PageEntry, Mapping, find_slot, kmap, map_slot, entry_init, Pool, start_vaddr, pool_len, vaddr_of,
  index_of, unused, not_present, slot, kunmap, target, IsValid,
}

-- What `kunmap` leaves of slot `i`, with its new count.
abbrev unmapped : Pool → (i cnt : ℕ) → Pool
unmapped k i cnt = record {
  pool = set k.pool i (record (slot k i) { present = false; cnt = cnt });
  pte =
      if cnt == 0
      then set k.pte i (record (get_or k.pte i not_present) { present = false })
      else k.pte;
}

kunmap_step :
    (k : Pool) (vaddr i cnt : ℕ)
    → start_vaddr ≤ vaddr
    → vaddr < start_vaddr + pool_len * 4096
    → vaddr % 4096 ≡ 0
    → index_of vaddr ≡ i
    → ((slot k i).cnt + 2 ^ 31 - 1) % 2 ^ 31 ≡ cnt
    → kunmap k vaddr ≡ some (unmapped k i cnt)
unfolding kunmap
kunmap_step k vaddr i cnt low high aligned e c =
    rw (
      le→leb start_vaddr vaddr low,
      lt→ltb vaddr (start_vaddr + pool_len * 4096) high,
      aligned,
      e,
      c,
    )

kunmap_lem :
    (k : Pool) (i cnt : ℕ)
    → i < pool_len
    → (slot k i).cnt ≡ suc cnt
    → suc cnt < 2 ^ 31
    → kunmap k (vaddr_of i) ≡ some (unmapped k i cnt)
kunmap_lem k i cnt lt e small =
    kunmap_step k (vaddr_of i) i cnt (omega arith) (omega arith) (omega arith) (omega arith)
      (omega arith)

-- The entry of slot `i` after its last `kunmap`.
last-entry :
    (k : Pool) (i : ℕ) (lt : i < length k.pte)
    → (get_or (unmapped k i 0).pte i not_present).present ≡ false
last-entry k i lt =
    let e = record (get_or k.pte i not_present) { present = false } in
    let h : get_or (set k.pte i e) i not_present ≡ e =
      get_or-set k.pte i i e not_present lt ∙ ground (arith, ==_refl i) in
    ap (λ e. e.present) h

if_absent : (b : Bool) (p : ℕ) → b ≡ false → (if b then some p else none) ≡ none
if_absent b p e = rw e

-- A page with users left stays where it is in the page table.
more-target : (k : Pool) (i n : ℕ) → target (unmapped k i (suc n)) i ≡ target k i
more-target k i n =
    let h : (unmapped k i (suc n)).pte ≡ k.pte = ground arith in
    ap (λ t. let e = get_or t i not_present in if e.present then some (e.index * 4096) else none) h

-- The first slot that is free, where those before it map other pages
find_slot_first :
    (ss : List Mapping) (paddr m n : ℕ)
    → ((j : ℕ)
        → j < n
        → ((get_or ss j unused).present ≡ true) × ((get_or ss j unused).paddr ≢ paddr))
    → n < length ss
    → (get_or ss n unused).present ≡ false
    → find_slot ss paddr m ≡ some (false, m + n)
unfolding find_slot
find_slot_first [] paddr m n f lt e = absurd (omega (arith, lt))
find_slot_first (s ∷ ss) paddr m zero f lt e = let z : m + 0 ≡ m = omega arith in rw (e, z) refl
find_slot_first (s ∷ ss) paddr m (suc n) f lt e =
    let z : m + suc n ≡ m + 1 + n = omega arith in
    rw ((f 0 (omega arith)).0, ==_ne s.paddr paddr (f 0 (omega arith)).1, z)
      (find_slot_first ss paddr (m + 1) n (λ j l. f (suc j) (omega (arith, l))) (omega (arith, lt))
        e)

module _ (k : Pool) (i : ℕ) (v : IsValid k) (lt : i < pool_len)
    (here : (slot k i).present ≡ true) where
  unmapped-present : (cnt : ℕ) → (slot (unmapped k i cnt) i).present ≡ false
  unmapped-present cnt =
      ap (λ s. s.present)
        (get_or-set k.pool i i (record (slot k i) { present = false; cnt = cnt }) unused
          (omega (arith, v.pool_length)))
      ∙ rw (==_refl i)

  -- The last `kunmap` of a page takes it out of the page table.
  kunmap_last :
      (slot k i).cnt ≡ 1
      → (k' : Pool) × (kunmap k (vaddr_of i) ≡ some k')
        × ((slot k' i).present ≡ false)
        × (target k' i ≡ none)
  kunmap_last one = (
    unmapped k i 0,
    kunmap_lem k i 0 lt one (omega arith),
    unmapped-present 0,
    if_absent _ _ (last-entry k i (omega (arith, v.pte_length))),
  )

  -- One `kunmap` marks a slot free however many users it has: with two or more, the page stays in the
  -- page table, while the slot may be given to another page.
  kunmap_shared :
      (n : ℕ)
      → (slot k i).cnt ≡ suc (suc n)
      → suc (suc n) < 2 ^ 31
      → (k' : Pool) × (kunmap k (vaddr_of i) ≡ some k')
        × ((slot k' i).present ≡ false)
        × (target k' i ≡ some (slot k i).paddr)
  kunmap_shared n two small = (
    unmapped k i (suc n),
    kunmap_lem k i (suc n) lt two small,
    unmapped-present (suc n),
    more-target k i n ∙ v.mapped i here,
  )

  -- One `kunmap` of a slot with two or more users marks it free while its page stays in the page table.
  -- If the slots before it are in use for other pages than a third one, above 16 MB, then the next
  -- `kmap` of that page gives out the same address again, which now leads to it: the users that are left
  -- find another page behind their address.
  pub kunmap-kmap :
      (n paddr : ℕ)
      → (slot k i).cnt ≡ suc (suc n)
      → suc (suc n) < 2 ^ 31
      → ((j : ℕ) → j < i → ((slot k j).present ≡ true) × ((slot k j).paddr ≢ paddr))
      → kernel_pages * 4096 ≤ paddr
      → paddr % 4096 ≡ 0
      → (k1 : Pool) × (k2 : Pool) × (kunmap k (vaddr_of i) ≡ some k1)
        × (target k1 i ≡ some (slot k i).paddr)
        × (kmap k1 paddr ≡ some (vaddr_of i, k2))
        × (target k2 i ≡ some paddr)
  unfolding kmap map_slot
  kunmap-kmap n paddr two small before high aligned =
      let k1 = unmapped k i (suc n) in
      let gone = record (slot k i) { present = false; cnt = suc n } in
      let fit : i < length k.pool = omega (arith, lt, v.pool_length) in
      let kept : (j : ℕ) → j < i → slot k1 j ≡ slot k j = λ j l.
        get_or-set k.pool i j gone unused fit
        ∙ rw (==_ne i j (λ z. absurd (omega (arith, z, l)))) refl in
      let found =
        find_slot_first k1.pool paddr 0 i
          (λ j l. (
            ap (λ (s : Mapping). s.present) (kept j l) ∙ (before j l).0,
            λ z. (before j l).1 (sym (ap (λ (s : Mapping). s.paddr) (kept j l)) ∙ z),
          ))
          (omega (arith, length-set k.pool i gone, fit)) (unmapped-present (suc n)) in
      let k2 = (map_slot k1 paddr (false, i)).1 in
      let entry = entry_init (page_idx paddr) in
      let h : k1.pte ≡ k.pte = ground arith in
      let new : get_or (set k1.pte i entry) i not_present ≡ entry =
        get_or-set k1.pte i i entry not_present
          (subst (λ t. i < length t) (sym h) (omega (arith, lt, v.pte_length)))
        ∙ rw (==_refl i) refl in
      let zi : 0 + i ≡ i = omega arith in
      let back : page_idx paddr * 4096 ≡ paddr = omega (arith, aligned) in
      (
        k1,
        k2,
        kunmap_lem k i (suc n) lt two small,
        more-target k i n ∙ v.mapped i here,
        rw (le→leb (kernel_pages * 4096) paddr high, aligned, found, zi) refl,
        ap (λ (e : PageEntry). if e.present then some (e.index * 4096) else none) new
            ∙ rw back refl,
      )
