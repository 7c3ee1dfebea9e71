-- ===== src/Memory/Space/Unlink.antt =====
-- Giving a page back that was linked to an address, in src/kernel/memory.c.
use mathlib.Core.Path.{subst}
use light_os.Memory.{Mem, refs, IsValid, page_addr, get_user_page, put_user_page}
use light_os.Memory.User.{
  Granted, out_of_memory, granted, get_user_page-Granted, put_user_page-IsValid,
}
use light_os.Memory.Space.{
  Space, idx, pde_idx, get_pte, with_page, link_user_page, without_page, unlink_user_page,
}
use light_os.Memory.Space.Link.{Good}
use light_os.Base.{
  ℕ, ◌*◌, ◌/◌, ◌%◌, ◌^◌, ◌<◌, ◌≤◌, ◌≡◌, refl, sym, ap, ◌∙◌, inl, inr, Option, none, some, some_inj,
  ◌==◌, if◌then◌else◌, ◌>>=◌, Bool-cases, ==_iff, ==_refl, ==_ne, arith,
}

-- The space `s'` gives the page at `vaddr` back, and is then as `s` was.
Returns : Space → Space → (vaddr : ℕ) → Type 0
Returns s s' vaddr =
    (s'' : Space) × (unlink_user_page s' vaddr ≡ some s'')
    × ((j : ℕ) → refs s''.mem j ≡ refs s.mem j)
    × ((q : ℕ) → s''.pte q ≡ s.pte q)

module _ (s : Space) (vaddr table : ℕ) (g : Good s) (aligned : vaddr % 4096 ≡ 0)
    (there : s.pde (pde_idx vaddr) ≡ some table) (free : s.pte (idx vaddr) ≡ none)
    (low : 1 ≤ refs s.mem 0) where
  unlink_back :
      (i : ℕ) (m' m'' : Mem)
      → i * 4096 / 4096 ≡ i
      → put_user_page m' (page_addr i) ≡ some m''
      → unlink_user_page (with_page s (idx vaddr) (i * 4096, m')) vaddr
        ≡ some (without_page (with_page s (idx vaddr) (i * 4096, m')) (idx vaddr) m'')
  unfolding unlink_user_page get_pte
  unlink_back i m' m'' index done = rw (aligned, there, ==_refl (idx vaddr), index, done) refl

  unlink_new :
      (i : ℕ) (m' : Mem)
      → i < s.mem.total_pages
      → 4096 ≤ i
      → refs s.mem i ≡ 0
      → IsValid m'
      → ((j : ℕ) → refs m' j ≡ (if i == j then 1 else refs s.mem j))
      → m'.total_pages ≡ s.mem.total_pages
      → Returns s (with_page s (idx vaddr) (i * 4096, m')) vaddr
  unfolding Returns
  unlink_new i m' lt above unused v after total =
      let p = idx vaddr in
      let one : refs m' i ≡ 1 = after i ∙ rw (==_refl i) refl in
      let first : refs m' 0 ≡ refs s.mem 0 =
        after 0 ∙ rw (==_ne i 0 (λ e. absurd (omega (arith, e, above)))) refl in
      let index : i * 4096 / 4096 ≡ i = omega arith in
      let addr : i * 4096 % 2 ^ 32 ≡ i * 4096 = omega (arith, lt, g.valid.counts.small) in
      let (m'', done, _, back) =
        put_user_page-IsValid m' i v above (omega (arith, lt, total)) (omega (arith, one))
          (omega (arith, low, first)) (inl one) in
      (
        without_page (with_page s p (i * 4096, m')) p m'',
        unlink_back i m' m'' index (ap (put_user_page m') addr ∙ done),
        λ j. back j ∙ ground (arith, after j, one, unused),
        λ q. elim (Bool-cases (p == q)) [
          | inl e ↦ rw e (sym free ∙ ap s.pte ((==_iff p q).0 e))
          | inr e ↦ rw e refl
        ],
      )

  link_run :
      link_user_page s vaddr ≡ (get_user_page s.mem >>= λ page. some (with_page s (idx vaddr) page))
  unfolding link_user_page get_pte
  link_run = rw (there, free) refl

  unlink-Granted :
      (s' : Space) (r : Option (ℕ × Mem))
      → Granted s.mem r
      → (r >>= λ page. some (with_page s (idx vaddr) page)) ≡ some s'
      → Returns s s' vaddr
  unlink-Granted s' _ (out_of_memory f) e = absurd (ground (arith, e))
  unlink-Granted s' _ (granted {i} {m'} above lt unused _ v after _ total) e =
      subst (λ t. Returns s t vaddr) (some_inj (with_page s (idx vaddr) (i * 4096, m')) s' e)
        (unlink_new i m' lt above unused v after total)

-- In a process that has the table of an aligned address and no page at it, and while the first page
-- stays in use, `unlink_user_page` of the address gives back what `link_user_page` of it has taken:
-- every page has the references of before, and every address is mapped as before.
pub unlink-link :
    (s s' : Space) (vaddr table : ℕ)
    → Good s
    → vaddr % 4096 ≡ 0
    → s.pde (pde_idx vaddr) ≡ some table
    → s.pte (idx vaddr) ≡ none
    → 1 ≤ refs s.mem 0
    → link_user_page s vaddr ≡ some s'
    → (s'' : Space) × (unlink_user_page s' vaddr ≡ some s'')
      × ((j : ℕ) → refs s''.mem j ≡ refs s.mem j)
      × ((q : ℕ) → s''.pte q ≡ s.pte q)
unfolding Returns link_user_page get_pte
unlink-link s s' vaddr table g aligned there free low e =
    unlink-Granted s vaddr table g aligned there free low s' (get_user_page s.mem)
      (get_user_page-Granted s.mem g.valid)
      (sym (link_run s vaddr table g aligned there free low) ∙ e)
