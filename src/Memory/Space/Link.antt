-- ===== src/Memory/Space/Link.antt =====
-- What linking a page to an address does to the pages of a process, in src/kernel/memory.c.
use light_os.Memory.{kernel_pages, refs, Mem, IsValid, get_user_page}
use light_os.Memory.User.{Granted, out_of_memory, granted, get_user_page-Granted}
use light_os.Memory.Space.{
  Space, idx, pde_idx, update, cleared, with_table, table_or_new, get_pte, with_page, page_or_new,
  link_user_page,
}
use light_os.Base.{
  ℕ, ◌*◌, ◌/◌, ◌≡◌, ◌<◌, ◌≤◌, refl, sym, ap, ◌∙◌, ◌≢◌, inl, inr, Option, none, some, ◌==◌, ◌>>=◌,
  Bool-cases, ==_iff, ==_ne, arith,
}

-- The counts of the pages agree, and no entry is present without its table.
pub record Good (s : Space) : Type 0 where
  pub valid : IsValid s.mem
  pub empty : (q : ℕ) → s.pde (q / 1024) ≡ none → s.pte q ≡ none

-- No page is free: each behind those of the kernel is in use.
abbrev pub Full : Mem → Type 0
Full m = (j : ℕ) → kernel_pages ≤ j → j < m.total_pages → refs m j ≢ 0

-- The pages are as before, or one more is taken, for the table.
pub data Grown (m : Mem) : Mem → Type 0 where
  same_pages : Grown m m
  one_page : {i : ℕ} {m' : Mem} → get_user_page m ≡ some (i, m') → Grown m m'

-- The outcomes: a panic for want of a page, or a good space in which the entries are as before.
data Tabled (s : Space) (table : ℕ) : Option Space → Type 0 where
  no_room : s.pde table ≡ none → Full s.mem → Tabled s table none
  tabled :
      {s' : Space}
      → Good s'
      → ((q : ℕ) → s'.pte q ≡ s.pte q)
      → s'.pde table ≢ none
      → Grown s.mem s'.mem
      → Tabled s table (some s')

cleared-same :
    (s : Space) (table q : ℕ) → Good s → s.pde table ≡ none → cleared s.pte table q ≡ s.pte q
cleared-same s table q g e = elim (Bool-cases (q / 1024 == table)) [
  | inl f ↦
      let here : q / 1024 ≡ table = (==_iff (q / 1024) table).0 f in
      rw f (sym (g.empty q (ap s.pde here ∙ e)))
  | inr f ↦ rw f refl
]

some-none : (v : ℕ) → some v ≢ none
some-none v e = ground (arith, e)

update-none : (f : ℕ → Option ℕ) (p v q : ℕ) → update f p (some v) q ≡ none → (p ≢ q) × (f q ≡ none)
update-none f p v q h = elim (Bool-cases (p == q)) [
  | inl e ↦ absurd (ground (arith, h, e))
  | inr e ↦ (λ d. absurd (ground (arith, e, d)), ground (arith, h, e))
]

new_table-Tabled :
    (s : Space) (table : ℕ) (r : Option (ℕ × Mem))
    → Good s
    → s.pde table ≡ none
    → get_user_page s.mem ≡ r
    → Granted s.mem r
    → Tabled s table (r >>= λ page. some (with_table s table page))
new_table-Tabled s table _ g e taken (out_of_memory f) = no_room e f
new_table-Tabled s table _ g e taken (granted {i} _ _ _ _ v _ _ _) =
    let page = i * 4096 / 4096 in
    tabled
      record {
        valid = v;
        empty = λ q h.
            cleared-same s table q g e ∙ g.empty q (update-none s.pde table page (q / 1024) h).1;
      }
      (λ q. cleared-same s table q g e) (λ h. (update-none s.pde table page table h).0 refl)
      (one_page taken)

table_or_new-Tabled :
    (s : Space) (table : ℕ) (t : Option ℕ)
    → s.pde table ≡ t
    → Good s
    → Tabled s table (table_or_new s table t)
table_or_new-Tabled s table none e g =
    new_table-Tabled s table (get_user_page s.mem) g e refl (get_user_page-Granted s.mem g.valid)
table_or_new-Tabled s table (some i) e g =
    tabled g (λ q. refl) (λ h. some-none i (sym e ∙ h)) same_pages

-- A page that is linked: the address is mapped, to the same page as before if it was mapped, and no
-- other address is mapped differently; or a panic because the table of the address is missing and no page
-- is free, or because the address is not mapped and no page is free once it has its table.
pub data Linked (s : Space) (p : ℕ) : Option Space → Type 0 where
  no_table : s.pde (p / 1024) ≡ none → Full s.mem → Linked s p none
  no_page : {m : Mem} → Grown s.mem m → s.pte p ≡ none → Full m → Linked s p none
  linked :
      {s' : Space}
      → Good s'
      → s'.pte p ≢ none
      → ((i : ℕ) → s.pte p ≡ some i → s'.pte p ≡ some i)
      → ((q : ℕ) → p ≢ q → s'.pte q ≡ s.pte q)
      → Linked s p (some s')

-- The new entry, in a space that has its table.
new_page-Linked :
    (s s' : Space) (p : ℕ) (r : Option (ℕ × Mem))
    → Good s'
    → ((q : ℕ) → s'.pte q ≡ s.pte q)
    → s'.pde (p / 1024) ≢ none
    → s'.pte p ≡ none
    → Grown s.mem s'.mem
    → Granted s'.mem r
    → Linked s p (r >>= λ page. some (with_page s' p page))
new_page-Linked s s' p _ g same t e grown (out_of_memory f) = no_page grown (sym (same p) ∙ e) f
new_page-Linked s s' p _ g same t e grown (granted {i} {m'} _ _ _ _ v _ _ _) =
    let page = i * 4096 / 4096 in
    let good : Good (with_page s' p (i * 4096, m')) = record {
      valid = v;
      empty = λ q h. elim (Bool-cases (p == q)) [
        | inl f ↦ absurd (t (ap (λ k. s'.pde (k / 1024)) ((==_iff p q).0 f) ∙ h))
        | inr f ↦ rw f (g.empty q h)
      ];
    } in
    linked good (λ h. (update-none s'.pte p page p h).0 refl)
      (λ k h. absurd (some-none k (sym h ∙ (sym (same p) ∙ e)))) (λ q d. rw (==_ne p q d) (same q))

page_or_new-Linked :
    (s s' : Space) (p : ℕ) (t : Option ℕ)
    → s'.pte p ≡ t
    → Good s'
    → ((q : ℕ) → s'.pte q ≡ s.pte q)
    → s'.pde (p / 1024) ≢ none
    → Grown s.mem s'.mem
    → Linked s p (page_or_new s' p t)
page_or_new-Linked s s' p none e g same t grown =
    new_page-Linked s s' p (get_user_page s'.mem) g same t e grown
      (get_user_page-Granted s'.mem g.valid)
page_or_new-Linked s s' p (some i) e g same t grown =
    linked g (λ h. some-none i (sym e ∙ h)) (λ k h. same p ∙ h) (λ q d. same q)

after_table :
    (s : Space) (vaddr : ℕ) (r : Option Space)
    → Tabled s (pde_idx vaddr) r
    → Linked s (idx vaddr) (r >>= λ s'. page_or_new s' (idx vaddr) (s'.pte (idx vaddr)))
after_table s vaddr _ (no_room e f) = no_table e f
after_table s vaddr _ (tabled {s'} g same t grown) =
    page_or_new-Linked s s' (idx vaddr) (s'.pte (idx vaddr)) refl g same t grown

-- `link_user_page` of any address, in a process whose entries have their tables, maps the address,
-- unless it needs a page, for the table or for the address, and none is free: then it panics. The
-- temporary mapping of the table is left out, with its panics. If it maps the address, it maps it to no other page if it was mapped, maps no other address
-- differently, though it may make a table, and keeps the counts of the pages in step.
pub link_user_page-Linked :
    (s : Space) (vaddr : ℕ) → Good s → Linked s (idx vaddr) (link_user_page s vaddr)
unfolding link_user_page get_pte
link_user_page-Linked s vaddr g =
    after_table s vaddr (table_or_new s (pde_idx vaddr) (s.pde (pde_idx vaddr)))
      (table_or_new-Tabled s (pde_idx vaddr) (s.pde (pde_idx vaddr)) refl g)
