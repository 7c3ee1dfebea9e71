-- ===== src/Memory/Space.antt =====
-- src/kernel/memory.c: the pages of a process. `pde` tells which tables it has, by the index of their
-- pages, and `pte` which page each virtual page is mapped to; the bits of an entry but `present` and
-- the temporary mapping through which a table is written are left out. `none` is a panic.
pub mod Link
pub mod Unlink
use light_os.Memory.{Mem, assert_page, get_user_page, put_user_page, page_addr}
use light_os.Base.{
  ℕ, zero, suc, ◌+◌, ◌-◌, ◌*◌, ◌/◌, ◌%◌, ◌^◌, Bool, true, false, not, ◌||◌, Option, none, some, ltb,
  leb, ◌==◌, if◌then◌else◌, ◌>>=◌, ◌>>◌, assert,
}

pub record Space : Type 0 where
  pub mem : Mem
  pub pde : ℕ → Option ℕ
  pub pte : ℕ → Option ℕ

-- `IDX(vaddr)` and `PDE_IDX(vaddr)`
abbrev pub idx : ℕ → ℕ
idx vaddr = vaddr / 4096

abbrev pub pde_idx : ℕ → ℕ
pde_idx vaddr = vaddr / 4096 / 1024

abbrev pub update : (ℕ → Option ℕ) → ℕ → Option ℕ → ℕ → Option ℕ
update f p v q = if p == q then v else f q

-- A new table is cleared.
abbrev pub cleared : (ℕ → Option ℕ) → (table : ℕ) → ℕ → Option ℕ
cleared f table q = if q / 1024 == table then none else f q

abbrev pub with_table : Space → (table : ℕ) → ℕ × Mem → Space
with_table s table page = record {
  mem = page.1;
  pde = update s.pde table (some (idx page.0));
  pte = cleared s.pte table;
}

abbrev pub table_or_new : Space → (table : ℕ) → Option ℕ → Option Space
table_or_new s table none = get_user_page s.mem >>= λ page. some (with_table s table page)
table_or_new s table (some i) = some s

-- `get_pte`: the space in which the table of the address is there.
unfoldable pub get_pte : Space → (vaddr : ℕ) → Option Space
get_pte s vaddr = table_or_new s (pde_idx vaddr) (s.pde (pde_idx vaddr))

abbrev pub with_page : Space → (p : ℕ) → ℕ × Mem → Space
with_page s p page = record s { mem = page.1; pte = update s.pte p (some (idx page.0)) }

abbrev pub page_or_new : Space → (p : ℕ) → Option ℕ → Option Space
page_or_new s p none = get_user_page s.mem >>= λ page. some (with_page s p page)
page_or_new s p (some i) = some s

unfoldable pub link_user_page : Space → (vaddr : ℕ) → Option Space
link_user_page s vaddr = get_pte s vaddr >>= λ s'. page_or_new s' (idx vaddr) (s'.pte (idx vaddr))

abbrev pub without_page : Space → (p : ℕ) → Mem → Space
without_page s p mem = record s { mem = mem; pte = update s.pte p none }

abbrev pub drop_entry : Space → (p : ℕ) → Option ℕ → Option Space
drop_entry s p none = some s
drop_entry s p (some i) = put_user_page s.mem (page_addr i) >>= λ mem. some (without_page s p mem)

unfoldable pub unlink_user_page : Space → (vaddr : ℕ) → Option Space
unlink_user_page s vaddr = do
  assert_page vaddr
  s' ← get_pte s vaddr
  drop_entry s' (idx vaddr) (s'.pte (idx vaddr))

-- The loop of `sys_brk`, which gives `rounds` pages back from `page` on.
unfoldable pub unlink_pages : Space → (rounds page : ℕ) → Option Space
unlink_pages s zero page = some s
unlink_pages s (suc rounds) page =
    unlink_user_page s page >>= λ s'. unlink_pages s' rounds (page + 4096)

-- `USER_MMAP_ADDR`
abbrev pub user_mmap_addr : ℕ
user_mmap_addr = 268435456

abbrev pub eof : ℕ
eof = 4294967295

-- The result, the end of the data after the call, and the space. `user` says that the task is a user's,
-- `end` is the end of its program, and `old` the end of its data.
unfoldable pub sys_brk : Space → (user : Bool) → (end old brk : ℕ) → Option (ℕ × ℕ × Space)
sys_brk s user end old brk = do
  assert_page brk
  assert user
  let shrunk = unlink_pages s ((old - brk + 4095) / 4096) brk >>= λ s'. some (0, brk, s')
  let fits = not (ltb (s.mem.free_pages * 4096 % 2 ^ 32) (brk - old))
  let refused = some (eof, old, s)
  let within = if ltb brk old then shrunk else if fits then some (0, brk, s) else refused in
      if leb user_mmap_addr brk || ltb brk end then refused else within
