-- ===== src/Memory/Kmap.antt =====
-- `kmap` and `kunmap`: a pool of kernel addresses through which pages above 16 MB are reached.
pub mod Map
pub mod Unmap
mod Tests
use light_os.Base.{
  ℕ, zero, suc, ◌+◌, ◌-◌, ◌*◌, ◌/◌, ◌%◌, ◌^◌, ◌<◌, ◌≤◌, ◌≡◌, ◌≢◌, refl, sym, ap, ◌∙◌, Bool, true,
  false, not, ◌&&◌, Option, none, some, List, [], ◌∷◌, length, get_elem?, get_or, set, leb, ltb,
  ◌==◌, if◌then◌else◌, ◌>>=◌, ◌>>◌, assert, arith, length-set, get_or-set, Bool-cases, inl, inr,
  lt→ltb, le→leb, ==_ne, ==_iff, ==_refl, ◌⊎◌,
}
use mathlib.Core.Path.{subst}
use light_os.Memory.{assert_page, page_idx, kernel_pages}

-- `page_entry_t`, without the flags that the kernel never reads or writes
pub record PageEntry : Type 0 where
  pub present : Bool
  pub write : Bool
  pub user : Bool
  pub shared : Bool
  pub privat : Bool
  pub readonly : Bool
  pub index : ℕ

abbrev pub entry_init : ℕ → PageEntry
entry_init index = record {
  present = true;
  write = true;
  user = false;
  shared = false;
  privat = false;
  readonly = false;
  index = index;
}

-- `kmap_mapping`
pub record Mapping : Type 0 where
  pub present : Bool
  pub cnt : ℕ
  pub paddr : ℕ

-- `kmap_pool` and `kmap_pte`, of the same length
pub record Pool : Type 0 where
  pub pool : List Mapping
  pub pte : List PageEntry

-- 3 GB + 16 MB
abbrev pub start_vaddr : ℕ
start_vaddr = 0xc100_0000

abbrev pub pool_len : ℕ
pool_len = 1024

-- `KMAP_GET_VADDR` and `KMAP_GET_INDEX`
abbrev pub vaddr_of : ℕ → ℕ
vaddr_of i = start_vaddr + i * 4096

abbrev pub index_of : ℕ → ℕ
index_of vaddr = (vaddr - start_vaddr) / 4096 % 1024

abbrev pub unused : Mapping
unused = record { present = false; cnt = 0; paddr = 0 }

abbrev pub not_present : PageEntry
not_present = record {
  present = false;
  write = false;
  user = false;
  shared = false;
  privat = false;
  readonly = false;
  index = 0;
}

-- slot `i` of the pool
abbrev pub slot : Pool → ℕ → Mapping
slot k i = get_or k.pool i unused

-- The loop of `kmap`: the first slot that is free or maps the page, with whether it maps it.
unfoldable pub find_slot : List Mapping → (paddr i : ℕ) → Option (Bool × ℕ)
find_slot [] paddr i = none
find_slot (s ∷ ss) paddr i =
    if not s.present
    then some (false, i)
    else if s.paddr == paddr
    then some (true, i)
    else find_slot ss paddr (i + 1)

unfoldable pub map_slot : Pool → ℕ → Bool × ℕ → ℕ × Pool
map_slot k paddr (true, i) =
    let s = get_or k.pool i unused in
    (vaddr_of i, record k { pool = set k.pool i (record s { cnt = (s.cnt + 1) % 2 ^ 31 }) })
map_slot k paddr (false, i) = (
  vaddr_of i,
  record {
    pool = set k.pool i (record { present = true; cnt = 1; paddr = paddr });
    pte = set k.pte i (entry_init (page_idx paddr));
  },
)

unfoldable pub kmap : Pool → ℕ → Option (ℕ × Pool)
kmap k paddr = do
  assert (leb (kernel_pages * 4096) paddr)
  assert_page paddr
  slot ← find_slot k.pool paddr 0
  some (map_slot k paddr slot)

unfoldable pub kunmap : Pool → ℕ → Option Pool
kunmap k vaddr = do
  assert (leb start_vaddr vaddr && ltb vaddr (start_vaddr + pool_len * 4096))
  assert_page vaddr
  let i = index_of vaddr
  let s = get_or k.pool i unused
  let cnt = (s.cnt + 2 ^ 31 - 1) % 2 ^ 31
  let e = get_or k.pte i not_present
  some (record {
    pool = set k.pool i (record s { present = false; cnt = cnt });
    pte = if cnt == 0 then set k.pte i (record e { present = false }) else k.pte;
  })

-- the physical page that the processor finds behind slot `i`
abbrev pub target : Pool → ℕ → Option ℕ
target k i = let e = get_or k.pte i not_present in if e.present then some (e.index * 4096) else none

-- Each slot in use has its page in the page table.
pub record IsValid (k : Pool) : Type 0 where
  pub pool_length : length k.pool ≡ pool_len
  pub pte_length : length k.pte ≡ pool_len
  pub mapped : (i : ℕ) → (slot k i).present ≡ true → target k i ≡ some (slot k i).paddr
