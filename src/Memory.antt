-- ===== src/Memory.antt =====
-- src/kernel/memory.c: the physical pages, counted by `mem_map`, and the kernel's part of the
-- virtual pages, in the bitmap `kernel_map`. The globals of the file are a record. `none` is a panic
-- or a failed assertion.
pub mod Used
pub mod Kernel
pub mod Free
pub mod User
pub mod Zones
pub mod Space
pub mod Init
pub mod Kmap
mod Tests
use light_os.Base.{
  ℕ, zero, suc, ◌+◌, ◌-◌, ◌*◌, ◌/◌, ◌%◌, ◌^◌, ◌<◌, ◌≤◌, ◌≡◌, Bool, true, false, not, ◌&&◌, Option,
  none, some, List, [], ◌∷◌, length, get_or, set, leb, ltb, ◌==◌, if◌then◌else◌, ◌>>=◌, ◌>>◌,
  assert,
}
use light_os.Bitmap
use light_os.Bitmap.{Bitmap, bit}

pub record Mem : Type 0 where
  pub mem_map : List ℕ
  pub total_pages : ℕ
  pub free_pages : ℕ
  pub kernel_map : Bitmap

-- `IDX(MEMORY_BASE)`, `IDX(KERNEL_MEM_SIZE)` and `IDX(KERNEL_PAGE_DIR_VADDR)`
abbrev pub base_page : ℕ
base_page = 256

abbrev pub kernel_pages : ℕ
kernel_pages = 4096

abbrev pub high_page : ℕ
high_page = 0xc0000

-- `PAGE`, `IDX` and `ASSERT_PAGE`
abbrev pub page_addr : ℕ → ℕ
page_addr idx = idx * 4096 % 2 ^ 32

abbrev pub page_idx : ℕ → ℕ
page_idx addr = addr / 4096

abbrev pub assert_page : ℕ → Option (Unit {0})
assert_page addr = assert (addr % 4096 == 0)

-- `x + 1` and `x - 1` on `u32`
abbrev pub inc : ℕ → ℕ
inc x = (x + 1) % 2 ^ 32

abbrev pub dec : ℕ → ℕ
dec x = (x + 2 ^ 32 - 1) % 2 ^ 32

-- the count of page `idx`
abbrev pub refs : Mem → ℕ → ℕ
refs m idx = get_or m.mem_map idx 0

-- the page of `mem_map` that stands behind bit `index` of `map`
abbrev pub physical : Bitmap → ℕ → ℕ
physical map index = (index + 2 ^ 32 - map.offset + base_page) % 2 ^ 32

-- The loop of `_alloc_kpage`. The assertion on `free_pages` is one on a `u32`, and holds always.
unfoldable pub take_pages : (rounds index : ℕ) → Mem → Option Mem
take_pages zero index m = some m
take_pages (suc rounds) index m = do
  assert (refs m index == 0)
  take_pages rounds (index + 1)
      (record m { mem_map = set m.mem_map index 1; free_pages = dec m.free_pages })

-- What `_alloc_kpage` does with the result of `bitmap_scan`.
unfoldable pub alloc_scanned : Mem → ℕ → Option ℕ × Bitmap → Option (ℕ × Mem)
alloc_scanned m count (none, map) = none
alloc_scanned m count (some index, map) = do
  m' ← take_pages count (physical map index) (record m { kernel_map = map })
  some (page_addr index, m')

-- `alloc_kpage`: the virtual address of the first page.
unfoldable pub alloc_kpage : Mem → ℕ → Option (ℕ × Mem)
alloc_kpage m count = do
  assert (ltb 0 count)
  r ← Bitmap.scan m.kernel_map count
  alloc_scanned m count r

-- The last reference to a page is gone: the page is free, and its virtual page too.
unfoldable pub drop_page : Mem → (index : ℕ) → Option Mem
drop_page m index = do
  used ← Bitmap.test m.kernel_map index
  assert used
  map ← Bitmap.set m.kernel_map index false
  some (record m { free_pages = inc m.free_pages; kernel_map = map })

-- One round of `_reset_kpage`.
unfoldable pub release_page : Mem → (index page : ℕ) → Option Mem
release_page m index page = do
  assert (not (refs m page == 0))
  let left = refs m page - 1
  let m' = record m { mem_map = set m.mem_map page left }
  if left == 0 then drop_page m' index else some m'

unfoldable pub reset_pages : (rounds index page : ℕ) → Mem → Option Mem
reset_pages zero index page m = some m
reset_pages (suc rounds) index page m = do
  m' ← release_page m index page
  reset_pages rounds (index + 1) (page + 1) m'

-- `free_kpage`
unfoldable pub free_kpage : Mem → (vaddr count : ℕ) → Option Mem
free_kpage m vaddr count = do
  assert_page vaddr
  assert (ltb 0 count)
  let index = page_idx vaddr
  reset_pages count index (physical m.kernel_map index) m

-- The loop of `get_user_page`, over the pages left; `none` is its panic.
unfoldable pub find_page : Mem → (rounds i : ℕ) → Option ℕ
find_page m zero i = none
find_page m (suc rounds) i =
    let rest = find_page m rounds (i + 1) in if refs m i == 0 then some i else rest

unfoldable pub get_user_page : Mem → Option (ℕ × Mem)
get_user_page m = do
  i ← find_page m (m.total_pages - kernel_pages) kernel_pages
  some (page_addr i, record m { mem_map = set m.mem_map i 1; free_pages = dec m.free_pages })

unfoldable pub put_user_page : Mem → ℕ → Option Mem
put_user_page m paddr = do
  assert_page paddr
  let idx = page_idx paddr
  assert (leb kernel_pages idx && ltb idx m.total_pages)
  assert (leb 1 (refs m idx))
  let left = refs m idx - 1
  let free = if left == 0 then inc m.free_pages else m.free_pages
  assert (ltb 0 free && ltb free m.total_pages)
  some (record m { mem_map = set m.mem_map idx left; free_pages = free })

-- whether a page is in use
abbrev pub weight : ℕ → ℕ
weight r = if r == 0 then 0 else 1

-- the pages in use among the first `n` of a map
unfoldable pub used : ℕ → List ℕ → ℕ
used zero xs = 0
used (suc n) [] = 0
used (suc n) (x ∷ xs) = weight x + used n xs

-- `free_pages` counts the pages with no reference.
pub record Counted (m : Mem) : Type 0 where
  pub small : m.total_pages < 2 ^ 20
  pub storage : m.total_pages ≤ length m.mem_map
  pub counted : used m.total_pages m.mem_map + m.free_pages ≡ m.total_pages

-- A bit of `kernel_map` is set exactly if the physical page behind it has a reference.
pub record IsValid (m : Mem) : Type 0 where
  pub counts : Counted m
  pub enough : kernel_pages ≤ m.total_pages
  pub map_valid : Bitmap.IsValid m.kernel_map
  pub map_offset : m.kernel_map.offset ≡ high_page + base_page
  pub map_length : base_page + m.kernel_map.length * 8 ≡ kernel_pages
  pub agree :
      (k : ℕ) → k < m.kernel_map.length * 8 → bit m.kernel_map k ≡ not (refs m (base_page + k) == 0)
