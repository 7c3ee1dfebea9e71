-- ===== src/Memory/Kernel.antt =====
-- `alloc_kpage` and `free_kpage` keep the counts and the bitmap in step.
use light_os.Base.{
  ℕ, zero, suc, ◌+◌, ◌-◌, ◌*◌, ◌<◌, ◌≤◌, ◌≡◌, refl, ◌∙◌, Bool, true, ◌&&◌, Option, none, some,
  length, set, leb, ltb, if◌then◌else◌, ◌>>=◌, arith, length-set, get_or-set, lt→ltb,
}
use light_os.Bitmap
use light_os.Bitmap.{Bitmap, bit, Clear}
use light_os.Bitmap.Scan.{Scanned, full, taken, Marked, scan-Scanned}
use light_os.Memory.{
  Mem, base_page, high_page, page_addr, dec, refs, physical, take_pages, alloc_scanned, alloc_kpage,
  Counted, IsValid,
}
use light_os.Memory.Used.{used-set, used-lt}

-- The pages from `i` on up to `i + n`.
abbrev pub within : ℕ → ℕ → ℕ → Bool
within i n j = leb i j && ltb j (i + n)

-- one page more in use
abbrev pub take_one : Mem → ℕ → Mem
take_one m i = record m { mem_map = set m.mem_map i 1; free_pages = dec m.free_pages }

module _ (m : Mem) (i : ℕ) (c : Counted m) (lt : i < m.total_pages) (unused : refs m i ≡ 0) where
  pub take_one-free : dec m.free_pages + 1 ≡ m.free_pages
  take_one-free = omega (arith, used-lt m.total_pages m.mem_map i lt unused, c.counted, c.small)

  pub take_one-Counted : Counted (take_one m i)
  take_one-Counted = record {
    small = c.small;
    storage = omega (arith, length-set m.mem_map i 1, c.storage);
    counted = ground (arith, used-set m.total_pages m.mem_map i 1 lt, take_one-free);
  }

-- What the loop of `_alloc_kpage` leaves.
record Took (index n : ℕ) (m m' : Mem) : Type 0 where
  same_total : m'.total_pages ≡ m.total_pages
  same_map : m'.kernel_map ≡ m.kernel_map
  counts : Counted m'
  pages : (j : ℕ) → refs m' j ≡ (if within index n j then 1 else refs m j)
  fewer : m'.free_pages + n ≡ m.free_pages

take_pages-Took :
    (n index : ℕ) (m : Mem)
    → Counted m
    → index + n ≤ m.total_pages
    → ((j : ℕ) → index ≤ j → j < index + n → refs m j ≡ 0)
    → (m' : Mem) × (take_pages n index m ≡ some m') × Took index n m m'
unfolding take_pages
take_pages-Took zero index m c room unused = (
  m,
  refl,
  record {
    same_total = refl;
    same_map = refl;
    counts = c;
    pages = λ j. ground arith;
    fewer = omega arith;
  },
)
take_pages-Took (suc n) index m c room unused =
    let free : refs m index ≡ 0 = unused index (omega arith) (omega arith) in
    let lt : index < m.total_pages = omega arith in
    let stored : index < length m.mem_map = omega (arith, c.storage) in
    let (m', run, t) =
      take_pages-Took n (index + 1) (take_one m index) (take_one-Counted m index c lt free)
        (omega arith)
        (λ j p q. ground (arith, get_or-set m.mem_map index j 1 0 stored, unused j)) in
    (
      m',
      rw free run,
      record {
        same_total = t.same_total;
        same_map = t.same_map;
        counts = t.counts;
        pages = λ j. ground (arith, t.pages j, get_or-set m.mem_map index j 1 0 stored);
        fewer = omega (arith, t.fewer, take_one-free m index c lt free);
      },
    )

-- What a call of `alloc_kpage` does: a panic for want of a run of free pages, or the first run.
pub data Allocated (m : Mem) (count : ℕ) : Option (ℕ × Mem) → Type 0 where
  panic : ((s : ℕ) → ¬ Clear m.kernel_map s count) → Allocated m count none
  pages :
      {s : ℕ} {m' : Mem}
      → Clear m.kernel_map s count
      → ((t : ℕ) → t < s → ¬ Clear m.kernel_map t count)
      → IsValid m'
      → m'.total_pages ≡ m.total_pages
      → ((j : ℕ) → refs m' j ≡ (if within (base_page + s) count j then 1 else refs m j))
      → ((j : ℕ) → within (base_page + s) count j ≡ true → refs m j ≡ 0)
      → m'.free_pages + count ≡ m.free_pages
      → Allocated m count (some ((high_page + base_page + s) * 4096, m'))

alloc_scanned_step :
    (m m' : Mem) (count index start addr : ℕ) (map' : Bitmap)
    → physical map' index ≡ start
    → page_addr index ≡ addr
    → take_pages count start (record m { kernel_map = map' }) ≡ some m'
    → alloc_scanned m count (some index, map') ≡ some (addr, m')
unfolding alloc_scanned
alloc_scanned_step m m' count index start addr map' e f run = rw (e, f, run)

module _ {m : Mem} {count s : ℕ} {map' : Bitmap} (v : IsValid m) (pos : 0 < count)
    (c : Clear m.kernel_map s count) (k : Marked m.kernel_map s count map') where
  run_unused : (j : ℕ) → within (base_page + s) count j ≡ true → refs m j ≡ 0
  run_unused j e =
      let e' : base_page + (j - base_page) ≡ j = ground arith in
      let clear = c.clear (j - base_page) (ground arith) (ground arith) in
      let agree = v.agree (j - base_page) (ground (arith, c.inside)) in ground arith

  alloc_scanned_run :
      (m' : Mem) × (alloc_scanned m count (some (m.kernel_map.offset + s), map')
        ≡ some ((high_page + base_page + s) * 4096, m'))
      × Took (base_page + s) count (record m { kernel_map = map' }) m'
  alloc_scanned_run =
      let start : physical map' (m.kernel_map.offset + s) ≡ base_page + s =
        omega (arith, k.same_offset, v.map_offset, c.inside, v.map_length) in
      let addr : page_addr (m.kernel_map.offset + s) ≡ (high_page + base_page + s) * 4096 =
        omega (arith, v.map_offset, c.inside, v.map_length) in
      let (m', run, t) =
        take_pages-Took count (base_page + s) (record m { kernel_map = map' })
          (record {
            small = v.counts.small;
            storage = v.counts.storage;
            counted = v.counts.counted;
          })
          (omega (arith, c.inside, v.map_length, v.enough))
          (λ j p q. run_unused j (ground arith)) in
      (m', alloc_scanned_step m m' count (m.kernel_map.offset + s) _ _ map' start addr run, t)

  Took-IsValid :
      {m' : Mem} → Took (base_page + s) count (record m { kernel_map = map' }) m' → IsValid m'
  Took-IsValid t = record {
    counts = t.counts;
    enough = omega (arith, t.same_total, v.enough);
    map_valid = rw t.same_map k.valid;
    map_offset = rw t.same_map (k.same_offset ∙ v.map_offset);
    map_length = rw t.same_map (omega (arith, k.same_length, v.map_length));
    agree =
        rw t.same_map
          (λ i lt. ground (arith, k.bits i, v.agree i, t.pages (base_page + i), k.same_length));
  }

alloc_scanned-Allocated :
    (m : Mem) (count : ℕ) (r : Option (Option ℕ × Bitmap))
    → IsValid m
    → 0 < count
    → Scanned m.kernel_map count r
    → Allocated m count (r >>= alloc_scanned m count)
unfolding alloc_scanned
alloc_scanned-Allocated m count r v pos (full h) = panic h
alloc_scanned-Allocated m count r v pos (taken c first k) =
    let (m', run, t) = alloc_scanned_run v pos c k in
    rw run
      (pages c first (Took-IsValid v pos c k t) t.same_total t.pages (run_unused v pos c k) t.fewer)

-- `alloc_kpage` panics only if no `count` consecutive kernel pages are free. Otherwise it returns the
-- virtual address of the first such run; exactly the pages of the run, which had no reference, get
-- one, `free_pages` falls by `count`, and the counts and the bitmap stay in step.
pub alloc_kpage-Allocated :
    (m : Mem) (count : ℕ) → IsValid m → 0 < count → Allocated m count (alloc_kpage m count)
unfolding alloc_kpage
alloc_kpage-Allocated m count v pos = rw (lt→ltb 0 count pos) (
    alloc_scanned-Allocated m count (Bitmap.scan m.kernel_map count) v pos
      (scan-Scanned m.kernel_map count v.map_valid pos))
