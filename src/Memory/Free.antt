-- ===== src/Memory/Free.antt =====
-- `free_kpage` takes one reference from each page, and frees the pages that had just one.
use light_os.Base.{
  ℕ, zero, suc, ◌+◌, ◌-◌, ◌*◌, ◌%◌, ◌<◌, ◌≤◌, ◌≡◌, ◌≢◌, refl, ap, ◌∙◌, true, false, Option, some,
  length, set, ◌==◌, if◌then◌else◌, arith, length-set, get_or-set, some_inj, Bool-cases, inl, inr,
  lt→ltb,
}
use mathlib.Core.Path.{ap₂, subst}
use light_os.Bitmap.{bit}
use light_os.Bitmap.Bits.{write, write-IsValid, bit-write, test-bit, set-write}
use light_os.Memory.{
  Mem, base_page, high_page, page_idx, inc, refs, physical, drop_page, release_page, reset_pages,
  free_kpage, alloc_kpage, used, IsValid,
}
use light_os.Memory.Used.{used-set, used-pos, used-cong}
use light_os.Memory.Kernel.{within, Allocated, panic, pages, alloc_kpage-Allocated}

-- one reference to page `i` less
abbrev lowered : Mem → ℕ → Mem
lowered m i = record m { mem_map = set m.mem_map i (refs m i - 1) }

-- What is left when `n` pages from `start` on have lost a reference.
pub record Released (start n : ℕ) (m m' : Mem) : Type 0 where
  pub valid : IsValid m'
  pub same_total : m'.total_pages ≡ m.total_pages
  pub refs_left : (j : ℕ) → refs m' j ≡ (if within start n j then refs m j - 1 else refs m j)

module _ {m : Mem} (v : IsValid m) (k : ℕ) (lt : k < m.kernel_map.length * 8)
    (held : 1 ≤ refs m (base_page + k)) where
  page_in : base_page + k < m.total_pages
  page_in = omega (arith, v.map_length, v.enough)

  stored : base_page + k < length m.mem_map
  stored = omega (arith, page_in, v.counts.storage)

  set_refs :
      (j : ℕ)
      → refs (lowered m (base_page + k)) j
        ≡ (if base_page + k == j then refs m (base_page + k) - 1 else refs m j)
  set_refs j = get_or-set m.mem_map (base_page + k) j (refs m (base_page + k) - 1) 0 stored

  shared-IsValid : refs m (base_page + k) ≢ 1 → IsValid (lowered m (base_page + k))
  shared-IsValid ne = record {
    counts = record {
      small = v.counts.small;
      storage = omega (
        arith,
        length-set m.mem_map (base_page + k) (refs m (base_page + k) - 1),
        v.counts.storage,
      );
      counted = ground (
        arith,
        used-set m.total_pages m.mem_map (base_page + k) (refs m (base_page + k) - 1) page_in
            stored,
      );
    };
    enough = v.enough;
    map_valid = v.map_valid;
    map_offset = v.map_offset;
    map_length = v.map_length;
    agree = λ j p. ground (arith, v.agree j p, set_refs (base_page + j));
  }

  -- the page and its bit given back
  abbrev dropped : Mem
  dropped = record (lowered m (base_page + k)) {
    free_pages = inc m.free_pages;
    kernel_map = write m.kernel_map k false;
  }

  dropped-IsValid : refs m (base_page + k) ≡ 1 → IsValid dropped
  dropped-IsValid e = record {
    counts = record {
      small = v.counts.small;
      storage = omega (
        arith,
        length-set m.mem_map (base_page + k) (refs m (base_page + k) - 1),
        v.counts.storage,
      );
      counted = ground (
        arith,
        used-set m.total_pages m.mem_map (base_page + k) (refs m (base_page + k) - 1) page_in
            stored,
        used-pos m.total_pages m.mem_map (base_page + k) page_in held,
      );
    };
    enough = v.enough;
    map_valid = write-IsValid m.kernel_map k false v.map_valid;
    map_offset = v.map_offset;
    map_length = v.map_length;
    agree = λ j p. ground (
      arith,
      v.agree j p,
      set_refs (base_page + j),
      bit-write m.kernel_map k j false v.map_valid lt,
    );
  }

  drop_page_lem :
      refs m (base_page + k) ≡ 1
      → drop_page (lowered m (base_page + k)) (m.kernel_map.offset + k) ≡ some dropped
  unfolding drop_page
  drop_page_lem e =
      let used_bit : bit m.kernel_map k ≡ true = ground (arith, v.agree k lt) in
      rw (test-bit m.kernel_map k lt, used_bit, set-write m.kernel_map k false lt)

  release_page-Released :
      (m' : Mem) × (release_page m (m.kernel_map.offset + k) (base_page + k) ≡ some m')
      × Released (base_page + k) 1 m m'
      × (m'.kernel_map.length ≡ m.kernel_map.length)
  unfolding release_page
  release_page-Released =
      let some_ref : (refs m (base_page + k) == 0) ≡ false = ground arith in
      elim (Bool-cases (refs m (base_page + k) - 1 == 0)) [
        | inl last ↦ (
          dropped,
          rw (some_ref, last) (drop_page_lem (ground arith)),
          record {
            valid = dropped-IsValid (ground arith);
            same_total = refl;
            refs_left = λ j. ground (arith, set_refs j);
          },
          refl,
        )
        | inr more ↦ (
          lowered m (base_page + k),
          rw (some_ref, more),
          record {
            valid = shared-IsValid (ground arith);
            same_total = refl;
            refs_left = λ j. ground (arith, set_refs j);
          },
          refl,
        )
      ]

reset_pages_step :
    (n index page : ℕ) (m m1 m' : Mem)
    → release_page m index page ≡ some m1
    → reset_pages n (index + 1) (page + 1) m1 ≡ some m'
    → reset_pages (suc n) index page m ≡ some m'
unfolding reset_pages
reset_pages_step n index page m m1 m' e f = rw (e, f)

reset_pages-Released :
    (n k index page : ℕ) (m : Mem)
    → IsValid m
    → index ≡ m.kernel_map.offset + k
    → page ≡ base_page + k
    → k + n ≤ m.kernel_map.length * 8
    → ((j : ℕ) → within page n j ≡ true → 1 ≤ refs m j)
    → (m' : Mem) × (reset_pages n index page m ≡ some m') × Released page n m m'
unfolding reset_pages
reset_pages-Released zero k index page m v e f room held =
    (m, refl, record { valid = v; same_total = refl; refs_left = λ j. ground arith })
reset_pages-Released (suc n) k index page m v e f room held =
    let (m1, run1, r1, len1) =
      release_page-Released v k (omega arith) (held (base_page + k) (ground arith)) in
    let (m', run, r) =
      reset_pages-Released n (k + 1) (index + 1) (page + 1) m1 r1.valid
        (omega (arith, r1.valid.map_offset, v.map_offset)) (omega arith) (omega (arith, len1))
        (λ j w. ground (arith, held j, r1.refs_left j)) in
    (
      m',
      reset_pages_step n index page m m1 m' (ap₂ (release_page m) e f ∙ run1) run,
      record {
        valid = r.valid;
        same_total = r.same_total ∙ r1.same_total;
        refs_left = λ j. ground (arith, r.refs_left j, r1.refs_left j);
      },
    )

free_kpage_step :
    (vaddr count index start : ℕ) (m m' : Mem)
    → vaddr % 4096 ≡ 0
    → 0 < count
    → page_idx vaddr ≡ index
    → physical m.kernel_map index ≡ start
    → reset_pages count index start m ≡ some m'
    → free_kpage m vaddr count ≡ some m'
unfolding free_kpage
free_kpage_step vaddr count index start m m' aligned pos e f run =
    rw (aligned, lt→ltb 0 count pos, e, f, run)

-- Where each of `count` kernel pages from the `k`-th on has a reference, `free_kpage` of their
-- address meets no assertion: exactly these pages lose one reference, and the counts, the number of
-- free pages and the bitmap stay in step.
pub free_kpage-Released :
    (m : Mem) (k count : ℕ)
    → IsValid m
    → 0 < count
    → k + count ≤ m.kernel_map.length * 8
    → ((j : ℕ) → within (base_page + k) count j ≡ true → 1 ≤ refs m j)
    → (m' : Mem) × (free_kpage m ((high_page + base_page + k) * 4096) count ≡ some m')
      × Released (base_page + k) count m m'
free_kpage-Released m k count v pos room held =
    let index : page_idx ((high_page + base_page + k) * 4096) ≡ high_page + base_page + k =
      omega arith in
    let start : physical m.kernel_map (high_page + base_page + k) ≡ base_page + k =
      omega (arith, v.map_offset, room, v.map_length) in
    let (m', run, r) =
      reset_pages-Released count k (high_page + base_page + k) (base_page + k) m v
        (omega (arith, v.map_offset)) refl room held in
    (m', free_kpage_step _ count _ _ m m' (omega arith) pos index start run, r)

-- What `free_kpage` gives back after `alloc_kpage`.
pub record Restored (m m' : Mem) : Type 0 where
  pub valid : IsValid m'
  pub same_refs : (j : ℕ) → refs m' j ≡ refs m j
  pub same_free : m'.free_pages ≡ m.free_pages

free_allocated :
    (m : Mem) (count addr : ℕ) (m1 : Mem) (r : Option (ℕ × Mem))
    → IsValid m
    → 0 < count
    → Allocated m count r
    → r ≡ some (addr, m1)
    → (m' : Mem) × (free_kpage m1 addr count ≡ some m') × Restored m m'
free_allocated m count addr m1 r v pos (panic h) e = cc
free_allocated m count addr m1 r v pos (pages {s} {m' = m2} c first v2 total taken unused fewer) e =
    let (m', run, rel) =
      free_kpage-Released m2 s count v2 pos (omega (arith, c.inside, v.map_length, v2.map_length))
        (λ j w. ground (arith, taken j)) in
    let same : (j : ℕ) → refs m' j ≡ refs m j =
      λ j. ground (arith, rel.refs_left j, taken j, unused j) in
    subst (λ (x : ℕ × Mem). (m3 : Mem) × (free_kpage x.1 x.0 count ≡ some m3) × Restored m m3)
      (some_inj _ _ e)
      (
        m',
        run,
        record {
          valid = rel.valid;
          same_refs = same;
          same_free = omega (
            arith,
            used-cong m.total_pages m'.mem_map m.mem_map same,
            ap (λ t. used t m'.mem_map) (rel.same_total ∙ total),
            rel.valid.counts.counted,
            v.counts.counted,
            rel.same_total,
            total,
          );
        },
      )

-- Whatever `alloc_kpage` hands out, `free_kpage` of the same address and count takes back: every page
-- has the references of before, and as many pages are free.
pub free-alloc :
    (m : Mem) (count addr : ℕ) (m1 : Mem)
    → IsValid m
    → 0 < count
    → alloc_kpage m count ≡ some (addr, m1)
    → (m' : Mem) × (free_kpage m1 addr count ≡ some m') × Restored m m'
free-alloc m count addr m1 v pos e =
    free_allocated m count addr m1 (alloc_kpage m count) v pos (alloc_kpage-Allocated m count v pos)
      e
