-- ===== src/Memory/Init.antt =====
-- `memory_map_init`: from the counts of pages to the first state.
use light_os.Base.{
  ℕ, zero, suc, ◌+◌, ◌-◌, ◌*◌, ◌/◌, ◌%◌, ◌^◌, ◌<◌, ◌≤◌, ◌≡◌, refl, ◌∙◌, ◌&&◌, Option, ◌↔◌, some,
  List, length, get_or, set, replicate, leb, ltb, if◌then◌else◌, ◌>>=◌, arith, length-set,
  get_or-set, get_or-replicate, length-replicate, Bool-cases, inl, inr,
}
use light_os.Bitmap
use light_os.Bitmap.{Bitmap, bit, Clear}
use light_os.Bitmap.Bits.{init-IsValid, init-Clear, init_shape}
use light_os.Bitmap.Scan.{Scanned, full, taken, scan-Scanned}
use light_os.Stdlib.{div_round_up}
use light_os.Memory.{Mem, base_page, kernel_pages, high_page, page_idx, refs, used, IsValid}
use light_os.Memory.Used.{used-set}

-- `for (i = 0; i < n; ++i) mem_map[i] = USED;`
unfoldable pub occupy : (rounds i : ℕ) → List ℕ → List ℕ
occupy zero i mem_map = mem_map
occupy (suc rounds) i mem_map = occupy rounds (i + 1) (set mem_map i 100)

unfoldable pub memory_map_init : ℕ × ℕ → Option Mem
memory_map_init (total_pages, free_pages) = do
  let mem_map_pages = div_round_up total_pages 4096
  let start = base_page + mem_map_pages
  r ←
      Bitmap.scan (Bitmap.init ((kernel_pages - base_page) / 8) (base_page + high_page))
        mem_map_pages
  some (record {
    mem_map = occupy start 0 (replicate (mem_map_pages * 4096) 0);
    total_pages = total_pages;
    free_pages = (free_pages + 2 ^ 32 - mem_map_pages) % 2 ^ 32;
    kernel_map = r.1;
  })

get_or-occupy :
    (n i : ℕ) (xs : List ℕ) (j : ℕ)
    → i + n ≤ length xs
    → get_or (occupy n i xs) j 0 ≡ (if leb i j && ltb j (i + n) then 100 else get_or xs j 0)
unfolding occupy
get_or-occupy zero i xs j h = ground arith
get_or-occupy (suc n) i xs j h =
    ground (
      arith,
      get_or-occupy n (i + 1) (set xs i 100) j,
      length-set xs i 100,
      get_or-set xs i j 100 0,
    )

length-occupy : (n i : ℕ) (xs : List ℕ) → length (occupy n i xs) ≡ length xs
unfolding occupy
length-occupy zero i xs = refl
length-occupy (suc n) i xs = length-occupy n (i + 1) (set xs i 100) ∙ length-set xs i 100

used-replicate : (n k : ℕ) → used n (replicate k 0) ≡ 0
unfolding used
used-replicate zero k = refl
used-replicate (suc n) zero = refl
used-replicate (suc n) (suc k) = ground (arith, used-replicate n k)

used-occupy :
    (t n i : ℕ) (xs : List ℕ)
    → i + n ≤ t
    → i + n ≤ length xs
    → ((j : ℕ) → i ≤ j → get_or xs j 0 ≡ 0)
    → used t (occupy n i xs) ≡ used t xs + n
unfolding occupy
used-occupy t zero i xs p q h = omega arith
used-occupy t (suc n) i xs p q h =
    let rest =
      used-occupy t n (i + 1) (set xs i 100) (omega arith) (omega (arith, length-set xs i 100))
        (λ j le. ground (arith, get_or-set xs i j 100 0, h j)) in
    ground (arith, rest, used-set t xs i 100, h i)

-- What `bitmap_scan` of the fresh bitmap does: it takes the first `p` bits.
record Fresh (p : ℕ) (map : Bitmap) : Type 0 where
  valid : Bitmap.IsValid map
  length_map : map.length ≡ 480
  offset_map : map.offset ≡ base_page + high_page
  bits : (k : ℕ) → k < 480 * 8 → bit map k ≡ ltb k p

abbrev fresh_map : Bitmap
fresh_map = Bitmap.init 480 (base_page + high_page)

fresh-Clear : (p : ℕ) → p ≤ 480 * 8 → Clear fresh_map 0 p
fresh-Clear p le = record {
  inside = omega (arith, (init_shape 480 (base_page + high_page)).0);
  clear = λ i a b. (init-Clear 480 (base_page + high_page)).clear i a (omega arith);
}

scan-Fresh :
    (p : ℕ) (r : Option (Option ℕ × Bitmap))
    → 0 < p
    → p ≤ 480 * 8
    → Scanned fresh_map p r
    → (x : Option ℕ × Bitmap) × (r ≡ some x) × Fresh p x.1
scan-Fresh p r pos le (full h) = absurd (h 0 (fresh-Clear p le))
scan-Fresh p r pos le (taken {s} {map'} c first k) =
    let at_zero : s ≡ 0 = elim (Bool-cases (ltb 0 s)) [
      | inl later ↦ absurd (first 0 (ground arith) (fresh-Clear p le))
      | inr here ↦ ground arith
    ] in
    (
      (some _, map'),
      refl,
      record {
        valid = k.valid;
        length_map = k.same_length ∙ (init_shape 480 (base_page + high_page)).0;
        offset_map = k.same_offset ∙ (init_shape 480 (base_page + high_page)).1;
        bits = λ i lt. ground (arith, k.bits i, (init-Clear 480 (base_page + high_page)).clear i);
      },
    )

abbrev start_map : ℕ → List ℕ
start_map p = occupy (base_page + p) 0 (replicate (p * 4096) 0)

module _ (size : ℕ) (aligned : size % 4096 ≡ 0) (enough : 15 * 2 ^ 20 ≤ size)
    (small : size + 2 ^ 20 < 2 ^ 32) where
  abbrev total : ℕ
  total = page_idx size + base_page

  abbrev pages : ℕ
  pages = (total + 4095) / 4096

  start_refs :
      (j : ℕ) → get_or (start_map pages) j 0 ≡ (if ltb j (base_page + pages) then 100 else 0)
  start_refs j = ground (
    arith,
    get_or-occupy (base_page + pages) 0 (replicate (pages * 4096) 0) j,
    length-replicate {A = ℕ} (pages * 4096) 0,
    get_or-replicate {A = ℕ} (pages * 4096) j 0,
  )

  start_used : used total (start_map pages) ≡ base_page + pages
  start_used = omega (
    arith,
    used-occupy total (base_page + pages) 0 (replicate (pages * 4096) 0) (omega arith)
        (omega (arith, length-replicate {A = ℕ} (pages * 4096) 0))
        (λ j le. get_or-replicate {A = ℕ} (pages * 4096) j 0),
    used-replicate total (pages * 4096),
  )

  module _ (map : Bitmap) (f : Fresh pages map) where
    abbrev started : Mem
    started = record {
      mem_map = start_map pages;
      total_pages = total;
      free_pages = page_idx size - pages;
      kernel_map = map;
    }

    started-IsValid : IsValid started
    started-IsValid = record {
      counts = record {
        small = omega arith;
        storage = omega (
          arith,
          length-occupy (base_page + pages) 0 (replicate (pages * 4096) 0),
          length-replicate {A = ℕ} (pages * 4096) 0,
        );
        counted = omega (arith, start_used);
      };
      enough = omega arith;
      map_valid = f.valid;
      map_offset = omega (arith, f.offset_map);
      map_length = omega (arith, f.length_map);
      agree = λ k lt. ground (arith, f.bits k, f.length_map, start_refs (base_page + k));
    }

    memory_map_init_step :
        (x : Option ℕ × Bitmap)
        → Bitmap.scan fresh_map pages ≡ some x
        → x.1 ≡ map
        → memory_map_init (total, page_idx size) ≡ some started
    unfolding memory_map_init div_round_up
    memory_map_init_step x e same =
        let count : (total + 4096 + 2 ^ 32 - 1) % 2 ^ 32 / 4096 ≡ pages = omega arith in
        let left : (page_idx size + 2 ^ 32 - pages) % 2 ^ 32 ≡ page_idx size - pages =
          omega arith in
        rw (count, e, same, left)

  -- On a machine whose usable memory starts at 1 MB, is a multiple of the page size, reaches to 16 MB
  -- at least and stays below 4 GB, the first state is valid, and the pages in use are those below
  -- 1 MB and those of `mem_map` itself.
  pub memory_map_init-IsValid :
      (m : Mem) × (memory_map_init (total, page_idx size) ≡ some m)
      × IsValid m
      × ((j : ℕ) → (refs m j ≡ 0) ↔ (base_page + pages ≤ j))
  memory_map_init-IsValid =
      let (x, e, f) = scan-Fresh pages (Bitmap.scan fresh_map pages) (omega arith) (omega arith) (
        scan-Scanned fresh_map pages (init-IsValid 480 (base_page + high_page) (omega arith))
          (omega arith)) in
      (
        started x.1 f,
        memory_map_init_step x.1 f x e refl,
        started-IsValid x.1 f,
        λ j. (λ z. ground (arith, start_refs j), λ z. ground (arith, start_refs j)),
      )
