-- ===== src/Memory/User.antt =====
-- `get_user_page` and `put_user_page`: the pages above the kernel's 16 MB.
use light_os.Base.{
  refl, ℕ, zero, suc, ◌+◌, ◌-◌, ◌*◌, ◌%◌, ◌<◌, ◌≤◌, ◌≡◌, ◌≢◌, ◌∙◌, ◌&&◌, Option, none, some, length,
  get_or, set, ltb, ◌==◌, if◌then◌else◌, ◌>>=◌, ◌>>◌, assert, arith, length-set, get_or-set,
  Bool-cases, inl, inr, lt→ltb, le→leb, ==_iff, ◌⊎◌,
}
use light_os.Memory.{
  Mem, base_page, kernel_pages, page_addr, page_idx, inc, refs, find_page, get_user_page,
  put_user_page, Counted, IsValid,
}
use light_os.Memory.Used.{used-set, used-pos}
use light_os.Memory.Kernel.{take_one, take_one-free, take_one-Counted}

-- What the loop of `get_user_page` finds among `n` pages from `i` on.
abbrev Found : Mem → (i n : ℕ) → Option ℕ → Type 0
Found m i n none = (j : ℕ) → i ≤ j → j < i + n → refs m j ≢ 0
Found m i n (some k) =
    (i ≤ k) × (k < i + n) × (refs m k ≡ 0) × ((j : ℕ) → i ≤ j → j < k → refs m j ≢ 0)

Found-suc :
    (m : Mem) (i n : ℕ) (r : Option ℕ) → refs m i ≢ 0 → Found m (i + 1) n r → Found m i (suc n) r
Found-suc m i n none ne f = λ j p q. elim (Bool-cases (i == j)) [
  | inl e ↦ ground arith
  | inr e ↦ f j (ground arith) (omega arith)
]
Found-suc m i n (some k) ne f = (
  omega (arith, f.0),
  omega (arith, f.1),
  f.2,
  λ j p q. elim (Bool-cases (i == j)) [
    | inl e ↦ ground arith
    | inr e ↦ f.3 j (ground arith) (omega arith)
  ],
)

find_page-Found : (m : Mem) (n i : ℕ) → Found m i n (find_page m n i)
unfolding find_page
find_page-Found m zero i = λ j p q. absurd (omega arith)
find_page-Found m (suc n) i = elim (Bool-cases (refs m i == 0)) [
  | inl e ↦ rw e (omega arith, omega arith, (==_iff _ _).0 e, λ j p q. absurd (omega arith))
  | inr e ↦
      rw e (Found-suc m i n (find_page m n (i + 1)) (ground arith) (find_page-Found m n (i + 1)))
]

-- What a call of `get_user_page` does: a panic when every page is in use, or the first free one.
pub data Granted (m : Mem) : Option (ℕ × Mem) → Type 0 where
  out_of_memory : ((j : ℕ) → kernel_pages ≤ j → j < m.total_pages → refs m j ≢ 0) → Granted m none
  granted :
      {i : ℕ} {m' : Mem}
      → kernel_pages ≤ i
      → i < m.total_pages
      → refs m i ≡ 0
      → ((j : ℕ) → kernel_pages ≤ j → j < i → refs m j ≢ 0)
      → IsValid m'
      → ((j : ℕ) → refs m' j ≡ (if i == j then 1 else refs m j))
      → m'.free_pages + 1 ≡ m.free_pages
      → m'.total_pages ≡ m.total_pages
      → Granted m (some (i * 4096, m'))

-- A page above the kernel's changes nothing of the agreement with `kernel_map`.
take_one-IsValid :
    (m : Mem) (i : ℕ)
    → IsValid m
    → kernel_pages ≤ i
    → i < m.total_pages
    → refs m i ≡ 0
    → IsValid (take_one m i)
take_one-IsValid m i v above lt unused = record {
  counts = take_one-Counted m i v.counts lt unused;
  enough = v.enough;
  map_valid = v.map_valid;
  map_offset = v.map_offset;
  map_length = v.map_length;
  agree = λ k p. ground (
    arith,
    v.agree k p,
    get_or-set m.mem_map i (base_page + k) 1 0,
    v.counts.storage,
    v.map_length,
  );
}

Found-Granted :
    (m : Mem) (r : Option ℕ)
    → IsValid m
    → Found m kernel_pages (m.total_pages - kernel_pages) r
    → Granted m (r >>= λ i. some (page_addr i, take_one m i))
Found-Granted m none v f = out_of_memory (λ j p q. f j p (omega arith))
Found-Granted m (some i) v f =
    let lt : i < m.total_pages = omega (arith, f.1, v.enough) in
    let addr : page_addr i ≡ i * 4096 = omega (arith, lt, v.counts.small) in
    rw addr (
      granted f.0 lt f.2 f.3 (take_one-IsValid m i v f.0 lt f.2)
        (λ j. get_or-set m.mem_map i j 1 0 (omega (arith, lt, v.counts.storage)))
        (take_one-free m i v.counts lt f.2) refl)

-- `get_user_page` panics only if every page from 16 MB on has a reference. Otherwise it returns the
-- address of the first page with none and counts one reference to it, and the counts stay in step.
pub get_user_page-Granted : (m : Mem) → IsValid m → Granted m (get_user_page m)
unfolding get_user_page
get_user_page-Granted m v =
    Found-Granted m (find_page m (m.total_pages - kernel_pages) kernel_pages) v
      (find_page-Found m (m.total_pages - kernel_pages) kernel_pages)

module _ (m : Mem) (i : ℕ) (v : IsValid m) (above : kernel_pages ≤ i) (lt : i < m.total_pages)
    (held : 1 ≤ refs m i) where
  -- one reference less, and a free page more if it was the last
  abbrev pub put_one : Mem
  put_one = record m {
    mem_map = set m.mem_map i (refs m i - 1);
    free_pages = if refs m i - 1 == 0 then inc m.free_pages else m.free_pages;
  }

  stored : i < length m.mem_map
  stored = omega (arith, v.counts.storage)

  put_one-Counted : Counted put_one
  put_one-Counted = record {
    small = v.counts.small;
    storage = omega (arith, length-set m.mem_map i (refs m i - 1), v.counts.storage);
    counted = ground (
      arith,
      used-set m.total_pages m.mem_map i (refs m i - 1) lt stored,
      used-pos m.total_pages m.mem_map i lt held,
      v.counts.counted,
      v.counts.small,
    );
  }

  put_one-IsValid : IsValid put_one
  put_one-IsValid = record {
    counts = put_one-Counted;
    enough = v.enough;
    map_valid = v.map_valid;
    map_offset = v.map_offset;
    map_length = v.map_length;
    agree = λ k p. ground (
      arith,
      v.agree k p,
      get_or-set m.mem_map i (base_page + k) (refs m i - 1) 0 stored,
      v.map_length,
    );
  }

  put_user_page_lem :
      put_user_page m (i * 4096)
      ≡ (assert (ltb 0 put_one.free_pages && ltb put_one.free_pages m.total_pages) >> some put_one)
  unfolding put_user_page
  put_user_page_lem =
      let aligned : i * 4096 % 4096 ≡ 0 = omega arith in
      let index : page_idx (i * 4096) ≡ i = omega arith in
      rw (
        aligned,
        index,
        le→leb kernel_pages i above,
        lt→ltb i m.total_pages lt,
        le→leb 1 (refs m i) held,
      )

  -- While the first page stays in use, as the kernel's own pages do, `put_user_page` of a page with a
  -- reference takes one reference from that page alone and keeps the counts in step, if it was the
  -- last reference or some page is free.
  pub put_user_page-IsValid :
      1 ≤ refs m 0
      → (refs m i ≡ 1) ⊎ (0 < m.free_pages)
      → (m' : Mem) × (put_user_page m (i * 4096) ≡ some m')
        × IsValid m'
        × ((j : ℕ) → refs m' j ≡ (if i == j then refs m i - 1 else refs m j))
  put_user_page-IsValid low why =
      let first : get_or (set m.mem_map i (refs m i - 1)) 0 0 ≡ refs m 0 =
        ground (arith, get_or-set m.mem_map i 0 (refs m i - 1) 0 stored) in
      let some_used =
        used-pos m.total_pages (set m.mem_map i (refs m i - 1)) 0 (omega arith)
          (omega (arith, first)) in
      let below : put_one.free_pages < m.total_pages =
        omega (arith, put_one-Counted.counted, some_used) in
      let above_zero : 0 < put_one.free_pages = ground (arith, v.counts.counted, v.counts.small) in
      (
        put_one,
        put_user_page_lem ∙ rw (lt→ltb _ _ above_zero, lt→ltb _ _ below),
        put_one-IsValid,
        λ j. get_or-set m.mem_map i j (refs m i - 1) 0 stored,
      )

  -- With no page free, `put_user_page` of a page that is shared fails its last assertion.
  put_shared_full : 2 ≤ refs m i → m.free_pages ≡ 0 → put_user_page m (i * 4096) ≡ none
  put_shared_full shared full = put_user_page_lem ∙ ground arith
