-- ===== src/Memory/Tests.antt =====
-- The theorems on the pages, at concrete states of 33 MB.
use light_os.Base.{
  none, ℕ, zero, suc, ◌+◌, ◌-◌, ◌*◌, ◌/◌, ◌%◌, ◌^◌, ◌<◌, ◌≤◌, ◌≡◌, refl, sym, ap, ◌∙◌, true, not,
  some, List, [], ◌∷◌, set, replicate, ◌==◌, if◌then◌else◌, arith, inl, ◌↔◌, length-replicate,
  get_or-set, get_or-replicate, get_or-replicate_in, All-replicate, test_bit, put_bit, up_to,
  up_to-lt,
}
use light_os.Bitmap
use light_os.Bitmap.{Bitmap, bit}
use light_os.Bitmap.Bits.{init-IsValid, init-Clear, init_shape}
use light_os.Memory.{
  Mem, base_page, high_page, refs, used, alloc_kpage, alloc_scanned, take_pages, free_kpage,
  find_page, get_user_page, put_user_page, IsValid,
}
use light_os.Memory.Zones.{Zone}
use light_os.Memory.Init.{memory_map_init, memory_map_init-IsValid}
use light_os.Memory.Kernel.{Allocated, alloc_kpage-Allocated}
use light_os.Memory.Free.{Released, Restored, free_kpage-Released, free-alloc}
use light_os.Memory.Kernel.{take_one, take_one-Counted}
use light_os.Memory.Space.Unlink.{unlink-link}
use light_os.Memory.Space.{Space, get_pte, with_page, link_user_page, unlink_user_page}
use light_os.Memory.Space.Link.{Good, Linked, link_user_page-Linked}
use light_os.Memory.User.{Granted, get_user_page-Granted, put_user_page-IsValid}

-- every page with `r` references
abbrev full : ℕ → Mem
full r = record {
  mem_map = replicate 8448 r;
  total_pages = 8448;
  free_pages = 0;
  kernel_map = record { bits = replicate 480 255; length = 480; offset = high_page + base_page };
}

used-replicate-suc : (n k r : ℕ) → n ≤ k → used n (replicate k (suc r)) ≡ n
unfolding used
used-replicate-suc zero k r h = refl
used-replicate-suc (suc n) zero r h = absurd (omega arith)
used-replicate-suc (suc n) (suc k) r h = ground (arith, used-replicate-suc n k r)

all_set : up_to (test_bit 255) 8 ≡ true
unfolding up_to test_bit
all_set = refl

full-refs : (r j : ℕ) → j < 8448 → refs (full r) j ≡ r
full-refs r j lt = get_or-replicate_in {A = ℕ} 8448 j r 0 lt

full-bit : (r k : ℕ) → k < 480 * 8 → bit (full r).kernel_map k ≡ true
full-bit r k lt =
    ap (λ b. test_bit b (k % 8)) (get_or-replicate_in {A = ℕ} 480 (k / 8) 255 0 (omega arith))
    ∙ up_to-lt (test_bit 255) {i = k % 8} (omega arith) all_set

full-IsValid : (r : ℕ) → IsValid (full (suc r))
full-IsValid r = record {
  counts = record {
    small = omega arith;
    storage = omega (arith, length-replicate {A = ℕ} 8448 (suc r));
    counted = omega (arith, used-replicate-suc 8448 8448 r (omega arith));
  };
  enough = omega arith;
  map_valid = record {
    sized = length-replicate {A = ℕ} 480 255;
    bytes = All-replicate (λ b. b < 256) 480 255 (omega arith);
    fits = omega arith;
  };
  map_offset = refl;
  map_length = refl;
  agree = λ k lt.
      full-bit (suc r) k lt
      ∙ sym
          (ap (λ n. not (n == 0)) (full-refs (suc r) (base_page + k) (omega arith)) ∙ ground arith);
}

-- no page in use
abbrev idle : Mem
idle = record {
  mem_map = replicate 8448 0;
  total_pages = 8448;
  free_pages = 8448;
  kernel_map = Bitmap.init 480 (high_page + base_page);
}

used-replicate-zero : (n k : ℕ) → used n (replicate k 0) ≡ 0
unfolding used
used-replicate-zero zero k = refl
used-replicate-zero (suc n) zero = refl
used-replicate-zero (suc n) (suc k) = ground (arith, used-replicate-zero n k)

idle-IsValid : IsValid idle
idle-IsValid = record {
  counts = record {
    small = omega arith;
    storage = omega (arith, length-replicate {A = ℕ} 8448 0);
    counted = omega (arith, used-replicate-zero 8448 8448);
  };
  enough = omega arith;
  map_valid = init-IsValid 480 (high_page + base_page) (omega arith);
  map_offset = (init_shape 480 (high_page + base_page)).1;
  map_length = omega (arith, (init_shape 480 (high_page + base_page)).0);
  agree = λ k lt. ground (
    arith,
    (init-Clear 480 (high_page + base_page)).clear k (omega arith)
        (omega (arith, (init_shape 480 (high_page + base_page)).0)),
    get_or-replicate {A = ℕ} 8448 (base_page + k) 0,
  );
}

alloc_kpage-Allocated_example : Allocated idle 3 (alloc_kpage idle 3)
alloc_kpage-Allocated_example = alloc_kpage-Allocated idle 3 idle-IsValid (omega arith)

free_kpage-Released_example :
    (m' : Mem) × (free_kpage (full 2) ((high_page + base_page + 5) * 4096) 3 ≡ some m')
    × Released (base_page + 5) 3 (full 2) m'
free_kpage-Released_example =
    free_kpage-Released (full 2) 5 3 (full-IsValid 1) (omega arith) (omega arith)
      (λ j w. omega (arith, full-refs 2 j (ground arith)))

-- two pages taken from the idle state
abbrev after_two : Mem
after_two = record {
  mem_map = set (set (replicate 8448 0) 256 1) 257 1;
  total_pages = 8448;
  free_pages = 8446;
  kernel_map = record {
    bits = set (replicate 480 0) 0 3;
    length = 480;
    offset = high_page + base_page;
  };
}

two_taken : alloc_kpage idle 2 ≡ some ((high_page + base_page) * 4096, after_two)
unfolding alloc_kpage alloc_scanned take_pages Bitmap.scan Bitmap.find Bitmap.mark Bitmap.test
    Bitmap.set Bitmap.init Bitmap.make test_bit put_bit
two_taken = refl

free-alloc_example :
    (m' : Mem) × (free_kpage after_two ((high_page + base_page) * 4096) 2 ≡ some m')
    × Restored idle m'
free-alloc_example =
    free-alloc idle 2 ((high_page + base_page) * 4096) after_two idle-IsValid (omega arith)
      two_taken

get_user_page-Granted_example : Granted idle (get_user_page idle)
get_user_page-Granted_example = get_user_page-Granted idle idle-IsValid

put_user_page-IsValid_example :
    (m' : Mem) × (put_user_page (full 1) (5000 * 4096) ≡ some m')
    × IsValid m'
    × ((j : ℕ) → refs m' j ≡ (if 5000 == j then refs (full 1) 5000 - 1 else refs (full 1) j))
put_user_page-IsValid_example =
    put_user_page-IsValid (full 1) 5000 (full-IsValid 0) (omega arith) (omega arith)
      (omega (arith, full-refs 1 5000 (omega arith))) (omega (arith, full-refs 1 0 (omega arith)))
      (inl (full-refs 1 5000 (omega arith)))

-- 32 MB from 1 MB on
memory_map_init-IsValid_example :
    (m : Mem) × (memory_map_init (8448, 8192) ≡ some m)
    × IsValid m
    × ((j : ℕ) → (refs m j ≡ 0) ↔ (base_page + 3 ≤ j))
memory_map_init-IsValid_example =
    memory_map_init-IsValid (32 * 2 ^ 20) (omega arith) (omega arith) (omega arith)

-- what a loader may report: low memory, the memory above 1 MB, and a hole
abbrev zones : List Zone
zones =
    record { base = 0; size = 0x9_fc00; kind = 1 }
    ∷ record { base = 0x10_0000; size = 0x1ee_0000; kind = 1 }
    ∷ record { base = 0xfffc_0000; size = 0x4_0000; kind = 2 }
    ∷ []

-- A process with no page yet
abbrev bare : Space
bare = record { mem = idle; pde = λ i. none; pte = λ p. none }

bare-Good : Good bare
bare-Good = record { valid = idle-IsValid; empty = λ q e. refl }

link_user_page-Linked_example : Linked bare 32840 (link_user_page bare 134512640)
link_user_page-Linked_example = link_user_page-Linked bare 134512640 bare-Good

-- A process with a table and no page, while the first page is in use
abbrev first_used : Mem
first_used = take_one idle 0

first_used-IsValid : IsValid first_used
first_used-IsValid = record {
  counts =
      take_one-Counted idle 0 idle-IsValid.counts (omega arith) (get_or-replicate {A = ℕ} 8448 0 0);
  enough = omega arith;
  map_valid = idle-IsValid.map_valid;
  map_offset = idle-IsValid.map_offset;
  map_length = idle-IsValid.map_length;
  agree = λ k lt. ground (
    arith,
    idle-IsValid.agree k lt,
    get_or-set idle.mem_map 0 (base_page + k) 1 0 (omega (arith, length-replicate {A = ℕ} 8448 0)),
  );
}

abbrev room : Space
room = record { mem = first_used; pde = λ i. some 5000; pte = λ p. none }

abbrev room' : Space
room' = with_page room 32840 (16777216, take_one first_used 4096)

room-linked : link_user_page room 134512640 ≡ some room'
unfolding link_user_page get_pte get_user_page find_page
room-linked = refl

unlink-link_example :
    (s'' : Space) × (unlink_user_page room' 134512640 ≡ some s'')
    × ((j : ℕ) → refs s''.mem j ≡ refs first_used j)
    × ((q : ℕ) → s''.pte q ≡ none)
unlink-link_example =
    unlink-link room room' 134512640 5000 record { valid = first_used-IsValid; empty = λ q e. refl }
      refl refl refl (omega arith) room-linked
