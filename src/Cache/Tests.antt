-- ===== src/Cache/Tests.antt =====
-- The block cache at a concrete state: two buffers fit, and one is there, free and valid.
use light_os.Cache.{Buffer, Cache, hash, new_buffer, bread, brelse}
use light_os.Cache.Lists.{mem}
use light_os.Cache.Valid.{Kept, IsValid}
use light_os.Cache.Bread.{Read, bread-Read}
use light_os.Cache.Release.{Released, brelse-Released}
use mathlib.Core.Path.{subst}
use light_os.Base.{
  ℕ, ◌+◌, ◌≡◌, refl, true, false, Option, some, [], ◌∷◌, ◌==◌, if◌then◌else◌, ==_iff, arith,
}

abbrev disk : ℕ → ℕ → ℕ → ℕ
disk d b p = d + b + p

abbrev one_block : Buffer
one_block = record { dev = 1; block = 5; count = 0; dirty = false; valid = true; bytes = disk 1 5 }

abbrev one_free : Cache
one_free = record {
  buffer = λ j. if j == 0 then one_block else new_buffer;
  made = 1;
  spare = 1;
  free_list = 0 ∷ [];
  hash_table = λ h. if h == hash 1 5 then 0 ∷ [] else [];
  disk = disk;
}

first : Kept disk (one_free.buffer 0)
first = record { clean = λ z. refl; coherent = λ t z. refl }

one_free-IsValid : IsValid one_free
unfolding mem
one_free-IsValid = record {
  hashed = λ j h. ground (arith, ==_iff h (hash 1 5));
  free = λ j. ground arith;
  unique = λ j k lj lk same. omega (arith, lj, lk);
  kept =
      λ j l. let z : 0 ≡ j = omega (arith, l) in subst (λ n. Kept disk (one_free.buffer n)) z first;
}

bread-Read_example : (r : Option ℕ × Cache) × (bread one_free 1 5 ≡ some r) × Read one_free 1 5 r
bread-Read_example = bread-Read one_free 1 5 one_free-IsValid

-- The buffer is in use, and has not been written.
abbrev one_held : Cache
one_held = record one_free {
  buffer = λ j. if j == 0 then record one_block { count = 1; dirty = true } else new_buffer;
  free_list = [];
}

held : Kept disk (one_held.buffer 0)
held = record { clean = λ z. absurd (omega (arith, z)); coherent = λ t z. absurd (cc) }

one_held-IsValid : IsValid one_held
unfolding mem
one_held-IsValid = record {
  hashed = λ j h. ground (arith, ==_iff h (hash 1 5));
  free = λ j. ground arith;
  unique = λ j k lj lk same. omega (arith, lj, lk);
  kept =
      λ j l. let z : 0 ≡ j = omega (arith, l) in subst (λ n. Kept disk (one_held.buffer n)) z held;
}

brelse-Released_example : (c' : Cache) × (brelse one_held 0 ≡ some c') × Released one_held 0 c'
brelse-Released_example =
    brelse-Released one_held 0 one_held-IsValid (omega arith) refl (omega arith)
