-- ===== src/Cache/Valid.antt =====
-- The invariant of the block cache, and that finding and placing a buffer keep it.
use light_os.Cache.{
  Buffer, Cache, key_hash, set_buffer, set_bucket, hash_remove, new_buffer, get_new_cache, reuse,
}
use light_os.Cache.Lists.{mem, remove, last, mem-remove, mem-last}
use mathlib.Core.Path.{subst}
use light_os.Base.{
  ℕ, ◌+◌, ◌-◌, ◌<◌, ◌≤◌, ◌≡◌, ◌≢◌, refl, sym, ◌∙◌, inl, inr, true, false, not, ◌&&◌, some, ltb,
  ◌==◌, if◌then◌else◌, Bool-cases, ==_iff, ==_refl, ==_ne, some_inj, then_of, else_of, arith,
}

-- Two buffers have the same key.
abbrev pub SameKey : Cache → (j k : ℕ) → Type 0
SameKey c j k = ((c.buffer j).dev ≡ (c.buffer k).dev) × ((c.buffer j).block ≡ (c.buffer k).block)

-- A buffer that is not in use has been written, and one that is valid and has been written has the
-- bytes of its block.
pub record Kept (disk : ℕ → ℕ → ℕ → ℕ) (b : Buffer) : Type 0 where
  pub clean : b.count ≡ 0 → b.dirty ≡ false
  pub coherent : b.valid ≡ true → b.dirty ≡ false → b.bytes ≡ disk b.dev b.block

-- Every buffer that has been made is in the chain of its key and in no other; it is in the free list
-- if nothing uses it; and no two have the same key.
pub record IsValid (c : Cache) : Type 0 where
  pub hashed : (j h : ℕ) → mem j (c.hash_table h) ≡ (ltb j c.made && key_hash c j == h)
  pub free : (j : ℕ) → mem j c.free_list ≡ (ltb j c.made && (c.buffer j).count == 0)
  pub unique : (j k : ℕ) → j < c.made → k < c.made → SameKey c j k → j ≡ k
  pub kept : (j : ℕ) → j < c.made → Kept c.disk (c.buffer j)

-- The same but for buffer `i`, which is in no list: it is about to take a block.
pub record Apart (c : Cache) (i : ℕ) : Type 0 where
  pub made : i < c.made
  pub hashed :
      (j h : ℕ) → mem j (c.hash_table h) ≡ (not (i == j) && (ltb j c.made && key_hash c j == h))
  pub free :
      (j : ℕ) → mem j c.free_list ≡ (not (i == j) && (ltb j c.made && (c.buffer j).count == 0))
  pub unique : (j k : ℕ) → i ≢ j → i ≢ k → j < c.made → k < c.made → SameKey c j k → j ≡ k
  pub kept : (j : ℕ) → i ≢ j → j < c.made → Kept c.disk (c.buffer j)
  pub unused : (c.buffer i).count ≡ 0
  pub written : (c.buffer i).dirty ≡ false
  pub invalid : (c.buffer i).valid ≡ false

-- Buffer `i` has been taken from the memory of the cache or from the free list.
pub record Taken (c c' : Cache) (i : ℕ) : Type 0 where
  pub apart : Apart c' i
  pub others : (j : ℕ) → i ≢ j → c'.buffer j ≡ c.buffer j
  pub idle : i < c.made → (c.buffer i).count ≡ 0
  pub grows : c.made ≤ c'.made
  pub fewer : (j : ℕ) → i ≢ j → j < c'.made → j < c.made
  pub same_disk : c'.disk ≡ c.disk

-- Another buffer than `i` is as before.
other : (c : Cache) (i j : ℕ) (b : Buffer) → i ≢ j → (set_buffer c i b).buffer j ≡ c.buffer j
other c i j b d = rw (==_ne i j d) refl

unset :
    (c : Cache) (i : ℕ) (b : Buffer) (j k : ℕ)
    → i ≢ j
    → i ≢ k
    → SameKey (set_buffer c i b) j k
    → SameKey c j k
unset c i b j k dj dk same = ground (arith, ==_ne i j dj, ==_ne i k dk, same)

new-Apart :
    (c : Cache)
    → IsValid c
    → Apart
        (record (set_buffer c c.made new_buffer) { made = c.made + 1; spare = c.spare - 1 })
        c.made
new-Apart c v = record {
  made = omega arith;
  hashed = λ j h. ground (arith, v.hashed j h);
  free = λ j. ground (arith, v.free j);
  unique = λ j k dj dk lj lk same.
      v.unique j k (omega (arith, lj, dj)) (omega (arith, lk, dk))
        (unset c c.made new_buffer j k dj dk same);
  kept = λ j d l.
      subst (Kept c.disk) (sym (other c c.made j new_buffer d)) (v.kept j (omega (arith, l, d)));
  unused = rw (==_refl c.made) refl;
  written = rw (==_refl c.made) refl;
  invalid = rw (==_refl c.made) refl;
}

pub get_new_cache-Taken :
    (c c' : Cache) (i : ℕ) → IsValid c → get_new_cache c ≡ some (i, c') → Taken c c' i
unfolding get_new_cache
get_new_cache-Taken c c' i v e = elim (Bool-cases (c.spare == 0)) [
  | inl z ↦ absurd (cc (then_of (c.spare == 0) _ _ z e))
  | inr n ↦
      let taken = record (set_buffer c c.made new_buffer) {
        made = c.made + 1;
        spare = c.spare - 1;
      } in
      let f = some_inj (c.made, taken) (i, c') (else_of (c.spare == 0) _ _ n e) in
      subst (λ p. Taken c p.1 p.0) f
        record {
          apart = new-Apart c v;
          others = λ j d. other c c.made j new_buffer d;
          idle = λ l. absurd (omega (arith, l));
          grows = omega arith;
          fewer = λ j d l. omega (arith, d, l);
          same_disk = refl;
        }
]

-- The oldest buffer of the free list can be taken.
pub reuse-Taken :
    (c : Cache) (i : ℕ)
    → IsValid c
    → last c.free_list ≡ some i
    → (c' : Cache) × (reuse c i ≡ some (some i, c')) × Taken c c' i
unfolding reuse hash_remove
reuse-Taken c i v e =
    let h = key_hash c i in
    let used = sym (v.free i) ∙ mem-last c.free_list i e in
    let made : i < c.made = ground (arith, used) in
    let unused : (c.buffer i).count ≡ 0 = ground (arith, used) in
    let there : mem i (c.hash_table h) ≡ true = ground (arith, v.hashed i h, made, ==_refl h) in
    let b = record (c.buffer i) { valid = false } in
    let c1 = record c { free_list = remove i c.free_list } in
    let c2 = set_bucket c1 h (remove i (c.hash_table h)) in
    (
      set_buffer c2 i b,
      rw there refl,
      record {
        apart = record {
          made = made;
          hashed = λ j k. hashed_apart j k;
          free = λ j. ground (arith, mem-remove j i c.free_list, v.free j);
          unique = λ j k dj dk lj lk same. v.unique j k lj lk (unset c2 i b j k dj dk same);
          kept = λ j d l. subst (Kept c.disk) (sym (other c2 i j b d)) (v.kept j l);
          unused = rw (==_refl i) unused;
          written = rw (==_refl i) ((v.kept i made).clean unused);
          invalid = rw (==_refl i) refl;
        };
        others = λ j d. other c2 i j b d;
        idle = λ l. unused;
        grows = omega arith;
        fewer = λ j d l. l;
        same_disk = refl;
      },
    )
  where
    hashed_apart :
        (j k : ℕ)
        → mem j
            (if key_hash c i == k then remove i (c.hash_table (key_hash c i)) else c.hash_table k)
          ≡ (not (i == j)
              && (ltb j c.made
                  && key_hash (set_buffer c i (record (c.buffer i) { valid = false })) j == k))
    hashed_apart j k = ground (
      arith,
      mem-remove j i (c.hash_table (key_hash c i)),
      v.hashed j k,
      v.hashed i k,
      ==_iff i j,
      ==_iff (key_hash c i) k,
    )
