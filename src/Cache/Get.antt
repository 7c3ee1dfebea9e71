-- ===== src/Cache/Get.antt =====
-- `getblk` of src/kernel/cache.c: which buffer it gives, and that the cache stays valid.
use light_os.Cache.{
  Buffer, Cache, hash, set_buffer, set_bucket, find, get_from_hash_table, hash_locate,
  get_new_cache, get_free_cache, place, place_in, count_up, getblk,
}
use light_os.Cache.Lists.{mem, remove, last, mem-cons, mem-remove, last-none}
use light_os.Cache.Valid.{SameKey, Kept, IsValid, Apart, Taken, get_new_cache-Taken, reuse-Taken}
use light_os.Cache.Search.{Keyed, find-keyed, absent}
use mathlib.Core.Path.{subst}
use light_os.Base.{
  ℕ, ◌+◌, ◌<◌, ◌≤◌, ◌≡◌, ◌≢◌, refl, sym, ◌∙◌, inl, inr, false, Option, none, some, ◌∷◌, ◌==◌, ◌>>=◌,
  Bool-cases, Option-cases, ==_iff, ==_refl, ==_ne, else_of, arith,
}

-- A buffer that has taken a block
record Placed (c c' : Cache) (i dev block : ℕ) : Type 0 where
  valid : IsValid c'
  keyed : Keyed c' dev block i
  one : (c'.buffer i).count ≡ 1
  invalid : (c'.buffer i).valid ≡ false
  others : (j : ℕ) → i ≢ j → c'.buffer j ≡ c.buffer j
  same_made : c'.made ≡ c.made
  same_disk : c'.disk ≡ c.disk

place-Placed :
    (c : Cache) (i dev block : ℕ)
    → Apart c i
    → ((j : ℕ) → i ≢ j → j < c.made → ¬ Keyed c dev block j)
    → (c' : Cache) × (place c i dev block ≡ some (some i, c')) × Placed c c' i dev block
unfolding place hash_locate
place-Placed c i dev block a new =
    let b = record (c.buffer i) { count = 1; dev = dev; block = block } in
    let c1 = set_buffer c i b in
    let h = hash dev block in
    let out : mem i (c.hash_table h) ≡ false = ground (arith, a.hashed i h, ==_refl i) in
    (
      set_bucket c1 h (i ∷ c.hash_table h),
      rw (a.unused, a.written, ==_refl i, out) refl,
      record {
        valid = record {
          hashed = λ j k.
              ground (
                arith,
                mem-cons j i (c.hash_table h),
                a.hashed j k,
                ==_iff i j,
                ==_iff h k,
                a.made,
              );
          free = λ j. ground (arith, a.free j, ==_iff i j, a.made);
          unique = unique_placed;
          kept = kept_placed;
        };
        keyed = rw (==_refl i) (refl, refl);
        one = rw (==_refl i) refl;
        invalid = rw (==_refl i) a.invalid;
        others = λ j d. rw (==_ne i j d) refl;
        same_made = refl;
        same_disk = refl;
      },
    )
  where
    b : Buffer
    b = record (c.buffer i) { count = 1; dev = dev; block = block }

    unique_placed : (j k : ℕ) → j < c.made → k < c.made → SameKey (set_buffer c i b) j k → j ≡ k
    unique_placed j k lj lk same = elim (Bool-cases (i == j)) [
      | inl e ↦ elim (Bool-cases (i == k)) [
        | inl f ↦ sym ((==_iff i j).0 e) ∙ (==_iff i k).0 f
        | inr f ↦
            absurd (new k (λ z. absurd (ground (arith, f, z))) lk (ground (arith, same, e, f)))
      ]
      | inr e ↦ elim (Bool-cases (i == k)) [
        | inl f ↦
            absurd (new j (λ z. absurd (ground (arith, e, z))) lj (ground (arith, same, e, f)))
        | inr f ↦
            a.unique j k (λ z. absurd (ground (arith, e, z))) (λ z. absurd (ground (arith, f, z)))
              lj lk (ground (arith, same, e, f))
      ]
    ]

    kept_placed : (j : ℕ) → j < c.made → Kept c.disk ((set_buffer c i b).buffer j)
    kept_placed j l = elim (Bool-cases (i == j)) [
      | inl e ↦ rw e record {
        clean = λ z. absurd (omega (arith, z));
        coherent = λ t z. absurd (ground (arith, t, a.invalid));
      }
      | inr e ↦ rw e (a.kept j (λ z. absurd (ground (arith, e, z))) l)
    ]

-- The outcomes of `getblk`. The buffer that has the block takes one more reference; or, if none has
-- it, a buffer that was not in use takes it, and does not have its bytes yet; or every buffer is in use
-- and the memory of the cache is used up, and the task waits. Other buffers and the disk stay as they are.
pub data Got (c : Cache) (dev block : ℕ) : Option ℕ × Cache → Type 0 where
  waits :
      c.spare ≡ 0
      → ((j : ℕ) → j < c.made → (c.buffer j).count ≢ 0)
      → ((j : ℕ) → j < c.made → ¬ Keyed c dev block j)
      → Got c dev block (none, c)
  found :
      {i : ℕ} {c' : Cache}
      → i < c.made
      → Keyed c dev block i
      → IsValid c'
      → c'.buffer i ≡ record (c.buffer i) { count = (c.buffer i).count + 1 }
      → ((j : ℕ) → i ≢ j → c'.buffer j ≡ c.buffer j)
      → c'.made ≡ c.made
      → c'.disk ≡ c.disk
      → Got c dev block (some i, c')
  fresh :
      {i : ℕ} {c' : Cache}
      → ((j : ℕ) → j < c.made → ¬ Keyed c dev block j)
      → (i < c.made → (c.buffer i).count ≡ 0)
      → IsValid c'
      → Keyed c' dev block i
      → (c'.buffer i).count ≡ 1
      → (c'.buffer i).valid ≡ false
      → ((j : ℕ) → i ≢ j → c'.buffer j ≡ c.buffer j)
      → i < c'.made
      → c.made ≤ c'.made
      → ((j : ℕ) → i ≢ j → j < c'.made → j < c.made)
      → c'.disk ≡ c.disk
      → Got c dev block (some i, c')

found-IsValid :
    (c : Cache) (i : ℕ)
    → IsValid c
    → i < c.made
    → IsValid (count_up (record c { free_list = remove i c.free_list }) i)
found-IsValid c i v lt = record {
  hashed = λ j k. ground (arith, v.hashed j k, ==_iff i j);
  free = λ j. ground (arith, mem-remove j i c.free_list, v.free j, lt);
  unique = λ j k lj lk same. v.unique j k lj lk (ground (arith, same, ==_iff i j, ==_iff i k));
  kept = λ j l. elim (Bool-cases (i == j)) [
    | inl e ↦
        rw e record { clean = λ z. absurd (omega (arith, z)); coherent = (v.kept i lt).coherent }
    | inr e ↦ rw e (v.kept j l)
  ];
}

none_spare : (c : Cache) → get_new_cache c ≡ none → c.spare ≡ 0
unfolding get_new_cache
none_spare c e = elim (Bool-cases (c.spare == 0)) [
  | inl z ↦ (==_iff c.spare 0).0 z
  | inr n ↦ absurd (cc (else_of (c.spare == 0) _ _ n e))
]

module _ (c : Cache) (dev block : ℕ) (v : IsValid c)
    (new : (j : ℕ) → j < c.made → ¬ Keyed c dev block j) where
  Taken-Got :
      (c1 : Cache) (i : ℕ)
      → Taken c c1 i
      → (r : Option ℕ × Cache) × (place_in dev block (some i, c1) ≡ some r) × Got c dev block r
  Taken-Got c1 i t =
      let (c', e, p) = place-Placed c1 i dev block t.apart λ j d l k.
        new j (t.fewer j d l) (subst (λ b. (b.dev ≡ dev) × (b.block ≡ block)) (t.others j d) k) in
      (
        (some i, c'),
        e,
        fresh new t.idle p.valid p.keyed p.one p.invalid (λ j d. p.others j d ∙ t.others j d)
            (rw p.same_made t.apart.made) (rw p.same_made t.grows)
            (λ j d l. t.fewer j d (subst (λ n. j < n) p.same_made l)) (p.same_disk ∙ t.same_disk),
      )

  free-Got :
      (r : Option ℕ × Cache) × ((get_free_cache c >>= place_in dev block) ≡ some r)
      × Got c dev block r
  unfolding get_free_cache
  free-Got = elim (Option-cases (get_new_cache c)) [
    | inr ((i, c1), e) ↦
        let (r, p, q) = Taken-Got c1 i (get_new_cache-Taken c c1 i v e) in
        (r, rw (e, get_free_cache) p, q)
    | inl e ↦ elim (Option-cases (last c.free_list)) [
      | inr (i, f) ↦
          let (c1, g, t) = reuse-Taken c i v f in
          let (r, p, q) = Taken-Got c1 i t in (r, rw (e, f, g, get_free_cache) p, q)
      | inl f ↦ (
        (none, c),
        rw (e, f, get_free_cache) refl,
        waits (none_spare c e) (λ j l z. ground (arith, v.free j, last-none c.free_list j f, l, z))
            new,
      )
    ]
  ]

-- `getblk` of a block of a device meets no assertion, on a valid cache; its outcomes are those of `Got`.
pub getblk-Got :
    (c : Cache) (dev block : ℕ)
    → IsValid c
    → (r : Option ℕ × Cache) × (getblk c dev block ≡ some r) × Got c dev block r
unfolding getblk get_from_hash_table
getblk-Got c dev block v =
    elim (Option-cases (find c.buffer dev block (c.hash_table (hash dev block)))) [
      | inl e ↦
          let (r, p, q) = free-Got c dev block v (λ j l. absent c dev block j v e l) in
          (r, rw (e, getblk, get_from_hash_table) p, q)
      | inr (i, e) ↦
          let (m, k) = find-keyed c.buffer dev block i (c.hash_table (hash dev block)) e in
          let lt : i < c.made = ground (arith, v.hashed i (hash dev block), m) in
          (
            (some i, count_up (record c { free_list = remove i c.free_list }) i),
            rw (e, getblk, get_from_hash_table) refl,
            found lt (ground (arith, k)) (found-IsValid c i v lt) (rw (==_refl i) refl)
                (λ j d. rw (==_ne i j d) refl) refl refl,
          )
    ]
