-- ===== src/Cache/Content.antt =====
-- The contents of the blocks, seen through the block cache of src/kernel/cache.c.
use light_os.Cache.{Cache, read_block}
use light_os.Cache.Valid.{IsValid}
use light_os.Cache.Search.{Keyed}
use mathlib.Core.Path.{subst}
use light_os.Base.{
  ℕ, ◌+◌, ◌<◌, ◌≤◌, ◌≡◌, ◌≢◌, refl, sym, ap, ◌∙◌, inl, inr, true, false, ◌&&◌, ltb, ◌==◌,
  Bool-cases, ==_iff, arith,
}

-- The block of a device has the bytes `f`: those of the valid buffer that has it, or those on the disk
-- if no valid buffer has it.
pub record Holds (c : Cache) (dev block : ℕ) (f : ℕ → ℕ) : Type 0 where
  pub cached :
      (j : ℕ)
      → j < c.made
      → Keyed c dev block j
      → (c.buffer j).valid ≡ true
      → (c.buffer j).bytes ≡ f
  pub stored :
      ((j : ℕ) → j < c.made → Keyed c dev block j → (c.buffer j).valid ≡ false)
      → c.disk dev block ≡ f

module _ (c : Cache) (v : IsValid c) where
  -- A cache whose buffers are as before but for `i`, which has its old key and bytes
  pub found-Holds :
      (c' : Cache) (i d k : ℕ) (f : ℕ → ℕ)
      → c'.buffer i ≡ record (c.buffer i) { count = (c.buffer i).count + 1 }
      → ((j : ℕ) → i ≢ j → c'.buffer j ≡ c.buffer j)
      → c'.made ≡ c.made
      → c'.disk ≡ c.disk
      → Holds c d k f
      → Holds c' d k f
  found-Holds c' i d k f here others made disk o = record {
    cached = λ j l q w.
        subst (λ b. b ≡ f) (sym (same_bytes j))
          (o.cached j (subst (λ n. j < n) made l) (key j q) (sym (same_valid j) ∙ w));
    stored = λ h.
        ap (λ t. t d k) disk
        ∙ o.stored (λ j l q. sym (same_valid j) ∙ h j (subst (λ n. j < n) (sym made) l) (key' j q));
  }
    where
      same_bytes : (j : ℕ) → (c'.buffer j).bytes ≡ (c.buffer j).bytes
      same_bytes j = elim (Bool-cases (i == j)) [
        | inl e ↦
            subst (λ t. (c'.buffer t).bytes ≡ (c.buffer t).bytes) ((==_iff i j).0 e)
              (ap (λ b. b.bytes) here)
        | inr e ↦ ap (λ b. b.bytes) (others j (λ z. absurd (ground (arith, e, z))))
      ]

      same_valid : (j : ℕ) → (c'.buffer j).valid ≡ (c.buffer j).valid
      same_valid j = elim (Bool-cases (i == j)) [
        | inl e ↦
            subst (λ t. (c'.buffer t).valid ≡ (c.buffer t).valid) ((==_iff i j).0 e)
              (ap (λ b. b.valid) here)
        | inr e ↦ ap (λ b. b.valid) (others j (λ z. absurd (ground (arith, e, z))))
      ]

      keys :
          (j : ℕ)
          → ((c'.buffer j).dev ≡ (c.buffer j).dev) × ((c'.buffer j).block ≡ (c.buffer j).block)
      keys j = elim (Bool-cases (i == j)) [
        | inl e ↦
            subst
              (λ t.
                ((c'.buffer t).dev ≡ (c.buffer t).dev) × ((c'.buffer t).block ≡ (c.buffer t).block))
              ((==_iff i j).0 e) (ap (λ b. b.dev) here, ap (λ b. b.block) here)
        | inr e ↦
            let same = others j (λ z. absurd (ground (arith, e, z))) in
            (ap (λ b. b.dev) same, ap (λ b. b.block) same)
      ]

      key : (j : ℕ) → Keyed c' d k j → Keyed c d k j
      key j q = (sym (keys j).0 ∙ q.0, sym (keys j).1 ∙ q.1)

      key' : (j : ℕ) → Keyed c d k j → Keyed c' d k j
      key' j q = ((keys j).0 ∙ q.0, (keys j).1 ∙ q.1)

  -- A buffer that nothing used takes another block: the bytes of its old one are on the disk.
  pub fresh-Holds :
      (c' : Cache) (i d k : ℕ) (f : ℕ → ℕ)
      → (i < c.made → (c.buffer i).count ≡ 0)
      → (c'.buffer i).valid ≡ false
      → ((j : ℕ) → i ≢ j → c'.buffer j ≡ c.buffer j)
      → c.made ≤ c'.made
      → ((j : ℕ) → i ≢ j → j < c'.made → j < c.made)
      → c'.disk ≡ c.disk
      → Holds c d k f
      → Holds c' d k f
  fresh-Holds c' i d k f idle bad others grows fewer disk o = record {
    cached = λ j l q w. elim (Bool-cases (i == j)) [
      | inl e ↦
          absurd (cc (sym w ∙ subst (λ t. (c'.buffer t).valid ≡ false) ((==_iff i j).0 e) bad))
      | inr e ↦
          let ne = λ (z : i ≡ j). absurd {A = ⊥} (ground (arith, e, z)) in
          let same = others j ne in
          ap (λ b. b.bytes) same
          ∙ o.cached j (fewer j ne l) (subst (λ b. (b.dev ≡ d) × (b.block ≡ k)) same q)
              (sym (ap (λ b. b.valid) same) ∙ w)
    ];
    stored = λ h. ap (λ t. t d k) disk ∙ on_disk h;
  }
    where
      invalid :
          (ltb i c.made
              && (((c.buffer i).dev == d && (c.buffer i).block == k) && (c.buffer i).valid))
            ≡ false
          → i < c.made
          → Keyed c d k i
          → (c.buffer i).valid ≡ false
      invalid t l q = ground (arith, t, l, q)

      on_disk :
          ((j : ℕ) → j < c'.made → Keyed c' d k j → (c'.buffer j).valid ≡ false) → c.disk d k ≡ f
      on_disk h =
          let b = c.buffer i in
          let old = ltb i c.made && ((b.dev == d && b.block == k) && b.valid) in
          elim (Bool-cases old) [
            | inl t ↦
                let l : i < c.made = ground (arith, t) in
                let q : Keyed c d k i = ground (arith, t) in
                let w : b.valid ≡ true = ground (arith, t) in
                let held = (v.kept i l).coherent w ((v.kept i l).clean (idle l)) in
                ap (λ e. c.disk e k) (sym q.0)
                ∙ (ap (c.disk b.dev) (sym q.1) ∙ (sym held ∙ o.cached i l q w))
            | inr t ↦ o.stored λ j l q. elim (Bool-cases (i == j)) [
              | inl e ↦
                  subst (λ n. (c.buffer n).valid ≡ false) ((==_iff i j).0 e)
                    (invalid t (subst (λ n. n < c.made) (sym ((==_iff i j).0 e)) l)
                      (subst (Keyed c d k) (sym ((==_iff i j).0 e)) q))
              | inr e ↦
                  let same = others j (λ z. absurd (ground (arith, e, z))) in
                  sym (ap (λ b. b.valid) same)
                  ∙ h j (omega (arith, l, grows))
                      (subst (λ b. (b.dev ≡ d) × (b.block ≡ k)) (sym same) q)
            ]
          ]

module _ (c : Cache) (i : ℕ) (v : IsValid c) (lt : i < c.made)
    (bad : (c.buffer i).valid ≡ false) where
  pub read_block-IsValid : IsValid (read_block c i)
  read_block-IsValid = record {
    hashed = λ j k. ground (arith, v.hashed j k, ==_iff i j);
    free = λ j. ground (arith, v.free j, ==_iff i j);
    unique = λ j k lj lk same. v.unique j k lj lk (ground (arith, same, ==_iff i j, ==_iff i k));
    kept = λ j l. elim (Bool-cases (i == j)) [
      | inl e ↦ rw e record { clean = λ z. refl; coherent = λ t z. refl }
      | inr e ↦ rw e (v.kept j l)
    ];
  }

  pub read_block-Holds : (d k : ℕ) (f : ℕ → ℕ) → Holds c d k f → Holds (read_block c i) d k f
  read_block-Holds d k f o = record {
    cached = λ j l q w. elim (Bool-cases (i == j)) [
      | inl e ↦ here j e q
      | inr e ↦ rw e (o.cached j l (ground (arith, q, e)) (ground (arith, w, e)))
    ];
    stored = λ h. o.stored λ j l q. elim (Bool-cases (i == j)) [
      | inl e ↦ subst (λ n. (c.buffer n).valid ≡ false) ((==_iff i j).0 e) bad
      | inr e ↦ ground (arith, h j l (ground (arith, q, e)), e)
    ];
  }
    where
      here :
          (j : ℕ)
          → (i == j) ≡ true
          → Keyed (read_block c i) d k j
          → ((read_block c i).buffer j).bytes ≡ f
      here j e q =
          let own : Keyed c d k i = ground (arith, q, e) in
          let only = o.stored λ m l p.
            let same = v.unique m i l lt (p.0 ∙ sym own.0, p.1 ∙ sym own.1) in
            subst (λ n. (c.buffer n).valid ≡ false) (sym same) bad in
          rw e (ap (λ n. c.disk n (c.buffer i).block) own.0 ∙ (ap (c.disk d) own.1 ∙ only))
