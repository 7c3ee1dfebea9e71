-- ===== src/Cache/Change.antt =====
-- A change of one buffer of the cache of src/kernel/cache.c, which keeps its block and its bytes.
use light_os.Cache.{Buffer, Cache, hash, set_buffer}
use light_os.Cache.Lists.{mem}
use light_os.Cache.Valid.{Kept, IsValid}
use light_os.Cache.Search.{Keyed}
use light_os.Cache.Content.{Holds}
use mathlib.Core.Path.{subst}
use light_os.Base.{
  ℕ, ◌<◌, ◌≡◌, ◌≢◌, refl, sym, ap, ◌∙◌, inl, inr, true, ◌&&◌, List, ltb, ◌==◌, Bool-cases, ==_iff,
  ==_refl, arith,
}

module _ (c : Cache) (i : ℕ) (v : IsValid c) (lt : i < c.made)
    (ok : (c.buffer i).valid ≡ true) where
  -- The cache with another state of buffer `i`, another free list and other bytes on the disk
  abbrev pub changed : Buffer → List ℕ → (ℕ → ℕ → ℕ → ℕ) → Cache
  changed b free_list disk = record (set_buffer c i b) { free_list = free_list; disk = disk }

  -- The buffer has its block and its bytes, and is valid; only its own block may change on the disk.
  pub record Keeps (b : Buffer) (disk : ℕ → ℕ → ℕ → ℕ) : Type 0 where
    pub dev : b.dev ≡ (c.buffer i).dev
    pub block : b.block ≡ (c.buffer i).block
    pub bytes : b.bytes ≡ (c.buffer i).bytes
    pub valid : b.valid ≡ true
    pub elsewhere : (d k : ℕ) → ¬ Keyed c d k i → disk d k ≡ c.disk d k
    pub kept : Kept disk b

  module _ (b : Buffer) (free_list : List ℕ) (disk : ℕ → ℕ → ℕ → ℕ) (s : Keeps b disk) where
    same_key :
        (j : ℕ)
        → (((set_buffer c i b).buffer j).dev ≡ (c.buffer j).dev)
          × (((set_buffer c i b).buffer j).block ≡ (c.buffer j).block)
    same_key j = elim (Bool-cases (i == j)) [
      | inl e ↦
          subst
            (λ n.
              (((set_buffer c i b).buffer n).dev ≡ (c.buffer n).dev)
              × (((set_buffer c i b).buffer n).block ≡ (c.buffer n).block))
            ((==_iff i j).0 e) (rw (==_refl i) (s.dev, s.block))
      | inr e ↦ rw e (refl, refl)
    ]

    -- Another buffer has another block, so its bytes on the disk are as before.
    kept_other : (j : ℕ) → i ≢ j → j < c.made → Kept disk (c.buffer j)
    kept_other j d l = record {
      clean = (v.kept j l).clean;
      coherent = λ t z.
          (v.kept j l).coherent t z
          ∙ sym (s.elsewhere (c.buffer j).dev (c.buffer j).block (λ q. d (v.unique i j lt l q)));
    }

    pub changed-IsValid :
        ((j : ℕ) → mem j free_list ≡ (ltb j c.made && (((set_buffer c i b).buffer j).count == 0)))
        → IsValid (changed b free_list disk)
    changed-IsValid free = record {
      hashed = λ j h.
          subst (λ n. mem j (c.hash_table h) ≡ (ltb j c.made && n == h))
            (sym (
              ap (λ d. hash d ((set_buffer c i b).buffer j).block) (same_key j).0
              ∙ ap (hash (c.buffer j).dev) (same_key j).1))
            (v.hashed j h);
      free = free;
      unique = λ j k lj lk same. v.unique j k lj lk (
        sym (same_key j).0 ∙ (same.0 ∙ (same_key k).0),
        sym (same_key j).1 ∙ (same.1 ∙ (same_key k).1),
      );
      kept = λ j l. elim (Bool-cases (i == j)) [
        | inl e ↦ rw e s.kept
        | inr e ↦ rw e (kept_other j (λ z. absurd (ground (arith, e, z))) l)
      ];
    }

    pub changed-Holds :
        (d k : ℕ) (f : ℕ → ℕ) → Holds c d k f → Holds (changed b free_list disk) d k f
    changed-Holds d k f o = record {
      cached = λ j l q w.
          let q' : Keyed c d k j = (sym (same_key j).0 ∙ q.0, sym (same_key j).1 ∙ q.1) in
          elim (Bool-cases (i == j)) [
            | inl e ↦
                rw e (s.bytes ∙ o.cached i lt (subst (Keyed c d k) (sym ((==_iff i j).0 e)) q') ok)
            | inr e ↦ rw e (o.cached j l q' (ground (arith, w, e)))
          ];
      stored = λ h.
          let out : ¬ Keyed c d k i = λ q.
            let bad = h i lt ((same_key i).0 ∙ q.0, (same_key i).1 ∙ q.1) in
            ground (arith, bad, ==_refl i, s.valid) in
          s.elsewhere d k out
          ∙ o.stored (λ j l q.
            let bad = h j l ((same_key j).0 ∙ q.0, (same_key j).1 ∙ q.1) in
            elim (Bool-cases (i == j)) [
              | inl e ↦ absurd (out (subst (Keyed c d k) (sym ((==_iff i j).0 e)) q))
              | inr e ↦ ground (arith, bad, e)
            ]);
    }
