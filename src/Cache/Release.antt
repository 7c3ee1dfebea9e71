-- ===== src/Cache/Release.antt =====
-- `brelse` of src/kernel/cache.c: the last reference writes the buffer and frees it.
use light_os.Cache.{Buffer, Cache, set_buffer, write_block, bwrite, brelse}
use light_os.Cache.Lists.{mem, mem-cons}
use light_os.Cache.Valid.{IsValid}
use light_os.Cache.Content.{Holds}
use light_os.Cache.Change.{changed, Keeps, changed-IsValid, changed-Holds}
use mathlib.Core.Path.{subst, fun_ext}
use light_os.Base.{
  ℕ, ◌+◌, ◌-◌, ◌<◌, ◌≤◌, ◌≡◌, refl, sym, ap, inl, inr, true, false, ◌&&◌, some, ◌∷◌, ltb, ◌==◌,
  le→leb, Bool-cases, ==_iff, ==_refl, arith,
}

-- What a released reference leaves: the cache is valid, every block has the bytes that it had, and the
-- buffer has one reference less, and its bytes are on the disk and it is free if that was the last.
pub record Released (c : Cache) (i : ℕ) (c' : Cache) : Type 0 where
  pub valid : IsValid c'
  pub keeps : (d k : ℕ) (f : ℕ → ℕ) → Holds c d k f → Holds c' d k f
  pub less : (c'.buffer i).count + 1 ≡ (c.buffer i).count
  pub stored :
      (c.buffer i).count ≡ 1 → c'.disk (c.buffer i).dev (c.buffer i).block ≡ (c.buffer i).bytes
  pub listed : (c.buffer i).count ≡ 1 → mem i c'.free_list ≡ true

module _ (c : Cache) (i : ℕ) (v : IsValid c) (lt : i < c.made) (ok : (c.buffer i).valid ≡ true)
    (held : 1 ≤ (c.buffer i).count) where
  abbrev counted : Buffer
  counted = record (c.buffer i) { count = (c.buffer i).count - 1 }

  -- The reference was not the last: the buffer stays out of the list of the free ones.
  shared-Released : ((c.buffer i).count == 1) ≡ false → Released c i (set_buffer c i counted)
  shared-Released n =
      let s : Keeps c i v lt ok counted c.disk = record {
        dev = refl;
        block = refl;
        bytes = refl;
        valid = ok;
        elsewhere = λ d k q. refl;
        kept = record {
          clean = λ z. absurd (ground (arith, z, n, held));
          coherent = (v.kept i lt).coherent;
        };
      } in
      record {
        valid =
            changed-IsValid c i v lt ok counted c.free_list c.disk s
              (λ j. ground (arith, v.free j, v.free i, ==_iff i j, held, n, lt));
        keeps = changed-Holds c i v lt ok counted c.free_list c.disk s;
        less = rw (==_refl i) (omega (arith, held));
        stored = λ z. absurd (ground (arith, z, n));
        listed = λ z. absurd (ground (arith, z, n));
      }

  module _ (one : (c.buffer i).count ≡ 1) where
    abbrev freed : Cache
    freed = record (set_buffer c i counted) { free_list = i ∷ c.free_list }

    freed_list :
        (b : Buffer) (j : ℕ)
        → b.count ≡ 0
        → mem j (i ∷ c.free_list) ≡ (ltb j c.made && (((set_buffer c i b).buffer j).count == 0))
    freed_list b j z = ground (arith, mem-cons j i c.free_list, v.free j, ==_iff i j, one, lt, z)

    -- The last reference to a buffer that has been written
    clean-Released : (c.buffer i).dirty ≡ false → Released c i freed
    clean-Released d =
        let s : Keeps c i v lt ok counted c.disk = record {
          dev = refl;
          block = refl;
          bytes = refl;
          valid = ok;
          elsewhere = λ d k q. refl;
          kept = record { clean = λ z. d; coherent = (v.kept i lt).coherent };
        } in
        record {
          valid =
              changed-IsValid c i v lt ok counted (i ∷ c.free_list) c.disk s
                (λ j. freed_list counted j (omega (arith, one)));
          keeps = changed-Holds c i v lt ok counted (i ∷ c.free_list) c.disk s;
          less = rw (==_refl i) (omega (arith, held));
          stored = λ z. sym ((v.kept i lt).coherent ok d);
          listed = λ z. rw (mem-cons i i c.free_list, ==_refl i) refl;
        }

    abbrev written : Buffer
    written = record counted { dirty = false; valid = true }

    write_block_freed :
        changed c i v lt ok written (i ∷ c.free_list) (write_block freed i).disk
        ≡ write_block freed i
    write_block_freed =
        ap (λ (f : ℕ → Buffer). record (write_block freed i) { buffer = f }) (fun_ext same)
      where
        same : (j : ℕ) → (set_buffer c i written).buffer j ≡ (write_block freed i).buffer j
        same j = elim (Bool-cases (i == j)) [ inl e ↦ rw (e, ==_refl i) refl | inr e ↦ rw e refl ]

    -- The last reference to a buffer that has not
    dirty-Released : Released c i (write_block freed i)
    dirty-Released =
        let own = (c.buffer i).dev in
        let s : Keeps c i v lt ok written (write_block freed i).disk = record {
          dev = refl;
          block = refl;
          bytes = refl;
          valid = refl;
          elsewhere = λ d k q.
              let out : ((c.buffer i).dev == d && (c.buffer i).block == k) ≡ false =
                ground (arith, q) in
              rw (==_refl i, out) refl;
          kept = record {
            clean = λ z. refl;
            coherent =
                λ t z. rw (==_refl i, ==_refl (c.buffer i).dev, ==_refl (c.buffer i).block) refl;
          };
        } in
        subst (Released c i) write_block_freed record {
          valid =
              changed-IsValid c i v lt ok written (i ∷ c.free_list) (write_block freed i).disk s
                (λ j. freed_list written j (omega (arith, one)));
          keeps = changed-Holds c i v lt ok written (i ∷ c.free_list) (write_block freed i).disk s;
          less = rw (==_refl i) (omega (arith, held));
          stored = λ z. rw (==_refl i, ==_refl (c.buffer i).dev, ==_refl (c.buffer i).block) refl;
          listed = λ z. rw (mem-cons i i c.free_list, ==_refl i) refl;
        }

-- `brelse` of a buffer that is in use and valid meets no assertion, on a valid cache. The cache stays
-- valid, no block loses or changes its bytes, and the buffer has one reference less. If that was the
-- last, the buffer is in the list of the free ones, and the disk has its bytes.
pub brelse-Released :
    (c : Cache) (i : ℕ)
    → IsValid c
    → i < c.made
    → (c.buffer i).valid ≡ true
    → 1 ≤ (c.buffer i).count
    → (c' : Cache) × (brelse c i ≡ some c') × Released c i c'
unfolding brelse bwrite
brelse-Released c i v lt ok held =
    let leb_held = le→leb 1 (c.buffer i).count held in
    elim (Bool-cases ((c.buffer i).count == 1)) [
      | inr n ↦ (
        set_buffer c i (counted c i v lt ok held),
        rw (leb_held, n) refl,
        shared-Released c i v lt ok held n,
      )
      | inl e ↦
          let one = (==_iff (c.buffer i).count 1).0 e in
          let out : mem i c.free_list ≡ false = ground (arith, v.free i, one) in
          elim (Bool-cases (c.buffer i).dirty) [
            | inl d ↦ (
              write_block (freed c i v lt ok held one) i,
              rw (leb_held, e, out, ==_refl i, d) refl,
              dirty-Released c i v lt ok held one,
            )
            | inr d ↦ (
              freed c i v lt ok held one,
              rw (leb_held, e, out, ==_refl i, d) refl,
              clean-Released c i v lt ok held one d,
            )
          ]
    ]
