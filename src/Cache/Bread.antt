-- ===== src/Cache/Bread.antt =====
-- `bread` of src/kernel/cache.c: the buffer that it gives has the bytes of the block.
use light_os.Cache.{Cache, read_block, fill, bread}
use light_os.Cache.Valid.{IsValid}
use light_os.Cache.Search.{Keyed}
use light_os.Cache.Get.{Got, waits, found, fresh, getblk-Got}
use light_os.Cache.Content.{Holds, found-Holds, fresh-Holds, read_block-IsValid, read_block-Holds}
use mathlib.Core.Path.{subst}
use light_os.Base.{
  ℕ, ◌<◌, ◌≡◌, ◌≢◌, refl, sym, ap, ◌∙◌, inl, inr, true, Option, none, some, Bool-cases, ==_iff, ◌+◌,
  ◌==◌, ==_refl,
}

-- One reference more than before: to the buffer that had the block, or to one that was not in use, if
-- none had it. The other buffers keep their references.
pub data Referred (c : Cache) (dev block i : ℕ) (c' : Cache) : Type 0 where
  again :
      i < c.made
      → Keyed c dev block i
      → (c'.buffer i).count ≡ (c.buffer i).count + 1
      → ((j : ℕ) → i ≢ j → (c'.buffer j).count ≡ (c.buffer j).count)
      → Referred c dev block i c'
  anew :
      ((j : ℕ) → j < c.made → ¬ Keyed c dev block j)
      → (i < c.made → (c.buffer i).count ≡ 0)
      → (c'.buffer i).count ≡ 1
      → ((j : ℕ) → i ≢ j → (c'.buffer j).count ≡ (c.buffer j).count)
      → Referred c dev block i c'

count-read_block : (c : Cache) (i j : ℕ) → ((read_block c i).buffer j).count ≡ (c.buffer j).count
count-read_block c i j = elim (Bool-cases (i == j)) [
  | inl e ↦ rw e (ap (λ k. (c.buffer k).count) ((==_iff i j).0 e))
  | inr e ↦ rw e refl
]

read_block-Referred :
    (c c1 : Cache) (dev block i : ℕ)
    → Referred c dev block i c1
    → Referred c dev block i (read_block c1 i)
read_block-Referred c c1 dev block i (again l k n f) =
    again l k (count-read_block c1 i i ∙ n) (λ j d. count-read_block c1 i j ∙ f j d)
read_block-Referred c c1 dev block i (anew k z n f) =
    anew k z (count-read_block c1 i i ∙ n) (λ j d. count-read_block c1 i j ∙ f j d)

-- The outcomes of `bread`: the task waits, or it has the buffer of the block, with its bytes, and every
-- block has the bytes that it had.
pub data Read (c : Cache) (dev block : ℕ) : Option ℕ × Cache → Type 0 where
  waiting :
      c.spare ≡ 0
      → ((j : ℕ) → j < c.made → (c.buffer j).count ≢ 0)
      → ((j : ℕ) → j < c.made → ¬ Keyed c dev block j)
      → Read c dev block (none, c)
  read :
      {i : ℕ} {c' : Cache}
      → IsValid c'
      → i < c'.made
      → Keyed c' dev block i
      → Referred c dev block i c'
      → (c'.buffer i).valid ≡ true
      → ((f : ℕ → ℕ) → Holds c dev block f → (c'.buffer i).bytes ≡ f)
      → ((d k : ℕ) (f : ℕ → ℕ) → Holds c d k f → Holds c' d k f)
      → Read c dev block (some i, c')

filled-Read :
    (c c1 : Cache) (dev block i : ℕ)
    → IsValid c1
    → i < c1.made
    → Keyed c1 dev block i
    → Referred c dev block i c1
    → ((d k : ℕ) (f : ℕ → ℕ) → Holds c d k f → Holds c1 d k f)
    → Read c dev block (fill (some i, c1))
filled-Read c c1 dev block i v lt q one keep = elim (Bool-cases (c1.buffer i).valid) [
  | inl t ↦ rw t (read v lt q one t (λ f o. (keep dev block f o).cached i lt q t) keep)
  | inr t ↦
      let keep' = λ (d k : ℕ) (f : ℕ → ℕ) (o : Holds c d k f).
        read_block-Holds c1 i v lt t d k f (keep d k f o) in
      let q' : Keyed (read_block c1 i) dev block i = rw (==_refl i) q in
      rw t (
        read (read_block-IsValid c1 i v lt t) lt q' (read_block-Referred c c1 dev block i one)
          (rw (==_refl i) refl) (λ f o. (keep' dev block f o).cached i lt q' (rw (==_refl i) refl))
          keep')
]

-- `bread` of a block of a device meets no assertion, on a valid cache. If every buffer is in use and no
-- more can be made, and none has the block, the task waits. Otherwise it takes one reference to the
-- buffer of the block, which had it before or was not in use, and no other; the buffer has the bytes of the block, whether they come from a buffer or from the disk; the
-- cache stays valid, and no block, that of a buffer taken over included, loses or changes its bytes.
pub bread-Read :
    (c : Cache) (dev block : ℕ)
    → IsValid c
    → (r : Option ℕ × Cache) × (bread c dev block ≡ some r) × Read c dev block r
unfolding bread
bread-Read c dev block v =
    let (r, e, got) = getblk-Got c dev block v in (fill r, rw e refl, filled r got)
  where
    filled : (r : Option ℕ × Cache) → Got c dev block r → Read c dev block (fill r)
    filled _ (waits s a n) = waiting s a n
    filled _ (found {i} {c'} lt k v' here others made disk) =
        filled-Read c c' dev block i v' (subst (λ n. i < n) (sym made) lt)
          (ap (λ b. b.dev) here ∙ k.0, ap (λ b. b.block) here ∙ k.1)
          (again lt k (ap (λ b. b.count) here) (λ j d. ap (λ b. b.count) (others j d)))
          (λ d b f o. found-Holds c v c' i d b f here others made disk o)
    filled _ (fresh {i} {c'} n idle v' k one bad others lt grows fewer disk) =
        filled-Read c c' dev block i v' lt k
          (anew n idle one (λ j d. ap (λ b. b.count) (others j d)))
          (λ d b f o. fresh-Holds c v c' i d b f idle bad others grows fewer disk o)
