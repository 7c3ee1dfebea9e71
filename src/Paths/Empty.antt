-- ===== src/Paths/Empty.antt =====
-- The test of `sys_rmdir` in src/fs/namei.c for an empty directory.
use Prim.Native.Nat.{bit_and}
use light_os.Paths.Entries.{Entry}
use light_os.Paths.Calls.{check_dir, clean, isvtx}
use light_os.Blocks.{eof}
use light_os.Inodes.{Task, Fs, desc_of, size_of}
use light_os.Inodes.Truncate.{is_dir}
use light_os.Blocks
use light_os.Blocks.{bmap, total_blocks}
use light_os.Blocks.Lookup.{lookup, bmap-lookup}
use light_os.Paths.Entries.{blocks_of, half_word, count_entries, is_dir_empty}
use light_os.Paths.Search.{nr_at, offset_of}
use light_os.Base.{
  ℕ, zero, suc, ◌+◌, ◌-◌, ◌*◌, ◌/◌, ◌≤◌, ◌≡◌, ◌≢◌, refl, ap, inl, inr, Bool, true, false, not, ◌&&◌,
  ◌||◌, some, get_or, ltb, ◌==◌, if◌then◌else◌, Bool-cases, ==_ne, arith,
}

-- How many of `n` numbers from `i` on pass a test
abbrev count_from : (ℕ → Bool) → (n i : ℕ) → ℕ
count_from p zero i = 0
count_from p (suc n) i = (if p i then 1 else 0) + count_from p n (i + 1)

count_from-add :
    (p : ℕ → Bool) (a b i : ℕ) → count_from p (a + b) i ≡ count_from p a i + count_from p b (i + a)
count_from-add p zero b i =
    let e : 0 + b ≡ b = omega arith in let f : i + 0 ≡ i = omega arith in rw (e, f) (omega arith)
count_from-add p (suc a) b i =
    let e : suc a + b ≡ suc (a + b) = omega arith in
    let f : i + suc a ≡ (i + 1) + a = omega arith in
    rw (e, f) (omega (arith, count_from-add p a b (i + 1)))

in_use : (ℕ → ℕ) → ℕ → Bool
in_use f i = not (half_word f (offset_of i) == 0)

module _ (data_of : ℕ → ℕ → ℕ) (inode : Blocks.Inode) (there : lookup inode 0 ≢ 0) where
  count_entries-count :
      (n i : ℕ)
      → count_entries data_of inode n i ≡ some (count_from (in_use (data_of (lookup inode 0))) n i)
  unfolding count_entries in_use
  count_entries-count zero i = refl
  count_entries-count (suc n) i =
      rw
        (
          bmap-lookup inode 0 false (omega arith) (inl refl),
          ==_ne (lookup inode 0) 0 there,
          count_entries-count n (i + 1),
        )
        (ground arith)

  -- Each block of the directory is counted as the first one.
  count_from-twice :
      (k : ℕ)
      → in_use (data_of (lookup inode 0)) 0 ≡ true
      → in_use (data_of (lookup inode 0)) 1 ≡ true
      → 4 ≤ count_from (in_use (data_of (lookup inode 0))) (66 + k) 0
  unfolding in_use
  count_from-twice k a b =
      let p = in_use (data_of (lookup inode 0)) in
      let e : 66 + k ≡ 2 + (62 + (2 + k)) = omega arith in
      let two : count_from p 2 0 ≡ 2 = ground (arith, a, b) in
      let again : count_from p 2 64 ≡ 2 = ground (arith, a, b) in
      rw e (
        omega (
          arith,
          count_from-add p 2 (62 + (2 + k)) 0,
          count_from-add p 62 (2 + k) 2,
          count_from-add p 2 k 64,
          two,
          again,
        ))

never_empty :
    (fs : Fs) (i : ℕ)
    → is_dir (desc_of fs i).mode ≡ true
    → 66 * 16 ≤ size_of fs i
    → lookup (blocks_of fs i) 0 ≢ 0
    → nr_at (fs.bytes (fs.table i).dev) (blocks_of fs i) 0 ≢ 0
    → nr_at (fs.bytes (fs.table i).dev) (blocks_of fs i) 1 ≢ 0
    → is_dir_empty fs i ≡ some false
unfolding is_dir_empty in_use
never_empty fs i d large there one two =
    let data_of = fs.bytes (fs.table i).dev in
    let inode = blocks_of fs i in
    let n = size_of fs i / 16 in
    let p = in_use (data_of (lookup inode 0)) in
    let k = n - 66 in
    let e : n ≡ 66 + k = omega (arith, large) in
    let more =
      count_from-twice data_of inode there k (rw (==_ne _ 0 one) refl) (rw (==_ne _ 0 two) refl) in
    let many : (count_from p n 0 == 2) ≡ false =
      ==_ne (count_from p n 0) 2
        (λ z. absurd (omega (arith, more, ap (λ t. count_from p t 0) e, z))) in
    elim (Bool-cases (ltb n 2 || (get_or inode.zone 0 0 == 0))) [
      | inl t ↦ rw (d, t) refl
      | inr t ↦ rw (d, t, count_entries-count data_of inode there n 0, many) refl
    ]

-- A directory that has had 66 entries or more is never empty for `is_dir_empty`, even if all but the
-- first two are free: each of its blocks is counted as the first one. So the checks of `sys_rmdir`
-- refuse to remove it, whatever the task, give its inode and its parent back, and change nothing else.
-- It has its first block, its first two entries are in use, and it is not its own parent.
pub is_dir_empty_grown :
    (fs : Fs) (i : ℕ)
    → is_dir (desc_of fs i).mode ≡ true
    → 66 * 16 ≤ size_of fs i
    → lookup (blocks_of fs i) 0 ≢ 0
    → nr_at (fs.bytes (fs.table i).dev) (blocks_of fs i) 0 ≢ 0
    → nr_at (fs.bytes (fs.table i).dev) (blocks_of fs i) 1 ≢ 0
    → (is_dir_empty fs i ≡ some false)
      × ((task : Task) (dir : ℕ) (entry : Entry)
          → i ≢ dir
          → check_dir fs task dir i entry ≡ clean fs (some i) (some dir) eof)
is_dir_empty_grown fs i d large there one two =
    let never = never_empty fs i d large there one two in
    (never, λ task dir entry ne. refused task dir entry ne never)
  where
    refused :
        (task : Task) (dir : ℕ) (entry : Entry)
        → i ≢ dir
        → is_dir_empty fs i ≡ some false
        → check_dir fs task dir i entry ≡ clean fs (some i) (some dir) eof
    refused task dir entry ne never =
        let sticky = not (bit_and (desc_of fs dir).mode isvtx == 0) in
        let others = sticky && not (task.uid == (desc_of fs i).uid) in
        let busy = not ((fs.table dir).dev == (fs.table i).dev) || ltb 1 (fs.table i).count in
        elim (Bool-cases (not (is_dir (desc_of fs i).mode) || others || busy)) [
          | inl t ↦ rw (==_ne i dir ne, t) refl
          | inr t ↦ rw (==_ne i dir ne, t, never) refl
        ]
