-- ===== src/Inodes/Truncate.antt =====
-- `inode_truncate` of src/fs/inode.c: all blocks of a file are freed.
use light_os.Inodes.{Fs, update, update₂, desc_of, set_size}
use light_os.Blocks.{Volume, bfree, direct_blocks}
use Prim.Native.Nat.{bit_and}
use light_os.Base.{
  ℕ, zero, suc, ◌+◌, Bool, ◌||◌, Option, some, List, [], ◌∷◌, get_or, set, ◌==◌, if◌then◌else◌,
  ◌>>=◌,
}

-- `ISDIR` and `ISFILE`, of a mode
abbrev pub is_dir : ℕ → Bool
is_dir mode = bit_and mode 0o170000 == 0o040000

abbrev pub is_file : ℕ → Bool
is_file mode = bit_and mode 0o170000 == 0o100000

-- The entries of an array, one after the other
unfoldable pub free_all : (Volume → ℕ → Option Volume) → Volume → List ℕ → Option Volume
free_all free vol [] = some vol
free_all free vol (e ∷ es) = free vol e >>= λ vol'. free_all free vol' es

-- `inode_bfree` of an entry: at a level above 0 the blocks that it lists, and then the block.
unfoldable pub inode_bfree : (level : ℕ) → Volume → (e : ℕ) → Option Volume
inode_bfree zero vol e = if e == 0 then some vol else bfree vol e
inode_bfree (suc level) vol e =
    let listed = free_all (inode_bfree level) vol (vol.index e) >>= λ vol'. bfree vol' e in
    if e == 0 then some vol else listed

-- The loop over the direct blocks: `rounds` entries from `i` on.
unfoldable pub free_direct : (rounds i : ℕ) → Volume → List ℕ → Option (Volume × List ℕ)
free_direct zero i vol zone = some (vol, zone)
free_direct (suc rounds) i vol zone = do
  vol' ← inode_bfree 0 vol (get_or zone i 0)
  free_direct rounds (i + 1) vol' (set zone i 0)

unfoldable pub free_zone : Volume → List ℕ → Option (Volume × List ℕ)
free_zone vol zone = do
  (vol1, zone1) ← free_direct direct_blocks 0 vol zone
  vol2 ← inode_bfree 1 vol1 (get_or zone1 direct_blocks 0)
  let zone2 = set zone1 direct_blocks 0
  vol3 ← inode_bfree 2 vol2 (get_or zone2 (direct_blocks + 1) 0)
  some (vol3, set zone2 (direct_blocks + 1) 0)

unfoldable pub inode_truncate : Fs → (i : ℕ) → Option Fs
inode_truncate fs i =
    let dev = (fs.table i).dev in
    let nr = (fs.table i).nr in
    let mode = (desc_of fs i).mode in
    let emptied = free_zone (fs.volume dev) (fs.zone dev nr) >>= λ r.
    let fs' = record fs { volume = update fs.volume dev r.0; zone = update₂ fs.zone dev nr r.1 } in
    some (set_size fs' i 0) in
    if is_dir mode || is_file mode then emptied else some fs
