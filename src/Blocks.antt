-- ===== src/Blocks.antt =====
-- src/fs/bmap.c: the maps of a file system's blocks and inodes, and where the blocks of a file are. A
-- buffer of the block cache is the content of its block, as src/kernel/cache.c keeps one buffer for a
-- block; the counts of the buffers are left out. `none` is a failed assertion.
pub mod Lookup
pub mod Alloc
pub mod Read
mod Tests
use light_os.Bitmap
use light_os.Bitmap.{Bitmap}
use light_os.Base.{
  ℕ, zero, suc, ◌+◌, ◌-◌, ◌*◌, ◌/◌, ◌%◌, ◌^◌, Bool, true, false, ◌&&◌, Option, none, some, List, [],
  ◌∷◌, get_elem?, get_or, ltb, ◌==◌, if◌then◌else◌, ◌>>=◌, ◌>>◌, assert,
}
use light_os.Base

-- `BLOCK_SIZE`, `BLOCK_BITS`, `DIRECT_BLOCKS`, `BLOCK_INDEXES`, `TOTAL_BLOCKS`
abbrev pub block_size : ℕ
block_size = 1024

abbrev pub block_bits : ℕ
block_bits = 8192

abbrev pub direct_blocks : ℕ
direct_blocks = 7

abbrev pub block_indexes : ℕ
block_indexes = 512

abbrev pub total_blocks : ℕ
total_blocks = 262663

-- `EOF` as an unsigned word
abbrev pub eof : ℕ
eof = 4294967295

-- What of the super block and of the blocks of its device is used: the buffers of both maps, and the
-- entries of each block of indexes.
pub record Volume : Type 0 where
  pub zones : ℕ
  pub firstdatazone : ℕ
  pub zmaps : List (List ℕ)
  pub imaps : List (List ℕ)
  pub index : ℕ → List ℕ

-- A bit that is found ends the loop.
abbrev pub found_in :
    (limit : ℕ)
    → List (List ℕ)
    → Option (Option ℕ × List (List ℕ))
    → Option ℕ
    → Option (Option ℕ × List (List ℕ))
found_in limit maps later none = later
found_in limit maps later (some bit) = assert (ltb bit limit) >> some (some bit, maps)

-- The loop of `balloc` and `ialloc` over the blocks of a map from number `i` on. `first` is the index
-- of the first bit, and every bit that is found is below `limit`.
unfoldable pub scan_maps : (limit first i : ℕ) → List (List ℕ) → Option (Option ℕ × List (List ℕ))
scan_maps limit first i [] = some (none, [])
scan_maps limit first i (bits ∷ maps) = do
  r ← Bitmap.scan (Bitmap.make bits block_size (first + i * block_bits)) 1
  let later = scan_maps limit first (i + 1) maps >>= λ q. some (q.0, r.1.bits ∷ q.1)
  found_in limit (r.1.bits ∷ maps) later r.0

abbrev pub or_eof : Option ℕ → ℕ
or_eof none = eof
or_eof (some bit) = bit

unfoldable pub balloc : Volume → Option (ℕ × Volume)
balloc vol = do
  r ← scan_maps vol.zones (vol.firstdatazone - 1) 0 vol.zmaps
  some (or_eof r.0, record vol { zmaps = r.1 })

-- The number of inodes is an argument, as only this function reads it.
unfoldable pub ialloc : Volume → (inodes : ℕ) → Option (ℕ × Volume)
ialloc vol inodes = do
  r ← scan_maps inodes 0 0 vol.imaps
  some (or_eof r.0, record vol { imaps = r.1 })

-- The end of `bfree` and `ifree`: the bit of `idx` in the block `n` of a map is cleared.
unfoldable pub clear_bit : List (List ℕ) → (first n idx : ℕ) → Option (List (List ℕ))
clear_bit maps first n idx = do
  bits ← get_elem? maps n
  let map = Bitmap.make bits block_size (first + n * block_bits)
  used ← Bitmap.test map idx
  assert used
  map' ← Bitmap.set map idx false
  some (Base.set maps n map'.bits)

unfoldable pub bfree : Volume → (idx : ℕ) → Option Volume
bfree vol idx = do
  assert (ltb idx vol.zones)
  let first = vol.firstdatazone - 1
  maps ← clear_bit vol.zmaps first ((idx - first) / block_bits) idx
  some (record vol { zmaps = maps })

-- The number of the inode is compared with the number of zones.
unfoldable pub ifree : Volume → (idx : ℕ) → Option Volume
ifree vol idx = do
  assert (ltb idx vol.zones)
  maps ← clear_bit vol.imaps 0 (idx / block_bits) idx
  some (record vol { imaps = maps })

-- An inode's own indexes, `zone`, with the volume.
pub record Inode : Type 0 where
  pub volume : Volume
  pub zone : List ℕ

-- An array of indexes: that of the inode, or the one in a block.
abbrev pub array_of : Inode → Option ℕ → List ℕ
array_of inode none = inode.zone
array_of inode (some b) = inode.volume.index b

abbrev pub with_volume : Inode → Volume → Inode
with_volume inode vol = record inode { volume = vol }

abbrev pub update : (ℕ → List ℕ) → ℕ → List ℕ → ℕ → List ℕ
update f b xs q = if b == q then xs else f q

abbrev pub with_index : Volume → (ℕ → List ℕ) → Volume
with_index vol f = record vol { index = f }

abbrev pub store_entry : Inode → Option ℕ → (i v : ℕ) → Inode
store_entry inode none i v = record inode { zone = Base.set inode.zone i v }
store_entry inode (some b) i v =
    let vol = inode.volume in
    with_volume inode (with_index vol (update vol.index b (Base.set (vol.index b) i v)))

-- A missing entry of an array is allocated if `create` says so; an entry has 16 bits.
unfoldable pub entry : Inode → Option ℕ → (i : ℕ) → (create : Bool) → Option (ℕ × Inode)
entry inode at i create =
    let e = get_or (array_of inode at) i 0 in
    let fresh = balloc inode.volume >>= λ r.
    some (r.0 % 2 ^ 16, store_entry (with_volume inode r.1) at i (r.0 % 2 ^ 16)) in
    if e == 0 && create then fresh else some (e, inode)

-- The loop at `reckon`, from a level down to level 0.
unfoldable pub reckon :
    (level : ℕ)
    → Inode
    → Option ℕ
    → (index block divider : ℕ) → (create : Bool) → Option (ℕ × Inode)
reckon zero inode at index block divider create = entry inode at index create
reckon (suc level) inode at index block divider create = do
  r ← entry inode at index create
  let below =
        reckon level r.1 (some r.0) (block / divider % 2 ^ 16) (block % divider)
          (divider / block_indexes) create in
      if r.0 == 0 then some r else below

unfoldable pub bmap : Inode → (block : ℕ) → (create : Bool) → Option (ℕ × Inode)
bmap inode block create = do
  assert (ltb block total_blocks)
  let direct = reckon 0 inode none (block % 2 ^ 16) block 1 create
  let block1 = block - direct_blocks
  let once = reckon 1 inode none direct_blocks block1 1 create
  let block2 = block1 - block_indexes
  let twice = reckon 2 inode none (direct_blocks + 1) block2 block_indexes create
  let indirect = if ltb block1 block_indexes then once else twice in
      if ltb block direct_blocks then direct else indirect
