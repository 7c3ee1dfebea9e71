-- ===== src/Inodes.antt =====
-- src/fs/inode.c: the table of the inodes in memory and the counts of their references. An inode is
-- the index of its slot. `none` is a failed assertion or a panic. The counts of the super blocks and
-- of the block cache, and the times of access, are left out.
pub mod Truncate
pub mod Counts
pub mod Get
use Prim.Native.Nat.{bit_and}
use light_os.Paths
use light_os.Blocks.{Volume, eof, ialloc, ifree}
use light_os.Base.{
  ℕ, zero, suc, ◌+◌, ◌-◌, ◌%◌, ◌^◌, Bool, true, false, not, ◌&&◌, ◌||◌, Option, none, some, List,
  leb, ◌==◌, if◌then◌else◌, ◌>>=◌, ◌>>◌, assert,
}

-- A slot of `inode_table`. The descriptor is that of its device and number.
pub record Inode : Type 0 where
  pub dev : ℕ
  pub nr : ℕ
  pub count : ℕ
  pub mount : ℕ
  pub pipe : Bool

pub record Super : Type 0 where
  pub inodes : ℕ
  pub iroot : ℕ
  pub imount : ℕ

-- What the calls on files share: the table, the super blocks by device, and of each device the maps,
-- the descriptors of its inodes, their sizes and zones, and the bytes of its blocks.
pub record Fs : Type 0 where
  pub table : ℕ → Inode
  pub supers : ℕ → Option Super
  pub volume : ℕ → Volume
  pub desc : ℕ → ℕ → Paths.Inode
  pub size : ℕ → ℕ → ℕ
  pub zone : ℕ → ℕ → List ℕ
  pub bytes : ℕ → ℕ → ℕ → ℕ

abbrev pub update {ℓ} : {A : Type ℓ} → (ℕ → A) → ℕ → A → ℕ → A
update f i v j = if i == j then v else f j

abbrev pub update₂ {ℓ} : {A : Type ℓ} → (ℕ → ℕ → A) → ℕ → ℕ → A → ℕ → ℕ → A
update₂ f d i v e j = if d == e && i == j then v else f e j

-- `INODE_NR`
abbrev pub inode_nr : ℕ
inode_nr = 64

abbrev pub set_inode : Fs → ℕ → Inode → Fs
set_inode fs i inode = record fs { table = update fs.table i inode }

-- `inode->count++` and `inode->count--`
abbrev pub take : Fs → ℕ → Fs
take fs i =
    let inode = fs.table i in set_inode fs i (record inode { count = (inode.count + 1) % 2 ^ 32 })

abbrev pub drop : Fs → ℕ → Fs
drop fs i =
    let inode = fs.table i in
    set_inode fs i (record inode { count = (inode.count + 4294967295) % 2 ^ 32 })

-- The first of `rounds` slots from `i` on that passes a test.
unfoldable pub find_slot : (Inode → Bool) → (ℕ → Inode) → (rounds i : ℕ) → Option ℕ
find_slot p table zero i = none
find_slot p table (suc rounds) i =
    let rest = find_slot p table rounds (i + 1) in if p (table i) then some i else rest

unfoldable pub get_free_inode : Fs → Option ℕ
get_free_inode fs = find_slot (λ inode. inode.dev == eof) fs.table inode_nr 0

unfoldable pub put_free_inode : Fs → ℕ → Option Fs
put_free_inode fs i = do
  assert (not (i == 0))
  assert ((fs.table i).count == 0)
  some (set_inode fs i (record (fs.table i) { dev = eof }))

-- The list of inodes of a super block has the slots of its device.
unfoldable pub find_inode : Fs → (dev nr : ℕ) → Option (Option ℕ)
find_inode fs dev nr = do
  super ← fs.supers dev
  some (find_slot (λ inode. inode.dev == dev && inode.nr == nr) fs.table inode_nr 0)

-- The end of `iput` and of `put_pipe_inode`: a slot with no reference left is free.
abbrev pub unless_used : Fs → ℕ → Option Fs → Option Fs
unless_used fs i freed = if (fs.table i).count == 0 then freed else some fs

unfoldable pub put_pipe_inode : Fs → ℕ → Option Fs
put_pipe_inode fs i =
    let fs' = drop fs i in
    let unused = set_inode fs' i (record (fs'.table i) { pipe = false }) in
    assert (fs.table i).pipe >> unless_used fs' i (put_free_inode unused i)

unfoldable pub iput : Fs → Option ℕ → Option Fs
iput fs none = some fs
iput fs (some i) =
    let file = unless_used (drop fs i) i (put_free_inode (drop fs i) i) in
    if (fs.table i).pipe then put_pipe_inode fs i else file

unfoldable pub fit_inode : Fs → ℕ → Option (ℕ × Fs)
fit_inode fs i =
    let mounted = fs.supers (fs.table i).mount >>= λ sb.
    iput fs (some i) >>= λ fs'. some (sb.iroot, take fs' sb.iroot) in
    if (fs.table i).mount == 0 then some (i, fs) else mounted

-- A slot for an inode that is in none. The root inode has its references from the first tasks.
unfoldable pub load_inode : Fs → (dev nr : ℕ) → Option (ℕ × Fs)
load_inode fs dev nr = do
  sb ← fs.supers dev
  assert (leb nr sb.inodes)
  i ← get_free_inode fs
  let root = i == 0
  assert (not root || (fs.table i).count == 4)
  let count = if root then (fs.table i).count else 1
  some (i, set_inode fs i (record (fs.table i) { dev = dev; nr = nr; count = count }))

abbrev pub get_found : Fs → (dev nr : ℕ) → Option ℕ → Option (ℕ × Fs)
get_found fs dev nr none = load_inode fs dev nr
get_found fs dev nr (some i) = fit_inode (take fs i) i

unfoldable pub iget : Fs → (dev nr : ℕ) → Option (ℕ × Fs)
iget fs dev nr = find_inode fs dev nr >>= λ found. get_found fs dev nr found

-- Of a task: its user and group, its mask, and its directories.
pub record Task : Type 0 where
  pub uid : ℕ
  pub gid : ℕ
  pub umask : ℕ
  pub iroot : ℕ
  pub ipwd : ℕ

-- `inode->desc`, and a change of it
abbrev pub desc_of : Fs → ℕ → Paths.Inode
desc_of fs i = fs.desc (fs.table i).dev (fs.table i).nr

abbrev pub set_desc : Fs → ℕ → Paths.Inode → Fs
set_desc fs i d = record fs { desc = update₂ fs.desc (fs.table i).dev (fs.table i).nr d }

abbrev pub size_of : Fs → ℕ → ℕ
size_of fs i = fs.size (fs.table i).dev (fs.table i).nr

abbrev pub set_size : Fs → ℕ → ℕ → Fs
set_size fs i n = record fs { size = update₂ fs.size (fs.table i).dev (fs.table i).nr n }

-- `mask & ~umask`
abbrev pub masked : (mode umask : ℕ) → ℕ
masked mode umask = bit_and mode (65535 - umask)

unfoldable pub new_inode : Fs → Task → (dev nr : ℕ) → Option (ℕ × Fs)
new_inode fs task dev nr = do
  (i, fs') ← iget fs dev nr
  let desc : Paths.Inode = record {
    mode = masked 511 task.umask;
    uid = task.uid;
    gid = task.gid;
    nlinks = 1;
  }
  some (i, set_size (set_desc fs' i desc) i 0)

-- `ialloc(dev)` and `ifree(dev, nr)` of src/fs/bmap.c, on the maps of the device
unfoldable pub alloc_nr : Fs → (dev : ℕ) → Option (ℕ × Fs)
alloc_nr fs dev = do
  sb ← fs.supers dev
  r ← ialloc (fs.volume dev) sb.inodes
  some (r.0, record fs { volume = update fs.volume dev r.1 })

unfoldable pub free_nr : Fs → (dev nr : ℕ) → Option Fs
free_nr fs dev nr = do
  vol ← ifree (fs.volume dev) nr
  some (record fs { volume = update fs.volume dev vol })

-- A pipe takes a free slot, for its two ends.
unfoldable pub get_pipe_inode : Fs → Option (ℕ × Fs)
get_pipe_inode fs = do
  i ← get_free_inode fs
  some (i, set_inode fs i (record (fs.table i) { dev = 4294967294; count = 2; pipe = true }))

unfoldable pub inode_init : Fs → Fs
inode_init fs =
    let cleared = λ (i : ℕ). record (fs.table i) { dev = eof; count = 0 } in
    record fs { table = cleared }
