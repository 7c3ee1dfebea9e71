-- ===== src/Paths/Entries.antt =====
-- The entries of a directory, in src/fs/namei.c: `find_entry` and `add_entry`. An entry is in a block
-- that src/fs/bmap.c finds; it has a number of 16 bits and a name of 14 bytes.
use light_os.Inodes.{Fs, take, iput, desc_of, size_of, set_size, update, update₂}
use light_os.Inodes.Truncate.{is_dir}
use light_os.Paths.{match_name}
use light_os.Blocks
use light_os.Blocks.{bmap, block_size, eof}
use light_os.Blocks.Read.{slice}
use light_os.Strings.{strncpy, is_separator}
use light_os.Base.{
  ℕ, zero, suc, ◌+◌, ◌-◌, ◌*◌, ◌/◌, ◌%◌, Bool, true, false, not, ◌&&◌, ◌||◌, Option, none, some,
  List, [], ◌∷◌, get_or, leb, ltb, ◌==◌, if◌then◌else◌, ◌>>=◌, ◌>>◌, assert,
}

-- An entry that matches: its device, its block and its offset there, its number, and the rest of the
-- path.
pub record Entry : Type 0 where
  pub dev : ℕ
  pub block : ℕ
  pub offset : ℕ
  pub nr : ℕ
  pub next : List ℕ

abbrev pub dentry_size : ℕ
dentry_size = 16

-- `BLOCK_DENTRIES`
abbrev pub block_dentries : ℕ
block_dentries = 64

abbrev pub dot_dot : List ℕ
dot_dot = b'.' ∷ b'.' ∷ 0 ∷ []

abbrev pub half_word : (ℕ → ℕ) → ℕ → ℕ
half_word f o = f o + 256 * f (o + 1)

-- The name at an offset, up to the end of the block
abbrev pub name_at : (ℕ → ℕ) → ℕ → List ℕ
name_at f o = slice f (o + 2) (block_size - o - 2)

-- The zone of an inode, with the volume of its device, as `bmap` takes them
abbrev pub blocks_of : Fs → ℕ → Blocks.Inode
blocks_of fs i = record {
  volume = fs.volume (fs.table i).dev;
  zone = fs.zone (fs.table i).dev (fs.table i).nr;
}

-- An entry in use that matches ends the search.
abbrev pub matched :
    (dev block offset nr : ℕ) → Option (List ℕ) → Option (Option Entry) → Option (Option Entry)
matched dev block offset nr none rest = rest
matched dev block offset nr (some next) rest =
    some (some (record { dev = dev; block = block; offset = offset; nr = nr; next = next }))

abbrev pub entry_in :
    (ℕ → ℕ) → (name : List ℕ) → (dev block i : ℕ) → Option (Option Entry) → Option (Option Entry)
entry_in f name dev block i rest =
    let offset = i % block_dentries * dentry_size in
    let nr = half_word f offset in
    let compared = match_name name (name_at f offset) >>= λ m. matched dev block offset nr m rest in
    if nr == 0 then rest else compared

-- The loop of `find_entry`, over `rounds` entries from number `i` on. The block is asked for at each
-- entry, which changes nothing.
unfoldable pub scan_entries :
    (data_of : ℕ → ℕ → ℕ)
    → (dev : ℕ) → Blocks.Inode
    → (name : List ℕ) → (rounds i : ℕ) → Option (Option Entry)
scan_entries data_of dev inode name zero i = some none
scan_entries data_of dev inode name (suc rounds) i =
    let rest = scan_entries data_of dev inode name rounds (i + 1) in
    bmap inode (i / block_dentries) false >>= λ r.
    assert (not (r.0 == 0)) >> entry_in (data_of r.0) name dev r.0 i rest

-- `..` in the root of a mounted file system is that of the directory it is mounted on.
abbrev pub leave_mount : Fs → ℕ → Option (ℕ × Fs)
leave_mount fs dir = fs.supers (fs.table dir).dev >>= λ sb.
    iput (take fs sb.imount) (some dir) >>= λ fs'. some (sb.imount, fs')

abbrev pub is_some {ℓ} : {A : Type ℓ} → Option A → Bool
is_some none = false
is_some (some a) = true

unfoldable pub start_dir : Fs → (dir : ℕ) → (name : List ℕ) → Option (ℕ × Fs)
start_dir fs dir name = do
  m ← match_name name dot_dot
  let left = leave_mount fs dir in
      if is_some m && (fs.table dir).nr == 1 && not (dir == 0) then left else some (dir, fs)

-- The entry, the directory that was searched, and the state.
unfoldable pub find_entry : Fs → (dir : ℕ) → (name : List ℕ) → Option (Option Entry × ℕ × Fs)
find_entry fs dir name = do
  assert (is_dir (desc_of fs dir).mode)
  r ← start_dir fs dir name
  let dir' = r.0
  let fs' = r.1
  let entries = size_of fs' dir' / dentry_size
  e ←
      scan_entries (fs'.bytes (fs'.table dir').dev) (fs'.table dir').dev (blocks_of fs' dir') name
        entries 0
  some (e, dir', fs')

-- Bytes are stored in a block of a device.
abbrev pub write_bytes : (ℕ → ℕ) → (o : ℕ) → List ℕ → ℕ → ℕ
write_bytes f o [] p = f p
write_bytes f o (c ∷ cs) p = if o == p then c else write_bytes f (o + 1) cs p

abbrev pub store : Fs → (dev block o : ℕ) → List ℕ → Fs
store fs dev block o cs = record fs {
  bytes = update₂ fs.bytes dev block (write_bytes (fs.bytes dev block) o cs);
}

-- `entry->nr = nr`
abbrev pub set_nr : Fs → Entry → (nr : ℕ) → Fs
set_nr fs entry nr = store fs entry.dev entry.block entry.offset (nr % 256 ∷ nr / 256 % 256 ∷ [])

abbrev pub set_blocks : Fs → (i : ℕ) → Blocks.Inode → Fs
set_blocks fs i inode = record fs {
  volume = update fs.volume (fs.table i).dev inode.volume;
  zone = update₂ fs.zone (fs.table i).dev (fs.table i).nr inode.zone;
}

-- An entry behind the last one is free, and the directory grows by it.
abbrev pub grow : Fs → (dir block offset i : ℕ) → Fs
grow fs dir block offset i =
    let entry : Entry = record {
      dev = (fs.table dir).dev;
      block = block;
      offset = offset;
      nr = 0;
      next = [];
    } in
    let grown = set_size (set_nr fs entry 0) dir ((i + 1) * dentry_size) in
    if leb (size_of fs dir) (i * dentry_size) then grown else fs

abbrev pub name_entry : Fs → (dir : ℕ) → (name : List ℕ) → (block offset : ℕ) → Option (Entry × Fs)
name_entry fs dir name block offset = do
  let dev = (fs.table dir).dev
  name' ← strncpy (slice (fs.bytes dev block) (offset + 2) 14) name 14
  some (
    record { dev = (fs.table dir).dev; block = block; offset = offset; nr = 0; next = [] },
    store fs dev block (offset + 2) name',
  )

-- The endless loop of `add_entry`, from entry `i` on.
unfoldable pub add_loop :
    (fuel : ℕ) → Fs → (dir : ℕ) → (name : List ℕ) → (i : ℕ) → Option (Entry × Fs)
add_loop zero fs dir name i = none
add_loop (suc fuel) fs dir name i = bmap (blocks_of fs dir) (i / block_dentries) true >>= λ r.
    let offset = i % block_dentries * dentry_size in
    let fs' = grow (set_blocks fs dir r.1) dir r.0 offset i in
    let rest = add_loop fuel fs' dir name (i + 1) in
    let added = name_entry fs' dir name r.0 offset in
    let used = not (half_word (fs'.bytes (fs'.table dir).dev r.0) offset == 0) in
    assert (not (r.0 == 0)) >> (if used then rest else added)

-- None of the first 14 characters of the name is a separator.
abbrev pub no_separator : (rounds : ℕ) → List ℕ → Bool
no_separator zero name = true
no_separator (suc rounds) [] = true
no_separator (suc rounds) (c ∷ name) =
    let rest = no_separator rounds name in if c == 0 then true else not (is_separator c) && rest

abbrev pub add_missing : Fs → (dir : ℕ) → (name : List ℕ) → Option Entry → Option (Entry × Fs)
add_missing fs dir name (some entry) = some (entry, fs)
add_missing fs dir name none =
    assert (no_separator 14 name) >> add_loop (size_of fs dir / dentry_size + 2) fs dir name 0

unfoldable pub add_entry : Fs → (dir : ℕ) → (name : List ℕ) → Option (Entry × Fs)
add_entry fs dir name = find_entry fs dir name >>= λ r. add_missing r.2 r.1 name r.0

-- The loop of `is_dir_empty` over the entries counts those in use. At each block it asks for the
-- block `1 / BLOCK_DENTRIES`, the first one.
unfoldable pub count_entries : (data_of : ℕ → ℕ → ℕ) → Blocks.Inode → (rounds i : ℕ) → Option ℕ
count_entries data_of inode zero i = some 0
count_entries data_of inode (suc rounds) i = do
  r ← bmap inode (1 / block_dentries) false
  assert (not (r.0 == 0))
  count ← count_entries data_of inode rounds (i + 1)
  let nr = half_word (data_of r.0) (i % block_dentries * dentry_size) in
      if nr == 0 then some count else some (count + 1)

unfoldable pub is_dir_empty : Fs → (i : ℕ) → Option Bool
is_dir_empty fs i = do
  assert (is_dir (desc_of fs i).mode)
  let entries = size_of fs i / dentry_size
  let inode = blocks_of fs i
  let counted =
        count_entries (fs.bytes (fs.table i).dev) inode entries 0 >>= λ count. some (count == 2) in
      if ltb entries 2 || (get_or inode.zone 0 0 == 0) then some false else counted
