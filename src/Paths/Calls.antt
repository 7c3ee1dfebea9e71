-- ===== src/Paths/Calls.antt =====
-- The system calls on names, in src/fs/namei.c. `eof` is their result when they refuse. The times and
-- the dirty bits of the buffers are left out, and so is writing them to the disk.
use Prim.Native.Nat.{bit_and}
use light_os.Inodes.{
  Fs, Task, iput, iget, desc_of, set_desc, set_size, masked, new_inode, alloc_nr, free_nr,
  set_inode, update₂,
}
use light_os.Inodes.Truncate.{is_dir, inode_truncate}
use light_os.Paths
use light_os.Paths.Entries.{
  Entry, find_entry, add_entry, set_nr, is_dir_empty, blocks_of, set_blocks, store,
}
use light_os.Paths.Walk.{named, namei, Named, allowed, p_write, at_end}
use light_os.Strings.{Sign, less, equal, greater, strcmp}
use light_os.Blocks.{bmap, eof}
use light_os.Base.{
  ℕ, ◌+◌, ◌/◌, ◌%◌, ◌^◌, Bool, true, false, not, ◌&&◌, ◌||◌, Option, none, some, List, [], ◌∷◌, ltb,
  ◌==◌, if◌then◌else◌, ◌>>=◌, ◌>>◌, assert, set,
}

-- The result of a call, and the state.
abbrev pub Result : Type 0
Result = Option (ℕ × Fs)

-- `clean`: what is held is given back, in the order of the source.
abbrev pub clean : Fs → (first second : Option ℕ) → (ret : ℕ) → Result
clean fs first second ret = iput fs first >>= λ fs1. iput fs1 second >>= λ fs2. some (ret, fs2)

-- What all these calls begin with: the directory of the path, which the task may write, and the entry
-- of the name in it. A call refuses without a directory, without a name, and without the right.
abbrev pub in_dir :
    Fs → Task → (dir : ℕ) → (name : List ℕ) → (Option Entry × ℕ × Fs → Result) → Result
in_dir fs task dir name go =
    let refused = clean fs none (some dir) eof in
    let found = find_entry fs dir name >>= go in
    if at_end name || not (allowed fs task dir p_write) then refused else found

abbrev pub with_named : Named → (ℕ → List ℕ → Fs → Result) → Result
with_named (none, fs) go = clean fs none none eof
with_named (some (dir, name), fs) go = go dir name fs

-- `inode->desc->nlinks++` and `--`, a byte
abbrev pub link_up : Fs → ℕ → Fs
link_up fs i = let d = desc_of fs i in set_desc fs i (record d { nlinks = (d.nlinks + 1) % 2 ^ 8 })

abbrev pub link_down : Fs → ℕ → Fs
link_down fs i =
    let d = desc_of fs i in set_desc fs i (record d { nlinks = (d.nlinks + 255) % 2 ^ 8 })

-- An entry for a new inode, and the inode: what `sys_mkdir`, `sys_mknod` and `inode_open` share.
abbrev pub create : Fs → Task → (dir : ℕ) → (name : List ℕ) → Option (ℕ × Fs)
create fs task dir name = do
  (entry, fs1) ← add_entry fs dir name
  (nr, fs2) ← alloc_nr fs1 (fs1.table dir).dev
  new_inode (set_nr fs2 entry nr) task (fs2.table dir).dev (nr % 2 ^ 16)

-- `sys_mkdir`, once there is no entry of the name
abbrev pub fill_dir : Fs → (inode dir : ℕ) → Option Fs
fill_dir fs inode dir = do
  r ← bmap (blocks_of fs inode) 0 true
  let fs1 = set_blocks fs inode r.1
  let dev = (fs.table inode).dev
  let own = (fs.table inode).nr
  let parent = (fs.table dir).nr
  let fs2 = store fs1 dev r.0 0 (own % 256 ∷ own / 256 % 256 ∷ b'.' ∷ 0 ∷ [])
  some (store fs2 dev r.0 16 (parent % 256 ∷ parent / 256 % 256 ∷ b'.' ∷ b'.' ∷ 0 ∷ []))

-- The new inode becomes a directory of two entries.
abbrev pub as_dir : Fs → Task → (inode mode : ℕ) → Fs
as_dir fs task inode mode =
    let desc : Paths.Inode = record (desc_of fs inode) {
      mode = masked (bit_and mode 511) task.umask + 16384;
      nlinks = 2;
    } in
    set_size (set_desc fs inode desc) inode 32

abbrev pub make_dir : Fs → Task → (dir : ℕ) → (name : List ℕ) → (mode : ℕ) → Result
make_dir fs task dir name mode = do
  (inode, fs1) ← create fs task dir name
  fs2 ← fill_dir (link_up (as_dir fs1 task inode mode) dir) inode dir
  clean fs2 (some inode) (some dir) 0

unfoldable pub sys_mkdir : (fuel : ℕ) → Fs → Task → (path : List ℕ) → (mode : ℕ) → Result
sys_mkdir fuel fs task path mode = named fuel fs task path >>= λ n. with_named n λ dir name fs1.
    in_dir fs1 task dir name λ r. elim r.0 [
      | some entry ↦ clean r.2 none (some r.1) eof
      | none ↦ make_dir r.2 task r.1 name mode
    ]

abbrev pub isvtx : ℕ
isvtx = 512

-- A directory that is removed, in `dir`; `inode` is its slot and `entry` its entry.
abbrev pub remove_dir : Fs → (dir inode : ℕ) → Entry → Result
remove_dir fs dir inode entry = do
  assert ((desc_of fs inode).nlinks == 2)
  fs1 ← inode_truncate fs inode
  fs2 ← free_nr fs1 (fs1.table inode).dev (fs1.table inode).nr
  let unlinked : Paths.Inode = record (desc_of fs2 inode) { nlinks = 0 }
  let fs3 = set_desc fs2 inode unlinked
  let fs4 = link_down (set_inode fs3 inode (record (fs3.table inode) { nr = 0 })) dir
  assert (not ((desc_of fs4 dir).nlinks == 0))
  clean (set_nr fs4 entry 0) (some inode) (some dir) 0

-- The checks of `sys_rmdir` on the directory that it has found
abbrev pub check_dir : Fs → Task → (dir inode : ℕ) → Entry → Result
check_dir fs task dir inode entry =
    let refused = clean fs (some inode) (some dir) eof in
    let sticky = not (bit_and (desc_of fs dir).mode isvtx == 0) in
    let others = sticky && not (task.uid == (desc_of fs inode).uid) in
    let busy = not ((fs.table dir).dev == (fs.table inode).dev) || ltb 1 (fs.table inode).count in
    let emptied =
      is_dir_empty fs inode >>= λ empty. if empty then remove_dir fs dir inode entry else refused in
    assert (not (inode == dir))
    >> (if not (is_dir (desc_of fs inode).mode) || others || busy then refused else emptied)

abbrev pub is_same : Sign → Bool
is_same equal = true
is_same less = false
is_same greater = false

abbrev pub is_dot : List ℕ → Option Bool
is_dot name = do
  one ← strcmp name (b'.' ∷ 0 ∷ [])
  two ← strcmp name (b'.' ∷ b'.' ∷ 0 ∷ [])
  some (is_same one || is_same two)

abbrev pub rmdir_in : Task → (dir : ℕ) → (name : List ℕ) → Fs → Result
rmdir_in task dir name fs =
    let refused = clean fs none (some dir) eof in
    let searched = in_dir fs task dir name λ r. elim r.0 [
      | none ↦ clean r.2 none (some r.1) eof
      | some entry ↦ iget r.2 (r.2.table r.1).dev entry.nr >>= λ q. check_dir q.1 task r.1 q.0 entry
    ] in
    let looked = is_dot name >>= λ dot. if dot then refused else searched in
    if at_end name then refused else looked

unfoldable pub sys_rmdir : (fuel : ℕ) → Fs → Task → (path : List ℕ) → Result
sys_rmdir fuel fs task path =
    named fuel fs task path >>= λ n. with_named n λ dir name fs1. rmdir_in task dir name fs1

-- `sys_link` adds an entry for an inode that is there.
abbrev pub add_link : Fs → (dir inode : ℕ) → (name : List ℕ) → Result
add_link fs dir inode name = do
  (entry, fs1) ← add_entry fs dir name
  clean (link_up (set_nr fs1 entry (fs1.table inode).nr) inode) (some dir) (some inode) 0

abbrev pub link_in : Fs → Task → (inode dir : ℕ) → (name : List ℕ) → Result
link_in fs task inode dir name =
    let refused = clean fs (some dir) (some inode) eof in
    let searched = find_entry fs dir name >>= λ r. elim r.0 [
      | some entry ↦ clean r.2 (some r.1) (some inode) eof
      | none ↦ add_link r.2 r.1 inode name
    ] in
    let elsewhere = not ((fs.table dir).dev == (fs.table inode).dev) in
    if at_end name || elsewhere || not (allowed fs task dir p_write) then refused else searched

abbrev pub link_named : Task → (inode : ℕ) → Named → Result
link_named task inode (none, fs) = clean fs none (some inode) eof
link_named task inode (some (dir, name), fs) = link_in fs task inode dir name

-- From the inode of the old name on
abbrev pub link_from : (fuel : ℕ) → Task → (newname : List ℕ) → Option ℕ × Fs → Result
link_from fuel task newname (none, fs) = clean fs none none eof
link_from fuel task newname (some inode, fs) =
    let refused = clean fs none (some inode) eof in
    let linked = named fuel fs task newname >>= link_named task inode in
    if is_dir (desc_of fs inode).mode then refused else linked

unfoldable pub sys_link : (fuel : ℕ) → Fs → Task → (oldname newname : List ℕ) → Result
sys_link fuel fs task oldname newname = namei fuel fs task oldname >>= link_from fuel task newname

-- The last link to a file frees it.
abbrev pub remove_link : Fs → (dir inode : ℕ) → Entry → Result
remove_link fs dir inode entry =
    let fs1 = link_down (set_nr fs entry 0) inode in
    let kept = clean fs1 (some inode) (some dir) 0 in
    let freed = inode_truncate fs1 inode >>= λ fs2.
    free_nr fs2 (fs2.table inode).dev (fs2.table inode).nr >>= λ fs3.
    clean fs3 (some inode) (some dir) 0 in
    assert (not ((desc_of fs inode).nlinks == 0))
    >> (if (desc_of fs1 inode).nlinks == 0 then freed else kept)

abbrev pub unlink_found : Fs → Task → (dir inode : ℕ) → Entry → Result
unlink_found fs task dir inode entry =
    let desc = desc_of fs inode in
    let others = not (bit_and desc.mode isvtx == 0) && not (task.uid == desc.uid) in
    let refused = clean fs (some inode) (some dir) eof in
    if is_dir desc.mode || others then refused else remove_link fs dir inode entry

unfoldable pub sys_unlink : (fuel : ℕ) → Fs → Task → (path : List ℕ) → Result
sys_unlink fuel fs task path = named fuel fs task path >>= λ n. with_named n λ dir name fs1.
    in_dir fs1 task dir name λ r. elim r.0 [
      | none ↦ clean r.2 none (some r.1) eof
      | some entry ↦
          iget r.2 (r.2.table r.1).dev entry.nr >>= λ q. unlink_found q.1 task r.1 q.0 entry
    ]

-- A device file has the number of its device in its zone.
abbrev pub make_node : Fs → Task → (dir : ℕ) → (name : List ℕ) → (mode dev : ℕ) → Result
make_node fs task dir name mode dev = do
  (inode, fs1) ← create fs task dir name
  let d = (fs1.table inode).dev
  let nr = (fs1.table inode).nr
  let desc : Paths.Inode = record (desc_of fs1 inode) { mode = mode }
  let kind = bit_and mode 0o170000
  let device = kind == 0o060000 || kind == 0o020000
  let fs2 = set_desc fs1 inode desc
  let zone = if device then set (fs2.zone d nr) 0 (dev % 2 ^ 16) else fs2.zone d nr
  clean (record fs2 { zone = update₂ fs2.zone d nr zone }) (some inode) (some dir) 0

unfoldable pub sys_mknod : (fuel : ℕ) → Fs → Task → (path : List ℕ) → (mode dev : ℕ) → Result
sys_mknod fuel fs task path mode dev = named fuel fs task path >>= λ n. with_named n λ dir name fs1.
    in_dir fs1 task dir name λ r. elim r.0 [
      | some entry ↦ clean r.2 none (some r.1) eof
      | none ↦ make_node r.2 task r.1 name mode dev
    ]
