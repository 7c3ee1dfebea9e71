-- ===== src/Paths/Open.antt =====
-- `inode_open` of src/fs/namei.c, which opens a file or makes one.
use Prim.Native.Nat.{bit_and}
use light_os.Inodes.{Fs, Task, iput, iget, desc_of, set_desc, masked}
use light_os.Inodes.Truncate.{is_dir, inode_truncate}
use light_os.Paths
use light_os.Paths.Entries.{find_entry}
use light_os.Paths.Walk.{Named, named, allowed, p_write, at_end}
use light_os.Paths.Calls.{create}
use light_os.Base.{
  ℕ, ◌+◌, ◌%◌, Bool, not, ◌&&◌, Option, none, some, List, [], ◌∷◌, get_or, ◌==◌, if◌then◌else◌,
  ◌>>=◌,
}

-- `O_ACCMODE`, `O_CREAT` and `O_TRUNC`, of the flags
abbrev pub acc_of : ℕ → ℕ
acc_of flag = flag % 4

abbrev pub o_creat : ℕ → Bool
o_creat flag = not (bit_and flag 0o100 == 0)

abbrev pub o_trunc : ℕ → Bool
o_trunc flag = not (bit_and flag 0o1000 == 0)

-- `ACC_MODE`, a character with a sign that becomes a word of 16 bits
abbrev pub acc_mode : ℕ → ℕ
acc_mode acc = get_or (4 ∷ 2 ∷ 6 ∷ 65535 ∷ []) acc 0

-- The slot of the file that is opened, or `none` for `NULL`.
abbrev pub Opened : Type 0
Opened = Option (Option ℕ × Fs)

-- `clean`, with the slots that are held
abbrev pub give_back : Fs → (inode dir : Option ℕ) → Opened
give_back fs inode dir = iput fs inode >>= λ fs1. iput fs1 dir >>= λ fs2. some (none, fs2)

-- `makeup`
abbrev pub makeup : Fs → (flag dir inode : ℕ) → Opened
makeup fs flag dir inode = do
  fs1 ← if o_trunc flag then inode_truncate fs inode else some fs
  fs2 ← iput fs1 (some dir)
  some (some inode, fs2)

-- The file is there, in slot `inode`. Without the right to it nothing more is tested.
abbrev pub open_found : Fs → Task → (flag dir inode : ℕ) → Opened
open_found fs task flag dir inode =
    let denied = not (allowed fs task inode (acc_mode (acc_of flag))) in
    let unfit = is_dir (desc_of fs inode).mode && not (acc_of flag == 0) in
    let made = makeup fs flag dir inode in
    if denied then made else if unfit then give_back fs (some inode) (some dir) else made

abbrev pub make_file : Fs → Task → (flag mode dir : ℕ) → (name : List ℕ) → Opened
make_file fs task flag mode dir name = do
  (inode, fs1) ← create fs task dir name
  let desc : Paths.Inode = record (desc_of fs1 inode) {
    mode = masked (bit_and mode 511) task.umask + 32768;
  }
  makeup (set_desc fs1 inode desc) flag dir inode

abbrev pub open_missing : Fs → Task → (flag mode dir : ℕ) → (name : List ℕ) → Opened
open_missing fs task flag mode dir name =
    let made = make_file fs task flag mode dir name in
    if o_creat flag && allowed fs task dir p_write then made else give_back fs none (some dir)

abbrev pub open_in : Task → (flag mode : ℕ) → Named → Opened
open_in task flag mode (none, fs) = some (none, fs)
open_in task flag mode (some (dir, name), fs) =
    let searched = find_entry fs dir name >>= λ r. elim r.0 [
      | none ↦ open_missing r.2 task flag mode r.1 name
      | some entry ↦ iget r.2 (r.2.table r.1).dev entry.nr >>= λ q. open_found q.1 task flag r.1 q.0
    ] in
    if at_end name then some (some dir, fs) else searched

unfoldable pub inode_open : (fuel : ℕ) → Fs → Task → (path : List ℕ) → (flag mode : ℕ) → Opened
inode_open fuel fs task path flag mode =
    let opened = named fuel fs task path >>= open_in task flag mode in
    if o_trunc flag && acc_of flag == 0 then some (none, fs) else opened
