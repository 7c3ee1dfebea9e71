-- ===== src/Paths/Walk.antt =====
-- The walk along a path, in src/fs/namei.c: `named` and `namei`. A path is the bytes up to the end of
-- its buffer, and a pointer into it is the rest of the path from there.
use light_os.Inodes.{Fs, Task, take, iput, iget, desc_of}
use light_os.Inodes.Truncate.{is_dir}
use light_os.Paths.{permission, skip_separators}
use light_os.Paths.Entries.{find_entry}
use light_os.Strings.{strrsep, is_separator}
use light_os.Base.{
  ℕ, zero, suc, Bool, true, not, ◌||◌, Option, none, some, List, [], ◌∷◌, length, ◌==◌,
  if◌then◌else◌, ◌>>=◌,
}

abbrev pub p_exec : ℕ
p_exec = 1

abbrev pub p_write : ℕ
p_write = 2

abbrev pub allowed : Fs → Task → (i mask : ℕ) → Bool
allowed fs task i mask = permission task.uid task.gid (desc_of fs i) mask

abbrev pub drop_list {ℓ} : {A : Type ℓ} → ℕ → List A → List A
drop_list zero xs = xs
drop_list (suc n) [] = []
drop_list (suc n) (x ∷ xs) = drop_list n xs

-- The slot of the last directory and the rest of the path, or `none` for `NULL`.
abbrev pub Named : Type 0
Named = Option (ℕ × List ℕ) × Fs

-- A directory that is found is entered: `i` is its slot.
abbrev pub entered : Fs → Task → (i : ℕ) → (next right : List ℕ) → Option Named → Option Named
entered fs task i next right later =
    let closed = not (is_dir (desc_of fs i).mode) || not (allowed fs task i p_exec) in
    if closed
    then some (none, fs)
    else if length right == length next
    then some (some (i, next), fs)
    else later

abbrev pub give_up : Fs → (dir : ℕ) → Option Named
give_up fs dir = iput fs (some dir) >>= λ fs'. some (none, fs')

-- `right == *next` compares what is left of the path from either pointer.
unfoldable pub walk : (fuel : ℕ) → Fs → Task → (inode : ℕ) → (left right : List ℕ) → Option Named
walk zero fs task inode left right = none
walk (suc fuel) fs task inode left right = find_entry fs inode left >>= λ r. elim r.0 [
  | none ↦ give_up r.2 r.1
  | some entry ↦ iput r.2 (some r.1) >>= λ fs1. iget fs1 (r.2.table r.1).dev entry.nr >>= λ q.
      entered q.1 task q.0 entry.next right (walk fuel q.1 task q.0 entry.next right)
]

-- From the first part on, which is in the directory `inode`.
abbrev pub from_dir :
    (fuel : ℕ) → Fs → Task → (inode : ℕ) → (left : List ℕ) → Option (Option ℕ) → Option Named
from_dir fuel fs task inode left none = none
from_dir fuel fs task inode left (some none) = some (some (inode, left), fs)
from_dir fuel fs task inode left (some (some right)) =
    walk fuel fs task inode left (drop_list (suc right) left)

abbrev pub start_walk : (fuel : ℕ) → Fs → Task → (inode : ℕ) → (left : List ℕ) → Option Named
start_walk fuel fs task inode [] = none
start_walk fuel fs task inode (c ∷ left) =
    let whole = from_dir fuel fs task inode (c ∷ left) (strrsep (c ∷ left)) in
    if c == 0 then some (some (inode, c ∷ left), fs) else whole

unfoldable pub named : (fuel : ℕ) → Fs → Task → (path : List ℕ) → Option Named
named fuel fs task [] = none
named fuel fs task (c ∷ path) =
    let absolute =
      skip_separators path >>= λ left. start_walk fuel (take fs task.iroot) task task.iroot left in
    let relative = start_walk fuel (take fs task.ipwd) task task.ipwd (c ∷ path) in
    if is_separator c then absolute else if c == 0 then some (none, fs) else relative

-- The last part of the path, in its directory.
abbrev pub last_part : Fs → (dir : ℕ) → (name : List ℕ) → Option (Option ℕ × Fs)
last_part fs dir name = find_entry fs dir name >>= λ r. elim r.0 [
  | none ↦ iput r.2 (some r.1) >>= λ fs'. some (none, fs')
  | some entry ↦ iget r.2 (r.2.table r.1).dev entry.nr >>= λ q.
      iput q.1 (some r.1) >>= λ fs'. some (some q.0, fs')
]

-- A path is empty where its string ends.
abbrev pub at_end : List ℕ → Bool
at_end [] = true
at_end (c ∷ cs) = c == 0

abbrev pub namei_in : Named → Option (Option ℕ × Fs)
namei_in (none, fs) = some (none, fs)
namei_in (some (dir, next), fs) =
    let part = last_part fs dir next in if at_end next then some (some dir, fs) else part

unfoldable pub namei : (fuel : ℕ) → Fs → Task → (path : List ℕ) → Option (Option ℕ × Fs)
namei fuel fs task path = named fuel fs task path >>= namei_in
