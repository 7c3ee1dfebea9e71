-- ===== src/Paths/CallTests.antt =====
-- The theorems on the calls on names, on a device with one file in its root directory.
use mathlib.Core.Path.{subst}
use light_os.Inodes.{
  Inode, Super, Fs, Task, find_slot, find_inode, get_free_inode, load_inode, put_free_inode, iput,
  fit_inode, iget,
}
use light_os.Inodes.Counts.{Good}
use light_os.Blocks.{bmap, reckon, entry, eof}
use light_os.Blocks.Read.{slice}
use light_os.Blocks.Lookup.{lookup}
use light_os.Paths
use light_os.Paths.{permission, match_name, skip_separators, match_parts, match_end}
use light_os.Paths.Entries.{
  Entry, start_dir, scan_entries, find_entry, add_loop, add_entry, blocks_of, is_dir_empty, is_some,
}
use light_os.Paths.Walk.{named, namei, walk}
use light_os.Paths.Calls.{sys_link, check_dir, clean}
use light_os.Paths.Open.{inode_open, open_found}
use light_os.Paths.Trail.{Got, namei-Got}
use light_os.Paths.Run.{link, run, Settles}
use light_os.Paths.References.{run-Balanced}
use light_os.Paths.Opened.{Opens, OpenLost, inode_open-Opens, open_found_any}
use light_os.Paths.Search.{Searched, find_entry-Searched}
use light_os.Paths.Empty.{is_dir_empty_grown}
use light_os.Strings.{strrsep, strncpy, strncpy_loop, cut_off, find_last}
use light_os.Base.{
  ℕ, ◌/◌, ◌≤◌, ◌≡◌, ◌≢◌, ◌⊎◌, refl, sym, ap, true, false, Option, none, some, List, [], ◌∷◌, ◌++◌,
  get_or, replicate, ◌==◌, if◌then◌else◌, some_inj, arith,
}

-- An entry of 16 bytes
abbrev dentry : (nr : ℕ) → (name : List ℕ) → List ℕ
dentry nr name = nr ∷ 0 ∷ name

abbrev root_block : List ℕ
root_block =
    dentry 1 (b'.' ∷ replicate 13 0)
    ++ (dentry 1 (b'.' ∷ b'.' ∷ replicate 12 0) ++ dentry 2 (b'a' ∷ replicate 13 0))

abbrev super : Super
super = record { inodes = 10; iroot = 0; imount = 0 }

abbrev root : Inode
root = record { dev = 1; nr = 1; count = 4; mount = 1; pipe = false }

abbrev unused : Inode
unused = record { dev = eof; nr = 0; count = 0; mount = 0; pipe = false }

abbrev descs : ℕ → Paths.Inode
descs nr =
    if nr == 1
    then record { mode = 0o040755; uid = 0; gid = 0; nlinks = 2 }
    else record { mode = 0o100644; uid = 0; gid = 0; nlinks = 1 }

-- The root directory has a size of `size` bytes, in block 5.
abbrev device : (size : ℕ) → Fs
device size = record {
  table = λ j. if j == 0 then root else unused;
  supers = λ d. some super;
  volume = λ d. record { zones = 100; firstdatazone = 5; zmaps = []; imaps = []; index = λ b. [] };
  desc = λ d nr. descs nr;
  size = λ d nr. size;
  zone = λ d nr. 5 ∷ replicate 8 0;
  bytes = λ d block p. get_or root_block p 0;
}

abbrev start : Fs
start = device 48

start-Good : Good start
start-Good = record {
  clean = λ j e. ground (arith, e);
  small = λ j. ground arith;
  mounts = λ d sb e.
      subst (λ s. (1 ≤ (start.table s.iroot).count) × (1 ≤ (start.table s.imount).count))
        (some_inj super sb e) (omega arith, omega arith);
  unstacked = λ d sb e n. sym (ap (λ s. s.imount) (some_inj super sb e));
}

abbrev task : Task
task = record { uid = 0; gid = 0; umask = 18; iroot = 0; ipwd = 0 }

abbrev path_a : List ℕ
path_a = b'/' ∷ b'a' ∷ 0 ∷ []

abbrev path_b : List ℕ
path_b = b'/' ∷ b'b' ∷ 0 ∷ []

-- The value of a call that returns
value_of {ℓ} : {A : Type ℓ} (o : Option A) → is_some o ≡ true → (a : A) × (o ≡ some a)
value_of none e = absurd (cc)
value_of (some a) e = (a, refl)

namei_returns : is_some (namei 5 start task path_a) ≡ true
unfolding namei named walk find_entry start_dir scan_entries match_name skip_separators match_parts
    match_end bmap reckon entry slice strrsep find_last iget find_inode find_slot load_inode
    get_free_inode fit_inode iput put_free_inode permission
namei_returns = refl

namei-Got_example : Got start task [] (value_of (namei 5 start task path_a) namei_returns).0
namei-Got_example =
    namei-Got 5 start task path_a (value_of (namei 5 start task path_a) namei_returns).0 start-Good
      (omega arith) (omega arith) (value_of (namei 5 start task path_a) namei_returns).1

link_returns : is_some (run 5 start task (link path_a path_b)) ≡ true
unfolding sys_link namei named walk find_entry add_entry add_loop start_dir scan_entries match_name
    skip_separators match_parts match_end bmap reckon entry slice strrsep find_last strncpy
    strncpy_loop cut_off iget find_inode find_slot load_inode get_free_inode fit_inode iput
    put_free_inode permission
link_returns = refl

run-Balanced_example :
    Settles start task 5
      (link path_a path_b)
      (value_of (run 5 start task (link path_a path_b)) link_returns).0
run-Balanced_example =
    run-Balanced start task 5 (link path_a path_b)
      (value_of (run 5 start task (link path_a path_b)) link_returns).0 start-Good (omega arith)
      (omega arith) (value_of (run 5 start task (link path_a path_b)) link_returns).1

open_returns : is_some (inode_open 5 start task path_a 2 0) ≡ true
unfolding inode_open named walk find_entry start_dir scan_entries match_name skip_separators
    match_parts match_end bmap reckon entry slice strrsep find_last iget find_inode find_slot
    load_inode get_free_inode fit_inode iput put_free_inode permission
open_returns = refl

inode_open-Opens_example :
    Opens start (value_of (inode_open 5 start task path_a 2 0) open_returns).0
    ⊎ OpenLost start task 5 path_a (value_of (inode_open 5 start task path_a 2 0) open_returns).0
inode_open-Opens_example =
    inode_open-Opens start task 5 path_a 2 0
      (value_of (inode_open 5 start task path_a 2 0) open_returns).0 start-Good (omega arith)
      (omega arith) (value_of (inode_open 5 start task path_a 2 0) open_returns).1

-- User 7 may not write the file, of user 0.
abbrev stranger : Task
stranger = record task { uid = 7; gid = 7 }

abbrev loaded : Fs
loaded = record start {
  table = λ j. if j == 3 then record unused { dev = 1; nr = 2; count = 1 } else start.table j;
}

open_found_any_example : open_found loaded task 2 0 3 ≡ open_found loaded stranger 2 0 3
open_found_any_example = open_found_any loaded task stranger 2 0 3 refl

entry_a : Entry
entry_a = record { dev = 1; block = 5; offset = 32; nr = 2; next = 0 ∷ [] }

found_a : find_entry start 0 (b'a' ∷ 0 ∷ []) ≡ some (some entry_a, 0, start)
unfolding find_entry start_dir scan_entries match_name skip_separators match_parts match_end bmap
    reckon entry slice entry_a
found_a = refl

find_entry-Searched_example :
    Searched (start.bytes 1) (blocks_of start 0) (b'a' ∷ 0 ∷ []) 0 (48 / 16) (some entry_a)
find_entry-Searched_example =
    find_entry-Searched start start 0 0 (b'a' ∷ 0 ∷ []) (some entry_a) (omega arith) found_a

-- A directory that has had 70 entries
is_dir_empty_grown_example :
    (is_dir_empty (device 1120) 0 ≡ some false)
    × ((t : Task) (dir : ℕ) (entry : Entry)
        → 0 ≢ dir
        → check_dir (device 1120) t dir 0 entry ≡ clean (device 1120) (some 0) (some dir) eof)
unfolding lookup
is_dir_empty_grown_example =
    is_dir_empty_grown (device 1120) 0 refl (omega arith) (omega arith) (omega arith) (omega arith)
