-- ===== src/Paths/Run.antt =====
-- The calls on names of src/fs/namei.c as one function, and their outcomes for the references.
use light_os.Inodes.{Fs, Task, iput}
use light_os.Inodes.Counts.{Holds}
use light_os.Blocks.{eof}
use light_os.Paths.Walk.{named, namei}
use light_os.Paths.Calls.{Result, sys_mkdir, sys_rmdir, sys_link, sys_unlink, sys_mknod}
use light_os.Paths.Trail.{Closed}
use light_os.Paths.Balance.{Balanced}
use light_os.Base.{ℕ, ◌≡◌, ◌⊎◌, none, some, List, [], ◌∷◌}

-- The calls that make and remove names.
pub data NameCall : Type 0 where
  mkdir : (path : List ℕ) (mode : ℕ) → NameCall
  rmdir : (path : List ℕ) → NameCall
  link : (oldname newname : List ℕ) → NameCall
  unlink : (path : List ℕ) → NameCall
  mknod : (path : List ℕ) (mode dev : ℕ) → NameCall

abbrev pub run : (fuel : ℕ) → Fs → Task → NameCall → Result
run fuel fs task (mkdir path mode) = sys_mkdir fuel fs task path mode
run fuel fs task (rmdir path) = sys_rmdir fuel fs task path
run fuel fs task (link oldname newname) = sys_link fuel fs task oldname newname
run fuel fs task (unlink path) = sys_unlink fuel fs task path
run fuel fs task (mknod path mode dev) = sys_mknod fuel fs task path mode dev

-- The walk along a path of the call fails at inode `i`, which it cannot go into, and the call ends in
-- the state `fs'`. For `sys_link` it is the walk along the old name, or that along the new one, after
-- which the inode of the old one is put back.
abbrev pub WalkFails : (fuel : ℕ) → Fs → Task → NameCall → (i : ℕ) → (fs' : Fs) → Type 0
WalkFails fuel fs task (mkdir path mode) i fs' =
    (named fuel fs task path ≡ some (none, fs')) × Closed fs' task i
WalkFails fuel fs task (rmdir path) i fs' =
    (named fuel fs task path ≡ some (none, fs')) × Closed fs' task i
WalkFails fuel fs task (unlink path) i fs' =
    (named fuel fs task path ≡ some (none, fs')) × Closed fs' task i
WalkFails fuel fs task (mknod path mode dev) i fs' =
    (named fuel fs task path ≡ some (none, fs')) × Closed fs' task i
WalkFails fuel fs task (link oldname newname) i fs' =
    ((namei fuel fs task oldname ≡ some (none, fs')) × Closed fs' task i)
    ⊎ ((inode : ℕ) × (fs1 : Fs) × (fs2 : Fs) × (namei fuel fs task oldname ≡ some (some inode, fs1))
        × (named fuel fs1 task newname ≡ some (none, fs2))
        × Closed fs2 task i
        × (iput fs2 (some inode) ≡ some fs'))

-- The outcomes of a call: it keeps no reference; or a walk has failed at an inode, the call refuses, and
-- one reference is lost, to that inode.
pub data Settles (fs : Fs) (task : Task) (fuel : ℕ) (call : NameCall) : ℕ × Fs → Type 0 where
  settled : {r : ℕ × Fs} → Balanced fs r → Settles fs task fuel call r
  leaked :
      {fs' : Fs} (i : ℕ)
      → WalkFails fuel fs task call i fs'
      → Holds fs (i ∷ []) fs'
      → Settles fs task fuel call (eof, fs')
