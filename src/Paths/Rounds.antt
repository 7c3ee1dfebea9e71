-- ===== src/Paths/Rounds.antt =====
-- How many rounds the loop of `named` in src/fs/namei.c takes.
use light_os.Inodes.Truncate.{is_dir}
use light_os.Inodes.{desc_of, Fs, Task, take, iput, iget}
use light_os.Paths.{skip_separators}
use light_os.Paths.Entries.{find_entry, Entry}
use light_os.Paths.Shorter.{Ended}
use light_os.Paths.Walk.{allowed, p_exec, entered, give_up, Named, drop_list}
use light_os.Strings.{is_separator, strrsep}
use light_os.Base.{
  ℕ, suc, ◌≡◌, true, false, not, ◌||◌, ◌⊎◌, Option, none, some, List, [], ◌∷◌, length, ◌==◌, ◌>>=◌,
}

-- Behind a part of the path that is found, the loop goes on: the inode can be entered, and `next` is not
-- the pointer where the last part begins.
abbrev pub Onward : Fs → Task → (i : ℕ) → (next right : List ℕ) → Type 0
Onward fs task i next right =
    ((not (is_dir (desc_of fs i).mode) || not (allowed fs task i p_exec)) ≡ false)
    × ((length right == length next) ≡ false)

-- The rounds that the loop takes: from a directory with a path to another with what is left of it
pub data Reaches (task : Task) (right : List ℕ) : Fs → ℕ → List ℕ → Fs → ℕ → List ℕ → Type 0 where
  here : {fs : Fs} {i : ℕ} {left : List ℕ} → Reaches task right fs i left fs i left
  round :
      {fs fs1 fs2 fs3 fs' : Fs} {i dir next i' : ℕ} {left left' : List ℕ} {entry : Entry}
      → find_entry fs i left ≡ some (some entry, dir, fs1)
      → iput fs1 (some dir) ≡ some fs2
      → iget fs2 (fs1.table dir).dev entry.nr ≡ some (next, fs3)
      → Onward fs3 task next entry.next right
      → Reaches task right fs3 next entry.next fs' i' left'
      → Reaches task right fs i left fs' i' left'

-- From a directory with a path, the loop comes to a directory where only separators are left of the
-- path, finds an entry for them, which has an empty name, and goes on.
pub Circles : Task → (right : List ℕ) → Fs → ℕ → List ℕ → Type 0
Circles task right fs i left =
    (fs' : Fs) × (i' : ℕ) × (left' : List ℕ) × Reaches task right fs i left fs' i' left'
    × Ended left'
    × ((entry : Entry) × (dir : ℕ) × (fs1 : Fs) × (fs2 : Fs) × (next : ℕ) × (fs3 : Fs) × (find_entry
            fs' i' left'
          ≡ some (some entry, dir, fs1))
        × (iput fs1 (some dir) ≡ some fs2)
        × (iget fs2 (fs1.table dir).dev entry.nr ≡ some (next, fs3))
        × Onward fs3 task next entry.next right)

-- The same of the walk that `named` starts on `left`
abbrev pub StartCircles : Task → Fs → ℕ → (left : List ℕ) → Type 0
StartCircles task fs i left =
    (n : ℕ) × (strrsep left ≡ some (some n)) × Circles task (drop_list (suc n) left) fs i left

-- The same of `named`: from the root behind the leading separators, or from the working directory
abbrev pub Strays : Fs → Task → (path : List ℕ) → Type 0
Strays fs task [] = ⊥
Strays fs task (c ∷ path) =
    ((is_separator c ≡ true)
      × ((left : List ℕ) × (skip_separators path ≡ some left)
          × StartCircles task (take fs task.iroot) task.iroot left))
    ⊎ ((is_separator c ≡ false) × StartCircles task (take fs task.ipwd) task.ipwd (c ∷ path))

-- What `walk` does with the result of `find_entry`
abbrev next_round :
    Task
    → (right : List ℕ) → (Fs → ℕ → List ℕ → Option Named)
    → Option Entry × ℕ × Fs
    → Option Named
next_round task right later (none, dir, fs1) = give_up fs1 dir
next_round task right later (some entry, dir, fs1) = iput fs1 (some dir) >>= λ fs2.
    iget fs2 (fs1.table dir).dev entry.nr >>= λ q.
    entered q.1 task q.0 entry.next right (later q.1 q.0 entry.next)
