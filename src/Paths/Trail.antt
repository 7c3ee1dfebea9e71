-- ===== src/Paths/Trail.antt =====
-- The references that `named` and `namei` take.
use mathlib.Core.Path.{subst}
use light_os.Inodes.{Fs, Task, take, iput, iget, desc_of}
use light_os.Inodes.Counts.{Good, Holds, take-Holds, iput-Holds, held_used, used, Holds-nil}
use light_os.Inodes.Get.{iget-Holds}
use light_os.Inodes.Truncate.{is_dir}
use light_os.Paths.{skip_separators}
use light_os.Strings.{strrsep, is_separator}
use light_os.Paths.Entries.{Entry, find_entry}
use light_os.Paths.Held.{Room, swap, find_entry-Holds}
use light_os.Paths.Walk.{
  Named, allowed, p_exec, entered, give_up, walk, drop_list, from_dir, start_walk, named, last_part,
  at_end, namei_in, namei,
}
use light_os.Base.{
  ℕ, zero, suc, ◌≤◌, ◌≡◌, refl, sym, ◌∙◌, inl, inr, true, not, ◌||◌, Option, none, some, List, [],
  ◌∷◌, length, ◌==◌, ◌>>=◌, >>=-eq-some, some_inj, Bool-cases, arith,
}

-- An inode that the walk cannot go into: it is no directory, or the task may not enter it.
abbrev pub Closed : Fs → Task → ℕ → Type 0
Closed fs task i = (not (is_dir (desc_of fs i).mode) || not (allowed fs task i p_exec)) ≡ true

-- The outcomes of the walk: the directory, with a reference; or none. In the second case the walk
-- keeps no reference, or one to an inode that is not a directory or may not be entered.
pub data Walked (fs : Fs) (task : Task) (h : List ℕ) : Named → Type 0 where
  reached :
      {i : ℕ} {next : List ℕ} {fs' : Fs}
      → Holds fs (i ∷ h) fs'
      → Walked fs task h (some (i, next), fs')
  missing : {fs' : Fs} → Holds fs h fs' → Walked fs task h (none, fs')
  lost :
      {fs' : Fs} (i : ℕ)
      → Holds fs (i ∷ h) fs'
      → (not (is_dir (desc_of fs' i).mode) || not (allowed fs' task i p_exec)) ≡ true
      → Walked fs task h (none, fs')

-- The same of `namei`.
pub data Got (fs : Fs) (task : Task) (h : List ℕ) : Option ℕ × Fs → Type 0 where
  got : {i : ℕ} {fs' : Fs} → Holds fs (i ∷ h) fs' → Got fs task h (some i, fs')
  nothing : {fs' : Fs} → Holds fs h fs' → Got fs task h (none, fs')
  lost_dir :
      {fs' : Fs} (i : ℕ)
      → Holds fs (i ∷ h) fs'
      → (not (is_dir (desc_of fs' i).mode) || not (allowed fs' task i p_exec)) ≡ true
      → Got fs task h (none, fs')

module _ (fs : Fs) (g : Good fs) (h : List ℕ) (room : Room h) where
  entered-Walked :
      (fs1 : Fs) (task : Task) (i : ℕ) (next right : List ℕ) (later : Option Named) (n : Named)
      → Holds fs (i ∷ h) fs1
      → ((n' : Named) → later ≡ some n' → Walked fs task h n')
      → entered fs1 task i next right later ≡ some n
      → Walked fs task h n
  entered-Walked fs1 task i next right later n o f e =
      elim (Bool-cases (not (is_dir (desc_of fs1 i).mode) || not (allowed fs1 task i p_exec))) [
        | inl t ↦
            subst (Walked fs task h) (some_inj (none, fs1) n (sym (rw t refl) ∙ e)) (lost i o t)
        | inr t ↦ elim (Bool-cases (length right == length next)) [
          | inl u ↦
              subst (Walked fs task h) (some_inj (some (i, next), fs1) n (sym (rw (t, u) refl) ∙ e))
                (reached o)
          | inr u ↦ f n (sym (rw (t, u) refl) ∙ e)
        ]
      ]

  give_up-Walked :
      (fs1 : Fs) (task : Task) (dir : ℕ) (n : Named)
      → Holds fs (dir ∷ h) fs1
      → give_up fs1 dir ≡ some n
      → Walked fs task h n
  give_up-Walked fs1 task dir n o e =
      let (fs2, p, e1) = >>=-eq-some (iput fs1 (some dir)) _ e in
      subst (Walked fs task h) (some_inj (none, fs2) n e1)
        (missing (iput-Holds fs g fs1 fs2 dir h (omega arith) o p))

  next_part-Walked :
      (fs2 : Fs) (task : Task) (dir : ℕ) (right : List ℕ) (n : Named) (found : Option Entry)
      (again : Fs → ℕ → List ℕ → Option Named)
      → ((fs4 : Fs) (i : ℕ) (next : List ℕ) (n' : Named)
          → Holds fs (i ∷ h) fs4
          → again fs4 i next ≡ some n'
          → Walked fs task h n')
      → Holds fs (dir ∷ h) fs2
      → (elim found [
        | none ↦ give_up fs2 dir
        | some entry ↦ iput fs2 (some dir) >>= λ fs3. iget fs3 (fs2.table dir).dev entry.nr >>= λ q.
            entered q.1 task q.0 entry.next right (again q.1 q.0 entry.next)
      ])
        ≡ some n
      → Walked fs task h n
  next_part-Walked fs2 task dir right n none again f o e = give_up-Walked fs2 task dir n o e
  next_part-Walked fs2 task dir right n (some entry) again f o e =
      let (fs3, p, e1) = >>=-eq-some (iput fs2 (some dir)) _ e in
      let o3 = iput-Holds fs g fs2 fs3 dir h (omega arith) o p in
      let ((i, fs4), q, e2) = >>=-eq-some (iget fs3 (fs2.table dir).dev entry.nr) _ e1 in
      let o4 =
        iget-Holds fs g fs3 fs4 (fs2.table dir).dev entry.nr i h (held_used fs g fs2 dir h o)
          (omega arith) o3 q in
      entered-Walked fs4 task i entry.next right (again fs4 i entry.next) n o4
        (λ n' t. f fs4 i entry.next n' o4 t) e2

  walk-Walked :
      (fuel : ℕ) (fs1 : Fs) (task : Task) (inode : ℕ) (left right : List ℕ) (n : Named)
      → Holds fs (inode ∷ h) fs1
      → walk fuel fs1 task inode left right ≡ some n
      → Walked fs task h n
  unfolding walk
  walk-Walked zero fs1 task inode left right n o e = absurd (cc)
  walk-Walked (suc fuel) fs1 task inode left right n o e =
      let ((found, dir, fs2), s, e1) = >>=-eq-some (find_entry fs1 inode left) _ e in
      next_part-Walked fs2 task dir right n found (λ fs4 i next. walk fuel fs4 task i next right)
        (λ fs4 i next n' o4 t. walk-Walked fuel fs4 task i next right n' o4 t)
        (find_entry-Holds fs g fs1 h room inode dir left found fs2 o s).0 e1

  start_walk-Walked :
      (fuel : ℕ) (fs1 : Fs) (task : Task) (inode : ℕ) (left : List ℕ) (n : Named)
      → Holds fs (inode ∷ h) fs1
      → start_walk fuel fs1 task inode left ≡ some n
      → Walked fs task h n
  start_walk-Walked fuel fs1 task inode [] n o e = absurd (cc)
  start_walk-Walked fuel fs1 task inode (c ∷ left) n o e = elim (Bool-cases (c == 0)) [
    | inl t ↦
        subst (Walked fs task h) (some_inj (some (inode, c ∷ left), fs1) n (sym (rw t refl) ∙ e))
          (reached o)
    | inr t ↦ from (strrsep (c ∷ left)) (sym (rw t refl) ∙ e)
  ]
    where
      from :
          (r : Option (Option ℕ))
          → from_dir fuel fs1 task inode (c ∷ left) r ≡ some n
          → Walked fs task h n
      from none e = absurd (cc)
      from (some none) e =
          subst (Walked fs task h) (some_inj (some (inode, c ∷ left), fs1) n e) (reached o)
      from (some (some right)) e =
          walk-Walked fuel fs1 task inode (c ∷ left) (drop_list (suc right) (c ∷ left)) n o e

  -- With its two directories in use, a task takes one reference to the directory that it reaches.
  pub named-Walked :
      (fuel : ℕ) (fs1 : Fs) (task : Task) (path : List ℕ) (n : Named)
      → 1 ≤ (fs.table task.iroot).count
      → 1 ≤ (fs.table task.ipwd).count
      → Holds fs h fs1
      → named fuel fs1 task path ≡ some n
      → Walked fs task h n
  unfolding named
  named-Walked fuel fs1 task [] n a b o e = absurd (cc)
  named-Walked fuel fs1 task (c ∷ path) n a b o e = elim (Bool-cases (is_separator c)) [
    | inl t ↦
        let absolute : (skip_separators path >>= λ left.
        start_walk fuel (take fs1 task.iroot) task task.iroot left)
            ≡ some n =
          sym (rw t refl) ∙ e in
        let (left, _, e1) = >>=-eq-some (skip_separators path) _ absolute in
        start_walk-Walked fuel (take fs1 task.iroot) task task.iroot left n (held task.iroot a) e1
    | inr t ↦ elim (Bool-cases (c == 0)) [
      | inl u ↦
          subst (Walked fs task h) (some_inj (none, fs1) n (sym (rw (t, u) refl) ∙ e)) (missing o)
      | inr u ↦
          start_walk-Walked fuel (take fs1 task.ipwd) task task.ipwd (c ∷ path) n (held task.ipwd b)
            (sym (rw (t, u) refl) ∙ e)
    ]
  ]
    where
      held : (i : ℕ) → 1 ≤ (fs.table i).count → Holds fs (i ∷ h) (take fs1 i)
      held i p =
          take-Holds fs g fs1 i h (omega arith) (used fs g fs1 i h o (omega (arith, o.counts i, p)))
            o

  last_part-Got :
      (fs1 : Fs) (task : Task) (dir : ℕ) (name : List ℕ) (r : Option ℕ × Fs)
      → Holds fs (dir ∷ h) fs1
      → last_part fs1 dir name ≡ some r
      → Got fs task h r
  last_part-Got fs1 task dir name r o e =
      let ((found, dir', fs2), s, e1) = >>=-eq-some (find_entry fs1 dir name) _ e in
      part found dir' fs2 (find_entry-Holds fs g fs1 h room dir dir' name found fs2 o s).0 e1
    where
      part :
          (found : Option Entry) (d : ℕ) (fs2 : Fs)
          → Holds fs (d ∷ h) fs2
          → (elim found [
            | none ↦ iput fs2 (some d) >>= λ fs'. some (none, fs')
            | some entry ↦ iget fs2 (fs2.table d).dev entry.nr >>= λ q.
                iput q.1 (some d) >>= λ fs'. some (some q.0, fs')
          ])
            ≡ some r
          → Got fs task h r
      part none d fs2 o2 e =
          let (fs3, p, e1) = >>=-eq-some (iput fs2 (some d)) _ e in
          subst (Got fs task h) (some_inj (none, fs3) r e1)
            (nothing (iput-Holds fs g fs2 fs3 d h (omega arith) o2 p))
      part (some entry) d fs2 o2 e =
          let ((i, fs3), q, e1) = >>=-eq-some (iget fs2 (fs2.table d).dev entry.nr) _ e in
          let o3 =
            iget-Holds fs g fs2 fs3 (fs2.table d).dev entry.nr i (d ∷ h) (held_used fs g fs2 d h o2)
              (omega arith) o2 q in
          let (fs4, p, e2) = >>=-eq-some (iput fs3 (some d)) _ e1 in
          subst (Got fs task h) (some_inj (some i, fs4) r e2)
            (got (iput-Holds fs g fs3 fs4 d (i ∷ h) (omega arith) (swap fs fs3 i d h o3) p))

  pub namei_in-Got :
      (task : Task) (n : Named) (r : Option ℕ × Fs)
      → Walked fs task h n
      → namei_in n ≡ some r
      → Got fs task h r
  namei_in-Got task _ r (reached {i} {next} {fs'} o) e = elim (Bool-cases (at_end next)) [
    | inl t ↦ subst (Got fs task h) (some_inj (some i, fs') r (sym (rw t refl) ∙ e)) (got o)
    | inr t ↦ last_part-Got fs' task i next r o (sym (rw t refl) ∙ e)
  ]
  namei_in-Got task _ r (missing {fs'} o) e =
      subst (Got fs task h) (some_inj (none, fs') r e) (nothing o)
  namei_in-Got task _ r (lost {fs'} i o t) e =
      subst (Got fs task h) (some_inj (none, fs') r e) (lost_dir i o t)

-- `namei`, if it does not panic, takes one reference to the inode that it finds, in a state with good
-- counts and for a task whose directories are in use. If it finds none it takes no reference, but for
-- one case: on the way it may keep one to an inode that is no directory or may not be entered.
pub namei-Got :
    (fuel : ℕ) (fs : Fs) (task : Task) (path : List ℕ) (r : Option ℕ × Fs)
    → Good fs
    → 1 ≤ (fs.table task.iroot).count
    → 1 ≤ (fs.table task.ipwd).count
    → namei fuel fs task path ≡ some r
    → Got fs task [] r
unfolding namei
namei-Got fuel fs task path r g a b e =
    let (n, f, e1) = >>=-eq-some (named fuel fs task path) namei_in e in
    namei_in-Got fs g [] (omega arith) task n r
      (named-Walked fs g [] (omega arith) fuel fs task path n a b (Holds-nil fs g) f) e1
