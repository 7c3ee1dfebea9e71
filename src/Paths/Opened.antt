-- ===== src/Paths/Opened.antt =====
-- What `inode_open` does to the references, and which files it opens.
use mathlib.Core.Path.{subst}
use light_os.Inodes.{Fs, Task, iput, iget, desc_of}
use light_os.Inodes.Counts.{Good, Holds, iput-Holds, Holds-nil}
use light_os.Inodes.Truncate.{is_dir, inode_truncate}
use light_os.Paths.Entries.{Entry, find_entry}
use light_os.Paths.Walk.{Named, named, allowed, p_write, at_end}
use light_os.Paths.Calls.{create}
use light_os.Paths.Open.{
  acc_of, o_creat, o_trunc, acc_mode, give_back, makeup, open_found, make_file, open_missing,
  open_in, inode_open,
}
use light_os.Paths.Held.{Same, Same-Holds, Settled, find_entry-Holds, swap}
use light_os.Paths.Trail.{Closed, Walked, reached, missing, lost, named-Walked}
use light_os.Paths.Balance.{inode_truncate-Same, create-Holds}
use light_os.Paths.Removal.{get_entry-Holds}
use light_os.Base.{
  ℕ, ◌≤◌, ◌≡◌, ◌⊎◌, refl, sym, ap, ◌∙◌, inl, inr, false, not, ◌&&◌, Option, none, some, List, [],
  ◌∷◌, ◌==◌, if◌then◌else◌, ◌>>=◌, >>=-eq-some, some_inj, Bool-cases, then_of, else_of, arith,
}

-- The outcomes: the inode with one reference, or none.
pub data Opens (fs : Fs) : Option ℕ × Fs → Type 0 where
  opened : {i : ℕ} {fs' : Fs} → Holds fs (i ∷ []) fs' → Opens fs (some i, fs')
  refused : {fs' : Fs} → Holds fs [] fs' → Opens fs (none, fs')

-- The walk fails at an inode that it cannot go into, and keeps a reference to it; nothing is opened.
abbrev pub OpenLost : Fs → Task → (fuel : ℕ) → (path : List ℕ) → Option ℕ × Fs → Type 0
OpenLost fs task fuel path r =
    (fs' : Fs) × (i : ℕ) × (named fuel fs task path ≡ some (none, fs'))
    × Closed fs' task i
    × Holds fs (i ∷ []) fs'
    × (r ≡ (none, fs'))

module _ (fs : Fs) (g : Good fs) where
  give_back-Opens :
      (fs1 : Fs) (i dir : ℕ) (r : Option ℕ × Fs)
      → Holds fs (i ∷ dir ∷ []) fs1
      → give_back fs1 (some i) (some dir) ≡ some r
      → Opens fs r
  give_back-Opens fs1 i dir r o e =
      let (fs2, p, e1) = >>=-eq-some (iput fs1 (some i)) _ e in
      let o2 = iput-Holds fs g fs1 fs2 i (dir ∷ []) (omega arith) o p in
      let (fs3, q, e2) = >>=-eq-some (iput fs2 (some dir)) _ e1 in
      subst (Opens fs) (some_inj (none, fs3) r e2)
        (refused (iput-Holds fs g fs2 fs3 dir [] (omega arith) o2 q))

  give_dir-Opens :
      (fs1 : Fs) (dir : ℕ) (r : Option ℕ × Fs)
      → Holds fs (dir ∷ []) fs1
      → give_back fs1 none (some dir) ≡ some r
      → Opens fs r
  unfolding iput
  give_dir-Opens fs1 dir r o e =
      let (fs3, q, e2) = >>=-eq-some (iput fs1 (some dir)) _ e in
      subst (Opens fs) (some_inj (none, fs3) r e2)
        (refused (iput-Holds fs g fs1 fs3 dir [] (omega arith) o q))

  makeup-Opens :
      (fs1 : Fs) (flag dir i : ℕ) (r : Option ℕ × Fs)
      → Holds fs (i ∷ dir ∷ []) fs1
      → makeup fs1 flag dir i ≡ some r
      → Opens fs r
  makeup-Opens fs1 flag dir i r o e =
      let emptied = if o_trunc flag then inode_truncate fs1 i else some fs1 in
      let (fs2, p, e1) = >>=-eq-some emptied _ e in
      let o2 = Same-Holds fs fs1 fs2 (i ∷ dir ∷ []) (kept fs2 p) o in
      let (fs3, q, e2) = >>=-eq-some (iput fs2 (some dir)) _ e1 in
      subst (Opens fs) (some_inj (some i, fs3) r e2)
        (opened (iput-Holds fs g fs2 fs3 dir (i ∷ []) (omega arith) (swap fs fs2 i dir [] o2) q))
    where
      kept :
          (fs2 : Fs)
          → (if o_trunc flag then inode_truncate fs1 i else some fs1) ≡ some fs2
          → Same fs1 fs2
      kept fs2 p = elim (Bool-cases (o_trunc flag)) [
        | inl t ↦ inode_truncate-Same fs1 fs2 i (then_of (o_trunc flag) _ _ t p)
        | inr t ↦
            let f = some_inj fs1 fs2 (else_of (o_trunc flag) _ _ t p) in
            (ap (λ s. s.table) (sym f), ap (λ s. s.supers) (sym f))
      ]

  open_found-Opens :
      (fs1 : Fs) (task : Task) (flag dir i : ℕ) (r : Option ℕ × Fs)
      → Holds fs (i ∷ dir ∷ []) fs1
      → open_found fs1 task flag dir i ≡ some r
      → Opens fs r
  open_found-Opens fs1 task flag dir i r o e =
      let denied = not (allowed fs1 task i (acc_mode (acc_of flag))) in
      let unfit = is_dir (desc_of fs1 i).mode && not (acc_of flag == 0) in
      elim (Bool-cases denied) [
        | inl t ↦ makeup-Opens fs1 flag dir i r o (then_of denied _ _ t e)
        | inr t ↦ elim (Bool-cases unfit) [
          | inl u ↦ give_back-Opens fs1 i dir r o (then_of unfit _ _ u (else_of denied _ _ t e))
          | inr u ↦ makeup-Opens fs1 flag dir i r o (else_of unfit _ _ u (else_of denied _ _ t e))
        ]
      ]

  open_missing-Opens :
      (fs1 : Fs) (task : Task) (flag mode dir : ℕ) (name : List ℕ) (r : Option ℕ × Fs)
      → Holds fs (dir ∷ []) fs1
      → Settled fs1 dir name
      → open_missing fs1 task flag mode dir name ≡ some r
      → Opens fs r
  open_missing-Opens fs1 task flag mode dir name r o s e =
      let may = o_creat flag && allowed fs1 task dir p_write in
      elim (Bool-cases may) [
        | inl t ↦
            let made : make_file fs1 task flag mode dir name ≡ some r = then_of may _ _ t e in
            let ((i, fs2), p, e1) = >>=-eq-some (create fs1 task dir name) _ made in
            let o2 = create-Holds fs g fs1 fs2 task dir i name o s p in
            makeup-Opens _ flag dir i r (Same-Holds fs fs2 _ (i ∷ dir ∷ []) (refl, refl) o2) e1
        | inr t ↦ give_dir-Opens fs1 dir r o (else_of may _ _ t e)
      ]

  open_in-Opens :
      (task : Task) (fuel : ℕ) (path : List ℕ) (flag mode : ℕ) (n : Named) (r : Option ℕ × Fs)
      → named fuel fs task path ≡ some n
      → Walked fs task [] n
      → open_in task flag mode n ≡ some r
      → Opens fs r ⊎ OpenLost fs task fuel path r
  open_in-Opens task fuel path flag mode _ r p (missing {fs'} o) e =
      inl (subst (Opens fs) (some_inj (none, fs') r e) (refused o))
  open_in-Opens task fuel path flag mode _ r p (lost {fs'} i o t) e =
      inr (fs', i, p, t, o, sym (some_inj (none, fs') r e))
  open_in-Opens task fuel path flag mode _ r p (reached {i} {next} {fs'} o) e =
      inl (elim (Bool-cases (at_end next)) [
        | inl t ↦
            subst (Opens fs) (some_inj (some i, fs') r (then_of (at_end next) _ _ t e)) (opened o)
        | inr t ↦
            let ((found, d, fs2), p, e1) =
              >>=-eq-some (find_entry fs' i next) _ (else_of (at_end next) _ _ t e) in
            let (o2, s) = find_entry-Holds fs g fs' [] (omega arith) i d next found fs2 o p in
            searched next found d fs2 o2 s e1
      ])
    where
      searched :
          (name : List ℕ) (found : Option Entry) (d : ℕ) (fs2 : Fs)
          → Holds fs (d ∷ []) fs2
          → Settled fs2 d name
          → (elim found [
            | none ↦ open_missing fs2 task flag mode d name
            | some entry ↦
                iget fs2 (fs2.table d).dev entry.nr >>= λ q. open_found q.1 task flag d q.0
          ])
            ≡ some r
          → Opens fs r
      searched name none d fs2 o s e = open_missing-Opens fs2 task flag mode d name r o s e
      searched name (some entry) d fs2 o s e =
          let ((i, fs3), q, e1) = >>=-eq-some (iget fs2 (fs2.table d).dev entry.nr) _ e in
          open_found-Opens fs3 task flag d i r (get_entry-Holds fs g fs2 fs3 d i entry.nr o q) e1

-- `inode_open`, if it does not panic, takes one reference to the inode that it returns, in a state
-- with good counts and for a task whose directories are in use. If it returns none it takes none; but if
-- the walk along the path fails at an inode that is no directory or may not be entered, one is lost, to
-- that inode.
pub inode_open-Opens :
    (fs : Fs) (task : Task) (fuel : ℕ) (path : List ℕ) (flag mode : ℕ) (r : Option ℕ × Fs)
    → Good fs
    → 1 ≤ (fs.table task.iroot).count
    → 1 ≤ (fs.table task.ipwd).count
    → inode_open fuel fs task path flag mode ≡ some r
    → Opens fs r ⊎ OpenLost fs task fuel path r
unfolding inode_open
inode_open-Opens fs task fuel path flag mode r g a b e =
    let bad = o_trunc flag && acc_of flag == 0 in
    elim (Bool-cases bad) [
      | inl t ↦ inl (
          subst (Opens fs) (some_inj (none, fs) r (then_of bad _ _ t e)) (refused (Holds-nil fs g)))
      | inr t ↦
          let (n, p, e1) =
            >>=-eq-some (named fuel fs task path) (open_in task flag mode) (else_of bad _ _ t e) in
          open_in-Opens fs g task fuel path flag mode n r p
            (named-Walked fs g [] (omega arith) fuel fs task path n a b (Holds-nil fs g) p) e1
    ]

-- Once it has found a file that is not a directory, `inode_open` does the same for every task: the
-- rights that it tests make no difference.
pub open_found_any :
    (fs : Fs) (one other : Task) (flag dir i : ℕ)
    → is_dir (desc_of fs i).mode ≡ false
    → open_found fs one flag dir i ≡ open_found fs other flag dir i
open_found_any fs one other flag dir i file = made one ∙ sym (made other)
  where
    made : (task : Task) → open_found fs task flag dir i ≡ makeup fs flag dir i
    made task = elim (Bool-cases (not (allowed fs task i (acc_mode (acc_of flag))))) [
      | inl t ↦ rw t refl
      | inr t ↦ rw (t, file) refl
    ]
