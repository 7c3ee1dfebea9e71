-- ===== src/Paths/References.antt =====
-- That the calls on names keep the references: the theorems of the whole calls.
use mathlib.Core.Path.{subst}
use light_os.Inodes.{Fs, Task, iput, iget, desc_of}
use light_os.Inodes.Counts.{Good, Holds, Holds-nil}
use light_os.Inodes.Truncate.{is_dir}
use light_os.Blocks.{eof}
use light_os.Paths.Entries.{Entry}
use light_os.Paths.Walk.{Named, named, namei, at_end}
use light_os.Paths.Calls.{
  clean, make_dir, sys_mkdir, make_node, sys_mknod, unlink_found, sys_unlink, check_dir, is_dot,
  sys_rmdir, link_named, link_from, rmdir_in, sys_link,
}
use light_os.Paths.Held.{Settled}
use light_os.Paths.Trail.{Closed, Walked, named-Walked, Got, got, nothing, lost_dir, namei-Got}
use light_os.Paths.Balance.{Balanced, balanced, clean_dir-Balanced}
use light_os.Paths.Run.{
  NameCall, mkdir, rmdir, link, unlink, mknod, run, WalkFails, Settles, settled, leaked,
}
use light_os.Paths.Refs.{
  Lost, with_named-Balanced, in_dir-Balanced, make_dir-Balanced, make_node-Balanced,
}
use light_os.Base.{
  ℕ, ◌≤◌, ◌≡◌, sym, ap, ◌∙◌, ◌⊎◌, inl, inr, Option, none, some, List, [], ◌∷◌, ◌>>=◌, >>=-eq-some,
  some_inj, Bool-cases, then_of, else_of, arith,
}
use light_os.Paths.Removal.{
  get_entry-Holds, check_dir-Balanced, unlink_found-Balanced, link_named-Balanced,
}

module _ (fs : Fs) (g : Good fs) (task : Task) (root : 1 ≤ (fs.table task.iroot).count)
    (pwd : 1 ≤ (fs.table task.ipwd).count) (fuel : ℕ) where
  walked : (path : List ℕ) (n : Named) → named fuel fs task path ≡ some n → Walked fs task [] n
  walked path n e =
      named-Walked fs g [] (omega arith) fuel fs task path n root pwd (Holds-nil fs g) e

  -- The outcome of a call with one walk
  settle :
      (call : NameCall) (path : List ℕ) (n : Named) {r : ℕ × Fs}
      → named fuel fs task path ≡ some n
      → ((fs' : Fs) (i : ℕ)
          → (named fuel fs task path ≡ some (none, fs'))
          → Closed fs' task i
          → WalkFails fuel fs task call i fs')
      → Balanced fs r ⊎ Lost fs task n r
      → Settles fs task fuel call r
  settle call path n p fails (inl o) = settled o
  settle call path n p fails (inr (fs', i, e, c, o, q)) =
      subst (Settles fs task fuel call) (sym q)
        (leaked i (fails fs' i (p ∙ ap (λ m. some m) e) c) o)

  sys_mkdir-Balanced :
      (path : List ℕ) (mode : ℕ) (r : ℕ × Fs)
      → sys_mkdir fuel fs task path mode ≡ some r
      → Settles fs task fuel (mkdir path mode) r
  unfolding sys_mkdir
  sys_mkdir-Balanced path mode r e =
      let (n, p, e1) = >>=-eq-some (named fuel fs task path) _ e in
      settle (mkdir path mode) path n p (λ fs' i f c. (f, c))
        (with_named-Balanced fs g task n _ r (walked path n p)
          (λ dir name fs1 o f. in_dir-Balanced fs g fs1 task dir name _ r o (go name) f) e1)
    where
      go :
          (name : List ℕ) (found : Option Entry) (d : ℕ) (fs2 : Fs)
          → Holds fs (d ∷ []) fs2
          → Settled fs2 d name
          → (elim found [
            | some entry ↦ clean fs2 none (some d) eof
            | none ↦ make_dir fs2 task d name mode
          ])
            ≡ some r
          → Balanced fs r
      go name none d fs2 o s e = make_dir-Balanced fs g fs2 task d name mode r o s e
      go name (some entry) d fs2 o s e = clean_dir-Balanced fs g fs2 d eof r o e

  sys_mknod-Balanced :
      (path : List ℕ) (mode dev : ℕ) (r : ℕ × Fs)
      → sys_mknod fuel fs task path mode dev ≡ some r
      → Settles fs task fuel (mknod path mode dev) r
  unfolding sys_mknod
  sys_mknod-Balanced path mode dev r e =
      let (n, p, e1) = >>=-eq-some (named fuel fs task path) _ e in
      settle (mknod path mode dev) path n p (λ fs' i f c. (f, c))
        (with_named-Balanced fs g task n _ r (walked path n p)
          (λ dir name fs1 o f. in_dir-Balanced fs g fs1 task dir name _ r o (go name) f) e1)
    where
      go :
          (name : List ℕ) (found : Option Entry) (d : ℕ) (fs2 : Fs)
          → Holds fs (d ∷ []) fs2
          → Settled fs2 d name
          → (elim found [
            | some entry ↦ clean fs2 none (some d) eof
            | none ↦ make_node fs2 task d name mode dev
          ])
            ≡ some r
          → Balanced fs r
      go name none d fs2 o s e = make_node-Balanced fs g fs2 task d name mode dev r o s e
      go name (some entry) d fs2 o s e = clean_dir-Balanced fs g fs2 d eof r o e

  sys_unlink-Balanced :
      (path : List ℕ) (r : ℕ × Fs)
      → sys_unlink fuel fs task path ≡ some r
      → Settles fs task fuel (unlink path) r
  unfolding sys_unlink
  sys_unlink-Balanced path r e =
      let (n, p, e1) = >>=-eq-some (named fuel fs task path) _ e in
      settle (unlink path) path n p (λ fs' i f c. (f, c))
        (with_named-Balanced fs g task n _ r (walked path n p)
          (λ dir name fs1 o f. in_dir-Balanced fs g fs1 task dir name _ r o (go name) f) e1)
    where
      go :
          (name : List ℕ) (found : Option Entry) (d : ℕ) (fs2 : Fs)
          → Holds fs (d ∷ []) fs2
          → Settled fs2 d name
          → (elim found [
            | none ↦ clean fs2 none (some d) eof
            | some entry ↦
                iget fs2 (fs2.table d).dev entry.nr >>= λ q. unlink_found q.1 task d q.0 entry
          ])
            ≡ some r
          → Balanced fs r
      go name none d fs2 o s e = clean_dir-Balanced fs g fs2 d eof r o e
      go name (some entry) d fs2 o s e =
          let ((i, fs3), q, e1) = >>=-eq-some (iget fs2 (fs2.table d).dev entry.nr) _ e in
          unlink_found-Balanced fs g fs3 task d i entry r
            (get_entry-Holds fs g fs2 fs3 d i entry.nr o q) e1

  sys_rmdir-Balanced :
      (path : List ℕ) (r : ℕ × Fs)
      → sys_rmdir fuel fs task path ≡ some r
      → Settles fs task fuel (rmdir path) r
  unfolding sys_rmdir
  sys_rmdir-Balanced path r e =
      let (n, p, e1) = >>=-eq-some (named fuel fs task path) _ e in
      settle (rmdir path) path n p (λ fs' i f c. (f, c))
        (with_named-Balanced fs g task n _ r (walked path n p)
          (λ dir name fs1 o f. checked dir name fs1 o f) e1)
    where
      go :
          (name : List ℕ) (found : Option Entry) (d : ℕ) (fs2 : Fs)
          → Holds fs (d ∷ []) fs2
          → Settled fs2 d name
          → (elim found [
            | none ↦ clean fs2 none (some d) eof
            | some entry ↦
                iget fs2 (fs2.table d).dev entry.nr >>= λ q. check_dir q.1 task d q.0 entry
          ])
            ≡ some r
          → Balanced fs r
      go name none d fs2 o s e = clean_dir-Balanced fs g fs2 d eof r o e
      go name (some entry) d fs2 o s e =
          let ((i, fs3), q, e1) = >>=-eq-some (iget fs2 (fs2.table d).dev entry.nr) _ e in
          check_dir-Balanced fs g fs3 task d i entry r
            (get_entry-Holds fs g fs2 fs3 d i entry.nr o q) e1

      checked :
          (dir : ℕ) (name : List ℕ) (fs1 : Fs)
          → Holds fs (dir ∷ []) fs1
          → rmdir_in task dir name fs1 ≡ some r
          → Balanced fs r
      checked dir name fs1 o e = elim (Bool-cases (at_end name)) [
        | inl t ↦ clean_dir-Balanced fs g fs1 dir eof r o (then_of (at_end name) _ _ t e)
        | inr t ↦
            let (dot, _, e1) = >>=-eq-some (is_dot name) _ (else_of (at_end name) _ _ t e) in
            elim (Bool-cases dot) [
              | inl u ↦ clean_dir-Balanced fs g fs1 dir eof r o (then_of dot _ _ u e1)
              | inr u ↦
                  in_dir-Balanced fs g fs1 task dir name _ r o (go name) (else_of dot _ _ u e1)
            ]
      ]

  sys_link-Balanced :
      (oldname newname : List ℕ) (r : ℕ × Fs)
      → sys_link fuel fs task oldname newname ≡ some r
      → Settles fs task fuel (link oldname newname) r
  unfolding sys_link iput
  sys_link-Balanced oldname newname r e =
      let (q, p, e1) = >>=-eq-some (namei fuel fs task oldname) (link_from fuel task newname) e in
      go q p (namei-Got fuel fs task oldname q g root pwd p) e1
    where
      new :
          (i : ℕ) (fs1 : Fs) (n : Named)
          → namei fuel fs task oldname ≡ some (some i, fs1)
          → named fuel fs1 task newname ≡ some n
          → Balanced fs r
            ⊎ ((fs2 : Fs) × (fs' : Fs) × (j : ℕ) × (n ≡ (none, fs2))
                × Closed fs2 task j
                × (iput fs2 (some i) ≡ some fs')
                × Holds fs (j ∷ []) fs'
                × (r ≡ (eof, fs')))
          → Settles fs task fuel (link oldname newname) r
      new i fs1 n old p (inl o) = settled o
      new i fs1 n old p (inr (fs2, fs', j, e, c, put, o, q)) =
          subst (Settles fs task fuel (link oldname newname)) (sym q)
            (leaked j (inr (i, fs1, fs2, old, p ∙ ap (λ m. some m) e, c, put)) o)

      held :
          (i : ℕ) (fs1 : Fs)
          → namei fuel fs task oldname ≡ some (some i, fs1)
          → Holds fs (i ∷ []) fs1
          → link_from fuel task newname (some i, fs1) ≡ some r
          → Settles fs task fuel (link oldname newname) r
      held i fs1 old o e = elim (Bool-cases (is_dir (desc_of fs1 i).mode)) [
        | inl t ↦
            settled (
              clean_dir-Balanced fs g fs1 i eof r o (then_of (is_dir (desc_of fs1 i).mode) _ _ t e))
        | inr t ↦
            let (n, p, e1) =
              >>=-eq-some (named fuel fs1 task newname) (link_named task i)
                (else_of (is_dir (desc_of fs1 i).mode) _ _ t e) in
            new i fs1 n old p (
              link_named-Balanced fs g task i n r
                (named-Walked fs g (i ∷ []) (omega arith) fuel fs1 task newname n root pwd o p) e1)
      ]

      go :
          (q : Option ℕ × Fs)
          → namei fuel fs task oldname ≡ some q
          → Got fs task [] q
          → link_from fuel task newname q ≡ some r
          → Settles fs task fuel (link oldname newname) r
      go _ p (got {i} {fs'} o) e = held i fs' p o e
      go _ p (nothing {fs'} o) e =
          settled (subst (Balanced fs) (some_inj (eof, fs') r e) (balanced o))
      go _ p (lost_dir {fs'} i o t) e =
          subst (Settles fs task fuel (link oldname newname)) (some_inj (eof, fs') r e)
            (leaked i (inl (p, t)) o)

-- `sys_mkdir`, `sys_rmdir`, `sys_link`, `sys_unlink` and `sys_mknod`, on every path through them that
-- does not panic, give back each reference to an inode that they take, and free no slot that was in
-- use; but where the walk along a path of the call fails at an inode that is no directory or may not be
-- entered, the call refuses and one reference is lost, to that inode. The counts must be good, and the
-- directories of the task in use.
pub run-Balanced :
    (fs : Fs) (task : Task) (fuel : ℕ) (call : NameCall) (r : ℕ × Fs)
    → Good fs
    → 1 ≤ (fs.table task.iroot).count
    → 1 ≤ (fs.table task.ipwd).count
    → run fuel fs task call ≡ some r
    → Settles fs task fuel call r
run-Balanced fs task fuel (mkdir path mode) r g a b e =
    sys_mkdir-Balanced fs g task a b fuel path mode r e
run-Balanced fs task fuel (rmdir path) r g a b e = sys_rmdir-Balanced fs g task a b fuel path r e
run-Balanced fs task fuel (link oldname newname) r g a b e =
    sys_link-Balanced fs g task a b fuel oldname newname r e
run-Balanced fs task fuel (unlink path) r g a b e = sys_unlink-Balanced fs g task a b fuel path r e
run-Balanced fs task fuel (mknod path mode dev) r g a b e =
    sys_mknod-Balanced fs g task a b fuel path mode dev r e
