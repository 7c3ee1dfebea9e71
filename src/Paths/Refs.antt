-- ===== src/Paths/Refs.antt =====
-- That the calls on names keep the references, call by call.
use mathlib.Core.Path.{subst}
use light_os.Inodes.{Fs, Task, iput, free_nr, desc_of}
use light_os.Inodes.Counts.{Good, Holds}
use light_os.Inodes.Truncate.{inode_truncate}
use light_os.Blocks.{eof}
use light_os.Paths.Entries.{Entry, find_entry, set_nr}
use light_os.Paths.Walk.{Named, allowed, p_write, at_end}
use light_os.Paths.Calls.{
  Result, in_dir, with_named, create, fill_dir, as_dir, make_dir, make_node, remove_link, link_down,
  link_up,
}
use light_os.Paths.Held.{Same-Holds, Settled, find_entry-Holds}
use light_os.Paths.Trail.{Closed, Walked, reached, missing, lost}
use light_os.Paths.Balance.{
  Balanced, balanced, inode_truncate-Same, free_nr-Same, fill_dir-Same, clean-Balanced,
  clean_dir-Balanced, create-Holds,
}
use light_os.Base.{
  ℕ, ◌≡◌, refl, sym, ◌⊎◌, none, inl, inr, not, ◌||◌, Option, some, List, [], ◌∷◌, ◌==◌, >>=-eq-some,
  assert-eq-some, some_inj, Bool-cases, then_of, else_of, arith,
}

-- The walk has failed at an inode that it cannot go into, and keeps a reference to it; the call refuses.
abbrev pub Lost : Fs → Task → Named → ℕ × Fs → Type 0
Lost fs task n r =
    (fs' : Fs) × (i : ℕ) × (n ≡ (none, fs'))
    × Closed fs' task i
    × Holds fs (i ∷ []) fs'
    × (r ≡ (eof, fs'))

module _ (fs : Fs) (g : Good fs) where
  pub with_named-Balanced :
      (task : Task) (n : Named) (go : ℕ → List ℕ → Fs → Result) (r : ℕ × Fs)
      → Walked fs task [] n
      → ((dir : ℕ) (name : List ℕ) (fs1 : Fs)
          → Holds fs (dir ∷ []) fs1
          → go dir name fs1 ≡ some r
          → Balanced fs r)
      → with_named n go ≡ some r
      → Balanced fs r ⊎ Lost fs task n r
  unfolding iput
  with_named-Balanced task _ go r (reached {i} {next} {fs'} o) f e = inl (f i next fs' o e)
  with_named-Balanced task _ go r (missing {fs'} o) f e =
      inl (subst (Balanced fs) (some_inj (eof, fs') r e) (balanced o))
  with_named-Balanced task _ go r (lost {fs'} i o t) f e =
      inr (fs', i, refl, t, o, sym (some_inj (eof, fs') r e))

  pub in_dir-Balanced :
      (fs1 : Fs) (task : Task) (dir : ℕ) (name : List ℕ) (go : Option Entry × ℕ × Fs → Result)
      (r : ℕ × Fs)
      → Holds fs (dir ∷ []) fs1
      → ((found : Option Entry) (dir' : ℕ) (fs2 : Fs)
          → Holds fs (dir' ∷ []) fs2
          → Settled fs2 dir' name
          → go (found, dir', fs2) ≡ some r
          → Balanced fs r)
      → in_dir fs1 task dir name go ≡ some r
      → Balanced fs r
  in_dir-Balanced fs1 task dir name go r o f e =
      elim (Bool-cases (at_end name || not (allowed fs1 task dir p_write))) [
        | inl t ↦
            clean_dir-Balanced fs g fs1 dir eof r o
              (then_of (at_end name || not (allowed fs1 task dir p_write)) _ _ t e)
        | inr t ↦
            let ((found, dir', fs2), p, e1) =
              >>=-eq-some (find_entry fs1 dir name) go
                (else_of (at_end name || not (allowed fs1 task dir p_write)) _ _ t e) in
            let (o2, s) = find_entry-Holds fs g fs1 [] (omega arith) dir dir' name found fs2 o p in
            f found dir' fs2 o2 s e1
      ]

  pub make_dir-Balanced :
      (fs1 : Fs) (task : Task) (dir : ℕ) (name : List ℕ) (mode : ℕ) (r : ℕ × Fs)
      → Holds fs (dir ∷ []) fs1
      → Settled fs1 dir name
      → make_dir fs1 task dir name mode ≡ some r
      → Balanced fs r
  make_dir-Balanced fs1 task dir name mode r o s e =
      let ((i, fs2), p, e1) = >>=-eq-some (create fs1 task dir name) _ e in
      let fs3 = link_up (as_dir fs2 task i mode) dir in
      let (fs4, q, e2) = >>=-eq-some (fill_dir fs3 i dir) _ e1 in
      let held = i ∷ dir ∷ [] in
      let o2 = create-Holds fs g fs1 fs2 task dir i name o s p in
      clean-Balanced fs g fs4 i dir 0 r
        (Same-Holds fs fs3 fs4 held (fill_dir-Same fs3 fs4 i dir q)
          (Same-Holds fs fs2 fs3 held (refl, refl) o2))
        e2

  pub make_node-Balanced :
      (fs1 : Fs) (task : Task) (dir : ℕ) (name : List ℕ) (mode dev : ℕ) (r : ℕ × Fs)
      → Holds fs (dir ∷ []) fs1
      → Settled fs1 dir name
      → make_node fs1 task dir name mode dev ≡ some r
      → Balanced fs r
  make_node-Balanced fs1 task dir name mode dev r o s e =
      let ((i, fs2), p, e1) = >>=-eq-some (create fs1 task dir name) _ e in
      let o2 = create-Holds fs g fs1 fs2 task dir i name o s p in
      clean-Balanced fs g _ i dir 0 r (Same-Holds fs fs2 _ (i ∷ dir ∷ []) (refl, refl) o2) e1

  pub remove_link-Balanced :
      (fs1 : Fs) (dir i : ℕ) (entry : Entry) (r : ℕ × Fs)
      → Holds fs (i ∷ dir ∷ []) fs1
      → remove_link fs1 dir i entry ≡ some r
      → Balanced fs r
  remove_link-Balanced fs1 dir i entry r o e =
      let held = i ∷ dir ∷ [] in
      let fs2 = link_down (set_nr fs1 entry 0) i in
      let o2 = Same-Holds fs fs1 fs2 held (refl, refl) o in
      let (_, e1) = assert-eq-some (not ((desc_of fs1 i).nlinks == 0)) _ e in
      elim (Bool-cases ((desc_of fs2 i).nlinks == 0)) [
        | inl t ↦
            let (fs3, p, e2) =
              >>=-eq-some (inode_truncate fs2 i) _
                (then_of ((desc_of fs2 i).nlinks == 0) _ _ t e1) in
            let (fs4, q, e3) = >>=-eq-some (free_nr fs3 _ _) _ e2 in
            let o3 = Same-Holds fs fs2 fs3 held (inode_truncate-Same fs2 fs3 i p) o2 in
            clean-Balanced fs g fs4 i dir 0 r
              (Same-Holds fs fs3 fs4 held (free_nr-Same fs3 fs4 _ _ q) o3) e3
        | inr t ↦
            clean-Balanced fs g fs2 i dir 0 r o2 (else_of ((desc_of fs2 i).nlinks == 0) _ _ t e1)
      ]
