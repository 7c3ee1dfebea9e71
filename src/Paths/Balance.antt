-- ===== src/Paths/Balance.antt =====
-- The references over the calls that make and remove names: what each takes it gives back.
use mathlib.Core.Path.{subst}
use light_os.Inodes.{Fs, Task, iput, iget, alloc_nr, free_nr, new_inode, desc_of}
use light_os.Inodes.Counts.{Good, Holds, iput-Holds, held_used}
use light_os.Inodes.Get.{iget-Holds}
use light_os.Inodes.Truncate.{is_dir, is_file, inode_truncate, free_zone}
use light_os.Blocks.{bmap, ialloc, ifree}
use light_os.Paths.Entries.{add_entry, set_nr, blocks_of}
use light_os.Paths.Calls.{clean, create, fill_dir}
use light_os.Paths.Held.{Same, Same-Holds, Settled, add_entry-Same}
use light_os.Base.{
  ℕ, ◌≡◌, refl, sym, ap, ◌∙◌, inl, inr, true, ◌||◌, none, some, List, [], ◌∷◌, >>=-eq-some,
  some_inj, Bool-cases, then_of, arith,
}

-- A call keeps no reference.
pub data Balanced (fs : Fs) : ℕ × Fs → Type 0 where
  balanced : {ret : ℕ} {fs' : Fs} → Holds fs [] fs' → Balanced fs (ret, fs')

pub inode_truncate-Same : (fs fs' : Fs) (i : ℕ) → inode_truncate fs i ≡ some fs' → Same fs fs'
unfolding inode_truncate
inode_truncate-Same fs fs' i e =
    elim (Bool-cases (is_dir (desc_of fs i).mode || is_file (desc_of fs i).mode)) [
      | inl t ↦
          let (r, _, e1) =
            >>=-eq-some
              (free_zone (fs.volume (fs.table i).dev) (fs.zone (fs.table i).dev (fs.table i).nr)) _
              (then_of (is_dir (desc_of fs i).mode || is_file (desc_of fs i).mode) _ _ t e) in
          let p = some_inj _ fs' e1 in (ap (λ f. f.table) (sym p), ap (λ f. f.supers) (sym p))
      | inr t ↦
          let p = some_inj fs fs' (sym (rw t refl) ∙ e) in
          (ap (λ f. f.table) (sym p), ap (λ f. f.supers) (sym p))
    ]

pub free_nr-Same : (fs fs' : Fs) (dev nr : ℕ) → free_nr fs dev nr ≡ some fs' → Same fs fs'
unfolding free_nr
free_nr-Same fs fs' dev nr e =
    let (vol, _, e1) = >>=-eq-some (ifree (fs.volume dev) nr) _ e in
    let p = some_inj _ fs' e1 in (ap (λ f. f.table) (sym p), ap (λ f. f.supers) (sym p))

alloc_nr-Same : (fs fs' : Fs) (dev nr : ℕ) → alloc_nr fs dev ≡ some (nr, fs') → Same fs fs'
unfolding alloc_nr
alloc_nr-Same fs fs' dev nr e =
    let (sb, _, e1) = >>=-eq-some (fs.supers dev) _ e in
    let (r, _, e2) = >>=-eq-some (ialloc (fs.volume dev) sb.inodes) _ e1 in
    let p = some_inj _ (nr, fs') e2 in (ap (λ f. f.1.table) (sym p), ap (λ f. f.1.supers) (sym p))

pub fill_dir-Same : (fs fs' : Fs) (inode dir : ℕ) → fill_dir fs inode dir ≡ some fs' → Same fs fs'
fill_dir-Same fs fs' inode dir e =
    let (r, _, e1) = >>=-eq-some (bmap (blocks_of fs inode) 0 true) _ e in
    let p = some_inj _ fs' e1 in (ap (λ f. f.table) (sym p), ap (λ f. f.supers) (sym p))

module _ (fs : Fs) (g : Good fs) where
  pub clean-Balanced :
      (fs1 : Fs) (a b ret : ℕ) (r : ℕ × Fs)
      → Holds fs (a ∷ b ∷ []) fs1
      → clean fs1 (some a) (some b) ret ≡ some r
      → Balanced fs r
  clean-Balanced fs1 a b ret r o e =
      let (fs2, p, e1) = >>=-eq-some (iput fs1 (some a)) _ e in
      let o2 = iput-Holds fs g fs1 fs2 a (b ∷ []) (omega arith) o p in
      let (fs3, q, e2) = >>=-eq-some (iput fs2 (some b)) _ e1 in
      subst (Balanced fs) (some_inj (ret, fs3) r e2)
        (balanced (iput-Holds fs g fs2 fs3 b [] (omega arith) o2 q))

  pub clean_dir-Balanced :
      (fs1 : Fs) (b ret : ℕ) (r : ℕ × Fs)
      → Holds fs (b ∷ []) fs1
      → clean fs1 none (some b) ret ≡ some r
      → Balanced fs r
  unfolding iput
  clean_dir-Balanced fs1 b ret r o e =
      let (fs3, q, e2) = >>=-eq-some (iput fs1 (some b)) _ e in
      subst (Balanced fs) (some_inj (ret, fs3) r e2)
        (balanced (iput-Holds fs g fs1 fs3 b [] (omega arith) o q))

  pub create-Holds :
      (fs1 fs2 : Fs) (task : Task) (dir i : ℕ) (name : List ℕ)
      → Holds fs (dir ∷ []) fs1
      → Settled fs1 dir name
      → create fs1 task dir name ≡ some (i, fs2)
      → Holds fs (i ∷ dir ∷ []) fs2
  unfolding new_inode
  create-Holds fs1 fs2 task dir i name o settled e =
      let ((entry, fs3), p, e1) = >>=-eq-some (add_entry fs1 dir name) _ e in
      let o3 =
        Same-Holds fs fs1 fs3 (dir ∷ []) (add_entry-Same fs1 fs3 dir name entry settled p) o in
      let ((nr, fs4), q, e2) = >>=-eq-some (alloc_nr fs3 (fs3.table dir).dev) _ e1 in
      let o4 =
        Same-Holds fs fs3 fs4 (dir ∷ []) (alloc_nr-Same fs3 fs4 (fs3.table dir).dev nr q) o3 in
      let fs5 = set_nr fs4 entry nr in
      let o5 = Same-Holds fs fs4 fs5 (dir ∷ []) (refl, refl) o4 in
      let ((j, fs6), s, e3) = >>=-eq-some (iget fs5 (fs4.table dir).dev _) _ e2 in
      let o6 =
        iget-Holds fs g fs5 fs6 (fs4.table dir).dev _ j (dir ∷ []) (held_used fs g fs4 dir [] o4)
          (omega arith) o5 s in
      let done = some_inj _ (i, fs2) e3 in
      subst (λ p. Holds fs (p.0 ∷ dir ∷ []) p.1) done
        (Same-Holds fs fs6 _ (j ∷ dir ∷ []) (refl, refl) o6)
