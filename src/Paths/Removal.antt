-- ===== src/Paths/Removal.antt =====
-- That taking names away and adding links keeps the references.
use Prim.Native.Nat.{bit_and}
use light_os.Inodes.{Fs, Task, iput, iget, free_nr, desc_of, set_desc, set_inode}
use light_os.Inodes.Counts.{Good, Holds, held_used, iput-Holds}
use light_os.Inodes.Get.{iget-Holds}
use light_os.Inodes.Truncate.{is_dir, inode_truncate}
use light_os.Blocks.{eof}
use light_os.Paths
use light_os.Paths.Entries.{Entry, find_entry, add_entry, is_dir_empty}
use light_os.Paths.Walk.{Named, allowed, p_write, at_end}
use light_os.Paths.Calls.{
  clean, unlink_found, remove_dir, check_dir, add_link, link_in, link_named, isvtx,
}
use light_os.Paths.Held.{Same-Holds, Settled, find_entry-Holds, add_entry-Same, swap}
use light_os.Paths.Trail.{Closed, Walked, reached, missing, lost}
use light_os.Paths.Balance.{
  Balanced, inode_truncate-Same, free_nr-Same, clean-Balanced, clean_dir-Balanced,
}
use light_os.Paths.Refs.{remove_link-Balanced}
use light_os.Base.{
  ℕ, ◌≡◌, refl, sym, ◌⊎◌, inl, inr, not, ◌&&◌, ◌||◌, Option, none, some, List, [], ◌∷◌, ltb, ◌==◌,
  >>=-eq-some, assert-eq-some, some_inj, Bool-cases, ==_iff, then_of, else_of, arith,
}

module _ (fs : Fs) (g : Good fs) where
  -- The entry that has been found, and the inode of it
  pub get_entry-Holds :
      (fs1 fs2 : Fs) (dir i nr : ℕ)
      → Holds fs (dir ∷ []) fs1
      → iget fs1 (fs1.table dir).dev nr ≡ some (i, fs2)
      → Holds fs (i ∷ dir ∷ []) fs2
  get_entry-Holds fs1 fs2 dir i nr o e =
      iget-Holds fs g fs1 fs2 (fs1.table dir).dev nr i (dir ∷ []) (held_used fs g fs1 dir [] o)
        (omega arith) o e

  -- An inode that only the call holds may lose its number.
  nr-Holds :
      (fs1 : Fs) (i nr : ℕ) (h : List ℕ)
      → (fs.table i).count ≡ 0
      → Holds fs h fs1
      → Holds fs h (set_inode fs1 i (record (fs1.table i) { nr = nr }))
  nr-Holds fs1 i nr h z o = record {
    counts = λ j. ground (arith, o.counts j, o.counts i);
    clean = λ j e. elim (Bool-cases (i == j)) [
      | inl f ↦ ground (arith, f, o.clean j, o.clean i, e)
      | inr f ↦ ground (arith, f, o.clean j, e)
    ];
    supers = o.supers;
    kept = λ j p. ground (arith, o.kept j p, z, ==_iff i j);
  }

  remove_dir-Balanced :
      (fs1 : Fs) (dir i : ℕ) (entry : Entry) (r : ℕ × Fs)
      → (fs.table i).count ≡ 0
      → Holds fs (i ∷ dir ∷ []) fs1
      → remove_dir fs1 dir i entry ≡ some r
      → Balanced fs r
  remove_dir-Balanced fs1 dir i entry r z o e =
      let held = i ∷ dir ∷ [] in
      let (_, e1) = assert-eq-some ((desc_of fs1 i).nlinks == 2) _ e in
      let (fs2, p, e2) = >>=-eq-some (inode_truncate fs1 i) _ e1 in
      let (fs3, q, e3) = >>=-eq-some (free_nr fs2 _ _) _ e2 in
      let o2 = Same-Holds fs fs1 fs2 held (inode_truncate-Same fs1 fs2 i p) o in
      let o3 = Same-Holds fs fs2 fs3 held (free_nr-Same fs2 fs3 _ _ q) o2 in
      let unlinked : Paths.Inode = record (desc_of fs3 i) { nlinks = 0 } in
      let fs4 = set_desc fs3 i unlinked in
      let o4 = nr-Holds fs4 i 0 held z (Same-Holds fs fs3 fs4 held (refl, refl) o3) in
      let (_, e5) = assert-eq-some (not _) _ e3 in
      clean-Balanced fs g _ i dir 0 r (Same-Holds fs _ _ held (refl, refl) o4) e5

  pub check_dir-Balanced :
      (fs1 : Fs) (task : Task) (dir i : ℕ) (entry : Entry) (r : ℕ × Fs)
      → Holds fs (i ∷ dir ∷ []) fs1
      → check_dir fs1 task dir i entry ≡ some r
      → Balanced fs r
  check_dir-Balanced fs1 task dir i entry r o e =
      let sticky = not (bit_and (desc_of fs1 dir).mode isvtx == 0) in
      let others = sticky && not (task.uid == (desc_of fs1 i).uid) in
      let busy = not ((fs1.table dir).dev == (fs1.table i).dev) || ltb 1 (fs1.table i).count in
      let unfit = not (is_dir (desc_of fs1 i).mode) || others || busy in
      let (_, e1) = assert-eq-some (not (i == dir)) _ e in
      elim (Bool-cases unfit) [
        | inl t ↦ clean-Balanced fs g fs1 i dir eof r o (then_of unfit _ _ t e1)
        | inr t ↦
            let (empty, _, e2) = >>=-eq-some (is_dir_empty fs1 i) _ (else_of unfit _ _ t e1) in
            elim (Bool-cases empty) [
              | inl u ↦
                  remove_dir-Balanced fs1 dir i entry r (ground (arith, t, o.counts i)) o
                    (then_of empty _ _ u e2)
              | inr u ↦ clean-Balanced fs g fs1 i dir eof r o (else_of empty _ _ u e2)
            ]
      ]

  pub unlink_found-Balanced :
      (fs1 : Fs) (task : Task) (dir i : ℕ) (entry : Entry) (r : ℕ × Fs)
      → Holds fs (i ∷ dir ∷ []) fs1
      → unlink_found fs1 task dir i entry ≡ some r
      → Balanced fs r
  unlink_found-Balanced fs1 task dir i entry r o e =
      let desc = desc_of fs1 i in
      let others = not (bit_and desc.mode isvtx == 0) && not (task.uid == desc.uid) in
      let unfit = is_dir desc.mode || others in
      elim (Bool-cases unfit) [
        | inl t ↦ clean-Balanced fs g fs1 i dir eof r o (then_of unfit _ _ t e)
        | inr t ↦ remove_link-Balanced fs g fs1 dir i entry r o (else_of unfit _ _ t e)
      ]

  add_link-Balanced :
      (fs1 : Fs) (dir i : ℕ) (name : List ℕ) (r : ℕ × Fs)
      → Holds fs (dir ∷ i ∷ []) fs1
      → Settled fs1 dir name
      → add_link fs1 dir i name ≡ some r
      → Balanced fs r
  add_link-Balanced fs1 dir i name r o s e =
      let held = dir ∷ i ∷ [] in
      let ((entry, fs2), p, e1) = >>=-eq-some (add_entry fs1 dir name) _ e in
      let o2 = Same-Holds fs fs1 fs2 held (add_entry-Same fs1 fs2 dir name entry s p) o in
      clean-Balanced fs g _ dir i 0 r (Same-Holds fs fs2 _ held (refl, refl) o2) e1

  link_in-Balanced :
      (fs1 : Fs) (task : Task) (i dir : ℕ) (name : List ℕ) (r : ℕ × Fs)
      → Holds fs (dir ∷ i ∷ []) fs1
      → link_in fs1 task i dir name ≡ some r
      → Balanced fs r
  link_in-Balanced fs1 task i dir name r o e =
      let elsewhere = not ((fs1.table dir).dev == (fs1.table i).dev) in
      let unfit = at_end name || elsewhere || not (allowed fs1 task dir p_write) in
      elim (Bool-cases unfit) [
        | inl t ↦ clean-Balanced fs g fs1 dir i eof r o (then_of unfit _ _ t e)
        | inr t ↦
            let ((found, dir', fs2), p, e1) =
              >>=-eq-some (find_entry fs1 dir name) _ (else_of unfit _ _ t e) in
            let (o2, s) =
              find_entry-Holds fs g fs1 (i ∷ []) (omega arith) dir dir' name found fs2 o p in
            searched found dir' fs2 o2 s e1
      ]
    where
      searched :
          (found : Option Entry) (d : ℕ) (fs2 : Fs)
          → Holds fs (d ∷ i ∷ []) fs2
          → Settled fs2 d name
          → (elim found [
            | some entry ↦ clean fs2 (some d) (some i) eof
            | none ↦ add_link fs2 d i name
          ])
            ≡ some r
          → Balanced fs r
      searched none d fs2 o2 s e = add_link-Balanced fs2 d i name r o2 s e
      searched (some entry) d fs2 o2 s e = clean-Balanced fs g fs2 d i eof r o2 e

  pub link_named-Balanced :
      (task : Task) (inode : ℕ) (n : Named) (r : ℕ × Fs)
      → Walked fs task (inode ∷ []) n
      → link_named task inode n ≡ some r
      → Balanced fs r
        ⊎ ((fs2 : Fs) × (fs' : Fs) × (i : ℕ) × (n ≡ (none, fs2))
            × Closed fs2 task i
            × (iput fs2 (some inode) ≡ some fs')
            × Holds fs (i ∷ []) fs'
            × (r ≡ (eof, fs')))
  unfolding iput
  link_named-Balanced task inode _ r (reached {i} {next} {fs'} o) e =
      inl (link_in-Balanced fs' task inode i next r o e)
  link_named-Balanced task inode _ r (missing {fs'} o) e =
      inl (clean_dir-Balanced fs g fs' inode eof r o e)
  link_named-Balanced task inode _ r (lost {fs'} i o t) e =
      let (fs2, p, e1) = >>=-eq-some (iput fs' (some inode)) _ e in
      let o2 = iput-Holds fs g fs' fs2 inode (i ∷ []) (omega arith) (swap fs fs' i inode [] o) p in
      inr (fs', fs2, i, refl, t, p, o2, sym (some_inj (eof, fs2) r e1))
