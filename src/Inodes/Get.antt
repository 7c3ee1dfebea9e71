-- ===== src/Inodes/Get.antt =====
-- What `iget` does to the references of the slots, in src/fs/inode.c.
use mathlib.Core.Path.{subst}
use light_os.Inodes.{
  Inode, Super, Fs, set_inode, take, find_slot, get_free_inode, find_inode, iput, fit_inode,
  load_inode, get_found, iget, inode_nr,
}
use light_os.Blocks.{eof}
use light_os.Base.{
  ℕ, zero, suc, ◌+◌, ◌≡◌, ◌≢◌, refl, sym, ap, ◌∙◌, inl, inr, Bool, true, not, ◌||◌, Option, none,
  some, List, ◌∷◌, leb, ◌==◌, if◌then◌else◌, ◌>>=◌, >>=-eq-some, assert-eq-some, some_inj,
  Bool-cases, ==_iff, arith,
}
use light_os.Inodes.Counts.{Good, Holds, Short, used, take-Holds, iput-Holds}

find_slot-passes :
    (p : Inode → Bool) (table : ℕ → Inode) (rounds i j : ℕ)
    → find_slot p table rounds i ≡ some j
    → p (table j) ≡ true
unfolding find_slot
find_slot-passes p table zero i j e = cc
find_slot-passes p table (suc rounds) i j e = elim (Bool-cases (p (table i))) [
  | inl t ↦ subst (λ k. p (table k) ≡ true) (some_inj i j (sym (rw t refl) ∙ e)) t
  | inr f ↦ find_slot-passes p table rounds (i + 1) j (sym (rw f refl) ∙ e)
]

find_inode-dev :
    (fs : Fs) (dev nr i : ℕ) → find_inode fs dev nr ≡ some (some i) → (fs.table i).dev ≡ dev
unfolding find_inode
find_inode-dev fs dev nr i e =
    let (sb, _, f) = >>=-eq-some (fs.supers dev) _ e in
    let t = find_slot-passes _ fs.table inode_nr 0 i (some_inj _ (some i) f) in ground (arith, t)

get_free_inode-dev : (fs : Fs) (i : ℕ) → get_free_inode fs ≡ some i → (fs.table i).dev ≡ eof
unfolding get_free_inode
get_free_inode-dev fs i e =
    (==_iff _ eof).0 (find_slot-passes (λ inode. inode.dev == eof) fs.table inode_nr 0 i e)

module _ (fs : Fs) (g : Good fs) where
  pub mount_used :
      (fs1 : Fs) (d : ℕ) (sb : Super) (h : List ℕ)
      → Holds fs h fs1
      → fs1.supers d ≡ some sb
      → ((fs1.table sb.iroot).dev ≢ eof) × ((fs1.table sb.imount).dev ≢ eof)
  mount_used fs1 d sb h o e =
      let m = g.mounts d sb (sym (ap (λ t. t d) o.supers) ∙ e) in
      (
        used fs g fs1 sb.iroot h o (omega (arith, o.counts sb.iroot, m.0)),
        used fs g fs1 sb.imount h o (omega (arith, o.counts sb.imount, m.1)),
      )

  fit_inode-Holds :
      (fs1 fs2 : Fs) (i r : ℕ) (h : List ℕ)
      → Short h
      → Holds fs (i ∷ h) fs1
      → fit_inode fs1 i ≡ some (r, fs2)
      → Holds fs (r ∷ h) fs2
  unfolding fit_inode
  fit_inode-Holds fs1 fs2 i r h s o e = elim (Bool-cases ((fs1.table i).mount == 0)) [
    | inl z ↦
        let f : some (i, fs1) ≡ some (r, fs2) = sym (rw z refl) ∙ e in
        subst (λ p. Holds fs (p.0 ∷ h) p.1) (some_inj (i, fs1) (r, fs2) f) o
    | inr n ↦
        let mounted : (fs1.supers (fs1.table i).mount >>= λ sb.
        iput fs1 (some i) >>= λ fs'. some (sb.iroot, take fs' sb.iroot))
            ≡ some (r, fs2) =
          sym (rw n refl) ∙ e in
        let (sb, e1, e2) = >>=-eq-some (fs1.supers (fs1.table i).mount) _ mounted in
        let (fs3, e3, e4) = >>=-eq-some (iput fs1 (some i)) _ e2 in
        let o3 = iput-Holds fs g fs1 fs3 i h s o e3 in
        let same = o3.supers ∙ sym o.supers in
        let root =
          (mount_used fs3 (fs1.table i).mount sb h o3
            (ap (λ t. t (fs1.table i).mount) same ∙ e1)).0 in
        subst (λ p. Holds fs (p.0 ∷ h) p.1) (some_inj (sb.iroot, take fs3 sb.iroot) (r, fs2) e4)
          (take-Holds fs g fs3 sb.iroot h s root o3)
  ]

  new_slot-Holds :
      (fs1 : Fs) (i : ℕ) (inode : Inode) (h : List ℕ)
      → inode.count ≡ 1
      → (fs1.table i).count ≡ 0
      → inode.dev ≢ eof
      → Holds fs h fs1
      → Holds fs (i ∷ h) (set_inode fs1 i inode)
  new_slot-Holds fs1 i inode h one z d o = record {
    counts = λ j. ground (arith, o.counts j, o.counts i, one, z);
    clean = λ j e. elim (Bool-cases (i == j)) [
      | inl f ↦ absurd (ground (arith, e, f, d))
      | inr f ↦ ground (arith, f, o.clean j, e)
    ];
    supers = o.supers;
    kept = λ j p. ground (arith, o.kept j p, o.counts j, z, ==_iff i j);
  }

  load_inode-Holds :
      (fs1 fs2 : Fs) (dev nr r : ℕ) (h : List ℕ)
      → dev ≢ eof
      → Holds fs h fs1
      → load_inode fs1 dev nr ≡ some (r, fs2)
      → Holds fs (r ∷ h) fs2
  unfolding load_inode
  load_inode-Holds fs1 fs2 dev nr r h d o e =
      let (sb, _, e1) = >>=-eq-some (fs1.supers dev) _ e in
      let (_, e2) = assert-eq-some (leb nr sb.inodes) _ e1 in
      let (i, free, e3) = >>=-eq-some (get_free_inode fs1) _ e2 in
      let unused = o.clean i (get_free_inode-dev fs1 i free) in
      let (four, e4) = assert-eq-some (not (i == 0) || ((fs1.table i).count == 4)) _ e3 in
      let count = if i == 0 then (fs1.table i).count else 1 in
      let one : count ≡ 1 = ground (arith, four, unused) in
      let inode : Inode = record (fs1.table i) { dev = dev; nr = nr; count = count } in
      subst (λ p. Holds fs (p.0 ∷ h) p.1) (some_inj (i, set_inode fs1 i inode) (r, fs2) e4)
        (new_slot-Holds fs1 i inode h one unused d o)

  get_found-Holds :
      (fs1 fs2 : Fs) (dev nr r : ℕ) (h : List ℕ)
      → dev ≢ eof
      → Short h
      → Holds fs h fs1
      → (found : Option ℕ) → find_inode fs1 dev nr ≡ some found
      → get_found fs1 dev nr found ≡ some (r, fs2)
      → Holds fs (r ∷ h) fs2
  get_found-Holds fs1 fs2 dev nr r h d s o none f e = load_inode-Holds fs1 fs2 dev nr r h d o e
  get_found-Holds fs1 fs2 dev nr r h d s o (some i) f e =
      fit_inode-Holds (take fs1 i) fs2 i r h s
        (take-Holds fs g fs1 i h s (λ z. d (sym (find_inode-dev fs1 dev nr i f) ∙ z)) o) e

  pub iget-Holds :
      (fs1 fs2 : Fs) (dev nr r : ℕ) (h : List ℕ)
      → dev ≢ eof
      → Short h
      → Holds fs h fs1
      → iget fs1 dev nr ≡ some (r, fs2)
      → Holds fs (r ∷ h) fs2
  unfolding iget
  iget-Holds fs1 fs2 dev nr r h d s o e =
      let (found, e1, e2) = >>=-eq-some (find_inode fs1 dev nr) _ e in
      get_found-Holds fs1 fs2 dev nr r h d s o found e1 e2
