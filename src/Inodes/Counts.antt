-- ===== src/Inodes/Counts.antt =====
-- The references of the slots: what `iget` takes and `iput` gives back, in src/fs/inode.c.
use light_os.Inodes.{
  Inode, Super, Fs, set_inode, take, drop, put_free_inode, unless_used, put_pipe_inode, iput,
}
use mathlib.Core.Path.{subst}
use light_os.Blocks.{eof}
use light_os.Base.{
  ℕ, ◌+◌, ◌^◌, ◌<◌, ◌≤◌, ◌≡◌, ◌≢◌, refl, sym, ap, ◌∙◌, inl, inr, false, not, Option, some, List, [],
  ◌∷◌, length, ◌==◌, if◌then◌else◌, assert-eq-some, some_inj, Bool-cases, ==_iff, ==_refl, arith,
}

-- How often a slot is in a list
abbrev pub occ : (j : ℕ) → List ℕ → ℕ
occ j [] = 0
occ j (i ∷ h) = (if i == j then 1 else 0) + occ j h

pub occ-le : (j : ℕ) (h : List ℕ) → occ j h ≤ length h
occ-le j [] = omega arith
occ-le j (i ∷ h) = ground (arith, occ-le j h)

-- The state in which a call starts: free slots have no reference, a count is far from the end of its
-- word, and a mounted file system holds its root and the directory that it
-- is mounted on, which is not the root of another mounted one.
pub record Good (fs : Fs) : Type 0 where
  pub clean : (j : ℕ) → (fs.table j).dev ≡ eof → (fs.table j).count ≡ 0
  pub small : (j : ℕ) → (fs.table j).count < 2 ^ 31
  pub mounts :
      (d : ℕ) (sb : Super)
      → fs.supers d ≡ some sb
      → (1 ≤ (fs.table sb.iroot).count) × (1 ≤ (fs.table sb.imount).count)
  pub unstacked :
      (d : ℕ) (sb : Super) → fs.supers d ≡ some sb → (fs.table sb.imount).nr ≡ 1 → sb.imount ≡ 0

-- From `fs` to `fs'` one reference has been taken for each slot in the list `h`, and no other;
-- the slots that had references keep their numbers.
pub record Holds (fs : Fs) (h : List ℕ) (fs' : Fs) : Type 0 where
  pub counts : (j : ℕ) → (fs'.table j).count ≡ (fs.table j).count + occ j h
  pub clean : (j : ℕ) → (fs'.table j).dev ≡ eof → (fs'.table j).count ≡ 0
  pub supers : fs'.supers ≡ fs.supers
  pub kept : (j : ℕ) → 1 ≤ (fs.table j).count → (fs'.table j).nr ≡ (fs.table j).nr

pub Holds-nil : (fs : Fs) → Good fs → Holds fs [] fs
Holds-nil fs g = record {
  counts = λ j. omega arith;
  clean = g.clean;
  supers = refl;
  kept = λ j p. refl;
}

-- A list that is short, as those of the calls are.
abbrev pub Short : List ℕ → Type 0
Short h = length h < 1000

-- A change of anything but the table and the super blocks keeps the references.
pub Holds-same :
    (fs fs1 fs2 : Fs) (h : List ℕ)
    → fs2.table ≡ fs1.table
    → fs2.supers ≡ fs1.supers
    → Holds fs h fs1
    → Holds fs h fs2
Holds-same fs fs1 fs2 h e f o = record {
  counts = λ j. ap (λ t. (t j).count) e ∙ o.counts j;
  clean = λ j d. ap (λ t. (t j).count) e ∙ o.clean j (sym (ap (λ t. (t j).dev) e) ∙ d);
  supers = f ∙ o.supers;
  kept = λ j p. ap (λ t. (t j).nr) e ∙ o.kept j p;
}

pub Holds-occ :
    (fs fs1 : Fs) (h h' : List ℕ)
    → ((j : ℕ) → occ j h ≡ occ j h')
    → Holds fs h fs1
    → Holds fs h' fs1
Holds-occ fs fs1 h h' e o = record {
  counts = λ j. o.counts j ∙ ap (λ n. (fs.table j).count + n) (e j);
  clean = o.clean;
  supers = o.supers;
  kept = o.kept;
}

module _ (fs : Fs) (g : Good fs) where
  pub used :
      (fs1 : Fs) (i : ℕ) (h : List ℕ)
      → Holds fs h fs1
      → 1 ≤ (fs1.table i).count
      → (fs1.table i).dev ≢ eof
  used fs1 i h o p e = absurd (omega (arith, o.clean i e))

  pub held_used : (fs1 : Fs) (i : ℕ) (h : List ℕ) → Holds fs (i ∷ h) fs1 → (fs1.table i).dev ≢ eof
  held_used fs1 i h o = used fs1 i (i ∷ h) o (ground (arith, o.counts i, ==_refl i))

  pub take-Holds :
      (fs1 : Fs) (i : ℕ) (h : List ℕ)
      → Short h
      → (fs1.table i).dev ≢ eof
      → Holds fs h fs1
      → Holds fs (i ∷ h) (take fs1 i)
  take-Holds fs1 i h s d o = record {
    counts = λ j. ground (arith, o.counts j, o.counts i, occ-le i h, g.small i);
    clean = λ j e. elim (Bool-cases (i == j)) [
      | inl same ↦ absurd (ground (arith, e, same, d))
      | inr other ↦ ground (arith, other, o.clean j, e)
    ];
    supers = o.supers;
    kept = λ j p. ground (arith, o.kept j p, ==_iff i j);
  }

  -- A slot that keeps its count, and has none if it is free
  pub set-Holds :
      (fs1 : Fs) (i : ℕ) (inode : Inode) (h : List ℕ)
      → inode.count ≡ (fs1.table i).count
      → inode.nr ≡ (fs1.table i).nr
      → (inode.dev ≡ eof → inode.count ≡ 0)
      → Holds fs h fs1
      → Holds fs h (set_inode fs1 i inode)
  set-Holds fs1 i inode h same same_nr free o = record {
    counts = λ j. ground (arith, o.counts j, o.counts i, same);
    clean = λ j e. elim (Bool-cases (i == j)) [
      | inl f ↦ ground (arith, e, f, free)
      | inr f ↦ ground (arith, f, o.clean j, e)
    ];
    supers = o.supers;
    kept = λ j p. ground (arith, o.kept j p, ==_iff i j);
  }

  free-Holds :
      (fs1 fs2 : Fs) (i : ℕ) (h : List ℕ)
      → Holds fs h fs1
      → put_free_inode fs1 i ≡ some fs2
      → Holds fs h fs2
  unfolding put_free_inode
  free-Holds fs1 fs2 i h o e =
      let (_, e1) = assert-eq-some (not (i == 0)) _ e in
      let (z, e2) = assert-eq-some ((fs1.table i).count == 0) _ e1 in
      let zero_count = (==_iff _ 0).0 z in
      let inode : Inode = record (fs1.table i) { dev = eof } in
      subst (Holds fs h) (some_inj (set_inode fs1 i inode) fs2 e2)
        (set-Holds fs1 i inode h refl refl (λ _. zero_count) o)

  drop-Holds :
      (fs1 : Fs) (i : ℕ) (h : List ℕ) → Short h → Holds fs (i ∷ h) fs1 → Holds fs h (drop fs1 i)
  drop-Holds fs1 i h s o = record {
    counts = λ j. ground (arith, o.counts j, o.counts i, occ-le i h, g.small i);
    clean = λ j e. elim (Bool-cases (i == j)) [
      | inl same ↦ absurd (held_used fs1 i h o (ground (arith, e, same)))
      | inr other ↦ ground (arith, other, o.clean j, e)
    ];
    supers = o.supers;
    kept = λ j p. ground (arith, o.kept j p, ==_iff i j);
  }

  unless_used-Holds :
      (fs1 fs2 : Fs) (i : ℕ) (h : List ℕ) (freed : Option Fs)
      → Holds fs h fs1
      → ((fs3 : Fs) → freed ≡ some fs3 → Holds fs h fs3)
      → unless_used fs1 i freed ≡ some fs2
      → Holds fs h fs2
  unless_used-Holds fs1 fs2 i h freed o f e = elim (Bool-cases ((fs1.table i).count == 0)) [
    | inl z ↦ f fs2 (sym (rw z refl) ∙ e)
    | inr n ↦ subst (Holds fs h) (some_inj fs1 fs2 (sym (rw n refl) ∙ e)) o
  ]

  put_pipe_inode-Holds :
      (fs1 fs2 : Fs) (i : ℕ) (h : List ℕ)
      → Short h
      → Holds fs (i ∷ h) fs1
      → put_pipe_inode fs1 i ≡ some fs2
      → Holds fs h fs2
  unfolding put_pipe_inode
  put_pipe_inode-Holds fs1 fs2 i h s o e =
      let fs' = drop fs1 i in
      let inode : Inode = record (fs'.table i) { pipe = false } in
      let o' = drop-Holds fs1 i h s o in
      unless_used-Holds fs' fs2 i h (put_free_inode (set_inode fs' i inode) i) o'
        (λ fs3 f.
          free-Holds (set_inode fs' i inode) fs3 i h
            (set-Holds fs' i inode h refl refl (o'.clean i) o') f)
        (assert-eq-some (fs1.table i).pipe _ e).1

  pub iput-Holds :
      (fs1 fs2 : Fs) (i : ℕ) (h : List ℕ)
      → Short h
      → Holds fs (i ∷ h) fs1
      → iput fs1 (some i) ≡ some fs2
      → Holds fs h fs2
  unfolding iput
  iput-Holds fs1 fs2 i h s o e = elim (Bool-cases (fs1.table i).pipe) [
    | inl p ↦ put_pipe_inode-Holds fs1 fs2 i h s o (sym (rw p refl) ∙ e)
    | inr p ↦
        unless_used-Holds (drop fs1 i) fs2 i h (put_free_inode (drop fs1 i) i)
          (drop-Holds fs1 i h s o)
          (λ fs3 f. free-Holds (drop fs1 i) fs3 i h (drop-Holds fs1 i h s o) f)
          (sym (rw p refl) ∙ e)
  ]
