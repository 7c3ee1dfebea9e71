-- ===== src/Files/Dup.antt =====
-- `dupfd` gives the lowest free descriptor and keeps the counts.
use light_os.Base.{
  ℕ, ◌+◌, ◌-◌, ◌<◌, ◌≤◌, ◌≡◌, ◌≢◌, sym, ap, ◌∙◌, false, Option, none, some, get_or, set, leb, ltb,
  ◌==◌, if◌then◌else◌, arith, get_or-set, length-set, some_inj, ==_ne,
}
use native.Mathlib.Decide.{ℕ_discrete}
use light_os.Files.{
  File, Files, task_file_nr, file_nr, eof, no_file, file_at, free_fd, sys_close, shared, dup_into,
  dup_file, dupfd, sys_dup2, holders, IsValid,
}
use light_os.Files.Counts.{one, holders-set, Free, free_fd-Free}

-- What a call of `dupfd` with an open descriptor of file `f` does.
pub data Duped (others : ℕ → ℕ) (s : Files) (arg f : ℕ) : ℕ × Files → Type 0 where
  no_room :
      ((j : ℕ) → arg ≤ j → j < task_file_nr → get_or s.files j none ≢ none)
      → Duped others s arg f (eof, s)
  copied :
      {k : ℕ} {s' : Files}
      → arg ≤ k
      → k < task_file_nr
      → get_or s.files k none ≡ none
      → ((j : ℕ) → arg ≤ j → j < k → get_or s.files j none ≢ none)
      → IsValid others s'
      → ((j : ℕ) → get_or s'.files j none ≡ (if k == j then some f else get_or s.files j none))
      → Duped others s arg f (k, s')

module _ {others : ℕ → ℕ} {s : Files} (v : IsValid others s) {f k : ℕ} (low : f < file_nr)
    (lt : k < task_file_nr) (empty : get_or s.files k none ≡ none) where
  abbrev raised : File
  raised = record (file_at s f) { count = (file_at s f).count + 1 }

  slot-shared :
      (j : ℕ)
      → get_or (set s.files k (some f)) j none ≡ (if k == j then some f else get_or s.files j none)
  slot-shared j = get_or-set s.files k j (some f) none (omega (arith, v.fds))

  holders-shared :
      (g : ℕ) → holders g (set s.files k (some f)) ≡ holders g s.files + (if g == f then 1 else 0)
  holders-shared g =
      let h = holders-set g s.files k (some f) (omega (arith, v.fds)) in
      let e : one g (get_or s.files k none) ≡ 0 = ap (one g) empty in omega (arith, h, e)

  count-shared :
      (g : ℕ)
      → (file_at (shared s k f) g).count
        ≡ (if f == g then (file_at s f).count + 1 else (file_at s g).count)
  count-shared g =
      ap (λ (x : File). x.count)
        (get_or-set s.file_table f g raised no_file (omega (arith, low, v.table)))
      ∙ ground arith

  counted-shared :
      (g : ℕ)
      → g < file_nr
      → (file_at (shared s k f) g).count ≡ holders g (set s.files k (some f)) + others g
  counted-shared g lt' = elim (ℕ_discrete f g) [
    | yes e ↦
        let c : (file_at (shared s k f) g).count ≡ (file_at s f).count + 1 =
          count-shared g ∙ ground arith in
        let h : holders g (set s.files k (some f)) ≡ holders g s.files + 1 =
          ground (arith, holders-shared g) in
        let n : (file_at s f).count ≡ holders g s.files + others g =
          ap (λ x. (file_at s x).count) e ∙ v.counted g lt' in
        omega arith
    | no ne ↦
        let c : (file_at (shared s k f) g).count ≡ (file_at s g).count =
          count-shared g ∙ rw (==_ne f g ne) in
        let h : holders g (set s.files k (some f)) ≡ holders g s.files =
          ground (arith, holders-shared g, ==_ne g f (λ e. ne (sym e))) in
        c ∙ v.counted g lt' ∙ omega arith
  ]

  inside-shared : (j g : ℕ) → get_or (set s.files k (some f)) j none ≡ some g → g < file_nr
  inside-shared j g e = elim (ℕ_discrete k j) [
    | yes z ↦
        let here : get_or (set s.files k (some f)) j none ≡ some f = slot-shared j ∙ ground arith in
        let same : f ≡ g = some_inj f g (sym here ∙ e) in omega arith
    | no ne ↦ v.inside j g (sym (slot-shared j ∙ rw (==_ne k j ne)) ∙ e)
  ]

  shared-IsValid : IsValid others (shared s k f)
  shared-IsValid = record {
    fds = length-set s.files k (some f) ∙ v.fds;
    table = length-set s.file_table f raised ∙ v.table;
    counted = counted-shared;
    inside = inside-shared;
  }

dup_into-Duped :
    {others : ℕ → ℕ} {s : Files} (v : IsValid others s) (arg f : ℕ) (r : Option ℕ)
    → f < file_nr
    → arg ≤ task_file_nr
    → Free s.files arg (task_file_nr - arg) r
    → Duped others s arg f (dup_into s f r)
unfolding dup_into
dup_into-Duped v arg f none low le h = no_room λ j a b. h j a (omega arith)
dup_into-Duped {others} {s} v arg f (some k) low le (p, q, e, h) =
    copied {k = k} {s' = shared s k f} p (omega arith) e h (shared-IsValid v low (omega arith) e)
      (slot-shared v low (omega arith) e)

-- `dupfd` of an open descriptor gives the lowest free descriptor from `arg` on, which then refers to
-- the same file, whose count rises with it; it fails, changing nothing, only if there is none.
dupfd-Duped :
    (others : ℕ → ℕ) (s : Files) (fd arg f : ℕ)
    → IsValid others s
    → fd < task_file_nr
    → arg ≤ task_file_nr
    → get_or s.files fd none ≡ some f
    → Duped others s arg f (dupfd s fd arg)
unfolding dupfd dup_file
dupfd-Duped others s fd arg f v lt le held =
    let off : leb task_file_nr fd ≡ false = ground arith in
    rw (off, held)
      (dup_into-Duped v arg f (free_fd s.files (task_file_nr - arg) arg) (v.inside fd f held) le
        (free_fd-Free s.files (task_file_nr - arg) arg))

-- `sys_dup2` with another descriptor that is out of range stops the kernel.
dup2_out_of_range :
    (s : Files) (oldfd newfd : ℕ)
    → oldfd ≢ newfd
    → task_file_nr ≤ newfd
    → sys_dup2 s oldfd newfd ≡ none
unfolding sys_dup2 sys_close
dup2_out_of_range s oldfd newfd ne out =
    let off : ltb newfd task_file_nr ≡ false = ground arith in rw (==_ne oldfd newfd ne, off)
