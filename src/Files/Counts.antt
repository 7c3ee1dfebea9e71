-- ===== src/Files/Counts.antt =====
-- The counts of open files follow the descriptors.
use light_os.Base.{
  ℕ, zero, suc, ◌+◌, ◌-◌, ◌<◌, ◌≤◌, ◌≡◌, ◌≢◌, refl, sym, ap, ◌∙◌, true, false, Option, none, some,
  List, [], ◌∷◌, ◌++◌, length, get_or, set, ◌==◌, if◌then◌else◌, ◌>>=◌, arith, get_or-set,
  length-set, lt→ltb, Bool-cases, inl, inr, ==_ne, ==_refl,
}
use mathlib.Core.Path.{subst}
use native.Mathlib.Decide.{ℕ_discrete}
use light_os.Files.{
  File, Files, task_file_nr, file_nr, no_file, file_at, put_file, free_fd, is_free, task_put_fd,
  close_file, sys_close, holders, IsValid,
}

-- 1 if the slot refers to file `f`
abbrev pub one : ℕ → Option ℕ → ℕ
one f none = 0
one f (some g) = if f == g then 1 else 0

holders-cons :
    (f : ℕ) (o : Option ℕ) (fs : List (Option ℕ)) → holders f (o ∷ fs) ≡ one f o + holders f fs
unfolding holders
holders-cons f none fs = omega arith
holders-cons f (some g) fs = refl

pub holders-set :
    (f : ℕ) (fs : List (Option ℕ)) (i : ℕ) (o : Option ℕ)
    → i < length fs
    → holders f (set fs i o) + one f (get_or fs i none) ≡ holders f fs + one f o
holders-set f [] i o lt = absurd (omega arith)
holders-set f (x ∷ fs) zero o lt = omega (arith, holders-cons f x fs, holders-cons f o fs)
holders-set f (x ∷ fs) (suc i) o lt =
    omega (
      arith,
      holders-cons f x fs,
      holders-cons f x (set fs i o),
      holders-set f fs i o (omega arith),
    )

-- What the search for a free descriptor finds.
abbrev pub Free : List (Option ℕ) → (i n : ℕ) → Option ℕ → Type 0
Free fs i n none = (j : ℕ) → i ≤ j → j < i + n → get_or fs j none ≢ none
Free fs i n (some k) =
    (i ≤ k)
    × (k < i + n)
    × (get_or fs k none ≡ none)
    × ((j : ℕ) → i ≤ j → j < k → get_or fs j none ≢ none)

Free-suc :
    (fs : List (Option ℕ)) (i n : ℕ) (r : Option ℕ)
    → get_or fs i none ≢ none
    → Free fs (i + 1) n r
    → Free fs i (suc n) r
Free-suc fs i n none ne h = λ j a b. elim (ℕ_discrete i j) [
  | yes e ↦ subst (λ k. get_or fs k none ≢ none) e ne
  | no e ↦ h j (omega arith) (omega arith)
]
Free-suc fs i n (some k) ne (p, q, e, h) = (
  omega arith,
  omega arith,
  e,
  λ j a b. elim (ℕ_discrete i j) [
    | yes e ↦ subst (λ k. get_or fs k none ≢ none) e ne
    | no e ↦ h j (omega arith) (omega arith)
  ],
)

is_free-eq : (o : Option ℕ) → is_free o ≡ true → o ≡ none
is_free-eq none e = refl
is_free-eq (some f) e = cc

is_free-ne : (o : Option ℕ) → is_free o ≡ false → o ≢ none
is_free-ne none e z = cc
is_free-ne (some f) e z = cc

pub free_fd-Free : (fs : List (Option ℕ)) (n i : ℕ) → Free fs i n (free_fd fs n i)
unfolding free_fd
free_fd-Free fs zero i = λ j a b. absurd (omega arith)
free_fd-Free fs (suc n) i = elim (Bool-cases (is_free (get_or fs i none))) [
  | inl e ↦
      rw e
        (omega arith, omega arith, is_free-eq (get_or fs i none) e, λ j a b. absurd (omega arith))
  | inr e ↦ rw e (
      Free-suc fs i n (free_fd fs n (i + 1)) (is_free-ne (get_or fs i none) e)
        (free_fd-Free fs n (i + 1)))
]

-- What `sys_close` does to an open descriptor.
pub record Closed (others : ℕ → ℕ) (s : Files) (fd f : ℕ) (s' : Files) : Type 0 where
  pub valid : IsValid others s'
  pub slot : get_or s'.files fd none ≡ none
  pub last :
      s'.puts ≡ (if (file_at s f).count == 1 then s.puts ++ (file_at s f).inode ∷ [] else s.puts)

module _ {others : ℕ → ℕ} {s : Files} (v : IsValid others s) {fd f : ℕ} (lt : fd < task_file_nr)
    (held : get_or s.files fd none ≡ some f) where
  abbrev lowered : File
  lowered = record (file_at s f) { count = (file_at s f).count - 1 }

  abbrev left : Files
  left = record {
    file_table = set s.file_table f lowered;
    files = set s.files fd none;
    puts = if (file_at s f).count - 1 == 0 then s.puts ++ (file_at s f).inode ∷ [] else s.puts;
  }

  in_table : f < file_nr
  in_table = v.inside fd f held

  holders-left :
      (g : ℕ) → holders g (set s.files fd none) + (if g == f then 1 else 0) ≡ holders g s.files
  holders-left g =
      let h = holders-set g s.files fd none (omega (arith, v.fds)) in
      let e : one g (get_or s.files fd none) ≡ (if g == f then 1 else 0) = ap (one g) held in
      omega (arith, h, e)

  file-left : (g : ℕ) → file_at left g ≡ (if f == g then lowered else file_at s g)
  file-left g = get_or-set s.file_table f g lowered no_file (omega (arith, in_table, v.table))

  count-left :
      (g : ℕ)
      → (file_at left g).count ≡ (if f == g then (file_at s f).count - 1 else (file_at s g).count)
  count-left g = ap (λ (x : File). x.count) (file-left g) ∙ ground arith

  held_once : 1 ≤ holders f s.files
  held_once = let h = holders-left f in ground (arith, ==_refl f)

  counted-left :
      (g : ℕ) → g < file_nr → (file_at left g).count ≡ holders g (set s.files fd none) + others g
  counted-left g low = elim (ℕ_discrete f g) [
    | yes e ↦
        let c : (file_at left g).count ≡ (file_at s f).count - 1 = count-left g ∙ ground arith in
        let h : holders g (set s.files fd none) + 1 ≡ holders g s.files =
          ground (arith, holders-left g) in
        let k : (file_at s f).count ≡ holders g s.files + others g =
          ap (λ x. (file_at s x).count) e ∙ v.counted g low in
        omega arith
    | no ne ↦
        let c : (file_at left g).count ≡ (file_at s g).count = count-left g ∙ rw (==_ne f g ne) in
        let h : holders g (set s.files fd none) ≡ holders g s.files =
          ground (arith, holders-left g, ==_ne g f (λ e. ne (sym e))) in
        c ∙ v.counted g low ∙ omega arith
  ]

  slot-left :
      (j : ℕ)
      → get_or (set s.files fd none) j none ≡ (if fd == j then none else get_or s.files j none)
  slot-left j = get_or-set s.files fd j none none (omega (arith, v.fds))

  inside-left : (j g : ℕ) → get_or (set s.files fd none) j none ≡ some g → g < file_nr
  inside-left j g e = elim (ℕ_discrete fd j) [
    | yes z ↦
        let gone : get_or (set s.files fd none) j none ≡ none = slot-left j ∙ ground arith in cc
    | no ne ↦ v.inside j g (sym (slot-left j ∙ rw (==_ne fd j ne)) ∙ e)
  ]

  left-IsValid : IsValid others left
  left-IsValid = record {
    fds = length-set s.files fd none ∙ v.fds;
    table = length-set s.file_table f lowered ∙ v.table;
    counted = counted-left;
    inside = inside-left;
  }

  positive : 0 < (file_at s f).count
  positive = omega (arith, held_once, v.counted f in_table)

  put_file-left : (put_file s f >>= λ s'. task_put_fd s' fd) ≡ some left
  unfolding put_file task_put_fd
  put_file-left =
      rw (lt→ltb 0 (file_at s f).count positive, lt→ltb fd task_file_nr lt)
        (elim (Bool-cases ((file_at s f).count - 1 == 0)) [ inl e ↦ rw e | inr e ↦ rw e ])

  sys_close-left : (file_at s f).inode ≢ 0 → sys_close s fd ≡ some left
  unfolding sys_close close_file
  sys_close-left ne =
      rw (lt→ltb fd task_file_nr lt, held, ==_ne (file_at s f).inode 0 ne) put_file-left

  last-left :
      (n : ℕ)
      → n ≡ (file_at s f).count
      → left.puts ≡ (if n == 1 then s.puts ++ (file_at s f).inode ∷ [] else s.puts)
  last-left n e =
      let same : ((file_at s f).count - 1 == 0) ≡ (n == 1) = ground (arith, positive) in
      ap (λ b. if b then s.puts ++ (file_at s f).inode ∷ [] else s.puts) same

  -- `sys_close` of an open descriptor, whose file has an inode, meets no assertion: the descriptor is free, the inode is put
  -- exactly if this was the last reference to the file, and the count of each file still is the
  -- number of descriptors that refer to it.
  pub sys_close-Closed :
      (file_at s f).inode ≢ 0 → (s' : Files) × (sys_close s fd ≡ some s') × Closed others s fd f s'
  sys_close-Closed ne = (
    left,
    sys_close-left ne,
    record {
      valid = left-IsValid;
      slot = slot-left fd ∙ rw (==_refl fd);
      last = last-left (file_at s f).count refl;
    },
  )
