-- ===== src/Files/Tests.antt =====
-- The theorems on open files, at a task with its three standard descriptors and one more.
use light_os.Base.{
  ℕ, zero, suc, ◌+◌, ◌<◌, ◌≡◌, refl, ap, Option, none, some, [], ◌∷◌, replicate, arith, get_or,
  get_or-replicate, some_inj, ◌==◌, if◌then◌else◌,
}
use light_os.Files.{File, Files, no_file, file_at, sys_close, holders, IsValid}
use light_os.Files.Counts.{Closed, sys_close-Closed}

abbrev opened : ℕ → File
opened inode = record { inode = inode; count = 1; offset = 0; flags = 0; mode = 0 }

abbrev four : Files
four = record {
  file_table = opened 5 ∷ opened 6 ∷ opened 7 ∷ opened 8 ∷ replicate 124 no_file;
  files = some 0 ∷ some 1 ∷ some 2 ∷ some 3 ∷ replicate 12 none;
  puts = [];
}

holders-empty : (f n : ℕ) → holders f (replicate n none) ≡ 0
unfolding holders
holders-empty f zero = refl
holders-empty f (suc n) = holders-empty f n

holders-four :
    (f : ℕ)
    → holders f four.files
      ≡ (if f == 0 then 1 else 0)
        + ((if f == 1 then 1 else 0)
            + ((if f == 2 then 1 else 0) + ((if f == 3 then 1 else 0) + 0)))
unfolding holders
holders-four f = omega (arith, holders-empty f 12)

counts-four : (f : ℕ) → (file_at four f).count ≡ holders f four.files + 0
counts-four zero = ground (arith, holders-four 0)
counts-four (suc zero) = ground (arith, holders-four 1)
counts-four (suc (suc zero)) = ground (arith, holders-four 2)
counts-four (suc (suc (suc zero))) = ground (arith, holders-four 3)
counts-four (suc (suc (suc (suc f)))) =
    let e : (file_at four (suc (suc (suc (suc f))))).count ≡ 0 =
      ap (λ (x : File). x.count) (get_or-replicate {A = File} 124 f no_file) in
    let h : holders (suc (suc (suc (suc f)))) four.files ≡ 0 =
      ground (arith, holders-four (suc (suc (suc (suc f))))) in
    omega arith

inside-four : (fd f : ℕ) → get_or four.files fd none ≡ some f → f < 128
inside-four zero f e = let z : 0 ≡ f = some_inj _ _ e in omega arith
inside-four (suc zero) f e = let z : 1 ≡ f = some_inj _ _ e in omega arith
inside-four (suc (suc zero)) f e = let z : 2 ≡ f = some_inj _ _ e in omega arith
inside-four (suc (suc (suc zero))) f e = let z : 3 ≡ f = some_inj _ _ e in omega arith
inside-four (suc (suc (suc (suc fd)))) f e =
    absurd (cc (get_or-replicate {A = Option ℕ} 12 fd none, e))

abbrev nobody : ℕ → ℕ
nobody f = 0

four-IsValid : IsValid nobody four
four-IsValid = record {
  fds = refl;
  table = refl;
  counted = λ f lt. counts-four f;
  inside = inside-four;
}

sys_close-Closed_example : (s' : Files) × (sys_close four 3 ≡ some s') × Closed nobody four 3 3 s'
sys_close-Closed_example =
    sys_close-Closed {others = nobody} {s = four} four-IsValid {fd = 3} {f = 3} (omega arith) refl
      (omega arith)
