-- ===== src/Strings/Laws.antt =====
-- What the functions of string.c do with terminated strings.
use light_os.Base.{
  ℕ, suc, ◌+◌, ◌<◌, ◌≡◌, ◌≢◌, refl, ap, ◌∙◌, sym, Bool, true, false, ◌&&◌, not, Option, none, some,
  List, [], ◌∷◌, ◌++◌, ◌==◌, if◌then◌else◌, ◌>>=◌, length, All, arith, ==_ne, ==_refl, some_inj,
}
use mathlib.Core.Path.{ap₂}
use native.Mathlib.Decide.{ℕ_discrete}
use light_os.Strings.{
  equal, compare_chars, is_separator, strcpy, strcat, strlen, strcmp, find_last, strrsep,
}

-- A string without its terminator.
abbrev pub Chars : List ℕ → Type 0
Chars s = All (λ c. c ≢ 0) s

-- the string `s` in a buffer that goes on with `t`
abbrev pub terminated : List ℕ → List ℕ → List ℕ
terminated s t = s ++ 0 ∷ t

pub strlen-terminated : (s t : List ℕ) → Chars s → strlen (terminated s t) ≡ some (length s)
unfolding strlen
strlen-terminated [] t h = refl
strlen-terminated (c ∷ s) t h = rw (==_ne c 0 h.0, strlen-terminated s t h.1)

strcpy-terminated :
    (s t a b : List ℕ)
    → Chars s
    → length a ≡ suc (length s)
    → strcpy (a ++ b) (terminated s t) ≡ some (terminated s b)
unfolding strcpy
strcpy-terminated s t [] b h e = absurd (omega arith)
strcpy-terminated [] t (x ∷ []) b h e = refl
strcpy-terminated [] t (x ∷ y ∷ a) b h e = absurd (omega arith)
strcpy-terminated (c ∷ s) t (x ∷ a) b h e =
    rw (==_ne c 0 h.0, strcpy-terminated s t a b h.1 (omega arith))

-- Copied into a buffer with room for it and its terminator, a string overwrites the start of the
-- buffer and nothing behind; `strlen` of the buffer is then its length.
strlen-strcpy :
    (s t a b : List ℕ)
    → Chars s
    → length a ≡ suc (length s)
    → (strcpy (a ++ b) (terminated s t) ≡ some (terminated s b))
      × ((strcpy (a ++ b) (terminated s t) >>= strlen) ≡ some (length s))
strlen-strcpy s t a b h e =
    let run = strcpy-terminated s t a b h e in (run, rw run (strlen-terminated s b h))

-- `strcat` puts the second string behind the first, where the buffer has room for both.
strcat-terminated :
    (s u t a b : List ℕ)
    → Chars s
    → Chars u
    → length a ≡ length u
    → strcat (s ++ 0 ∷ (a ++ b)) (terminated u t) ≡ some (s ++ terminated u b)
unfolding strcat
strcat-terminated [] u t a b hs hu e = strcpy-terminated u t (0 ∷ a) b hu (omega arith)
strcat-terminated (c ∷ s) u t a b hs hu e =
    rw (==_ne c 0 hs.0, strcat-terminated s u t a b hs.1 hu e)

abbrev pub IsByte : ℕ → Type 0
IsByte c = c < 256

compare_chars-ne : (l r : ℕ) → IsByte l → IsByte r → l ≢ r → compare_chars l r ≢ equal
compare_chars-ne l r p q ne e = ground arith

strcmp-cons :
    (l r : ℕ) (lhs rhs : List ℕ)
    → strcmp (l ∷ lhs) (r ∷ rhs) ≡ (
        if l == r && not (l == 0) && not (r == 0) then strcmp lhs rhs else some (compare_chars l r))
unfolding strcmp
strcmp-cons l r lhs rhs = refl

-- Two characters that differ decide the comparison.
strcmp-ne :
    (l r : ℕ) (lhs rhs : List ℕ)
    → IsByte l
    → IsByte r
    → l ≢ r
    → strcmp (l ∷ lhs) (r ∷ rhs) ≢ some equal
strcmp-ne l r lhs rhs p q ne e =
    let h : some (compare_chars l r) ≡ some equal =
      sym (strcmp-cons l r lhs rhs ∙ rw (==_ne l r ne)) ∙ e in
    compare_chars-ne l r p q ne (some_inj _ _ h)

strcmp-same : (l : ℕ) (lhs rhs : List ℕ) → l ≢ 0 → strcmp (l ∷ lhs) (l ∷ rhs) ≡ strcmp lhs rhs
strcmp-same l lhs rhs ne = strcmp-cons l l lhs rhs ∙ rw (==_refl l, ==_ne l 0 ne)

-- If `strcmp` gives 0 on two terminated strings of bytes, the strings are equal.
eq_of_strcmp :
    (s u t v : List ℕ)
    → Chars s
    → Chars u
    → All IsByte s
    → All IsByte u
    → strcmp (terminated s t) (terminated u v) ≡ some equal
    → s ≡ u
eq_of_strcmp [] [] t v hs hu bs bu e = refl
eq_of_strcmp [] (d ∷ u) t v hs hu bs bu e =
    absurd (strcmp-ne 0 d t (terminated u v) (omega arith) bu.0 (λ z. hu.0 (sym z)) e)
eq_of_strcmp (c ∷ s) [] t v hs hu bs bu e =
    absurd (strcmp-ne c 0 (terminated s t) v bs.0 (omega arith) hs.0 e)
eq_of_strcmp (c ∷ s) (d ∷ u) t v hs hu bs bu e = elim (ℕ_discrete c d) [
  | yes same ↦
      let e' : strcmp (c ∷ terminated s t) (c ∷ terminated u v) ≡ some equal =
        ap (λ x. strcmp (c ∷ terminated s t) (x ∷ terminated u v)) same ∙ e in
      ap₂ ◌∷◌ same (eq_of_strcmp s u t v hs.1 hu.1 bs.1 bu.1 (sym (strcmp-same c _ _ hs.0) ∙ e'))
  | no ne ↦ absurd (strcmp-ne c d (terminated s t) (terminated u v) bs.0 bu.0 ne e)
]

-- `strcmp` gives 0 on equal strings, whatever stands behind their terminators.
strcmp_refl : (s t v : List ℕ) → Chars s → strcmp (terminated s t) (terminated s v) ≡ some equal
strcmp_refl [] t v h = strcmp-cons 0 0 t v
strcmp_refl (c ∷ s) t v h = strcmp-same c _ _ h.0 ∙ strcmp_refl s t v h.1

-- `find_last` over a string, from the place `i` on.
find_last-terminated :
    (p : ℕ → Bool) (s t : List ℕ) (i : ℕ) (last : Option ℕ) (c : ℕ)
    → c ≢ 0
    → find_last p (c ∷ s) i last ≡ find_last p s (i + 1) (if p c then some i else last)
unfolding find_last
find_last-terminated p s t i last c ne = rw (==_ne c 0 ne)

find_last-none :
    (p : ℕ → Bool) (s t : List ℕ) (i : ℕ) (last : Option ℕ)
    → Chars s
    → All (λ c. p c ≡ false) s
    → p 0 ≡ false
    → find_last p (terminated s t) i last ≡ some last
unfolding find_last
find_last-none p [] t i last h n z = rw z
find_last-none p (c ∷ s) t i last h n z =
    rw (n.0, ==_ne c 0 h.0, find_last-none p s t (i + 1) last h.1 n.1 z)

find_last-found :
    (p : ℕ → Bool) (s u t : List ℕ) (ch i : ℕ) (last : Option ℕ)
    → Chars (s ++ ch ∷ u)
    → p ch ≡ true
    → All (λ c. p c ≡ false) u
    → p 0 ≡ false
    → find_last p (s ++ ch ∷ terminated u t) i last ≡ some (some (i + length s))
unfolding find_last
find_last-found p [] u t ch i last h y n z =
    rw (y, ==_ne ch 0 h.0, find_last-none p u t (i + 1) (some i) h.1 n z)
      (ap (λ k. some (some k)) (omega arith))
find_last-found p (c ∷ s) u t ch i last h y n z =
    rw (==_ne c 0 h.0, find_last-found p s u t ch (i + 1) (if p c then some i else last) h.1 y n z)
      (ap (λ k. some (some k)) (omega arith))

-- `strrsep` finds the last separator of a string, and so the start of the last part of a path.
strrsep_lem :
    (s u t : List ℕ) (ch : ℕ)
    → Chars (s ++ ch ∷ u)
    → is_separator ch ≡ true
    → All (λ c. is_separator c ≡ false) u
    → strrsep (s ++ ch ∷ terminated u t) ≡ some (some (length s))
unfolding strrsep
strrsep_lem s u t ch h y n =
    let e : 0 + length s ≡ length s = omega arith in
    find_last-found is_separator s u t ch 0 none h y n refl ∙ ap (λ k. some (some k)) e
