-- ===== src/Paths/Match.antt =====
-- What a match of a name says of the path.
use light_os.Base.{
  ℕ, ◌≡◌, ◌≢◌, refl, sym, ap, ◌∙◌, Bool, true, false, not, ◌&&◌, Option, none, some, List, [], ◌∷◌,
  ◌++◌, ◌==◌, if◌then◌else◌, >>=-eq-some, arith, Bool-cases, inl, inr, ==_ne, ==_iff, some_inj,
}
use mathlib.Core.Path.{subst}
use light_os.Strings.{is_separator}
use light_os.Strings.Laws.{Chars, terminated}
use light_os.Paths.{skip_separators, match_end, match_parts, match_name}

-- The path `lhs` begins with `entry`, up to its end or a separator, and goes on with `next`.
pub data Begins (lhs entry : List ℕ) : List ℕ → Type 0 where
  at_end : (t : List ℕ) → lhs ≡ terminated entry t → Begins lhs entry (0 ∷ t)
  before_part :
      (c : ℕ) (next : List ℕ)
      → is_separator c ≡ true
      → lhs ≡ entry ++ c ∷ next
      → Begins lhs entry next

Begins-cons :
    (c : ℕ) (lhs entry next : List ℕ) → Begins lhs entry next → Begins (c ∷ lhs) (c ∷ entry) next
Begins-cons c lhs entry next (at_end t e) = at_end t (ap (λ l. c ∷ l) e)
Begins-cons c lhs entry _ (before_part d next e f) = before_part d next e (ap (λ l. c ∷ l) f)

match_end-Begins :
    (l : ℕ) (lhs next : List ℕ) → match_end l lhs 0 ≡ some next → Begins (l ∷ lhs) [] next
unfolding match_end
match_end-Begins l lhs next e = elim (Bool-cases (l == 0)) [
  | inl z ↦ ended ((==_iff l 0).0 z) (some_inj (l ∷ lhs) next (sym (if_zero z) ∙ e))
  | inr nz ↦ elim (Bool-cases (is_separator l)) [
    | inl s ↦ goes_on s (some_inj lhs next (sym (if_sep nz s) ∙ e))
    | inr ns ↦ absurd (cc (sym (if_none nz ns) ∙ e))
  ]
]
  where
    chosen : Bool → Bool → Option (List ℕ)
    chosen b c = if b then some (l ∷ lhs) else if c then some lhs else none

    if_zero : (l == 0) ≡ true → match_end l lhs 0 ≡ some (l ∷ lhs)
    if_zero z = ap (λ b. chosen b (is_separator l)) z

    if_sep : (l == 0) ≡ false → is_separator l ≡ true → match_end l lhs 0 ≡ some lhs
    if_sep z s = ap (λ b. chosen b (is_separator l)) z ∙ ap (chosen false) s

    if_none : (l == 0) ≡ false → is_separator l ≡ false → match_end l lhs 0 ≡ none
    if_none z s = ap (λ b. chosen b (is_separator l)) z ∙ ap (chosen false) s

    ended : l ≡ 0 → l ∷ lhs ≡ next → Begins (l ∷ lhs) [] next
    ended z f =
        subst (Begins (l ∷ lhs) []) (ap (λ c. c ∷ lhs) (sym z) ∙ f)
          (at_end lhs (ap (λ c. c ∷ lhs) z))

    goes_on : is_separator l ≡ true → lhs ≡ next → Begins (l ∷ lhs) [] next
    goes_on s f = subst (Begins (l ∷ lhs) []) f (before_part l lhs s refl)

match_parts-cons :
    (l r : ℕ) (lhs rhs : List ℕ)
    → match_parts (l ∷ lhs) (r ∷ rhs) ≡ (
        if l == r && not (l == 0) && not (r == 0)
        then match_parts lhs rhs
        else some (match_end l lhs r))
unfolding match_parts
match_parts-cons l r lhs rhs = refl

match_end-ne : (l : ℕ) (lhs : List ℕ) (r : ℕ) → r ≢ 0 → match_end l lhs r ≡ none
unfolding match_end
match_end-ne l lhs r ne = rw (==_ne r 0 ne)

match_parts-zero :
    (l : ℕ) (lhs t : List ℕ) → match_parts (l ∷ lhs) (0 ∷ t) ≡ some (match_end l lhs 0)
match_parts-zero l lhs t =
    let off : (l == 0 && not (l == 0) && not (0 == 0)) ≡ false = ground arith in
    match_parts-cons l 0 lhs t ∙ rw off

match_parts-Begins :
    (lhs entry t next : List ℕ)
    → Chars entry
    → match_parts lhs (terminated entry t) ≡ some (some next)
    → Begins lhs entry next
unfolding match_parts
match_parts-Begins [] entry t next h e = cc
match_parts-Begins (l ∷ lhs) [] t next h e =
    match_end-Begins l lhs next (some_inj _ _ (sym (match_parts-zero l lhs t) ∙ e))
match_parts-Begins (l ∷ lhs) (r ∷ entry) t next h e = elim (Bool-cases (l == r)) [
  | inl same ↦
      let e1 : l ≡ r = (==_iff l r).0 same in
      let on : (l == r && not (l == 0) && not (r == 0)) ≡ true = ground (arith, h.0) in
      let run = sym (match_parts-cons l r lhs (terminated entry t) ∙ rw on) ∙ e in
      subst (λ x. Begins (x ∷ lhs) (r ∷ entry) next) (sym e1)
        (Begins-cons r lhs entry next (match_parts-Begins lhs entry t next h.1 run))
  | inr other ↦
      let off : (l == r && not (l == 0) && not (r == 0)) ≡ false = rw other in
      let run : some (match_end l lhs r) ≡ some (some next) =
        sym (match_parts-cons l r lhs (terminated entry t) ∙ rw off) ∙ e in
      absurd (cc (some_inj _ _ run, match_end-ne l lhs r h.0))
]

-- If `match_name` finds that a path begins with an entry's name, then the path, behind its leading
-- separators, is that name up to the end or to a separator, and `next` is what comes behind.
match_name-Begins :
    (name entry t next : List ℕ)
    → Chars entry
    → match_name name (terminated entry t) ≡ some (some next)
    → (lhs : List ℕ) × (skip_separators name ≡ some lhs) × Begins lhs entry next
unfolding match_name
match_name-Begins name entry t next h e =
    let (lhs, f, g) =
      >>=-eq-some (skip_separators name) (λ lhs. match_parts lhs (terminated entry t)) e in
    (lhs, f, match_parts-Begins lhs entry t next h g)
