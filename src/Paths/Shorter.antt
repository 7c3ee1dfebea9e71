-- ===== src/Paths/Shorter.antt =====
-- A part of a path that `find_entry` of src/fs/namei.c finds leaves less of the path.
use light_os.Inodes.{Fs, desc_of}
use light_os.Inodes.Truncate.{is_dir}
use light_os.Paths.{skip_separators, match_name, match_parts, match_end}
use light_os.Paths.Entries.{
  find_entry, Entry, scan_entries, entry_in, matched, name_at, start_dir, half_word, block_dentries,
  dentry_size, blocks_of,
}
use light_os.Strings.{is_separator}
use light_os.Blocks
use light_os.Blocks.{bmap}
use mathlib.Core.Path.{subst}
use light_os.Base.{
  ℕ, zero, suc, ◌+◌, ◌*◌, ◌/◌, ◌%◌, ◌<◌, ◌≤◌, ◌≡◌, sym, ap, ◌∙◌, ◌⊎◌, inl, inr, false, not, ◌&&◌,
  Option, none, some, List, [], ◌∷◌, length, ◌==◌, Bool-cases, ==_iff, some_inj, then_of, else_of,
  >>=-eq-some, assert-eq-some, arith,
}

-- Nothing is left of a path but separators.
pub Ended : List ℕ → Type 0
Ended name = (t : List ℕ) × (skip_separators name ≡ some (0 ∷ t))

match_end-le :
    (l r : ℕ) (lhs next : List ℕ)
    → match_end l lhs r ≡ some next
    → (length next ≤ length lhs) ⊎ ((l ≡ 0) × (next ≡ l ∷ lhs))
unfolding match_end
match_end-le l r lhs next e = elim (Bool-cases (not (r == 0))) [
  | inl t ↦ absurd (cc (then_of (not (r == 0)) _ _ t e))
  | inr n ↦
      let e1 = else_of (not (r == 0)) _ _ n e in
      elim (Bool-cases (l == 0)) [
        | inl z ↦ inr ((==_iff l 0).0 z, sym (some_inj (l ∷ lhs) next (then_of (l == 0) _ _ z e1)))
        | inr z ↦
            let e2 = else_of (l == 0) _ _ z e1 in
            elim (Bool-cases (is_separator l)) [
              | inl s ↦
                  let same = some_inj lhs next (then_of (is_separator l) _ _ s e2) in
                  inl (subst (λ xs. length xs ≤ length lhs) same (omega arith))
              | inr s ↦ absurd (cc (else_of (is_separator l) _ _ s e2))
            ]
      ]
]

match_parts-le :
    (lhs rhs next : List ℕ)
    → match_parts lhs rhs ≡ some (some next)
    → (length next < length lhs) ⊎ ((length next ≤ length lhs) × ((t : List ℕ) × (lhs ≡ 0 ∷ t)))
unfolding match_parts
match_parts-le [] rhs next e = absurd (cc)
match_parts-le (l ∷ lhs) [] next e = absurd (cc)
match_parts-le (l ∷ lhs) (r ∷ rhs) next e =
    let same = l == r && not (l == 0) && not (r == 0) in
    elim (Bool-cases same) [
      | inl t ↦ inl (shorter (match_parts-le lhs rhs next (then_of same _ _ t e)))
      | inr n ↦ elim (match_end-le l r lhs next (some_inj _ _ (else_of same _ _ n e))) [
        | inl le ↦ inl (omega (arith, le))
        | inr (z, f) ↦ inr (rw f (omega arith), (lhs, ap (λ c. c ∷ lhs) z))
      ]
    ]
  where
    shorter :
        (length next < length lhs) ⊎ ((length next ≤ length lhs) × ((t : List ℕ) × (lhs ≡ 0 ∷ t)))
        → length next < suc (length lhs)
    shorter (inl lt) = omega (arith, lt)
    shorter (inr (le, z)) = omega (arith, le)

pub skip_separators-le :
    (name lhs : List ℕ) → skip_separators name ≡ some lhs → length lhs ≤ length name
unfolding skip_separators
skip_separators-le [] lhs e = absurd (cc)
skip_separators-le (c ∷ name) lhs e = elim (Bool-cases (is_separator c)) [
  | inl s ↦ omega (arith, skip_separators-le name lhs (then_of (is_separator c) _ _ s e))
  | inr s ↦
      subst (λ xs. length xs ≤ length (c ∷ name))
        (some_inj (c ∷ name) lhs (else_of (is_separator c) _ _ s e)) (omega arith)
]

-- A name that matches leaves less of the path, unless only separators are left.
match_name-shorter :
    (name entry next : List ℕ)
    → match_name name entry ≡ some (some next)
    → (length next < length name) ⊎ Ended name
unfolding match_name Ended
match_name-shorter name entry next e =
    let (lhs, s, m) = >>=-eq-some (skip_separators name) (λ lhs. match_parts lhs entry) e in
    let le = skip_separators-le name lhs s in
    elim (match_parts-le lhs entry next m) [
      | inl lt ↦ inl (omega (arith, lt, le))
      | inr (_, (t, z)) ↦ inr (t, s ∙ ap (λ xs. some xs) z)
    ]

-- An entry that is found has a name that matches.
entry_in-matches :
    (f : ℕ → ℕ) (name : List ℕ) (dev block i : ℕ) (entry : Entry) (rest : Option (Option Entry))
    → entry_in f name dev block i rest ≡ some (some entry)
    → (rest ≡ some (some entry)) ⊎ ((n : List ℕ) × (match_name name n ≡ some (some entry.next)))
entry_in-matches f name dev block i entry rest e =
    let free = half_word f (i % block_dentries * dentry_size) == 0 in
    elim (Bool-cases free) [
      | inl z ↦ inl (then_of free _ _ z e)
      | inr u ↦
          let n = name_at f (i % block_dentries * dentry_size) in
          let (m, p, e1) = >>=-eq-some (match_name name n) _ (else_of free _ _ u e) in
          compared n m p e1
    ]
  where
    compared :
        (n : List ℕ) (m : Option (List ℕ))
        → match_name name n ≡ some m
        → matched dev block
            (i % block_dentries * dentry_size)
            (half_word f (i % block_dentries * dentry_size))
            m
            rest
          ≡ some (some entry)
        → (rest ≡ some (some entry)) ⊎ ((n : List ℕ) × (match_name name n ≡ some (some entry.next)))
    compared n none p e1 = inl e1
    compared n (some next) p e1 =
        let same = some_inj _ entry (some_inj _ (some entry) e1) in
        inr (n, p ∙ ap (λ x. some (some x)) (ap (λ (x : Entry). x.next) same))

scan_entries-matches :
    (data_of : ℕ → ℕ → ℕ) (dev : ℕ) (inode : Blocks.Inode) (name : List ℕ) (n i : ℕ) (entry : Entry)
    → scan_entries data_of dev inode name n i ≡ some (some entry)
    → (m : List ℕ) × (match_name name m ≡ some (some entry.next))
unfolding scan_entries
scan_entries-matches data_of dev inode name zero i entry e = absurd (cc)
scan_entries-matches data_of dev inode name (suc n) i entry e =
    let rest = scan_entries data_of dev inode name n (i + 1) in
    let (q, p, e1) = >>=-eq-some (bmap inode (i / block_dentries) false) _ e in
    let (_, e2) = assert-eq-some (not (q.0 == 0)) _ e1 in
    elim (entry_in-matches (data_of q.0) name dev q.0 i entry rest e2) [
      | inl r ↦ scan_entries-matches data_of dev inode name n (i + 1) entry r
      | inr m ↦ m
    ]

pub find_entry-shorter :
    (fs fs' : Fs) (dir dir' : ℕ) (name : List ℕ) (entry : Entry)
    → find_entry fs dir name ≡ some (some entry, dir', fs')
    → (length entry.next < length name) ⊎ Ended name
unfolding find_entry
find_entry-shorter fs fs' dir dir' name entry e =
    let (_, e1) = assert-eq-some (is_dir (desc_of fs dir).mode) _ e in
    let (r, s, e2) = >>=-eq-some (start_dir fs dir name) _ e1 in
    let (found, p, e3) = >>=-eq-some (scan_entries _ _ (blocks_of r.1 r.0) name _ 0) _ e2 in
    let same = some_inj (found, r.0, r.1) (some entry, dir', fs') e3 in
    let (n, m) =
      scan_entries-matches _ _ _ name _ 0 entry (p ∙ ap (λ x. some x) (ap (λ x. x.0) same)) in
    match_name-shorter name n entry.next m
