-- ===== src/Paths/Search.antt =====
-- What the search of a directory finds.
use mathlib.Core.Path.{subst}
use light_os.Inodes.{Fs, desc_of, size_of}
use light_os.Inodes.Truncate.{is_dir}
use light_os.Blocks
use light_os.Blocks.{bmap, total_blocks}
use light_os.Blocks.Lookup.{lookup, bmap-lookup}
use light_os.Paths.{match_name}
use light_os.Paths.Entries.{
  start_dir, find_entry, Entry, scan_entries, entry_in, matched, blocks_of, half_word, name_at,
}
use light_os.Base.{
  ℕ, zero, suc, ◌+◌, ◌*◌, ◌/◌, ◌%◌, ◌<◌, ◌≤◌, ◌≡◌, ◌≢◌, refl, sym, ap, ◌∙◌, ◌⊎◌, inl, inr, false,
  not, Option, none, some, List, ◌==◌, ◌>>◌, assert, >>=-eq-some, assert-eq-some, some_inj,
  Bool-cases, ==_iff, then_of, else_of, arith,
}

-- Where entry `i` of a directory is, in the block that its zone names
abbrev pub offset_of : ℕ → ℕ
offset_of i = i % 64 * 16

abbrev pub nr_at : (ℕ → ℕ → ℕ) → Blocks.Inode → ℕ → ℕ
nr_at data_of inode i = half_word (data_of (lookup inode (i / 64))) (offset_of i)

-- Entry `i` is in use and its name matches, with the rest of the path.
abbrev pub Matches : (ℕ → ℕ → ℕ) → Blocks.Inode → (name : List ℕ) → (i : ℕ) → List ℕ → Type 0
Matches data_of inode name i next =
    (nr_at data_of inode i ≢ 0)
    × (match_name name (name_at (data_of (lookup inode (i / 64))) (offset_of i)) ≡ some (some next))

-- Entry `i` is free, or its name is another.
abbrev pub Differs : (ℕ → ℕ → ℕ) → Blocks.Inode → (name : List ℕ) → (i : ℕ) → Type 0
Differs data_of inode name i =
    (nr_at data_of inode i ≡ 0)
    ⊎ (match_name name (name_at (data_of (lookup inode (i / 64))) (offset_of i)) ≡ some none)

-- The outcome of a search of `n` entries from `i` on: the first that matches, or none of them does.
pub data Searched (data_of : ℕ → ℕ → ℕ) (inode : Blocks.Inode) (name : List ℕ) (i n : ℕ)
    : Option Entry → Type 0 where
  absent :
      ((j : ℕ) → i ≤ j → j < i + n → Differs data_of inode name j)
      → Searched data_of inode name i n none
  first :
      {entry : Entry} (j : ℕ)
      → i ≤ j
      → j < i + n
      → Matches data_of inode name j entry.next
      → entry.nr ≡ nr_at data_of inode j
      → entry.block ≡ lookup inode (j / 64)
      → entry.offset ≡ offset_of j
      → ((k : ℕ) → i ≤ k → k < j → Differs data_of inode name k)
      → Searched data_of inode name i n (some entry)

module _ (data_of : ℕ → ℕ → ℕ) (dev : ℕ) (inode : Blocks.Inode) (name : List ℕ) where
  Searched-suc :
      (i n : ℕ) (r : Option Entry)
      → Differs data_of inode name i
      → Searched data_of inode name (i + 1) n r
      → Searched data_of inode name i (suc n) r
  Searched-suc i n _ d (absent f) = absent λ j p q. elim (Bool-cases (i == j)) [
    | inl e ↦ subst (Differs data_of inode name) ((==_iff i j).0 e) d
    | inr e ↦ f j (ground (arith, e)) (omega (arith, q))
  ]
  Searched-suc i n _ d (first j p q m a b c f) =
      first j (omega (arith, p)) (omega (arith, q)) m a b c λ k u v. elim (Bool-cases (i == k)) [
        | inl e ↦ subst (Differs data_of inode name) ((==_iff i k).0 e) d
        | inr e ↦ f k (ground (arith, e)) v
      ]

  entry_in-Searched :
      (n i : ℕ) (r : Option Entry) (rest : Option (Option Entry))
      → ((r' : Option Entry) → rest ≡ some r' → Searched data_of inode name (i + 1) n r')
      → entry_in (data_of (lookup inode (i / 64))) name dev (lookup inode (i / 64)) i rest ≡ some r
      → Searched data_of inode name i (suc n) r
  entry_in-Searched n i r rest later e = elim (Bool-cases (nr_at data_of inode i == 0)) [
    | inl z ↦
        Searched-suc i n r (inl ((==_iff _ 0).0 z))
          (later r (then_of (nr_at data_of inode i == 0) _ _ z e))
    | inr u ↦
        let f = data_of (lookup inode (i / 64)) in
        let (m, p, e1) =
          >>=-eq-some (match_name name (name_at f (offset_of i))) _
            (else_of (nr_at data_of inode i == 0) _ _ u e) in
        compared m p e1 u
  ]
    where
      compared :
          (m : Option (List ℕ))
          → match_name name (name_at (data_of (lookup inode (i / 64))) (offset_of i)) ≡ some m
          → matched dev (lookup inode (i / 64)) (offset_of i) (nr_at data_of inode i) m rest
            ≡ some r
          → (nr_at data_of inode i == 0) ≡ false
          → Searched data_of inode name i (suc n) r
      compared none p e1 u = Searched-suc i n r (inr p) (later r e1)
      compared (some next) p e1 u =
          subst (Searched data_of inode name i (suc n)) (some_inj _ r e1) (
            first i (omega arith) (omega arith) ((λ z. ground (arith, u, z)), p) refl refl refl
              (λ k a b. absurd (omega (arith, a, b))))

  scan_entries-Searched :
      (n i : ℕ) (r : Option Entry)
      → i + n ≤ total_blocks * 64
      → scan_entries data_of dev inode name n i ≡ some r
      → Searched data_of inode name i n r
  unfolding scan_entries
  scan_entries-Searched zero i r small e =
      subst (Searched data_of inode name i 0) (some_inj none r e)
        (absent λ j p q. absurd (omega arith))
  scan_entries-Searched (suc n) i r small e =
      let b = lookup inode (i / 64) in
      let rest = scan_entries data_of dev inode name n (i + 1) in
      let within : i / 64 < total_blocks = omega (arith, small) in
      let later = λ (r' : Option Entry) (f : rest ≡ some r').
        scan_entries-Searched n (i + 1) r' (omega (arith, small)) f in
      let (q, p, e1) = >>=-eq-some (bmap inode (i / 64) false) _ e in
      let same =
        some_inj q (b, inode) (sym p ∙ bmap-lookup inode (i / 64) false within (inl refl)) in
      let here =
        ap (λ t. assert (not (t.0 == 0)) >> entry_in (data_of t.0) name dev t.0 i rest) (sym same)
        ∙ e1 in
      entry_in-Searched n i r rest later (assert-eq-some (not (b == 0)) _ here).1

-- `find_entry` of a name returns the first entry in use that the name matches, with its number and
-- its place, in the directory that it settles on; or none, if none matches. The directory has no more
-- entries than a file has room for.
pub find_entry-Searched :
    (fs fs' : Fs) (dir dir' : ℕ) (name : List ℕ) (found : Option Entry)
    → size_of fs' dir' / 16 ≤ total_blocks * 64
    → find_entry fs dir name ≡ some (found, dir', fs')
    → Searched
        (fs'.bytes (fs'.table dir').dev)
        (blocks_of fs' dir')
        name
        0
        (size_of fs' dir' / 16)
        found
unfolding find_entry
find_entry-Searched fs fs' dir dir' name found small e =
    let (_, e1) = assert-eq-some (is_dir (desc_of fs dir).mode) _ e in
    let (r, s, e2) = >>=-eq-some (start_dir fs dir name) _ e1 in
    let (found', p, e3) = >>=-eq-some (scan_entries _ _ (blocks_of r.1 r.0) name _ 0) _ e2 in
    let same = some_inj (found', r.0, r.1) (found, dir', fs') e3 in
    let scan = λ (t : Option Entry × ℕ × Fs).
      scan_entries (t.2.bytes (t.2.table t.1).dev) (t.2.table t.1).dev (blocks_of t.2 t.1) name
        (size_of t.2 t.1 / 16) 0
      ≡ some t.0 in
    scan_entries-Searched (fs'.bytes (fs'.table dir').dev) (fs'.table dir').dev (blocks_of fs' dir')
      name (size_of fs' dir' / 16) 0 found (omega (arith, small)) (subst scan same p)
