-- ===== src/Paths/Held.antt =====
-- The references that `find_entry`, `add_entry` and `new_inode` take and give back.
use mathlib.Core.Path.{subst}
use light_os.Inodes.{Fs, take, iput, desc_of, size_of}
use light_os.Inodes.Counts.{Good, Holds, Holds-same, Holds-occ, take-Holds, iput-Holds}
use light_os.Inodes.Get.{mount_used}
use light_os.Inodes.Truncate.{is_dir}
use light_os.Blocks.{bmap}
use light_os.Paths.{match_name}
use light_os.Strings.{strncpy}
use light_os.Paths.Entries.{
  Entry, dot_dot, is_some, leave_mount, start_dir, find_entry, scan_entries, blocks_of, dentry_size,
  block_dentries, half_word, grow, set_blocks, name_entry, add_loop, no_separator, add_missing,
  add_entry,
}
use light_os.Base.{
  ℕ, zero, suc, ◌+◌, ◌*◌, ◌/◌, ◌%◌, ◌<◌, ◌≡◌, refl, sym, ap, ◌∙◌, inl, inr, Bool, true, false, not,
  ◌&&◌, Option, none, some, List, ◌∷◌, length, leb, ◌==◌, >>=-eq-some, assert-eq-some, some_inj,
  Bool-cases, arith,
}

-- Lists of slots that leave room for those that a call adds
abbrev pub Room : List ℕ → Type 0
Room h = length h < 900

pub swap :
    (fs fs1 : Fs) (a b : ℕ) (h : List ℕ) → Holds fs (a ∷ b ∷ h) fs1 → Holds fs (b ∷ a ∷ h) fs1
swap fs fs1 a b h o = Holds-occ fs fs1 (a ∷ b ∷ h) (b ∷ a ∷ h) (λ j. omega arith) o

-- The table and the super blocks are as before.
abbrev pub Same : Fs → Fs → Type 0
Same fs1 fs2 = (fs2.table ≡ fs1.table) × (fs2.supers ≡ fs1.supers)

pub Same-Holds : (fs fs1 fs2 : Fs) (h : List ℕ) → Same fs1 fs2 → Holds fs h fs1 → Holds fs h fs2
Same-Holds fs fs1 fs2 h e o = Holds-same fs fs1 fs2 h e.0 e.1 o

abbrev leaves : Fs → (dir : ℕ) → Option (List ℕ) → Bool
leaves fs dir m = is_some m && (fs.table dir).nr == 1 && not (dir == 0)

-- A directory that a search has settled on: another search of the name stays in it.
abbrev pub Settled : Fs → (dir : ℕ) → (name : List ℕ) → Type 0
Settled fs dir name = start_dir fs dir name ≡ some (dir, fs)

stays :
    (fs : Fs) (dir : ℕ) (name : List ℕ) (m : Option (List ℕ))
    → match_name name dot_dot ≡ some m
    → leaves fs dir m ≡ false
    → Settled fs dir name
unfolding start_dir
stays fs dir name m e f = rw (e, f) refl

module _ (fs : Fs) (g : Good fs) (fs1 : Fs) (h : List ℕ) (room : Room h) where
  leave_mount-Holds :
      (dir dir' : ℕ) (name : List ℕ) (m : Option (List ℕ)) (fs2 : Fs)
      → match_name name dot_dot ≡ some m
      → Holds fs (dir ∷ h) fs1
      → leave_mount fs1 dir ≡ some (dir', fs2)
      → Holds fs (dir' ∷ h) fs2 × Settled fs2 dir' name
  leave_mount-Holds dir dir' name m fs2 e1 o e =
      let (sb, s, e2) = >>=-eq-some (fs1.supers (fs1.table dir).dev) _ e in
      let i = sb.imount in
      let (fs3, p, e3) = >>=-eq-some (iput (take fs1 i) (some dir)) _ e2 in
      let d = (fs1.table dir).dev in
      let s0 : fs.supers d ≡ some sb = sym (ap (λ t. t d) o.supers) ∙ s in
      let taken =
        take-Holds fs g fs1 i (dir ∷ h) (omega arith) (mount_used fs g fs1 d sb (dir ∷ h) o s).1
          o in
      let o3 =
        iput-Holds fs g (take fs1 i) fs3 dir (i ∷ h) (omega arith)
          (swap fs (take fs1 i) i dir h taken) p in
      let same = o3.kept i (g.mounts d sb s0).1 in
      let off : leaves fs3 i m ≡ false = ground (arith, same, g.unstacked d sb s0) in
      subst (λ p. Holds fs (p.0 ∷ h) p.1 × Settled p.1 p.0 name) (some_inj (i, fs3) (dir', fs2) e3)
        (o3, stays fs3 i name m e1 off)

  start_dir-Holds :
      (dir dir' : ℕ) (name : List ℕ) (fs2 : Fs)
      → Holds fs (dir ∷ h) fs1
      → start_dir fs1 dir name ≡ some (dir', fs2)
      → Holds fs (dir' ∷ h) fs2 × Settled fs2 dir' name
  unfolding start_dir
  start_dir-Holds dir dir' name fs2 o e =
      let (m, e1, e2) = >>=-eq-some (match_name name dot_dot) _ e in
      elim (Bool-cases (leaves fs1 dir m)) [
        | inl t ↦ leave_mount-Holds dir dir' name m fs2 e1 o (sym (rw t refl) ∙ e2)
        | inr f ↦
            let same : some (dir, fs1) ≡ some (dir', fs2) = sym (rw f refl) ∙ e2 in
            subst (λ p. Holds fs (p.0 ∷ h) p.1 × Settled p.1 p.0 name)
              (some_inj (dir, fs1) (dir', fs2) same) (o, stays fs1 dir name m e1 f)
      ]

  -- `find_entry` may go over to another directory, and holds that in place of the first.
  pub find_entry-Holds :
      (dir dir' : ℕ) (name : List ℕ) (found : Option Entry) (fs2 : Fs)
      → Holds fs (dir ∷ h) fs1
      → find_entry fs1 dir name ≡ some (found, dir', fs2)
      → Holds fs (dir' ∷ h) fs2 × Settled fs2 dir' name
  unfolding find_entry
  find_entry-Holds dir dir' name found fs2 o e =
      let (_, e1) = assert-eq-some (is_dir (desc_of fs1 dir).mode) _ e in
      let (r, s, e2) = >>=-eq-some (start_dir fs1 dir name) _ e1 in
      let (found', _, e3) = >>=-eq-some (scan_entries _ _ (blocks_of r.1 r.0) name _ 0) _ e2 in
      let same = some_inj (found', r.0, r.1) (found, dir', fs2) e3 in
      subst (λ p. Holds fs (p.1 ∷ h) p.2 × Settled p.2 p.1 name) same
        (start_dir-Holds dir r.0 name r.1 o s)

grow-Same : (fs : Fs) (dir block offset i : ℕ) → Same fs (grow fs dir block offset i)
grow-Same fs dir block offset i = elim (Bool-cases (leb (size_of fs dir) (i * dentry_size))) [
  | inl t ↦ rw t (refl, refl)
  | inr f ↦ rw f (refl, refl)
]

name_entry-Same :
    (fs fs' : Fs) (dir : ℕ) (name : List ℕ) (block offset : ℕ) (entry : Entry)
    → name_entry fs dir name block offset ≡ some (entry, fs')
    → Same fs fs'
name_entry-Same fs fs' dir name block offset entry e =
    let (name', _, e1) = >>=-eq-some (strncpy _ name 14) _ e in
    let f = some_inj _ (entry, fs') e1 in
    (ap (λ p. p.1.table) (sym f), ap (λ p. p.1.supers) (sym f))

Same-trans : (fs1 fs2 fs3 : Fs) → Same fs1 fs2 → Same fs2 fs3 → Same fs1 fs3
Same-trans fs1 fs2 fs3 a b = (b.0 ∙ a.0, b.1 ∙ a.1)

add_loop-Same :
    (fuel : ℕ) (fs fs' : Fs) (dir : ℕ) (name : List ℕ) (i : ℕ) (entry : Entry)
    → add_loop fuel fs dir name i ≡ some (entry, fs')
    → Same fs fs'
unfolding add_loop
add_loop-Same zero fs fs' dir name i entry e = absurd (cc)
add_loop-Same (suc fuel) fs fs' dir name i entry e =
    let (r, _, e1) = >>=-eq-some (bmap (blocks_of fs dir) (i / block_dentries) true) _ e in
    let offset = i % block_dentries * dentry_size in
    let fs2 = grow (set_blocks fs dir r.1) dir r.0 offset i in
    let grown = grow-Same (set_blocks fs dir r.1) dir r.0 offset i in
    let (_, e2) = assert-eq-some (not (r.0 == 0)) _ e1 in
    elim (Bool-cases (not (half_word (fs2.bytes (fs2.table dir).dev r.0) offset == 0))) [
      | inl t ↦
          Same-trans fs fs2 fs' grown
            (add_loop-Same fuel fs2 fs' dir name (i + 1) entry (sym (rw t refl) ∙ e2))
      | inr f ↦
          Same-trans fs fs2 fs' grown
            (name_entry-Same fs2 fs' dir name r.0 offset entry (sym (rw f refl) ∙ e2))
    ]

-- Once a search has settled on the directory, `add_entry` changes no reference.
pub add_entry-Same :
    (fs fs' : Fs) (dir : ℕ) (name : List ℕ) (entry : Entry)
    → Settled fs dir name
    → add_entry fs dir name ≡ some (entry, fs')
    → Same fs fs'
unfolding add_entry find_entry
add_entry-Same fs fs' dir name entry settled e =
    let (q, e0, e1) = >>=-eq-some (find_entry fs dir name) _ e in
    let (_, f1) = assert-eq-some (is_dir (desc_of fs dir).mode) _ e0 in
    let (r, s, f2) = >>=-eq-some (start_dir fs dir name) _ f1 in
    let (found, _, f3) = >>=-eq-some (scan_entries _ _ (blocks_of r.1 r.0) name _ 0) _ f2 in
    let here : (dir, fs) ≡ r = some_inj (dir, fs) r (sym settled ∙ s) in
    let at : (found, dir, fs) ≡ q =
      ap (λ p. (found, p.0, p.1)) here ∙ some_inj (found, r.0, r.1) q f3 in
    missing-Same found (ap (λ p. add_missing p.2 p.1 name p.0) at ∙ e1)
  where
    missing-Same :
        (found : Option Entry) → add_missing fs dir name found ≡ some (entry, fs') → Same fs fs'
    missing-Same none f =
        add_loop-Same (size_of fs dir / dentry_size + 2) fs fs' dir name 0 entry
          (assert-eq-some (no_separator 14 name) _ f).1
    missing-Same (some a) f =
        let p = some_inj (a, fs) (entry, fs') f in
        (ap (λ t. t.1.table) (sym p), ap (λ t. t.1.supers) (sym p))
