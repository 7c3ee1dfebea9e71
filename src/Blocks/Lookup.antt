-- ===== src/Blocks/Lookup.antt =====
-- Where src/fs/bmap.c finds the blocks of a file.
use mathlib.Core.Path.{subst}
use light_os.Blocks.{Inode, array_of, entry, reckon, bmap, total_blocks}
use light_os.Base.{
  ℕ, zero, suc, ◌-◌, ◌/◌, ◌%◌, ◌^◌, ◌<◌, ◌≡◌, refl, sym, ap, ◌∙◌, ◌≢◌, ◌⊎◌, inl, inr, Bool, true,
  false, ◌&&◌, Option, none, some, get_or, ltb, ◌==◌, if◌then◌else◌, Bool-cases, ==_ne, ==_iff,
  ltb→lt, lt→ltb, arith,
}

-- The block in the entry `i` of the array in block `b`; a missing array has no entries.
unfoldable pub through : Inode → (b i : ℕ) → ℕ
through inode b i = if b == 0 then 0 else get_or (inode.volume.index b) i 0

-- The place of a block of a file: its own entry for the first 7, through one array for the next 512,
-- and through two for the others.
unfoldable pub lookup : Inode → (block : ℕ) → ℕ
lookup inode block =
    let far = block - 519 in
    if ltb block 7
    then get_or inode.zone block 0
    else if ltb block 519
    then through inode (get_or inode.zone 7 0) (block - 7)
    else through inode (through inode (get_or inode.zone 8 0) (far / 512)) (far % 512)

-- Nothing is allocated if nothing may be, or if nothing is missing.
abbrev pub Present : ℕ → Bool → Type 0
Present v create = (create ≡ false) ⊎ (v ≢ 0)

and_false : (b : Bool) → (b && false) ≡ false
and_false true = refl
and_false false = refl

entry-present :
    (inode : Inode) (at : Option ℕ) (i : ℕ) (create : Bool)
    → Present (get_or (array_of inode at) i 0) create
    → entry inode at i create ≡ some (get_or (array_of inode at) i 0, inode)
unfolding entry
entry-present inode at i create (inl e) =
    rw (e, and_false (get_or (array_of inode at) i 0 == 0)) refl
entry-present inode at i create (inr e) = rw (==_ne (get_or (array_of inode at) i 0) 0 e) refl

-- One more level of the loop, where the entry is there or none may be made.
reckon-zero :
    (inode : Inode) (at : Option ℕ) (i block divider : ℕ) (create : Bool)
    → Present (get_or (array_of inode at) i 0) create
    → reckon zero inode at i block divider create ≡ some (get_or (array_of inode at) i 0, inode)
unfolding reckon
reckon-zero inode at i block divider create p = entry-present inode at i create p

reckon-suc :
    (level : ℕ) (inode : Inode) (at : Option ℕ) (i block divider : ℕ) (create : Bool) (v w : ℕ)
    → get_or (array_of inode at) i 0 ≡ v
    → Present v create
    → (v ≡ 0 → w ≡ 0)
    → (v ≢ 0
        → reckon level inode
            (some v)
            (block / divider % 2 ^ 16)
            (block % divider)
            (divider / 512)
            create
          ≡ some (w, inode))
    → reckon (suc level) inode at i block divider create ≡ some (w, inode)
unfolding reckon
reckon-suc level inode at i block divider create v w e p z f =
    let here : entry inode at i create ≡ some (v, inode) =
      entry-present inode at i create (subst (λ u. Present u create) (sym e) p)
      ∙ ap (λ u. some (u, inode)) e in
    elim (Bool-cases (v == 0)) [
      | inl g ↦
          rw (here, g) (ap (λ u. some (u, inode)) ((==_iff v 0).0 g ∙ sym (z ((==_iff v 0).0 g))))
      | inr g ↦ rw (here, g) (f λ q. absurd (ground (arith, q)))
    ]

through-missing : (inode : Inode) (b i : ℕ) → b ≡ 0 → through inode b i ≡ 0
unfolding through
through-missing inode b i e = rw e refl

through-entry :
    (inode : Inode) (b i : ℕ) → b ≢ 0 → through inode b i ≡ get_or (inode.volume.index b) i 0
unfolding through
through-entry inode b i e = rw (==_ne b 0 e) refl

Present-through :
    (inode : Inode) (b i : ℕ) (create : Bool)
    → Present (through inode b i) create
    → Present b create
Present-through inode b i create (inl e) = inl e
Present-through inode b i create (inr d) = inr (λ e. d (through-missing inode b i e))

reckon-one :
    (inode : Inode) (at : Option ℕ) (i block v : ℕ) (create : Bool)
    → get_or (array_of inode at) i 0 ≡ v
    → block < 512
    → Present (through inode v block) create
    → reckon 1 inode at i block 1 create ≡ some (through inode v block, inode)
reckon-one inode at i block v create e h p =
    reckon-suc 0 inode at i block 1 create v (through inode v block) e
      (Present-through inode v block create p) (through-missing inode v block)
      (λ d.
        let same : block / 1 % 2 ^ 16 ≡ block = omega arith in
        let value = through-entry inode v block d in
        rw (same, value)
          (reckon-zero inode (some v) block (block % 1) (1 / 512) create
            (subst (λ u. Present u create) value p)))

reckon-two :
    (inode : Inode) (at : Option ℕ) (i block v : ℕ) (create : Bool)
    → get_or (array_of inode at) i 0 ≡ v
    → block < 262144
    → Present (through inode (through inode v (block / 512)) (block % 512)) create
    → reckon 2 inode at i block 512 create
      ≡ some (through inode (through inode v (block / 512)) (block % 512), inode)
reckon-two inode at i block v create e h p =
    let b = through inode v (block / 512) in
    let pb = Present-through inode b (block % 512) create p in
    reckon-suc 1 inode at i block 512 create v (through inode b (block % 512)) e
      (Present-through inode v (block / 512) create pb)
      (λ z. through-missing inode b (block % 512) (through-missing inode v (block / 512) z))
      (λ d.
        let same : block / 512 % 2 ^ 16 ≡ block / 512 = omega arith in
        rw same (
          reckon-one inode (some v) (block / 512) (block % 512) b create
            (sym (through-entry inode v (block / 512) d)) (omega arith) p))

module _ (inode : Inode) (block : ℕ) where
  lookup-direct : ltb block 7 ≡ true → lookup inode block ≡ get_or inode.zone block 0
  unfolding lookup
  lookup-direct e = rw e refl

  lookup-once :
      ltb block 7 ≡ false
      → ltb block 519 ≡ true
      → lookup inode block ≡ through inode (get_or inode.zone 7 0) (block - 7)
  unfolding lookup
  lookup-once e g = rw (e, g) refl

  lookup-twice :
      ltb block 7 ≡ false
      → ltb block 519 ≡ false
      → lookup inode block
        ≡ through inode
            (through inode (get_or inode.zone 8 0) ((block - 519) / 512))
            ((block - 519) % 512)
  unfolding lookup
  lookup-twice e g = rw (e, g) refl

module _ (inode : Inode) (block : ℕ) (create : Bool) (h : block < total_blocks) where
  known : ltb block 262663 ≡ true
  known = lt→ltb block 262663 h

  present :
      {v : ℕ} → lookup inode block ≡ v → Present (lookup inode block) create → Present v create
  present e p = subst (λ u. Present u create) e p

  bmap-direct :
      ltb block 7 ≡ true
      → Present (lookup inode block) create
      → bmap inode block create ≡ some (lookup inode block, inode)
  unfolding bmap
  bmap-direct e p =
      let value = lookup-direct inode block e in
      let same : block % 2 ^ 16 ≡ block = ground arith in
      rw (known, e, value, same) (reckon-zero inode none block block 1 create (present value p))

  bmap-once :
      ltb block 7 ≡ false
      → ltb block 519 ≡ true
      → Present (lookup inode block) create
      → bmap inode block create ≡ some (lookup inode block, inode)
  unfolding bmap
  bmap-once e g p =
      let value = lookup-once inode block e g in
      let near : ltb (block - 7) 512 ≡ true = ground arith in
      rw (known, e, near, value)
        (reckon-one inode none 7 (block - 7) (get_or inode.zone 7 0) create refl
          (ltb→lt (block - 7) 512 near) (present value p))

  bmap-twice :
      ltb block 7 ≡ false
      → ltb block 519 ≡ false
      → Present (lookup inode block) create
      → bmap inode block create ≡ some (lookup inode block, inode)
  unfolding bmap
  bmap-twice e g p =
      let value = lookup-twice inode block e g in
      let far : ltb (block - 7) 512 ≡ false = ground arith in
      let rest : block - 7 - 512 ≡ block - 519 = omega arith in
      rw (known, e, far, value, rest)
        (reckon-two inode none 8 (block - 519) (get_or inode.zone 8 0) create refl (omega arith)
          (present value p))

-- `bmap` of a block that a file may have returns its place, and changes nothing, if it is not to create
-- or if no array and no entry on the way is missing.
pub bmap-lookup :
    (inode : Inode) (block : ℕ) (create : Bool)
    → block < total_blocks
    → Present (lookup inode block) create
    → bmap inode block create ≡ some (lookup inode block, inode)
bmap-lookup inode block create h p = elim (Bool-cases (ltb block 7)) [
  | inl e ↦ bmap-direct inode block create h e p
  | inr e ↦ elim (Bool-cases (ltb block 519)) [
    | inl g ↦ bmap-once inode block create h e g p
    | inr g ↦ bmap-twice inode block create h e g p
  ]
]
