-- ===== src/Cache/Search.antt =====
-- The search of a chain of src/kernel/cache.c: what it finds, and when it finds nothing.
use light_os.Cache.{Buffer, Cache, hash, key_hash, has_key, find}
use light_os.Cache.Lists.{mem}
use light_os.Cache.Valid.{IsValid}
use mathlib.Core.Path.{subst}
use light_os.Base.{
  ℕ, ◌<◌, ◌≡◌, refl, ap, ◌∙◌, inl, inr, true, false, none, some, List, [], ◌∷◌, ◌==◌, Bool-cases,
  ==_iff, ==_refl, some_inj, then_of, else_of, arith,
}

-- Buffer `j` has the block of a device.
abbrev pub Keyed : Cache → (dev block j : ℕ) → Type 0
Keyed c dev block j = ((c.buffer j).dev ≡ dev) × ((c.buffer j).block ≡ block)

pub find-keyed :
    (buffer : ℕ → Buffer) (dev block i : ℕ) (chain : List ℕ)
    → find buffer dev block chain ≡ some i
    → (mem i chain ≡ true) × (has_key buffer dev block i ≡ true)
unfolding find mem
find-keyed buffer dev block i [] e = absurd (cc)
find-keyed buffer dev block i (j ∷ chain) e = elim (Bool-cases (has_key buffer dev block j)) [
  | inl t ↦
      subst (λ k. (mem k (j ∷ chain) ≡ true) × (has_key buffer dev block k ≡ true))
        (some_inj j i (then_of (has_key buffer dev block j) _ _ t e)) (rw (==_refl j) refl, t)
  | inr t ↦
      let (m, k) =
        find-keyed buffer dev block i chain (else_of (has_key buffer dev block j) _ _ t e) in
      (ground (arith, m), k)
]

pub find-none :
    (buffer : ℕ → Buffer) (dev block j : ℕ) (chain : List ℕ)
    → find buffer dev block chain ≡ none
    → mem j chain ≡ true
    → has_key buffer dev block j ≡ false
unfolding find mem
find-none buffer dev block j [] e m = absurd (cc)
find-none buffer dev block j (k ∷ chain) e m = elim (Bool-cases (has_key buffer dev block k)) [
  | inl t ↦ absurd (cc (then_of (has_key buffer dev block k) _ _ t e))
  | inr t ↦ elim (Bool-cases (k == j)) [
    | inl s ↦ subst (λ i. has_key buffer dev block i ≡ false) ((==_iff k j).0 s) t
    | inr s ↦
        find-none buffer dev block j chain (else_of (has_key buffer dev block k) _ _ t e)
          (ground (arith, m, s))
  ]
]

-- Where the chain of a key has no buffer with it, no buffer has it.
pub absent :
    (c : Cache) (dev block j : ℕ)
    → IsValid c
    → find c.buffer dev block (c.hash_table (hash dev block)) ≡ none
    → j < c.made
    → ¬ Keyed c dev block j
absent c dev block j v e lt k =
    let same : key_hash c j ≡ hash dev block =
      ap (λ d. hash d (c.buffer j).block) k.0 ∙ ap (hash dev) k.1 in
    let there : mem j (c.hash_table (hash dev block)) ≡ true =
      ground (arith, v.hashed j (hash dev block), lt, same) in
    ground (arith, find-none c.buffer dev block j (c.hash_table (hash dev block)) e there, k)
