-- ===== src/Memory/Zones.antt =====
-- `memory_init`: the memory that the loader reports.
use light_os.Base.{
  ℕ, ◌+◌, ◌*◌, ◌%◌, ◌^◌, ◌<◌, ◌≤◌, ◌≡◌, refl, sym, ◌∙◌, true, false, ◌&&◌, Option, All, some, List,
  [], ◌∷◌, leb, ltb, ◌==◌, if◌then◌else◌, ◌>>◌, assert, arith, Bool-cases, inl, inr, ◌⊎◌,
}
use mathlib.Core.Path.{subst}
use light_os.Memory.{base_page, kernel_pages, page_idx}

-- `ards_t`: base, size and type of a zone. An entry of the multiboot map has the same three.
pub record Zone : Type 0 where
  pub base : ℕ
  pub size : ℕ
  pub kind : ℕ

-- The loop over the zones: the largest valid one, its base and size cut to `u32`.
unfoldable pub largest : List Zone → (memory_base memory_size : ℕ) → ℕ × ℕ
largest [] memory_base memory_size = (memory_base, memory_size)
largest (z ∷ zs) memory_base memory_size =
    let better = z.kind == 1 && ltb memory_size z.size in
    largest zs (if better then z.base % 2 ^ 32 else memory_base)
      (if better then z.size % 2 ^ 32 else memory_size)

-- The checks behind the loop, and `total_pages` with `free_pages`.
unfoldable pub page_counts : ℕ × ℕ → Option (ℕ × ℕ)
page_counts (memory_base, memory_size) = do
  assert (leb (kernel_pages * 4096) ((memory_size + memory_base) % 2 ^ 32))
  assert (memory_base == base_page * 4096)
  assert (memory_size % 4096 == 0)
  some (page_idx memory_size + base_page, page_idx memory_size)

unfoldable pub memory_init : List Zone → Option (ℕ × ℕ)
memory_init zones = page_counts (largest zones 0 0)

-- `r` is the base and size of a valid zone of the list.
abbrev pub Among : ℕ × ℕ → List Zone → Type 0
Among r [] = ⊥
Among r (z ∷ zs) = ((z.kind ≡ 1) × (r ≡ (z.base, z.size))) ⊎ Among r zs

abbrev pub Fits : Zone → Type 0
Fits z = (z.base < 2 ^ 32) × (z.size < 2 ^ 32)

-- No valid zone exceeds the size of `r`, and `r` is such a zone or the start.
abbrev pub Largest : List Zone → (base size : ℕ) → ℕ × ℕ → Type 0
Largest zones base size r =
    (size ≤ r.1) × All (λ z. z.kind ≡ 1 → z.size ≤ r.1) zones × ((r ≡ (base, size)) ⊎ Among r zones)

Largest-better :
    (z : Zone) (zs : List Zone) (base size : ℕ) (r : ℕ × ℕ)
    → (z.kind == 1 && ltb size z.size) ≡ true
    → Largest zs z.base z.size r
    → Largest (z ∷ zs) base size r
Largest-better z zs base size r e (le, all, from) = (
  ground arith,
  (λ k. le, all),
  elim from [ inl same ↦ inr (inl (ground arith, same)) | inr among ↦ inr (inr among) ],
)

Largest-worse :
    (z : Zone) (zs : List Zone) (base size : ℕ) (r : ℕ × ℕ)
    → (z.kind == 1 && ltb size z.size) ≡ false
    → Largest zs base size r
    → Largest (z ∷ zs) base size r
Largest-worse z zs base size r e (le, all, from) =
    (le, (λ k. ground arith, all), elim from [ inl same ↦ inl same | inr among ↦ inr (inr among) ])

largest-cons :
    (z : Zone) (zs : List Zone) (base size : ℕ)
    → Fits z
    → largest (z ∷ zs) base size
      ≡ (if z.kind == 1 && ltb size z.size then largest zs z.base z.size else largest zs base size)
unfolding largest
largest-cons z zs base size f =
    let e1 : z.base % 2 ^ 32 ≡ z.base = omega (arith, f.0) in
    let e2 : z.size % 2 ^ 32 ≡ z.size = omega (arith, f.1) in
    elim (Bool-cases (z.kind == 1 && ltb size z.size)) [ inl e ↦ rw (e, e1, e2) | inr e ↦ rw e ]

-- The loop of `memory_init` over zones below 4 GB returns a size that no valid zone exceeds, and what
-- it returns is a valid zone of the list or the values that it started from.
largest-Largest :
    (zones : List Zone) (base size : ℕ)
    → All Fits zones
    → Largest zones base size (largest zones base size)
unfolding largest
largest-Largest [] base size f = (omega arith, tt, inl refl)
largest-Largest (z ∷ zs) base size f = elim (Bool-cases (z.kind == 1 && ltb size z.size)) [
  | inl e ↦
      subst (Largest (z ∷ zs) base size) (sym (largest-cons z zs base size f.0 ∙ rw e))
        (Largest-better z zs base size _ e (largest-Largest zs z.base z.size f.1))
  | inr e ↦
      subst (Largest (z ∷ zs) base size) (sym (largest-cons z zs base size f.0 ∙ rw e))
        (Largest-worse z zs base size _ e (largest-Largest zs base size f.1))
]
