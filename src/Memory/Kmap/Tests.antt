-- ===== src/Memory/Kmap/Tests.antt =====
-- The theorems on `kmap` and `kunmap`, at concrete pools.
use light_os.Base.{
  ℕ, ◌*◌, ◌<◌, ◌≡◌, refl, ap, sym, ◌∙◌, ltb, true, none, some, replicate, arith, length-replicate,
  get_or-replicate, get_or-replicate_in, get_or-replicate_out, Bool-cases, inl, inr, ltb→lt, ltb→ge,
  if◌then◌else◌,
}
use light_os.Memory.Kmap.{
  PageEntry, entry_init, Mapping, Pool, vaddr_of, unused, not_present, slot, kmap, kunmap, target,
  IsValid,
}
use light_os.Memory.Kmap.Map.{Mapped, kmap-Mapped}
use light_os.Memory.Kmap.Unmap.{kunmap-kmap}

-- no address handed out
abbrev empty_pool : Pool
empty_pool = record { pool = replicate 1024 unused; pte = replicate 1024 not_present }

empty_pool-IsValid : IsValid empty_pool
empty_pool-IsValid = record {
  pool_length = length-replicate {A = Mapping} 1024 unused;
  pte_length = length-replicate {A = PageEntry} 1024 not_present;
  mapped =
      λ i p. absurd (cc (ap (λ s. s.present) (get_or-replicate {A = Mapping} 1024 i unused), p));
}

kmap-Mapped_example : Mapped empty_pool 0x100_0000 (kmap empty_pool 0x100_0000)
kmap-Mapped_example =
    kmap-Mapped empty_pool 0x100_0000 empty_pool-IsValid (omega arith) (omega arith)

-- every slot with `cnt` users of its own page
abbrev busy : ℕ → Mapping
busy cnt = record { present = true; cnt = cnt; paddr = 0x100_0000 }

abbrev busy_pool : ℕ → Pool
busy_pool cnt = record { pool = replicate 1024 (busy cnt); pte = replicate 1024 (entry_init 4096) }

busy-slot : (cnt i : ℕ) → i < 1024 → slot (busy_pool cnt) i ≡ busy cnt
busy-slot cnt i lt = get_or-replicate_in 1024 i (busy cnt) unused lt

busy-target : (cnt i : ℕ) → i < 1024 → target (busy_pool cnt) i ≡ some 0x100_0000
busy-target cnt i lt =
    ap (λ e. if e.present then some (e.index * 4096) else none)
      (get_or-replicate_in 1024 i (entry_init 4096) not_present lt)

busy_pool-IsValid : (cnt : ℕ) → IsValid (busy_pool cnt)
busy_pool-IsValid cnt = record {
  pool_length = length-replicate {A = Mapping} 1024 (busy cnt);
  pte_length = length-replicate {A = PageEntry} 1024 (entry_init 4096);
  mapped = λ i p. elim (Bool-cases (ltb i 1024)) [
    | inl inside ↦
        let lt : i < 1024 = ltb→lt i 1024 inside in
        busy-target cnt i lt ∙ ap (λ s. some s.paddr) (sym (busy-slot cnt i lt))
    | inr beyond ↦ absurd (
        cc (
          ap (λ s. s.present)
              (get_or-replicate_out 1024 i (busy cnt) unused (ltb→ge i 1024 beyond)),
          p,
        ))
  ];
}

kunmap-kmap_example :
    (k1 : Pool) × (k2 : Pool) × (kunmap (busy_pool 2) (vaddr_of 0) ≡ some k1)
    × (target k1 0 ≡ some 0x100_0000)
    × (kmap k1 0x200_0000 ≡ some (vaddr_of 0, k2))
    × (target k2 0 ≡ some 0x200_0000)
kunmap-kmap_example =
    kunmap-kmap (busy_pool 2) 0 (busy_pool-IsValid 2) (omega arith) refl 0 0x200_0000 refl
      (omega arith) (λ j l. absurd (omega (arith, l))) (omega arith) (omega arith)
