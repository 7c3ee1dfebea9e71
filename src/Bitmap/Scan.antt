-- ===== src/Bitmap/Scan.antt =====
-- `bitmap_scan` takes the first run of clear bits that is long enough.
use light_os.Base.{
  ℕ, zero, suc, ◌+◌, ◌-◌, ◌*◌, ◌<◌, ◌≤◌, ◌≡◌, ◌≢◌, refl, true, false, Option, none, some, arith,
  leb, ltb, ◌==◌, if◌then◌else◌, ◌>>=◌, ◌&&◌, ◌⊎◌, ◌∙◌, inl, inr, Bool-cases, ==_ne, ==_iff,
}
use light_os.Bitmap.{Bitmap, u32, find, mark, scan, bit, IsValid, Clear}
use light_os.Bitmap.Bits.{test-bit, set-write, write, write-IsValid, bit-write}

-- What the first loop finds: no run at all, or the first one.
abbrev pub Found : Bitmap → ℕ → Option (Option ℕ) → Type 0
Found map count none = ⊥
Found map count (some none) = (s : ℕ) → ¬ Clear map s count
Found map count (some (some s)) = Clear map s count × ((t : ℕ) → t < s → ¬ Clear map t count)

-- The invariant of that loop: `counter` clear bits end at `index`, no more than these, and no run
-- ends before.
record Inv (map : Bitmap) (count bits_left index counter : ℕ) : Type 0 where
  all : bits_left + index ≡ map.length * 8
  some_before : counter ≤ index
  few : counter < count
  run : (i : ℕ) → index ≤ i + counter → i < index → bit map i ≡ false
  start : (counter ≡ index) ⊎ (bit map (index - counter - 1) ≡ true)
  not_yet : (s : ℕ) → s + count ≤ index → ¬ Clear map s count

module _ {map : Bitmap} {count left index counter : ℕ}
    (inv : Inv map count (suc left) index counter) where
  open inv use {all, some_before, few, run, start, not_yet}

  Inv-used : bit map index ≡ true → Inv map count left (index + 1) 0
  Inv-used e = record {
    all = omega arith;
    some_before = omega arith;
    few = omega arith;
    run = λ i p q. absurd (omega arith);
    start = inr (let e' : index + 1 - 0 - 1 ≡ index = omega arith in rw e' e);
    not_yet = λ s p c. elim (Bool-cases (leb (s + count) index)) [
      | inl le ↦ not_yet s (ground arith) c
      | inr gt ↦
          let clear : bit map index ≡ false = c.clear index (ground arith) (ground arith) in cc
    ];
  }

  Inv-free :
      bit map index ≡ false → counter + 1 ≢ count → Inv map count left (index + 1) (counter + 1)
  Inv-free e ne = record {
    all = omega arith;
    some_before = omega arith;
    few = omega arith;
    run = λ i p q. elim (Bool-cases (i == index)) [
      | inl eq ↦ ground arith
      | inr other ↦ run i (omega arith) (ground arith)
    ];
    start = elim start [
      | inl p ↦ inl (omega arith)
      | inr p ↦
          inr
            (let e' : index + 1 - (counter + 1) - 1 ≡ index - counter - 1 = omega arith in rw e' p)
    ];
    not_yet = λ s p c. elim (Bool-cases (leb (s + count) index)) [
      | inl le ↦ not_yet s (ground arith) c
      | inr gt ↦ elim start [
        | inl q ↦ absurd (ground arith)
        | inr q ↦ ground (arith, c.clear (index - counter - 1))
      ]
    ];
  }

  Clear-found : bit map index ≡ false → counter + 1 ≡ count → Clear map (index + 1 - count) count
  Clear-found e eq = record {
    inside = omega arith;
    clear = λ i p q. elim (Bool-cases (i == index)) [
      | inl here ↦ ground arith
      | inr other ↦ run i (omega arith) (ground arith)
    ];
  }

find-Found :
    (map : Bitmap) (count left index counter : ℕ)
    → IsValid map
    → Inv map count left index counter
    → Found map count (find map count left index counter)
unfolding find
find-Found map count zero index counter v inv =
    λ s c. inv.not_yet s (omega (arith, c.inside, inv.all)) c
find-Found map count (suc left) index counter v inv =
    let lt : index < map.length * 8 = omega (arith, inv.all) in
    let e : u32 (map.offset + index) ≡ map.offset + index = omega (arith, v.fits) in
    rw (e, test-bit map index lt)
      (elim (Bool-cases (bit map index)) [
        | inl used ↦
            rw (used, ==_ne 0 count (ground arith))
              (find-Found map count left (index + 1) 0 v (Inv-used inv used))
        | inr free ↦ rw free (elim (Bool-cases (counter + 1 == count)) [
          | inl done ↦ rw done (
            Clear-found inv free ((==_iff _ _).0 done),
            λ t p. inv.not_yet t (ground (arith, (==_iff _ _).0 done)),
          )
          | inr more ↦ rw more (
              find-Found map count left (index + 1) (counter + 1) v
                (Inv-free inv free (λ eq. ground arith)))
        ])
      ])

-- `map'` is `map` with the bits from `s` up to `s + count` set.
pub record Marked (map : Bitmap) (s count : ℕ) (map' : Bitmap) : Type 0 where
  pub valid : IsValid map'
  pub same_length : map'.length ≡ map.length
  pub same_offset : map'.offset ≡ map.offset
  pub bits : (i : ℕ) → bit map' i ≡ (if leb s i && ltb i (s + count) then true else bit map i)

mark-suc :
    (map : Bitmap) (left index : ℕ)
    → IsValid map
    → index < map.length * 8
    → mark map (suc left) index ≡ mark (write map index true) left (index + 1)
unfolding mark
mark-suc map left index v lt =
    let e : u32 (map.offset + index) ≡ map.offset + index = omega (arith, v.fits) in
    rw (e, set-write map index true lt)

mark-Marked :
    (map : Bitmap) (left index : ℕ)
    → IsValid map
    → index + left ≤ map.length * 8
    → (map' : Bitmap) × (mark map left index ≡ some map') × Marked map index left map'
unfolding mark
mark-Marked map zero index v h = (
  map,
  refl,
  record { valid = v; same_length = refl; same_offset = refl; bits = λ i. ground arith },
)
mark-Marked map (suc left) index v h =
    let lt : index < map.length * 8 = omega arith in
    let (map', run, m) =
      mark-Marked (write map index true) left (index + 1) (write-IsValid map index true v)
        (omega arith) in
    (
      map',
      mark-suc map left index v lt ∙ run,
      record {
        valid = m.valid;
        same_length = m.same_length;
        same_offset = m.same_offset;
        bits = λ i. ground (arith, m.bits i, bit-write map index i true v lt);
      },
    )

-- What `bitmap_scan` does, whether it finds a run or not.
pub data Scanned (map : Bitmap) (count : ℕ) : Option (Option ℕ × Bitmap) → Type 0 where
  full : ((s : ℕ) → ¬ Clear map s count) → Scanned map count (some (none, map))
  taken :
      {s : ℕ} {map' : Bitmap}
      → Clear map s count
      → ((t : ℕ) → t < s → ¬ Clear map t count)
      → Marked map s count map'
      → Scanned map count (some (some (map.offset + s), map'))

scan_found :
    (map : Bitmap) (count : ℕ) (r : Option (Option ℕ))
    → IsValid map
    → Found map count r
    → Scanned map count (
        r >>= λ start. elim start [
          | none ↦ some (none, map)
          | some s ↦ mark map count s >>= λ map'. some (some (u32 (s + map.offset)), map')
        ])
scan_found map count none v f = absurd f
scan_found map count (some none) v f = full f
scan_found map count (some (some s)) v f =
    let (map', run, m) = mark-Marked map count s v f.0.inside in
    let e : u32 (s + map.offset) ≡ map.offset + s = omega (arith, f.0.inside, v.fits) in
    rw (run, e) (taken f.0 f.1 m)

-- On a valid bitmap and a positive count `bitmap_scan` meets no assertion. If no run of `count`
-- clear bits exists it returns `EOF` and leaves the bitmap alone; otherwise it returns the index of
-- the first such run and sets exactly its bits.
pub scan-Scanned :
    (map : Bitmap) (count : ℕ) → IsValid map → 0 < count → Scanned map count (scan map count)
unfolding scan
scan-Scanned map count v pos =
    let e : u32 (map.length * 8) ≡ map.length * 8 = omega (arith, v.fits) in
    rw e (
      scan_found map count (find map count (map.length * 8) 0 0) v (
        find-Found map count (map.length * 8) 0 0 v (record {
          all = omega arith;
          some_before = omega arith;
          few = pos;
          run = λ i p q. absurd (omega arith);
          start = inl refl;
          not_yet = λ s p c. absurd (omega arith);
        })))
