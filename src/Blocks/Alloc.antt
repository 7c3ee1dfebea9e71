-- ===== src/Blocks/Alloc.antt =====
-- How src/fs/bmap.c takes a free block or inode from its map.
use light_os.Bitmap
use light_os.Bitmap.{Bitmap}
use light_os.Bitmap.Scan.{Scanned, Marked, full, taken, scan-Scanned}
use light_os.Blocks.{block_size, block_bits, found_in, scan_maps}
use light_os.Base.{
  ℕ, ◌+◌, ◌*◌, ◌<◌, ◌≤◌, inl, inr, Option, none, some, List, [], ◌∷◌, ltb, ◌>>=◌, Bool-cases,
  ltb→lt, ltb→ge, arith,
}

-- A buffer as the bitmap of the block `i` of a map.
abbrev pub map_of : (first i : ℕ) → List ℕ → Bitmap
map_of first i bits = Bitmap.make bits block_size (first + i * block_bits)

abbrev pub Buffers : (first i : ℕ) → List (List ℕ) → Type 0
Buffers first i [] = Unit
Buffers first i (bits ∷ maps) = Bitmap.IsValid (map_of first i bits) × Buffers first (i + 1) maps

-- The outcomes: no clear bit in any block, and nothing changed; a clear bit in the first block that
-- has one, and the first of that block, which alone is set; or such a bit past the limit, a panic.
pub data Allocated (limit first : ℕ)
    : ℕ → List (List ℕ) → Option (Option ℕ × List (List ℕ)) → Type 0 where
  exhausted : {i : ℕ} → Allocated limit first i [] (some (none, []))
  later :
      {i : ℕ} {bits : List ℕ} {maps : List (List ℕ)} {r : Option (Option ℕ × List (List ℕ))}
      → ((s : ℕ) → ¬ Bitmap.Clear (map_of first i bits) s 1)
      → Allocated limit first (i + 1) maps r
      → Allocated limit first i (bits ∷ maps) (r >>= λ q. some (q.0, bits ∷ q.1))
  here :
      {i s : ℕ} {bits : List ℕ} {map' : Bitmap} {maps : List (List ℕ)}
      → Bitmap.Clear (map_of first i bits) s 1
      → ((t : ℕ) → t < s → ¬ Bitmap.Clear (map_of first i bits) t 1)
      → Marked (map_of first i bits) s 1 map'
      → first + i * 8192 + s < limit
      → Allocated limit first i (bits ∷ maps) (some (some (first + i * 8192 + s), map'.bits ∷ maps))
  beyond :
      {i s : ℕ} {bits : List ℕ} {maps : List (List ℕ)}
      → Bitmap.Clear (map_of first i bits) s 1
      → limit ≤ first + i * 8192 + s
      → Allocated limit first i (bits ∷ maps) none

-- How a round goes on after the scan of its block.
abbrev after_scan :
    (limit first i : ℕ)
    → List (List ℕ)
    → Option (Option ℕ × Bitmap)
    → Option (Option ℕ × List (List ℕ))
after_scan limit first i maps r = r >>= λ q.
    found_in limit (q.1.bits ∷ maps)
      (scan_maps limit first (i + 1) maps >>= λ p. some (p.0, q.1.bits ∷ p.1)) q.0

after_scan-Allocated :
    (limit first i : ℕ) (bits : List ℕ) (maps : List (List ℕ)) (r : Option (Option ℕ × Bitmap))
    → Allocated limit first (i + 1) maps (scan_maps limit first (i + 1) maps)
    → Scanned (map_of first i bits) 1 r
    → Allocated limit first i (bits ∷ maps) (after_scan limit first i maps r)
unfolding Bitmap.make
after_scan-Allocated limit first i bits maps _ a (full f) = later f a
after_scan-Allocated limit first i bits maps _ a (taken {s} {map'} c t m) =
    elim (Bool-cases (ltb (first + i * 8192 + s) limit)) [
      | inl e ↦ rw e (here c t m (ltb→lt (first + i * 8192 + s) limit e))
      | inr e ↦ rw e (beyond c (ltb→ge (first + i * 8192 + s) limit e))
    ]

-- On valid buffers the loop of `balloc` and `ialloc` meets no assertion of the bitmap. It takes the
-- first clear bit of the first block that has one and changes no other bit; it panics if that bit is
-- not below the limit; and it finds none only if no block has one, and then changes nothing.
pub scan_maps-Allocated :
    (limit first i : ℕ) (maps : List (List ℕ))
    → Buffers first i maps
    → Allocated limit first i maps (scan_maps limit first i maps)
unfolding scan_maps
scan_maps-Allocated limit first i [] b = exhausted
scan_maps-Allocated limit first i (bits ∷ maps) (v, b) =
    after_scan-Allocated limit first i bits maps (Bitmap.scan (map_of first i bits) 1)
      (scan_maps-Allocated limit first (i + 1) maps b)
      (scan-Scanned (map_of first i bits) 1 v (omega arith))
