-- ===== src/Bitmap.antt =====
-- src/lib/bitmap.c: a bitmap over a byte buffer. The buffer that `bits` points to is kept in the
-- record, so a function that writes to it returns the new record. `none` is a failed assertion.
pub mod Bits
pub mod Scan
mod Tests
use light_os.Base.{
  ℕ, zero, suc, ◌+◌, ◌-◌, ◌*◌, ◌/◌, ◌%◌, ◌^◌, ◌<◌, ◌≤◌, ◌≡◌, Bool, true, false, Option, none, some,
  List, length, get_or, replicate, All, leb, ltb, ◌==◌, if◌then◌else◌, ◌>>=◌, ◌>>◌, assert,
  test_bit, put_bit,
}
use light_os.Base

-- `bitmap_t`; `length` counts bytes, `offset` is the index of the first bit
pub record Bitmap : Type 0 where
  pub bits : List ℕ
  pub length : ℕ
  pub offset : ℕ

-- arithmetic of `u32`
abbrev pub u32 : ℕ → ℕ
u32 n = n % 2 ^ 32

unfoldable pub make : List ℕ → ℕ → ℕ → Bitmap
make bits len offset = record { bits = bits; length = len; offset = offset }

-- The `memset` clears the `len` bytes that the bitmap uses.
unfoldable pub init : ℕ → ℕ → Bitmap
unfolding make
init len offset = make (replicate len 0) len offset

unfoldable pub test : Bitmap → ℕ → Option Bool
test map index = do
  assert (leb map.offset index)
  let idx = index - map.offset
  assert (ltb (idx / 8) map.length)
  some (test_bit (get_or map.bits (idx / 8) 0) (idx % 8))

unfoldable pub set : Bitmap → ℕ → Bool → Option Bitmap
set map index value = do
  assert (leb map.offset index)
  let idx = index - map.offset
  assert (ltb (idx / 8) map.length)
  let byte = put_bit (get_or map.bits (idx / 8) 0) (idx % 8) value
  some (record map { bits = Base.set map.bits (idx / 8) byte })

-- The first loop of `bitmap_scan`, over `bits_left` rounds: `some none` is `EOF`.
unfoldable pub find : Bitmap → (count bits_left index counter : ℕ) → Option (Option ℕ)
find map count zero index counter = some none
find map count (suc bits_left) index counter = do
  used ← test map (u32 (map.offset + index))
  let counter' = if used then 0 else counter + 1
  let rest = find map count bits_left (index + 1) counter'
  if counter' == count then some (some (index + 1 - count)) else rest

-- The second loop of `bitmap_scan`.
unfoldable pub mark : Bitmap → (bits_left index : ℕ) → Option Bitmap
mark map zero index = some map
mark map (suc bits_left) index = do
  map' ← set map (u32 (map.offset + index)) true
  mark map' bits_left (index + 1)

-- The result is the index of the first of the bits taken, or `none` for `EOF`.
unfoldable pub scan : Bitmap → ℕ → Option (Option ℕ × Bitmap)
scan map count = do
  start ← find map count (u32 (map.length * 8)) 0 0
  elim start [
    | none ↦ some (none, map)
    | some s ↦ mark map count s >>= λ map'. some (some (u32 (s + map.offset)), map')
  ]

-- Bit `i` of the buffer.
abbrev pub bit : Bitmap → ℕ → Bool
bit map i = test_bit (get_or map.bits (i / 8) 0) (i % 8)

-- The buffer holds the bytes that `length` tells of, and no index of a bit overflows `u32`.
pub record IsValid (map : Bitmap) : Type 0 where
  pub sized : length map.bits ≡ map.length
  pub bytes : All (λ b. b < 256) map.bits
  pub fits : map.offset + map.length * 8 < 2 ^ 32

-- `count` bits from `s` on lie in the bitmap and are clear.
pub record Clear (map : Bitmap) (s count : ℕ) : Type 0 where
  pub inside : s + count ≤ map.length * 8
  pub clear : (i : ℕ) → s ≤ i → i < s + count → bit map i ≡ false
