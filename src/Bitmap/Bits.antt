-- ===== src/Bitmap/Bits.antt =====
-- Reading and writing one bit of a bitmap (`bitmap_test`, `bitmap_set`).
use light_os.Base.{
  ℕ, ◌+◌, ◌-◌, ◌*◌, ◌/◌, ◌%◌, ◌^◌, ◌<◌, ◌≤◌, ◌≡◌, refl, ap, Bool, none, some, arith, get_or, set,
  ltb, ◌==◌, if◌then◌else◌, test_bit, put_bit, put_bit-lt, test_bit-put_bit, test_bit-zero,
  length-set, get_or-set, All-set, All-get_or, lt→ltb, le→leb, Bool-cases, inl, inr, ==_ne, ◌⊎◌,
  length-replicate, get_or-replicate, All-replicate,
}
use light_os.Bitmap.{Bitmap, init, test, set as bitmap_set, IsValid, bit, Clear}

-- The map after a write of `v` to bit `i`.
abbrev pub write : Bitmap → ℕ → Bool → Bitmap
write map i v = record map {
  bits = set map.bits (i / 8) (put_bit (get_or map.bits (i / 8) 0) (i % 8) v);
}

pub test-bit :
    (map : Bitmap) (i : ℕ) → i < map.length * 8 → test map (map.offset + i) ≡ some (bit map i)
unfolding test
test-bit map i h =
    let e : map.offset + i - map.offset ≡ i = omega arith in
    rw
      (le→leb map.offset (map.offset + i) (omega arith), e, lt→ltb (i / 8) map.length (omega arith))

pub set-write :
    (map : Bitmap) (i : ℕ) (v : Bool)
    → i < map.length * 8
    → bitmap_set map (map.offset + i) v ≡ some (write map i v)
unfolding bitmap_set
set-write map i v h =
    let e : map.offset + i - map.offset ≡ i = omega arith in
    rw
      (le→leb map.offset (map.offset + i) (omega arith), e, lt→ltb (i / 8) map.length (omega arith))

pub write-IsValid : (map : Bitmap) (i : ℕ) (v : Bool) → IsValid map → IsValid (write map i v)
write-IsValid map i v h = record {
  sized =
      omega (
        arith,
        length-set map.bits (i / 8) (put_bit (get_or map.bits (i / 8) 0) (i % 8) v),
        h.sized,
      );
  bytes =
      All-set (λ b. b < 256) map.bits (i / 8) _ h.bytes
        (put_bit-lt _ (i % 8) v (All-get_or (λ b. b < 256) map.bits (i / 8) 0 h.bytes (omega arith))
          (omega arith));
  fits = h.fits;
}

-- Two bits in one byte differ in their place there.
place : (i j : ℕ) → (i / 8 ≡ j / 8) → ((i % 8) == (j % 8)) ≡ (i == j)
place i j h = ground arith

pub bit-write :
    (map : Bitmap) (i j : ℕ) (v : Bool)
    → IsValid map
    → i < map.length * 8
    → bit (write map i v) j ≡ (if i == j then v else bit map j)
bit-write map i j v h lt =
    let byte = get_or map.bits (i / 8) 0 in
    let written =
      get_or-set map.bits (i / 8) (j / 8) (put_bit byte (i % 8) v) 0 (omega (arith, h.sized)) in
    let small : byte < 256 = All-get_or (λ b. b < 256) map.bits (i / 8) 0 h.bytes (omega arith) in
    rw written (elim (Bool-cases (i / 8 == j / 8)) [
      | inl e ↦
          let e' : i / 8 ≡ j / 8 = ground arith in
          rw
            (
              e,
              test_bit-put_bit byte (i % 8) (j % 8) v small (omega arith) (omega arith),
              place i j e',
            )
            (ap (λ k. if i == j then v else test_bit (get_or map.bits k 0) (j % 8)) e')
      | inr ne ↦ rw (ne, ==_ne i j (λ eq. ground (arith, ap (λ k. k / 8) eq)))
    ])

-- Outside the bitmap both `bitmap_test` and `bitmap_set` stop at an assertion.
pub test_set_outside :
    (map : Bitmap) (i : ℕ) (v : Bool)
    → (i < map.offset) ⊎ (map.offset + map.length * 8 ≤ i)
    → (test map i ≡ none) × (bitmap_set map i v ≡ none)
unfolding test bitmap_set
test_set_outside map i v h = (ground arith, ground arith)

test-write :
    (map : Bitmap) (i : ℕ) (v : Bool)
    → IsValid map
    → i < map.length * 8
    → (j : ℕ)
    → test (write map i v) (map.offset + j) ≡ (if i == j then some v else test map (map.offset + j))
test-write map i v h lt j = elim (Bool-cases (ltb j (map.length * 8))) [
  | inl inside ↦
      rw (test-bit (write map i v) j (ground arith), test-bit map j (ground arith))
        (ground (arith, bit-write map i j v h lt))
  | inr beyond ↦ rw (
    (test_set_outside (write map i v) (map.offset + j) v (inr (ground arith))).0,
    (test_set_outside map (map.offset + j) v (inr (ground arith))).0,
    ==_ne i j (λ e. ground arith),
  )
]

module _ {map : Bitmap} {i : ℕ} (v : Bool) (h : IsValid map) (lt : i < map.length * 8) where
  -- On a valid bitmap `bitmap_set` of a bit inside it meets no assertion, keeps the bitmap valid, and
  -- a later `bitmap_test` of any bit gives the value written at that index and the old one elsewhere.
  test-set :
      (map' : Bitmap) × (bitmap_set map (map.offset + i) v ≡ some map')
      × IsValid map'
      × ((j : ℕ)
          → test map' (map.offset + j) ≡ (if i == j then some v else test map (map.offset + j)))
  test-set = (write map i v, set-write map i v lt, write-IsValid map i v h, test-write map i v h lt)

pub init-IsValid : (len offset : ℕ) → offset + len * 8 < 2 ^ 32 → IsValid (init len offset)
unfolding init
init-IsValid len offset h = record {
  sized = length-replicate len 0;
  bytes = All-replicate (λ b. b < 256) len 0 (omega arith);
  fits = h;
}

pub init_shape :
    (len offset : ℕ) → ((init len offset).length ≡ len) × ((init len offset).offset ≡ offset)
unfolding init
init_shape len offset = (refl, refl)

-- `bitmap_init` leaves every bit clear.
pub init-Clear : (len offset : ℕ) → Clear (init len offset) 0 (len * 8)
unfolding init
init-Clear len offset = record {
  inside = omega arith;
  clear =
      λ i p q. rw (get_or-replicate {A = ℕ} len (i / 8) 0) (test_bit-zero (i % 8) (omega arith));
}
