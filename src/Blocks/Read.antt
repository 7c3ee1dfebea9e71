-- ===== src/Blocks/Read.antt =====
-- `inode_read` of src/fs/namei.c, on the blocks that src/fs/bmap.c finds.
use mathlib.Core.Path.{ap₂}
use light_os.Blocks.{Inode, eof, block_size, total_blocks, bmap}
use light_os.Blocks.Lookup.{lookup, bmap-lookup}
use light_os.Base.{
  ℕ, zero, suc, ◌+◌, ◌-◌, ◌*◌, ◌/◌, ◌%◌, ◌<◌, ◌≤◌, ◌≡◌, refl, sym, ap, ◌∙◌, ◌≢◌, inl, inr, Bool,
  true, false, not, Option, none, some, List, [], ◌∷◌, ◌++◌, ltb, leb, ◌==◌, if◌then◌else◌, ◌>>=◌,
  ◌>>◌, assert, Bool-cases, ==_ne, arith,
}

-- `memcpy` of a number of bytes from the offset `start` on
unfoldable pub slice : (ℕ → ℕ) → (start count : ℕ) → List ℕ
slice f start zero = []
slice f start (suc count) = f start ∷ slice f (start + 1) count

abbrev pub min : ℕ → ℕ → ℕ
min a b = if ltb a b then a else b

-- The loop of `inode_read`: the offset behind it, and the bytes copied. `data` has the bytes of each
-- block.
unfoldable pub read_loop :
    (fuel : ℕ) → Inode → (data_of : ℕ → ℕ → ℕ) → (offset left : ℕ) → Option (ℕ × List ℕ)
read_loop zero inode data_of offset left = none
read_loop (suc fuel) inode data_of offset left =
    let start = offset % block_size in
    let chars = min (block_size - start) left in
    let more = bmap inode (offset / block_size) false >>= λ r.
    assert (not (r.0 == 0))
    >> (read_loop fuel r.1 data_of (offset + chars) (left - chars) >>= λ rest.
        some (rest.0, slice (data_of r.0) start chars ++ rest.1)) in
    if left == 0 then some (offset, []) else more

-- `readable` says that the mode is that of a file or a directory. The result, and the bytes copied.
unfoldable pub inode_read :
    (fuel : ℕ)
    → Inode
    → (data_of : ℕ → ℕ → ℕ) → (readable : Bool) → (size len offset : ℕ) → Option (ℕ × List ℕ)
inode_read fuel inode data_of readable size len offset = do
  assert readable
  let copied = read_loop fuel inode data_of offset (min len (size - offset))
  let result = copied >>= λ r. some (r.0 - offset, r.1)
  let nonempty = if len == 0 then some (0, []) else result in
      if leb size offset then some (eof, []) else nonempty

-- The byte of the file at an offset.
abbrev pub byte_at : Inode → (ℕ → ℕ → ℕ) → ℕ → ℕ
byte_at inode data_of o = data_of (lookup inode (o / 1024)) (o % 1024)

-- The file has all its blocks, and no more than a file may have.
pub record Whole (inode : Inode) (size : ℕ) : Type 0 where
  pub present : (o : ℕ) → o < size → lookup inode (o / 1024) ≢ 0
  pub bounded : size ≤ total_blocks * 1024

slice-++ :
    (f : ℕ → ℕ) (start a b : ℕ) → slice f start a ++ slice f (start + a) b ≡ slice f start (a + b)
unfolding slice
slice-++ f start zero b =
    let e : start + 0 ≡ start = omega arith in let g : 0 + b ≡ b = omega arith in rw (e, g) refl
slice-++ f start (suc a) b =
    let e : start + suc a ≡ (start + 1) + a = omega arith in
    let g : suc a + b ≡ suc (a + b) = omega arith in
    rw (e, g) (ap (λ xs. f start ∷ xs) (slice-++ f (start + 1) a b))

-- Bytes of one block
slice-block :
    (inode : Inode) (data_of : ℕ → ℕ → ℕ) (o start count nr : ℕ)
    → lookup inode (o / 1024) ≡ nr
    → start ≡ o % 1024
    → start + count ≤ 1024
    → slice (data_of nr) start count ≡ slice (byte_at inode data_of) o count
unfolding slice
slice-block inode data_of o start zero nr e f h = refl
slice-block inode data_of o start (suc zero) nr e f h = rw (e, f) refl
slice-block inode data_of o start (suc (suc count)) nr e f h =
    let same : (o + 1) / 1024 ≡ o / 1024 = omega arith in
    let place : start + 1 ≡ (o + 1) % 1024 = omega arith in
    let rest =
      slice-block inode data_of (o + 1) (start + 1) (suc count) nr (ap (lookup inode) same ∙ e)
        place (omega arith) in
    let here : data_of nr start ≡ byte_at inode data_of o = rw (e, f) refl in
    ap (λ b. b ∷ slice (data_of nr) (start + 1) (suc count)) here
    ∙ ap (λ xs. byte_at inode data_of o ∷ xs) rest

slice-zero : (f : ℕ → ℕ) (o : ℕ) → [] ≡ slice f o 0
unfolding slice
slice-zero f o = refl

read_loop_lem :
    (fuel : ℕ) (inode : Inode) (data_of : ℕ → ℕ → ℕ) (size offset left : ℕ)
    → Whole inode size
    → left < fuel
    → offset + left ≤ size
    → read_loop fuel inode data_of offset left
      ≡ some (offset + left, slice (byte_at inode data_of) offset left)
unfolding read_loop
read_loop_lem zero inode data_of size offset left w f h = absurd (omega arith)
read_loop_lem (suc fuel) inode data_of size offset zero w f h =
    let e : offset + 0 ≡ offset = omega arith in
    rw e (ap (λ xs. some (offset, xs)) (slice-zero _ offset))
read_loop_lem (suc fuel) inode data_of size offset (suc left) w f h =
    let chars = min (1024 - offset % 1024) (suc left) in
    let nr = lookup inode (offset / 1024) in
    let found = bmap-lookup inode (offset / 1024) false (omega (arith, w.bounded)) (inl refl) in
    let here = ==_ne nr 0 (w.present offset (omega arith)) in
    let positive : 0 < chars = ground arith in
    let small : chars ≤ suc left = ground arith in
    let fits : offset % 1024 + chars ≤ 1024 = ground arith in
    let rest =
      read_loop_lem fuel inode data_of size (offset + chars) (suc left - chars) w (omega arith)
        (omega arith) in
    let f = byte_at inode data_of in
    let nonzero : (suc left == 0) ≡ false = ground arith in
    let behind : offset + chars + (suc left - chars) ≡ offset + suc left = omega (arith, small) in
    let all : chars + (suc left - chars) ≡ suc left = omega (arith, small) in
    let bytes : slice (data_of nr) (offset % 1024) chars
          ++ slice f (offset + chars) (suc left - chars)
        ≡ slice f offset (suc left) =
      ap (λ xs. xs ++ slice f (offset + chars) (suc left - chars))
        (slice-block inode data_of offset (offset % 1024) chars nr refl refl fits)
      ∙ (slice-++ f offset chars (suc left - chars) ∙ ap (slice f offset) all) in
    rw (found, here, rest, nonzero) (ap₂ (λ o xs. some (o, xs)) behind bytes)

-- `inode_read` of a file that has all its blocks, at an offset in it and with more rounds than bytes
-- asked for, ends; it returns how many bytes there are up to the size of the file, and at most `len`,
-- and it has copied these bytes of the file, across the ends of blocks.
pub inode_read_lem :
    (fuel : ℕ) (inode : Inode) (data_of : ℕ → ℕ → ℕ) (size len offset : ℕ)
    → Whole inode size
    → len < fuel
    → offset < size
    → inode_read fuel inode data_of true size len offset
      ≡ some
          (min len (size - offset), slice (byte_at inode data_of) offset (min len (size - offset)))
unfolding inode_read
inode_read_lem fuel inode data_of size len offset w f h =
    let n = min len (size - offset) in
    let in_file : leb size offset ≡ false = ground arith in
    let few : n ≤ len = ground arith in
    let fits : offset + n ≤ size = ground arith in
    let copied = read_loop_lem fuel inode data_of size offset n w (omega arith) fits in
    let count : offset + n - offset ≡ n = omega arith in
    elim (Bool-cases (len == 0)) [
      | inl e ↦
          let nothing : n ≡ 0 = ground arith in
          let bytes =
            slice-zero (byte_at inode data_of) offset
            ∙ ap (slice (byte_at inode data_of) offset) (sym nothing) in
          rw (in_file, e) (ap₂ (λ k xs. some (k, xs)) (sym nothing) bytes)
      | inr e ↦ rw (in_file, e, copied, count) refl
    ]
