-- ===== src/Blocks/Tests.antt =====
-- Runs of src/fs/bmap.c.
use light_os.Bitmap
use light_os.Blocks.{Inode, bmap, scan_maps}
use light_os.Blocks.Lookup.{lookup, through, bmap-lookup}
use light_os.Blocks.Read.{inode_read, slice, byte_at, Whole, inode_read_lem}
use light_os.Blocks.Alloc.{Buffers, Allocated, scan_maps-Allocated}
use light_os.Base.{
  ℕ, zero, suc, ◌+◌, ◌/◌, ◌<◌, ◌≢◌, ◌≡◌, refl, inr, true, some, List, [], ◌∷◌, replicate,
  All-replicate, length-replicate, ◌==◌, if◌then◌else◌, arith,
}

-- A file whose array of indexes is in block 20, with its block number 8 in block 22
abbrev file : Inode
file = record {
  volume = record {
    zones = 100;
    firstdatazone = 6;
    zmaps = [];
    imaps = [];
    index = λ b. if b == 20 then 21 ∷ 22 ∷ [] else [];
  };
  zone = 10 ∷ 11 ∷ 12 ∷ 13 ∷ 14 ∷ 15 ∷ 16 ∷ 20 ∷ 0 ∷ [];
}

eighth_block : lookup file 8 ≡ 22
unfolding lookup through
eighth_block = refl

bmap-lookup_example : bmap file 8 true ≡ some (lookup file 8, file)
bmap-lookup_example =
    bmap-lookup file 8 true (omega arith) (inr (λ e. absurd (omega (arith, eighth_block, e))))

abbrev blank : List ℕ
blank = replicate 1024 0

blank-Buffers : Buffers 5 0 (blank ∷ [])
unfolding Bitmap.make
blank-Buffers = (
  record {
    sized = length-replicate {A = ℕ} 1024 0;
    bytes = All-replicate (λ b. b < 256) 1024 0 (omega arith);
    fits = omega arith;
  },
  tt,
)

scan_maps-Allocated_example : Allocated 100 5 0 (blank ∷ []) (scan_maps 100 5 0 (blank ∷ []))
scan_maps-Allocated_example = scan_maps-Allocated 100 5 0 (blank ∷ []) blank-Buffers

abbrev stored : ℕ → ℕ → ℕ
stored b i = b + i

-- Two blocks, so that the bytes read lie on either side of the end of the first
first_blocks : (b : ℕ) → b < 2 → lookup file b ≢ 0
unfolding lookup
first_blocks zero l e = absurd (omega (arith, e))
first_blocks (suc zero) l e = absurd (omega (arith, e))
first_blocks (suc (suc b)) l e = absurd (omega arith)

file-Whole : Whole file 2000
file-Whole = record {
  present = λ o l. first_blocks (o / 1024) (omega arith);
  bounded = omega arith;
}

inode_read_lem_example :
    inode_read 5 file stored true 2000 4 1022 ≡ some (4, slice (byte_at file stored) 1022 4)
inode_read_lem_example =
    inode_read_lem 5 file stored 2000 4 1022 file-Whole (omega arith) (omega arith)
