-- ===== src/Cache.antt =====
-- src/kernel/cache.c: the block cache, a hash table of buffers and a list of the free ones, the least
-- recently used last. A buffer is its index; a node is in a list once. `none` is a failed assertion.
-- The lock of a buffer and the tasks that wait for one are left out. A new buffer is in no list, which
-- the C code leaves to what its memory holds.
pub mod Lists
pub mod Valid
pub mod Search
pub mod Get
pub mod Content
pub mod Bread
pub mod Change
pub mod Release
mod Tests
use Prim.Native.Nat.{bit_xor}
use light_os.Cache.Lists.{mem, remove, last}
use light_os.Base.{
  ℕ, zero, suc, ◌+◌, ◌-◌, ◌%◌, Bool, true, false, not, ◌&&◌, Option, none, some, List, [], ◌∷◌, leb,
  ◌==◌, if◌then◌else◌, ◌>>=◌, ◌>>◌, assert,
}

pub record Buffer : Type 0 where
  pub dev : ℕ
  pub block : ℕ
  pub count : ℕ
  pub dirty : Bool
  pub valid : Bool
  pub bytes : ℕ → ℕ

-- `made` buffers have been taken from the memory of the cache, which has room for `spare` more. `disk`
-- has the bytes of the blocks of each device.
pub record Cache : Type 0 where
  pub buffer : ℕ → Buffer
  pub made : ℕ
  pub spare : ℕ
  pub free_list : List ℕ
  pub hash_table : ℕ → List ℕ
  pub disk : ℕ → ℕ → ℕ → ℕ

-- `HASH_COUNT`
abbrev pub hash_count : ℕ
hash_count = 101

unfoldable pub hash : (dev block : ℕ) → ℕ
hash dev block = bit_xor dev block % hash_count

abbrev pub key_hash : Cache → ℕ → ℕ
key_hash c i = hash (c.buffer i).dev (c.buffer i).block

abbrev pub set_buffer : Cache → ℕ → Buffer → Cache
set_buffer c i b = record c { buffer = λ j. if i == j then b else c.buffer j }

abbrev pub set_bucket : Cache → ℕ → List ℕ → Cache
set_bucket c h xs = record c { hash_table = λ k. if h == k then xs else c.hash_table k }

abbrev pub has_key : (ℕ → Buffer) → (dev block : ℕ) → ℕ → Bool
has_key buffer dev block i = (buffer i).dev == dev && (buffer i).block == block

-- The first buffer of a chain that has a key
unfoldable pub find : (ℕ → Buffer) → (dev block : ℕ) → List ℕ → Option ℕ
find buffer dev block [] = none
find buffer dev block (i ∷ chain) =
    let rest = find buffer dev block chain in if has_key buffer dev block i then some i else rest

-- A buffer that is found leaves the list of the free ones.
unfoldable pub get_from_hash_table : Cache → (dev block : ℕ) → Option ℕ × Cache
get_from_hash_table c dev block = elim (find c.buffer dev block (c.hash_table (hash dev block))) [
  | none ↦ (none, c)
  | some i ↦ (some i, record c { free_list = remove i c.free_list })
]

unfoldable pub hash_locate : Cache → (i : ℕ) → Option Cache
hash_locate c i = do
  let h = key_hash c i
  assert (not (mem i (c.hash_table h)))
  some (set_bucket c h (i ∷ c.hash_table h))

unfoldable pub hash_remove : Cache → (i : ℕ) → Option Cache
hash_remove c i = do
  let h = key_hash c i
  assert (mem i (c.hash_table h))
  some (set_bucket c h (remove i (c.hash_table h)))

-- `EOF` as a device
abbrev pub eof : ℕ
eof = 4294967295

abbrev pub new_buffer : Buffer
new_buffer = record {
  dev = eof;
  block = 0;
  count = 0;
  dirty = false;
  valid = false;
  bytes = λ p. 0;
}

unfoldable pub get_new_cache : Cache → Option (ℕ × Cache)
get_new_cache c =
    let c' = set_buffer c c.made new_buffer in
    if c.spare == 0
    then none
    else some (c.made, record c' { made = c.made + 1; spare = c.spare - 1 })

-- The oldest free buffer loses its block.
unfoldable pub reuse : Cache → (i : ℕ) → Option (Option ℕ × Cache)
reuse c i = do
  c' ← hash_remove (record c { free_list = remove i c.free_list }) i
  some (some i, set_buffer c' i (record (c'.buffer i) { valid = false }))

-- No buffer means that the task blocks, and tries again when one is released.
unfoldable pub get_free_cache : Cache → Option (Option ℕ × Cache)
get_free_cache c = elim (get_new_cache c) [
  | some (i, c') ↦ some (some i, c')
  | none ↦ elim (last c.free_list) [ none ↦ some (none, c) | some i ↦ reuse c i ]
]

unfoldable pub place : Cache → (i dev block : ℕ) → Option (Option ℕ × Cache)
place c i dev block = do
  assert ((c.buffer i).count == 0)
  assert (not (c.buffer i).dirty)
  let buffer : Buffer = record (c.buffer i) { count = 1; dev = dev; block = block }
  c' ← hash_locate (set_buffer c i buffer) i
  some (some i, c')

abbrev pub place_in : (dev block : ℕ) → Option ℕ × Cache → Option (Option ℕ × Cache)
place_in dev block (none, c) = some (none, c)
place_in dev block (some i, c) = place c i dev block

abbrev pub count_up : Cache → (i : ℕ) → Cache
count_up c i = set_buffer c i (record (c.buffer i) { count = (c.buffer i).count + 1 })

abbrev pub get_looked : (dev block : ℕ) → Option ℕ × Cache → Option (Option ℕ × Cache)
get_looked dev block (some i, c) = some (some i, count_up c i)
get_looked dev block (none, c) = get_free_cache c >>= place_in dev block

unfoldable pub getblk : Cache → (dev block : ℕ) → Option (Option ℕ × Cache)
getblk c dev block = get_looked dev block (get_from_hash_table c dev block)

-- `device_request` of a block, to read or to write it
abbrev pub read_block : Cache → (i : ℕ) → Cache
read_block c i =
    let b = c.buffer i in
    set_buffer c i (record b { bytes = c.disk b.dev b.block; dirty = false; valid = true })

abbrev pub fill : Option ℕ × Cache → Option ℕ × Cache
fill (none, c) = (none, c)
fill (some i, c) = (some i, if (c.buffer i).valid then c else read_block c i)

unfoldable pub bread : Cache → (dev block : ℕ) → Option (Option ℕ × Cache)
bread c dev block = getblk c dev block >>= λ r. some (fill r)

abbrev pub write_block : Cache → (i : ℕ) → Cache
write_block c i =
    let b = c.buffer i in
    record (set_buffer c i (record b { dirty = false; valid = true })) {
      disk = λ d k. if b.dev == d && b.block == k then b.bytes else c.disk d k;
    }

unfoldable pub bwrite : Cache → (i : ℕ) → Cache
bwrite c i = if (c.buffer i).dirty then write_block c i else c

unfoldable pub brelse : Cache → (i : ℕ) → Option Cache
brelse c i =
    let b = c.buffer i in
    let c' = set_buffer c i (record b { count = b.count - 1 }) in
    let freed =
      assert (not (mem i c.free_list))
      >> some (bwrite (record c' { free_list = i ∷ c.free_list }) i) in
    assert (leb 1 b.count) >> (if b.count == 1 then freed else some c')

unfoldable pub page_cache_init : Cache → Cache
page_cache_init c = record c { free_list = []; hash_table = λ h. [] }
