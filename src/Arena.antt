-- ===== src/Arena.antt =====
-- src/lib/arena.c: the kernel's heap, `kmalloc` and `kfree`. Both lists are sequences of the addresses
-- of their arenas, on which the assertions of src/lib/list.c are left out; `pages` has the addresses
-- that the calls of `alloc_kpage` return. Sizes are words, and their sums wrap. What the buffers hold is
-- left out. `none` is a panic, a failed assertion, or too few rounds of a loop.
pub mod Fit
mod Tests
use light_os.Base.{
  ℕ, zero, suc, ◌+◌, ◌-◌, ◌*◌, ◌/◌, ◌%◌, ◌^◌, Bool, true, false, not, ◌&&◌, ◌||◌, Option, none,
  some, List, [], ◌∷◌, ltb, leb, ◌==◌, if◌then◌else◌, ◌>>=◌, ◌>>◌, assert,
}

-- `arena_t`, without its place in a list
pub record Arena : Type 0 where
  pub magic : ℕ
  pub is_used : Bool
  pub is_head : Bool
  pub back_ptr : ℕ
  pub forward_ptr : ℕ
  pub length : ℕ
  pub buf : ℕ

pub record Heap : Type 0 where
  pub at : ℕ → Arena
  pub free_list : List ℕ
  pub used_list : List ℕ
  pub pages : List ℕ

-- `ARENA_MAGIC`, `MIN_BLOCK_SIZE`, `PAGE_SIZE` and the size of `arena_t`
abbrev pub arena_magic : ℕ
arena_magic = 10597059

abbrev pub min_block_size : ℕ
min_block_size = 16

abbrev pub page_size : ℕ
page_size = 4096

abbrev pub arena_size : ℕ
arena_size = 28

abbrev pub update : (ℕ → Arena) → ℕ → Arena → ℕ → Arena
update at p a q = if p == q then a else at q

unfoldable pub remove : ℕ → List ℕ → List ℕ
remove p [] = []
remove p (x ∷ xs) = let rest = remove p xs in if x == p then xs else x ∷ rest

unfoldable pub member : ℕ → List ℕ → Bool
member p [] = false
member p (x ∷ xs) = x == p || member p xs

abbrev pub page_count : (size : ℕ) → ℕ
page_count size = (size + arena_size) % 2 ^ 32 / page_size + 1

-- The arena of new pages.
abbrev pub page_arena : (p size : ℕ) → Arena
page_arena p size = record {
  magic = arena_magic;
  is_used = false;
  is_head = true;
  back_ptr = 0;
  forward_ptr = 0;
  length = (page_size * page_count size + 2 ^ 32 - arena_size) % 2 ^ 32;
  buf = p + arena_size;
}

abbrev pub with_pages : Heap → (size p : ℕ) → List ℕ → Heap
with_pages h size p pages = record h {
  at = update h.at p (page_arena p size);
  free_list = p ∷ h.free_list;
  pages = pages;
}

abbrev pub from_pages : Heap → (size : ℕ) → List ℕ → Option Heap
from_pages h size [] = none
from_pages h size (p ∷ pages) = some (with_pages h size p pages)

-- `_arena_add_new_pages`
unfoldable pub arena_add_new_pages : Heap → (size : ℕ) → Option Heap
arena_add_new_pages h size = from_pages h size h.pages

-- The loop of `kmalloc` along the free list.
unfoldable pub find : (ℕ → Arena) → (size : ℕ) → List ℕ → Option ℕ
find at size [] = none
find at size (p ∷ ps) =
    let rest = find at size ps in
    if leb ((arena_size + size) % 2 ^ 32) (at p).length then some p else rest

abbrev pub or_again : Option ℕ → Heap → Option (ℕ × Heap) → Option (ℕ × Heap)
or_again none h again = again
or_again (some p) h again = some (p, h)

-- The search from `refind` on.
unfoldable pub refind : (fuel : ℕ) → Heap → (size : ℕ) → Option (ℕ × Heap)
refind zero h size = none
refind (suc fuel) h size =
    let again = arena_add_new_pages h size >>= λ h'. refind fuel h' size in
    or_again (find h.at size h.free_list) h again

-- An arena that is found is taken, and the rest of it is split off if it is large enough for another.
abbrev pub divided : Arena → (p size : ℕ) → Arena
divided a p size = record {
  magic = arena_magic;
  is_used = false;
  is_head = false;
  back_ptr = p;
  forward_ptr = a.forward_ptr;
  length = (a.length + 2 ^ 33 - size - arena_size) % 2 ^ 32;
  buf = (a.buf + size + arena_size) % 2 ^ 32;
}

unfoldable pub take : Heap → (p size : ℕ) → Heap
take h p size =
    let a = h.at p in
    let free = remove p h.free_list in
    let used = p ∷ h.used_list in
    let rest = (a.buf + size) % 2 ^ 32 in
    if ltb ((a.length + 2 ^ 32 - size) % 2 ^ 32) (arena_size + min_block_size)
    then record h {
      at = update h.at p (record a { is_used = true });
      free_list = free;
      used_list = used;
    }
    else record h {
      at =
          update (update h.at rest (divided a p size)) p
            (record a { is_used = true; forward_ptr = rest; length = size });
      free_list = rest ∷ free;
      used_list = used;
    }

abbrev pub is_empty : List ℕ → Bool
is_empty [] = true
is_empty (x ∷ xs) = false

abbrev pub at_least : ℕ → ℕ
at_least size = if leb min_block_size size then size else min_block_size

abbrev pub with_some : Heap → (size : ℕ) → Option Heap
with_some h size = if is_empty h.free_list then arena_add_new_pages h size else some h

abbrev pub taken : (size : ℕ) → Option (ℕ × Heap) → Option (ℕ × Heap)
taken size r = r >>= λ q. some ((q.1.at q.0).buf, take q.1 q.0 size)

-- The address of the buffer, 0 for `NULL`.
unfoldable pub kmalloc : (fuel : ℕ) → Heap → (size : ℕ) → Option (ℕ × Heap)
kmalloc fuel h size =
    let n = at_least size in
    let found = taken n (with_some h n >>= λ h'. refind fuel h' n) in
    if size == 0 then some (0, h) else found

-- The first arena of the free ones in front of `p`.
unfoldable pub merge_up : (fuel : ℕ) → (ℕ → Arena) → (p : ℕ) → Option ℕ
merge_up zero at p = none
merge_up (suc fuel) at p =
    let back = (at p).back_ptr in
    let rest = merge_up fuel at back in
    if not (back == 0) && not (at back).is_used then rest else some p

-- The free arenas behind `p` become a part of it.
unfoldable pub merge_down : (fuel : ℕ) → Heap → (p : ℕ) → Option Heap
merge_down zero h p = none
merge_down (suc fuel) h p =
    let a = h.at p in
    let next = a.forward_ptr in
    let b = h.at next in
    let merged = record a {
      length = (a.length + b.length + arena_size) % 2 ^ 32;
      forward_ptr = b.forward_ptr;
    } in
    let rest =
      merge_down fuel (record h { at = update h.at p merged; free_list = remove next h.free_list })
        p in
    if not (next == 0) && not b.is_used then rest else some h

abbrev pub given_back : Heap → (p : ℕ) → Heap
given_back h p =
    let a = h.at p in
    record h {
      at = update h.at p (record a { is_used = false });
      free_list = p ∷ h.free_list;
      used_list = remove p h.used_list;
    }

-- `kfree` of the arena `p`.
unfoldable pub free_arena : (fuel : ℕ) → Heap → (p : ℕ) → Option Heap
free_arena fuel h p = do
  let next = (h.at p).forward_ptr
  assert (next == 0 || (h.at next).magic == arena_magic)
  assert (member p h.used_list)
  let h' = given_back h p
  first ← merge_up fuel h'.at p
  merge_down fuel h' first

unfoldable pub kfree : (fuel : ℕ) → Heap → (ptr : ℕ) → Option Heap
kfree fuel h ptr =
    let freed = free_arena fuel h (ptr - arena_size) in if ptr == 0 then some h else freed
