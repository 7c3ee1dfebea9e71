-- ===== src/Linked.antt =====
-- src/lib/list.c: doubly linked lists, on a heap of nodes. A pointer is the address of a node, `NULL`
-- is 0, and following it is a fault. `none` is a fault or a failed assertion, and a loop that needs
-- more rounds than it is given.
pub mod Chains
pub mod Relink
pub mod Loops
pub mod Refine
mod Tests
use light_os.Base.{
  ℕ, zero, suc, ◌+◌, ◌-◌, ◌%◌, ◌^◌, Bool, true, false, not, Option, none, some, ltb, ◌==◌,
  if◌then◌else◌, ◌>>=◌, ◌>>◌, assert,
}

-- `list_node_t`, one at each address
pub record Heap : Type 0 where
  pub prev : ℕ → ℕ
  pub next : ℕ → ℕ

-- `list_t`: the addresses of its two end nodes
pub record LinkedList : Type 0 where
  pub head : ℕ
  pub tail : ℕ

abbrev pub update : (ℕ → ℕ) → ℕ → ℕ → ℕ → ℕ
update f p v q = if p == q then v else f q

-- `p->next` and `p->prev`, read and written
abbrev pub next_of : Heap → ℕ → Option ℕ
next_of h p = if p == 0 then none else some (h.next p)

abbrev pub prev_of : Heap → ℕ → Option ℕ
prev_of h p = if p == 0 then none else some (h.prev p)

abbrev pub set_next : Heap → ℕ → ℕ → Option Heap
set_next h p v = if p == 0 then none else some (record h { next = update h.next p v })

abbrev pub set_prev : Heap → ℕ → ℕ → Option Heap
set_prev h p v = if p == 0 then none else some (record h { prev = update h.prev p v })

unfoldable pub init : Heap → LinkedList → Option Heap
init h list = do
  h1 ← set_prev h list.head 0
  h2 ← set_next h1 list.tail 0
  h3 ← set_next h2 list.head list.tail
  set_prev h3 list.tail list.head

unfoldable pub insert_before : Heap → (anchor node : ℕ) → Option Heap
insert_before h anchor node = do
  before ← prev_of h anchor
  h1 ← set_prev h node before
  h2 ← set_next h1 node anchor
  again ← prev_of h2 anchor
  h3 ← set_next h2 again node
  set_prev h3 anchor node

unfoldable pub insert_after : Heap → (anchor node : ℕ) → Option Heap
insert_after h anchor node = do
  h1 ← set_prev h node anchor
  after ← next_of h1 anchor
  h2 ← set_next h1 node after
  again ← next_of h2 anchor
  h3 ← set_prev h2 again node
  set_next h3 anchor node

unfoldable pub remove : Heap → (node : ℕ) → Option Heap
remove h node = do
  before ← prev_of h node
  assert (not (before == 0))
  after ← next_of h node
  assert (not (after == 0))
  h1 ← set_next h before after
  following ← next_of h1 node
  preceding ← prev_of h1 node
  h2 ← set_prev h1 following preceding
  h3 ← set_next h2 node 0
  set_prev h3 node 0

-- The loop of `list_search` from the node `ptr` on.
unfoldable pub search_from : (fuel : ℕ) → Heap → (tail ptr node : ℕ) → Option Bool
search_from zero h tail ptr node = none
search_from (suc fuel) h tail ptr node =
    let rest = next_of h ptr >>= λ after. search_from fuel h tail after node in
    if ptr == tail then some false else if ptr == node then some true else rest

unfoldable pub search : (fuel : ℕ) → Heap → LinkedList → (node : ℕ) → Option Bool
search fuel h list node = next_of h list.head >>= λ first. search_from fuel h list.tail first node

unfoldable pub push : (fuel : ℕ) → Heap → LinkedList → (node : ℕ) → Option Heap
push fuel h list node = do
  found ← search fuel h list node
  assert (not found)
  insert_after h list.head node

unfoldable pub pushback : (fuel : ℕ) → Heap → LinkedList → (node : ℕ) → Option Heap
pushback fuel h list node = do
  found ← search fuel h list node
  assert (not found)
  insert_before h list.tail node

unfoldable pub empty : Heap → LinkedList → Option Bool
empty h list = next_of h list.head >>= λ first. some (first == list.tail)

unfoldable pub pop : Heap → LinkedList → Option (ℕ × Heap)
pop h list = do
  is_empty ← empty h list
  assert (not is_empty)
  node ← next_of h list.head
  h' ← remove h node
  some (node, h')

unfoldable pub popback : Heap → LinkedList → Option (ℕ × Heap)
popback h list = do
  is_empty ← empty h list
  assert (not is_empty)
  node ← prev_of h list.tail
  h' ← remove h node
  some (node, h')

-- The loop of `list_size` from the node `ptr` on; the count is an unsigned word.
unfoldable pub size_from : (fuel : ℕ) → Heap → (tail ptr size : ℕ) → Option ℕ
size_from zero h tail ptr size = none
size_from (suc fuel) h tail ptr size =
    let rest = next_of h ptr >>= λ after. size_from fuel h tail after ((size + 1) % 2 ^ 32) in
    if ptr == tail then some size else rest

unfoldable pub size : (fuel : ℕ) → Heap → LinkedList → Option ℕ
size fuel h list = next_of h list.head >>= λ first. size_from fuel h list.tail first 0

-- The node in front of which `list_insert_sort` inserts: the first with a greater key, or the tail.
-- `key` stands for the word at an offset from the node, and keys are below 2 ^ 31.
unfoldable pub anchor_from : (fuel : ℕ) → (key : ℕ → ℕ) → Heap → (tail ptr bound : ℕ) → Option ℕ
anchor_from zero key h tail ptr bound = none
anchor_from (suc fuel) key h tail ptr bound =
    let rest = next_of h ptr >>= λ after. anchor_from fuel key h tail after bound in
    if ptr == tail then some tail else if ltb bound (key ptr) then some ptr else rest

unfoldable pub insert_sort :
    (fuel : ℕ) → (key : ℕ → ℕ) → Heap → LinkedList → (node : ℕ) → Option Heap
insert_sort fuel key h list node = do
  first ← next_of h list.head
  anchor ← anchor_from fuel key h list.tail first (key node)
  after ← next_of h node
  assert (after == 0)
  before ← prev_of h node
  assert (before == 0)
  insert_before h anchor node
