-- ===== src/Arena/Fit.antt =====
-- For which sizes the `kmalloc` of src/lib/arena.c ends, and what it returns.
use light_os.Arena.{
  Arena, Heap, update, page_arena, with_pages, from_pages, arena_add_new_pages, find, or_again,
  refind, take, is_empty, at_least, with_some, kmalloc,
}
use light_os.Base.{
  ℕ, zero, suc, ◌+◌, ◌-◌, ◌*◌, ◌/◌, ◌%◌, ◌^◌, ◌<◌, ◌≤◌, ◌≡◌, refl, sym, ap, ◌≢◌, inl, inr, true,
  false, Option, none, some, List, [], ◌∷◌, ltb, leb, ◌==◌, ◌>>=◌, Bool-cases, ==_refl, ==_ne,
  le→leb, arith,
}

-- The sums with the size of a header, and the length of the pages, do not wrap.
abbrev pub Small : ℕ → Type 0
Small n = n + 28 < 2 ^ 32 - 4096

-- Whether the buffer of new pages is large enough for the search that follows.
abbrev pub Roomy : ℕ → Type 0
Roomy n = ((n + 28) % 4096 ≤ 4068) × Small n

-- It is not, for the sizes that are left.
abbrev pub Tight : ℕ → Type 0
Tight n = (4068 < (n + 28) % 4096) × Small n

sum_in_word : (n : ℕ) → Small n → (28 + n) % 2 ^ 32 ≡ 28 + n
sum_in_word n h = omega (arith, h)

page_arena-length :
    (p n : ℕ) → Small n → (page_arena p n).length ≡ 4096 * ((n + 28) / 4096 + 1) - 28
page_arena-length p n h =
    let e : (n + 28) % 2 ^ 32 ≡ n + 28 = omega (arith, h) in rw e (omega (arith, h))

page_arena-room : (p n : ℕ) → Roomy n → leb ((28 + n) % 2 ^ 32) (page_arena p n).length ≡ true
page_arena-room p n h =
    rw (sum_in_word n h.1, page_arena-length p n h.1)
      (le→leb (28 + n) (4096 * ((n + 28) / 4096 + 1) - 28) (omega (arith, h.0)))

page_arena-full : (p n : ℕ) → Tight n → leb ((28 + n) % 2 ^ 32) (page_arena p n).length ≡ false
page_arena-full p n h =
    let less : 4096 * ((n + 28) / 4096 + 1) - 28 < 28 + n = omega (arith, h.0) in
    rw (sum_in_word n h.1, page_arena-length p n h.1) (ground (arith, less))

-- The outcomes of the search: an arena that is large enough, or none.
data Found (at : ℕ → Arena) (n : ℕ) : List ℕ → Option ℕ → Type 0 where
  fits : {ps : List ℕ} {p : ℕ} → 28 + n ≤ (at p).length → Found at n ps (some p)
  lacks : {ps : List ℕ} → Found at n ps none

find-Found : (at : ℕ → Arena) (n : ℕ) → Small n → (ps : List ℕ) → Found at n ps (find at n ps)
unfolding find
find-Found at n small [] = lacks
find-Found at n small (p ∷ ps) = elim (Bool-cases (leb ((28 + n) % 2 ^ 32) (at p).length)) [
  | inl e ↦ rw e (fits (ground (arith, e, sum_in_word n small)))
  | inr e ↦ rw e (onward (find at n ps) (find-Found at n small ps))
]
  where
    onward : (r : Option ℕ) → Found at n ps r → Found at n (p ∷ ps) r
    onward none lacks = lacks
    onward (some q) (fits l) = fits l

-- The heap and the arena at which the search ends.
Ends : Heap → ℕ → Option (ℕ × Heap) → Type 0
Ends h n r = (p : ℕ) × (h' : Heap) × (r ≡ some (p, h')) × (28 + n ≤ (h'.at p).length)

find_new :
    (h : Heap) (n p : ℕ) (pages : List ℕ)
    → Roomy n
    → find (with_pages h n p pages).at n (p ∷ h.free_list) ≡ some p
unfolding find
find_new h n p pages room = rw (==_refl p, page_arena-room p n room) refl

refind_new :
    (fuel : ℕ) (h : Heap) (n p : ℕ) (pages : List ℕ)
    → Roomy n
    → refind (suc fuel) (with_pages h n p pages) n ≡ some (p, with_pages h n p pages)
unfolding refind
refind_new fuel h n p pages room = rw (find_new h n p pages room) refl

refind-Ends :
    (fuel : ℕ) (h : Heap) (n p : ℕ) (pages : List ℕ)
    → h.pages ≡ p ∷ pages
    → Roomy n
    → Ends h n (refind (suc (suc fuel)) h n)
unfolding refind arena_add_new_pages Ends
refind-Ends fuel h n p pages e room =
    by_find (find h.at n h.free_list) (find-Found h.at n room.1 h.free_list)
  where
    again : Option (ℕ × Heap)
    again = arena_add_new_pages h n >>= λ h'. refind (suc fuel) h' n

    by_find : (r : Option ℕ) → Found h.at n h.free_list r → Ends h n (or_again r h again)
    by_find (some q) (fits l) = (q, h, refl, l)
    by_find none lacks = (
      p,
      with_pages h n p pages,
      rw (e, refind_new fuel h n p pages room) refl,
      rw (==_refl p, page_arena-length p n room.1) (omega (arith, room.0)),
    )

-- What `kmalloc` gives out: an arena that is in use, with a buffer of the size or more.
pub record Served (h : Heap) (p n : ℕ) : Type 0 where
  pub large : n ≤ (h.at p).length
  pub used : (h.at p).is_used ≡ true

take-Served : (h : Heap) (p n : ℕ) → 28 + n ≤ (h.at p).length → Served (take h p n) p n
unfolding take
take-Served h p n l = elim (Bool-cases (ltb (((h.at p).length + 2 ^ 32 - n) % 2 ^ 32) 44)) [
  | inl e ↦ rw e record { large = rw (==_refl p) (omega arith); used = rw (==_refl p) refl }
  | inr e ↦ rw e record { large = rw (==_refl p) (omega arith); used = rw (==_refl p) refl }
]

take-buf : (h : Heap) (p n : ℕ) → ((take h p n).at p).buf ≡ (h.at p).buf
unfolding take
take-buf h p n = elim (Bool-cases (ltb (((h.at p).length + 2 ^ 32 - n) % 2 ^ 32) 44)) [
  | inl e ↦ rw (e, ==_refl p) refl
  | inr e ↦ rw (e, ==_refl p) refl
]

with_some-Ends :
    (fuel : ℕ) (h : Heap) (n p : ℕ) (pages : List ℕ)
    → h.pages ≡ p ∷ pages
    → Roomy n
    → Ends h n (with_some h n >>= λ h'. refind (suc (suc fuel)) h' n)
unfolding Ends arena_add_new_pages
with_some-Ends fuel h n p pages e room = elim (Bool-cases (is_empty h.free_list)) [
  | inl f ↦ (
    p,
    with_pages h n p pages,
    rw (f, e, refind_new (suc fuel) h n p pages room) refl,
    rw (==_refl p, page_arena-length p n room.1) (omega (arith, room.0)),
  )
  | inr f ↦ rw f (refind-Ends fuel h n p pages e room)
]

-- While pages can be had, with two rounds of the search, `kmalloc` of a size that is not 0 returns the
-- buffer of an arena that is in use and has room for the size, if the size, rounded up to the smallest
-- one, is not among those for which the header of a second arena does not fit behind it in the pages, and
-- is more than 4124 below 2 ^ 32, so that no sum wraps.
pub kmalloc-Served :
    (fuel : ℕ) (h : Heap) (size p : ℕ) (pages : List ℕ)
    → size ≢ 0
    → h.pages ≡ p ∷ pages
    → Roomy (at_least size)
    → (q : ℕ) × (h' : Heap) × (kmalloc (suc (suc fuel)) h size ≡ some ((h'.at q).buf, h'))
      × Served h' q (at_least size)
unfolding kmalloc Ends
kmalloc-Served fuel h size p pages d e room =
    let n = at_least size in
    let (q, h', done, l) = with_some-Ends fuel h n p pages e room in
    (
      q,
      take h' q n,
      rw (==_ne size 0 d, done) (ap (λ b. some (b, take h' q n)) (sym (take-buf h' q n))),
      take-Served h' q n l,
    )

find_nothing :
    (at : ℕ → Arena) (n x : ℕ) (ps : List ℕ)
    → find at n (x ∷ ps) ≡ none
    → (leb ((28 + n) % 2 ^ 32) (at x).length ≡ false) × (find at n ps ≡ none)
unfolding find
find_nothing at n x ps e = elim (Bool-cases (leb ((28 + n) % 2 ^ 32) (at x).length)) [
  | inl f ↦ absurd (ground (arith, e, f))
  | inr f ↦ (f, ground (arith, e, f))
]

-- The search in a heap with one more arena that is too small
find_more :
    (at : ℕ → Arena) (n p : ℕ) (a : Arena) (ps : List ℕ)
    → leb ((28 + n) % 2 ^ 32) a.length ≡ false
    → find at n ps ≡ none
    → find (update at p a) n ps ≡ none
unfolding find
find_more at n p a [] l e = refl
find_more at n p a (x ∷ ps) l e =
    let (f, r) = find_nothing at n x ps e in
    let more = find_more at n p a ps l r in
    elim (Bool-cases (p == x)) [ inl g ↦ rw (g, l) more | inr g ↦ rw (g, f) more ]

find_page :
    (h : Heap) (n p : ℕ) (pages : List ℕ)
    → Tight n
    → find h.at n h.free_list ≡ none
    → find (with_pages h n p pages).at n (p ∷ h.free_list) ≡ none
unfolding find
find_page h n p pages l e =
    let small = page_arena-full p n l in
    rw (==_refl p, small) (find_more h.at n p (page_arena p n) h.free_list small e)

-- Whatever pages there are, new ones do not help.
more_pages :
    (fuel : ℕ) (h : Heap) (n : ℕ) (pages : List ℕ)
    → ((h' : Heap) → find h'.at n h'.free_list ≡ none → refind fuel h' n ≡ none)
    → Tight n
    → find h.at n h.free_list ≡ none
    → (from_pages h n pages >>= λ h'. refind fuel h' n) ≡ none
more_pages fuel h n [] again l e = refl
more_pages fuel h n (p ∷ pages) again l e =
    again (with_pages h n p pages) (find_page h n p pages l e)

refind_stuck :
    (fuel : ℕ) (h : Heap) (n : ℕ)
    → Tight n
    → find h.at n h.free_list ≡ none
    → refind fuel h n ≡ none
unfolding refind arena_add_new_pages
refind_stuck zero h n l e = refl
refind_stuck (suc fuel) h n l e =
    rw e (more_pages fuel h n h.pages (λ h' e'. refind_stuck fuel h' n l e') l e)

-- For the other sizes `kmalloc` never returns if no free arena is large enough: however many rounds it
-- is given and whatever pages it gets, it takes more of them until there are none. The size is again more
-- than 4124 below 2 ^ 32.
kmalloc_stuck :
    (fuel : ℕ) (h : Heap) (size : ℕ)
    → size ≢ 0
    → Tight (at_least size)
    → find h.at (at_least size) h.free_list ≡ none
    → kmalloc fuel h size ≡ none
unfolding kmalloc arena_add_new_pages
kmalloc_stuck fuel h size d l e =
    let n = at_least size in
    rw (==_ne size 0 d) (elim (Bool-cases (is_empty h.free_list)) [
      | inl f ↦ rw (f, more_pages fuel h n h.pages (λ h' e'. refind_stuck fuel h' n l e') l e) refl
      | inr f ↦ rw (f, refind_stuck fuel h n l e) refl
    ])
