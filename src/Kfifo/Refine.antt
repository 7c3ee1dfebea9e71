-- ===== src/Kfifo/Refine.antt =====
-- A valid `kfifo_t` behaves as a list of at most `buf_size - 1` bytes, oldest first.
use light_os.Base.{
  ℕ, zero, suc, ◌+◌, ◌-◌, ◌%◌, ◌^◌, ◌<◌, ◌≤◌, ◌≡◌, ◌≢◌, refl, sym, ◌∙◌, ap, true, false, List, [],
  ◌∷◌, ◌++◌, length, get_or, set, leb, ltb, ◌==◌, if◌then◌else◌, arith, Bool-cases, ==_iff, ==_refl,
  ==_ne, inl, inr, length-set, get_or-set,
}
use mathlib.Core.Path.{ap₂}
use native.Mathlib.Nat.{mod_self, mod-eq_of_lt}
use native.Mathlib.Decide.{ℕ_discrete}
use light_os.Kfifo.{Fifo, next, full, empty, get, IsValid}

-- one place further round a ring of `size` places
abbrev pub after : ℕ → ℕ → ℕ
after size pos = if pos + 1 == size then 0 else pos + 1

-- the `n` bytes from place `pos` on
abbrev pub window : ℕ → List ℕ → ℕ → ℕ → List ℕ
window size buf pos zero = []
window size buf pos (suc n) = get_or buf pos 0 ∷ window size buf (after size pos) n

-- how many bytes are stored
abbrev pub count : Fifo → ℕ
count fifo =
    if leb fifo.tail fifo.head then fifo.head - fifo.tail else fifo.head + fifo.buf_size - fifo.tail

-- the bytes stored, oldest first
abbrev pub contents : Fifo → List ℕ
contents fifo = window fifo.buf_size fifo.buf fifo.tail (count fifo)

pub next-after :
    (fifo : Fifo) (pos : ℕ)
    → IsValid fifo
    → pos < fifo.buf_size
    → next fifo pos ≡ after fifo.buf_size pos
unfolding next
next-after fifo pos v lt =
    let e : (pos + 1) % 2 ^ 32 ≡ pos + 1 = omega (arith, v.small) in
    rw e (elim (Bool-cases (pos + 1 == fifo.buf_size)) [
      | inl last ↦ rw (last, (==_iff _ _).0 last) (mod_self fifo.buf_size)
      | inr more ↦ rw more (mod-eq_of_lt (ground arith))
    ])

length-window : (size : ℕ) (buf : List ℕ) (pos n : ℕ) → length (window size buf pos n) ≡ n
length-window size buf pos zero = refl
length-window size buf pos (suc n) = ap suc (length-window size buf (after size pos) n)

-- The place `n` further on.
abbrev ahead : ℕ → ℕ → ℕ → ℕ
ahead size pos n = if ltb (pos + n) size then pos + n else pos + n - size

-- A byte written just behind a window extends it.
window-set :
    (size : ℕ) (buf : List ℕ) (x pos n i : ℕ)
    → size ≤ length buf
    → pos < size
    → n < size
    → i ≡ ahead size pos n
    → window size (set buf i x) pos (suc n) ≡ window size buf pos n ++ x ∷ []
window-set size buf x pos zero i s p q e =
    let e' : pos ≡ i = ground arith in
    ap (λ b. b ∷ []) (get_or-set buf i pos x 0 (ground arith) ∙ ground arith)
window-set size buf x pos (suc n) i s p q e =
    ap₂ ◌∷◌ (get_or-set buf i pos x 0 (ground arith) ∙ ground arith)
      (window-set size buf x (after size pos) n i s (ground arith) (ground arith) (ground arith))

-- What a reader takes: the oldest byte, or 0.
unfoldable pub pop : List ℕ → ℕ × List ℕ
pop [] = (0, [])
pop (x ∷ xs) = (x, xs)

abbrev pub without_oldest : List ℕ → List ℕ
without_oldest [] = []
without_oldest (x ∷ xs) = xs

pub pop-rest : (xs : List ℕ) → (pop xs).1 ≡ without_oldest xs
unfolding pop
pop-rest [] = refl
pop-rest (x ∷ xs) = refl

-- What a writer leaves: a full queue loses its oldest byte first.
unfoldable pub push : ℕ → List ℕ → ℕ → List ℕ
push cap xs x = (if length xs == cap then without_oldest xs else xs) ++ x ∷ []

module _ {fifo : Fifo} (v : IsValid fifo) where
  pub length-contents : length (contents fifo) ≡ count fifo
  length-contents = length-window fifo.buf_size fifo.buf fifo.tail (count fifo)

  pub contents-window :
      (n : ℕ) → count fifo ≡ n → contents fifo ≡ window fifo.buf_size fifo.buf fifo.tail n
  contents-window n e = ap (window fifo.buf_size fifo.buf fifo.tail) e

  -- A read keeps the ring valid.
  pub get-IsValid : IsValid (get fifo).1
  unfolding get
  get-IsValid = ground (arith, next-after fifo fifo.tail v)

  get-eq_of_empty : fifo.head ≡ fifo.tail → get fifo ≡ (0, fifo)
  unfolding get empty
  get-eq_of_empty e = rw (e, ==_refl fifo.tail)

  get-eq_of_ne :
      fifo.head ≢ fifo.tail
      → get fifo
        ≡ (get_or fifo.buf fifo.tail 0, record fifo { tail = after fifo.buf_size fifo.tail })
  unfolding get empty
  get-eq_of_ne ne = rw (==_ne _ _ ne, ← next-after fifo fifo.tail v v.tail_in)

  -- `kfifo_get` returns and removes the oldest byte; on an empty queue it returns 0 and changes
  -- nothing.
  pub get-pop : ((get fifo).0, contents (get fifo).1) ≡ pop (contents fifo)
  unfolding pop
  get-pop = elim (ℕ_discrete fifo.head fifo.tail) [
    | yes e ↦ rw (get-eq_of_empty e, contents-window 0 (ground arith))
    | no ne ↦
        let m = count fifo - 1 in
        let rest = record fifo { tail = after fifo.buf_size fifo.tail } in
        rw (get-eq_of_ne ne, contents-window (suc m) (ground arith))
          (ap (λ n. (get_or fifo.buf fifo.tail 0, window fifo.buf_size fifo.buf rest.tail n))
            (ground arith))
  ]

  -- the ring after a byte is stored with no test for room
  abbrev pub stored : ℕ → Fifo
  stored x = record fifo { buf = set fifo.buf fifo.head x; head = after fifo.buf_size fifo.head }

  pub full-count : full fifo ≡ (count fifo == fifo.buf_size - 1)
  unfolding full
  full-count = rw (next-after fifo fifo.head v v.head_in) (ground arith)

  pub stored-IsValid : (x : ℕ) → IsValid (stored x)
  stored-IsValid x = ground (arith, length-set fifo.buf fifo.head x)

  pub contents-stored : (x : ℕ) → full fifo ≡ false → contents (stored x) ≡ contents fifo ++ x ∷ []
  contents-stored x room =
      let few : (count fifo == fifo.buf_size - 1) ≡ false = sym full-count ∙ room in
      let more : count (stored x) ≡ suc (count fifo) = ground arith in
      ap (window fifo.buf_size (set fifo.buf fifo.head x) fifo.tail) more
      ∙ window-set fifo.buf_size fifo.buf x fifo.tail (count fifo) fifo.head v.storage v.tail_in
          (ground arith) (ground arith)

  pub full-ne : full fifo ≡ true → fifo.head ≢ fifo.tail
  full-ne e =
      let many : (count fifo == fifo.buf_size - 1) ≡ true = sym full-count ∙ e in ground arith

-- A full ring has room after one read.
pub full-get : {fifo : Fifo} → IsValid fifo → full fifo ≡ true → full (get fifo).1 ≡ false
full-get {fifo} v e =
    let many : (count fifo == fifo.buf_size - 1) ≡ true = sym (full-count v) ∙ e in
    full-count (get-IsValid v) ∙ rw (get-eq_of_ne v (full-ne v e)) (ground arith)
