-- ===== src/Kfifo.antt =====
-- src/lib/kfifo.c: a byte queue in a ring, which drops its oldest byte when it is full. The buffer
-- that `buf` points to is kept in the record, so a function that writes returns the new record.
pub mod Refine
pub mod Put
mod Tests
use light_os.Base.{
  ℕ, zero, suc, ◌+◌, ◌-◌, ◌%◌, ◌^◌, ◌<◌, ◌≤◌, ◌≡◌, Bool, Option, none, some, List, [], ◌∷◌, length,
  get_or, set, leb, ◌==◌, if◌then◌else◌, ◌>>=◌,
}

-- `kfifo_t`
pub record Fifo : Type 0 where
  pub head : ℕ
  pub tail : ℕ
  pub buf_size : ℕ
  pub buf : List ℕ

unfoldable pub next : Fifo → ℕ → ℕ
next fifo pos = (pos + 1) % 2 ^ 32 % fifo.buf_size

unfoldable pub init : List ℕ → ℕ → Fifo
init buf buf_size = record { head = 0; tail = 0; buf_size = buf_size; buf = buf }

unfoldable pub full : Fifo → Bool
full fifo = next fifo fifo.head == fifo.tail

unfoldable pub empty : Fifo → Bool
empty fifo = fifo.head == fifo.tail

-- The byte, 0 if there is none, and the queue after the call.
unfoldable pub get : Fifo → ℕ × Fifo
get fifo =
    if empty fifo
    then (0, fifo)
    else (get_or fifo.buf fifo.tail 0, record fifo { tail = next fifo fifo.tail })

-- `while (kfifo_full(fifo)) kfifo_get(fifo);` for at most so many tests; `none` if that is too few.
unfoldable pub drop_old : ℕ → Fifo → Option Fifo
drop_old zero fifo = none
drop_old (suc fuel) fifo =
    let rest = drop_old fuel (get fifo).1 in if full fifo then rest else some fifo

unfoldable pub put : ℕ → Fifo → ℕ → Option Fifo
put fuel fifo byte = do
  fifo' ← drop_old fuel fifo
  some (record fifo' { buf = set fifo'.buf fifo'.head byte; head = next fifo' fifo'.head })

-- The ring has room for a byte, and both indices lie in it.
pub record IsValid (fifo : Fifo) : Type 0 where
  pub room : 2 ≤ fifo.buf_size
  pub small : fifo.buf_size < 2 ^ 32
  pub storage : fifo.buf_size ≤ length fifo.buf
  pub head_in : fifo.head < fifo.buf_size
  pub tail_in : fifo.tail < fifo.buf_size
