-- ===== src/Pipe.antt =====
-- src/fs/pipe.c: a reader and a writer of a pipe, as steps in any order. The queue is Kfifo's. System
-- calls run with the interrupts off, so a round of either loop is one step up to where it blocks. What
-- has been written and read so far is kept in two lists.
pub mod Order
mod Tests
use light_os.Kfifo
use light_os.Kfifo.{Fifo}
use light_os.Base.{ℕ, ◌≡◌, Bool, true, false, Option, some, List, [], ◌∷◌, ◌++◌}

-- A blocked end is the one that `rxwaiter` or `txwaiter` points to.
pub record Pipe : Type 0 where
  pub fifo : Fifo
  pub reader_blocked : Bool
  pub writer_blocked : Bool
  pub sent : List ℕ
  pub received : List ℕ

-- `get_pipe_inode`, over a page.
abbrev pub new_pipe : List ℕ → Pipe
new_pipe page = record {
  fifo = Kfifo.init page 4096;
  reader_blocked = false;
  writer_blocked = false;
  sent = [];
  received = [];
}

-- A round of the reader that gets a byte: it wakes a writer that waits.
abbrev pub after_read : Pipe → Pipe
after_read p = record p {
  fifo = (Kfifo.get p.fifo).1;
  writer_blocked = false;
  received = p.received ++ (Kfifo.get p.fifo).0 ∷ [];
}

-- A round of the writer that has put a byte: it wakes a reader that waits.
abbrev pub after_write : Pipe → Fifo → ℕ → Pipe
after_write p fifo byte = record p {
  fifo = fifo;
  reader_blocked = false;
  sent = p.sent ++ byte ∷ [];
}

-- An end that is blocked does nothing until the other wakes it, and then tests the queue again.
pub data Step (p : Pipe) : Pipe → Type 0 where
  read_byte : p.reader_blocked ≡ false → Kfifo.empty p.fifo ≡ false → Step p (after_read p)
  read_wait :
      p.reader_blocked ≡ false
      → Kfifo.empty p.fifo ≡ true
      → Step p (record p { reader_blocked = true })
  write_byte :
      (byte : ℕ) {fifo : Fifo}
      → p.writer_blocked ≡ false
      → Kfifo.full p.fifo ≡ false
      → Kfifo.put 2 p.fifo byte ≡ some fifo
      → Step p (after_write p fifo byte)
  write_wait :
      p.writer_blocked ≡ false
      → Kfifo.full p.fifo ≡ true
      → Step p (record p { writer_blocked = true })

pub data Reach (page : List ℕ) : Pipe → Type 0 where
  start : Reach page (new_pipe page)
  later : {p q : Pipe} → Reach page p → Step p q → Reach page q
