-- ===== src/Pipe/Tests.antt =====
-- Runs of the pipe of src/fs/pipe.c.
use light_os.Kfifo
use light_os.Kfifo.{Fifo}
use light_os.Kfifo.Refine.{contents}
use light_os.Pipe.{Pipe, new_pipe, after_write, Reach, read_wait, write_byte, start, later}
use light_os.Pipe.Order.{sent_received, no_deadlock}
use light_os.Base.{ℕ, ◌≡◌, refl, true, false, List, [], ◌∷◌, ◌++◌, replicate, length-replicate}

abbrev page : List ℕ
page = replicate 4096 0

-- The reader has come first and waits.
abbrev waiting : Pipe
waiting = record (new_pipe page) { reader_blocked = true }

waiting-Reach : Reach page waiting
unfolding Kfifo.init Kfifo.empty
waiting-Reach = later start (read_wait refl refl)

no_deadlock_example : waiting.writer_blocked ≡ false
no_deadlock_example =
    no_deadlock {page = page} {p = waiting} (length-replicate {A = ℕ} 4096 0) waiting-Reach refl

-- The writer has put a byte.
abbrev one_byte : Fifo
one_byte = record { head = 1; tail = 0; buf_size = 4096; buf = 7 ∷ replicate 4095 0 }

written-Reach : Reach page (after_write waiting one_byte 7)
unfolding Kfifo.init Kfifo.full Kfifo.next Kfifo.put Kfifo.drop_old
written-Reach = later waiting-Reach (write_byte 7 {fifo = one_byte} refl refl refl)

sent_received_example : 7 ∷ [] ≡ [] ++ contents one_byte
sent_received_example =
    sent_received {page = page} {p = after_write waiting one_byte 7}
      (length-replicate {A = ℕ} 4096 0) written-Reach
