-- ===== src/Kfifo/Tests.antt =====
-- The theorems on the queue, at a ring of four places with three bytes.
use light_os.Base.{◌≡◌, refl, some, [], ◌∷◌, arith}
use light_os.Kfifo.{Fifo, put, IsValid}
use light_os.Kfifo.Refine.{contents, push}
use light_os.Kfifo.Put.{put-push}

-- a full ring whose bytes wrap round
abbrev ring : Fifo
ring = record { head = 1; tail = 2; buf_size = 4; buf = 12 ∷ 99 ∷ 10 ∷ 11 ∷ [] }

ring-IsValid : IsValid ring
ring-IsValid = record {
  room = omega arith;
  small = omega arith;
  storage = omega arith;
  head_in = omega arith;
  tail_in = omega arith;
}

ring-contents : contents ring ≡ 10 ∷ 11 ∷ 12 ∷ []
ring-contents = refl

put-push_example :
    (fifo' : Fifo) × (put 2 ring 13 ≡ some fifo')
    × IsValid fifo'
    × (contents fifo' ≡ push 3 (contents ring) 13)
put-push_example = put-push 2 ring 13 ring-IsValid (omega arith)
