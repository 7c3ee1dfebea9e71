-- ===== src/Pipe/Order.antt =====
-- The pipe of src/fs/pipe.c passes every byte on in order, and its ends do not wait for each other.
use light_os.Kfifo
use light_os.Kfifo.{Fifo}
use light_os.Kfifo.Refine.{contents, get-IsValid}
use light_os.Kfifo.Put.{put-room, contents-empty, contents-get, empty-full}
use light_os.Pipe.{
  Pipe, new_pipe, Step, Reach, read_byte, read_wait, write_byte, write_wait, start, later,
}
use mathlib.Core.Path.{subst}
use light_os.Base.{
  ℕ, ◌≡◌, refl, sym, ap, ◌∙◌, Bool, true, false, some_inj, List, [], ◌∷◌, ◌++◌, length, arith,
}

pub record Inv (p : Pipe) : Type 0 where
  pub valid : Kfifo.IsValid p.fifo
  pub order : p.sent ≡ p.received ++ contents p.fifo
  pub reader_waits : p.reader_blocked ≡ true → Kfifo.empty p.fifo ≡ true
  pub writer_waits : p.writer_blocked ≡ true → Kfifo.full p.fifo ≡ true

++-assoc : (xs ys zs : List ℕ) → (xs ++ ys) ++ zs ≡ xs ++ (ys ++ zs)
++-assoc [] ys zs = refl
++-assoc (x ∷ xs) ys zs = ap (λ ws. x ∷ ws) (++-assoc xs ys zs)

Step-Inv : {p q : Pipe} → Step p q → Inv p → Inv q
Step-Inv {p} (read_byte w e) i = record {
  valid = get-IsValid i.valid;
  order =
      i.order
      ∙ ap (λ xs. p.received ++ xs) (contents-get i.valid e)
      ∙ sym (++-assoc p.received ((Kfifo.get p.fifo).0 ∷ []) (contents (Kfifo.get p.fifo).1));
  reader_waits = λ b. absurd (ground (arith, b, w));
  writer_waits = λ b. absurd (ground (arith, b));
}
Step-Inv {p} (read_wait w e) i = record {
  valid = i.valid;
  order = i.order;
  reader_waits = λ b. e;
  writer_waits = i.writer_waits;
}
Step-Inv {p} (write_byte byte {fifo} w room done) i =
    let (fifo', done', v, c) = put-room i.valid byte room in
    let same : fifo' ≡ fifo = some_inj fifo' fifo (sym done' ∙ done) in
    record {
      valid = subst Kfifo.IsValid same v;
      order =
          ap (λ xs. xs ++ byte ∷ []) i.order
          ∙ (++-assoc p.received (contents p.fifo) (byte ∷ [])
              ∙ ap (λ xs. p.received ++ xs) (sym c ∙ ap contents same));
      reader_waits = λ b. absurd (ground (arith, b));
      writer_waits = λ b. absurd (ground (arith, b, w));
    }
Step-Inv {p} (write_wait w e) i = record {
  valid = i.valid;
  order = i.order;
  reader_waits = i.reader_waits;
  writer_waits = λ b. e;
}

start-Inv : (page : List ℕ) → length page ≡ 4096 → Inv (new_pipe page)
unfolding Kfifo.init Kfifo.empty
start-Inv page l =
    let v : Kfifo.IsValid (Kfifo.init page 4096) = record {
      room = omega arith;
      small = omega arith;
      storage = omega (arith, l);
      head_in = omega arith;
      tail_in = omega arith;
    } in
    record {
      valid = v;
      order = sym (contents-empty v refl);
      reader_waits = λ b. refl;
      writer_waits = λ b. absurd (ground (arith, b));
    }

Reach-Inv : {page : List ℕ} {p : Pipe} → length page ≡ 4096 → Reach page p → Inv p
Reach-Inv {page} l start = start-Inv page l
Reach-Inv l (later r s) = Step-Inv s (Reach-Inv l r)

-- In every order of the steps, what has been written is what has been read, followed by what is in the
-- queue: no byte is lost, repeated or out of order.
pub sent_received :
    {page : List ℕ} {p : Pipe}
    → length page ≡ 4096
    → Reach page p
    → p.sent ≡ p.received ++ contents p.fifo
sent_received l r = (Reach-Inv l r).order

-- In no state that can be reached both ends are blocked.
pub no_deadlock :
    {page : List ℕ} {p : Pipe}
    → length page ≡ 4096
    → Reach page p
    → p.reader_blocked ≡ true
    → p.writer_blocked ≡ false
no_deadlock {p} l r b = let i = Reach-Inv l r in open_end p.writer_blocked i.writer_waits
  where
    open_end : (w : Bool) → (w ≡ true → Kfifo.full p.fifo ≡ true) → w ≡ false
    open_end false f = refl
    open_end true f =
        let i = Reach-Inv l r in absurd (empty-full i.valid (f refl) (i.reader_waits b))
