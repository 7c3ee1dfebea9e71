-- ===== src/Console/Write.antt =====
-- src/kernel/console.c: what the writing of a text keeps, whatever the text is.
use light_os.Base.{
  ℕ, ◌+◌, ◌-◌, ◌*◌, ◌/◌, ◌%◌, ◌^◌, ◌≤◌, ◌≡◌, refl, ◌∙◌, Bool, true, false, Option, none, some, List,
  [], ◌∷◌, length, set, replicate, get_or, length-set, ◌==◌, if◌then◌else◌, arith,
}
use light_os.Console.State.{nor, esc, que, arg, csi}
use light_os.Console.{
  mem_base, Console, State, set_xy, set_cursor, state_normal, state_esc, state_arg,
}
use light_os.Console.Csi.{
  arg0, csi_J, csi_K, clipped, insert_line, delete_line, delete_char, insert_char, csi_m, distance,
  less_one, with_arg0, minus, is, csi_move, csi_edit, state_csi, arg_step, que_step, write_char,
  write_loop, console_write,
}
use light_os.Console.Kept.{
  IsValid, Kept, Outside, crt_word_lem, keep, Kept-trans, either, set_xy-Kept, erase_screen-Kept,
  saved, read_on, in_state,
}
use light_os.Console.Plain.{state_normal-Kept, state_esc-Kept, state_arg-Kept}
use light_os.Console.Lines.{
  Runs, runs, either-Runs, insert_line-Runs, delete_line-Runs, delete_char-Kept, insert_char-Kept,
  repeat-Runs,
}

csi_J-Kept : {con : Console} → IsValid con → Kept con (csi_J con)
unfolding csi_J
csi_J-Kept {con} v =
    let base : mem_base ≤ con.screen = omega (arith, v.shown) in
    let placed = v.placed in
    let high = v.high in
    let y_in = v.y_in in
    let x_in = v.x_in in
    either (arg0 con == 0)
      (erase_screen-Kept con.pos ((con.screen + 4000 - con.pos) / 2) (omega arith) (omega arith) v)
      (either (arg0 con == 1)
        (erase_screen-Kept con.screen ((con.pos - con.screen) / 2) base (omega arith) v)
        (either (arg0 con == 2) (erase_screen-Kept con.screen (4000 / 2) base (omega arith) v)
          (keep v)))

csi_K-Kept : {con : Console} → IsValid con → Kept con (csi_K con)
unfolding csi_K
csi_K-Kept {con} v =
    let base : mem_base ≤ con.screen = omega (arith, v.shown) in
    let placed = v.placed in
    let high = v.high in
    let y_in = v.y_in in
    let x_in = v.x_in in
    either (arg0 con == 0) (erase_screen-Kept con.pos (80 - con.x) (omega arith) (omega arith) v) (
      either (arg0 con == 1)
        (erase_screen-Kept (con.pos - con.x * 2) con.x (omega arith) (omega arith) v)
        (either (arg0 con == 2)
          (erase_screen-Kept (con.pos - con.x * 2) 80 (omega arith) (omega arith) v) (keep v)))

csi_m-Kept : {con : Console} → IsValid con → Kept con (csi_m con)
unfolding csi_m
csi_m-Kept v = record {
  valid = record {
    placed = v.placed;
    x_in = v.x_in;
    y_in = v.y_in;
    high = v.high;
    shown = v.shown;
    args_in = v.args_in;
    argc_in = v.argc_in;
  };
  within = λ p o. refl;
}

-- A movement after the arguments are corrected.
go :
    {con : Console} (args : List ℕ) (x y : ℕ)
    → IsValid con
    → length args ≡ 16
    → Kept con (set_xy (record con { args = args }) x y)
go {con} args x y v l =
    let k = read_on con.state args con.argc con.ques v l v.argc_in in
    Kept-trans k (set_xy-Kept x y k.valid)

-- Either the sequence is a movement, or it is left to `csi_edit`.
data Moves (con : Console) : Option Console → Type 0 where
  stays : Moves con none
  went : {con' : Console} → Kept con con' → Moves con (some con')

either-Moves :
    {con : Console} {a b : Option Console} (t : Bool)
    → Moves con a
    → Moves con b
    → Moves con (if t then a else b)
either-Moves true k l = k
either-Moves false k l = l

csi_move-Moves : {con : Console} (ch : ℕ) → IsValid con → Moves con (csi_move con ch)
unfolding csi_move
csi_move-Moves {con} ch v =
    let n = distance con in
    let before = less_one (arg0 con) in
    let column = less_one (get_or con.args 1 0) in
    let one : (a : ℕ) → length (set con.args 0 a) ≡ 16 = λ a. length-set con.args 0 a ∙ v.args_in in
    let m : (a x y : ℕ) → Moves con (some (set_xy (with_arg0 con a) x y)) =
      λ a x y. went (go (set con.args 0 a) x y v (one a)) in
    either-Moves (is ch 71 96) (m before before con.y) (
      either-Moves (ch == 65) (m n con.x (minus con.y n)) (
        either-Moves (is ch 66 101) (m n con.x ((con.y + n) % 2 ^ 32)) (
          either-Moves (is ch 67 97) (m n ((con.x + n) % 2 ^ 32) con.y) (
            either-Moves (ch == 68) (m n (minus con.x n) con.y) (
              either-Moves (ch == 69) (m n 0 ((con.y + n) % 2 ^ 32)) (
                either-Moves (ch == 70) (m n 0 (minus con.y n)) (
                  either-Moves (ch == 100) (m before con.x before) (
                    either-Moves (is ch 72 102)
                      (went (
                        go (set (set con.args 0 before) 1 column) column before v
                          (length-set (set con.args 0 before) 1 column ∙ one before)))
                      stays))))))))

module _ (fuel : ℕ) (f : 102 ≤ fuel) where
  csi_edit-Runs : {con : Console} (ch : ℕ) → IsValid con → Runs con (csi_edit fuel con ch)
  unfolding csi_edit
  csi_edit-Runs {con} ch v =
      let s = saved v in
      either-Runs (ch == 74) (runs (csi_J-Kept v)) (
        either-Runs (ch == 75) (runs (csi_K-Kept v)) (
          either-Runs (ch == 76)
            (repeat-Runs (clipped con) (insert_line fuel) (λ c w. insert_line-Runs fuel f w) v)
            (either-Runs (ch == 77)
              (repeat-Runs (clipped con) (delete_line fuel) (λ c w. delete_line-Runs fuel f w) v)
              (either-Runs (ch == 80)
                (repeat-Runs (clipped con) (λ c. some (delete_char c))
                  (λ c w. runs (delete_char-Kept w)) v)
                (either-Runs (ch == 64)
                  (repeat-Runs (clipped con) (λ c. some (insert_char c))
                    (λ c w. runs (insert_char-Kept w)) v)
                  (either-Runs (ch == 109) (runs (csi_m-Kept v)) (
                    either-Runs (ch == 115) (runs (Kept-trans s (set_xy-Kept con.x con.y s.valid)))
                      (either-Runs (ch == 117) (runs (set_xy-Kept con.saved_x con.saved_y v))
                        (runs (keep v))))))))))

  chosen :
      {con : Console} (o : Option Console) {p : Option Console}
      → Moves con o
      → Runs con p
      → Runs con (elim o [ some moved ↦ some moved | none ↦ p ])
  chosen none stays r = r
  chosen (some con') (went k) r = runs k

  state_csi-Runs : {con : Console} (ch : ℕ) → IsValid con → Runs con (state_csi fuel con ch)
  unfolding state_csi
  state_csi-Runs {con} ch v =
      let k = in_state State.nor v in
      let con1 : Console = record con { state = State.nor } in
      let (con', done, k') =
        chosen (csi_move con1 ch) (csi_move-Moves ch k.valid) (csi_edit-Runs ch k.valid) in
      (con', done, Kept-trans k k')

  then_csi :
      {con con' : Console} (t : Bool) (ch : ℕ)
      → Kept con con'
      → Runs con (if t then state_csi fuel con' ch else some con')
  then_csi true ch k = let (c, done, k') = state_csi-Runs ch k.valid in (c, done, Kept-trans k k')
  then_csi false ch k = runs k

  arg_step-Runs : {con : Console} (ch : ℕ) → IsValid con → Runs con (arg_step fuel con ch)
  unfolding arg_step
  arg_step-Runs {con} ch v = then_csi (state_arg con ch).0 ch (state_arg-Kept ch v)

  que_step-Runs : {con : Console} (ch : ℕ) → IsValid con → Runs con (que_step fuel con ch)
  unfolding que_step
  que_step-Runs {con} ch v =
      let k = read_on State.arg (replicate 16 0) 0 (ch == 63) v refl (omega arith) in
      let (c, done, k') = arg_step-Runs ch k.valid in
      either-Runs (ch == 63) (runs k) (c, done, Kept-trans k k')

  by_state :
      {con : Console} (s : State) (ch : ℕ)
      → IsValid con
      → Runs con (elim s [
        | nor ↦ some (state_normal con ch)
        | esc ↦ some (state_esc con ch)
        | que ↦ que_step fuel con ch
        | arg ↦ arg_step fuel con ch
        | csi ↦ state_csi fuel con ch
      ])
  by_state nor ch v = runs (state_normal-Kept ch v)
  by_state esc ch v = runs (state_esc-Kept ch v)
  by_state que ch v = que_step-Runs ch v
  by_state arg ch v = arg_step-Runs ch v
  by_state csi ch v = state_csi-Runs ch v

  write_char-Runs : {con : Console} (ch : ℕ) → IsValid con → Runs con (write_char fuel con ch)
  unfolding write_char
  write_char-Runs {con} ch v = by_state con.state ch v

  write_loop-Runs :
      (buf : List ℕ) {con : Console} → IsValid con → Runs con (write_loop fuel con buf)
  unfolding write_loop
  write_loop-Runs [] v = runs (keep v)
  write_loop-Runs (ch ∷ buf) v =
      let (con', done, k) = write_char-Runs ch v in
      let (con'', rest, k') = write_loop-Runs buf k.valid in
      (con'', rw (done, rest), Kept-trans k k')

-- On a valid console, with fuel for the rows of its memory, `console_write` ends for every text. The
-- console stays valid, no byte outside the screen's memory has changed, the controller shows the
-- cursor where it is, and the result is one more than the number of bytes.
pub console_write-IsValid :
    (fuel : ℕ) (con : Console) (buf : List ℕ)
    → 102 ≤ fuel
    → IsValid con
    → (con' : Console) × (console_write fuel con buf ≡ some (length buf + 1, con'))
      × IsValid con'
      × ((p : ℕ) → Outside p → con'.mem p ≡ con.mem p)
      × (con'.pos ≡ mem_base + con'.crt_cursor * 2)
unfolding console_write set_cursor
console_write-IsValid fuel con buf f v =
    let (con', done, k) = write_loop-Runs fuel f buf v in
    let w = k.valid in
    let n = con'.crt_start + con'.y * 80 + con'.x in
    let at : con'.pos ≡ mem_base + n * 2 = omega (arith, w.placed, w.shown) in
    let word = crt_word_lem n (omega (arith, w.shown, w.high, w.x_in, w.y_in)) in
    (
      set_cursor con',
      rw done refl,
      record {
        placed = w.placed;
        x_in = w.x_in;
        y_in = w.y_in;
        high = w.high;
        shown = w.shown;
        args_in = w.args_in;
        argc_in = w.argc_in;
      },
      k.within,
      rw (at, word) refl,
    )
