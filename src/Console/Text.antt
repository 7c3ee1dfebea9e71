-- ===== src/Console/Text.antt =====
-- src/kernel/console.c: what a plain text shows, and the texts after which nothing is shown.
use light_os.Base.{
  ℕ, ◌+◌, ◌<◌, ◌≤◌, ◌≡◌, refl, ap, ◌∙◌, ◌≢◌, Bool, true, false, ◌||◌, Option, some, List, [], ◌∷◌,
  length, All, ltb, leb, ◌==◌, if◌then◌else◌, arith, ==_ne, le→leb, Bool-cases, inl, inr,
}
use light_os.Console.State.{nor, esc, arg}
use light_os.Console.{
  Console, State, set_xy, set_cursor, set_screen, save_cursor, console_clear, erase_screen, rewind,
  scroll_up, lf, cr, wrap, chr, store, crt_word, state_normal, state_esc, state_arg,
}
use light_os.Console.Csi.{arg_step, write_char, write_loop, console_write, console_init}
use light_os.Console.Kept.{IsValid}

-- The console is valid after `console_init`, and its whole screen is shown from the start.
pub console_init-IsValid : (mem : ℕ → ℕ) → IsValid (console_init mem)
unfolding console_init console_clear erase_screen set_screen set_cursor crt_word
console_init-IsValid mem = record {
  placed = refl;
  x_in = omega arith;
  y_in = omega arith;
  high = omega arith;
  shown = refl;
  args_in = refl;
  argc_in = omega arith;
}

-- The text stands at the address, each character with the style.
abbrev pub Shows : (mem : ℕ → ℕ) → (addr style : ℕ) → List ℕ → Type 0
Shows mem addr style [] = Unit
Shows mem addr style (c ∷ cs) =
    (mem addr ≡ c) × (mem (addr + 1) ≡ style) × Shows mem (addr + 2) style cs

-- A character that no case of `state_normal` treats specially
abbrev pub Printable : ℕ → Type 0
Printable c = (32 ≤ c) × (c ≢ 127)

state_normal-chr :
    (con : Console) (c : ℕ)
    → Printable c
    → con.x < 80
    → state_normal con c ≡ record con {
      mem = store (store con.mem con.pos c) (con.pos + 1) con.style;
      pos = con.pos + 2;
      x = con.x + 1;
    }
unfolding state_normal chr wrap
state_normal-chr con c p l = ground arith

write_char-nor :
    (fuel : ℕ) (con : Console) (c : ℕ)
    → con.state ≡ nor
    → write_char fuel con c ≡ some (state_normal con c)
unfolding write_char
write_char-nor fuel con c s = ground (arith, s)

write_char-esc :
    (fuel : ℕ) (con : Console) (c : ℕ)
    → con.state ≡ esc
    → write_char fuel con c ≡ some (state_esc con c)
unfolding write_char
write_char-esc fuel con c s = ground (arith, s)

write_char-arg :
    (fuel : ℕ) (con : Console) (c : ℕ)
    → con.state ≡ arg
    → write_char fuel con c ≡ arg_step fuel con c
unfolding write_char
write_char-arg fuel con c s = ground (arith, s)

-- One round of the loop
write_loop-∷ :
    (fuel : ℕ) (con n : Console) (c : ℕ) (cs : List ℕ) (r : Option Console)
    → write_char fuel con c ≡ some n
    → write_loop fuel n cs ≡ r
    → write_loop fuel con (c ∷ cs) ≡ r
unfolding write_loop
write_loop-∷ fuel con n c cs r e d = rw e d

-- In the state of a plain text, printable characters that fit into the line end up at the cursor, each
-- with the current style; the memory in front of the cursor stays, and the cursor goes on by as many
-- columns in the same line.
write_loop-Shows :
    (fuel : ℕ) (text : List ℕ) (con : Console)
    → con.state ≡ nor
    → All Printable text
    → con.x + length text ≤ 80
    → (con' : Console) × (write_loop fuel con text ≡ some con')
      × Shows con'.mem con.pos con.style text
      × ((p : ℕ) → p < con.pos → con'.mem p ≡ con.mem p)
      × (con'.x ≡ con.x + length text)
      × (con'.y ≡ con.y)
unfolding write_loop
write_loop-Shows fuel [] con s a l = (con, refl, tt, λ p h. refl, omega arith, refl)
write_loop-Shows fuel (c ∷ cs) con s (a, as') l =
    let next : Console = record con {
      mem = store (store con.mem con.pos c) (con.pos + 1) con.style;
      pos = con.pos + 2;
      x = con.x + 1;
    } in
    let one = state_normal-chr con c a (omega arith) in
    let (con', done, shows, same, x', y') = write_loop-Shows fuel cs next s as' (omega arith) in
    (
      con',
      write_loop-∷ fuel con next c cs (some con') (write_char-nor fuel con c s ∙ ap some one) done,
      (
        same con.pos (omega arith) ∙ ground arith,
        same (con.pos + 1) (omega arith) ∙ ground arith,
        shows,
      ),
      λ p h. same p (omega arith) ∙ ground arith,
      x' ∙ omega arith,
      y',
    )

lf-state : (con : Console) → (lf con).state ≡ con.state
unfolding lf scroll_up erase_screen set_screen rewind
lf-state con = elim (Bool-cases (ltb (con.y + 1) 25)) [
  | inl e ↦ rw e refl
  | inr e ↦ rw e (elim (Bool-cases (leb 3221995456 (con.screen + 4000 + 160))) [
    | inl g ↦ rw g refl
    | inr g ↦ rw g refl
  ])
]

if-state :
    (t : Bool) (a b : Console) (s : State)
    → a.state ≡ s
    → b.state ≡ s
    → (if t then a else b).state ≡ s
if-state true a b s e f = e
if-state false a b s e f = f

state_esc-state : (con : Console) (c : ℕ) → c ≢ 91 → con.state ≡ esc → (state_esc con c).state ≡ esc
unfolding state_esc cr set_xy save_cursor
state_esc-state con c d s =
    let feed = lf-state con ∙ s in
    rw (==_ne c 91 d) (
      if-state (c == 69) _ _ esc feed (
        if-state (c == 68) _ _ esc feed (
          if-state (c == 55) _ _ esc s (
            if-state (c == 56) _ _ esc
              (if-state (ltb 80 con.saved_x || leb 25 con.saved_y) _ _ esc s s) s))))

-- After an escape byte, a text without `[` leaves the console in the state of the escape, in which no
-- character is shown.
esc_stuck :
    (fuel : ℕ) (con : Console) (text : List ℕ)
    → con.state ≡ esc
    → All (λ c. c ≢ 91) text
    → (con' : Console) × (write_loop fuel con text ≡ some con') × (con'.state ≡ esc)
unfolding write_loop
esc_stuck fuel con [] s a = (con, refl, s)
esc_stuck fuel con (c ∷ cs) s (a, as') =
    let (con', done, e) = esc_stuck fuel (state_esc con c) cs (state_esc-state con c a s) as' in
    (
      con',
      write_loop-∷ fuel con (state_esc con c) c cs (some con') (write_char-esc fuel con c s) done,
      e,
    )

arg_step_full : (fuel : ℕ) (con : Console) (c : ℕ) → 16 ≤ con.argc → arg_step fuel con c ≡ some con
unfolding arg_step state_arg
arg_step_full fuel con c n = rw (le→leb 16 con.argc n) refl

loop_stuck :
    (fuel : ℕ) (con : Console) (text : List ℕ)
    → con.state ≡ arg
    → 16 ≤ con.argc
    → write_loop fuel con text ≡ some con
unfolding write_loop
loop_stuck fuel con [] s n = refl
loop_stuck fuel con (c ∷ cs) s n =
    write_loop-∷ fuel con con c cs (some con)
      (write_char-arg fuel con c s ∙ arg_step_full fuel con c n) (loop_stuck fuel con cs s n)

-- Once 16 arguments have been read, `console_write` ignores every byte: it changes nothing but the
-- cursor that the controller shows.
args_stuck :
    (fuel : ℕ) (con : Console) (text : List ℕ)
    → con.state ≡ arg
    → 16 ≤ con.argc
    → console_write fuel con text ≡ some (length text + 1, set_cursor con)
unfolding console_write
args_stuck fuel con text s n = rw (loop_stuck fuel con text s n) refl
