-- ===== src/Console/Csi.antt =====
-- src/kernel/console.c: the control sequences, and the writing of a text.
use light_os.Base.{
  ℕ, zero, suc, ◌+◌, ◌-◌, ◌*◌, ◌/◌, ◌%◌, ◌^◌, Bool, false, ◌&&◌, ◌||◌, Option, none, some, List, [],
  ◌∷◌, length, get_or, set, replicate, ltb, leb, ◌==◌, if◌then◌else◌, ◌>>=◌,
}
use light_os.Console.State.{nor, esc, que, arg, csi}
use light_os.Console.{
  mem_end, width, height, row_size, scr_size, arg_nr, State, Console, set_cursor, set_xy,
  save_cursor, store, store_cell, erase_screen, copy, console_clear, state_normal, state_esc,
  state_arg,
}

abbrev pub arg0 : Console → ℕ
arg0 con = get_or con.args 0 0

unfoldable pub csi_J : Console → Console
csi_J con =
    if arg0 con == 0
    then erase_screen con con.pos ((con.screen + scr_size - con.pos) / 2)
    else if arg0 con == 1
    then erase_screen con con.screen ((con.pos - con.screen) / 2)
    else if arg0 con == 2
    then erase_screen con con.screen (scr_size / 2)
    else con

unfoldable pub csi_K : Console → Console
csi_K con =
    if arg0 con == 0
    then erase_screen con con.pos (width - con.x)
    else if arg0 con == 1
    then erase_screen con (con.pos - con.x * 2) con.x
    else if arg0 con == 2
    then erase_screen con (con.pos - con.x * 2) width
    else con

-- How often `csi_L`, `csi_M`, `csi_P` and `csi_at` repeat what they do.
abbrev pub clipped : Console → ℕ
clipped con = if ltb height (arg0 con) then height else if arg0 con == 0 then 1 else arg0 con

-- `while (nr--)`
unfoldable pub repeat : ℕ → (Console → Option Console) → Console → Option Console
repeat zero f con = some con
repeat (suc nr) f con = f con >>= λ con'. repeat nr f con'

-- The loop of `insert_line`, from round `i` on: rows move down, the last one first.
unfoldable pub move_down : (fuel : ℕ) → (ℕ → ℕ) → (start i : ℕ) → Option (ℕ → ℕ)
move_down zero mem start i = none
move_down (suc fuel) mem start i =
    let src = mem_end - i * row_size in
    let rest = move_down fuel (copy mem (src + row_size) src row_size) start (i + 1) in
    if ltb src start then some mem else rest

-- The loop of `delete_line`. `start` points to cells of two bytes, so a round goes on by two rows.
unfoldable pub move_up : (fuel : ℕ) → (ℕ → ℕ) → (start i : ℕ) → Option (ℕ → ℕ)
move_up zero mem start i = none
move_up (suc fuel) mem start i =
    let src = start + i * row_size * 2 in
    let rest = move_up fuel (copy mem (src - row_size) src row_size) start (i + 1) in
    if leb mem_end src then some mem else rest

abbrev pub row_start : Console → ℕ
row_start con = con.screen + con.y * row_size

unfoldable pub insert_line : (fuel : ℕ) → Console → Option Console
insert_line fuel con = do
  mem ← move_down fuel con.mem (row_start con) 2
  some (erase_screen (record con { mem = mem }) (row_start con) width)

unfoldable pub delete_line : (fuel : ℕ) → Console → Option Console
delete_line fuel con = do
  mem ← move_up fuel con.mem (row_start con) 1
  some (erase_screen (record con { mem = mem }) (mem_end - row_size) width)

-- The loop of `delete_char`: cells move one to the left.
unfoldable pub shift_left : (rounds : ℕ) → (ℕ → ℕ) → (ptr : ℕ) → ℕ → ℕ
shift_left zero mem ptr = mem
shift_left (suc rounds) mem ptr =
    shift_left rounds (store (store mem ptr (mem (ptr + 2))) (ptr + 1) (mem (ptr + 3))) (ptr + 2)

-- The loop of `insert_char`, over the cells behind `ptr`, the last one first.
unfoldable pub shift_right : (rounds : ℕ) → (ℕ → ℕ) → (ptr : ℕ) → ℕ → ℕ
shift_right zero mem ptr = mem
shift_right (suc rounds) mem ptr =
    let to = ptr + (rounds + 1) * 2 in
    let from = ptr + rounds * 2 in
    shift_right rounds (store (store mem to (mem from)) (to + 1) (mem (from + 1))) ptr

-- The cells behind the cursor in its row; there are none behind the last column or past it.
abbrev pub cells_behind : Console → ℕ
cells_behind con = width - 1 - con.x

unfoldable pub delete_char : Console → Console
delete_char con =
    let n = cells_behind con in
    record con { mem = store_cell (shift_left n con.mem con.pos) (con.pos + n * 2) con.erase }

-- Only a byte is stored at the cursor, which `ptr` is a pointer to.
unfoldable pub insert_char : Console → Console
insert_char con = record con {
  mem = store (shift_right (cells_behind con) con.mem con.pos) con.pos (con.erase % 2 ^ 8);
}

unfoldable pub style_arg : (style a : ℕ) → ℕ
style_arg style a =
    if a == 0
    then 7
    else if a == 1
    then 15
    else if a == 128
    then style % 128 + 128
    else if a == 7
    then style / 16 + style * 16 % 2 ^ 8
    else if leb 30 a && leb a 37
    then style / 8 * 8 + (a - 30)
    else if leb 40 a && leb a 47
    then style / 128 * 128 + style % 16 + (a - 40) * 16
    else style

unfoldable pub restyle : (argc : ℕ) → List ℕ → (style : ℕ) → ℕ
restyle zero args style = style
restyle (suc argc) [] style = style
restyle (suc argc) (a ∷ args) style = restyle argc args (style_arg style a)

unfoldable pub csi_m : Console → Console
csi_m con =
    let style = restyle con.argc con.args 0 in
    record con { style = style; erase = style * 2 ^ 8 + 32 }

-- An argument of a movement: 0 stands for 1; an argument that is a position counts from 1.
abbrev pub distance : Console → ℕ
distance con = if arg0 con == 0 then 1 else arg0 con

abbrev pub less_one : ℕ → ℕ
less_one a = a - 1

abbrev pub with_arg0 : Console → ℕ → Console
with_arg0 con a = record con { args = set con.args 0 a }

-- `a - b` of unsigned words
abbrev pub minus : (a b : ℕ) → ℕ
minus a b = (a + 2 ^ 32 - b) % 2 ^ 32

abbrev pub is : ℕ → ℕ → ℕ → Bool
is ch a b = ch == a || ch == b

-- The movements of the cursor among the sequences, and `none` if `ch` ends another.
unfoldable pub csi_move : Console → ℕ → Option Console
csi_move con ch =
    let n = distance con in
    let moved = with_arg0 con n in
    let before = less_one (arg0 con) in
    let column = less_one (get_or con.args 1 0) in
    if is ch 71 96
    then some (set_xy (with_arg0 con before) before con.y)
    else if ch == 65
    then some (set_xy moved con.x (minus con.y n))
    else if is ch 66 101
    then some (set_xy moved con.x ((con.y + n) % 2 ^ 32))
    else if is ch 67 97
    then some (set_xy moved ((con.x + n) % 2 ^ 32) con.y)
    else if ch == 68
    then some (set_xy moved (minus con.x n) con.y)
    else if ch == 69
    then some (set_xy moved 0 ((con.y + n) % 2 ^ 32))
    else if ch == 70
    then some (set_xy moved 0 (minus con.y n))
    else if ch == 100
    then some (set_xy (with_arg0 con before) con.x before)
    else if is ch 72 102
    then some (set_xy (record con { args = set (set con.args 0 before) 1 column }) column before)
    else none

-- `s` goes on with `u`, as there is no `break`.
unfoldable pub csi_edit : (fuel : ℕ) → Console → ℕ → Option Console
csi_edit fuel con ch =
    if ch == 74
    then some (csi_J con)
    else if ch == 75
    then some (csi_K con)
    else if ch == 76
    then repeat (clipped con) (insert_line fuel) con
    else if ch == 77
    then repeat (clipped con) (delete_line fuel) con
    else if ch == 80
    then repeat (clipped con) (λ c. some (delete_char c)) con
    else if ch == 64
    then repeat (clipped con) (λ c. some (insert_char c)) con
    else if ch == 109
    then some (csi_m con)
    else if ch == 115
    then some (set_xy (save_cursor con) con.x con.y)
    else if ch == 117
    then some (set_xy con con.saved_x con.saved_y)
    else some con

unfoldable pub state_csi : (fuel : ℕ) → Console → ℕ → Option Console
state_csi fuel con ch =
    let con' = record con { state = State.nor } in
    elim (csi_move con' ch) [ some moved ↦ some moved | none ↦ csi_edit fuel con' ch ]

-- The states behind `STATE_ARG` and `STATE_QUE`: a complete sequence is run at once.
unfoldable pub arg_step : (fuel : ℕ) → Console → ℕ → Option Console
arg_step fuel con ch = let r = state_arg con ch in if r.0 then state_csi fuel r.1 ch else some r.1

unfoldable pub que_step : (fuel : ℕ) → Console → ℕ → Option Console
que_step fuel con ch =
    let con' = record con {
      args = replicate arg_nr 0;
      argc = 0;
      state = State.arg;
      ques = ch == 63;
    } in
    if ch == 63 then some con' else arg_step fuel con' ch

unfoldable pub write_char : (fuel : ℕ) → Console → ℕ → Option Console
write_char fuel con ch = elim con.state [
  | nor ↦ some (state_normal con ch)
  | esc ↦ some (state_esc con ch)
  | que ↦ que_step fuel con ch
  | arg ↦ arg_step fuel con ch
  | csi ↦ state_csi fuel con ch
]

unfoldable pub write_loop : (fuel : ℕ) → Console → List ℕ → Option Console
write_loop fuel con [] = some con
write_loop fuel con (ch ∷ buf) = write_char fuel con ch >>= λ con'. write_loop fuel con' buf

-- The result is one more than the bytes written, as the loop counts its last test.
unfoldable pub console_write : (fuel : ℕ) → Console → List ℕ → Option (ℕ × Console)
console_write fuel con buf = do
  con' ← write_loop fuel con buf
  some (length buf + 1, set_cursor con')

-- `console_init`, on the zeros of static memory
unfoldable pub console_init : (ℕ → ℕ) → Console
console_init mem = console_clear (record {
  screen = 0;
  pos = 0;
  x = 0;
  y = 0;
  saved_x = 0;
  saved_y = 0;
  state = State.nor;
  args = replicate arg_nr 0;
  argc = 0;
  ques = false;
  erase = 1824;
  style = 7;
  mem = mem;
  crt_start = 0;
  crt_cursor = 0;
})
