-- ===== src/Console.antt =====
-- src/kernel/console.c: the text screen and its escape sequences. `mem` is the memory, byte by byte
-- at every address, so that a write outside the screen would show. What `console_init` sets once is
-- a constant. Addresses of the screen are far below 2 ^ 32 and their sums do not wrap; where a number
-- from the output enters, the wrap-around is written out. The beep of BEL is left out.
pub mod Csi
pub mod Kept
pub mod Scroll
pub mod Plain
pub mod Lines
pub mod Write
pub mod Text
mod Tests
use light_os.Base.{
  ℕ, zero, suc, ◌+◌, ◌-◌, ◌*◌, ◌/◌, ◌%◌, ◌^◌, ◌≡◌, Bool, true, false, not, ◌&&◌, ◌||◌, Option, none,
  some, List, [], ◌∷◌, length, get_or, set, replicate, ltb, leb, ◌==◌, if◌then◌else◌, ◌>>=◌,
}

-- `MEM_BASE`, `mem_size`, `mem_end`, `WIDTH`, `HEIGHT`, `ROW_SIZE`, `SCR_SIZE`, `ARG_NR`
abbrev pub mem_base : ℕ
mem_base = 3221979136

abbrev pub mem_size : ℕ
mem_size = 16320

abbrev pub mem_end : ℕ
mem_end = mem_base + mem_size

abbrev pub width : ℕ
width = 80

abbrev pub height : ℕ
height = 25

abbrev pub row_size : ℕ
row_size = 160

abbrev pub scr_size : ℕ
scr_size = 4000

abbrev pub arg_nr : ℕ
arg_nr = 16

pub data State : Type 0 where
  nor : State
  esc : State
  que : State
  arg : State
  csi : State

-- `console_t`, the memory, and the two address registers of the screen controller
pub record Console : Type 0 where
  pub screen : ℕ
  pub pos : ℕ
  pub x : ℕ
  pub y : ℕ
  pub saved_x : ℕ
  pub saved_y : ℕ
  pub state : State
  pub args : List ℕ
  pub argc : ℕ
  pub ques : Bool
  pub erase : ℕ
  pub style : ℕ
  pub mem : ℕ → ℕ
  pub crt_start : ℕ
  pub crt_cursor : ℕ

-- The high and the low byte that are sent for an address on the screen.
unfoldable pub crt_word : ℕ → ℕ
crt_word addr = (addr - mem_base) / 2 ^ 9 % 2 ^ 8 * 2 ^ 8 + (addr - mem_base) / 2 % 2 ^ 8

unfoldable pub set_screen : Console → Console
set_screen con = record con { crt_start = crt_word con.screen }

unfoldable pub set_cursor : Console → Console
set_cursor con = record con { crt_cursor = crt_word con.pos }

unfoldable pub set_xy : Console → (x y : ℕ) → Console
set_xy con x y =
    if ltb width x || leb height y
    then con
    else record con { x = x; y = y; pos = con.screen + y * row_size + x * 2 }

unfoldable pub save_cursor : Console → Console
save_cursor con = record con { saved_x = con.x; saved_y = con.y }

-- A byte, and a cell of a character and its style, stored at an address.
abbrev pub store : (ℕ → ℕ) → (addr byte : ℕ) → ℕ → ℕ
store mem addr byte p = if addr == p then byte else mem p

abbrev pub store_cell : (ℕ → ℕ) → (addr cell : ℕ) → ℕ → ℕ
store_cell mem addr cell = store (store mem addr (cell % 2 ^ 8)) (addr + 1) (cell / 2 ^ 8 % 2 ^ 8)

-- The loop of `erase_screen`, for `count` rounds.
unfoldable pub fill : (count : ℕ) → (ℕ → ℕ) → (start cell : ℕ) → ℕ → ℕ
fill zero mem start cell = mem
fill (suc count) mem start cell = fill count (store_cell mem start cell) (start + 2) cell

unfoldable pub erase_screen : Console → (start count : ℕ) → Console
erase_screen con start count = record con { mem = fill count con.mem start con.erase }

-- `memcpy` of bytes to a place that the source does not overlap.
unfoldable pub copy : (ℕ → ℕ) → (dest src count : ℕ) → ℕ → ℕ
copy mem dest src count p =
    if leb dest p && ltb p (dest + count) then mem (src + (p - dest)) else mem p

unfoldable pub console_clear : Console → Console
console_clear con =
    let con' = record con { screen = mem_base; pos = mem_base; x = 0; y = 0 } in
    erase_screen (set_screen (set_cursor con')) mem_base (mem_size / 2)

-- The start of `scroll_up`: at the end of the memory the screen is moved to its start.
unfoldable pub rewind : Console → Console
rewind con =
    if leb mem_end (con.screen + scr_size + row_size)
    then record con {
      mem = copy con.mem mem_base con.screen scr_size;
      pos = con.pos - (con.screen - mem_base);
      screen = mem_base;
    }
    else con

unfoldable pub scroll_up : Console → Console
scroll_up con =
    let con' = rewind con in
    let con'' = erase_screen con' (con'.screen + scr_size) width in
    set_screen (record con'' { screen = con''.screen + row_size; pos = con''.pos + row_size })

unfoldable pub lf : Console → Console
lf con =
    if ltb (con.y + 1) height
    then record con { y = con.y + 1; pos = con.pos + row_size }
    else scroll_up con

unfoldable pub cr : Console → Console
cr con = record con { pos = con.pos - con.x * 2; x = 0 }

-- Behind the last column the rest of the output goes to the next line.
unfoldable pub wrap : Console → Console
wrap con =
    if leb width con.x then lf (record con { x = con.x - width; pos = con.pos - row_size }) else con

unfoldable pub tab : Console → Console
tab con =
    let offset = 8 - con.x % 8 in
    wrap (record con { x = con.x + offset; pos = con.pos + offset * 2 })

unfoldable pub bs : Console → Console
bs con = if con.x == 0 then con else record con {
  x = con.x - 1;
  pos = con.pos - 2;
  mem = store_cell con.mem (con.pos - 2) con.erase;
}

unfoldable pub del : Console → Console
del con = record con { mem = store_cell con.mem con.pos con.erase }

unfoldable pub chr : Console → ℕ → Console
chr con ch =
    let con' = wrap con in
    record con' {
      mem = store (store con'.mem con'.pos ch) (con'.pos + 1) con'.style;
      pos = con'.pos + 2;
      x = con'.x + 1;
    }

unfoldable pub state_normal : Console → ℕ → Console
state_normal con ch =
    if ch == 0 || ch == 7
    then con
    else if ch == 8
    then bs con
    else if ch == 9
    then tab con
    else if ch == 10
    then cr (lf con)
    else if ch == 11 || ch == 12
    then lf con
    else if ch == 13
    then cr con
    else if ch == 127
    then del con
    else if ch == 27
    then record con { state = State.esc }
    else chr con ch

-- On `[`, `E`, `D`, `7` and `8`; every other byte does nothing.
unfoldable pub state_esc : Console → ℕ → Console
state_esc con ch =
    if ch == 91
    then record con { state = State.que }
    else if ch == 69
    then cr (lf con)
    else if ch == 68
    then lf con
    else if ch == 55
    then save_cursor con
    else if ch == 56
    then set_xy con con.saved_x con.saved_y
    else con

-- Whether the sequence is complete, and the console after the call.
unfoldable pub state_arg : Console → ℕ → Bool × Console
state_arg con ch =
    if leb arg_nr con.argc
    then (false, con)
    else if ch == 59
    then (false, record con { argc = con.argc + 1 })
    else if leb 48 ch && leb ch 57
    then (
      false,
      record con {
        args = set con.args con.argc ((get_or con.args con.argc 0 * 10 + ch - 48) % 2 ^ 32);
      },
    )
    else (true, record con { argc = con.argc + 1; state = State.csi })
