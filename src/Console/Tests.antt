-- ===== src/Console/Tests.antt =====
-- Runs of src/kernel/console.c.
use light_os.Base.{ℕ, ◌+◌, ◌*◌, ◌≡◌, false, some, List, [], ◌∷◌, replicate, arith}
use light_os.Console.State.{nor}
use light_os.Console.{mem_base, Console}
use light_os.Console.Csi.{console_write, console_init}
use light_os.Console.Kept.{IsValid, Outside}
use light_os.Console.Write.{console_write-IsValid}
use light_os.Console.Text.{console_init-IsValid}

abbrev blank : ℕ → ℕ
blank p = 0

abbrev start : Console
start = record {
  screen = mem_base;
  pos = mem_base + 4;
  x = 2;
  y = 0;
  saved_x = 0;
  saved_y = 0;
  state = nor;
  args = replicate 16 0;
  argc = 0;
  ques = false;
  erase = 1824;
  style = 7;
  mem = blank;
  crt_start = 0;
  crt_cursor = 2;
}

-- `Hi`, the sequence that deletes two lines, and a line break
abbrev text : List ℕ
text = 72 ∷ 105 ∷ 27 ∷ 91 ∷ 50 ∷ 77 ∷ 10 ∷ []

console_write-IsValid_example :
    (con' : Console) × (console_write 102 (console_init blank) text ≡ some (8, con'))
    × IsValid con'
    × ((p : ℕ) → Outside p → con'.mem p ≡ (console_init blank).mem p)
    × (con'.pos ≡ mem_base + con'.crt_cursor * 2)
console_write-IsValid_example =
    console_write-IsValid 102 (console_init blank) text (omega arith) (console_init-IsValid blank)
