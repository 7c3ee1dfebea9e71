-- ===== src/Keyboard/Tests.antt =====
-- Runs of the handler of src/kernel/keyboard.c.
use light_os.Keyboard.Keymap.{keymap}
use light_os.Keyboard.{Keyboard}
use light_os.Keyboard.Tty.{Action, keyboard_handler}
use light_os.Keyboard.Handler.{IsValid, down_at, about}
use light_os.Keyboard.Irq.{keyboard_handler-IsValid}
use light_os.Base.{ℕ, ◌<◌, ◌≡◌, refl, true, false, Option, some, replicate, if◌then◌else◌, arith}

abbrev start : Keyboard
start = record {
  keys = keymap;
  capslock = false;
  scrlock = false;
  numlock = true;
  extcode = false;
  leds = 2;
  fifo = record { head = 0; tail = 0; buf_size = 64; buf = replicate 64 0 };
  fg_task = some 3;
}

start-IsValid : IsValid start
unfolding keymap
start-IsValid = record {
  keys_in = refl;
  queue = record {
    room = omega arith;
    small = omega arith;
    storage = omega arith;
    head_in = omega arith;
    tail_in = omega arith;
  };
}

-- The key of `a`
keyboard_handler-IsValid_example :
    (kb' : Keyboard) × (action : Action) × (woken : Option ℕ) × (keyboard_handler 2 start 30
      ≡ some (kb', action, woken))
    × IsValid kb'
    × ((j : ℕ)
        → j < 96
        → down_at kb'.keys j ≡ (if about start 30 j then some true else down_at keymap j))
keyboard_handler-IsValid_example =
    keyboard_handler-IsValid 2 start 30 (omega arith) start-IsValid (omega arith)
