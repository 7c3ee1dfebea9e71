-- ===== src/Keyboard.antt =====
-- src/kernel/keyboard.c: the state of the keys, and the character of a scan code. What the handler
-- hands to the terminal is in Keyboard.Tty. The waiting for the controller is left out: `leds` is the
-- byte that is sent to it. `none` is an access outside of the table of keys, or too little fuel for
-- the queue.
pub mod Keymap
pub mod Tty
pub mod Handler
pub mod Irq
mod Tests
use light_os.Keyboard.Keymap.{Key, keymap}
use light_os.Kfifo
use light_os.Kfifo.{Fifo}
use light_os.Base.{
  ℕ, ◌+◌, ◌-◌, ◌*◌, ◌%◌, ◌^◌, Bool, true, false, not, ◌&&◌, ◌||◌, Option, none, some, List, [], ◌∷◌,
  get_elem?, set, replicate, ltb, leb, ◌==◌, if◌then◌else◌, ◌>>=◌,
}

-- The variables of the file. `fg_task` is the slot of the task that waits for a byte.
pub record Keyboard : Type 0 where
  pub keys : List Key
  pub capslock : Bool
  pub scrlock : Bool
  pub numlock : Bool
  pub extcode : Bool
  pub leds : ℕ
  pub fifo : Fifo
  pub fg_task : Option ℕ

-- `KEY_CTRL_L` and so on
abbrev pub key_ctrl_l : ℕ
key_ctrl_l = 29

abbrev pub key_shift_l : ℕ
key_shift_l = 42

abbrev pub key_slash : ℕ
key_slash = 53

abbrev pub key_shift_r : ℕ
key_shift_r = 54

abbrev pub key_alt_l : ℕ
key_alt_l = 56

abbrev pub key_capslock : ℕ
key_capslock = 58

abbrev pub key_numlock : ℕ
key_numlock = 69

abbrev pub key_scrlock : ℕ
key_scrlock = 70

abbrev pub key_print_screen : ℕ
key_print_screen = 95

-- `ctrl_state`, `alt_state` and `shift_state`
unfoldable pub ctrl_state : List Key → Option Bool
ctrl_state keys = get_elem? keys key_ctrl_l >>= λ k. some (k.down || k.ext_down)

unfoldable pub alt_state : List Key → Option Bool
alt_state keys = get_elem? keys key_alt_l >>= λ k. some (k.down || k.ext_down)

unfoldable pub shift_state : List Key → Option Bool
shift_state keys = do
  left ← get_elem? keys key_shift_l
  right ← get_elem? keys key_shift_r
  some (left.down || right.down)

abbrev pub bit : Bool → ℕ
bit true = 1
bit false = 0

unfoldable pub set_led : Keyboard → Keyboard
set_led kb = record kb { leds = bit kb.capslock * 4 + bit kb.numlock * 2 + bit kb.scrlock }

-- `keymap[makecode][ext] = pressed`
unfoldable pub mark_key : List Key → (makecode : ℕ) → (ext pressed : Bool) → Option (List Key)
mark_key keys makecode ext pressed = get_elem? keys makecode >>= λ k. some (
    set keys makecode
      (if ext then record k { ext_down = pressed } else record k { down = pressed }))

unfoldable pub make_code : (scancode : ℕ) → ℕ
make_code scancode = let m = scancode % 128 in if m == 183 then key_print_screen else m

abbrev pub pick : Key → Bool → ℕ
pick k true = k.shifted
pick k false = k.plain

abbrev pub differ : Bool → Bool → Bool
differ true b = not b
differ false b = b

-- The character of the key `k` that is pressed; 0 is no character.
abbrev pub char_for : Keyboard → Key → (shift : Bool) → (makecode : ℕ) → (ext : Bool) → ℕ
char_for kb k shift makecode ext =
    if ext && not (makecode == key_slash)
    then k.shifted
    else if leb 71 makecode && leb makecode 83
    then pick k (not kb.numlock)
    else if leb 97 k.plain && leb k.plain 122
    then pick k (differ kb.capslock shift)
    else pick k shift

unfoldable pub char_of : Keyboard → (makecode : ℕ) → (ext : Bool) → Option ℕ
char_of kb makecode ext = do
  k ← get_elem? kb.keys makecode
  shift ← shift_state kb.keys
  some (char_for kb k shift makecode ext)

-- The keys that change a lock; `none` is another key.
unfoldable pub lock_key : Keyboard → (makecode : ℕ) → Option Keyboard
lock_key kb makecode =
    if makecode == key_numlock
    then some (set_led (record kb { numlock = not kb.numlock }))
    else if makecode == key_capslock
    then some (set_led (record kb { capslock = not kb.capslock }))
    else if makecode == key_scrlock
    then some (set_led (record kb { scrlock = not kb.scrlock }))
    else none

abbrev pub pressed_with : Option Keyboard → Option ℕ → Keyboard → Option (ℕ × Keyboard)
pressed_with none char kb = char >>= λ ch. some (ch, kb)
pressed_with (some kb') char kb = some (0, kb')

-- A key is pressed: the character, 0 if there is none, and the keyboard.
unfoldable pub press : Keyboard → (makecode : ℕ) → (ext : Bool) → Option (ℕ × Keyboard)
press kb makecode ext = pressed_with (lock_key kb makecode) (char_of kb makecode ext) kb

-- The handler up to the character.
unfoldable pub scan : Keyboard → (scancode : ℕ) → Option (ℕ × Keyboard)
scan kb scancode =
    let makecode = make_code scancode in
    let kb' = record kb { extcode = false } in
    let release =
      mark_key kb.keys makecode kb.extcode false >>= λ keys. some (0, record kb' { keys = keys }) in
    let pressed = mark_key kb.keys makecode kb.extcode true >>= λ keys.
    press (record kb' { keys = keys }) makecode kb.extcode in
    if scancode == 224
    then some (0, record kb { extcode = true })
    else if ltb key_print_screen makecode
    then some (0, kb')
    else if leb 128 scancode
    then release
    else pressed
