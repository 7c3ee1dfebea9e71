-- ===== src/Keyboard/Tty.antt =====
-- src/kernel/tty.c, and how src/kernel/keyboard.c hands a character to it.
use light_os.Keyboard.{Keyboard, ctrl_state, scan}
use light_os.Kfifo
use light_os.Tasks.{Task, slot, task_nr}
use light_os.Tasks.Signal.{sys_kill}
use light_os.Base.{
  ℕ, zero, suc, ◌+◌, Bool, false, not, ◌||◌, Option, none, some, List, ◌==◌, if◌then◌else◌, ◌>>=◌,
}

abbrev pub same_group : (pgid : ℕ) → Option Task → Bool
same_group pgid none = false
same_group pgid (some t) = t.pgid == pgid

abbrev pub pid_of : Option Task → ℕ
pid_of none = 0
pid_of (some t) = t.pid

-- `SIGINT`
abbrev pub sigint : ℕ
sigint = 2

-- The loop of `tty_intr`, from the slot `i` on.
unfoldable pub interrupt_from : List (Option Task) → (pgid rounds i : ℕ) → List (Option Task)
interrupt_from tasks pgid zero i = tasks
interrupt_from tasks pgid (suc rounds) i =
    let t = slot tasks i in
    let tasks' = if same_group pgid t then (sys_kill tasks (pid_of t) sigint).1 else tasks in
    interrupt_from tasks' pgid rounds (i + 1)

unfoldable pub tty_intr : List (Option Task) → (pgid : ℕ) → List (Option Task)
tty_intr tasks pgid = if pgid == 0 then tasks else interrupt_from tasks pgid task_nr 0

-- What `tty_rx_notify` does besides: `tty_intr`, or the text that clears the screen.
pub data Action : Type 0 where
  nothing : Action
  interrupt : Action
  clear : Action

abbrev pub is_letter : (ch small large : ℕ) → Bool
is_letter ch small large = ch == small || ch == large

-- The result, the character after the call, and the action.
unfoldable pub tty_rx_notify : (ch : ℕ) → (ctrl : Bool) → ℕ × ℕ × Action
tty_rx_notify ch ctrl =
    let ch' = if ch == 13 then 10 else ch in
    if not ctrl
    then (0, ch', Action.nothing)
    else if is_letter ch' 99 67
    then (0, 10, Action.interrupt)
    else if is_letter ch' 108 76
    then (0, 13, Action.clear)
    else (1, ch', Action.nothing)

-- The end of `keyboard_handler`: the character goes to the task that waits, which is woken.
unfoldable pub deliver : (fuel : ℕ) → Keyboard → (ch : ℕ) → Option (Keyboard × Option ℕ)
deliver fuel kb ch = elim kb.fg_task [
  | none ↦ some (kb, none)
  | some t ↦
      Kfifo.put fuel kb.fifo ch >>= λ fifo. some (record kb { fifo = fifo; fg_task = none }, some t)
]

-- The terminal has taken the character if its result is positive.
abbrev pub handed_over :
    (result : ℕ)
    → Action
    → Keyboard
    → Option (Keyboard × Option ℕ)
    → Option (Keyboard × Action × Option ℕ)
handed_over zero action kb delivered = delivered >>= λ d. some (d.0, action, d.1)
handed_over (suc n) action kb delivered = some (kb, action, none)

unfoldable pub notify : (fuel : ℕ) → Keyboard → (ch : ℕ) → Option (Keyboard × Action × Option ℕ)
notify fuel kb ch = do
  ctrl ← ctrl_state kb.keys
  let r = tty_rx_notify ch ctrl
  handed_over r.0 r.2 kb (deliver fuel kb r.1)

unfoldable pub keyboard_handler :
    (fuel : ℕ) → Keyboard → (scancode : ℕ) → Option (Keyboard × Action × Option ℕ)
keyboard_handler fuel kb scancode = do
  r ← scan kb scancode
  let notified = notify fuel r.1 r.0
  if r.0 == 0 then some (r.1, Action.nothing, none) else notified
