-- ===== src/Tasks/Signal.antt =====
-- src/kernel/signal.c. Integers are their 32 bits, so that `EOF` and the negative error numbers are
-- close to 2 ^ 32. The user's stack and registers are left out but for those that a handler changes.
use Prim.Native.Nat.{bit_and, bit_or}
use light_os.Base.{
  ℕ, zero, suc, ◌+◌, ◌-◌, ◌%◌, ◌^◌, ◌<◌, ◌≤◌, ◌≡◌, ◌≢◌, Bool, true, false, not, ◌&&◌, ◌||◌, Option,
  none, some, List, get_or, set, ltb, ◌==◌, if◌then◌else◌, ◌>>◌, assert,
}
use light_os.Tasks.{ready, is_waiting, is_sleeping, Task, Action, slot, get_task}

-- `MINSIG`, `MAXSIG`, `SIGKILL`, `SIGCHLD`, and `EOF`
abbrev pub max_sig : ℕ
max_sig = 31

abbrev pub sig_kill : ℕ
sig_kill = 9

abbrev pub sig_chld : ℕ
sig_chld = 17

abbrev pub eof : ℕ
eof = 2 ^ 32 - 1

-- `SIG_ONESHOT`, `SIG_NOMASK`
abbrev pub oneshot : ℕ
oneshot = 0x8000_0000

abbrev pub nomask : ℕ
nomask = 0x4000_0000

abbrev pub sigmask : ℕ → ℕ
sigmask sig = 2 ^ (sig - 1) % 2 ^ 32

-- `~x`
abbrev pub complement : ℕ → ℕ
complement x = 2 ^ 32 - 1 - x

abbrev pub no_action : Action
no_action = record { handler = 0; mask = 0; flags = 0; restorer = 0 }

unfoldable pub sys_sgetmask : Task → ℕ
sys_sgetmask t = t.blocked_signals

unfoldable pub sys_ssetmask : Task → (newmask : ℕ) → ℕ × Task
sys_ssetmask t newmask = if newmask == eof then (2 ^ 32 - 1, t) else (
  t.blocked_signals,
  record t { blocked_signals = bit_and newmask (complement (sigmask sig_kill)) },
)

-- `sig < MINSIG || sig > MAXSIG || sig == SIGKILL`
abbrev pub not_catchable : ℕ → Bool
not_catchable sig = ltb sig 1 || ltb max_sig sig || sig == sig_kill

unfoldable pub sys_signal : Task → (sig handler restorer : ℕ) → ℕ × Task
sys_signal t sig handler restorer = if not_catchable sig then (eof, t) else (
  handler,
  record t {
    actions = set t.actions (sig - 1) (record {
      handler = handler;
      mask = 0;
      flags = bit_or oneshot nomask;
      restorer = restorer;
    });
  },
)

-- the old action, if it is asked for, is the third component
unfoldable pub sys_sigaction : Task → (sig : ℕ) → Action → ℕ × Task × Option Action
sys_sigaction t sig action =
    let mask =
      if not (bit_and action.flags nomask == 0) then 0 else bit_or action.mask (sigmask sig) in
    if not_catchable sig then (eof, t, none) else (
      0,
      record t { actions = set t.actions (sig - 1) (record action { mask = mask }) },
      some (get_or t.actions (sig - 1) no_action),
    )

-- What `sys_kill` does to the task it has found. The node of a waiting or a sleeping task is in no
-- list that is modelled here.
abbrev pub signalled : ℕ → Task → Task
signalled sig t = record t {
  signal = bit_or t.signal (sigmask sig);
  state = if is_waiting t.state || is_sleeping t.state then ready else t.state;
}

unfoldable pub kill_task : List (Option Task) → (sig i : ℕ) → Option Task → ℕ × List (Option Task)
kill_task tasks sig i none = (eof, tasks)
kill_task tasks sig i (some t) =
    if t.pid == 1 || t.uid == 0 then (eof, tasks) else (0, set tasks i (some (signalled sig t)))

unfoldable pub kill_found : List (Option Task) → (sig : ℕ) → Option ℕ → ℕ × List (Option Task)
kill_found tasks sig none = (eof, tasks)
kill_found tasks sig (some i) = kill_task tasks sig i (slot tasks i)

unfoldable pub sys_kill : List (Option Task) → (pid sig : ℕ) → ℕ × List (Option Task)
sys_kill tasks pid sig =
    if ltb sig 1 || ltb max_sig sig
    then (eof, tasks)
    else kill_found tasks sig (get_task tasks pid 0)

-- The loop of `task_signal`, from signal `sig` on: the first signal of the map.
unfoldable pub first_signal : (map rounds sig : ℕ) → Option ℕ
first_signal map zero sig = none
first_signal map (suc rounds) sig =
    let rest = first_signal map rounds (sig + 1) in
    if not (bit_and map (sigmask sig) == 0) then some sig else rest

-- How `task_signal` goes on: no signal, a signal that is ignored, the end of the task with a status,
-- or a return to user mode at the handler.
pub data Delivery : Type 0 where
  nothing : Delivery
  ignored : (sig : ℕ) → Delivery
  exits : (status : ℕ) → Delivery
  handles : (sig handler restorer blocked : ℕ) → Delivery

-- The mask that the frame saves for the end of the handler.
abbrev pub saved_mask : Task → Action → ℕ
saved_mask t a = if not (bit_and a.flags nomask == 0) then t.blocked_signals else eof

abbrev pub after_handler : Task → ℕ → Action → Task
after_handler t sig a = record t {
  actions =
      if not (bit_and a.flags oneshot == 0)
      then set t.actions (sig - 1) (record a { handler = 0 })
      else t.actions;
  blocked_signals = bit_or t.blocked_signals a.mask;
}

unfoldable pub deliver : Task → (sig : ℕ) → Delivery × Task
deliver t sig =
    let a = get_or t.actions (sig - 1) no_action in
    if a.handler == 1
    then (ignored sig, t)
    else if a.handler == 0 && sig == sig_chld
    then (ignored sig, t)
    else if a.handler == 0
    then (exits (sigmask sig), t)
    else (handles sig a.handler a.restorer (saved_mask t a), after_handler t sig a)

-- What the loop leaves: with no signal from 1 to `MAXSIG` in the map, the code goes on with an action
-- behind the end of the array.
unfoldable pub deliver_first : Task → Option ℕ → Option (Delivery × Task)
deliver_first t none = none
deliver_first t (some sig) =
    some (deliver (record t { signal = bit_and t.signal (complement (sigmask sig)) }) sig)

unfoldable pub task_signal : Task → Option (Delivery × Task)
task_signal t =
    let map = bit_and t.signal (complement t.blocked_signals) in
    let delivered = assert (not (t.uid == 0)) >> deliver_first t (first_signal map max_sig 1) in
    if map == 0 then some (nothing, t) else delivered

-- whether signal `sig` waits and is not blocked
abbrev pub pending : Task → ℕ → Bool
pending t sig = not (bit_and (bit_and t.signal (complement t.blocked_signals)) (sigmask sig) == 0)

-- What the loop finds from signal `i` on.
abbrev First : (ℕ → Bool) → (i n : ℕ) → Option ℕ → Type 0
First p i n none = (j : ℕ) → i ≤ j → j < i + n → p j ≡ false
First p i n (some k) =
    (i ≤ k) × (k < i + n) × (p k ≡ true) × ((j : ℕ) → i ≤ j → j < k → p j ≡ false)

-- What a call of `task_signal` does.
pub data Signalled (t : Task) : Option (Delivery × Task) → Type 0 where
  no_map : bit_and t.signal (complement t.blocked_signals) ≡ 0 → Signalled t (some (nothing, t))
  overrun :
      bit_and t.signal (complement t.blocked_signals) ≢ 0
      → ((j : ℕ) → 1 ≤ j → j ≤ max_sig → pending t j ≡ false)
      → Signalled t none
  lowest :
      (sig : ℕ)
      → bit_and t.signal (complement t.blocked_signals) ≢ 0
      → 1 ≤ sig
      → sig ≤ max_sig
      → pending t sig ≡ true
      → ((j : ℕ) → 1 ≤ j → j < sig → pending t j ≡ false)
      → Signalled t
          (some (deliver (record t { signal = bit_and t.signal (complement (sigmask sig)) }) sig))
