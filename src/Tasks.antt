-- ===== src/Tasks.antt =====
-- src/kernel/task.c, signal.c, clock.c and schedule.c: the task list and what changes it. A slot of
-- `task_list` is `none` for a null pointer. The fields of `task_t` that hold memory, files and
-- processor registers are left out. `none` as a result is a panic or a failed assertion.
pub mod Schedule
pub mod Switch
pub mod Tick
pub mod Signal
pub mod Process
mod Tests
use Prim.Native.Nat.{bit_and, bit_or}
use light_os.Base.{
  ℕ, zero, suc, ◌+◌, ◌-◌, ◌%◌, ◌^◌, ◌<◌, ◌≤◌, ◌≡◌, ◌≢◌, Bool, true, false, not, ◌&&◌, ◌||◌, Option,
  none, some, List, [], ◌∷◌, length, get_or, set, leb, ltb, ◌==◌, if◌then◌else◌, ◌>>=◌, ◌>>◌,
  assert, ◌⊎◌,
}

-- `task_state_t`
pub data State : Type 0 where
  init : State
  running : State
  ready : State
  blocked : State
  sleeping : State
  waiting : State
  dead : State

abbrev pub is_ready : State → Bool
is_ready ready = true
is_ready _ = false

abbrev pub is_running : State → Bool
is_running running = true
is_running _ = false

abbrev pub is_waiting : State → Bool
is_waiting waiting = true
is_waiting _ = false

abbrev pub is_sleeping : State → Bool
is_sleeping sleeping = true
is_sleeping _ = false

abbrev pub is_dead : State → Bool
is_dead dead = true
is_dead _ = false

-- `sigaction_t`
pub record Action : Type 0 where
  pub handler : ℕ
  pub mask : ℕ
  pub flags : ℕ
  pub restorer : ℕ

-- `task_t`; `pid_t` is signed, and its values here are those of live tasks
pub record Task : Type 0 where
  pub state : State
  pub priority : ℕ
  pub ticks : ℕ
  pub jiffies : ℕ
  pub uid : ℕ
  pub pid : ℕ
  pub ppid : ℕ
  pub pgid : ℕ
  pub sid : ℕ
  pub status : ℕ
  pub waitpid : ℕ
  pub signal : ℕ
  pub blocked_signals : ℕ
  pub actions : List Action

-- `task_list`, `current` as an index into it, and `jiffies`
pub record Kernel : Type 0 where
  pub task_list : List (Option Task)
  pub current : ℕ
  pub jiffies : ℕ

-- `TASK_NR`
abbrev pub task_nr : ℕ
task_nr = 64

abbrev pub slot : List (Option Task) → ℕ → Option Task
slot tasks i = get_or tasks i none

-- What the loop of `schedule` asks of slot `n`.
abbrev pub runs : Option Task → Bool
runs none = false
runs (some t) = not (t.ticks == 0) && is_ready t.state

-- The loop of `schedule` over the rounds left, from slot `n` on; 0 is the idle task.
unfoldable pub pick : List (Option Task) → (rounds n : ℕ) → ℕ
pick tasks zero n = 0
pick tasks (suc rounds) n =
    let n' = n % task_nr in
    let rest = pick tasks rounds (n' + 1) in
    if not (n' == 0) && runs (slot tasks n') then n' else rest

-- The part of `switch_to` that is not about registers: what becomes of the task that stops.
abbrev pub stopped : Task → Task
stopped t = if is_running t.state then record t { state = ready } else t

unfoldable pub start : List (Option Task) → (n jiffies : ℕ) → Option Task → Option Kernel
start tasks n jiffies none = none
start tasks n jiffies (some t) = do
  assert (is_ready t.state)
  some (record {
    task_list = set tasks n (some (record t { state = running; jiffies = jiffies }));
    current = n;
    jiffies = jiffies;
  })

unfoldable pub leave : Kernel → ℕ → Option Task → Option Kernel
leave k n none = none
leave k n (some c) =
    let tasks = set k.task_list k.current (some (stopped c)) in
    start tasks n k.jiffies (slot tasks n)

unfoldable pub switch_to : Kernel → ℕ → Option Kernel
switch_to k n = do
  assert (ltb n task_nr)
  t ← slot k.task_list n
  let switched = leave k n (slot k.task_list k.current)
  if k.current == n then some k else switched

-- `schedule`: `current->pid` is the slot of the current task
unfoldable pub schedule : Kernel → Option Kernel
schedule k = do c ← slot k.task_list k.current; switch_to k (pick k.task_list task_nr (c.pid + 1))

abbrev pub ticked : ℕ → ℕ → Task → Task
ticked ticks now t = record t { jiffies = now; ticks = if ticks == 0 then t.priority else ticks }

-- The part of `clock_handler` behind `timer_wakeup` and the assertion on the magic number: the tick of
-- the current task. `ticks` is unsigned, so that
-- the test `ticks <= 0` asks for 0.
unfoldable pub tick : Kernel → (now : ℕ) → Task → Option Kernel
tick k now c =
    let ticks = (c.ticks + 2 ^ 32 - 1) % 2 ^ 32 in
    let k' : Kernel = record {
      task_list = set k.task_list k.current (some (ticked ticks now c));
      current = k.current;
      jiffies = now;
    } in
    let scheduled = schedule k' in if ticks == 0 then scheduled else some k'

-- `get_task`: the slot of the first task with the pid.
unfoldable pub get_task : List (Option Task) → (pid i : ℕ) → Option ℕ
get_task [] pid i = none
get_task (none ∷ ts) pid i = get_task ts pid (i + 1)
get_task (some t ∷ ts) pid i =
    let rest = get_task ts pid (i + 1) in if t.pid == pid then some i else rest

-- `get_free_task` without the allocation: the first free slot.
unfoldable pub get_free_task : List (Option Task) → (i : ℕ) → Option ℕ
get_free_task [] i = none
get_free_task (none ∷ ts) i = some i
get_free_task (some t ∷ ts) i = get_free_task ts (i + 1)

-- Between two calls: a task stands in the slot of its pid, no task but the current one is running,
-- and the idle task in slot 0 can always be run.
pub record IsValid (k : Kernel) : Type 0 where
  pub size : length k.task_list ≡ task_nr
  pub current_in : k.current < task_nr
  pub pids : (i : ℕ) (t : Task) → slot k.task_list i ≡ some t → t.pid ≡ i
  pub alone :
      (i : ℕ) (t : Task) → slot k.task_list i ≡ some t → is_running t.state ≡ true → i ≡ k.current
  pub present : (c : Task) × (slot k.task_list k.current ≡ some c)
  pub idle :
      (t : Task) × (slot k.task_list 0 ≡ some t)
      × ((is_ready t.state ≡ true) ⊎ ((is_running t.state ≡ true) × (k.current ≡ 0)))
