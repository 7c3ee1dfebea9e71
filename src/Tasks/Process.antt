-- ===== src/Tasks/Process.antt =====
-- The parts of src/kernel/task.c that end a task and collect it: `task_tell_father`, the loops of
-- `sys_exit`, `sys_waitpid`, and the sessions. What `sys_exit` frees (pages, files, timers) and the
-- terminal of the session are left out.
use Prim.Native.Nat.{bit_or}
use light_os.Base.{
  ℕ, zero, suc, ◌+◌, ◌-◌, ◌^◌, ◌≤◌, ◌≡◌, ◌≢◌, refl, sym, ap, ◌∙◌, Bool, true, false, not, ◌&&◌,
  ◌||◌, Option, none, some, List, [], ◌∷◌, set, leb, ◌==◌, if◌then◌else◌, ◌>>=◌, ◌>>◌, assert, inl,
  inr, arith, Bool-cases, some_inj,
}
use light_os.Tasks.{
  ready, waiting, dead, is_running, is_waiting, is_dead, Task, Kernel, slot, get_task, schedule,
}
use mathlib.Core.Path.{subst}
use light_os.Tasks.Signal.{sigmask, sig_chld}

abbrev raise : ℕ → Task → Task
raise sig t = record t { signal = bit_or t.signal (sigmask sig) }

unfoldable pub raise_at :
    List (Option Task) → (sig i : ℕ) → Option Task → Option (List (Option Task))
raise_at tasks sig i none = none
raise_at tasks sig i (some t) = some (set tasks i (some (raise sig t)))

-- `task_tell_father`; a parent that is missing is a panic
unfoldable pub task_tell_father : List (Option Task) → (ppid : ℕ) → Option (List (Option Task))
task_tell_father tasks ppid =
    let told = get_task tasks ppid 0 >>= λ i. raise_at tasks sig_chld i (slot tasks i) in
    if ppid == 0 then some tasks else told

-- `SIGHUP` to the other tasks of the session
abbrev pub hung_up : (sid pid : ℕ) → Task → Task
hung_up sid pid t =
    if not (t.sid == sid) || t.pid == pid
    then t
    else record t { signal = bit_or t.signal (sigmask 1) }

unfoldable pub hang_up : (sid pid : ℕ) → List (Option Task) → List (Option Task)
hang_up sid pid [] = []
hang_up sid pid (none ∷ ts) = none ∷ hang_up sid pid ts
hang_up sid pid (some t ∷ ts) = some (hung_up sid pid t) ∷ hang_up sid pid ts

-- The last loop of `sys_exit` for one task: a child goes to the grandparent, and a task that waits
-- for the pid wakes up.
abbrev pub adopted : (pid ppid : ℕ) → Task → Task
adopted pid ppid t =
    if t.ppid == pid
    then record t { ppid = ppid }
    else if t.waitpid == pid
    then record t { waitpid = 0; state = if is_waiting t.state then ready else t.state }
    else t

unfoldable pub adopt : (pid ppid : ℕ) → List (Option Task) → List (Option Task)
adopt pid ppid [] = []
adopt pid ppid (none ∷ ts) = none ∷ adopt pid ppid ts
adopt pid ppid (some t ∷ ts) = some (adopted pid ppid t) ∷ adopt pid ppid ts

unfoldable pub task_sess_leader : Task → Bool
task_sess_leader t = t.sid == t.pid

-- `sys_exit` of the current task `t`
unfoldable pub exit_task : Kernel → (status : ℕ) → Task → Option Kernel
exit_task k status t = do
  assert (is_running t.state)
  assert (not (t.pid == 0) && not (t.pid == 1))
  told ←
      task_tell_father
        (set k.task_list k.current (some (record t { state = dead; status = status }))) t.ppid
  let hung = if task_sess_leader t then hang_up t.sid t.pid told else told
  schedule (record k { task_list = adopt t.pid t.ppid hung })

unfoldable pub sys_exit : Kernel → (status : ℕ) → Option Kernel
sys_exit k status = slot k.task_list k.current >>= exit_task k status

-- The search of `sys_waitpid`, over the slots from `i` on: any child, whatever pid is asked for.
unfoldable pub find_child : List (Option Task) → (pid i : ℕ) → Option Task
find_child [] pid i = none
find_child (none ∷ ts) pid i = find_child ts pid (i + 1)
find_child (some t ∷ ts) pid i =
    let rest = find_child ts pid (i + 1) in if leb 2 i && t.ppid == pid then some t else rest

-- One round of `sys_waitpid`.
pub data Waited : Type 0 where
  no_child : Waited
  collected : (pid status : ℕ) → List (Option Task) → Waited
  blocks : Task → Waited

unfoldable pub wait_for : List (Option Task) → Task → (pid : ℕ) → Option Task → Waited
wait_for tasks t pid none = no_child
wait_for tasks t pid (some child) =
    if is_dead child.state
    then collected child.pid child.status (set tasks child.pid none)
    else blocks (record t { waitpid = pid; state = waiting })

unfoldable pub sys_waitpid : List (Option Task) → Task → (pid : ℕ) → Waited
sys_waitpid tasks t pid = wait_for tasks t pid (find_child tasks t.pid 0)

-- `-EPERM` is the negated 1.
unfoldable pub sys_setsid : Task → ℕ × Task
sys_setsid t =
    if task_sess_leader t then (2 ^ 32 - 1, t) else (t.pid, record t { sid = t.pid; pgid = t.pid })

-- What `sys_setpgid` does to the task it has found; `sid` is the session of the caller.
unfoldable pub move_to :
    List (Option Task) → (sid pgid i : ℕ) → Option Task → ℕ × List (Option Task)
move_to tasks sid pgid i none = (2 ^ 32 - 3, tasks)
move_to tasks sid pgid i (some t) =
    if task_sess_leader t
    then (2 ^ 32 - 1, tasks)
    else if not (t.sid == sid)
    then (2 ^ 32 - 1, tasks)
    else (0, set tasks i (some (record t { pgid = pgid })))

unfoldable pub move_found : List (Option Task) → (sid pgid : ℕ) → Option ℕ → ℕ × List (Option Task)
move_found tasks sid pgid none = (2 ^ 32 - 3, tasks)
move_found tasks sid pgid (some i) = move_to tasks sid pgid i (slot tasks i)

-- `sys_setpgid` of the task `t` in slot `current`
unfoldable pub sys_setpgid :
    List (Option Task) → (current : ℕ) → Task → (pid pgid : ℕ) → ℕ × List (Option Task)
sys_setpgid tasks current t pid pgid =
    move_found tasks t.sid (if pgid == 0 then t.pid else pgid)
      (if pid == 0 then some current else get_task tasks pid 0)

-- whether `sys_exit` leaves a task a child of `pid`
abbrev NoChildOf : ℕ → Option Task → Type 0
NoChildOf pid none = Unit
NoChildOf pid (some t) = t.ppid ≢ pid

slot-adopt :
    (pid ppid : ℕ) (tasks : List (Option Task)) (i : ℕ)
    → pid ≢ ppid
    → NoChildOf pid (slot (adopt pid ppid tasks) i)
unfolding adopt
slot-adopt pid ppid [] i ne = tt
slot-adopt pid ppid (none ∷ ts) zero ne = tt
slot-adopt pid ppid (some t ∷ ts) zero ne = λ e. ground arith
slot-adopt pid ppid (none ∷ ts) (suc i) ne = slot-adopt pid ppid ts i ne
slot-adopt pid ppid (some t ∷ ts) (suc i) ne = slot-adopt pid ppid ts i ne

-- After the last loop of `sys_exit` no task is a child of the task that ends, whose own parent is
-- another.
adopt-ppid :
    (pid ppid : ℕ) (tasks : List (Option Task)) (i : ℕ) (t : Task)
    → pid ≢ ppid
    → slot (adopt pid ppid tasks) i ≡ some t
    → t.ppid ≢ pid
adopt-ppid pid ppid tasks i t ne e = subst (NoChildOf pid) e (slot-adopt pid ppid tasks i ne)

-- What the search finds is a child, in a slot from 2 on.
find_child-Child :
    (tasks : List (Option Task)) (pid i : ℕ) (c : Task)
    → find_child tasks pid i ≡ some c
    → (j : ℕ) × (slot tasks j ≡ some c) × (2 ≤ i + j) × (c.ppid ≡ pid)
unfolding find_child
find_child-Child [] pid i c e = cc
find_child-Child (none ∷ ts) pid i c e =
    let (j, f, b, p) = find_child-Child ts pid (i + 1) c e in (suc j, f, omega arith, p)
find_child-Child (some t ∷ ts) pid i c e = elim (Bool-cases (leb 2 i && t.ppid == pid)) [
  | inl hit ↦
      let same : t ≡ c = some_inj _ _ (sym (if_hit hit) ∙ e) in
      (0, ap some same, ground arith, ap (λ (x : Task). x.ppid) (sym same) ∙ ground arith)
  | inr miss ↦
      let (j, f, b, p) = find_child-Child ts pid (i + 1) c (sym (if_miss miss) ∙ e) in
      (suc j, f, omega arith, p)
]
  where
    if_hit :
        (leb 2 i && t.ppid == pid) ≡ true
        → (if leb 2 i && t.ppid == pid then some t else find_child ts pid (i + 1)) ≡ some t
    if_hit h = rw h

    if_miss :
        (leb 2 i && t.ppid == pid) ≡ false
        → (if leb 2 i && t.ppid == pid then some t else find_child ts pid (i + 1))
          ≡ find_child ts pid (i + 1)
    if_miss h = rw h

-- What it takes for a child to be collected.
pub record Collected (tasks : List (Option Task)) (c : Task) (child status : ℕ)
    (tasks' : List (Option Task)) : Type 0 where
  pub is_over : is_dead c.state ≡ true
  pub its_pid : c.pid ≡ child
  pub its_status : c.status ≡ status
  pub freed : tasks' ≡ set tasks child none

wait_for-Collected :
    (tasks : List (Option Task)) (t : Task) (pid : ℕ) (c : Task) (child status : ℕ)
    (tasks' : List (Option Task))
    → wait_for tasks t pid (some c) ≡ collected child status tasks'
    → Collected tasks c child status tasks'
unfolding wait_for
wait_for-Collected tasks t pid c child status tasks' e = elim (Bool-cases (is_dead c.state)) [
  | inl d ↦
      let h : collected c.pid c.status (set tasks c.pid none) ≡ collected child status tasks' =
        sym (if_dead d) ∙ e in
      record { is_over = d; its_pid = cc; its_status = cc; freed = cc }
  | inr d ↦
      let h : blocks (record t { waitpid = pid; state = waiting }) ≡ collected child status tasks' =
        sym (if_alive d) ∙ e in
      absurd (cc h)
]
  where
    if_dead :
        is_dead c.state ≡ true
        → wait_for tasks t pid (some c) ≡ collected c.pid c.status (set tasks c.pid none)
    if_dead d = rw d

    if_alive :
        is_dead c.state ≡ false
        → wait_for tasks t pid (some c) ≡ blocks (record t { waitpid = pid; state = waiting })
    if_alive d = rw d

-- Whatever `sys_waitpid` collects is a dead child of the caller, from slot 2 on; the caller gets its
-- pid and status, and the slot of that pid is free afterwards.
sys_waitpid-collected :
    (tasks : List (Option Task)) (t : Task) (pid child status : ℕ) (tasks' : List (Option Task))
    → sys_waitpid tasks t pid ≡ collected child status tasks'
    → (c : Task) × (j : ℕ) × (slot tasks j ≡ some c)
      × (2 ≤ j)
      × (c.ppid ≡ t.pid)
      × Collected tasks c child status tasks'
unfolding sys_waitpid wait_for
sys_waitpid-collected tasks t pid child status tasks' e =
    from_child (find_child tasks t.pid 0) refl e
  where
    from_child :
        (o : Option Task)
        → find_child tasks t.pid 0 ≡ o
        → wait_for tasks t pid o ≡ collected child status tasks'
        → (c : Task) × (j : ℕ) × (slot tasks j ≡ some c)
          × (2 ≤ j)
          × (c.ppid ≡ t.pid)
          × Collected tasks c child status tasks'
    from_child none f e = absurd (cc e)
    from_child (some c) f e =
        let (j, g, b, p) = find_child-Child tasks t.pid 0 c f in
        (c, j, g, omega arith, p, wait_for-Collected tasks t pid c child status tasks' e)
