-- ===== src/Tasks/Tests.antt =====
-- The theorems on tasks, at a kernel with the idle task and two others.
use light_os.Base.{
  ℕ, zero, suc, ◌+◌, ◌≡◌, refl, sym, ap, true, Option, none, some, List, [], ◌∷◌, replicate, arith,
  inl, get_or-replicate, some_inj,
}
use light_os.Tasks.{
  State, ready, running, dead, waiting, is_running, Task, Kernel, task_nr, slot, pick, schedule,
  IsValid,
}
use light_os.Tasks.Switch.{Switched, schedule-IsValid}
use light_os.Tasks.Process.{adopt, sys_waitpid, wait_for, find_child, collected}

abbrev task : State → (pid ticks : ℕ) → Task
task state pid ticks = record {
  state = state;
  priority = 5;
  ticks = ticks;
  jiffies = 0;
  uid = 1000;
  pid = pid;
  ppid = 1;
  pgid = 0;
  sid = 0;
  status = 7;
  waitpid = 0;
  signal = 0b1000_0010;
  blocked_signals = 0b10;
  actions = [];
}

-- task 1 runs, and task 2 is ready
abbrev three : List (Option Task)
three = some (task ready 0 1) ∷ some (task running 1 1) ∷ some (task ready 2 3) ∷ replicate 61 none

abbrev kernel : Kernel
kernel = record { task_list = three; current = 1; jiffies = 40 }

empty_slot : (i : ℕ) (t : Task) → slot (replicate 61 none) i ≡ some t → ⊥
empty_slot i t e = cc (get_or-replicate {A = Option Task} 61 i none, e)

kernel-pids : (i : ℕ) (t : Task) → slot three i ≡ some t → t.pid ≡ i
kernel-pids zero t e = ap (λ (x : Task). x.pid) (sym (some_inj _ _ e))
kernel-pids (suc zero) t e = ap (λ (x : Task). x.pid) (sym (some_inj _ _ e))
kernel-pids (suc (suc zero)) t e = ap (λ (x : Task). x.pid) (sym (some_inj _ _ e))
kernel-pids (suc (suc (suc i))) t e = absurd (empty_slot i t e)

kernel-alone : (i : ℕ) (t : Task) → slot three i ≡ some t → is_running t.state ≡ true → i ≡ 1
kernel-alone zero t e r = absurd (cc (ap (λ (x : Task). is_running x.state) (some_inj _ _ e), r))
kernel-alone (suc zero) t e r = refl
kernel-alone (suc (suc zero)) t e r =
    absurd (cc (ap (λ (x : Task). is_running x.state) (some_inj _ _ e), r))
kernel-alone (suc (suc (suc i))) t e r = absurd (empty_slot i t e)

kernel-IsValid : IsValid kernel
kernel-IsValid = record {
  size = refl;
  current_in = omega arith;
  pids = kernel-pids;
  alone = kernel-alone;
  present = (task running 1 1, refl);
  idle = (task ready 0 1, refl, inl refl);
}

schedule-IsValid_example :
    (k' : Kernel) × (schedule kernel ≡ some k')
    × IsValid k'
    × (k'.current ≡ pick three task_nr (1 + 1))
    × Switched kernel k'
schedule-IsValid_example = schedule-IsValid kernel (task running 1 1) kernel-IsValid refl

-- task 3 is a child of task 2, which ends
abbrev child : Task
child = record (task waiting 3 1) { ppid = 2 }

abbrev family : List (Option Task)
family = some (task ready 2 1) ∷ some child ∷ []

adopted_child : slot (adopt 2 1 family) 1 ≡ some (record child { ppid = 1 })
unfolding adopt
adopted_child = refl

-- task 1 collects task 2, which has ended
abbrev ended : List (Option Task)
ended = none ∷ some (task running 1 1) ∷ some (task dead 2 0) ∷ []

two_collected :
    sys_waitpid ended (task running 1 1) 2
    ≡ collected 2 7 (none ∷ some (task running 1 1) ∷ none ∷ [])
unfolding sys_waitpid wait_for find_child
two_collected = refl
