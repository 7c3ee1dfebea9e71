-- ===== src/Tasks/Tick.antt =====
-- The clock interrupt and the task list.
use light_os.Base.{ℕ, ◌+◌, ◌-◌, ◌%◌, ◌^◌, ◌≡◌, ◌≢◌, some, set}
use light_os.Tasks.{Task, Kernel, slot, pick, task_nr}
use light_os.Tasks.Switch.{Switched}

-- The current task replaced by one with its pid and state.
abbrev put_current : Kernel → Task → (jiffies : ℕ) → Kernel
put_current k c jiffies = record {
  task_list = set k.task_list k.current (some c);
  current = k.current;
  jiffies = jiffies;
}

-- The current task has the number of ticks and the time, and every other slot is as before.
pub record Counted (k : Kernel) (now ticks : ℕ) (c : Task) (k' : Kernel) : Type 0 where
  pub current : k'.current ≡ k.current
  pub counted : slot k'.task_list k.current ≡ some (record c { jiffies = now; ticks = ticks })
  pub others : (i : ℕ) → k.current ≢ i → slot k'.task_list i ≡ slot k.task_list i

-- What a tick does: it counts down; or the count comes to 0, the task gets the ticks of its priority
-- again, and another task is chosen.
pub data Ticked (k : Kernel) (now : ℕ) (c : Task) (k' : Kernel) : Type 0 where
  counts :
      (c.ticks + 2 ^ 32 - 1) % 2 ^ 32 ≢ 0
      → Counted k now ((c.ticks + 2 ^ 32 - 1) % 2 ^ 32) c k'
      → Ticked k now c k'
  ends :
      {k1 : Kernel}
      → (c.ticks + 2 ^ 32 - 1) % 2 ^ 32 ≡ 0
      → Counted k now c.priority c k1
      → k'.current ≡ pick k1.task_list task_nr (c.pid + 1)
      → Switched k1 k'
      → Ticked k now c k'
