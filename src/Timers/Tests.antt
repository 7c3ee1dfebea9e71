-- ===== src/Timers/Tests.antt =====
-- Runs of src/kernel/timer.c.
use light_os.Timers.{Timer, timer_update, timer_wakeup}
use light_os.Timers.Order.{Sorted, awake, timer_update-Sorted, timer_wakeup-Woken}
use light_os.Base.{ℕ, ◌<◌, ◌≤◌, ◌≡◌, false, some, List, [], ◌∷◌, ◌++◌, map, All, arith}

abbrev timer : (id expires : ℕ) → Timer
timer id expires = record {
  id = id;
  task = 1;
  expires = expires;
  handler = 0;
  arg = 0;
  active = false;
}

abbrev three : List Timer
three = timer 8 10 ∷ timer 16 20 ∷ timer 24 20 ∷ []

three-Sorted : Sorted three
three-Sorted = ground arith

timer_update-Sorted_example :
    (before after : List Timer) × (timer_update three (timer 16 20) 15 10 100
      ≡ before ++ record (timer 16 20) { expires = 25 } ∷ after)
    × (before ++ after ≡ timer 8 10 ∷ timer 24 20 ∷ [])
    × Sorted (before ++ record (timer 16 20) { expires = 25 } ∷ after)
timer_update-Sorted_example =
    timer_update-Sorted (timer 8 10 ∷ []) (timer 24 20 ∷ []) (timer 16 20) 15 10 100 (omega arith)
      (omega arith, tt) three-Sorted

timer_wakeup-Woken_example :
    (woken rest : List Timer) × (timer_wakeup 4 three 15 ≡ some (map awake woken, rest))
    × (woken ++ rest ≡ three)
    × All (λ t. t.expires ≤ 15) woken
    × All (λ t. 15 < t.expires) rest
timer_wakeup-Woken_example = timer_wakeup-Woken 4 three 15 (omega arith) (omega arith) three-Sorted
