-- ===== src/Tasks/Schedule.antt =====
-- `schedule` goes round the tasks of src/kernel/task.c.
use light_os.Base.{
  ℕ, zero, suc, ◌+◌, ◌%◌, ◌<◌, ◌≡◌, ap, ◌∙◌, Bool, true, false, not, ◌&&◌, Option, List, ◌==◌,
  arith, inl, inr, Bool-cases,
}
use mathlib.Core.Path.{subst}
use light_os.Tasks.{Task, task_nr, slot, runs, pick}

-- whether `schedule` would take slot `i`
abbrev pub can_run : List (Option Task) → ℕ → Bool
can_run tasks i = not (i == 0) && runs (slot tasks i)

-- What the loop finds among `rounds` slots from `n` on, round the list.
pub data Picked (tasks : List (Option Task)) (rounds n : ℕ) : ℕ → Type 0 where
  idles :
      ((d : ℕ) → d < rounds → can_run tasks ((n + d) % task_nr) ≡ false) → Picked tasks rounds n 0
  takes :
      (d : ℕ)
      → d < rounds
      → can_run tasks ((n + d) % task_nr) ≡ true
      → ((e : ℕ) → e < d → can_run tasks ((n + e) % task_nr) ≡ false)
      → Picked tasks rounds n ((n + d) % task_nr)

Picked-suc :
    (tasks : List (Option Task)) (rounds n r : ℕ)
    → can_run tasks (n % task_nr) ≡ false
    → Picked tasks rounds (n % task_nr + 1) r
    → Picked tasks (suc rounds) n r
Picked-suc tasks rounds n r off (idles h) = idles λ d lt. later d lt
  where
    later : (d : ℕ) → d < suc rounds → can_run tasks ((n + d) % task_nr) ≡ false
    later zero lt = ap (can_run tasks) (omega arith) ∙ off
    later (suc d) lt = ap (can_run tasks) (omega arith) ∙ h d (omega arith)
Picked-suc tasks rounds n r off (takes d lt on h) =
    let e : (n + suc d) % task_nr ≡ (n % task_nr + 1 + d) % task_nr = omega arith in
    subst (Picked tasks (suc rounds) n) e
      (takes (suc d) (omega arith) (ap (can_run tasks) e ∙ on) λ j lt'. before j lt')
  where
    before : (j : ℕ) → j < suc d → can_run tasks ((n + j) % task_nr) ≡ false
    before zero lt' = ap (can_run tasks) (omega arith) ∙ off
    before (suc j) lt' = ap (can_run tasks) (omega arith) ∙ h j (omega arith)

-- From slot `n` on, round the list, the loop of `schedule` takes the first task that is ready and has
-- ticks left, whatever the order of the slots, and the idle task only if it meets none.
pub pick-Picked :
    (tasks : List (Option Task)) (rounds n : ℕ) → Picked tasks rounds n (pick tasks rounds n)
unfolding pick
pick-Picked tasks zero n = idles λ d lt. absurd (omega arith)
pick-Picked tasks (suc rounds) n = elim (Bool-cases (can_run tasks (n % task_nr))) [
  | inl on ↦
      let e : (n + 0) % task_nr ≡ n % task_nr = omega arith in
      rw on (
        subst (Picked tasks (suc rounds) n) e
          (takes 0 (omega arith) (ap (can_run tasks) e ∙ on) λ j lt. absurd (omega arith)))
  | inr off ↦ rw off (
      Picked-suc tasks rounds n (pick tasks rounds (n % task_nr + 1)) off
        (pick-Picked tasks rounds (n % task_nr + 1)))
]
