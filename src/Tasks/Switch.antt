-- ===== src/Tasks/Switch.antt =====
-- What a switch of tasks keeps, in src/kernel/task.c and src/kernel/schedule.c.
use light_os.Base.{
  ℕ, ◌+◌, ◌<◌, ◌≡◌, ◌≢◌, refl, sym, ap, ◌∙◌, Bool, true, false, Option, none, some, set, ◌==◌,
  if◌then◌else◌, arith, ◌⊎◌, inl, inr, Bool-cases, lt→ltb, ==_refl, ==_ne, length-set, get_or-set,
  some_inj,
}
use mathlib.Core.Path.{subst}
use native.Mathlib.Decide.{ℕ_discrete}
use light_os.Tasks.{
  State, ready, running, is_ready, is_running, Task, Kernel, task_nr, slot, runs, pick, stopped,
  start, leave, switch_to, schedule, IsValid,
}
use light_os.Tasks.Schedule.{Picked, idles, takes, pick-Picked}

is_ready_running : (s : State) → is_ready s ≡ true → is_running s ≡ true → ⊥
is_ready_running s p q = ground arith

stopped-not_running : (c : Task) → is_running (stopped c).state ≡ false
stopped-not_running c = elim (Bool-cases (is_running c.state)) [
  | inl e ↦ ap (λ (t : Task). is_running t.state) (stopped_if c true e)
  | inr e ↦ ap (λ (t : Task). is_running t.state) (stopped_if c false e) ∙ e
]
  where
    stopped_if :
        (c : Task) (b : Bool)
        → is_running c.state ≡ b
        → stopped c ≡ (if b then record c { state = ready } else c)
    stopped_if c b e = rw e

stopped-pid : (c : Task) → (stopped c).pid ≡ c.pid
stopped-pid c = ground arith

stopped-ready : (c : Task) → is_running c.state ≡ true → is_ready (stopped c).state ≡ true
stopped-ready c e =
    let h : stopped c ≡ record c { state = ready } = rw e in ap (λ (t : Task). is_ready t.state) h

stopped-same : (c : Task) → is_ready c.state ≡ true → is_ready (stopped c).state ≡ true
stopped-same c e = ground arith

-- the task that `switch_to` starts
abbrev started : Kernel → Task → Task
started k t = record t { state = running; jiffies = k.jiffies }

-- the state after a switch from `c` to the task `t` of slot `n`
abbrev pub switched : Kernel → (n : ℕ) → (c t : Task) → Kernel
switched k n c t = record {
  task_list = set (set k.task_list k.current (some (stopped c))) n (some (started k t));
  current = n;
  jiffies = k.jiffies;
}

module _ {k : Kernel} (v : IsValid k) {n : ℕ} {c t : Task} (lt : n < task_nr) (ne : k.current ≢ n)
    (here : slot k.task_list k.current ≡ some c) (there : slot k.task_list n ≡ some t)
    (can : is_ready t.state ≡ true) where
  slot-switched :
      (i : ℕ)
      → slot (switched k n c t).task_list i ≡ (
          if n == i
          then some (started k t)
          else if k.current == i
          then some (stopped c)
          else slot k.task_list i)
  slot-switched i =
      get_or-set (set k.task_list k.current (some (stopped c))) n i (some (started k t)) none
        (omega (arith, length-set k.task_list k.current (some (stopped c)), v.size))
      ∙ ap (λ o. if n == i then some (started k t) else o)
          (get_or-set k.task_list k.current i (some (stopped c)) none
            (omega (arith, v.current_in, v.size)))

  slot-new : slot (switched k n c t).task_list n ≡ some (started k t)
  slot-new = slot-switched n ∙ rw (==_refl n)

  slot-old : slot (switched k n c t).task_list k.current ≡ some (stopped c)
  slot-old = slot-switched k.current ∙ rw (==_ne n k.current (λ e. ne (sym e)), ==_refl k.current)

  slot-other :
      (i : ℕ) → n ≢ i → k.current ≢ i → slot (switched k n c t).task_list i ≡ slot k.task_list i
  slot-other i p q = slot-switched i ∙ rw (==_ne n i p, ==_ne k.current i q)

  -- What holds of the new task, of the old one, and of every other, holds of each slot.
  slot-ind {ℓ} :
      (P : ℕ → Option Task → Type ℓ)
      → P n (some (started k t))
      → P k.current (some (stopped c))
      → ((i : ℕ) → n ≢ i → k.current ≢ i → P i (slot k.task_list i))
      → (i : ℕ) → P i (slot (switched k n c t).task_list i)
  slot-ind P new old other i = elim (ℕ_discrete n i) [
    | yes e ↦
        subst (λ j. P j (slot (switched k n c t).task_list j)) e (subst (P n) (sym slot-new) new)
    | no p ↦ elim (ℕ_discrete k.current i) [
      | yes e ↦
          subst (λ j. P j (slot (switched k n c t).task_list j)) e
            (subst (P k.current) (sym slot-old) old)
      | no q ↦ subst (P i) (sym (slot-other i p q)) (other i p q)
    ]
  ]

  idle_ready : (u : Task) → slot k.task_list 0 ≡ some u → k.current ≢ 0 → is_ready u.state ≡ true
  idle_ready u e q =
      let (w, f, h) = v.idle in
      let same : is_ready w.state ≡ is_ready u.state =
        ap (λ (x : Task). is_ready x.state) (some_inj _ _ (sym f ∙ e)) in
      elim h [ inl r ↦ sym same ∙ r | inr r ↦ absurd (q r.1) ]

  idle_stopped : k.current ≡ 0 → is_ready (stopped c).state ≡ true
  idle_stopped z =
      let (w, f, h) = v.idle in
      let same : w ≡ c = some_inj _ _ (sym f ∙ ap (slot k.task_list) (sym z) ∙ here) in
      elim h [
        | inl r ↦ stopped-same c (ap (λ (x : Task). is_ready x.state) (sym same) ∙ r)
        | inr r ↦ stopped-ready c (ap (λ (x : Task). is_running x.state) (sym same) ∙ r.0)
      ]

  idle_after :
      (u : Task) × (slot (switched k n c t).task_list 0 ≡ some u)
      × ((is_ready u.state ≡ true) ⊎ ((is_running u.state ≡ true) × (n ≡ 0)))
  idle_after = elim (ℕ_discrete n 0) [
    | yes e ↦
        (started k t, ap (slot (switched k n c t).task_list) (sym e) ∙ slot-new, inr (refl, e))
    | no p ↦ elim (ℕ_discrete k.current 0) [
      | yes z ↦ (
        stopped c,
        ap (slot (switched k n c t).task_list) (sym z) ∙ slot-old,
        inl (idle_stopped z),
      )
      | no q ↦ let (w, f, h) = v.idle in (w, slot-other 0 p q ∙ f, inl (idle_ready w f q))
    ]
  ]

  -- A switch to a task that is ready keeps the task list consistent.
  switched-IsValid : IsValid (switched k n c t)
  switched-IsValid = record {
    size =
        length-set (set k.task_list k.current (some (stopped c))) n (some (started k t))
        ∙ length-set k.task_list k.current (some (stopped c))
        ∙ v.size;
    current_in = lt;
    pids =
        slot-ind (λ i o. (u : Task) → o ≡ some u → u.pid ≡ i)
          (λ u e. sym (ap (λ (x : Task). x.pid) (some_inj _ _ e)) ∙ v.pids n t there)
          (λ u e.
            sym (ap (λ (x : Task). x.pid) (some_inj _ _ e))
            ∙ stopped-pid c
            ∙ v.pids k.current c here)
          (λ i p q u e. v.pids i u e);
    alone =
        slot-ind (λ i o. (u : Task) → o ≡ some u → is_running u.state ≡ true → i ≡ n)
          (λ u e r. refl)
          (λ u e r.
            absurd (
              cc
                (ap (λ (x : Task). is_running x.state) (some_inj _ _ e), stopped-not_running c, r)))
          (λ i p q u e r. absurd (q (sym (v.alone i u e r))));
    present = (started k t, slot-new);
    idle = idle_after;
  }

  switch_to-switched : switch_to k n ≡ some (switched k n c t)
  unfolding switch_to leave start
  switch_to-switched =
      let old : slot (set k.task_list k.current (some (stopped c))) n ≡ some t =
        get_or-set k.task_list k.current n (some (stopped c)) none
          (omega (arith, v.current_in, v.size))
        ∙ rw (==_ne k.current n ne) there in
      rw (lt→ltb n task_nr lt, there, here, ==_ne k.current n ne, old, can)

-- The slot that `schedule` chooses holds a task that is ready, unless it is the current one.
chosen_ready :
    {k : Kernel} (v : IsValid k) (m n : ℕ)
    → Picked k.task_list task_nr m n
    → k.current ≢ n
    → (n < task_nr) × ((t : Task) × (slot k.task_list n ≡ some t) × (is_ready t.state ≡ true))
chosen_ready v m n (idles h) ne =
    let (w, f, h) = v.idle in (omega arith, (w, f, elim h [ inl r ↦ r | inr r ↦ absurd (ne r.1) ]))
chosen_ready {k} v m n (takes d lt on h) ne =
    (omega arith, runs_task (slot k.task_list n) (ground arith))
  where
    runs_task :
        (o : Option Task) → runs o ≡ true → (t : Task) × (o ≡ some t) × (is_ready t.state ≡ true)
    runs_task none e = cc
    runs_task (some t) e = (t, refl, ground arith)

switch_to-same :
    {k : Kernel} {c : Task}
    → IsValid k
    → slot k.task_list k.current ≡ some c
    → switch_to k k.current ≡ some k
unfolding switch_to
switch_to-same {k} v here = rw (lt→ltb k.current task_nr v.current_in, here, ==_refl k.current)

schedule_step :
    (k k' : Kernel) (c : Task) (n : ℕ)
    → slot k.task_list k.current ≡ some c
    → pick k.task_list task_nr (c.pid + 1) ≡ n
    → switch_to k n ≡ some k'
    → schedule k ≡ some k'
unfolding schedule
schedule_step k k' c n here e run = rw (here, e, run)

-- What a switch does to the slots: nothing, if the current task stays; or the old task stops, the new
-- one starts, and every other slot is as before.
pub data Switched (k k' : Kernel) : Type 0 where
  stays : k'.task_list ≡ k.task_list → k'.current ≡ k.current → Switched k k'
  switches :
      {c t : Task} {n : ℕ}
      → k'.current ≡ n
      → slot k.task_list k.current ≡ some c
      → slot k.task_list n ≡ some t
      → slot k'.task_list k.current ≡ some (stopped c)
      → slot k'.task_list n ≡ some (record t { state = running; jiffies = k.jiffies })
      → ((i : ℕ) → n ≢ i → k.current ≢ i → slot k'.task_list i ≡ slot k.task_list i)
      → Switched k k'

-- On a consistent task list `schedule` meets no assertion: the task that the search of `pick` gives
-- becomes the current one, every slot but its own and that of the task that stops is as before, and the list is consistent again, with no
-- task but the current one running.
pub schedule-IsValid :
    (k : Kernel) (c : Task)
    → IsValid k
    → slot k.task_list k.current ≡ some c
    → (k' : Kernel) × (schedule k ≡ some k')
      × IsValid k'
      × (k'.current ≡ pick k.task_list task_nr (c.pid + 1))
      × Switched k k'
schedule-IsValid k c v here =
    let n = pick k.task_list task_nr (c.pid + 1) in
    elim (ℕ_discrete k.current n) [
      | yes e ↦ (
        k,
        schedule_step k k c k.current here (sym e) (switch_to-same v here),
        v,
        e,
        stays refl refl,
      )
      | no ne ↦
          let (lt, (t, there, can)) =
            chosen_ready v (c.pid + 1) n (pick-Picked k.task_list task_nr (c.pid + 1)) ne in
          (
            switched k n c t,
            schedule_step k (switched k n c t) c n here refl
                (switch_to-switched v lt ne here there can),
            switched-IsValid v lt ne here there can,
            refl,
            switches refl here there (slot-old v lt ne here there can)
                (slot-new v lt ne here there can) (slot-other v lt ne here there can),
          )
    ]
