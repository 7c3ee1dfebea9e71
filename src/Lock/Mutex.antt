-- ===== src/Lock/Mutex.antt =====
-- `mutex_t`: one holder at a time, and a queue of blocked tasks that is exactly the blocked tasks.
use native.Mathlib.Decide.{ℕ_discrete}
use light_os.Base.{
  ℕ, zero, suc, ◌+◌, ◌-◌, ◌%◌, ◌^◌, ◌<◌, ◌≤◌, ◌≡◌, ◌≢◌, refl, ap, List, [], ◌∷◌, ◌++◌, some, none,
  Option, length, get_elem?, set, replicate, get_elem?-set, arith, ◌==◌, if◌then◌else◌, ==_refl,
}
use light_os.Lock.Pool.{total, total-set, le-total, le-total_two}

-- Where a task stands in the code.
pub data Pc : Type 0 where
  idle : Pc  -- outside `mutex_lock`, `mutex_unlock` and the region between
  trying : Pc  -- `mutex_lock`: before the compare-exchange
  failed : Pc  -- the compare-exchange failed, before the insertion of `task_block`
  blocked : Pc  -- in the list `waiters`, not scheduled
  holding : Pc  -- between `mutex_lock` and the decrement of `mutex_unlock`
  waking : Pc  -- `value` is decremented, before `task_unblock`

-- `mutex_t` with its tasks; `waiters` holds their numbers, the next one to wake first.
pub record System : Type 0 where
  pub value : ℕ
  pub waiters : List ℕ
  pub pcs : List Pc

-- `mutex_init`
unfoldable pub init : ℕ → System
init n = record { value = 0; waiters = []; pcs = replicate n idle }

abbrev pub go : System → ℕ → Pc → List Pc
go s i p = set s.pcs i p

abbrev pub At : System → ℕ → Pc → Type 0
At s i p = get_elem? s.pcs i ≡ some p

-- One uninterrupted stretch of one task. `task_block` and `task_unblock` work on the list with the
-- interrupts off; a task that `task_unblock` takes from the list goes back to the compare-exchange.
pub data Step (s : System) : System → Type 0 where
  lock : (i : ℕ) → At s i idle → Step s (record s { pcs = go s i trying })
  cas_win :
      (i : ℕ) → At s i trying → s.value ≡ 0 → Step s (record s { value = 1; pcs = go s i holding })
  cas_lose : (i : ℕ) → At s i trying → s.value ≢ 0 → Step s (record s { pcs = go s i failed })
  block :
      (i : ℕ)
      → At s i failed
      → Step s (record s { waiters = s.waiters ++ i ∷ []; pcs = go s i blocked })
  unlock :
      (i : ℕ)
      → At s i holding
      → Step s (record s { value = (s.value + 2 ^ 32 - 1) % 2 ^ 32; pcs = go s i waking })
  wake_none : (i : ℕ) → At s i waking → s.waiters ≡ [] → Step s (record s { pcs = go s i idle })
  wake :
      (i j : ℕ) (rest : List ℕ)
      → At s i waking
      → s.waiters ≡ j ∷ rest
      → Step s (record s { waiters = rest; pcs = set (go s i idle) j trying })

pub data Reach (n : ℕ) : System → Type 0 where
  start : Reach n (init n)
  later : {s t : System} → Reach n s → Step s t → Reach n t

abbrev pub holds : Pc → ℕ
holds holding = 1
holds _ = 0

abbrev pub is_blocked : Option Pc → ℕ
is_blocked (some blocked) = 1
is_blocked _ = 0

-- how often a task stands in the list
abbrev pub occurs : ℕ → List ℕ → ℕ
occurs j [] = 0
occurs j (i ∷ is) = (if i == j then 1 else 0) + occurs j is

pub record Inv (s : System) : Type 0 where
  pub held : s.value ≡ total holds s.pcs
  pub one : s.value ≤ 1
  pub listed : (j : ℕ) → occurs j s.waiters ≡ is_blocked (get_elem? s.pcs j)

occurs-append : (j : ℕ) (is js : List ℕ) → occurs j (is ++ js) ≡ occurs j is + occurs j js
occurs-append j [] js = omega arith
occurs-append j (i ∷ is) js = omega (arith, occurs-append j is js)

lt_of_at : {A : Type 0} (xs : List A) (i : ℕ) (p : A) → get_elem? xs i ≡ some p → i < length xs
lt_of_at [] i p e = cc
lt_of_at (x ∷ xs) zero p e = omega arith
lt_of_at (x ∷ xs) (suc i) p e = omega (arith, lt_of_at xs i p e)

get-go :
    (s : System) (i j : ℕ) (p q : Pc)
    → At s i p
    → get_elem? (go s i q) j ≡ (if i == j then some q else get_elem? s.pcs j)
get-go s i j p q e = get_elem?-set s.pcs i j q (lt_of_at s.pcs i p e)

-- A task that is listed is blocked.
at_of_occurs : (o : Option Pc) → is_blocked o ≢ 0 → o ≡ some blocked
at_of_occurs none h = absurd (h refl)
at_of_occurs (some p) h = ground arith

module _ {s : System} (inv : Inv s) (j : ℕ) {rest : List ℕ} (w : s.waiters ≡ j ∷ rest) where
  occurs-rest : (k : ℕ) → occurs k s.waiters ≡ (if j == k then 1 else 0) + occurs k rest
  occurs-rest k = ap (occurs k) w

  -- The task that `task_unblock` takes from the list is blocked.
  first_blocked : At s j blocked
  first_blocked =
      at_of_occurs (get_elem? s.pcs j)
        λ none_there. ground (arith, inv.listed j, occurs-rest j, ==_refl j)

Step-Inv : {s t : System} → Step s t → Inv s → Inv t
Step-Inv {s} (lock i e) inv = record {
  held = omega (arith, total-set holds s.pcs i idle trying e, inv.held);
  one = inv.one;
  listed = λ j. ground (arith, get-go s i j idle trying e, inv.listed j);
}
Step-Inv {s} (cas_win i e free) inv = record {
  held = omega (arith, total-set holds s.pcs i trying holding e, inv.held);
  one = omega arith;
  listed = λ j. ground (arith, get-go s i j trying holding e, inv.listed j);
}
Step-Inv {s} (cas_lose i e busy) inv = record {
  held = omega (arith, total-set holds s.pcs i trying failed e, inv.held);
  one = inv.one;
  listed = λ j. ground (arith, get-go s i j trying failed e, inv.listed j);
}
Step-Inv {s} (block i e) inv = record {
  held = omega (arith, total-set holds s.pcs i failed blocked e, inv.held);
  one = inv.one;
  listed = λ j.
      ground
        (arith, get-go s i j failed blocked e, inv.listed j, occurs-append j s.waiters (i ∷ []));
}
Step-Inv {s} (unlock i e) inv = record {
  held = omega (
    arith,
    total-set holds s.pcs i holding waking e,
    le-total holds s.pcs i holding e,
    inv.held,
    inv.one,
  );
  one = omega (arith, le-total holds s.pcs i holding e, inv.held, inv.one);
  listed = λ j. ground (arith, get-go s i j holding waking e, inv.listed j);
}
Step-Inv {s} (wake_none i e w) inv = record {
  held = omega (arith, total-set holds s.pcs i waking idle e, inv.held);
  one = inv.one;
  listed = λ j. ground (arith, get-go s i j waking idle e, inv.listed j);
}
Step-Inv {s} (wake i j rest e w) inv =
    let at_j = first_blocked inv j w in
    let here : At (record s { pcs = go s i idle }) j blocked =
      ground (arith, get-go s i j waking idle e) in
    let s' = record s { pcs = go s i idle } in
    record {
      held = omega (
        arith,
        total-set holds s.pcs i waking idle e,
        total-set holds (go s i idle) j blocked trying here,
        inv.held,
      );
      one = inv.one;
      listed = λ k. ground (
        arith,
        get-go s i k waking idle e,
        get-go s' j k blocked trying here,
        inv.listed k,
        occurs-rest inv j w k,
      );
    }

total-idle : (n : ℕ) → total holds (replicate n idle) ≡ 0
unfolding total
total-idle zero = refl
total-idle (suc n) = omega (arith, total-idle n)

idle-is_blocked : (n j : ℕ) → is_blocked (get_elem? (replicate n idle) j) ≡ 0
idle-is_blocked zero j = refl
idle-is_blocked (suc n) zero = refl
idle-is_blocked (suc n) (suc j) = idle-is_blocked n j

-- In every state that the tasks can get to, `value` is the number of holders, at most one, and the
-- list `waiters` holds each blocked task once and no other task.
pub Reach-Inv : {n : ℕ} {s : System} → Reach n s → Inv s
unfolding init
Reach-Inv {n} start = record {
  held = omega (arith, total-idle n);
  one = omega arith;
  listed = λ j. omega (arith, idle-is_blocked n j);
}
Reach-Inv (later r st) = Step-Inv st (Reach-Inv r)

-- Two tasks never stand between `mutex_lock` and `mutex_unlock` together.
pub mutual_exclusion :
    {n : ℕ} {s : System} → Reach n s → (i j : ℕ) → At s i holding → At s j holding → i ≡ j
mutual_exclusion {s} r i j e f = elim (ℕ_discrete i j) [
  | yes eq ↦ eq
  | no ne ↦ absurd (
      omega (
        arith,
        le-total_two holds s.pcs i j holding holding e f ne,
        (Reach-Inv r).held,
        (Reach-Inv r).one,
      ))
]

-- `task_block` meets a task that is not in the list, as `list_pushback` asserts.
failed_unlisted :
    {n : ℕ} {s : System} → Reach n s → (i : ℕ) → At s i failed → occurs i s.waiters ≡ 0
failed_unlisted r i e = ground (arith, (Reach-Inv r).listed i)

-- The task that `task_unblock` takes from the list is blocked.
woken_blocked :
    {n : ℕ} {s : System}
    → Reach n s
    → (j : ℕ) (rest : List ℕ) → s.waiters ≡ j ∷ rest
    → At s j blocked
woken_blocked r j rest w = first_blocked (Reach-Inv r) j w
