-- ===== src/Lock/Rwlock.antt =====
-- `rwlock_t`: the read and write sides, and that a writer is alone.
use light_os.Base.{
  ℕ, zero, suc, ◌+◌, ◌-◌, ◌%◌, ◌^◌, ◌<◌, ◌≤◌, ◌≡◌, ◌≢◌, refl, ap, List, some, length, get_elem?,
  set, replicate, length-set, length-replicate, arith, ◌⊎◌, inl,
}
use native.Mathlib.Decide.{ℕ_discrete}
use light_os.Lock.Pool.{total, total-set, le-total, le-total_two, total_gap, total-le-length}

-- `rwlock_t`
pub record Rwlock : Type 0 where
  pub writer : ℕ
  pub readers : ℕ

-- `rwlock_init`
unfoldable pub init : Rwlock
init = record { writer = 0; readers = 0 }

-- Where a thread stands in the code.
pub data Pc : Type 0 where
  idle : Pc  -- outside the lock's functions and of the regions that they guard
  r_try : Pc  -- `rwlock_read_lock`: before the compare-exchange
  r_count : Pc  -- before `readers++`
  r_leave : Pc  -- before the decrement of `writer`
  reading : Pc  -- between `rwlock_read_lock` and the decrement of `rwlock_read_unlock`
  w_try : Pc  -- `rwlock_write_lock`: before the compare-exchange
  w_wait : Pc  -- `while (lock->readers != 0);`
  writing : Pc  -- between `rwlock_write_lock` and the store of `rwlock_write_unlock`

-- One instruction of one thread. The locked instructions work on 32 bits; a decrement of 0 wraps.
pub data Move (l : Rwlock) : Pc → Rwlock → Pc → Type 0 where
  read_lock : Move l idle l r_try
  r_cas_win : l.writer ≡ 0 → Move l r_try (record l { writer = 1 }) r_count
  r_cas_lose : l.writer ≢ 0 → Move l r_try l r_try
  r_inc : Move l r_count (record l { readers = (l.readers + 1) % 2 ^ 32 }) r_leave
  r_dec : Move l r_leave (record l { writer = (l.writer + 2 ^ 32 - 1) % 2 ^ 32 }) reading
  read_unlock : Move l reading (record l { readers = (l.readers + 2 ^ 32 - 1) % 2 ^ 32 }) idle
  write_lock : Move l idle l w_try
  w_cas_win : l.writer ≡ 0 → Move l w_try (record l { writer = 1 }) w_wait
  w_cas_lose : l.writer ≢ 0 → Move l w_try l w_try
  w_spin : l.readers ≢ 0 → Move l w_wait l w_wait
  w_enter : l.readers ≡ 0 → Move l w_wait l writing
  write_unlock : Move l writing (record l { writer = 0 }) idle

pub record System : Type 0 where
  pub lock : Rwlock
  pub pcs : List Pc

-- Any thread may go on.
pub data Step (s : System) : System → Type 0 where
  pick :
      (i : ℕ) {p q : Pc} {l : Rwlock}
      → get_elem? s.pcs i ≡ some p
      → Move s.lock p l q
      → Step s (record { lock = l; pcs = set s.pcs i q })

-- The states that `n` threads can get to.
pub data Reach (n : ℕ) : System → Type 0 where
  start : Reach n (record { lock = init; pcs = replicate n idle })
  later : {s t : System} → Reach n s → Step s t → Reach n t

-- who holds `writer`, whom `readers` counts, and who writes
abbrev pub holds : Pc → ℕ
holds r_count = 1
holds r_leave = 1
holds w_wait = 1
holds writing = 1
holds _ = 0

abbrev pub counted : Pc → ℕ
counted r_leave = 1
counted reading = 1
counted _ = 0

abbrev pub writes : Pc → ℕ
writes writing = 1
writes _ = 0

pub record Inv (n : ℕ) (s : System) : Type 0 where
  pub threads : length s.pcs ≡ n
  pub held : s.lock.writer ≡ total holds s.pcs
  pub one : total holds s.pcs ≤ 1
  pub read : s.lock.readers ≡ total counted s.pcs
  pub alone : (total writes s.pcs ≡ 0) ⊎ (total counted s.pcs ≡ 0)

module _ {n : ℕ} {s : System} (small : n < 2 ^ 32) (inv : Inv n s) where
  open inv use {threads, held, one, read, alone}

  -- What a move of thread `i` from `p` to `q` does to the three sums.
  record Moved (p q : Pc) (pcs : List Pc) : Type 0 where
    holders : total holds pcs + holds p ≡ total holds s.pcs + holds q
    readers : total counted pcs + counted p ≡ total counted s.pcs + counted q
    writers : total writes pcs + writes p ≡ total writes s.pcs + writes q
    holder : holds p ≤ total holds s.pcs
    reader : counted p ≤ total counted s.pcs
    writer_holds : total writes s.pcs + holds p ≤ total holds s.pcs + writes p
    few : total counted pcs ≤ n
    size : length pcs ≡ n

  writes-le-holds : (p : Pc) → writes p ≤ holds p
  writes-le-holds p = ground arith

  counted-le-one : (p : Pc) → counted p ≤ 1
  counted-le-one p = ground arith

  moved : (i : ℕ) (p q : Pc) → get_elem? s.pcs i ≡ some p → Moved p q (set s.pcs i q)
  moved i p q e = record {
    holders = total-set holds s.pcs i p q e;
    readers = total-set counted s.pcs i p q e;
    writers = total-set writes s.pcs i p q e;
    holder = le-total holds s.pcs i p e;
    reader = le-total counted s.pcs i p e;
    writer_holds = total_gap writes holds s.pcs i p writes-le-holds e;
    few = omega (
      arith,
      total-le-length counted (set s.pcs i q) counted-le-one,
      length-set s.pcs i q,
      threads,
    );
    size = omega (arith, length-set s.pcs i q, threads);
  }

  Move-Inv :
      {p q : Pc} {l : Rwlock} {pcs : List Pc}
      → Move s.lock p l q
      → Moved p q pcs
      → Inv n (record { lock = l; pcs = pcs })
  Move-Inv read_lock m = ground arith
  Move-Inv (r_cas_win e) m = ground arith
  Move-Inv (r_cas_lose e) m = ground arith
  Move-Inv r_inc m = ground arith
  Move-Inv r_dec m = ground arith
  Move-Inv read_unlock m = ground arith
  Move-Inv write_lock m = ground arith
  Move-Inv (w_cas_win e) m = ground arith
  Move-Inv (w_cas_lose e) m = ground arith
  Move-Inv (w_spin e) m = ground arith
  Move-Inv (w_enter e) m = ground arith
  Move-Inv write_unlock m = ground arith

total-idle : (w : Pc → ℕ) (n : ℕ) → w idle ≡ 0 → total w (replicate n idle) ≡ 0
unfolding total
total-idle w zero e = refl
total-idle w (suc n) e = omega (arith, total-idle w n e)

Step-Inv : {n : ℕ} {s t : System} → n < 2 ^ 32 → Step s t → Inv n s → Inv n t
Step-Inv small (pick i {p} {q} e mv) inv = Move-Inv small inv mv (moved small inv i p q e)

-- The invariant holds in every state that fewer than 2 ^ 32 threads can get to: `writer` and
-- `readers` count their holders, at most one thread holds `writer`, and no reader is counted while
-- a thread writes.
pub Reach-Inv : {n : ℕ} {s : System} → n < 2 ^ 32 → Reach n s → Inv n s
unfolding init
Reach-Inv {n} small start = record {
  threads = length-replicate n idle;
  held = omega (arith, total-idle holds n refl);
  one = omega (arith, total-idle holds n refl);
  read = omega (arith, total-idle counted n refl);
  alone = inl (total-idle writes n refl);
}
Reach-Inv small (later r st) = Step-Inv small st (Reach-Inv small r)

-- While a thread writes, no other thread reads or writes.
pub writer_alone :
    {n : ℕ} {s : System}
    → n < 2 ^ 32
    → Reach n s
    → (i j : ℕ) (p : Pc) → get_elem? s.pcs i ≡ some writing
    → get_elem? s.pcs j ≡ some p
    → i ≢ j
    → (p ≢ writing) × (p ≢ reading)
writer_alone {s} small r i j p e f ne = (
  λ eq. ground (arith, le-total_two holds s.pcs i j writing p e f ne, (Reach-Inv small r).one),
  λ eq. ground (
    arith,
    le-total counted s.pcs j p f,
    le-total writes s.pcs i writing e,
    (Reach-Inv small r).alone,
  ),
)

-- The words of the lock count every thread that is still to decrement them, so that no decrement
-- wraps: a thread that holds `writer` finds it positive, and one that is counted finds `readers`
-- positive.
pub no_wrap :
    {n : ℕ} {s : System}
    → n < 2 ^ 32
    → Reach n s
    → (i : ℕ) (p : Pc) → get_elem? s.pcs i ≡ some p
    → (holds p ≤ s.lock.writer) × (counted p ≤ s.lock.readers)
no_wrap {s} small r i p e = (
  omega (arith, le-total holds s.pcs i p e, (Reach-Inv small r).held),
  omega (arith, le-total counted s.pcs i p e, (Reach-Inv small r).read),
)

module _ {n : ℕ} {s : System} (inv : Inv n s) (i : ℕ) (e : get_elem? s.pcs i ≡ some w_wait) where
  -- No thread is about to count itself in.
  none_counts : (j : ℕ) → get_elem? s.pcs j ≢ some r_count
  none_counts j f = elim (ℕ_discrete i j) [
    | yes eq ↦ cc (ap (get_elem? s.pcs) eq)
    | no ne ↦ absurd (omega (arith, le-total_two holds s.pcs i j w_wait r_count e f ne, inv.one))
  ]

  Move-readers :
      (j : ℕ) {p q : Pc} {l : Rwlock}
      → Move s.lock p l q
      → get_elem? s.pcs j ≡ some p
      → l.readers ≤ s.lock.readers
  Move-readers j read_lock f = ground arith
  Move-readers j r_inc f = absurd (none_counts j f)
  Move-readers j read_unlock f = ground (arith, le-total counted s.pcs j reading f, inv.read)
  Move-readers j _ f = ground arith

-- While a writer waits for the readers to leave, no step of any thread adds to `readers`: newcomers
-- cannot keep it waiting.
no_newcomer :
    {n : ℕ} {s t : System}
    → n < 2 ^ 32
    → Reach n s
    → (i : ℕ) → get_elem? s.pcs i ≡ some w_wait
    → Step s t
    → t.lock.readers ≤ s.lock.readers
no_newcomer small r i e (pick j f mv) = Move-readers (Reach-Inv small r) i e j mv f
