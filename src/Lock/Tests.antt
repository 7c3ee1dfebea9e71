-- ===== src/Lock/Tests.antt =====
-- The theorems on the locks, at runs of two and three threads.
use light_os.Base.{ℕ, ◌≤◌, ◌≡◌, ◌≢◌, refl, [], ◌∷◌, arith}
use light_os.Lock.Rwlock
use light_os.Lock.Rwlock.{
  r_try, r_count, r_leave, reading, w_try, w_wait, writing, idle, pick, writer_alone, no_wrap,
}
use light_os.Lock.Mutex
use light_os.Lock.Mutex.{mutual_exclusion}

-- thread 0 reads, and thread 1 waits to write
abbrev rw_waiting : Rwlock.System
rw_waiting = record { lock = record { writer = 1; readers = 1 }; pcs = reading ∷ w_wait ∷ [] }

rw_waiting-Reach : Rwlock.Reach 2 rw_waiting
unfolding Rwlock.init
rw_waiting-Reach =
    Rwlock.later
      (Rwlock.later
        (Rwlock.later
          (Rwlock.later
            (Rwlock.later (Rwlock.later Rwlock.start (pick 0 refl Rwlock.read_lock))
              (pick 0 refl (Rwlock.r_cas_win refl)))
            (pick 0 refl Rwlock.r_inc))
          (pick 0 refl Rwlock.r_dec))
        (pick 1 refl Rwlock.write_lock))
      (pick 1 refl (Rwlock.w_cas_win refl))

-- the reader leaves, and thread 1 writes
abbrev rw_left : Rwlock.System
rw_left = record { lock = record { writer = 1; readers = 0 }; pcs = idle ∷ w_wait ∷ [] }

rw_leave : Rwlock.Step rw_waiting rw_left
rw_leave = pick 0 refl Rwlock.read_unlock

abbrev rw_writing : Rwlock.System
rw_writing = record { lock = record { writer = 1; readers = 0 }; pcs = idle ∷ writing ∷ [] }

rw_writing-Reach : Rwlock.Reach 2 rw_writing
rw_writing-Reach =
    Rwlock.later (Rwlock.later rw_waiting-Reach rw_leave) (pick 1 refl (Rwlock.w_enter refl))

writer_alone_example : (idle ≢ writing) × (idle ≢ reading)
writer_alone_example =
    writer_alone {n = 2} {s = rw_writing} (omega arith) rw_writing-Reach 1 0 idle refl refl
      (omega arith)

no_wrap_example : (0 ≤ 1) × (1 ≤ 1)
no_wrap_example = no_wrap {n = 2} {s = rw_waiting} (omega arith) rw_waiting-Reach 0 reading refl

-- task 0 holds the mutex, task 1 is blocked, and task 2 has just failed to take it
abbrev contended : Mutex.System
contended = record {
  value = 1;
  waiters = 1 ∷ [];
  pcs = Mutex.holding ∷ Mutex.blocked ∷ Mutex.failed ∷ [];
}

contended-Reach : Mutex.Reach 3 contended
unfolding Mutex.init
contended-Reach =
    Mutex.later
      (Mutex.later
        (Mutex.later
          (Mutex.later
            (Mutex.later
              (Mutex.later (Mutex.later Mutex.start (Mutex.lock 0 refl))
                (Mutex.cas_win 0 refl refl))
              (Mutex.lock 1 refl))
            (Mutex.cas_lose 1 refl (omega arith)))
          (Mutex.block 1 refl))
        (Mutex.lock 2 refl))
      (Mutex.cas_lose 2 refl (omega arith))

abbrev holder : ℕ
holder = 0

mutual_exclusion_example : holder ≡ 0
mutual_exclusion_example =
    mutual_exclusion {n = 3} {s = contended} contended-Reach holder 0 refl refl
