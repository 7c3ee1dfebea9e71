-- ===== src/Lock.antt =====
-- src/lib/mutex.c: the locks, as steps of threads that interleave in any order. Each atomic
-- instruction of the code is one step.
pub mod Pool
pub mod Rwlock
pub mod Mutex
mod Tests
