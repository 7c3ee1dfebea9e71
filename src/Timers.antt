-- ===== src/Timers.antt =====
-- src/kernel/timer.c: the timers in the order of their expiry. The list is one of src/lib/list.c, here
-- as the sequence of its timers. A handler is the number of a function that is called with the timer;
-- the calls are given in order. `list_remove` of a timer in no list, against which it asserts, does
-- nothing here. `none` is too few rounds, or an access to the end of an empty list.
pub mod Order
mod Tests
use light_os.Base.{
  ℕ, zero, suc, ◌+◌, ◌/◌, ◌%◌, ◌^◌, Bool, true, false, Option, none, some, List, [], ◌∷◌, ltb, leb,
  ◌==◌, if◌then◌else◌, ◌>>=◌,
}

-- `timer_t`, with its address; `handler` 0 is none, and stands for `default_timeout`
pub record Timer : Type 0 where
  pub id : ℕ
  pub task : ℕ
  pub expires : ℕ
  pub handler : ℕ
  pub arg : ℕ
  pub active : Bool

-- `EOF` as an unsigned word
abbrev pub eof : ℕ
eof = 4294967295

-- `a < b` of words that are read as signed
abbrev pub signed_lt : (a b : ℕ) → Bool
signed_lt a b = ltb ((a + 2 ^ 31) % 2 ^ 32) ((b + 2 ^ 31) % 2 ^ 32)

-- `list_insert_sort` by `expires`
unfoldable pub insert_sort : Timer → List Timer → List Timer
insert_sort t [] = t ∷ []
insert_sort t (x ∷ xs) = if signed_lt t.expires x.expires then t ∷ x ∷ xs else x ∷ insert_sort t xs

-- `list_remove`
unfoldable pub remove : (id : ℕ) → List Timer → List Timer
remove id [] = []
remove id (x ∷ xs) = if x.id == id then xs else x ∷ remove id xs

-- `jiffy` is the length of a tick.
unfoldable pub timer_expire_jiffies : (jiffies jiffy expire_ms : ℕ) → ℕ
timer_expire_jiffies jiffies jiffy expire_ms = (jiffies + expire_ms / jiffy) % 2 ^ 32

unfoldable pub timer_is_expires : (jiffies expires : ℕ) → Bool
timer_is_expires jiffies expires = ltb expires jiffies

-- `id` is the address that `kmalloc` returns, and `task` the current task.
unfoldable pub timer_add :
    List Timer → (id task jiffies jiffy expire_ms handler arg : ℕ) → List Timer
timer_add timers id task jiffies jiffy expire_ms handler arg =
    insert_sort
      (record {
        id = id;
        task = task;
        expires = timer_expire_jiffies jiffies jiffy expire_ms;
        handler = handler;
        arg = arg;
        active = false;
      })
      timers

unfoldable pub timer_update : List Timer → Timer → (jiffies jiffy expire_ms : ℕ) → List Timer
timer_update timers t jiffies jiffy expire_ms =
    insert_sort (record t { expires = (jiffies + expire_ms / jiffy) % 2 ^ 32 }) (remove t.id timers)

unfoldable pub timer_expires : List Timer → ℕ
timer_expires [] = eof
timer_expires (t ∷ ts) = t.expires

unfoldable pub timer_put : Timer → List Timer → List Timer
timer_put t timers = remove t.id timers

unfoldable pub timer_remove : (task : ℕ) → List Timer → List Timer
timer_remove task [] = []
timer_remove task (t ∷ ts) =
    if t.task == task then timer_remove task ts else t ∷ timer_remove task ts

-- The timers whose handlers are called, in order, and the list after that.
unfoldable pub timer_wakeup :
    (fuel : ℕ) → List Timer → (jiffies : ℕ) → Option (List Timer × List Timer)
timer_wakeup zero timers jiffies = none
timer_wakeup (suc fuel) [] jiffies = if leb eof jiffies then none else some ([], [])
timer_wakeup (suc fuel) (t ∷ ts) jiffies =
    let rest = timer_wakeup fuel (timer_put t (t ∷ ts)) jiffies >>= λ r.
    some (record t { active = true } ∷ r.0, r.1) in
    if leb (timer_expires (t ∷ ts)) jiffies then rest else some ([], t ∷ ts)
