-- ===== src/Timers/Order.antt =====
-- The order of the timers of src/kernel/timer.c, and which of them a tick wakes.
use light_os.Timers.{
  Timer, eof, signed_lt, insert_sort, remove, timer_expire_jiffies, timer_add, timer_update,
  timer_expires, timer_put, timer_wakeup,
}
use mathlib.Core.Path.{subst}
use light_os.Base.{
  ℕ, zero, suc, ◌+◌, ◌/◌, ◌%◌, ◌^◌, ◌<◌, ◌≤◌, ◌≡◌, ◌≢◌, refl, ap, ◌∙◌, ==_ne, inl, inr, true, false,
  some, List, [], ◌∷◌, ◌++◌, map, length, All, ltb, leb, ◌==◌, Bool-cases, ==_refl, arith,
}

-- In the order of expiry, which is below 2 ^ 31.
abbrev pub Sorted : List Timer → Type 0
Sorted [] = Unit
Sorted (t ∷ ts) = (t.expires < 2 ^ 31) × All (λ u. t.expires ≤ u.expires) ts × Sorted ts

signed_lt_lem : (a b : ℕ) → a < 2 ^ 31 → b < 2 ^ 31 → signed_lt a b ≡ ltb a b
signed_lt_lem a b h k =
    let e : (a + 2 ^ 31) % 2 ^ 32 ≡ a + 2 ^ 31 = omega arith in
    let f : (b + 2 ^ 31) % 2 ^ 32 ≡ b + 2 ^ 31 = omega arith in rw (e, f) (ground arith)

All-mono :
    {P Q : Timer → Type 0} (xs : List Timer) → ((t : Timer) → P t → Q t) → All P xs → All Q xs
All-mono [] f a = tt
All-mono (x ∷ xs) f (p, a) = (f x p, All-mono xs f a)

All-insert_sort :
    (P : Timer → Type 0) (t : Timer) (xs : List Timer) → P t → All P xs → All P (insert_sort t xs)
unfolding insert_sort
All-insert_sort P t [] p a = (p, tt)
All-insert_sort P t (x ∷ xs) p (q, a) = elim (Bool-cases (signed_lt t.expires x.expires)) [
  | inl e ↦ rw e (p, (q, a))
  | inr e ↦ rw e (q, All-insert_sort P t xs p a)
]

insert_sort-Sorted :
    (t : Timer) (xs : List Timer) → t.expires < 2 ^ 31 → Sorted xs → Sorted (insert_sort t xs)
unfolding insert_sort
insert_sort-Sorted t [] h s = (h, tt, tt)
insert_sort-Sorted t (x ∷ xs) h (k, a, s) =
    let same = signed_lt_lem t.expires x.expires h k in
    elim (Bool-cases (ltb t.expires x.expires)) [
      | inl e ↦
          let before : t.expires ≤ x.expires = ground arith in
          rw (same, e) (h, (before, All-mono xs (λ u l. omega arith) a), (k, a, s))
      | inr e ↦
          let behind : x.expires ≤ t.expires = ground arith in
          rw (same, e)
            (
              k,
              All-insert_sort (λ u. x.expires ≤ u.expires) t xs behind a,
              insert_sort-Sorted t xs h s,
            )
    ]

All-remove : (P : Timer → Type 0) (id : ℕ) (xs : List Timer) → All P xs → All P (remove id xs)
unfolding remove
All-remove P id [] a = tt
All-remove P id (x ∷ xs) (p, a) = elim (Bool-cases (x.id == id)) [
  | inl e ↦ rw e a
  | inr e ↦ rw e (p, All-remove P id xs a)
]

remove-Sorted : (id : ℕ) (xs : List Timer) → Sorted xs → Sorted (remove id xs)
unfolding remove
remove-Sorted id [] s = tt
remove-Sorted id (x ∷ xs) (k, a, s) = elim (Bool-cases (x.id == id)) [
  | inl e ↦ rw e s
  | inr e ↦ rw e (k, All-remove (λ u. x.expires ≤ u.expires) id xs a, remove-Sorted id xs s)
]

-- The timer is put between two parts of the list.
insert_sort-parts :
    (t : Timer) (xs : List Timer)
    → (before after : List Timer) × (insert_sort t xs ≡ before ++ t ∷ after)
      × (before ++ after ≡ xs)
unfolding insert_sort
insert_sort-parts t [] = ([], [], refl, refl)
insert_sort-parts t (x ∷ xs) = elim (Bool-cases (signed_lt t.expires x.expires)) [
  | inl e ↦ ([], x ∷ xs, rw e refl, refl)
  | inr e ↦
      let (before, after, p, q) = insert_sort-parts t xs in
      (x ∷ before, after, rw e (ap (λ us. x ∷ us) p), ap (λ us. x ∷ us) q)
]

-- The first timer of its address is taken out.
remove-parts :
    (t : Timer) (xs ys : List Timer)
    → All (λ u. u.id ≢ t.id) xs
    → remove t.id (xs ++ t ∷ ys) ≡ xs ++ ys
unfolding remove
remove-parts t [] ys a = rw (==_refl t.id) refl
remove-parts t (x ∷ xs) ys (d, a) =
    rw (==_ne x.id t.id d) (ap (λ us. x ∷ us) (remove-parts t xs ys a))

-- `timer_update` of a timer in the list takes it out and inserts it again once, with the new expiry: the
-- other timers are as before and in their order, and the list is in the order of expiry, if it was and
-- if the new expiry is below 2 ^ 31.
pub timer_update-Sorted :
    (xs ys : List Timer) (t : Timer) (jiffies jiffy expire_ms : ℕ)
    → jiffies + expire_ms / jiffy < 2 ^ 31
    → All (λ u. u.id ≢ t.id) xs
    → Sorted (xs ++ t ∷ ys)
    → (before after : List Timer) × (timer_update (xs ++ t ∷ ys) t jiffies jiffy expire_ms
        ≡ before ++ record t { expires = jiffies + expire_ms / jiffy } ∷ after)
      × (before ++ after ≡ xs ++ ys)
      × Sorted (before ++ record t { expires = jiffies + expire_ms / jiffy } ∷ after)
unfolding timer_update
timer_update-Sorted xs ys t jiffies jiffy expire_ms h first s =
    let e : (jiffies + expire_ms / jiffy) % 2 ^ 32 ≡ jiffies + expire_ms / jiffy = omega arith in
    let t' = record t { expires = jiffies + expire_ms / jiffy } in
    let rest = remove t.id (xs ++ t ∷ ys) in
    let (before, after, p, q) = insert_sort-parts t' rest in
    (
      before,
      after,
      rw e p,
      q ∙ remove-parts t xs ys first,
      subst Sorted p (insert_sort-Sorted t' rest h (remove-Sorted t.id (xs ++ t ∷ ys) s)),
    )

-- The same for `timer_add`.
pub timer_add-Sorted :
    (timers : List Timer) (id task jiffies jiffy expire_ms handler arg : ℕ)
    → jiffies + expire_ms / jiffy < 2 ^ 31
    → Sorted timers
    → Sorted (timer_add timers id task jiffies jiffy expire_ms handler arg)
unfolding timer_add timer_expire_jiffies
timer_add-Sorted timers id task jiffies jiffy expire_ms handler arg h s =
    insert_sort-Sorted _ timers (omega arith) s

timer_put-first : (t : Timer) (ts : List Timer) → timer_put t (t ∷ ts) ≡ ts
unfolding timer_put remove
timer_put-first t ts = rw (==_refl t.id) refl

abbrev pub awake : Timer → Timer
awake t = record t { active = true }

-- On timers in order of expiry, with one round more than there are timers and before the largest word,
-- `timer_wakeup` ends; it has woken, in their order, the timers that expire now or have expired, and
-- only these; they are active, and the others are left.
pub timer_wakeup-Woken :
    (fuel : ℕ) (timers : List Timer) (jiffies : ℕ)
    → length timers < fuel
    → jiffies < eof
    → Sorted timers
    → (woken rest : List Timer) × (timer_wakeup fuel timers jiffies ≡ some (map awake woken, rest))
      × (woken ++ rest ≡ timers)
      × All (λ t. t.expires ≤ jiffies) woken
      × All (λ t. jiffies < t.expires) rest
unfolding timer_wakeup timer_expires
timer_wakeup-Woken zero timers jiffies l j s = absurd (omega arith)
timer_wakeup-Woken (suc fuel) [] jiffies l j s =
    let e : leb eof jiffies ≡ false = ground arith in ([], [], rw e refl, refl, tt, tt)
timer_wakeup-Woken (suc fuel) (t ∷ ts) jiffies l j (k, a, s) =
    elim (Bool-cases (leb t.expires jiffies)) [
      | inl e ↦
          let (woken, rest, done, split, early, late) =
            timer_wakeup-Woken fuel ts jiffies (omega arith) j s in
          (
            t ∷ woken,
            rest,
            rw (e, timer_put-first t ts, done) refl,
            ap (λ us. t ∷ us) split,
            (ground arith, early),
            late,
          )
      | inr e ↦
          let after : jiffies < t.expires = ground arith in
          ([], t ∷ ts, rw e refl, refl, tt, (after, All-mono ts (λ u m. omega arith) a))
    ]
