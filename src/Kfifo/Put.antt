-- ===== src/Kfifo/Put.antt =====
-- Writing to the ring of src/lib/kfifo.c, and what its users ask of it when they test it first.
use light_os.Base.{
  ℕ, zero, suc, ◌-◌, ◌≤◌, ◌≡◌, ◌≢◌, refl, sym, ◌∙◌, ap, true, false, some, List, [], ◌∷◌, ◌++◌,
  length, set, ◌==◌, if◌then◌else◌, arith, Bool-cases, ==_iff, inl, inr,
}
use light_os.Kfifo.{Fifo, full, empty, get, drop_old, put, IsValid}
use light_os.Kfifo.Refine.{
  after, count, contents, next-after, pop, without_oldest, pop-rest, push, length-contents,
  contents-window, get-IsValid, get-pop, stored, full-count, stored-IsValid, contents-stored,
  full-ne, full-get,
}

drop_old_lem :
    (fuel : ℕ) {fifo : Fifo}
    → IsValid fifo
    → drop_old (suc (suc fuel)) fifo ≡ some (if full fifo then (get fifo).1 else fifo)
unfolding drop_old
drop_old_lem fuel {fifo} v = elim (Bool-cases (full fifo)) [
  | inl e ↦ rw (e, full-get v e)
  | inr e ↦ rw e
]

put-stored :
    (fuel : ℕ) (fifo fifo' : Fifo) (x : ℕ)
    → drop_old fuel fifo ≡ some fifo'
    → IsValid fifo'
    → put fuel fifo x
      ≡ some (record fifo' {
        buf = set fifo'.buf fifo'.head x;
        head = after fifo'.buf_size fifo'.head;
      })
unfolding put
put-stored fuel fifo fifo' x e v = rw (e, next-after fifo' fifo'.head v v.head_in)

rest-of : (fifo : Fifo) → IsValid fifo → contents (get fifo).1 ≡ without_oldest (contents fifo)
rest-of fifo v = ap (λ r. r.1) (get-pop v) ∙ pop-rest (contents fifo)

-- `kfifo_put` ends within two tests of its loop, keeps the ring valid, and stores the byte behind
-- the others; if the ring is full the oldest byte is lost.
pub put-push :
    (fuel : ℕ) (fifo : Fifo) (x : ℕ)
    → IsValid fifo
    → 2 ≤ fuel
    → (fifo' : Fifo) × (put fuel fifo x ≡ some fifo')
      × IsValid fifo'
      × (contents fifo' ≡ push (fifo.buf_size - 1) (contents fifo) x)
unfolding push
put-push zero fifo x v h = absurd (omega arith)
put-push (suc zero) fifo x v h = absurd (omega arith)
put-push (suc (suc fuel)) fifo x v h = elim (Bool-cases (full fifo)) [
  | inl e ↦
      let run : drop_old (suc (suc fuel)) fifo ≡ some (get fifo).1 = drop_old_lem fuel v ∙ rw e in
      let many : (length (contents fifo) == fifo.buf_size - 1) ≡ true =
        rw (length-contents v) (sym (full-count v) ∙ e) in
      (
        stored (get-IsValid v) x,
        put-stored (suc (suc fuel)) fifo (get fifo).1 x run (get-IsValid v),
        stored-IsValid (get-IsValid v) x,
        contents-stored (get-IsValid v) x (full-get v e)
            ∙ rw many (ap (λ q. q ++ x ∷ []) (rest-of fifo v)),
      )
  | inr e ↦
      let run : drop_old (suc (suc fuel)) fifo ≡ some fifo = drop_old_lem fuel v ∙ rw e in
      let few : (length (contents fifo) == fifo.buf_size - 1) ≡ false =
        rw (length-contents v) (sym (full-count v) ∙ e) in
      (
        stored v x,
        put-stored (suc (suc fuel)) fifo fifo x run v,
        stored-IsValid v x,
        contents-stored v x e ∙ rw few,
      )
]

pop-first : (xs : List ℕ) → xs ≢ [] → xs ≡ (pop xs).0 ∷ (pop xs).1
unfolding pop
pop-first [] d = absurd (d refl)
pop-first (x ∷ xs) d = refl

-- What the users of a queue ask of it when they test it first.
module _ {fifo : Fifo} (v : IsValid fifo) where
  pub put-room :
      (x : ℕ)
      → full fifo ≡ false
      → (fifo' : Fifo) × (put 2 fifo x ≡ some fifo')
        × IsValid fifo'
        × (contents fifo' ≡ contents fifo ++ x ∷ [])
  put-room x room =
      let kept : drop_old 2 fifo ≡ some fifo = drop_old_lem 0 v ∙ rw room refl in
      (stored v x, put-stored 2 fifo fifo x kept v, stored-IsValid v x, contents-stored v x room)

  pub contents-empty : empty fifo ≡ true → contents fifo ≡ []
  unfolding empty
  contents-empty e =
      let same : fifo.head ≡ fifo.tail = (==_iff _ _).0 e in contents-window v 0 (ground arith)

  pub contents-get : empty fifo ≡ false → contents fifo ≡ (get fifo).0 ∷ contents (get fifo).1
  unfolding empty
  contents-get e =
      let differ : fifo.head ≢ fifo.tail = λ q. absurd (ground (arith, e, q)) in
      let some_in : count fifo ≢ 0 = ground arith in
      pop-first (contents fifo) (λ q. some_in (sym (length-contents v) ∙ ap length q))
      ∙ sym (ap (λ r. r.0 ∷ r.1) (get-pop v))

  pub empty-full : full fifo ≡ true → empty fifo ≡ true → ⊥
  unfolding empty
  empty-full e f = full-ne v e ((==_iff _ _).0 f)
