-- ===== src/Devices/Elevator.antt =====
-- The order of the queue, and that the elevator misses no request.
use light_os.Base.{
  ◌<◌, ◌≤◌, ◌≡◌, ◌≢◌, refl, sym, ap, ◌∙◌, Bool, true, false, Option, none, some, List, [], ◌∷◌,
  ◌++◌, ltb, if◌then◌else◌, All, ==_ne, ==_refl, Bool-cases, inl, inr, ltb→lt, ltb→ge,
}
use light_os.Devices.{Request, Device, insert_sort, head, neighbours, turned, request_nextreq}

-- the request, if there is one, is behind `r`
abbrev Below : Request → Option Request → Type 0
Below r none = Unit
Below r (some x) = r.idx < x.idx

-- What an insertion gives: the request behind all that are not greater, in front of all others.
pub record Inserted (r : Request) (xs ys : List Request) : Type 0 where
  pub front : List Request
  pub back : List Request
  pub before : xs ≡ front ++ back
  pub after : ys ≡ front ++ r ∷ back
  pub low : All (λ x. x.idx ≤ r.idx) front
  pub next : Below r (head back)

insert_sort-cons :
    (r x : Request) (xs : List Request)
    → insert_sort r (x ∷ xs) ≡ (if ltb r.idx x.idx then r ∷ x ∷ xs else x ∷ insert_sort r xs)
unfolding insert_sort
insert_sort-cons r x xs = refl

-- `device_request` puts a request behind all requests of the queue up to its sector that come first,
-- in front of the first one with a greater sector; the others keep their order.
insert_sort-Inserted : (r : Request) (xs : List Request) → Inserted r xs (insert_sort r xs)
unfolding insert_sort
insert_sort-Inserted r [] = record {
  front = [];
  back = [];
  before = refl;
  after = refl;
  low = tt;
  next = tt;
}
insert_sort-Inserted r (x ∷ xs) = elim (Bool-cases (ltb r.idx x.idx)) [
  | inl e ↦ record {
    front = [];
    back = x ∷ xs;
    before = refl;
    after = insert_sort-cons r x xs ∙ rw e;
    low = tt;
    next = ltb→lt r.idx x.idx e;
  }
  | inr e ↦
      let h = insert_sort-Inserted r xs in
      record {
        front = x ∷ h.front;
        back = h.back;
        before = ap (λ l. x ∷ l) h.before;
        after = insert_sort-cons r x xs ∙ rw e (ap (λ l. x ∷ l) h.after);
        low = (ltb→ge r.idx x.idx e, h.low);
        next = h.next;
      }
]

-- the neighbour in front of the place behind `front`
abbrev last_of : Option Request → List Request → Option Request
last_of prev [] = prev
last_of prev (x ∷ xs) = last_of (some x) xs

neighbours-middle :
    (prev : Option Request) (front : List Request) (r : Request) (back : List Request)
    → All (λ x. x.task ≢ r.task) front
    → neighbours r.task prev (front ++ r ∷ back) ≡ (last_of prev front, head back)
unfolding neighbours
neighbours-middle prev [] r back h = rw (==_refl r.task)
neighbours-middle prev (x ∷ front) r back h =
    rw (==_ne x.task r.task h.0) (neighbours-middle (some x) front r back h.1)

last_of-none : (x : Request) (xs : List Request) → last_of (some x) xs ≢ none
last_of-none x [] e = cc
last_of-none x (y ∷ ys) e = last_of-none y ys e

head-none : (xs : List Request) → head xs ≡ none → xs ≡ []
head-none [] e = refl
head-none (x ∷ xs) e = cc

-- What is chosen is `none` only between two ends.
turned-none :
    (up : Bool) (prev next : Option Request)
    → (if turned up (prev, next) then next else prev) ≡ none
    → (prev ≡ none) × (next ≡ none)
turned-none true none none e = (refl, refl)
turned-none true none (some n) e = cc
turned-none true (some p) none e = cc
turned-none true (some p) (some n) e = cc
turned-none false none none e = (refl, refl)
turned-none false none (some n) e = cc
turned-none false (some p) none e = cc
turned-none false (some p) (some n) e = cc

-- Whichever way the elevator goes, a request that ends names another to go on with, unless it was
-- the only one in the queue: no task that waits is forgotten.
request_nextreq-none :
    (device : Device) (front : List Request) (r : Request) (back : List Request)
    → device.request_list ≡ front ++ r ∷ back
    → All (λ x. x.task ≢ r.task) front
    → (request_nextreq device r.task).0 ≡ none
    → (front ≡ []) × (back ≡ [])
unfolding request_nextreq
request_nextreq-none device front r back e h z =
    let n = ap (neighbours r.task none) e ∙ neighbours-middle none front r back h in
    let (p, q) =
      turned-none device.up (last_of none front) (head back)
        (sym (ap (λ n. if turned device.up n then n.1 else n.0) n) ∙ z) in
    (empty_front front p, head-none back q)
  where
    empty_front : (xs : List Request) → last_of none xs ≡ none → xs ≡ []
    empty_front [] p = refl
    empty_front (x ∷ xs) p = absurd (last_of-none x xs p)
