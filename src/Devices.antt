-- ===== src/Devices.antt =====
-- src/kernel/device.c: the table of devices and the queue of requests of a disk. A `list_t` is the
-- list of its nodes, and a device's functions are left to the drivers. Sector numbers, which the
-- insertion compares as signed, are below 2 ^ 31. `none` is a panic or a failed assertion.
pub mod Elevator
mod Tests
use light_os.Base.{
  ℕ, zero, suc, ◌+◌, ◌-◌, ◌^◌, ◌<◌, ◌≤◌, ◌≡◌, Bool, true, false, not, ◌&&◌, Option, none, some,
  List, [], ◌∷◌, ◌++◌, length, get_or, set, replicate, ltb, ◌==◌, if◌then◌else◌, ◌>>=◌, ◌>>◌,
  assert,
}

-- `request_t`; `task` is the task that waits for it, and no two requests in a queue have the same
pub record Request : Type 0 where
  pub dev : ℕ
  pub idx : ℕ
  pub count : ℕ
  pub write : Bool
  pub task : ℕ

-- `device_t`; `up` is the direction of the elevator
pub record Device : Type 0 where
  pub kind : ℕ
  pub subtype : ℕ
  pub dev : ℕ
  pub parent : ℕ
  pub ptr : ℕ
  pub up : Bool
  pub request_list : List Request

-- `DEVICE_NR`
abbrev pub device_nr : ℕ
device_nr = 64

-- An element of the table behind `device_init`.
abbrev pub null_device : ℕ → Device
null_device i = record {
  kind = 0;
  subtype = 0;
  dev = i;
  parent = 0;
  ptr = 0;
  up = true;
  request_list = [];
}

unfoldable pub device_init : (rounds i : ℕ) → List Device
device_init zero i = []
device_init (suc rounds) i = null_device i ∷ device_init rounds (i + 1)

-- The search of `get_new_device`, from the slots `i` on; slot 0 stays free.
unfoldable pub get_new_device : List Device → (rounds i : ℕ) → Option ℕ
get_new_device table zero i = none
get_new_device table (suc rounds) i =
    let rest = get_new_device table rounds (i + 1) in
    if (get_or table i (null_device i)).kind == 0 then some i else rest

-- The device number `idx` of a subtype, counted from 0.
unfoldable pub device_find : List Device → (subtype idx nr : ℕ) → Option Device
device_find [] subtype idx nr = none
device_find (d ∷ ds) subtype idx nr =
    let found = device_find ds subtype idx (nr + 1) in
    let rest = device_find ds subtype idx nr in
    if d.subtype == subtype then (if nr == idx then some d else found) else rest

unfoldable pub device_get : List Device → ℕ → Option Device
device_get table dev = do
  assert (ltb dev device_nr)
  let d = get_or table dev (null_device dev)
  assert (not (d.kind == 0))
  some d

unfoldable pub device_install :
    List Device → (kind subtype ptr parent : ℕ) → Option (ℕ × List Device)
device_install table kind subtype ptr parent = do
  i ← get_new_device table (device_nr - 1) 1
  let d = get_or table i (null_device i)
  some
      (d.dev, set table i (record d { kind = kind; subtype = subtype; ptr = ptr; parent = parent }))

-- `list_insert_sort` by `idx`: before the first request with a greater one.
unfoldable pub insert_sort : Request → List Request → List Request
insert_sort r [] = r ∷ []
insert_sort r (x ∷ xs) =
    let rest = insert_sort r xs in if ltb r.idx x.idx then r ∷ x ∷ xs else x ∷ rest

abbrev pub head : List Request → Option Request
head [] = none
head (x ∷ xs) = some x

abbrev pub is_some : Option Request → Bool
is_some none = false
is_some (some r) = true

-- The neighbours in the list of the request of a task; `none` is an end of the list.
unfoldable pub neighbours :
    (task : ℕ) → Option Request → List Request → Option Request × Option Request
neighbours task prev [] = (none, none)
neighbours task prev (x ∷ xs) =
    let rest = neighbours task (some x) xs in if x.task == task then (prev, head xs) else rest

-- The direction is turned round at an end of the list.
abbrev pub turned : Bool → Option Request × Option Request → Bool
turned up (prev, next) = if up then is_some next else not (is_some prev)

unfoldable pub request_nextreq : Device → (task : ℕ) → Option Request × Device
request_nextreq device task =
    let n = neighbours task none device.request_list in
    let up = turned device.up n in (if up then n.1 else n.0, record device { up = up })

-- `list_remove`
unfoldable pub remove_request : (task : ℕ) → List Request → List Request
remove_request task [] = []
remove_request task (x ∷ xs) =
    let rest = remove_request task xs in if x.task == task then xs else x ∷ rest

-- The parts of `device_request` on the queue: in front of `do_request`, with whether the task has to
-- wait for its turn, and behind it, with the task to wake.
unfoldable pub request_begin : Device → Request → Bool × Device
request_begin device req = (
  is_some (head device.request_list),
  record device { request_list = insert_sort req device.request_list },
)

unfoldable pub request_end : Device → (task : ℕ) → Option Request × Device
request_end device task =
    let r = request_nextreq device task in
    (r.0, record (r.1) { request_list = remove_request task device.request_list })
