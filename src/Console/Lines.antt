-- ===== src/Console/Lines.antt =====
-- src/kernel/console.c: what the control sequences keep, and that their loops end.
use light_os.Base.{
  ℕ, zero, suc, ◌+◌, ◌-◌, ◌*◌, ◌%◌, ◌^◌, ◌<◌, ◌≤◌, ◌≡◌, refl, ◌∙◌, inl, inr, Bool, true, false,
  Option, some, ltb, leb, if◌then◌else◌, Bool-cases, ltb→ge, arith,
}
use light_os.Console.{mem_base, mem_end, Console, store, copy}
use light_os.Console.Csi.{
  repeat, move_down, move_up, row_start, insert_line, delete_line, shift_left, shift_right,
  cells_behind, delete_char, insert_char,
}
use light_os.Console.Kept.{
  IsValid, Kept, Within, keep, Kept-trans, with_mem-Kept, erase_screen-Kept, store-Within,
  store_cell-Within, copy-Within,
}

-- An operation that ends, and what it keeps.
abbrev pub Runs : Console → Option Console → Type 0
Runs con result = (con' : Console) × (result ≡ some con') × Kept con con'

pub runs : {con con' : Console} → Kept con con' → Runs con (some con')
runs {con'} k = (con', refl, k)

pub either-Runs :
    {con : Console} {a b : Option Console} (t : Bool)
    → Runs con a
    → Runs con b
    → Runs con (if t then a else b)
either-Runs true k l = k
either-Runs false k l = l

-- Each round of `insert_line` but the first has moved a row at `start` or below it.
pub move_down-Within :
    (fuel : ℕ) (mem : ℕ → ℕ) (start i : ℕ)
    → mem_base ≤ start
    → start + i * 160 ≤ mem_end + 160
    → mem_end + 160 < start + (fuel + i) * 160
    → 2 ≤ i
    → (mem' : ℕ → ℕ) × (move_down fuel mem start i ≡ some mem') × Within mem mem'
unfolding move_down
move_down-Within zero mem start i l b f j = absurd (omega arith)
move_down-Within (suc fuel) mem start i l b f j =
    let src = mem_end - i * 160 in
    elim (Bool-cases (ltb src start)) [
      | inl e ↦ (mem, rw e refl, λ p o. refl)
      | inr e ↦
          let up = ltb→ge src start e in
          let (mem', done, w) =
            move_down-Within fuel (copy mem (src + 160) src 160) start (i + 1) l (omega arith)
              (omega arith) (omega arith) in
          (
            mem',
            rw e done,
            λ p o. w p o ∙ copy-Within mem (src + 160) src 160 (omega arith) (omega arith) p o,
          )
    ]

pub move_up-Within :
    (fuel : ℕ) (mem : ℕ → ℕ) (start i : ℕ)
    → mem_base ≤ start
    → start + i * 320 < mem_end + 320
    → mem_end + 320 ≤ start + (fuel + i) * 320
    → 1 ≤ i
    → (mem' : ℕ → ℕ) × (move_up fuel mem start i ≡ some mem') × Within mem mem'
unfolding move_up
move_up-Within zero mem start i l b f j = absurd (omega arith)
move_up-Within (suc fuel) mem start i l b f j =
    let src = start + i * 160 * 2 in
    elim (Bool-cases (leb mem_end src)) [
      | inl e ↦ (mem, rw e refl, λ p o. refl)
      | inr e ↦
          let below : src < mem_end = ground arith in
          let (mem', done, w) =
            move_up-Within fuel (copy mem (src - 160) src 160) start (i + 1) l (omega arith)
              (omega arith) (omega arith) in
          (
            mem',
            rw e done,
            λ p o. w p o ∙ copy-Within mem (src - 160) src 160 (omega arith) (omega arith) p o,
          )
    ]

-- The row of the cursor lies on the screen.
row_in :
    {con : Console} → IsValid con → (mem_base ≤ row_start con) × (row_start con + 160 < mem_end)
row_in v = (omega (arith, v.shown), omega (arith, v.high, v.y_in))

pub insert_line-Runs :
    (fuel : ℕ) {con : Console} → 102 ≤ fuel → IsValid con → Runs con (insert_line fuel con)
unfolding insert_line
insert_line-Runs fuel {con} f v =
    let (l, h) = row_in v in
    let (mem, done, w) =
      move_down-Within fuel con.mem (row_start con) 2 l (omega arith) (omega arith) (omega arith) in
    let k = with_mem-Kept v w in
    (_, rw done refl, Kept-trans k (erase_screen-Kept (row_start con) 80 l (omega arith) k.valid))

pub delete_line-Runs :
    (fuel : ℕ) {con : Console} → 102 ≤ fuel → IsValid con → Runs con (delete_line fuel con)
unfolding delete_line
delete_line-Runs fuel {con} f v =
    let (l, h) = row_in v in
    let (mem, done, w) =
      move_up-Within fuel con.mem (row_start con) 1 l (omega arith) (omega arith) (omega arith) in
    let k = with_mem-Kept v w in
    (
      _,
      rw done refl,
      Kept-trans k (erase_screen-Kept (mem_end - 160) 80 (omega arith) (omega arith) k.valid),
    )

two-Within :
    (mem : ℕ → ℕ) (addr a b : ℕ)
    → mem_base ≤ addr
    → addr + 2 ≤ mem_end
    → Within mem (store (store mem addr a) (addr + 1) b)
two-Within mem addr a b l h p o =
    store-Within (store mem addr a) (addr + 1) b (omega arith) (omega arith) p o
    ∙ store-Within mem addr a l (omega arith) p o

shift_left-Within :
    (rounds : ℕ) (mem : ℕ → ℕ) (ptr : ℕ)
    → mem_base ≤ ptr
    → ptr + rounds * 2 ≤ mem_end
    → Within mem (shift_left rounds mem ptr)
unfolding shift_left
shift_left-Within zero mem ptr l h p o = refl
shift_left-Within (suc rounds) mem ptr l h p o =
    shift_left-Within rounds (store (store mem ptr (mem (ptr + 2))) (ptr + 1) (mem (ptr + 3)))
      (ptr + 2) (omega arith) (omega arith) p o
    ∙ two-Within mem ptr (mem (ptr + 2)) (mem (ptr + 3)) l (omega arith) p o

shift_right-Within :
    (rounds : ℕ) (mem : ℕ → ℕ) (ptr : ℕ)
    → mem_base ≤ ptr
    → ptr + rounds * 2 + 2 ≤ mem_end
    → Within mem (shift_right rounds mem ptr)
unfolding shift_right
shift_right-Within zero mem ptr l h p o = refl
shift_right-Within (suc rounds) mem ptr l h p o =
    let to = ptr + (rounds + 1) * 2 in
    let from = ptr + rounds * 2 in
    shift_right-Within rounds (store (store mem to (mem from)) (to + 1) (mem (from + 1))) ptr l
      (omega arith) p o
    ∙ two-Within mem to (mem from) (mem (from + 1)) (omega arith) (omega arith) p o

-- The cells from the cursor to the end of its row
behind_in :
    {con : Console}
    → IsValid con
    → (mem_base ≤ con.pos) × (con.pos + cells_behind con * 2 + 2 ≤ mem_end)
behind_in v =
    (omega (arith, v.placed, v.shown), omega (arith, v.placed, v.shown, v.high, v.x_in, v.y_in))

pub delete_char-Kept : {con : Console} → IsValid con → Kept con (delete_char con)
unfolding delete_char
delete_char-Kept {con} v =
    let (l, h) = behind_in v in
    let n = cells_behind con in
    with_mem-Kept v (λ p o.
      store_cell-Within (shift_left n con.mem con.pos) (con.pos + n * 2) con.erase (omega arith) h p
        o
      ∙ shift_left-Within n con.mem con.pos l (omega arith) p o)

pub insert_char-Kept : {con : Console} → IsValid con → Kept con (insert_char con)
unfolding insert_char
insert_char-Kept {con} v =
    let (l, h) = behind_in v in
    let n = cells_behind con in
    with_mem-Kept v (λ p o.
      store-Within (shift_right n con.mem con.pos) con.pos (con.erase % 2 ^ 8) l (omega arith) p o
      ∙ shift_right-Within n con.mem con.pos l h p o)

pub repeat-Runs :
    (nr : ℕ) (f : Console → Option Console)
    → ((con : Console) → IsValid con → Runs con (f con))
    → {con : Console} → IsValid con
    → Runs con (repeat nr f con)
unfolding repeat
repeat-Runs zero f step v = runs (keep v)
repeat-Runs (suc nr) f step {con} v =
    let (con', done, k) = step con v in
    let (con'', rest, k') = repeat-Runs nr f step k.valid in
    (con'', rw (done, rest), Kept-trans k k')
