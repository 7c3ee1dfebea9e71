-- ===== src/Console/Kept.antt =====
-- What every operation of src/kernel/console.c keeps: the cursor is where its coordinates say, the
-- screen lies in its memory, and no byte outside that memory changes.
use light_os.Base.{
  ℕ, zero, suc, ◌+◌, ◌*◌, ◌/◌, ◌%◌, ◌^◌, ◌<◌, ◌≤◌, ◌≡◌, refl, ◌∙◌, ◌⊎◌, inl, inr, Bool, true, false,
  ◌||◌, List, length, ltb, leb, if◌then◌else◌, Bool-cases, arith,
}
use light_os.Console.{
  mem_base, mem_end, Console, State, crt_word, set_xy, save_cursor, store, store_cell, fill,
  erase_screen, copy,
}

-- The cursor may stand one behind the last column. `crt_start` is what the controller shows.
pub record IsValid (con : Console) : Type 0 where
  pub placed : con.pos ≡ con.screen + con.y * 160 + con.x * 2
  pub x_in : con.x ≤ 80
  pub y_in : con.y < 25
  pub high : con.screen + 4000 < mem_end
  pub shown : con.screen ≡ mem_base + con.crt_start * 2
  pub args_in : length con.args ≡ 16
  pub argc_in : con.argc ≤ 16

abbrev pub Outside : ℕ → Type 0
Outside p = (p < mem_base) ⊎ (mem_end ≤ p)

-- Nothing outside the memory of the screen differs.
abbrev pub Within : (mem mem' : ℕ → ℕ) → Type 0
Within mem mem' = (p : ℕ) → Outside p → mem' p ≡ mem p

pub record Kept (con con' : Console) : Type 0 where
  pub valid : IsValid con'
  pub within : Within con.mem con'.mem

pub store-Within :
    (mem : ℕ → ℕ) (addr byte : ℕ)
    → mem_base ≤ addr
    → addr < mem_end
    → Within mem (store mem addr byte)
store-Within mem addr byte l h p (inl o) = ground arith
store-Within mem addr byte l h p (inr o) = ground arith

pub store_cell-Within :
    (mem : ℕ → ℕ) (addr cell : ℕ)
    → mem_base ≤ addr
    → addr + 2 ≤ mem_end
    → Within mem (store_cell mem addr cell)
store_cell-Within mem addr cell l h p o =
    let low = cell % 2 ^ 8 in
    let high = cell / 2 ^ 8 % 2 ^ 8 in
    store-Within (store mem addr low) (addr + 1) high (omega arith) (omega arith) p o
    ∙ store-Within mem addr low l (omega arith) p o

pub fill-Within :
    (count : ℕ) (mem : ℕ → ℕ) (start cell : ℕ)
    → mem_base ≤ start
    → start + count * 2 ≤ mem_end
    → Within mem (fill count mem start cell)
unfolding fill
fill-Within zero mem start cell l h p o = refl
fill-Within (suc count) mem start cell l h p o =
    fill-Within count (store_cell mem start cell) (start + 2) cell (omega arith) (omega arith) p o
    ∙ store_cell-Within mem start cell l (omega arith) p o

pub copy-Within :
    (mem : ℕ → ℕ) (dest src count : ℕ)
    → mem_base ≤ dest
    → dest + count ≤ mem_end
    → Within mem (copy mem dest src count)
unfolding copy
copy-Within mem dest src count l h p (inl o) = ground arith
copy-Within mem dest src count l h p (inr o) = ground arith

pub keep : {con : Console} → IsValid con → Kept con con
keep v = record { valid = v; within = λ p o. refl }

pub Kept-trans : {a b c : Console} → Kept a b → Kept b c → Kept a c
Kept-trans k l = record { valid = l.valid; within = λ p o. l.within p o ∙ k.within p o }

-- A test that does not matter for what is kept.
pub either :
    {con a b : Console} (t : Bool) → Kept con a → Kept con b → Kept con (if t then a else b)
either true k l = k
either false k l = l

pub either_pair :
    {con : Console} (t : Bool) (a b : Bool × Console)
    → Kept con a.1
    → Kept con b.1
    → Kept con (if t then a else b).1
either_pair true a b k l = k
either_pair false a b k l = l

pub crt_word_lem : (n : ℕ) → n < 2 ^ 16 → crt_word (mem_base + n * 2) ≡ n
unfolding crt_word
crt_word_lem n h = omega arith

abbrev pub with_mem : Console → (ℕ → ℕ) → Console
with_mem con mem = record con { mem = mem }

pub with_mem-Kept :
    {con : Console} {mem : ℕ → ℕ} → IsValid con → Within con.mem mem → Kept con (with_mem con mem)
with_mem-Kept v w = record {
  valid = record {
    placed = v.placed;
    x_in = v.x_in;
    y_in = v.y_in;
    high = v.high;
    shown = v.shown;
    args_in = v.args_in;
    argc_in = v.argc_in;
  };
  within = w;
}

pub set_xy-Kept : {con : Console} (x y : ℕ) → IsValid con → Kept con (set_xy con x y)
unfolding set_xy
set_xy-Kept {con} x y v = elim (Bool-cases (ltb 80 x || leb 25 y)) [
  | inl e ↦ rw e (keep v)
  | inr e ↦ rw e record {
    valid = record {
      placed = refl;
      x_in = ground arith;
      y_in = ground arith;
      high = v.high;
      shown = v.shown;
      args_in = v.args_in;
      argc_in = v.argc_in;
    };
    within = λ p o. refl;
  }
]

pub erase_screen-Kept :
    {con : Console} (start count : ℕ)
    → mem_base ≤ start
    → start + count * 2 ≤ mem_end
    → IsValid con
    → Kept con (erase_screen con start count)
unfolding erase_screen
erase_screen-Kept {con} start count l h v =
    with_mem-Kept v (fill-Within count con.mem start con.erase l h)

-- What is kept does not depend on the state of the sequence that is read, apart from the bounds of
-- the arguments.
pub read_on :
    {con : Console} (state : State) (args : List ℕ) (argc : ℕ) (ques : Bool)
    → IsValid con
    → length args ≡ 16
    → argc ≤ 16
    → Kept con (record con { state = state; args = args; argc = argc; ques = ques })
read_on state args argc ques v a n = record {
  valid = record {
    placed = v.placed;
    x_in = v.x_in;
    y_in = v.y_in;
    high = v.high;
    shown = v.shown;
    args_in = a;
    argc_in = n;
  };
  within = λ p o. refl;
}

pub in_state :
    {con : Console} (state : State) → IsValid con → Kept con (record con { state = state })
in_state {con} state v = read_on state con.args con.argc con.ques v v.args_in v.argc_in

pub saved : {con : Console} → IsValid con → Kept con (save_cursor con)
unfolding save_cursor
saved v = record {
  valid = record {
    placed = v.placed;
    x_in = v.x_in;
    y_in = v.y_in;
    high = v.high;
    shown = v.shown;
    args_in = v.args_in;
    argc_in = v.argc_in;
  };
  within = λ p o. refl;
}

-- The cursor moved to another place of the screen that stays as it is.
pub moved :
    {con : Console} (pos x y : ℕ)
    → IsValid con
    → pos ≡ con.screen + y * 160 + x * 2
    → x ≤ 80
    → y < 25
    → Kept con (record con { pos = pos; x = x; y = y })
moved pos x y v e xi yi = record {
  valid = record {
    placed = e;
    x_in = xi;
    y_in = yi;
    high = v.high;
    shown = v.shown;
    args_in = v.args_in;
    argc_in = v.argc_in;
  };
  within = λ p o. refl;
}
