-- ===== src/Console/Plain.antt =====
-- src/kernel/console.c: what the characters of a text and the start of a sequence keep.
use light_os.Base.{
  ℕ, ◌+◌, ◌-◌, ◌*◌, ◌%◌, ◌<◌, ◌≤◌, ◌≡◌, refl, ◌∙◌, inl, inr, true, false, ◌&&◌, ◌||◌, set,
  length-set, ltb, leb, ◌==◌, Bool-cases, arith,
}
use light_os.Console.{
  mem_base, mem_end, Console, State, set_screen, save_cursor, store, erase_screen, rewind,
  scroll_up, lf, cr, wrap, tab, bs, del, chr, state_normal, state_esc, state_arg,
}
use light_os.Console.Kept.{
  IsValid, Kept, Within, keep, Kept-trans, either, either_pair, with_mem-Kept, set_xy-Kept, read_on,
  in_state, saved, moved, store-Within, store_cell-Within,
}
use light_os.Console.Scroll.{scroll_up-Kept}

lf-Kept : {con : Console} → IsValid con → Kept con (lf con)
unfolding lf
lf-Kept {con} v = elim (Bool-cases (ltb (con.y + 1) 25)) [
  | inl e ↦
      rw e
        (moved (con.pos + 160) con.x (con.y + 1) v (omega (arith, v.placed)) v.x_in (ground arith))
  | inr e ↦ rw e (scroll_up-Kept v)
]

cr-Kept : {con : Console} → IsValid con → Kept con (cr con)
unfolding cr
cr-Kept {con} v =
    moved (con.pos - con.x * 2) 0 con.y v (omega (arith, v.placed)) (omega arith) v.y_in

wrap-Kept :
    {con : Console} (pos x : ℕ)
    → IsValid con
    → pos ≡ con.screen + con.y * 160 + x * 2
    → x ≤ 88
    → Kept con (wrap (record con { pos = pos; x = x }))
unfolding wrap
wrap-Kept {con} pos x v e l = elim (Bool-cases (leb 80 x)) [
  | inl f ↦
      let k = moved (pos - 160) (x - 80) con.y v (ground arith) (omega arith) v.y_in in
      rw f (Kept-trans k (lf-Kept k.valid))
  | inr f ↦ rw f (moved pos x con.y v e (ground arith) v.y_in)
]

tab-Kept : {con : Console} → IsValid con → Kept con (tab con)
unfolding tab
tab-Kept {con} v =
    wrap-Kept (con.pos + (8 - con.x % 8) * 2) (con.x + (8 - con.x % 8)) v (omega (arith, v.placed))
      (omega (arith, v.x_in))

-- The address of a cell of the screen.
pub cell_in : {con : Console} → IsValid con → (mem_base ≤ con.pos) × (con.pos + 2 ≤ mem_end)
cell_in v =
    (omega (arith, v.placed, v.shown), omega (arith, v.placed, v.shown, v.high, v.x_in, v.y_in))

bs-Kept : {con : Console} → IsValid con → Kept con (bs con)
unfolding bs
bs-Kept {con} v = elim (Bool-cases (con.x == 0)) [
  | inl e ↦ rw e (keep v)
  | inr e ↦
      let k =
        moved (con.pos - 2) (con.x - 1) con.y v (ground arith) (omega (arith, v.x_in)) v.y_in in
      let (l, h) = cell_in k.valid in
      rw e (
        Kept-trans k
          (with_mem-Kept k.valid (store_cell-Within con.mem (con.pos - 2) con.erase l h)))
]

del-Kept : {con : Console} → IsValid con → Kept con (del con)
unfolding del
del-Kept {con} v =
    let (l, h) = cell_in v in with_mem-Kept v (store_cell-Within con.mem con.pos con.erase l h)

rewind-x : (con : Console) → (rewind con).x ≡ con.x
unfolding rewind
rewind-x con = elim (Bool-cases (leb mem_end (con.screen + 4000 + 160))) [
  | inl e ↦ rw e refl
  | inr e ↦ rw e refl
]

lf-x : (con : Console) → (lf con).x ≡ con.x
unfolding lf scroll_up erase_screen set_screen
lf-x con = elim (Bool-cases (ltb (con.y + 1) 25)) [
  | inl e ↦ rw e refl
  | inr e ↦ rw e (rewind-x con)
]

-- In front of a character there is a free place in the line.
wrap-room : {con : Console} → IsValid con → (wrap con).x < 80
unfolding wrap
wrap-room {con} v = elim (Bool-cases (leb 80 con.x)) [
  | inl e ↦
      let same = lf-x (record con { x = con.x - 80; pos = con.pos - 160 }) in
      rw e (omega (arith, same, v.x_in))
  | inr e ↦ rw e (ground arith)
]

chr-Kept : {con : Console} (ch : ℕ) → IsValid con → Kept con (chr con ch)
unfolding chr
chr-Kept {con} ch v =
    let k = wrap-Kept con.pos con.x v v.placed (omega (arith, v.x_in)) in
    let w = k.valid in
    let (l, h) = cell_in w in
    let con' : Console = wrap con in
    let k' =
      moved (con'.pos + 2) (con'.x + 1) con'.y w (omega (arith, w.placed))
        (omega (arith, wrap-room v)) w.y_in in
    let stored : Within con'.mem (store (store con'.mem con'.pos ch) (con'.pos + 1) con'.style) =
      λ p o.
        store-Within (store con'.mem con'.pos ch) (con'.pos + 1) con'.style (omega arith)
          (omega arith) p o
        ∙ store-Within con'.mem con'.pos ch l (omega arith) p o in
    Kept-trans k (Kept-trans k' (with_mem-Kept k'.valid stored))

pub state_normal-Kept : {con : Console} (ch : ℕ) → IsValid con → Kept con (state_normal con ch)
unfolding state_normal
state_normal-Kept {con} ch v =
    let feed = lf-Kept v in
    either (ch == 0 || ch == 7) (keep v) (
      either (ch == 8) (bs-Kept v) (
        either (ch == 9) (tab-Kept v) (
          either (ch == 10) (Kept-trans feed (cr-Kept feed.valid)) (
            either (ch == 11 || ch == 12) feed (
              either (ch == 13) (cr-Kept v) (
                either (ch == 127) (del-Kept v)
                  (either (ch == 27) (in_state State.esc v) (chr-Kept ch v))))))))

pub state_esc-Kept : {con : Console} (ch : ℕ) → IsValid con → Kept con (state_esc con ch)
unfolding state_esc save_cursor
state_esc-Kept {con} ch v =
    let feed = lf-Kept v in
    either (ch == 91) (in_state State.que v) (
      either (ch == 69) (Kept-trans feed (cr-Kept feed.valid)) (
        either (ch == 68) feed (
          either (ch == 55) (saved v)
            (either (ch == 56) (set_xy-Kept con.saved_x con.saved_y v) (keep v)))))

pub state_arg-Kept : {con : Console} (ch : ℕ) → IsValid con → Kept con (state_arg con ch).1
unfolding state_arg
state_arg-Kept {con} ch v = elim (Bool-cases (leb 16 con.argc)) [
  | inl e ↦ rw e (keep v)
  | inr e ↦ rw e (
      either_pair (ch == 59) (false, _) _
        (read_on con.state con.args (con.argc + 1) con.ques v v.args_in (ground arith))
        (either_pair (leb 48 ch && leb ch 57) (false, _) (true, _)
          (read_on con.state (set con.args con.argc _) con.argc con.ques v
            (length-set con.args con.argc _ ∙ v.args_in) v.argc_in)
          (read_on State.csi con.args (con.argc + 1) con.ques v v.args_in (ground arith))))
]
