-- ===== src/Console/Scroll.antt =====
-- src/kernel/console.c: the scrolling of the screen keeps it in its memory.
use light_os.Base.{ℕ, ◌+◌, ◌*◌, ◌<◌, ◌≤◌, ◌≡◌, refl, ◌∙◌, inl, inr, length, leb, Bool-cases, arith}
use light_os.Console.{
  mem_base, mem_end, width, row_size, scr_size, Console, crt_word, set_screen, erase_screen, rewind,
  scroll_up,
}
use light_os.Console.Kept.{IsValid, Within, Kept, fill-Within, copy-Within, crt_word_lem}

-- What `scroll_up` needs behind its start: room for one more row below the screen.
record Rewound (con con' : Console) : Type 0 where
  cell : ℕ
  at : con'.screen ≡ mem_base + cell * 2
  room : con'.screen + 4160 < mem_end
  placed : con'.pos ≡ con'.screen + con'.y * 160 + con'.x * 2
  x_in : con'.x ≤ 80
  y_in : con'.y < 25
  args_in : length con'.args ≡ 16
  argc_in : con'.argc ≤ 16
  within : Within con.mem con'.mem

rewind-Rewound : {con : Console} → IsValid con → Rewound con (rewind con)
unfolding rewind
rewind-Rewound {con} v = elim (Bool-cases (leb mem_end (con.screen + 4000 + 160))) [
  | inl e ↦ rw e record {
    cell = 0;
    at = refl;
    room = omega arith;
    placed = omega (arith, v.placed, v.shown);
    x_in = v.x_in;
    y_in = v.y_in;
    args_in = v.args_in;
    argc_in = v.argc_in;
    within = copy-Within con.mem mem_base con.screen 4000 (omega arith) (omega arith);
  }
  | inr e ↦ rw e record {
    cell = con.crt_start;
    at = v.shown;
    room = ground arith;
    placed = v.placed;
    x_in = v.x_in;
    y_in = v.y_in;
    args_in = v.args_in;
    argc_in = v.argc_in;
    within = λ p o. refl;
  }
]

scrolled-Kept :
    {con con' : Console}
    → Rewound con con'
    → Kept con (
        set_screen (record (erase_screen con' (con'.screen + scr_size) width) {
          screen = con'.screen + row_size;
          pos = con'.pos + row_size;
        }))
unfolding erase_screen set_screen
scrolled-Kept {con} {con'} r =
    let here : con'.screen + 160 ≡ mem_base + (r.cell + 80) * 2 = omega (arith, r.at) in
    let word : crt_word (con'.screen + 160) ≡ r.cell + 80 =
      rw here (crt_word_lem (r.cell + 80) (omega (arith, r.at, r.room))) in
    record {
      valid = record {
        placed = omega (arith, r.placed);
        x_in = r.x_in;
        y_in = r.y_in;
        high = omega (arith, r.room);
        shown = rw word here;
        args_in = r.args_in;
        argc_in = r.argc_in;
      };
      within = λ p o.
          fill-Within 80 con'.mem (con'.screen + 4000) con'.erase (omega (arith, r.at))
            (omega (arith, r.room)) p o
          ∙ r.within p o;
    }

pub scroll_up-Kept : {con : Console} → IsValid con → Kept con (scroll_up con)
unfolding scroll_up erase_screen
scroll_up-Kept v = scrolled-Kept (rewind-Rewound v)
