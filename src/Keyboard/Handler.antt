-- ===== src/Keyboard/Handler.antt =====
-- The handler of src/kernel/keyboard.c, for every scan code.
use light_os.Keyboard.Keymap.{Key}
use light_os.Kfifo
use light_os.Keyboard.{
  Keyboard, ctrl_state, shift_state, set_led, mark_key, make_code, char_for, char_of, lock_key,
  press, pressed_with, scan,
}
use light_os.Base.{
  ℕ, zero, suc, ◌%◌, ◌<◌, ◌≡◌, refl, sym, ap, ◌∙◌, inl, inr, Bool, true, false, not, ◌&&◌, ◌||◌,
  Option, none, some, List, [], ◌∷◌, length, get_elem?, set, length-set, get_elem?-set, ltb, leb,
  ◌==◌, if◌then◌else◌, ◌>>=◌, Bool-cases, ==_iff, ==_ne, arith,
}

pub record IsValid (kb : Keyboard) : Type 0 where
  pub keys_in : length kb.keys ≡ 96
  pub queue : Kfifo.IsValid kb.fifo

-- Whether the key is down, without the extended code.
unfoldable pub down_at : List Key → ℕ → Option Bool
down_at keys j = get_elem? keys j >>= λ k. some k.down

found : {A : Type 0} (xs : List A) (i : ℕ) → i < length xs → (x : A) × (get_elem? xs i ≡ some x)
found [] i h = absurd (omega arith)
found (x ∷ xs) zero h = (x, refl)
found (x ∷ xs) (suc i) h = found xs i (omega arith)

module _ (keys : List Key) (n : length keys ≡ 96) where
  mark_key-down :
      (m : ℕ) (ext pressed : Bool)
      → m < 96
      → (keys' : List Key) × (mark_key keys m ext pressed ≡ some keys')
        × (length keys' ≡ 96)
        × ((j : ℕ)
            → down_at keys' j ≡ (if not ext && (m == j) then some pressed else down_at keys j))
  unfolding mark_key down_at
  mark_key-down m true pressed h =
      let (k, e) = found keys m (omega arith) in
      let k' : Key = record k { ext_down = pressed } in
      (
        set keys m k',
        rw e refl,
        length-set keys m k' ∙ n,
        λ j. elim (Bool-cases (m == j)) [
          | inl g ↦
              rw (get_elem?-set keys m j k' (omega arith), g) (rw (sym ((==_iff m j).0 g), e) refl)
          | inr g ↦ rw (get_elem?-set keys m j k' (omega arith), g) refl
        ],
      )
  mark_key-down m false pressed h =
      let (k, e) = found keys m (omega arith) in
      let k' : Key = record k { down = pressed } in
      (
        set keys m k',
        rw e refl,
        length-set keys m k' ∙ n,
        λ j. elim (Bool-cases (m == j)) [
          | inl g ↦ rw (g, get_elem?-set keys m j k' (omega arith), g) refl
          | inr g ↦ rw (g, get_elem?-set keys m j k' (omega arith), g) refl
        ],
      )

  shift-some : (s : Bool) × (shift_state keys ≡ some s)
  unfolding shift_state
  shift-some =
      let (l, e) = found keys 42 (omega arith) in
      let (r, f) = found keys 54 (omega arith) in (l.down || r.down, rw (e, f) refl)

  pub ctrl-some : (s : Bool) × (ctrl_state keys ≡ some s)
  unfolding ctrl_state
  ctrl-some = let (k, e) = found keys 29 (omega arith) in (k.down || k.ext_down, rw e refl)

  char_of-some :
      (kb : Keyboard) (m : ℕ) (ext : Bool)
      → kb.keys ≡ keys
      → m < 96
      → (ch : ℕ) × (char_of kb m ext ≡ some ch)
  unfolding char_of
  char_of-some kb m ext e h =
      let (k, f) = found keys m (omega arith) in
      let (s, g) = shift-some in (char_for kb k s m ext, rw (e, f, g) refl)

-- What a key that is pressed leaves as it is
record Same (kb kb' : Keyboard) : Type 0 where
  pub keys : kb'.keys ≡ kb.keys
  pub fifo : kb'.fifo ≡ kb.fifo

data Locked (kb : Keyboard) : Option Keyboard → Type 0 where
  other : Locked kb none
  locked : {kb' : Keyboard} → Same kb kb' → Locked kb (some kb')

either-Locked :
    {kb : Keyboard} {a b : Option Keyboard} (t : Bool)
    → Locked kb a
    → Locked kb b
    → Locked kb (if t then a else b)
either-Locked true k l = k
either-Locked false k l = l

lock_key-Locked : (kb : Keyboard) (m : ℕ) → Locked kb (lock_key kb m)
unfolding lock_key set_led
lock_key-Locked kb m =
    let same : Same kb kb = record { keys = refl; fifo = refl } in
    either-Locked (m == 69) (locked record { keys = refl; fifo = refl }) (
      either-Locked (m == 58) (locked record { keys = refl; fifo = refl })
        (either-Locked (m == 70) (locked record { keys = refl; fifo = refl }) other))

press-Same :
    (kb : Keyboard) (m : ℕ) (ext : Bool)
    → length kb.keys ≡ 96
    → m < 96
    → (ch : ℕ) × (kb' : Keyboard) × (press kb m ext ≡ some (ch, kb')) × Same kb kb'
unfolding press
press-Same kb m ext n h = by_lock (lock_key kb m) (lock_key-Locked kb m)
  where
    by_lock :
        (o : Option Keyboard)
        → Locked kb o
        → (ch : ℕ) × (kb' : Keyboard) × (pressed_with o (char_of kb m ext) kb ≡ some (ch, kb'))
          × Same kb kb'
    by_lock none other =
        let (ch, e) = char_of-some kb.keys n kb m ext refl h in
        (ch, kb, rw e refl, record { keys = refl; fifo = refl })
    by_lock (some kb') (locked s) = (0, kb', refl, s)

and_false : (b : Bool) → (b && false) ≡ false
and_false true = refl
and_false false = refl

-- Whether a scan code tells about the key `j` without the extended code, and is not the code that
-- starts an extended one.
abbrev pub about : Keyboard → (code j : ℕ) → Bool
about kb code j = not (code == 224) && (not kb.extcode && (code % 128 == j))

-- The keyboard follows the keys.
pub record Follows (kb kb' : Keyboard) (code : ℕ) : Type 0 where
  pub keys_in : length kb'.keys ≡ 96
  pub fifo : kb'.fifo ≡ kb.fifo
  pub down :
      (j : ℕ)
      → j < 96
      → down_at kb'.keys j ≡ (if about kb code j then some (ltb code 128) else down_at kb.keys j)

pub scan-Follows :
    (kb : Keyboard) (code : ℕ)
    → length kb.keys ≡ 96
    → code < 256
    → (ch : ℕ) × (kb' : Keyboard) × (scan kb code ≡ some (ch, kb')) × Follows kb kb' code
unfolding scan make_code
scan-Follows kb code n h =
    let m : (if code % 128 == 183 then 95 else code % 128) ≡ code % 128 = ground arith in
    elim (Bool-cases (code == 224)) [
      | inl e ↦ (
        0,
        record kb { extcode = true },
        rw e refl,
        record { keys_in = n; fifo = refl; down = λ j l. rw e refl },
      )
      | inr e ↦ elim (Bool-cases (ltb 95 (code % 128))) [
        | inl g ↦ (
          0,
          record kb { extcode = false },
          rw (e, m, g) refl,
          record {
            keys_in = n;
            fifo = refl;
            down = λ j l.
                rw
                  (
                    e,
                    ==_ne (code % 128) j (λ q. absurd (ground (arith, q))),
                    and_false (not kb.extcode),
                  )
                  refl;
          },
        )
        | inr g ↦ elim (Bool-cases (leb 128 code)) [
          | inl r ↦
              let late : ltb code 128 ≡ false = ground arith in
              let (keys, done, l, d) =
                mark_key-down kb.keys n (code % 128) kb.extcode false (ground arith) in
              (
                0,
                record kb { extcode = false; keys = keys },
                rw (e, m, g, r, done) refl,
                record { keys_in = l; fifo = refl; down = λ j i. rw (e, late) (d j) },
              )
          | inr r ↦
              let early : ltb code 128 ≡ true = ground arith in
              let (keys, done, l, d) =
                mark_key-down kb.keys n (code % 128) kb.extcode true (ground arith) in
              let (ch, kb', pressed, s) =
                press-Same (record kb { extcode = false; keys = keys }) (code % 128) kb.extcode l
                  (ground arith) in
              (
                ch,
                kb',
                rw (e, m, g, r, done) pressed,
                record {
                  keys_in = ap length s.keys ∙ l;
                  fifo = s.fifo;
                  down = λ j i. ap (λ ks. down_at ks j) s.keys ∙ rw (e, early) (d j);
                },
              )
        ]
      ]
    ]
