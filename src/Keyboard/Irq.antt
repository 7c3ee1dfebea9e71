-- ===== src/Keyboard/Irq.antt =====
-- The handler of src/kernel/keyboard.c up to the terminal, for every scan code.
use mathlib.Core.Path.{subst}
use light_os.Kfifo
use light_os.Kfifo.Put.{put-push}
use light_os.Keyboard.{Keyboard}
use light_os.Keyboard.Tty.{Action, tty_rx_notify, deliver, handed_over, notify, keyboard_handler}
use light_os.Base.{
  ℕ, zero, suc, ◌<◌, ◌≤◌, ◌≡◌, refl, sym, ap, ◌∙◌, inl, inr, Option, none, some, length, ltb, ◌==◌,
  if◌then◌else◌, Bool-cases,
}
use light_os.Keyboard.Handler.{IsValid, down_at, ctrl-some, about, scan-Follows}

-- A part of the handler that ends, and leaves the keys as they are.
Ends : Keyboard → Option (Keyboard × Action × Option ℕ) → Type 0
Ends kb result =
    (kb' : Keyboard) × (action : Action) × (woken : Option ℕ) × (result ≡ some (kb', action, woken))
    × Kfifo.IsValid kb'.fifo
    × (kb'.keys ≡ kb.keys)

deliver-some :
    (fuel : ℕ) (kb : Keyboard) (ch : ℕ)
    → 2 ≤ fuel
    → Kfifo.IsValid kb.fifo
    → (kb' : Keyboard) × (woken : Option ℕ) × (deliver fuel kb ch ≡ some (kb', woken))
      × Kfifo.IsValid kb'.fifo
      × (kb'.keys ≡ kb.keys)
unfolding deliver
deliver-some fuel kb ch f q = by_task kb.fg_task refl
  where
    by_task :
        (t : Option ℕ)
        → kb.fg_task ≡ t
        → (kb' : Keyboard) × (woken : Option ℕ) × (deliver fuel kb ch ≡ some (kb', woken))
          × Kfifo.IsValid kb'.fifo
          × (kb'.keys ≡ kb.keys)
    by_task none e = (kb, none, rw e refl, q, refl)
    by_task (some t) e =
        let (fifo, done, q', _) = put-push fuel kb.fifo ch q f in
        (record kb { fifo = fifo; fg_task = none }, some t, rw (e, done) refl, q', refl)

handed_over-Ends :
    (result : ℕ) (action : Action) (kb kb' : Keyboard) (woken : Option ℕ)
    → Kfifo.IsValid kb.fifo
    → Kfifo.IsValid kb'.fifo
    → kb'.keys ≡ kb.keys
    → Ends kb (handed_over result action kb (some (kb', woken)))
unfolding Ends
handed_over-Ends zero action kb kb' woken q q' k = (kb', action, woken, refl, q', k)
handed_over-Ends (suc n) action kb kb' woken q q' k = (kb, action, none, refl, q, refl)

notify-Ends :
    (fuel : ℕ) (kb : Keyboard) (ch : ℕ) → 2 ≤ fuel → IsValid kb → Ends kb (notify fuel kb ch)
unfolding notify
notify-Ends fuel kb ch f v =
    let (c, e) = ctrl-some kb.keys v.keys_in in
    let r = tty_rx_notify ch c in
    let (kb', woken, done, q, k) = deliver-some fuel kb r.1 f v.queue in
    rw (e, done) (handed_over-Ends r.0 r.2 kb kb' woken v.queue q k)

-- On a valid keyboard, for every scan code and with fuel for two tests of the queue, the handler ends
-- without an access outside of its table; the keyboard stays valid, and of the keys without the
-- extended code the one that the code is about is marked as down or up, and no other.
pub keyboard_handler-IsValid :
    (fuel : ℕ) (kb : Keyboard) (code : ℕ)
    → 2 ≤ fuel
    → IsValid kb
    → code < 256
    → (kb' : Keyboard) × (action : Action) × (woken : Option ℕ) × (keyboard_handler fuel kb code
        ≡ some (kb', action, woken))
      × IsValid kb'
      × ((j : ℕ)
          → j < 96
          → down_at kb'.keys j
            ≡ (if about kb code j then some (ltb code 128) else down_at kb.keys j))
unfolding keyboard_handler Ends
keyboard_handler-IsValid fuel kb code f v h =
    let (ch, kb1, done, s) = scan-Follows kb code v.keys_in h in
    let q : Kfifo.IsValid kb1.fifo = subst Kfifo.IsValid (sym s.fifo) v.queue in
    let v1 : IsValid kb1 = record { keys_in = s.keys_in; queue = q } in
    let (kb2, action, woken, ended, q2, k) = notify-Ends fuel kb1 ch f v1 in
    let v2 : IsValid kb2 = record { keys_in = ap length k ∙ s.keys_in; queue = q2 } in
    elim (Bool-cases (ch == 0)) [
      | inl e ↦ (kb1, Action.nothing, none, rw (done, e) refl, v1, s.down)
      | inr e ↦ (
        kb2,
        action,
        woken,
        rw (done, e) ended,
        v2,
        λ j l. ap (λ ks. down_at ks j) k ∙ s.down j l,
      )
    ]
