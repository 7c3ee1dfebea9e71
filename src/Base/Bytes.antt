-- ===== src/Base/Bytes.antt =====
-- Bits of a byte by the operators of C, and their laws, checked at every byte.
use Prim.Native.Nat.{ℕ, zero, suc, ◌-◌, ◌<◌, ◌^◌, bit_and, bit_or}
use mathlib.Core.Path.{◌≡◌, refl}
use mathlib.Core.Logic.{inl, inr}
use mathlib.Core.Bool.{Bool, true, false, not}
use native.Mathlib.Omega.{arith}
use light_os.Base.Tests.{ltb, ◌==◌, if◌then◌else◌, ltb→lt, Bool-cases}

-- Whether a test holds of every number under a bound: how a law of bytes is checked by evaluation.
unfoldable pub up_to : (ℕ → Bool) → ℕ → Bool
up_to p zero = true
up_to p (suc n) = if up_to p n then p n else false

pub up_to-lt : (p : ℕ → Bool) {n i : ℕ} → i < n → up_to p n ≡ true → p i ≡ true
unfolding up_to
up_to-lt p {n = zero} lt all = absurd (omega arith)
up_to-lt p {n = suc n} {i = i} lt all = elim (Bool-cases (i == n)) [
  | inl last ↦ ground arith
  | inr other ↦ up_to-lt p {n = n} {i = i} (ground arith) (ground arith)
]

-- `b & (1 << k)` as a truth value
unfoldable pub test_bit : ℕ → ℕ → Bool
test_bit b k = not (bit_and b (2 ^ k) == 0)

-- `b |= (1 << k)` or `b &= ~(1 << k)` on a byte
unfoldable pub put_bit : ℕ → ℕ → Bool → ℕ
put_bit b k v = if v then bit_or b (2 ^ k) else bit_and b (255 - 2 ^ k)

same : Bool → Bool → Bool
same true b = b
same false b = not b

same_sound : (a b : Bool) → same a b ≡ true → a ≡ b
unfolding same
same_sound true true h = refl
same_sound true false h = ground arith
same_sound false true h = ground arith
same_sound false false h = refl

law : Bool → ℕ → ℕ → ℕ → Bool
law v b k j = same (test_bit (put_bit b k v) j) (if k == j then v else test_bit b j)

table : Bool → Bool
table v = up_to (λ b. up_to (λ k. up_to (law v b k) 8) 8) 256

table_holds : (v : Bool) → table v ≡ true
unfolding table up_to law same test_bit put_bit
table_holds true = refl
table_holds false = refl

pub test_bit-put_bit :
    (b k j : ℕ) (v : Bool)
    → b < 256
    → k < 8
    → j < 8
    → test_bit (put_bit b k v) j ≡ (if k == j then v else test_bit b j)
unfolding table law
test_bit-put_bit b k j v hb hk hj =
    let row = up_to-lt (λ b. up_to (λ k. up_to (law v b k) 8) 8) hb (table_holds v) in
    let place = up_to-lt (λ k. up_to (law v b k) 8) hk row in
    same_sound _ _ (up_to-lt (law v b k) hj place)

bound : Bool → Bool
bound v = up_to (λ b. up_to (λ k. ltb (put_bit b k v) 256) 8) 256

bound_holds : (v : Bool) → bound v ≡ true
unfolding bound up_to put_bit
bound_holds true = refl
bound_holds false = refl

pub put_bit-lt : (b k : ℕ) (v : Bool) → b < 256 → k < 8 → put_bit b k v < 256
unfolding bound
put_bit-lt b k v hb hk =
    let row = up_to-lt (λ b. up_to (λ k. ltb (put_bit b k v) 256) 8) hb (bound_holds v) in
    ltb→lt _ _ (up_to-lt (λ k. ltb (put_bit b k v) 256) hk row)

zero_table : up_to (λ k. same (test_bit 0 k) false) 8 ≡ true
unfolding up_to same test_bit
zero_table = refl

pub test_bit-zero : (k : ℕ) → k < 8 → test_bit 0 k ≡ false
test_bit-zero k h = same_sound _ _ (up_to-lt (λ k. same (test_bit 0 k) false) h zero_table)
