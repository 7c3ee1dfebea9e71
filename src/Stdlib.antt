-- ===== src/Stdlib.antt =====
-- src/lib/stdlib.c: conversions of numbers. A string is the list of its bytes before the `EOS`.
pub mod Laws
mod Tests
use Prim.Native.Nat.{bit_and}
use light_os.Base.{
  ℕ, zero, suc, ◌+◌, ◌-◌, ◌*◌, ◌/◌, ◌%◌, ◌^◌, Bool, true, false, ◌&&◌, List, [], ◌∷◌, leb, ◌==◌,
  if◌then◌else◌,
}

-- results are cut to `u8`
unfoldable pub bcd_to_bin : ℕ → ℕ
bcd_to_bin value = (bit_and value 0xf + value / 2 ^ 4 * 10) % 2 ^ 8

unfoldable pub bin_to_bcd : ℕ → ℕ
bin_to_bcd value = (value / 10 * 2 ^ 4 + value % 10) % 2 ^ 8

unfoldable pub div_round_up : ℕ → ℕ → ℕ
div_round_up num size = (num + size + 2 ^ 32 - 1) % 2 ^ 32 / size

unfoldable pub skip_spaces : List ℕ → List ℕ
skip_spaces [] = []
skip_spaces (c ∷ s) = if c == b' ' then skip_spaces s else c ∷ s

-- `while (str[i] >= '0' && str[i] <= '9')` on `u32`
unfoldable pub read_digits : ℕ → List ℕ → ℕ
read_digits result [] = result
read_digits result (c ∷ s) =
    let rest = read_digits ((result * 10 + (c - b'0')) % 2 ^ 32) s in
    if leb b'0' c && leb c b'9' then rest else result

-- `result * sign` on `u32`
unfoldable pub signed : Bool → ℕ → ℕ
signed negative result = if negative then (2 ^ 32 - result) % 2 ^ 32 else result

unfoldable pub read_sign : List ℕ → ℕ
read_sign [] = 0
read_sign (c ∷ s) =
    if c == b'-'
    then signed true (read_digits 0 s)
    else if c == b'+'
    then read_digits 0 s
    else read_digits 0 (c ∷ s)

unfoldable pub atoi : List ℕ → ℕ
atoi str = read_sign (skip_spaces str)
