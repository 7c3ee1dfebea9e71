-- ===== src/Strings.antt =====
-- src/lib/string.c: strings and blocks of bytes. A pointer is the list of the bytes from it to the
-- end of its buffer; `none` is an access beyond that end. A returned pointer is the number of bytes
-- passed, or `none` for `NULL`. A `char` is a signed byte, kept as its 8 bits.
pub mod Laws
mod Tests
use light_os.Base.{
  ℕ, zero, suc, ◌+◌, ◌-◌, ◌%◌, ◌^◌, Bool, true, false, ◌&&◌, ◌||◌, not, Option, none, some, List,
  [], ◌∷◌, ltb, ◌==◌, if◌then◌else◌, ◌>>=◌, ◌>>◌, assert, length, set,
}

-- What the comparisons return: -1, 0, or 1.
pub data Sign : Type 0 where
  less : Sign
  equal : Sign
  greater : Sign

-- `*l < *r ? -1 : *l > *r`
abbrev pub compare_chars : ℕ → ℕ → Sign
compare_chars l r =
    let l' = (l + 128) % 2 ^ 8 in
    let r' = (r + 128) % 2 ^ 8 in if ltb l' r' then less else if ltb r' l' then greater else equal

abbrev pub is_separator : ℕ → Bool
is_separator c = c == b'/' || c == b'\\'

unfoldable pub strcpy : List ℕ → List ℕ → Option (List ℕ)
strcpy [] src = none
strcpy (x ∷ dest) [] = none
strcpy (x ∷ dest) (c ∷ src) =
    let rest = strcpy dest src in
    if c == 0 then some (c ∷ dest) else rest >>= λ dest'. some (c ∷ dest')

-- The loop of `strncpy`, with whether it met the end of the string.
unfoldable pub strncpy_loop : (rounds : ℕ) → List ℕ → List ℕ → Option (Bool × List ℕ)
strncpy_loop zero dest src = some (false, dest)
strncpy_loop (suc rounds) [] src = none
strncpy_loop (suc rounds) (x ∷ dest) [] = none
strncpy_loop (suc rounds) (x ∷ dest) (c ∷ src) =
    let rest = strncpy_loop rounds dest src in
    if c == 0 then some (true, c ∷ dest) else rest >>= λ r. some (r.0, c ∷ r.1)

-- `dest[count - 1] = EOS` behind the loop
unfoldable pub cut_off : ℕ → Bool × List ℕ → Option (List ℕ)
cut_off count (true, dest) = some dest
cut_off zero (false, dest) = none
cut_off (suc last) (false, dest) = do assert (ltb last (length dest)); some (set dest last 0)

unfoldable pub strncpy : List ℕ → List ℕ → ℕ → Option (List ℕ)
strncpy dest src count = do r ← strncpy_loop count dest src; cut_off count r

unfoldable pub strcat : List ℕ → List ℕ → Option (List ℕ)
strcat [] src = none
strcat (x ∷ dest) src =
    let rest = strcat dest src in
    if x == 0 then strcpy (x ∷ dest) src else rest >>= λ dest'. some (x ∷ dest')

unfoldable pub strnlen : List ℕ → ℕ → Option ℕ
strnlen [] maxlen = none
strnlen (c ∷ str) zero = some 0
strnlen (c ∷ str) (suc maxlen) =
    let rest = strnlen str maxlen in if c == 0 then some 0 else rest >>= λ n. some (suc n)

unfoldable pub strlen : List ℕ → Option ℕ
strlen [] = none
strlen (c ∷ str) = let rest = strlen str in if c == 0 then some 0 else rest >>= λ n. some (suc n)

unfoldable pub strcmp : List ℕ → List ℕ → Option Sign
strcmp [] rhs = none
strcmp (l ∷ lhs) [] = none
strcmp (l ∷ lhs) (r ∷ rhs) =
    let rest = strcmp lhs rhs in
    if l == r && not (l == 0) && not (r == 0) then rest else some (compare_chars l r)

unfoldable pub strchr : List ℕ → ℕ → Option (Option ℕ)
strchr [] ch = none
strchr (c ∷ str) ch =
    let rest = strchr str ch in
    if c == ch
    then some (some 0)
    else if c == 0
    then some none
    else rest >>= λ o. some (o >>= λ n. some (suc n))

-- The loop of `strrchr` and `strrsep` behind `i` bytes, with the last match so far.
unfoldable pub find_last : (ℕ → Bool) → List ℕ → (i : ℕ) → Option ℕ → Option (Option ℕ)
find_last p [] i last = none
find_last p (c ∷ str) i last =
    let last' = if p c then some i else last in
    let rest = find_last p str (i + 1) last' in if c == 0 then some last' else rest

unfoldable pub strrchr : List ℕ → ℕ → Option (Option ℕ)
strrchr str ch = find_last (λ c. c == ch) str 0 none

unfoldable pub memcmp : List ℕ → List ℕ → ℕ → Option Sign
memcmp lhs rhs zero = some equal
memcmp [] rhs (suc count) = none
memcmp (l ∷ lhs) [] (suc count) = none
memcmp (l ∷ lhs) (r ∷ rhs) (suc count) =
    let rest = memcmp lhs rhs count in if l == r then rest else some (compare_chars l r)

unfoldable pub memset : List ℕ → (ch count : ℕ) → Option (List ℕ)
memset dest ch zero = some dest
memset [] ch (suc count) = none
memset (x ∷ dest) ch (suc count) = memset dest ch count >>= λ dest'. some (ch % 2 ^ 8 ∷ dest')

-- The blocks do not overlap.
unfoldable pub memcpy : List ℕ → List ℕ → ℕ → Option (List ℕ)
memcpy dest src zero = some dest
memcpy [] src (suc count) = none
memcpy (x ∷ dest) [] (suc count) = none
memcpy (x ∷ dest) (c ∷ src) (suc count) = memcpy dest src count >>= λ dest'. some (c ∷ dest')

-- A byte that is missing has no result: the function ends with no `return`.
unfoldable pub memchr : List ℕ → (ch count : ℕ) → Option ℕ
memchr str ch zero = none
memchr [] ch (suc count) = none
memchr (c ∷ str) ch (suc count) =
    let rest = memchr str ch count in if c == ch then some 0 else rest >>= λ n. some (suc n)

unfoldable pub strsep : List ℕ → Option (Option ℕ)
strsep [] = none
strsep (c ∷ str) =
    let rest = strsep str in
    if is_separator c
    then some (some 0)
    else if c == 0
    then some none
    else rest >>= λ o. some (o >>= λ n. some (suc n))

unfoldable pub strrsep : List ℕ → Option (Option ℕ)
strrsep str = find_last is_separator str 0 none
