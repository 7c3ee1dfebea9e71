-- ===== src/Paths.antt =====
-- src/fs/namei.c: access rights, and the comparison of the first part of a path with a name. Strings
-- are the bytes up to the end of their buffer, and an access behind it is `none`.
pub mod Match
pub mod Entries
pub mod Walk
pub mod Calls
pub mod Open
pub mod Opened
pub mod Search
pub mod Empty
pub mod Shorter
pub mod Rounds
mod CallTests
pub mod Held
pub mod Trail
pub mod Balance
pub mod Refs
pub mod Removal
pub mod Run
pub mod References
mod Tests
use Prim.Native.Nat.{bit_and}
use light_os.Base.{
  ℕ, zero, suc, ◌/◌, ◌^◌, ◌≡◌, Bool, true, false, not, ◌&&◌, Option, none, some, List, [], ◌∷◌,
  ◌==◌, if◌then◌else◌, ◌>>=◌,
}
use light_os.Strings.{is_separator}

-- The owner, the group, the mode and the links of an inode.
pub record Inode : Type 0 where
  pub mode : ℕ
  pub uid : ℕ
  pub gid : ℕ
  pub nlinks : ℕ

unfoldable pub permission : (uid gid : ℕ) → Inode → (mask : ℕ) → Bool
permission uid gid inode mask =
    let mode =
      if uid == inode.uid
      then inode.mode / 2 ^ 6
      else if gid == inode.gid
      then inode.mode / 2 ^ 3
      else inode.mode in
    if inode.nlinks == 0
    then false
    else if uid == 0
    then true
    else bit_and (bit_and mode mask) 0b111 == mask

unfoldable pub skip_separators : List ℕ → Option (List ℕ)
skip_separators [] = none
skip_separators (c ∷ name) =
    let rest = skip_separators name in if is_separator c then rest else some (c ∷ name)

-- What is left when the common part has ended: `some none` is no match, else the next part.
unfoldable pub match_end : (l : ℕ) → (lhs : List ℕ) → (r : ℕ) → Option (List ℕ)
match_end l lhs r =
    if not (r == 0)
    then none
    else if l == 0
    then some (l ∷ lhs)
    else if is_separator l
    then some lhs
    else none

unfoldable pub match_parts : List ℕ → List ℕ → Option (Option (List ℕ))
match_parts [] rhs = none
match_parts (l ∷ lhs) [] = none
match_parts (l ∷ lhs) (r ∷ rhs) =
    let rest = match_parts lhs rhs in
    if l == r && not (l == 0) && not (r == 0) then rest else some (match_end l lhs r)

unfoldable pub match_name : (name entry_name : List ℕ) → Option (Option (List ℕ))
match_name name entry_name = do lhs ← skip_separators name; match_parts lhs entry_name
