-- ===== src/Paths/Tests.antt =====
-- The theorem on names, at a path with two parts.
use light_os.Base.{ℕ, ◌≡◌, refl, some, List, [], ◌∷◌}
use light_os.Strings.Laws.{terminated}
use light_os.Paths.{skip_separators, match_name, match_parts, match_end}

abbrev name : List ℕ
name = b'/' ∷ b'd' ∷ b'e' ∷ b'v' ∷ b'/' ∷ b'h' ∷ 0 ∷ []

abbrev dev : List ℕ
dev = b'd' ∷ b'e' ∷ b'v' ∷ []

name_matches : match_name name (terminated dev []) ≡ some (some (b'h' ∷ 0 ∷ []))
unfolding match_name skip_separators match_parts match_end
name_matches = refl
