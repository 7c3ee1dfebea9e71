-- ===== src/Strings/Tests.antt =====
-- The theorems on strings, at concrete buffers.
use light_os.Base.{ℕ, ◌≡◌, refl, some, List, [], ◌∷◌}
use light_os.Strings.{equal, strcmp}
use light_os.Strings.Laws.{terminated}

abbrev dev : List ℕ
dev = b'd' ∷ b'e' ∷ b'v' ∷ []

dev-dev : strcmp (terminated dev (1 ∷ [])) (terminated dev (2 ∷ [])) ≡ some equal
unfolding strcmp
dev-dev = refl
