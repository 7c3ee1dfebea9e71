-- ===== src/Keyboard/Keymap.antt =====
-- The table of the keys of src/kernel/keyboard.c.
use light_os.Base.{ℕ, Bool, false, List, [], ◌∷◌}

-- A row of `keymap`: the character without and with shift, and whether the key is down, and its
-- twin with the extended code.
pub record Key : Type 0 where
  pub plain : ℕ
  pub shifted : ℕ
  pub down : Bool
  pub ext_down : Bool

abbrev pub key : (plain shifted : ℕ) → Key
key plain shifted = record { plain = plain; shifted = shifted; down = false; ext_down = false }

unfoldable pub keymap : List Key
keymap =
    key 0 0
    ∷ key 27 27
    ∷ key 49 33
    ∷ key 50 64
    ∷ key 51 35
    ∷ key 52 36
    ∷ key 53 37
    ∷ key 54 94
    ∷ key 55 38
    ∷ key 56 42
    ∷ key 57 40
    ∷ key 48 41
    ∷ key 45 95
    ∷ key 61 43
    ∷ key 8 8
    ∷ key 9 9
    ∷ key 113 81
    ∷ key 119 87
    ∷ key 101 69
    ∷ key 114 82
    ∷ key 116 84
    ∷ key 121 89
    ∷ key 117 85
    ∷ key 105 73
    ∷ key 111 79
    ∷ key 112 80
    ∷ key 91 123
    ∷ key 93 125
    ∷ key 10 10
    ∷ key 0 0
    ∷ key 97 65
    ∷ key 115 83
    ∷ key 100 68
    ∷ key 102 70
    ∷ key 103 71
    ∷ key 104 72
    ∷ key 106 74
    ∷ key 107 75
    ∷ key 108 76
    ∷ key 59 58
    ∷ key 39 34
    ∷ key 96 126
    ∷ key 0 0
    ∷ key 92 124
    ∷ key 122 90
    ∷ key 120 88
    ∷ key 99 67
    ∷ key 118 86
    ∷ key 98 66
    ∷ key 110 78
    ∷ key 109 77
    ∷ key 44 60
    ∷ key 46 62
    ∷ key 47 63
    ∷ key 0 0
    ∷ key 42 42
    ∷ key 0 0
    ∷ key 32 32
    ∷ key 0 0
    ∷ key 0 0
    ∷ key 0 0
    ∷ key 0 0
    ∷ key 0 0
    ∷ key 0 0
    ∷ key 0 0
    ∷ key 0 0
    ∷ key 0 0
    ∷ key 0 0
    ∷ key 0 0
    ∷ key 0 0
    ∷ key 0 0
    ∷ key 55 0
    ∷ key 56 0
    ∷ key 57 0
    ∷ key 45 45
    ∷ key 52 0
    ∷ key 53 0
    ∷ key 54 0
    ∷ key 43 43
    ∷ key 49 0
    ∷ key 50 0
    ∷ key 51 0
    ∷ key 48 0
    ∷ key 46 127
    ∷ key 0 0
    ∷ key 0 0
    ∷ key 0 0
    ∷ key 0 0
    ∷ key 0 0
    ∷ key 0 0
    ∷ key 0 0
    ∷ key 0 0
    ∷ key 0 0
    ∷ key 0 0
    ∷ key 0 0
    ∷ key 0 0
    ∷ []
