-- ===== src/Bitmap/Tests.antt =====
-- The theorems on the bitmap, at a map of 16 bits.
use light_os.Base.{refl, [], ◌∷◌, arith}
use light_os.Bitmap.{scan}
use light_os.Bitmap.{Bitmap, IsValid}
use light_os.Bitmap.Scan.{Scanned, scan-Scanned}

-- the bits 0 to 2 and 5 are set; the first index is 100
abbrev sixteen : Bitmap
sixteen = record { bits = 0b10_0111 ∷ 0 ∷ []; length = 2; offset = 100 }

sixteen-IsValid : IsValid sixteen
sixteen-IsValid = record {
  sized = refl;
  bytes = (omega arith, (omega arith, tt));
  fits = omega arith;
}

scan-Scanned_example : Scanned sixteen 3 (scan sixteen 3)
scan-Scanned_example = scan-Scanned sixteen 3 sixteen-IsValid (omega arith)
