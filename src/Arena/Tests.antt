-- ===== src/Arena/Tests.antt =====
-- Runs of src/lib/arena.c.
use light_os.Arena.{Heap, page_arena, kmalloc}
use light_os.Arena.Fit.{Served, kmalloc-Served}
use light_os.Base.{ℕ, ◌≡◌, refl, some, [], ◌∷◌, arith}

-- An empty heap that can get one page.
abbrev one_page : Heap
one_page = record { at = λ p. page_arena p 0; free_list = []; used_list = []; pages = 8192 ∷ [] }

kmalloc-Served_example :
    (q : ℕ) × (h' : Heap) × (kmalloc 2 one_page 100 ≡ some ((h'.at q).buf, h')) × Served h' q 100
kmalloc-Served_example =
    kmalloc-Served 0 one_page 100 8192 [] (omega arith) refl (omega arith, omega arith)
