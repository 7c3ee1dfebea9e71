-- ===== src/Linked/Tests.antt =====
-- Runs of the lists of src/lib/list.c.
use light_os.Base.{ℕ, ◌*◌, ◌≡◌, refl, ◌==◌, if◌then◌else◌, some, [], ◌∷◌, arith}
use light_os.Linked.{Heap, LinkedList, remove, insert_sort}
use light_os.Linked.Chains.{Apart}
use light_os.Linked.Loops.{Holds, place}
use light_os.Linked.Refine.{remove-Holds, insert_sort-Holds}

abbrev ends : LinkedList
ends = record { head = 100; tail = 108 }

-- Two nodes, at 20 and at 40, of which the first has a key twice its address.
abbrev two_nodes : Heap
two_nodes = record {
  next = λ p. if p == 100 then 20 else if p == 20 then 40 else if p == 40 then 108 else 0;
  prev = λ p. if p == 20 then 100 else if p == 40 then 20 else if p == 108 then 40 else 0;
}

two_nodes-Holds : Holds two_nodes ends (20 ∷ 40 ∷ [])
two_nodes-Holds = record {
  chain = (refl, refl, (refl, refl, (refl, refl, tt)));
  distinct = ground arith;
}

fresh_node : Apart 30 (0 ∷ 100 ∷ 20 ∷ 40 ∷ 108 ∷ [])
fresh_node = ground arith

abbrev key : ℕ → ℕ
key p = 2 * p

remove-Holds_example :
    (h' : Heap) × (remove two_nodes 40 ≡ some h')
    × Holds h' ends (20 ∷ [])
    × (h'.next 40 ≡ 0)
    × (h'.prev 40 ≡ 0)
remove-Holds_example = remove-Holds 40 (20 ∷ []) [] two_nodes-Holds

insert_sort-Holds_example :
    (h' : Heap) × (insert_sort 3 key two_nodes ends 30 ≡ some h')
    × Holds h' ends (place key 30 (20 ∷ 40 ∷ []))
insert_sort-Holds_example =
    insert_sort-Holds 3 key 30 two_nodes-Holds fresh_node refl refl (omega arith)
