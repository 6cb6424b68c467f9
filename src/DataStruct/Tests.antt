-- ===== src/DataStruct/Tests.antt =====
-- The queue and the tree on small inputs.
use blockafile.Base.{ℕ, ◌≡◌, refl, Bool, none, some, List, [], ◌∷◌, ◌==◌, Bytes}
use blockafile.DataStruct.Queue.{Queue, contents}
use blockafile.DataStruct.Queue.Fifo.{Op, put, get, reset, run, run_list, run_refines}
use blockafile.DataStruct.MRootTree.{
  Node, MRootTree, new_tree, prepend_element, make_node, link, place_root,
}
use blockafile.Base.{bytes_eq, arith}
use blockafile.Base.Dict.{lookup, insert}
use blockafile.DataStruct.MRootTree.WellFormed.{IsWellFormed, PointsInto, new_tree-IsWellFormed}
use blockafile.DataStruct.MRootTree.Prepend.{prepend_element-IsWellFormed}

abbrev turned : Queue ℕ
turned = record { enqueued = 4 ∷ 5 ∷ []; dequeued = 3 ∷ 2 ∷ [] }

abbrev calls : List (Op ℕ)
calls = get ∷ put 6 ∷ get ∷ get ∷ reset ∷ get ∷ []

run_refines_example :
    ((run calls turned).0 ≡ (run_list calls (contents turned)).0)
    × (contents (run calls turned).1 ≡ (run_list calls (contents turned)).1)
run_refines_example = run_refines calls turned

abbrev is_four : ℕ → Bool
is_four n = n == 4

abbrev id_of : ℕ → Bytes
id_of n = n ∷ []

abbrev one_node : MRootTree ℕ
one_node = (prepend_element id_of 7 none new_tree).1

abbrev first_node : Node ℕ
first_node = make_node id_of 7 none

one_node-IsWellFormed : IsWellFormed one_node
one_node-IsWellFormed = prepend_element-IsWellFormed id_of 7 none new_tree new_tree-IsWellFormed tt

first_node-PointsInto : PointsInto one_node (some first_node)
unfolding prepend_element lookup link place_root insert bytes_eq
first_node-PointsInto = (first_node, refl, refl, omega arith)
