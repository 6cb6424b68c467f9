-- ===== src/DataStruct/PriorityQueue/Tests.antt =====
-- A queue of three items.
use blockafile.Base.{ℕ, zero, suc, ◌<◌, refl, some, List, [], ◌∷◌, arith}
use blockafile.Base.Int.{pos, ◌≤ℤ◌}
use blockafile.DataStruct.PriorityQueue.{Item, heap_pop}
use blockafile.DataStruct.PriorityQueue.Removal.{Takes}
use blockafile.DataStruct.PriorityQueue.Heaps.{key}
use blockafile.DataStruct.PriorityQueue.Highest.{IsHeap, heap_pop-Highest}

abbrev item : ℕ → ℕ → ℕ → Item ℕ
item value priority index = record { value = value; priority = pos priority; index = some index }

abbrev three : List (Item ℕ)
three = item 10 9 0 ∷ item 11 4 1 ∷ item 12 7 2 ∷ []

three-IsHeap : IsHeap three
three-IsHeap zero p q = absurd (omega arith)
three-IsHeap (suc zero) p q = omega arith
three-IsHeap (suc (suc zero)) p q = omega arith
three-IsHeap (suc (suc (suc k))) p q = absurd (omega arith)

heap_pop-Highest_example :
    (t : Takes three (item 10 9 0) (heap_pop three)) × IsHeap t.rest
    × ((k : ℕ) → k < 3 → key three k ≤ℤ pos 9)
heap_pop-Highest_example = heap_pop-Highest three (item 10 9 0) three-IsHeap refl
