-- ===== src/DataStruct/MRootTree/Prepend.antt =====
-- `PrependElement` keeps the invariant, and changes nothing but what it says.
use blockafile.Base.{
  ◌+◌, ◌≤◌, ◌≡◌, refl, inl, inr, true, Option, none, some, Bytes, arith, Bool-cases, Option-cases,
  bytes_eq_iff, bytes_eq_refl, leb, present, if◌then◌else◌,
}
use blockafile.Base.Dict.{Dict, lookup, insert, lookup-insert}
use blockafile.DataStruct.MRootTree.{
  Node, MRootTree, find, link, place_root, make_node, prepend_element,
}
use blockafile.DataStruct.MRootTree.WellFormed.{
  IsLinked, IsWellFormed, PointsInto, Alike, link-Holds, grown-Holds_top, grown-Holds_below,
  lookup-link_back, lookup-link_forth,
}

module _ {E : Type 0} where
  place_root_fields :
      (head : Option (Node E)) (i : Bytes) (t : MRootTree E)
      → ((place_root head i t).nodes ≡ t.nodes)
        × ((place_root head i t).height ≡ t.height)
        × ((place_root head i t).longest_chain_head ≡ t.longest_chain_head)
  unfolding place_root
  place_root_fields head i t = ground arith

  IsLinked-made :
      (id_of : E → Bytes) (e : E) (head : Option (Node E)) (t : MRootTree E)
      → PointsInto t head
      → let made = make_node id_of e head in IsLinked (link head made.id t.nodes) made
  IsLinked-made id_of e none t p = inl (refl, refl)
  IsLinked-made id_of e (some h) t (m, found, level, room) =
      let (n, found', same) = lookup-link_forth (some h) (id_of e) h.id t.nodes m found in
      inr (h.id, n, refl, found', omega (arith, same.1))

  make_node-height :
      (id_of : E → Bytes) (e : E) (head : Option (Node E)) (t : MRootTree E)
      → IsWellFormed t
      → PointsInto t head
      → (make_node id_of e head).height ≤ t.height + 1
  make_node-height id_of e none t w p = omega arith
  make_node-height id_of e (some h) t w (m, found, level, room) =
      let low = w.highest h.id m found in omega arith

  module _ (id_of : E → Bytes) (e : E) (head : Option (Node E)) (t : MRootTree E) where
    abbrev made : Node E
    made = make_node id_of e head

    abbrev linked : Dict (Node E)
    linked = link head made.id t.nodes

    pub prepend_element-clash :
        (k : Node E)
        → lookup made.id linked ≡ some k
        → prepend_element id_of e head t ≡ (none, record t { nodes = linked })
    unfolding prepend_element
    prepend_element-clash k h = ground arith

    abbrev placed : MRootTree E
    placed = place_root head made.id (record t { nodes = insert made.id made linked })

    prepend_element-fresh :
        lookup made.id linked ≡ none
        → prepend_element id_of e head t ≡ (
          some made,
          if leb placed.height made.height
              then record placed { longest_chain_head = some made.id; height = made.height }
              else placed,
        )
    unfolding prepend_element
    prepend_element-fresh h = ground arith

    -- Whether it adds a node or reports a clash of ids, PrependElement keeps the invariant, for a
    -- head that is nil or points into the tree.
    pub prepend_element-IsWellFormed :
        IsWellFormed t → PointsInto t head → IsWellFormed (prepend_element id_of e head t).1
    prepend_element-IsWellFormed w p = elim (Option-cases (lookup made.id linked)) [
      | inr (k, clash) ↦ rw (prepend_element-clash k clash) (link-Holds head _ _ _ _ w)
      | inl fresh ↦
          let f =
            place_root_fields head made.id (record t { nodes = insert made.id made linked }) in
          let before = link-Holds head made.id _ _ _ w in
          elim (Bool-cases (leb t.height made.height)) [
            | inl high ↦
                rw (prepend_element-fresh fresh, f.1, high, f.0)
                  (grown-Holds_top made linked fresh (IsLinked-made id_of e head t p) _ _ before
                    (ground arith))
            | inr low ↦
                rw (prepend_element-fresh fresh, f.1, low, f.0, f.2)
                  (grown-Holds_below made linked fresh (IsLinked-made id_of e head t p) _ _ before
                    (ground arith))
          ]
    ]

    pub prepend_element-height :
        IsWellFormed t
        → PointsInto t head
        → (prepend_element id_of e head t).1.height ≤ t.height + 1
    prepend_element-height w p = elim (Option-cases (lookup made.id linked)) [
      | inr (k, clash) ↦ rw (prepend_element-clash k clash) (omega arith)
      | inl fresh ↦
          let f =
            place_root_fields head made.id (record t { nodes = insert made.id made linked }) in
          let small = make_node-height id_of e head t w p in
          elim (Bool-cases (leb t.height made.height)) [
            | inl high ↦ rw (prepend_element-fresh fresh, f.1, high) small
            | inr low ↦ rw (prepend_element-fresh fresh, f.1, low) (omega arith)
          ]
    ]

    -- What a call of PrependElement has done. On success the new node is returned and found under
    -- its id, which named no node before; on an error the id named a node, and the tree's heads,
    -- height and roots stay. Every node that was in the tree is still found, with its id, height,
    -- child and value.
    pub record Prepends (r : Option (Node E) × MRootTree E) : Type 0 where
      pub old_kept :
          (i : Bytes) (n : Node E)
          → find t i ≡ some n
          → (n' : Node E) × (find r.1 i ≡ some n') × Alike n' n
      pub added :
          (n : Node E) → r.0 ≡ some n → (n ≡ made) × (find t n.id ≡ none) × (find r.1 n.id ≡ some n)
      pub clashed : r.0 ≡ none → present (find t made.id) ≡ true

    lookup-linked_none : lookup made.id linked ≡ none → find t made.id ≡ none
    lookup-linked_none fresh = elim (Option-cases (find t made.id)) [
      | inl e ↦ e
      | inr (m, found) ↦
          let (n, found', _) = lookup-link_forth head made.id made.id t.nodes m found in cc
    ]

    pub prepend_element-nodes :
        lookup made.id linked ≡ none
        → ((prepend_element id_of e head t).0 ≡ some made)
          × ((prepend_element id_of e head t).1.nodes ≡ insert made.id made linked)
    prepend_element-nodes fresh =
        let f = place_root_fields head made.id (record t { nodes = insert made.id made linked }) in
        ground (arith, prepend_element-fresh fresh, f.0)

    -- PrependElement loses no node and changes the id, height, child and value of none; it adds the new node
    -- under its id if no node has that id, and otherwise it reports an error.
    pub prepend_element-Prepends : Prepends (prepend_element id_of e head t)
    prepend_element-Prepends = elim (Option-cases (lookup made.id linked)) [
      | inr (k, clash) ↦
          let (m, was, _) = lookup-link_back head made.id made.id t.nodes k clash in
          rw (prepend_element-clash k clash) (record {
            old_kept = λ i n h. lookup-link_forth head made.id i t.nodes n h;
            added = λ n h. cc;
            clashed = λ _. rw was;
          })
      | inl fresh ↦
          let f = prepend_element-nodes fresh in
          let at = λ (i : Bytes). lookup-insert made.id i made linked in
          record {
            old_kept = λ i n h.
                let (n', found, same) = lookup-link_forth head made.id i t.nodes n h in
                (n', rw f.1 (ground (arith, at i, bytes_eq_iff made.id i)), same);
            added = λ n h.
                let is_made : n ≡ made = cc (f.0) in
                rw is_made
                  (refl, lookup-linked_none fresh, rw (f.1, at made.id, bytes_eq_refl made.id));
            clashed = λ h. cc (f.0);
          }
    ]
