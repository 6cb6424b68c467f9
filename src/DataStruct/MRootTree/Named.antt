-- ===== src/DataStruct/MRootTree/Named.antt =====
-- Each node stands in the map under the id of its value.
use blockafile.Base.{
  ◌≡◌, refl, sym, ap, ◌∙◌, inl, inr, Option, none, some, Bytes, arith, Bool-cases, Option-cases,
  bytes_eq, bytes_eq_iff,
}
use blockafile.Base.Dict.{lookup, insert, lookup-insert}
use blockafile.DataStruct.MRootTree.{
  Node, MRootTree, find, new_tree, link, prepend_element, make_node,
}
use blockafile.DataStruct.MRootTree.WellFormed.{lookup-link_back}
use blockafile.DataStruct.MRootTree.Prepend.{prepend_element-clash, prepend_element-nodes}

module _ {E : Type 0} (id_of : E → Bytes) where
  abbrev pub IsNamed : MRootTree E → Type 0
  IsNamed t = (i : Bytes) (n : Node E) → find t i ≡ some n → id_of n.value ≡ i

  pub new_tree-IsNamed : IsNamed new_tree
  unfolding lookup
  new_tree-IsNamed i n h = absurd (ground arith)

  linked-IsNamed :
      (head : Option (Node E)) (k : Bytes) (t : MRootTree E)
      → IsNamed t
      → IsNamed (record t { nodes = link head k t.nodes })
  linked-IsNamed head k t named i n h =
      let (m, found, same) = lookup-link_back head k i t.nodes n h in
      ap id_of same.3 ∙ named i m found

  made-value :
      (e : E) (head : Option (Node E))
      → ((make_node id_of e head).id ≡ id_of e) × ((make_node id_of e head).value ≡ e)
  made-value e none = (refl, refl)
  made-value e (some h) = (refl, refl)

  pub prepend_element-IsNamed :
      (e : E) (head : Option (Node E)) (t : MRootTree E)
      → IsNamed t
      → IsNamed (prepend_element id_of e head t).1
  prepend_element-IsNamed e head t named i n h =
      let made = make_node id_of e head in
      let linked = link head made.id t.nodes in
      let before = linked-IsNamed head made.id t named in
      elim (Option-cases (lookup made.id linked)) [
        | inr (k, clash) ↦
            before i n
              (ap (λ r. find r.1 i) (sym (prepend_element-clash id_of e head t k clash)) ∙ h)
        | inl fresh ↦
            let f = prepend_element-nodes id_of e head t fresh in
            let at : lookup i (insert made.id made linked) ≡ some n = ap (lookup i) (sym f.1) ∙ h in
            let split = lookup-insert made.id i made linked in
            elim (Bool-cases (bytes_eq made.id i)) [
              | inl same ↦
                  let is_made : made ≡ n = ground arith in
                  let (key, value) = made-value e head in
                  let name : made.id ≡ i = ground (arith, bytes_eq_iff made.id i) in
                  ap (λ (x : Node E). id_of x.value) (sym is_made) ∙ ap id_of value ∙ sym key ∙ name
              | inr other ↦ before i n (ground arith)
            ]
      ]
