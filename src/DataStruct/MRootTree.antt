-- ===== src/DataStruct/MRootTree.antt =====
-- shared/datastruct/mrootedtree.go: a tree that grows at its leaves, kept as a map from ids to nodes.
-- A `*Node` is the node as it was made; the map holds its current state. `Id`, `Height`, `child`
-- and `Value` never change, and `Parents`, which does, is read by nothing. Ids are unique in the
-- map, so a pointer is followed, and used as a key, by its id. `Height` is a uint64.
pub mod WellFormed
pub mod Prepend
pub mod Named
use blockafile.Base.{
  ℕ, zero, suc, ◌+◌, ◌%◌, ◌≡◌, Bool, Option, none, some, List, [], ◌∷◌, ◌++◌, Bytes, length, leb,
  if◌then◌else◌,
}
use blockafile.Base.Dict.{Dict, lookup, insert, erase}

abbrev pub uint64_size : ℕ
uint64_size = 18446744073709551616

pub record Node (E : Type 0) : Type 0 where
  pub id : Bytes
  pub height : ℕ
  pub child : Option Bytes
  pub value : E
  pub parents : List Bytes

-- `rootsFasS` is keyed by the node's pointer.
pub record MRootTree (E : Type 0) : Type 0 where
  pub height : ℕ
  pub roots : List Bytes
  pub roots_fas_s : Dict ℕ
  pub nodes : Dict (Node E)
  pub longest_chain_head : Option Bytes

-- `NewMRootTree`
abbrev pub new_tree : {E : Type 0} → MRootTree E
new_tree = record {
  height = 0;
  roots = [];
  roots_fas_s = [];
  nodes = [];
  longest_chain_head = none;
}

-- `roots[i] = v`; the index is always one that `rootsFasS` holds.
abbrev pub set_root : List Bytes → ℕ → Bytes → List Bytes
set_root [] i v = []
set_root (x ∷ xs) zero v = v ∷ xs
set_root (x ∷ xs) (suc i) v = x ∷ set_root xs i v

module _ {E : Type 0} where
  -- `Find`
  abbrev pub find : MRootTree E → Bytes → Option (Node E)
  find t i = lookup i t.nodes

  -- A pointer that may be nil.
  abbrev pub deref : MRootTree E → Option Bytes → Option (Node E)
  deref t none = none
  deref t (some i) = find t i

  -- `Node.Next`
  abbrev pub next : MRootTree E → Node E → Option (Node E)
  next t n = deref t n.child

  -- `GetRoots`
  abbrev pub get_roots : MRootTree E → List Bytes
  get_roots t = t.roots

  -- `GetLongestChain`
  abbrev pub get_longest_chain : MRootTree E → Option (Node E)
  get_longest_chain t = deref t t.longest_chain_head

  -- `head.Parents = append(head.Parents, &newNode)`
  unfoldable pub link : Option (Node E) → Bytes → Dict (Node E) → Dict (Node E)
  link none i nodes = nodes
  link (some head) i nodes = elim (lookup head.id nodes) [
    | none ↦ nodes
    | some n ↦ insert head.id (record n { parents = n.parents ++ i ∷ [] }) nodes
  ]

  abbrev pub root_index : Option (Node E) → Dict ℕ → Option ℕ
  root_index none roots = none
  root_index (some head) roots = lookup head.id roots

  abbrev head_id : Option (Node E) → Bytes
  head_id none = []
  head_id (some head) = head.id

  -- `t.roots` and `t.rootsFasS` with the new node: in its head's place, or as one more root.
  unfoldable pub place_root : Option (Node E) → Bytes → MRootTree E → MRootTree E
  place_root head i t = elim (root_index head t.roots_fas_s) [
    | some idx ↦ record t {
      roots = set_root t.roots idx i;
      roots_fas_s = insert i idx (erase (head_id head) t.roots_fas_s);
    }
    | none ↦ record t {
      roots = t.roots ++ i ∷ [];
      roots_fas_s = insert i (length t.roots) t.roots_fas_s;
    }
  ]

  module _ (id_of : E → Bytes) where
    -- The node that `PrependElement` makes.
    abbrev pub make_node : E → Option (Node E) → Node E
    make_node e none = record { id = id_of e; height = 0; child = none; value = e; parents = [] }
    make_node e (some head) = record {
      id = id_of e;
      height = (head.height + 1) % uint64_size;
      child = some head.id;
      value = e;
      parents = [];
    }

    -- `PrependElement`: `none` is its error, after which the head has kept the new parent.
    unfoldable pub prepend_element :
        E → Option (Node E) → MRootTree E → Option (Node E) × MRootTree E
    prepend_element e head t =
        let new_node = make_node e head in
        let linked = link head new_node.id t.nodes in
        elim (lookup new_node.id linked) [
          | some _ ↦ (none, record t { nodes = linked })
          | none ↦
              let added = record t { nodes = insert new_node.id new_node linked } in
              let placed = place_root head new_node.id added in
              (
                some new_node,
                if leb placed.height new_node.height
                    then record placed {
                      longest_chain_head = some new_node.id;
                      height = new_node.height;
                    }
                    else placed,
              )
        ]
