-- ===== src/State/BlockTree/Depth.antt =====
-- `InLongestChain` ends, and says how far below the head a block of the longest chain is.
use blockafile.Base.{
  ℕ, zero, suc, ◌+◌, ◌≤◌, ◌≡◌, refl, inl, inr, Option, some, List, [], ◌∷◌, Bytes, arith, length,
  Bool-cases, bytes_eq, if◌then◌else◌,
}
use blockafile.Base.Int.{ℤ, pos, negsuc}
use blockafile.Crypto.Block.{Block}
use blockafile.DataStruct.MRootTree.{Node, MRootTree, next, get_longest_chain}
use blockafile.DataStruct.MRootTree.WellFormed.{IsWellFormed}
use blockafile.State.Chain.{IsChain, fill_slots-IsChain}
use blockafile.State.BlockTree.{BlockChainTree, depth_from, in_longest_chain}

-- The position, counted from `depth`, of the first node with the id `i` in a list, or -1.
pub position : Bytes → ℕ → List (Node Block) → ℤ
position i depth [] = negsuc 0
position i depth (n ∷ ns) =
    let deeper = position i (depth + 1) ns in if bytes_eq n.id i then pos depth else deeper

depth_from-position :
    (t : MRootTree Block) (i : Bytes) (fuel depth : ℕ) (cur : Option (Node Block))
    (ns : List (Node Block))
    → IsChain t cur ns
    → length ns ≤ fuel
    → depth_from t fuel i depth cur ≡ some (position i depth ns)
unfolding depth_from position
depth_from-position t i fuel depth cur [] nothing enough = rw nothing refl
depth_from-position t i zero depth cur (n ∷ ns) (here, chain) enough = absurd (omega arith)
depth_from-position t i (suc fuel) depth cur (n ∷ ns) (here, chain) enough =
    let deeper = depth_from-position t i fuel (depth + 1) (next t n) ns chain (omega arith) in
    elim (Bool-cases (bytes_eq n.id i)) [
      | inl same ↦ rw (here, same) refl
      | inr other ↦ rw (here, other) deeper
    ]

-- In a well-formed tree InLongestChain ends, on fuel of one more than the tree's height. What it
-- returns is the position of the block's id in the longest chain, the list of the nodes from the
-- head to a node with no child, or -1 if no node of the chain has the id.
pub in_longest_chain-position :
    (b : BlockChainTree) (i : Bytes)
    → IsWellFormed b.m_tree
    → (ns : List (Node Block)) × IsChain b.m_tree (get_longest_chain b.m_tree) ns
      × (in_longest_chain b i ≡ some (position i 0 ns))
unfolding in_longest_chain position
in_longest_chain-position b i w = elim w.head_found [
  | inl (nothing, _) ↦ ([], rw nothing refl, rw nothing refl)
  | inr (h, n, head, found, level) ↦
      let (ns, _, size, chain) = fill_slots-IsChain b.m_tree w b.m_tree.height h n found level in
      let longest : get_longest_chain b.m_tree ≡ some n = rw (head, found) refl in
      let whole : IsChain b.m_tree (get_longest_chain b.m_tree) ns = rw longest chain in
      (ns, whole, depth_from-position b.m_tree i (b.m_tree.height + 1) 0 _ ns whole (omega arith))
]
