-- ===== src/State/TreeManager/Threads/Unharmed.antt =====
-- What no interleaving of the tree manager's goroutines can do to the tree.
use blockafile.Base.{ℕ, suc, ◌+◌, ◌<◌, ◌≤◌, ◌≡◌, ◌∙◌, Option, some, Bytes, arith}
use blockafile.Crypto.Block.{Block}
use blockafile.DataStruct.MRootTree.{Node, MRootTree, find, uint64_size}
use blockafile.DataStruct.MRootTree.WellFormed.{IsWellFormed, Alike}
use blockafile.Crypto.Block as Crypto
use blockafile.DataStruct.MRootTree.Named.{IsNamed}
use blockafile.State.BlockTree.Grows.{Grown-refl}
use blockafile.State.TreeManager.Threads.{Task, World, System, Runs, here, later, perform}
use blockafile.State.TreeManager.Threads.Safe.{tree_of, Step-Keeps, perform_returns}

-- From `t` to `t'`, no node is lost, and each keeps its id, height, child and block.
abbrev pub Stays : MRootTree Block → MRootTree Block → Type 0
Stays t t' =
    (i : Bytes) (n : Node Block)
    → find t i ≡ some n
    → (n' : Node Block) × (find t' i ≡ some n') × Alike n' n

Stays-trans : (t t' t'' : MRootTree Block) → Stays t t' → Stays t' t'' → Stays t t''
Stays-trans t t' t'' h h' i n found =
    let (n', found', a) = h i n found in
    let (n'', found'', b) = h' i n' found' in
    (n'', found'', (b.0 ∙ a.0, b.1 ∙ a.1, b.2 ∙ a.2, b.3 ∙ a.3))

module _ (md5 : Bytes → Bytes) where
  Runs-grown :
      {s u : System} {n : ℕ}
      → IsWellFormed (tree_of s.world)
      → (tree_of s.world).height + n < uint64_size
      → Runs md5 s n u
      → IsWellFormed (tree_of u.world)
        × Stays (tree_of s.world) (tree_of u.world)
        × ((tree_of u.world).height ≤ (tree_of s.world).height + n)
        × (IsNamed (Crypto.id md5) (tree_of s.world) → IsNamed (Crypto.id md5) (tree_of u.world))
  Runs-grown {s} wf room here =
      (wf, (Grown-refl md5 (tree_of s.world)).0, omega arith, λ named. named)
  Runs-grown {s} {u} wf room (later {t = t} r step) =
      let (wf', stays, high, names) = Runs-grown wf (omega arith) r in
      let (wf'', (stays', high', names')) = Step-Keeps md5 wf' (omega arith) step in
      (
        wf'',
        Stays-trans (tree_of s.world) (tree_of t.world) (tree_of u.world) stays stays',
        omega arith,
        λ named. names' (names named),
      )

  -- Let the goroutines of a tree manager with a well-formed tree take any n steps, in any order,
  -- with any answers of the remote miners, while the tree's height and n stay below the greatest
  -- height of a node. Then the tree is well-formed, every node that was in it is found with its
  -- id, height, child and block, the tree is higher by at most n, the nodes still stand under the ids of
  -- their blocks if they did, and no goroutine's next step panics.
  pub Runs-Safe :
      {s u : System} {n : ℕ}
      → IsWellFormed (tree_of s.world)
      → (tree_of s.world).height + suc n < uint64_size
      → Runs md5 s n u
      → IsWellFormed (tree_of u.world)
        × Stays (tree_of s.world) (tree_of u.world)
        × ((tree_of u.world).height ≤ (tree_of s.world).height + n)
        × (IsNamed (Crypto.id md5) (tree_of s.world) → IsNamed (Crypto.id md5) (tree_of u.world))
        × ((i : ℕ) (answer : Option Block)
            → (r : World × Task) × (perform md5 u.world answer (u.tasks i) ≡ some r))
  Runs-Safe {u = u} wf room runs =
      let (wf', stays, high, names) = Runs-grown wf (omega arith) runs in
      (
        wf',
        stays,
        high,
        names,
        λ i answer. perform_returns md5 u.world wf' (omega arith) answer (u.tasks i),
      )
