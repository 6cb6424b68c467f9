-- ===== src/State/TreeManager/Threads/Safe.antt =====
-- A step of the tree manager's goroutines and the tree.
use blockafile.Base.{
  suc, ◌<◌, ◌≡◌, refl, subst, ap, ◌∙◌, sym, Bool, Option, none, some, List, Bytes, arith,
}
use blockafile.Base.Result.{Result, ok, err}
use blockafile.Crypto.Block.{Block, BlockOp}
use blockafile.DataStruct.MRootTree.{Node, MRootTree, uint64_size}
use blockafile.DataStruct.MRootTree.WellFormed.{IsWellFormed}
use blockafile.DataStruct.Queue.{Queue, dequeue}
use blockafile.State.Validator.{JobSet}
use blockafile.State.BlockTree.{BlockChainTree, AddError, add, validate_block, block_tree_job_set}
use blockafile.State.BlockTree.Add.{add-Added, add-Added_of}
use blockafile.State.BlockTree.Grows.{Grown, Grown-refl, add-Grown}
use blockafile.State.TreeManager.{TreeManager, added}
use blockafile.State.TreeManager.Invariant.{added_returns}
use blockafile.State.TreeManager.Cleanup.{remove_nodes_starting_from-Cleaned}
use blockafile.State.TreeManager.Threads.{
  Task, ended, find_node, insert_block, look_for, look_for_parent, enqueue_block, notify, clean,
  ask, help, Finder, looping, draining, leaving, waiting, stopped, World, System, Step, act, turn,
  spawn, call, round, check, check_jobs, close, perform, find_node_thread, notified, inserted,
  swept, taken,
}

-- The tree of a system.
abbrev pub tree_of : World → MRootTree Block
tree_of w = w.manager.m_tree.m_tree

added-tree :
    (m : TreeManager) (o : Option (BlockChainTree × Result AddError (Node Block)))
    (r : TreeManager × Result AddError (Unit {0}))
    → added m o ≡ some r
    → (a : BlockChainTree × Result AddError (Node Block)) × (o ≡ some a) × (r.0.m_tree ≡ a.0)
added-tree m none r h = cc
added-tree m (some (tree, err e)) r h = (_, refl, ground arith)
added-tree m (some (tree, ok nd)) r h = (_, refl, ground arith)

inserted-manager :
    (w w' : World) (k : Result AddError (Unit {0}) → Task) (t : Task)
    (o : Option (TreeManager × Result AddError (Unit {0})))
    → inserted w k o ≡ some (w', t)
    → (r : TreeManager × Result AddError (Unit {0})) × (o ≡ some r) × (w'.manager ≡ r.0)
inserted-manager w w' k t none h = cc
inserted-manager w w' k t (some (m, r)) h = (_, refl, ground arith)

swept-tree :
    (w w' : World) (t t' : Task) (o : Option (Queue Block))
    → swept w t o ≡ some (w', t')
    → tree_of w' ≡ tree_of w
swept-tree w w' t t' none h = cc
swept-tree w w' t t' (some q) h = ground arith

taken-tree : (w : World) (d : Option Block × Queue Block) → tree_of (taken w d).0 ≡ tree_of w
taken-tree w (none, q) = refl
taken-tree w (some b, q) = refl

find_node_thread-tree : (w : World) → tree_of (find_node_thread w).0 ≡ tree_of w
unfolding find_node_thread
find_node_thread-tree w = by_finder w.finder
  where
    by_finder : (f : Finder) → tree_of (find_node_thread (record w { finder = f })).0 ≡ tree_of w
    by_finder looping = refl
    by_finder draining =
        taken-tree (record w { finder = draining }) (dequeue w.manager.find_block_queue)
    by_finder leaving = refl
    by_finder waiting = refl
    by_finder stopped = refl

block_tree_job_set-tree :
    (b b' : BlockChainTree) (ops : List BlockOp) (job : JobSet)
    → block_tree_job_set b ops ≡ some (b', job)
    → b'.m_tree ≡ b.m_tree
unfolding block_tree_job_set
block_tree_job_set-tree b b' ops job h = ground arith

module _ (md5 : Bytes → Bytes) where
  -- From `t`, a well-formed tree that has lost no node and is at most one block higher.
  abbrev pub Keeps : MRootTree Block → MRootTree Block → Type 0
  Keeps t t' = IsWellFormed t' × Grown md5 t t'

  validate_block-tree :
      (b b' : BlockChainTree) (blk : Block) (r : Bool)
      → validate_block md5 b blk ≡ some (b', r)
      → b'.m_tree ≡ b.m_tree
  unfolding validate_block
  validate_block-tree b b' blk r h = ground arith

  module _ (w : World) (wf : IsWellFormed (tree_of w))
      (room : suc (tree_of w).height < uint64_size) where
    Keeps-same : (t : MRootTree Block) → t ≡ tree_of w → Keeps (tree_of w) t
    Keeps-same t e = rw e (wf, Grown-refl md5 (tree_of w))

    Keeps-world : (w' : World) → tree_of w' ≡ tree_of w → Keeps (tree_of w) (tree_of w')
    Keeps-world w' e = Keeps-same (tree_of w') e

    insert-Keeps :
        (w' : World) (k : Result AddError (Unit {0}) → Task) (b : Block) (t : Task)
        → inserted w k (added w.manager (add md5 w.manager.m_tree b)) ≡ some (w', t)
        → Keeps (tree_of w) (tree_of w')
    insert-Keeps w' k b t h =
        let (r, e, same) = inserted-manager w w' k t _ h in
        let (a, e', same') = added-tree w.manager _ r e in
        let (wf', _) = add-Added_of md5 w.manager.m_tree b wf room a e' in
        let grown = add-Grown md5 w.manager.m_tree b wf room a e' in
        subst (Keeps (tree_of w)) (sym (ap (λ m. m.m_tree.m_tree) same ∙ ap (λ b. b.m_tree) same'))
          (wf', grown)

    perform-Keeps :
        (answer : Option Block) (t t' : Task) (w' : World)
        → perform md5 w answer t ≡ some (w', t')
        → Keeps (tree_of w) (tree_of w')
    unfolding perform notified
    perform-Keeps answer ended t' w' h = Keeps-world w' (ground arith)
    perform-Keeps answer (find_node i k) t' w' h = Keeps-world w' (ground arith)
    perform-Keeps answer (insert_block b k) t' w' h = insert-Keeps w' k b t' h
    perform-Keeps answer (look_for b k) t' w' h = Keeps-world w' (ground arith)
    perform-Keeps answer (look_for_parent b k) t' w' h = Keeps-world w' (ground arith)
    perform-Keeps answer (enqueue_block b t) t' w' h = Keeps-world w' (ground arith)
    perform-Keeps answer (notify t) t' w' h = Keeps-world w' (ground arith)
    perform-Keeps answer (clean b t) t' w' h = Keeps-world w' (swept-tree w w' t t' _ h)
    perform-Keeps answer (ask i k) t' w' h = Keeps-world w' (ground arith)
    perform-Keeps answer (help b k) t' w' h = Keeps-world w' (ground arith)

    -- A goroutine's step does not panic.
    pub perform_returns :
        (answer : Option Block) (t : Task) → (r : World × Task) × (perform md5 w answer t ≡ some r)
    unfolding perform
    perform_returns answer ended = (_, refl)
    perform_returns answer (find_node i k) = (_, refl)
    perform_returns answer (insert_block b k) =
        let (a, e, _, _) = add-Added md5 w.manager.m_tree b wf room in
        let (r, e') = added_returns md5 w.manager b wf room a in
        (_, ap (inserted w k) (ap (added w.manager) e ∙ e'))
    perform_returns answer (look_for b k) = (_, refl)
    perform_returns answer (look_for_parent b k) = (_, refl)
    perform_returns answer (enqueue_block b t) = (_, refl)
    perform_returns answer (notify t) = (_, refl)
    perform_returns answer (clean b t) =
        let (q, e, _) = remove_nodes_starting_from-Cleaned md5 b w.manager.find_block_queue in
        (_, ap (swept w t) e)
    perform_returns answer (ask i k) = (_, refl)
    perform_returns answer (help b k) = (_, refl)

  pub Step-Keeps :
      {s u : System}
      → IsWellFormed (tree_of s.world)
      → suc (tree_of s.world).height < uint64_size
      → Step md5 s u
      → Keeps (tree_of s.world) (tree_of u.world)
  Step-Keeps {s} wf room (act i answer {w} {t} e) = perform-Keeps s.world wf room answer _ t w e
  Step-Keeps {s} wf room (turn {w} e) =
      Keeps-world s.world wf room w (ap (λ x. tree_of x.0) (sym e) ∙ find_node_thread-tree s.world)
  Step-Keeps {s} wf room (spawn i {w} {b} idle e) =
      Keeps-world s.world wf room w (ap (λ x. tree_of x.0) (sym e) ∙ find_node_thread-tree s.world)
  Step-Keeps {s} wf room (call i b idle) = Keeps-same s.world wf room (tree_of s.world) refl
  Step-Keeps {s} wf room (round i roots idle running) =
      Keeps-same s.world wf room (tree_of s.world) refl
  Step-Keeps {s} wf room (check b {tree} {refused} e) =
      Keeps-same s.world wf room tree.m_tree
        (validate_block-tree s.world.manager.m_tree tree b refused e)
  Step-Keeps {s} wf room (check_jobs ops {tree} {job} e) =
      Keeps-same s.world wf room tree.m_tree
        (block_tree_job_set-tree s.world.manager.m_tree tree ops job e)
  Step-Keeps {s} wf room close = Keeps-same s.world wf room (tree_of s.world) refl
