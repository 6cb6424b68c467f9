-- ===== src/State/TreeManager/Cleanup.antt =====
-- `removeNodesStartingFrom` ends, and takes one branch of descendants out of the queue.
use mathlib.Core.List.Perm
use mathlib.Core.List.{Perm}
use blockafile.Base.{
  ℕ, zero, suc, ◌+◌, ◌<◌, ◌≡◌, refl, ◌∙◌, Bool, true, false, some, List, [], ◌∷◌, ◌++◌, reverse,
  Bytes, arith, length, length-append, length-reverse, length-Perm, All, bytes_eq,
}
use blockafile.Crypto.Block.{Block, parent_id}
use blockafile.Crypto.Block as Crypto
use blockafile.DataStruct.Queue.{Queue, len, del, matched, contents}
use blockafile.DataStruct.Queue.Del.{Removed, del-Removed}
use blockafile.State.TreeManager.{remove_chain, remove_nodes_starting_from}

module _ (md5 : Bytes → Bytes) where
  -- Each block of the list is a child of the one before it, the first of `i`.
  abbrev pub IsBranch : Bytes → List Block → Type 0
  IsBranch i [] = Unit
  IsBranch i (b ∷ bs) = (bytes_eq (parent_id b) i ≡ true) × IsBranch (Crypto.id md5 b) bs

  abbrev pub tip : Bytes → List Block → Bytes
  tip i [] = i
  tip i (b ∷ bs) = tip (Crypto.id md5 b) bs

  abbrev pub NoChild : Bytes → List Block → Type 0
  NoChild i bs = All (λ (bl : Block). bytes_eq (parent_id bl) i ≡ false) bs

  -- From `q` to `q'`, the blocks of one branch below `i` have gone, and no block of `q'` goes on
  -- with it.
  pub record Cleaned (i : Bytes) (q q' : Queue Block) : Type 0 where
    pub branch : List Block
    pub is_branch : IsBranch i branch
    pub gone : Perm (branch ++ contents q') (contents q)
    pub dequeued_clean : NoChild (tip i branch) q'.dequeued
    pub enqueued_clean : NoChild (tip i branch) q'.enqueued

  len-contents : (q : Queue Block) → len q ≡ length (contents q)
  unfolding len
  len-contents q =
      omega (arith, length-append (reverse q.dequeued) q.enqueued, length-reverse q.dequeued)

  Cleaned-more :
      (i : Bytes) (x : Block) (q q' q'' : Queue Block)
      → bytes_eq (parent_id x) i ≡ true
      → Perm (x ∷ contents q') (contents q)
      → Cleaned (Crypto.id md5 x) q' q''
      → Cleaned i q q''
  Cleaned-more i x q q' q'' child out c = record {
    branch = x ∷ c.branch;
    is_branch = (child, c.is_branch);
    gone = Perm.trans (Perm.cons x c.gone) out;
    dequeued_clean = c.dequeued_clean;
    enqueued_clean = c.enqueued_clean;
  }

  abbrev is_child : Bytes → Block → Bool
  is_child i bl = bytes_eq (parent_id bl) i

  remove_chain-none :
      (fuel : ℕ) (i : Bytes) (q : Queue Block) (d : Bool × Queue Block)
      → del (is_child i) q ≡ d
      → d.0 ≡ false
      → remove_chain md5 (suc fuel) i q ≡ some q
  unfolding remove_chain
  remove_chain-none fuel i q d e clean = ground arith

  remove_chain-one :
      (fuel : ℕ) (i : Bytes) (q : Queue Block) (x : Block) (d : Bool × Queue Block)
      → del (is_child i) q ≡ d
      → d.0 ≡ true
      → matched (is_child i) q ≡ some x
      → remove_chain md5 (suc fuel) i q ≡ remove_chain md5 fuel (Crypto.id md5 x) d.1
  unfolding remove_chain
  remove_chain-one fuel i q x d e hit m = ground arith

  remove_chain-Cleaned :
      (fuel : ℕ) (i : Bytes) (q : Queue Block)
      → length (contents q) < fuel
      → (q' : Queue Block) × (remove_chain md5 fuel i q ≡ some q') × Cleaned i q q'
  remove_chain-Cleaned zero i q enough = absurd (omega arith)
  remove_chain-Cleaned (suc fuel) i q enough =
      by_answer (del (is_child i) q) refl (del-Removed (is_child i) q) (λ x q' out.
        remove_chain-Cleaned fuel (Crypto.id md5 x) q' (omega (arith, length-Perm out)))
    where
      by_answer :
          (d : Bool × Queue Block)
          → del (is_child i) q ≡ d
          → Removed (is_child i) q d
          → ((x : Block) (q' : Queue Block)
              → Perm (x ∷ contents q') (contents q)
              → (q'' : Queue Block) × (remove_chain md5 fuel (Crypto.id md5 x) q' ≡ some q'')
                × Cleaned (Crypto.id md5 x) q' q'')
          → (q' : Queue Block) × (remove_chain md5 (suc fuel) i q ≡ some q') × Cleaned i q q'
      by_answer (false, q') e (same, no_deq, no_enq) ih = (
        q,
        remove_chain-none fuel i q (false, q') e refl,
        record {
          branch = [];
          is_branch = tt;
          gone = Perm.refl _;
          dequeued_clean = no_deq;
          enqueued_clean = no_enq;
        },
      )
      by_answer (true, q') e (x, m, child, out) ih =
          let (q'', found, c) = ih x q' out in
          (
            q'',
            remove_chain-one fuel i q x (true, q') e refl m ∙ found,
            Cleaned-more i x q q' q'' child out c,
          )

  -- removeNodesStartingFrom ends, on fuel of one more than the queue's length. It takes out of the
  -- queue the blocks of one branch, each a child of the one before it and the first a child of the
  -- given block, and no other; in the queue that is left no block is a child of the branch's last.
  pub remove_nodes_starting_from-Cleaned :
      (block : Block) (q : Queue Block)
      → (q' : Queue Block) × (remove_nodes_starting_from md5 block q ≡ some q')
        × Cleaned (Crypto.id md5 block) q q'
  unfolding remove_nodes_starting_from
  remove_nodes_starting_from-Cleaned block q =
      remove_chain-Cleaned (len q + 1) (Crypto.id md5 block) q (omega (arith, len-contents q))
