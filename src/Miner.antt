-- ===== src/Miner.antt =====
-- miner/state/state.go, `MinerState`: the tree manager, the calculators, the connected miners and the
-- listeners, and miner/api/miner_server.go, the calls of other miners. What another miner answers is
-- held in its `MinerClient`, and messages that are sent are results. Logging is left out.
mod Remote
mod Flood
mod Calls
mod Starts
mod Exchange
mod Tests
use blockafile.Base.{
  ℕ, zero, suc, ◌+◌, ◌≡◌, Bool, true, false, not, ◌&&◌, ◌||◌, Option, none, some, List, [], ◌∷◌,
  ◌++◌, map, Bytes, bytes_eq, present, ◌==◌, if◌then◌else◌, length,
}
use blockafile.Base.Dict.{Dict, lookup, insert, erase}
use blockafile.Base.Result.{Result, ok, err}
use blockafile.Crypto.Block.{Block, BlockOp}
use blockafile.Crypto.Block as Crypto
use blockafile.DataStruct.MRootTree.{get_roots, get_longest_chain}
use blockafile.Base.Int.{ℤ}
use blockafile.State.Filesystem.{FilesystemState, FsError, new_filesystem_state}
use blockafile.State.Accounts.{AccountsState, AccountsError, new_accounts_state}
use blockafile.State.BlockTree.{
  TreeEvent, on_new_block_in_tree, on_new_block_in_longest_chain, AddError,
}
use blockafile.State.TreeManager.{TreeManager, add_block, exists, get_block, find_block}
use blockafile.Calculators.{
  BlockCalculator, add_job, job_exists, remove_jobs_from_block, restart_block_calculation, shutdown,
  start,
}

-- The errors of a call to another miner: `net/rpc`'s, or the call timed out.
pub data CallError : Type 0 where
  call_failed timed_out : CallError

-- `MinerClient`: what the other miner answers to a call.
pub record MinerClient : Type 0 where
  pub get_block : Bytes → Result CallError (Block × Bool)
  pub get_roots : Result CallError (List Block)

-- `TreeListener`, of the file system that it generates and the time.
pub record TreeListener : Type 0 where
  pub tree_event_handler : Option FilesystemState → Bool
  pub is_expired : ℕ → Bool

pub record MinerState : Type 0 where
  pub tm : TreeManager
  pub clients : Dict MinerClient
  pub bc : BlockCalculator
  pub listeners : List TreeListener
  pub single_miner_disconnected : Bool

-- `TreeManager.GetRoots`, from the tree's roots on; none is a nil pointer.
abbrev pub root_blocks : TreeManager → List Bytes → Option (List Block)
root_blocks t [] = some []
root_blocks t (i ∷ roots) =
    let rest = root_blocks t roots in
    elim (find_block t i) [
      | none ↦ none
      | some v ↦ elim rest [ none ↦ none | some blocks ↦ some (v.value ∷ blocks) ]
    ]

-- `SleepMiner` and `ActivateMiner`
abbrev pub sleep_miner : MinerState → MinerState
sleep_miner s = record s { bc = shutdown s.bc }

abbrev pub activate_miner : MinerState → MinerState
activate_miner s = record s { bc = start s.bc }

-- `GetFilesystemState` and `GetAccountState`, of the longest chain.
unfoldable pub get_filesystem_state : ℕ → ℕ → MinerState → Option (Result FsError FilesystemState)
get_filesystem_state confirms_per_file_create confirms_per_file_append s =
    let t = s.tm.m_tree.m_tree in
    new_filesystem_state confirms_per_file_create confirms_per_file_append t (get_longest_chain t)

unfoldable pub get_account_state :
    ℤ → ℤ → ℤ → ℤ → MinerState → Option (Result AccountsError AccountsState)
get_account_state append_fee create_fee op_reward no_op_reward s =
    let t = s.tm.m_tree.m_tree in
    new_accounts_state append_fee create_fee op_reward no_op_reward t (get_longest_chain t)

-- `IsDisconnected`
unfoldable pub is_disconnected : MinerState → Bool
is_disconnected s = s.single_miner_disconnected && length s.clients == 0

-- `AddHost`; `connects` is `NewMinerClient`, or none for its error.
unfoldable pub add_host : (Bytes → Option MinerClient) → MinerState → Bytes → MinerState
add_host connects s h = elim (lookup h s.clients) [
  | some client ↦ s
  | none ↦ elim (connects h) [
    | none ↦ s
    | some conn ↦ record s { clients = insert h conn s.clients }
  ]
]

-- `AddTreeListener`
unfoldable pub add_tree_listener : MinerState → TreeListener → MinerState
add_tree_listener s listener = record s { listeners = s.listeners ++ listener ∷ [] }

-- `OnNewBlockInTree`
unfoldable pub on_block_in_tree : MinerState → Block → Option MinerState
on_block_in_tree s b = elim (remove_jobs_from_block s.bc b) [
  | none ↦ none
  | some bc ↦ some (record s { bc = bc })
]

-- The listeners that stay: the goroutine of each removes it if it succeeds or has expired.
abbrev pub waiting : Option FilesystemState → ℕ → List TreeListener → List TreeListener
waiting fs now [] = []
waiting fs now (listener ∷ listeners) =
    let rest = waiting fs now listeners in
    if listener.tree_event_handler fs
    then rest
    else if listener.is_expired now
    then rest
    else listener ∷ rest

-- `OnNewBlockInLongestChain`, after its goroutines have ended.
unfoldable pub on_block_in_longest_chain : MinerState → Option FilesystemState → ℕ → MinerState
on_block_in_longest_chain s fs now = record s {
  listeners = waiting fs now s.listeners;
  bc = restart_block_calculation s.bc;
}

-- `AddJob`: the hosts that the job is sent to.
unfoldable pub add_state_job : MinerState → BlockOp → Option (MinerState × List Bytes)
add_state_job s b = elim (job_exists s.bc.job_set b) [
  | some i ↦ some (s, [])
  | none ↦ elim (add_job s.bc b) [
    | none ↦ none
    | some bc ↦ some (record s { bc = bc }, map (λ c. c.0) s.clients)
  ]
]

abbrev pub is_ignored : List Bytes → Bytes → Bool
is_ignored [] host = false
is_ignored (h ∷ hosts) host = bytes_eq h host || is_ignored hosts host

-- The hosts that `broadcastBlock` sends to.
abbrev pub receivers : List Bytes → Dict MinerClient → List Bytes
receivers ignored [] = []
receivers ignored ((host, client) ∷ clients) =
    let rest = receivers ignored clients in if is_ignored ignored host then rest else host ∷ rest

module _ (md5 : Bytes → Bytes) where
  -- The loop of `GetRemoteBlock` over the copy of the clients.
  unfoldable pub ask_clients : Dict MinerClient → Bytes → Option Block
  ask_clients [] i = none
  ask_clients ((host, c) ∷ clients) i =
      let rest = ask_clients clients i in
      elim (c.get_block i) [
        | err e ↦ rest
        | ok (nd, found) ↦ if found && bytes_eq (Crypto.id md5 nd) i then some nd else rest
      ]

  -- `GetRemoteBlock`
  unfoldable pub get_remote_block : MinerState → Bytes → Option Block
  unfolding ask_clients
  get_remote_block s i = ask_clients s.clients i

  -- The blocks that `GetRemoteRoots` has, with those of one client.
  abbrev pub with_roots : List Block → Dict Block → Dict Block
  with_roots [] blocks = blocks
  with_roots (h ∷ arr) blocks = with_roots arr (insert (Crypto.id md5 h) h blocks)

  -- The loop of `GetRemoteRoots`: the blocks by id, and the clients that did not fail.
  unfoldable pub ask_roots :
      Dict MinerClient → Dict Block → Dict MinerClient → Dict Block × Dict MinerClient
  ask_roots [] blocks clients = (blocks, clients)
  ask_roots ((k, c) ∷ copies) blocks clients = elim c.get_roots [
    | err e ↦ ask_roots copies blocks (erase k clients)
    | ok arr ↦ ask_roots copies (with_roots arr blocks) clients
  ]

  -- `GetRemoteRoots`
  unfoldable pub get_remote_roots : MinerState → List Block × MinerState
  unfolding ask_roots
  get_remote_roots s =
      let (blocks, clients) = ask_roots s.clients [] s.clients in
      (map (λ b. b.1) blocks, record s { clients = clients })

  -- `addBlock`: the hosts that the block is sent to. The calls that the tree makes of the state are
  -- in the tree's log.
  unfoldable pub add_state_block :
      List Bytes → MinerState → Block → Option (MinerState × List Bytes)
  add_state_block hosts s b =
      let added = add_block md5 s.tm b in
      if exists md5 s.tm b then some (s, []) else elim added [
        | none ↦ none
        | some (tm, err e) ↦ some (record s { tm = tm }, [])
        | some (tm, ok _) ↦ some (record s { tm = tm }, receivers hosts s.clients)
      ]

  -- `AddBlockIgnoringHost`; `AddBlock` ignores none.
  abbrev pub add_block_ignoring_host : Bytes → MinerState → Block → Option (MinerState × List Bytes)
  add_block_ignoring_host host = add_state_block (host ∷ [])

  -- A call that the tree made of the state.
  unfoldable pub on_tree_event :
      Option FilesystemState → ℕ → MinerState → TreeEvent → Option MinerState
  unfolding on_block_in_tree on_block_in_longest_chain
  on_tree_event fs now s (on_new_block_in_tree b) = on_block_in_tree s b
  on_tree_event fs now s (on_new_block_in_longest_chain b) =
      some (on_block_in_longest_chain s fs now)

  module _ (connects : Bytes → Option MinerClient) (host : Bytes) where
    -- `MinerServer.GetBlock`
    unfoldable pub server_get_block : MinerState → Bytes → Option Block × MinerState
    unfolding add_host
    server_get_block s i = let s' = add_host connects s host in (get_block s'.tm i, s')

    -- `MinerServer.GetRoots`
    unfoldable pub server_get_roots : MinerState → Option (List Block) × MinerState
    unfolding add_host
    server_get_roots s =
        let s' = add_host connects s host in (root_blocks s'.tm (get_roots s'.tm.m_tree.m_tree), s')

    -- `MinerServer.ReceiveNode`
    unfoldable pub receive_node : MinerState → Block → Option (MinerState × List Bytes)
    unfolding add_host add_state_block
    receive_node s b = add_block_ignoring_host host (add_host connects s host) b

    -- `MinerServer.ReceiveJob`
    unfoldable pub receive_job : MinerState → BlockOp → Option (MinerState × List Bytes)
    unfolding add_host add_state_job
    receive_job s b = add_state_job (add_host connects s host) b
