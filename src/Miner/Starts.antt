-- ===== src/Miner/Starts.antt =====
-- miner/state/state.go, `NewMinerState`, and the configuration that miner/instance/miner_instance.go
-- makes for it.
use blockafile.Base.{
  ℕ, ◌≡◌, refl, ◌⊎◌, inl, inr, Bool, true, false, Option, none, some, List, [], ◌∷◌, Bytes,
  bytes_eq_refl, ltb, if◌then◌else◌, arith,
}
use blockafile.Base.Int.{pos}
use blockafile.Base.Dict.{Dict, lookup, insert}
use blockafile.Base.Result.{ok, err}
use blockafile.Crypto.Block.{Block, genesis_block}
use blockafile.Crypto.Block as Crypto
use blockafile.DataStruct.MRootTree.{new_tree, prepend_element, link, place_root}
use blockafile.DataStruct.MRootTree.WellFormed.{IsWellFormed, new_tree-IsWellFormed}
use blockafile.DataStruct.MRootTree.Named.{IsNamed, new_tree-IsNamed, prepend_element-IsNamed}
use blockafile.DataStruct.MRootTree.Prepend.{prepend_element-IsWellFormed}
use blockafile.State.Validator.{Config, validate}
use blockafile.State.BlockTree.{add, on_new_block_in_tree, on_new_block_in_longest_chain}
use blockafile.State.TreeManager.{new_tree_manager, add_block, start, get_highest_root}
use blockafile.Calculators.{new_block_calculator}
use blockafile.Calculators as Calculators
use blockafile.Miner.{MinerClient, MinerState}

-- `state.Config`: what the validator reads, and the rest. Addresses and time-outs are left out.
pub record StateConfig : Type 0 where
  pub chain : Config
  pub op_per_block : ℕ
  pub genesis_block_hash : Bytes
  pub single_miner_disconnected : Bool

-- `MinerConfiguration`, as far as `NewMinerInstance` copies it; its numbers are uint8.
pub record MinerConfiguration : Type 0 where
  pub mined_coins_per_op_block : ℕ
  pub mined_coins_per_no_op_block : ℕ
  pub num_coins_per_file_create : ℕ
  pub pow_per_op_block : ℕ
  pub pow_per_no_op_block : ℕ
  pub confirms_per_file_create : ℕ
  pub confirms_per_file_append : ℕ
  pub peer_miners_addrs : List Bytes

-- `minerStateConf`
abbrev pub miner_state_conf : MinerConfiguration → Bytes → Bool → StateConfig
miner_state_conf conf block_hash_bytes single_miner_disconnected = record {
  chain = record {
    append_fee = pos 1;
    create_fee = pos conf.num_coins_per_file_create;
    op_reward = pos conf.mined_coins_per_op_block;
    no_op_reward = pos conf.mined_coins_per_no_op_block;
    op_number_of_zeros = conf.pow_per_op_block;
    no_op_number_of_zeros = conf.pow_per_no_op_block;
    confirms_per_file_create = conf.confirms_per_file_create;
    confirms_per_file_append = conf.confirms_per_file_append;
  };
  op_per_block = 10;
  genesis_block_hash = block_hash_bytes;
  single_miner_disconnected = single_miner_disconnected;
}

-- `calcThresh`
abbrev pub calc_thresh : Config → ℕ
calc_thresh config =
    if ltb config.confirms_per_file_create config.confirms_per_file_append
    then config.confirms_per_file_append
    else config.confirms_per_file_create

abbrev pub genesis_of : Bytes → Block
genesis_of genesis_block_hash = record {
  block_type = genesis_block;
  prev_block = genesis_block_hash;
  records = [];
  miner_id = [];
  nonce = 0;
}

-- The clients of `NewMinerState`: those of the connected nodes that answer, by address.
abbrev pub dialed : (Bytes → Option MinerClient) → Dict MinerClient → List Bytes → Dict MinerClient
dialed connects cls [] = cls
dialed connects cls (c ∷ nodes) = elim (connects c) [
  | none ↦ dialed connects cls nodes
  | some conn ↦ dialed connects (insert c conn cls) nodes
]

module _ (md5 : Bytes → Bytes) (connects : Bytes → Option MinerClient) (listens : Bool) where
  -- `NewMinerState`; `none` is a panic, on the genesis block or because `InitMinerServer` fails,
  -- which answers no error if `listens`.
  unfoldable pub new_miner_state : StateConfig → List Bytes → Option MinerState
  new_miner_state config connected_mining_nodes =
      let tm = new_tree_manager config.chain in
      let bc =
        new_block_calculator config.chain.op_number_of_zeros config.chain.no_op_number_of_zeros
          config.op_per_block (pos (calc_thresh config.chain)) in
      elim (add_block md5 tm (genesis_of config.genesis_block_hash)) [
        | none ↦ none
        | some (tm', err e) ↦ none
        | some (tm', ok _) ↦
            let ms : MinerState = record {
              tm = start tm';
              clients = dialed connects [] connected_mining_nodes;
              bc = Calculators.start bc;
              listeners = [];
              single_miner_disconnected = config.single_miner_disconnected;
            } in
            if listens then some ms else none
      ]

  -- `NewMinerInstance`, from the parsed configuration to the state of its miner.
  unfoldable pub new_instance_state : MinerConfiguration → Bytes → Bool → Option MinerState
  unfolding new_miner_state
  new_instance_state conf block_hash_bytes single_miner_disconnected =
      new_miner_state (miner_state_conf conf block_hash_bytes single_miner_disconnected)
        conf.peer_miners_addrs

  -- What a new state is: its tree is well-formed and named, with the genesis block on top.
  abbrev pub Started : StateConfig → List Bytes → MinerState → Type 0
  Started config nodes s =
      let genesis = genesis_of config.genesis_block_hash in
      (new_miner_state config nodes ≡ some s)
      × IsWellFormed s.tm.m_tree.m_tree
      × IsNamed (Crypto.id md5) s.tm.m_tree.m_tree
      × (get_highest_root s.tm ≡ some genesis)
      × (s.tm.m_tree.calls
          ≡ on_new_block_in_tree genesis ∷ on_new_block_in_longest_chain genesis ∷ [])

-- NewMinerState panics exactly if the server of its miner cannot be started. If it does not, the
-- tree of the new state is well-formed, its nodes stand under the ids of their blocks, its highest
-- root is the genesis block, and the state has been told of that block as a new one in the tree and
-- in the longest chain, and of no other.
pub new_miner_state-Started :
    (md5 : Bytes → Bytes) (connects : Bytes → Option MinerClient) (listens : Bool)
    (config : StateConfig) (nodes : List Bytes)
    → ((listens ≡ false) × (new_miner_state md5 connects listens config nodes ≡ none))
      ⊎ ((listens ≡ true) × (s : MinerState) × Started md5 connects listens config nodes s)
unfolding new_miner_state add_block add validate lookup prepend_element link insert place_root
new_miner_state-Started md5 connects false config nodes =
    let same = bytes_eq_refl (Crypto.id md5 (genesis_of config.genesis_block_hash)) in
    inl (refl, ground (arith, same))
new_miner_state-Started md5 connects true config nodes =
    let genesis = genesis_of config.genesis_block_hash in
    let same = bytes_eq_refl (Crypto.id md5 genesis) in
    inr (
      refl,
      _,
      (
        refl,
        prepend_element-IsWellFormed (Crypto.id md5) genesis none new_tree new_tree-IsWellFormed tt,
        prepend_element-IsNamed (Crypto.id md5) genesis none new_tree
            (new_tree-IsNamed (Crypto.id md5)),
        ground (arith, same),
        ground (arith, same),
      ),
    )
