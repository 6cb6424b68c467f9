-- ===== src/Miner/Tests.antt =====
-- A miner with two others connected, a block that one of them knows and a block without a parent.
use blockafile.Base.{
  ◌⊎◌, Option, none, bytes_eq, not, ◌&&◌, suc, ◌<◌, ◌≡◌, refl, true, false, some, List, [], ◌∷◌,
  map, Bytes, arith, codes, present,
}
use blockafile.Base.Int.{pos}
use blockafile.Base.Dict.{lookup, insert}
use blockafile.Base.Result.{ok, err}
use blockafile.Crypto.Block.{Block, regular_block, genesis_block, hash, hash_of, hex}
use blockafile.Crypto.Block as Crypto
use blockafile.DataStruct.MRootTree.{
  Node, uint64_size, find, new_tree, make_node, prepend_element, link, place_root,
}
use blockafile.DataStruct.MRootTree.Named.{IsNamed, new_tree-IsNamed, prepend_element-IsNamed}
use blockafile.DataStruct.MRootTree.WellFormed.{IsWellFormed, new_tree-IsWellFormed}
use blockafile.State.Validator.{Config}
use blockafile.State.TreeManager.{new_tree_manager}
use blockafile.Calculators.{new_block_calculator}
use blockafile.Miner.{
  MinerClient, MinerState, call_failed, get_remote_block, add_state_block, receivers, is_ignored,
  add_host,
}
use blockafile.Miner.Starts.{
  StateConfig, genesis_of, new_miner_state, Started, new_miner_state-Started,
}
use blockafile.Miner.Calls.{client_of, delivered, arrives, receive_node_args}
use blockafile.Miner.Exchange.{get_remote_block-held, arrives-Forwarded}
use blockafile.Miner.Flood.{sends, PassedOn, add_state_block-PassedOn, sends_orphan}

abbrev first_byte : Bytes → Bytes
first_byte [] = []
first_byte (x ∷ xs) = x ∷ []

abbrev block : Block
block = record {
  block_type = regular_block;
  prev_block = 99 ∷ [];
  records = [];
  miner_id = codes "bob";
  nonce = 1;
}

abbrev silent : MinerClient
silent = record { get_block = λ i. err call_failed; get_roots = err call_failed }

abbrev helpful : MinerClient
helpful = record { get_block = λ i. ok (block, true); get_roots = ok (block ∷ []) }

abbrev config : Config
config = record {
  append_fee = pos 1;
  create_fee = pos 1;
  op_reward = pos 9;
  no_op_reward = pos 1;
  op_number_of_zeros = 0;
  no_op_number_of_zeros = 0;
  confirms_per_file_create = 2;
  confirms_per_file_append = 3;
}

abbrev miner : MinerState
miner = record {
  tm = new_tree_manager config;
  clients = (codes "x", silent) ∷ (codes "y", helpful) ∷ [];
  bc = new_block_calculator 0 0 3 (pos 3);
  listeners = [];
  single_miner_disconnected = false;
}

room : suc 0 < uint64_size
room = omega arith

add_state_block-PassedOn_example :
    (out : MinerState × List Bytes) × (add_state_block first_byte (codes "x" ∷ []) miner block
      ≡ some out)
    × IsWellFormed out.0.tm.m_tree.m_tree
    × PassedOn first_byte (codes "x" ∷ []) miner block out
add_state_block-PassedOn_example =
    add_state_block-PassedOn first_byte miner block (codes "x" ∷ []) new_tree-IsWellFormed room

new : present (find miner.tm.m_tree.m_tree (Crypto.id first_byte block)) ≡ false
unfolding lookup
new = refl

orphan : present (find miner.tm.m_tree.m_tree (Crypto.parent_id block)) ≡ false
unfolding lookup
orphan = refl

abbrev calls : List (List Bytes)
calls = (codes "x" ∷ []) ∷ (codes "y" ∷ []) ∷ (codes "x" ∷ []) ∷ []

sends_orphan_example :
    sends first_byte miner block calls ≡ map (λ hosts. receivers hosts miner.clients) calls
sends_orphan_example = sends_orphan first_byte miner block calls new orphan refl

abbrev unreachable : Bytes → Option MinerClient
unreachable _ = none

abbrev state_config : StateConfig
state_config = record {
  chain = config;
  op_per_block = 10;
  genesis_block_hash = 99 ∷ [];
  single_miner_disconnected = true;
}

new_miner_state-Started_example :
    ((true ≡ false)
      × (new_miner_state first_byte unreachable true state_config (codes "x" ∷ []) ≡ none))
    ⊎ ((true ≡ true)
        × (s : MinerState) × Started first_byte unreachable true state_config (codes "x" ∷ []) s)
new_miner_state-Started_example =
    new_miner_state-Started first_byte unreachable true state_config (codes "x" ∷ [])

-- The genesis block, and a miner that has it.
abbrev genesis : Block
genesis = genesis_of (99 ∷ [])

abbrev first_node : Node Block
first_node = make_node (Crypto.id first_byte) genesis none

abbrev peer : MinerState
peer = record miner {
  tm = record miner.tm {
    m_tree = record miner.tm.m_tree {
      m_tree = (prepend_element (Crypto.id first_byte) genesis none new_tree).1;
    };
  };
}

peer-IsNamed : IsNamed (Crypto.id first_byte) peer.tm.m_tree.m_tree
peer-IsNamed =
    prepend_element-IsNamed (Crypto.id first_byte) genesis none new_tree
      (new_tree-IsNamed (Crypto.id first_byte))

held : find peer.tm.m_tree.m_tree first_node.id ≡ some first_node
unfolding prepend_element lookup link place_root insert bytes_eq Crypto.id hash hash_of hex
held = refl

abbrev asker : MinerState
asker = record miner {
  clients =
      (codes "x", silent)
      ∷ (codes "z", client_of first_byte unreachable delivered (codes "a") peer)
      ∷ [];
}

connected :
    lookup (codes "z") asker.clients
    ≡ some (client_of first_byte unreachable delivered (codes "a") peer)
unfolding lookup bytes_eq
connected = refl

get_remote_block-held_example :
    (b : Block) × (get_remote_block first_byte asker first_node.id ≡ some b)
    × (Crypto.id first_byte b ≡ first_node.id)
get_remote_block-held_example =
    get_remote_block-held first_byte unreachable (codes "a") (codes "z") asker peer first_node.id
      first_node connected peer-IsNamed held

abbrev greeter : Bytes → Option MinerClient
greeter _ = some silent

arrives-Forwarded_example :
    (out : MinerState × List Bytes) × (arrives first_byte greeter
        (codes "w")
        (receive_node_args block)
        miner
      ≡ some out)
    × IsWellFormed out.0.tm.m_tree.m_tree
    × ((out.1 ≡ [])
        ⊎ ((h : Bytes)
            → is_ignored out.1 h ≡ (
                present (lookup h (add_host greeter miner (codes "w")).clients)
                && not (bytes_eq (codes "w") h))))
arrives-Forwarded_example =
    arrives-Forwarded first_byte greeter (codes "w") miner block new_tree-IsWellFormed room
