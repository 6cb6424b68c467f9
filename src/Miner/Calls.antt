-- ===== src/Miner/Calls.antt =====
-- miner/api/miner_client.go, the calls of another miner, from the request of the client to the
-- answer of the server there. What `net/rpc` and the connection do with a call is a parameter.
use blockafile.Base.{Bool, true, false, Option, none, some, List, [], Bytes, replicate}
use blockafile.Base.Result.{Result, ok, err}
use blockafile.Crypto.Block.{Block, BlockOp, no_op_block}
use blockafile.Miner.{
  CallError, call_failed, timed_out, MinerClient, MinerState, server_get_block, server_get_roots,
  receive_node, receive_job,
}

-- `GetNodeRes`
pub record GetNodeRes : Type 0 where
  pub block : Block
  pub found : Bool

-- `crypto.Block{}`; `PrevBlock` is an array of 16 bytes.
abbrev pub blank_block : Block
blank_block = record {
  block_type = no_op_block;
  prev_block = replicate 16 0;
  records = [];
  miner_id = [];
  nonce = 0;
}

-- The answer that `MinerServer.GetBlock` writes.
abbrev pub get_node_res : Option Block → GetNodeRes
get_node_res none = record { block = blank_block; found = false }
get_node_res (some bk) = record { block = bk; found = true }

-- What the `select` of a call receives: its end on `c`, with the answer or an error, or the timer.
pub data Reply (A : Type 0) : Type 0 where
  answered : A → Reply A
  failed late : Reply A

-- `MinerClient.GetBlock`
unfoldable pub client_get_block : Reply GetNodeRes → Result CallError (Block × Bool)
client_get_block (answered ans) = ok (ans.block, ans.found)
client_get_block failed = err call_failed
client_get_block late = err timed_out

-- `MinerClient.GetRoots`
unfoldable pub client_get_roots : Reply (List Block) → Result CallError (List Block)
client_get_roots (answered ans) = ok ans
client_get_roots failed = err call_failed
client_get_roots late = err timed_out

-- What the connection does with a call.
pub data Delivery : Type 0 where
  delivered broken slow : Delivery

abbrev pub carried : {A : Type 0} → Delivery → A → Reply A
carried delivered a = answered a
carried broken a = failed
carried slow a = late

-- A panic of the server is the end of the connection.
abbrev pub carried_roots : Delivery → Option (List Block) → Reply (List Block)
carried_roots net none = failed
carried_roots net (some roots) = carried net roots

-- The messages of `SendBlock` and `SendJob`: nobody waits for an answer.
pub data Message : Type 0 where
  receive_node_args : Block → Message
  receive_job_args : BlockOp → Message

module _ (md5 : Bytes → Bytes) (connects : Bytes → Option MinerClient) where
  -- `NewMinerClient`: a client of the miner `peer` for the one at `l_addr`, its address for others.
  abbrev pub client_of : Delivery → Bytes → MinerState → MinerClient
  client_of net l_addr peer = record {
    get_block = λ i.
        client_get_block
          (carried net (get_node_res (server_get_block md5 connects l_addr peer i).0));
    get_roots = client_get_roots (carried_roots net (server_get_roots md5 connects l_addr peer).0);
  }

  -- A message of the miner at `host`, at the server: the state there, and whom it is passed on to.
  unfoldable pub arrives : Bytes → Message → MinerState → Option (MinerState × List Bytes)
  arrives host (receive_node_args b) s = receive_node md5 connects host s b
  arrives host (receive_job_args b) s = receive_job md5 connects host s b
