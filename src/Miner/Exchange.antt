-- ===== src/Miner/Exchange.antt =====
-- Two miners over their connection: the block that one has, and the block that one sends.
use blockafile.Base.{
  suc, ◌<◌, ◌≡◌, refl, ◌∙◌, ◌⊎◌, inl, inr, Bool, true, false, not, ◌&&◌, ◌||◌, Option, some, List,
  [], ◌∷◌, Bytes, bytes_eq, present, arith, Bool-cases,
}
use blockafile.Base.Dict.{Dict, lookup}
use blockafile.Crypto.Block.{Block}
use blockafile.Crypto.Block as Crypto
use blockafile.DataStruct.MRootTree.{Node, uint64_size}
use blockafile.DataStruct.MRootTree.WellFormed.{IsWellFormed}
use blockafile.DataStruct.MRootTree.Named.{IsNamed}
use blockafile.State.TreeManager.{find_block}
use blockafile.Miner.{
  MinerClient, MinerState, add_host, is_ignored, get_remote_block, server_get_block, receive_node,
}
use blockafile.Miner.Calls.{client_of, client_get_block, delivered, arrives, receive_node_args}
use blockafile.Miner.Remote.{Knows, FirstAnswer, get_remote_block-FirstAnswer}
use blockafile.Miner.Flood.{add_state_block-PassedOn}

module _ (md5 : Bytes → Bytes) where
  FirstAnswer-known :
      (i host : Bytes) (c : MinerClient) (b : Block) (r : Option Block) (clients : Dict MinerClient)
      → lookup host clients ≡ some c
      → Knows md5 i c b
      → FirstAnswer md5 i clients r
      → (b' : Block) × (r ≡ some b') × (Crypto.id md5 b' ≡ i)
  unfolding lookup
  FirstAnswer-known i host c b r [] h knows first = absurd (ground arith)
  FirstAnswer-known i host c b r ((k, d) ∷ clients) h knows (inl (b', known, is)) =
      (b', is, known.1)
  FirstAnswer-known i host c b r ((k, d) ∷ clients) h knows (inr (dumb, first)) =
      elim (Bool-cases (bytes_eq k host)) [
        | inl here ↦ let is_c : d ≡ c = ground arith in absurd (dumb b (rw is_c knows))
        | inr there ↦ FirstAnswer-known i host c b r clients (ground arith) knows first
      ]

  add_host-tm :
      (connects : Bytes → Option MinerClient) (s : MinerState) (h : Bytes)
      → (add_host connects s h).tm ≡ s.tm
  unfolding add_host
  add_host-tm connects s h = ground arith

  served_block :
      (connects : Bytes → Option MinerClient) (l_addr : Bytes) (peer : MinerState) (i : Bytes)
      (nd : Node Block)
      → find_block peer.tm i ≡ some nd
      → (server_get_block md5 connects l_addr peer i).0 ≡ some nd.value
  unfolding server_get_block
  served_block connects l_addr peer i nd found =
      rw (add_host-tm connects peer l_addr) (ground arith)

  client_of-Knows :
      (connects : Bytes → Option MinerClient) (l_addr : Bytes) (peer : MinerState) (i : Bytes)
      (nd : Node Block)
      → IsNamed (Crypto.id md5) peer.tm.m_tree.m_tree
      → find_block peer.tm i ≡ some nd
      → Knows md5 i (client_of md5 connects delivered l_addr peer) nd.value
  unfolding client_get_block
  client_of-Knows connects l_addr peer i nd named found =
      (rw (served_block connects l_addr peer i nd found) refl, named i nd found)

  -- Let a miner be connected to another one over a connection that works, and let a node of the
  -- other's tree, whose nodes stand under the ids of their blocks, have the id i. Then
  -- GetRemoteBlock on i gives a block with that id, whatever the other connected miners answer.
  pub get_remote_block-held :
      (connects : Bytes → Option MinerClient) (l_addr host : Bytes) (s peer : MinerState)
      (i : Bytes) (nd : Node Block)
      → lookup host s.clients ≡ some (client_of md5 connects delivered l_addr peer)
      → IsNamed (Crypto.id md5) peer.tm.m_tree.m_tree
      → find_block peer.tm i ≡ some nd
      → (b : Block) × (get_remote_block md5 s i ≡ some b) × (Crypto.id md5 b ≡ i)
  get_remote_block-held connects l_addr host s peer i nd connected named found =
      FirstAnswer-known i host (client_of md5 connects delivered l_addr peer) nd.value
        (get_remote_block md5 s i) s.clients connected
        (client_of-Knows connects l_addr peer i nd named found)
        (get_remote_block-FirstAnswer md5 i s)

alone : (a b : Bool) → (a && not (b || false)) ≡ (a && not b)
alone a true = refl
alone a false = refl

module _ (md5 : Bytes → Bytes) (connects : Bytes → Option MinerClient) (host : Bytes)
    (s : MinerState) (b : Block) (w : IsWellFormed s.tm.m_tree.m_tree)
    (room : suc s.tm.m_tree.m_tree.height < uint64_size) where
  -- A block that comes from a miner, at a well-formed tree whose height has room for one more, does
  -- not make a panic and leaves the tree well-formed. Either it is sent to no one, or exactly to
  -- those miners that are connected after the sender has been added to them, without the sender.
  pub arrives-Forwarded :
      (out : MinerState × List Bytes) × (arrives md5 connects host (receive_node_args b) s
        ≡ some out)
      × IsWellFormed out.0.tm.m_tree.m_tree
      × ((out.1 ≡ [])
          ⊎ ((h : Bytes)
              → is_ignored out.1 h
                ≡ (present (lookup h (add_host connects s host).clients) && not (bytes_eq host h))))
  unfolding arrives receive_node
  arrives-Forwarded =
      let s' = add_host connects s host in
      let same = add_host-tm md5 connects s host in
      let (out, back, kept, passed) =
        add_state_block-PassedOn md5 s' b (host ∷ []) (rw same w) (rw same room) in
      (
        out,
        back,
        kept,
        elim passed [
          | inl (nobody, _, _) ↦ inl nobody
          | inr (sent, _, _, _) ↦
              inr (λ h. sent h ∙ alone (present (lookup h s'.clients)) (bytes_eq host h))
        ],
      )
