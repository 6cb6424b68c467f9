-- ===== src/Miner/Remote.antt =====
-- What the other miners are asked for.
use blockafile.Base.{
  ◌≡◌, refl, subst, ◌⊎◌, inl, inr, Bool, true, ◌&&◌, Option, none, some, [], ◌∷◌, Bytes, bytes_eq,
  bytes_eq_iff, arith, Bool-cases,
}
use blockafile.Base.Dict.{Dict}
use blockafile.Base.Result.{Result, ok, err}
use blockafile.Crypto.Block.{Block}
use blockafile.Crypto.Block as Crypto
use blockafile.Miner.{CallError, MinerClient, MinerState, ask_clients, get_remote_block}

module _ (md5 : Bytes → Bytes) (i : Bytes) where
  -- A client that answers with a block of that id.
  abbrev pub Knows : MinerClient → Block → Type 0
  Knows c b = (c.get_block i ≡ ok (b, true)) × (Crypto.id md5 b ≡ i)

  -- The answer of the first of the clients that knows the block, if one does.
  abbrev pub FirstAnswer : Dict MinerClient → Option Block → Type 0
  FirstAnswer [] r = r ≡ none
  FirstAnswer ((host, c) ∷ clients) r =
      ((b : Block) × Knows c b × (r ≡ some b))
      ⊎ (((b : Block) → ¬ Knows c b) × FirstAnswer clients r)

  first_asked :
      (host : Bytes) (c : MinerClient) (clients : Dict MinerClient)
      (answer : Result CallError (Block × Bool))
      → c.get_block i ≡ answer
      → FirstAnswer clients (ask_clients md5 clients i)
      → FirstAnswer ((host, c) ∷ clients) (ask_clients md5 ((host, c) ∷ clients) i)
  unfolding ask_clients
  first_asked host c clients (err e) asked later =
      inr (λ b h. cc, subst (FirstAnswer clients) (ground arith) later)
  first_asked host c clients (ok (nd, found)) asked later =
      elim (Bool-cases (found && bytes_eq (Crypto.id md5 nd) i)) [
        | inl known ↦
            inl
              (nd, (ground arith, ground (arith, bytes_eq_iff (Crypto.id md5 nd) i)), ground arith)
        | inr unknown ↦ inr (
          λ b h. ground (arith, bytes_eq_iff (Crypto.id md5 nd) i),
          subst (FirstAnswer clients) (ground arith) later,
        )
      ]

  ask_clients-FirstAnswer :
      (clients : Dict MinerClient) → FirstAnswer clients (ask_clients md5 clients i)
  unfolding ask_clients
  ask_clients-FirstAnswer [] = refl
  ask_clients-FirstAnswer ((host, c) ∷ clients) =
      first_asked host c clients (c.get_block i) refl (ask_clients-FirstAnswer clients)

  -- GetRemoteBlock gives the answer of the first of the connected miners that answers with a block
  -- of the id that is asked for, and nothing if there is none.
  pub get_remote_block-FirstAnswer :
      (s : MinerState) → FirstAnswer s.clients (get_remote_block md5 s i)
  unfolding get_remote_block
  get_remote_block-FirstAnswer s = ask_clients-FirstAnswer s.clients
