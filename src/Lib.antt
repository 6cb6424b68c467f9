-- ===== src/Lib.antt =====
-- Block-A-File: a file system of append-only files of 512-byte records, kept on a block chain of
-- proof-of-work blocks. A client's request becomes a job, the job an operation in a block, and the
-- state of the files and of the accounts is what the chain of blocks up to a node generates.
--
-- The parts, from the bottom up, with the files that model them:
--   shared/*.go                              Shared
--   shared/datastruct/queue.go               DataStruct/Queue
--   shared/datastruct/mrootedtree.go         DataStruct/MRootTree
--   shared/datastruct/priority_queue.go      DataStruct/PriorityQueue
--   crypto/block.go                          Crypto/Block
--   miner/state/file_system_state.go         State/Filesystem
--   miner/state/block_chain_state.go         State/Accounts
--   miner/state/block_chain_validator.go     State/Chain (transverseChain), State/Validator
--   miner/state/tree_manager.go              State/BlockTree (BlockChainTree), State/TreeManager,
--                                            State/TreeManager/Threads (the goroutines)
--   miner/block_calculators/*.go             Calculators, Calculators/Rounds
--   miner/state/state.go                     Miner, Miner/Starts (NewMinerState)
--   miner/api/miner_server.go                Miner
--   miner/api/miner_client.go                Miner/Calls
--   miner/instance/miner_instance.go         Instance, Instance/Service (the loops)
--   miner/instance/clienthandler.go          Instance/Service
--   miner/state/tree_listener.go             Instance/Listener
--   fdlib/fdlib.go                           Fdlib
--   rfslib/rfslib.go                         Rfs
--   client/cat.go, head.go, tail.go, append.go  Client
--   client/touch.go, rm.go, ls.go            Client/Commands
--   client/client_basic.go                   Client/Basic
-- A definition has the name of its Go function in snake case, and a type the name of its Go type.
-- The children of a component hold what is proved of it; the Tests modules apply the theorems to
-- small inputs.
--
-- The tree manager adds a block through the validator, which compares the block with the states
-- that the chain of its parent generates and moves its cached states on to the block; the block
-- then goes into the tree. A block with no parent in the tree waits in a queue. A client of the
-- library sends a request over its connection, the dispatch gives it to a handler, and what the
-- handler answers comes back as a response, of which the library makes an error or a result. The
-- handlers ask the validator about a job and hand it to the miner's state, which puts it into the job
-- set of the calculators and sends it to the other miners; the calculators take the jobs of a block
-- from there and put them back if the block does not stay in the longest chain. A block that comes
-- from another miner goes to the tree manager and on to the other miners.
--
-- Goroutines. The operations of the tree manager are modelled twice: each in one piece, and cut at
-- each access of the shared tree or queue into the steps of a goroutine (State/TreeManager/Threads),
-- where a step relation takes the next step of any goroutine, of FindNodeThread or of a caller, with
-- any answer of the remote miners. State/TreeManager/Threads/Whole compares the two. A turn of a
-- monitor of the failure detector is one step, at the moment it takes its sequence number.
--
-- Representation. Strings, hashes and data are lists of bytes (Base/Text), numbers are natural
-- numbers with the wrap-around of uint16, uint32 and uint64 written out, balances are integers
-- (Base/Int) whose sums and differences wrap around as Go's int of 64 bits does. A map is an association list (Base/Dict); no modelled
-- result depends on the order of its entries but the list of names of ListFilesHandler. An error is
-- a value of a result type of the component's own (Base/Result). A panic is `none`. A pointer to a
-- node of the tree is followed by the node's id. MD5 and the remote miners are parameters. What the
-- network, the clock and the other goroutines do in a turn of a loop is an argument of the turn, and
-- the heap of the priority queue is container/heap's, written out on lists.
--
-- Fuel. The queue's turn-over loop runs on one more than the queue's length, the loop of
-- ValidateJobSet on one more than the number of operations, removeNodesStartingFrom on one more than
-- the queue's length, InLongestChain on one more than the tree's height; each is enough, as the
-- results say or as each round uses up an element. heap.down runs on the length of the queue and
-- heap.up on one more than the place it starts from, the loops of RemoveJobsFromBlock on one more
-- than the number of jobs, and the two retry loops of the client library on one more than the number
-- of tries. The search for a nonce, blockAdderHelper, the loops of the handlers and those of the
-- calculators may run for ever in Go; their fuel is an argument, and `none` says that it ran out.
--
-- Not modelled: input and output (sockets, RPC and gob, logging, the configuration file, the start of
-- servers), miner.go, which only starts an instance, the update method of the priority queue, which
-- nothing calls, and, outside the tree manager, the interleaving of goroutines within an operation:
-- there each operation, and each turn of a goroutine's loop, is one step.
pub mod Base
pub mod Shared
pub mod DataStruct
pub mod Crypto
pub mod State
pub mod Instance
pub mod Calculators
pub mod Fdlib
pub mod Miner
pub mod Rfs
pub mod Client
