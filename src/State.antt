-- ===== src/State.antt =====
-- miner/state: the states that a chain of blocks generates, the validator and the tree manager.
pub mod Chain
pub mod Filesystem
pub mod Accounts
pub mod Validator
pub mod BlockTree
pub mod TreeManager
mod Tests
