-- ===== src/Crypto.antt =====
-- crypto: the blocks of the chain and their operations.
pub mod Block
mod Tests
