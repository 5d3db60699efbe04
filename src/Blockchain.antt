-- ===== src/Blockchain.antt =====
-- core/blockchain: transactions, blocks, the ledger and the pool of pending transactions.
pub mod Constants
pub mod Transaction
pub mod Block
pub mod Chain
pub mod Genesis
pub mod Codec
pub mod Mempool
pub mod Vm
mod Tests
