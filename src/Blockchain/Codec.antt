-- ===== src/Blockchain/Codec.antt =====
-- The dicts of core/blockchain: what `to_dict` writes and `from_dict` reads.
pub mod Keys
pub mod Json
pub mod Payloads
pub mod Transactions
pub mod Blocks
pub mod RoundTrip
pub mod BlockRoundTrip
mod Tests
