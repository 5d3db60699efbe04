-- ===== src/Consensus.antt =====
-- core/consensus: which nodes take part in a round.
pub mod Quorum
pub mod BlockBuilder
pub mod Reliability
