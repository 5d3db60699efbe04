-- ===== src/Network.antt =====
-- core/network: which peers a node knows.
pub mod Discovery
