-- ===== src/Qoi.antt =====
-- core/qoi: the consensus machines, and what drives them.
pub mod Pos
pub mod Quality
pub mod Proposer
pub mod Timeouts
pub mod Scheduler
pub mod ViewChanger
pub mod Messages
pub mod Machine
pub mod SystemTxs
mod Tests
