-- ===== src/StakeDb.antt =====
-- The parts of v4/stakedb: the ticket pool of diffs, the pool info cache, the live ticket cache, and the
-- blocks that the stake database connects and disconnects.
mod Samples
pub mod DiffDb
pub mod TicketPool
pub mod PoolInfoCache
pub mod LiveTickets
pub mod Connect
pub mod Disconnect
pub mod Reorg
pub mod Recover
pub mod Waiters
pub mod Handoff
