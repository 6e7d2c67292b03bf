-- ===== src/Mempool.antt =====
-- The parts of v4/mempool: the monitor, the collector, and the cache of what it found.
pub mod Cache
pub mod Collector
pub mod Monitor
