-- ===== src/Rpc.antt =====
-- The parts of v4/rpcutils: the block gate, and walks back from the tips of chains.
pub mod BlockGate
pub mod Chains
pub mod SideChain
