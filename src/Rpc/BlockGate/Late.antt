-- ===== src/Rpc/BlockGate/Late.antt =====
-- A goroutine of BlockGate (v4/rpcutils/blockgate.go) that runs after its block was dropped.
use hc_data.Base.{◌≡◌, refl, true, false}
use hc_data.Base.Int.{beq_ℤ_iff, ℤ, pos, beq_ℤ}
use hc_data.Base.Exec.{panic}
use hc_data.Base.HashSet.{Hash}
use hc_data.Rpc.BlockGate.{new_block_gate, store_block, rotate_in, drop_oldest}
use hc_data.Rpc.BlockGate.Notify.{run_signal_height, signal_height_with}

module _ {Block : Type 0} where
  -- In a new gate with room for one block, two blocks at different heights are stored before the goroutine
  -- that signals the first of them runs: the first block is dropped by then, and the goroutine panics.
  pub late_signal_panics :
      (h k : ℤ) (x y : Hash) (a b : Block)
      → beq_ℤ k h ≡ false
      → (run_signal_height h (store_block k y b (store_block h x a (new_block_gate (pos 1))))).0
        ≡ panic
  unfolding run_signal_height signal_height_with store_block rotate_in drop_oldest new_block_gate
  late_signal_panics h k x y a b differ =
      let same : beq_ℤ h h ≡ true = (beq_ℤ_iff h h).1 refl in rw (differ, same)
