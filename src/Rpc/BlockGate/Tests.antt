-- ===== src/Rpc/BlockGate/Tests.antt =====
-- A concrete gate and node for the theorems on BlockGate (v4/rpcutils/blockgate.go).
use hc_data.Rpc.BlockGate.Late.{late_signal_panics}
use hc_data.Base.{
  ℕ, ◌≡◌, ◌<◌, ◌↔◌, refl, sym, ◌∙◌, Bool, true, inl, inr, Bool-cases, [], ◌∷◌, none, some, arith,
  ◌==◌, ==_iff, if◌then◌else◌,
}
use hc_data.Base.Int.{pos, beq_ℤ, beq_ℤ_iff}
use hc_data.Base.Exec.{ok, panic}
use hc_data.Base.HashSet.{contains}
use hc_data.Rpc.BlockGate.{
  store_block, new_block_gate, BlockGate, Node, signal_height, signal_hash, get_block,
  update_to_block, best_block_hash, best_block, block_of,
}
use hc_data.Rpc.BlockGate.Notify.{run_signal_height, wait_for_height}
use hc_data.Rpc.BlockGate.Cache.{IsCached}
use hc_data.Rpc.BlockGate.Update.{update_to_block_correct}
use hc_data.Rpc.BlockGate.Waiters.{IsWaiting}
use hc_data.Rpc.BlockGate.Signal.{IsWaitedOn}
use hc_data.Rpc.BlockGate.Delivery.{wait_for_height-delivers}

-- The node has the block 99 at the height 2.
abbrev one_block_node : Node ℕ
one_block_node = record {
  best = some (12, pos 2);
  hash_at = λ h. if beq_ℤ (pos 2) h then some 12 else none;
  block_at = λ x. if 12 == x then some 99 else none;
}

-- The gate has the block 98 at the height 1; a channel waits for that height, and one for its hash.
abbrev one_block_gate : BlockGate ℕ
one_block_gate = record {
  height = pos 1;
  fetch_to_height = pos 5;
  hash_at_height = λ h. if beq_ℤ (pos 1) h then some 11 else none;
  block_with_hash = λ x. if 11 == x then some 98 else none;
  height_waiters = λ h. if beq_ℤ (pos 1) h then 0 ∷ [] else [];
  hash_waiters = λ x. if 11 == x then 1 ∷ [] else [];
  expire_queue = (pos 1, 11) ∷ [];
  cap = pos 1;
  pending = [];
  next_chan = 2;
  height_chans = λ _. [];
  hash_chans = λ _. [];
}

one_block_gate-IsCached : IsCached one_block_gate
one_block_gate-IsCached = record {
  heights = λ h. ground arith;
  hashes = λ x. ground arith;
  room = inr refl;
}

one_waits :
    {K V : Type 0} (beq : K → K → Bool)
    → ((j k : K) → (beq j k ≡ true) ↔ (j ≡ k))
    → (key : K) (chan next : ℕ) → chan < next
    → IsWaiting {V = V} (λ k. if beq key k then chan ∷ [] else []) (λ _. []) next
unfolding contains
one_waits beq beq_iff key chan next h = record {
  known = λ k c p. ground arith;
  unsent = λ k c p. refl;
  distinct = λ k. elim (Bool-cases (beq key k)) [
    | inl same ↦ rw same (refl, tt)
    | inr other ↦ rw other tt
  ];
  apart = λ j k c p q. sym ((beq_iff key j).0 (ground arith)) ∙ (beq_iff key k).0 (ground arith);
}

one_block_gate-IsWaitedOn : IsWaitedOn one_block_gate
one_block_gate-IsWaitedOn = record {
  heights = one_waits beq_ℤ beq_ℤ_iff (pos 1) 0 2 (omega arith);
  hashes = one_waits (λ j k. j == k) ==_iff 11 1 2 (omega arith);
}

two_given : get_block (pos 2) one_block_node ≡ some (99, 12)
unfolding get_block
two_given = refl

update_to_block_correct_example :
    (g' : BlockGate ℕ) × (update_to_block one_block_node (pos 2) one_block_gate ≡ (ok 99, g'))
    × (g'.pending ≡ signal_height (pos 2) ∷ signal_hash 12 ∷ [])
    × (best_block_hash g' ≡ (12, pos 2, none))
    × (best_block g' ≡ (some 99, none))
    × (block_of 12 g' ≡ (some 99, none))
update_to_block_correct_example =
    update_to_block_correct one_block_node (pos 2) 99 12 one_block_gate one_block_gate-IsCached refl
      two_given

wait_for_height-delivers_example :
    (waiting g' : BlockGate ℕ) × (wait_for_height one_block_node (pos 2) one_block_gate
      ≡ (some 2, waiting))
    × (best_block_hash waiting ≡ (12, pos 2, none))
    × (block_of 12 waiting ≡ (some 99, none))
    × (waiting.pending ≡ signal_height (pos 2) ∷ signal_hash 12 ∷ [])
    × (run_signal_height (pos 2) waiting ≡ (ok tt, g'))
    × (g'.height_chans 2 ≡ 12 ∷ [])
wait_for_height-delivers_example =
    wait_for_height-delivers one_block_node (pos 2) 99 12 one_block_gate one_block_gate-IsCached
      one_block_gate-IsWaitedOn refl refl refl two_given

late_signal_panics_example :
    (run_signal_height {Block = ℕ}
      (pos 1)
      (store_block (pos 2) 12 99 (store_block (pos 1) 11 98 (new_block_gate (pos 1))))).0
    ≡ panic
late_signal_panics_example = late_signal_panics (pos 1) (pos 2) 11 12 98 99 refl
