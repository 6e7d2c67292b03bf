-- ===== src/Rpc/BlockGate/Signal.antt =====
-- The goroutines of BlockGate (v4/rpcutils/blockgate.go) that signal a height or a hash.
use hc_data.Base.{ℕ, ◌+◌, ◌≡◌, refl, List, [], ◌∷◌, some, arith, ◌==◌, ==_iff, if◌then◌else◌}
use hc_data.Base.Int.{ℤ, beq_ℤ, beq_ℤ_iff}
use hc_data.Base.Exec.{ok}
use hc_data.Base.HashSet.{Hash, contains}
use hc_data.Rpc.BlockGate.{BlockGate}
use hc_data.Rpc.BlockGate.Notify.{
  run_signal_height, signal_height_with, told_height, run_signal_hash, signal_hash_with, told_hash,
}
use hc_data.Rpc.BlockGate.Waiters.{IsWaiting, IsWaiting-tell, send_all-ok}

-- Each channel of the gate waits for one height or one hash, once, and nothing was sent to it.
pub record IsWaitedOn {Block : Type 0} (g : BlockGate Block) : Type 0 where
  pub heights : IsWaiting g.height_waiters g.height_chans g.next_chan
  pub hashes : IsWaiting g.hash_waiters g.hash_chans g.next_chan

pub IsWaiting-later :
    {K V : Type 0} (waiters : K → List ℕ) (chans : ℕ → List V) (next : ℕ)
    → IsWaiting waiters chans next
    → IsWaiting waiters chans (next + 1)
IsWaiting-later waiters chans next w = record {
  known = λ k c h. let p = w.known k c h in omega arith;
  unsent = w.unsent;
  distinct = w.distinct;
  apart = w.apart;
}

module _ {Block : Type 0} where
  -- signalHeight, when the block of the height is cached, does not panic: it sends the block's hash to
  -- every waiter of the height, leaves every other channel as it was, and forgets these waiters and no
  -- other.
  pub run_signal_height_correct :
      (height : ℤ) (hash : Hash) (g : BlockGate Block)
      → IsWaitedOn g
      → g.hash_at_height height ≡ some hash
      → (g' : BlockGate Block) × (run_signal_height height g ≡ (ok tt, g'))
        × IsWaitedOn g'
        × ((d : ℕ)
            → g'.height_chans d
              ≡ (if contains (g.height_waiters height) d then hash ∷ [] else g.height_chans d))
        × ((h : ℤ) → g'.height_waiters h ≡ (if beq_ℤ height h then [] else g.height_waiters h))
  unfolding run_signal_height signal_height_with told_height
  run_signal_height_correct height hash g w cached =
      let (chans', sent, told) =
        send_all-ok 1 hash (g.height_waiters height) g.height_chans (omega arith)
          (w.heights.distinct height) (w.heights.unsent height) in
      (
        record g {
          height_chans = chans';
          height_waiters = λ h. if beq_ℤ height h then [] else g.height_waiters h;
        },
        rw (cached, sent),
        record {
          heights =
              IsWaiting-tell beq_ℤ beq_ℤ_iff g.height_waiters g.height_chans chans' g.next_chan
                height hash w.heights told;
          hashes = w.hashes;
        },
        told,
        λ h. refl,
      )

  -- signalHash, when the block of the hash is cached, does not panic: it sends the height in the
  -- block's header to every waiter of the hash, leaves every other channel as it was, and forgets these
  -- waiters and no other.
  pub run_signal_hash_correct :
      (block_height : Block → ℤ) (hash : Hash) (block : Block) (g : BlockGate Block)
      → IsWaitedOn g
      → g.block_with_hash hash ≡ some block
      → (g' : BlockGate Block) × (run_signal_hash block_height hash g ≡ (ok tt, g'))
        × IsWaitedOn g'
        × ((d : ℕ)
            → g'.hash_chans d ≡ (
                if contains (g.hash_waiters hash) d
                then block_height block ∷ []
                else g.hash_chans d))
        × ((x : Hash) → g'.hash_waiters x ≡ (if hash == x then [] else g.hash_waiters x))
  unfolding run_signal_hash signal_hash_with told_hash
  run_signal_hash_correct block_height hash block g w cached =
      let (chans', sent, told) =
        send_all-ok 4 (block_height block) (g.hash_waiters hash) g.hash_chans (omega arith)
          (w.hashes.distinct hash) (w.hashes.unsent hash) in
      (
        record g {
          hash_chans = chans';
          hash_waiters = λ x. if hash == x then [] else g.hash_waiters x;
        },
        rw (cached, sent),
        record {
          heights = w.heights;
          hashes =
              IsWaiting-tell (λ j k. j == k) ==_iff g.hash_waiters g.hash_chans chans' g.next_chan
                hash (block_height block) w.hashes told;
        },
        told,
        λ x. refl,
      )
