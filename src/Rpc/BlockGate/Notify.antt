-- ===== src/Rpc/BlockGate/Notify.antt =====
-- The waiters of BlockGate (v4/rpcutils/blockgate.go): WaitForHeight, WaitForHash and the goroutines
-- that signal them.
use hc_data.Base.{ℕ, ◌+◌, List, [], ◌∷◌, ◌++◌, Option, none, some, ltb, ◌==◌, if◌then◌else◌, length}
use hc_data.Base.Int.{ℤ, pos, ltb_ℤ, beq_ℤ}
use hc_data.Base.Exec.{Outcome, ok, panic, pure}
use hc_data.Base.HashSet.{Hash}
use hc_data.Rpc.BlockGate.{
  BlockGate, Node, Method, GateError, signal_hash, or_zero, update_to_block,
}

-- `select { case c <- v: default: panic }` for each channel, at the buffer's capacity.
unfoldable pub send_all :
    {V : Type 0} → ℕ → V → List ℕ → (ℕ → List V) → Outcome GateError (ℕ → List V)
send_all room v [] chans = ok chans
send_all room v (c ∷ rest) chans =
    let sent = send_all room v rest (λ d. if c == d then chans d ++ v ∷ [] else chans d) in
    if ltb (length (chans c)) room then sent else panic

module _ {Block : Type 0} where
  -- The end of signalHeight: the waiters are forgotten once all are told.
  unfoldable pub told_height : ℤ → Outcome GateError (ℕ → List Hash) → Method Block (Unit {0})
  told_height height (ok chans) g = pure tt (record g {
    height_chans = chans;
    height_waiters = λ h. if beq_ℤ height h then [] else g.height_waiters h;
  })
  told_height height _ g = (panic, g)

  unfoldable pub signal_height_with : ℤ → Option Hash → Method Block (Unit {0})
  unfolding told_height
  signal_height_with height none g = (panic, g)
  signal_height_with height (some hash) g =
      told_height height (send_all 1 hash (g.height_waiters height) g.height_chans) g

  -- signalHeight
  unfoldable pub run_signal_height : ℤ → Method Block (Unit {0})
  unfolding signal_height_with
  run_signal_height height g = signal_height_with height (g.hash_at_height height) g

  -- signalHash: `block_height` is the height that the block has in its header.
  unfoldable pub told_hash : Hash → Outcome GateError (ℕ → List ℤ) → Method Block (Unit {0})
  told_hash hash (ok chans) g = pure tt (record g {
    hash_chans = chans;
    hash_waiters = λ x. if hash == x then [] else g.hash_waiters x;
  })
  told_hash hash _ g = (panic, g)

  unfoldable pub signal_hash_with : (Block → ℤ) → Hash → Option Block → Method Block (Unit {0})
  unfolding told_hash
  signal_hash_with block_height hash none g = (panic, g)
  signal_hash_with block_height hash (some block) g =
      told_hash hash (send_all 4 (block_height block) (g.hash_waiters hash) g.hash_chans) g

  unfoldable pub run_signal_hash : (Block → ℤ) → Hash → Method Block (Unit {0})
  unfolding signal_hash_with
  run_signal_hash block_height hash g =
      signal_hash_with block_height hash (g.block_with_hash hash) g

  -- A channel of WaitForHeight is made empty.
  unfoldable pub add_height_waiter : ℤ → BlockGate Block → BlockGate Block
  add_height_waiter height g = record g {
    height_waiters =
        λ h. if beq_ℤ height h then g.height_waiters h ++ g.next_chan ∷ [] else g.height_waiters h;
    next_chan = g.next_chan + 1;
    height_chans = λ d. if g.next_chan == d then [] else g.height_chans d;
  }

  -- WaitForHeight: nil for a negative height; an error of updateToBlock is dropped.
  unfoldable pub wait_for_height : Node Block → ℤ → BlockGate Block → Option ℕ × BlockGate Block
  unfolding add_height_waiter
  wait_for_height node height g =
      let waiting = add_height_waiter height g in
      if ltb_ℤ height (pos 0)
      then (none, g)
      else if ltb_ℤ g.fetch_to_height height
      then (some g.next_chan, waiting)
      else (some g.next_chan, (update_to_block node height waiting).1)

  unfoldable pub add_hash_waiter : Hash → BlockGate Block → BlockGate Block
  add_hash_waiter hash g = record g {
    hash_waiters =
        λ x. if hash == x then g.hash_waiters x ++ g.next_chan ∷ [] else g.hash_waiters x;
    next_chan = g.next_chan + 1;
    hash_chans = λ d. if g.next_chan == d then [] else g.hash_chans d;
  }

  -- WaitForHash
  unfoldable pub wait_for_hash : Hash → BlockGate Block → ℕ × BlockGate Block
  unfolding add_hash_waiter
  wait_for_hash hash g =
      let waiting = add_hash_waiter hash g in
      if hash == or_zero (g.hash_at_height g.height)
      then (g.next_chan, record waiting { pending = waiting.pending ++ signal_hash hash ∷ [] })
      else (g.next_chan, waiting)
