-- ===== src/Rpc/BlockGate/Delivery.antt =====
-- What becomes of a channel of BlockGate (v4/rpcutils/blockgate.go) from WaitForHeight or WaitForHash to
-- the signal.
use hc_data.Base.{
  ℕ, ◌≡◌, refl, ap, ◌∙◌, Bool, true, false, ◌||◌, ◌++◌, Bool-cases, inl, inr, List, [], ◌∷◌, Option,
  none, some, arith, ◌==◌, ==_iff, ==_refl,
}
use hc_data.Base.Int.{ℤ, pos, ltb_ℤ, beq_ℤ, beq_ℤ_iff}
use hc_data.Base.Exec.{ok}
use hc_data.Base.HashSet.{Hash, contains, contains-append, contains-cons}
use hc_data.Rpc.BlockGate.{
  BlockGate, best_block_hash, best_of, Node, GateError, store_block, update_to_block, update_with,
  get_block, or_zero, block_of, signal_height, signal_hash,
}
use hc_data.Rpc.BlockGate.Notify.{
  run_signal_height, add_height_waiter, wait_for_height, add_hash_waiter, wait_for_hash,
}
use hc_data.Rpc.BlockGate.Cache.{IsCached, store_block_found}
use hc_data.Rpc.BlockGate.Update.{SameWaiters, store_block-SameWaiters}
use hc_data.Rpc.BlockGate.Waiters.{IsWaiting-add}
use hc_data.Rpc.BlockGate.Signal.{IsWaitedOn, IsWaiting-later, run_signal_height_correct}

module _ {Block : Type 0} where
  SameWaiters-IsWaitedOn :
      (g g' : BlockGate Block) → SameWaiters g g' → IsWaitedOn g → IsWaitedOn g'
  SameWaiters-IsWaitedOn g g' same w = record {
    heights = rw (same.height_waiters, same.height_chans, same.next_chan) w.heights;
    hashes = rw (same.hash_waiters, same.hash_chans, same.next_chan) w.hashes;
  }

  update_with-IsWaitedOn :
      (height : ℤ) (found : Option (Block × Hash)) (g : BlockGate Block)
      → IsWaitedOn g
      → IsWaitedOn (update_with height found g).1
  unfolding update_with
  update_with-IsWaitedOn height none g w = w
  update_with-IsWaitedOn height (some (block, hash)) g w =
      SameWaiters-IsWaitedOn g (store_block height hash block g)
        (store_block-SameWaiters height hash block g).0 w

  -- An update of the gate, failed or not, keeps every channel waiting.
  pub update_to_block-IsWaitedOn :
      (node : Node Block) (height : ℤ) (g : BlockGate Block)
      → IsWaitedOn g
      → IsWaitedOn (update_to_block node height g).1
  unfolding update_to_block
  update_to_block-IsWaitedOn node height g w =
      update_with-IsWaitedOn height (get_block height node) g w

  add_height_waiter-IsWaitedOn :
      (height : ℤ) (g : BlockGate Block) → IsWaitedOn g → IsWaitedOn (add_height_waiter height g)
  unfolding add_height_waiter
  add_height_waiter-IsWaitedOn height g w = record {
    heights =
        IsWaiting-add beq_ℤ beq_ℤ_iff g.height_waiters g.height_chans g.next_chan height w.heights;
    hashes = IsWaiting-later g.hash_waiters g.hash_chans g.next_chan w.hashes;
  }

  add_hash_waiter-IsWaitedOn :
      (hash : Hash) (g : BlockGate Block) → IsWaitedOn g → IsWaitedOn (add_hash_waiter hash g)
  unfolding add_hash_waiter
  add_hash_waiter-IsWaitedOn hash g w = record {
    heights = IsWaiting-later g.height_waiters g.height_chans g.next_chan w.heights;
    hashes =
        IsWaiting-add (λ j k. j == k) ==_iff g.hash_waiters g.hash_chans g.next_chan hash w.hashes;
  }

  -- WaitForHeight keeps the invariant of the waiters on each of its branches: a negative height, a height
  -- that is still to come, and a height that it fetches at once.
  pub wait_for_height-IsWaitedOn :
      (node : Node Block) (height : ℤ) (g : BlockGate Block)
      → IsWaitedOn g
      → IsWaitedOn (wait_for_height node height g).1
  unfolding wait_for_height
  wait_for_height-IsWaitedOn node height g w = elim (Bool-cases (ltb_ℤ height (pos 0))) [
    | inl negative ↦ rw negative w
    | inr natural ↦ elim (Bool-cases (ltb_ℤ g.fetch_to_height height)) [
      | inl later ↦ rw (natural, later) (add_height_waiter-IsWaitedOn height g w)
      | inr now ↦
          rw (natural, now)
            (update_to_block-IsWaitedOn node height (add_height_waiter height g)
              (add_height_waiter-IsWaitedOn height g w))
    ]
  ]

  -- WaitForHash keeps the invariant of the waiters.
  pub wait_for_hash-IsWaitedOn :
      (hash : Hash) (g : BlockGate Block) → IsWaitedOn g → IsWaitedOn (wait_for_hash hash g).1
  unfolding wait_for_hash
  wait_for_hash-IsWaitedOn hash g w =
      let waiting = add_hash_waiter-IsWaitedOn hash g w in
      elim (Bool-cases (hash == or_zero (g.hash_at_height g.height))) [
        | inl best ↦ rw best (record { heights = waiting.heights; hashes = waiting.hashes })
        | inr other ↦ rw other waiting
      ]

  added_waits :
      (height : ℤ) (g : BlockGate Block)
      → contains ((add_height_waiter height g).height_waiters height) g.next_chan ≡ true
  unfolding add_height_waiter
  added_waits height g =
      rw ((beq_ℤ_iff height height).1 refl, contains-append, contains-cons, ==_refl g.next_chan)
        (or-true (contains (g.height_waiters height) g.next_chan))
    where
      or-true : (b : Bool) → (b || true) ≡ true
      or-true b = ground arith

  best_found :
      (hash : Hash) (height : ℤ) (g : BlockGate Block)
      → best_block_hash g ≡ (hash, height, none)
      → g.hash_at_height height ≡ some hash
  unfolding best_block_hash
  best_found hash height g e = go g.height (g.hash_at_height g.height) refl e
    where
      go :
          (h : ℤ) (o : Option Hash)
          → g.hash_at_height h ≡ o
          → best_of h o ≡ (hash, height, none)
          → g.hash_at_height height ≡ some hash
      go h none p q = absurd (ground arith)
      go h (some x) p q =
          let same_height : h ≡ height = ap (λ (t : Hash × ℤ × Option GateError). t.1) q in
          let same_hash : x ≡ hash = ap (λ (t : Hash × ℤ × Option GateError). t.0) q in
          rw (same_height, same_hash) at p

  add_height_waiter-IsCached :
      (height : ℤ) (g : BlockGate Block) → IsCached g → IsCached (add_height_waiter height g)
  unfolding add_height_waiter
  add_height_waiter-IsCached height g c = record {
    heights = c.heights;
    hashes = c.hashes;
    room = c.room;
  }

  -- From a gate in step with room for a block, and a natural height that the node has a block for:
  -- WaitForHeight on a height within fetchToHeight gives a channel at once, stores the block, as the best
  -- one, and starts the goroutines that signal its height and its hash. The goroutine that signals the height,
  -- where it runs next, does not panic and leaves exactly the block's hash in the channel.
  pub wait_for_height-delivers :
      (node : Node Block) (height : ℤ) (block : Block) (hash : Hash) (g : BlockGate Block)
      → IsCached g
      → IsWaitedOn g
      → ltb_ℤ (pos 0) g.cap ≡ true
      → ltb_ℤ height (pos 0) ≡ false
      → ltb_ℤ g.fetch_to_height height ≡ false
      → get_block height node ≡ some (block, hash)
      → (waiting g' : BlockGate Block) × (wait_for_height node height g
          ≡ (some g.next_chan, waiting))
        × (best_block_hash waiting ≡ (hash, height, none))
        × (block_of hash waiting ≡ (some block, none))
        × (waiting.pending ≡ g.pending ++ signal_height height ∷ signal_hash hash ∷ [])
        × (run_signal_height height waiting ≡ (ok tt, g'))
        × (g'.height_chans g.next_chan ≡ hash ∷ [])
  unfolding wait_for_height update_to_block update_with
  wait_for_height-delivers node height block hash g c w positive natural now found =
      let before = add_height_waiter height g in
      let waiting = store_block height hash block before in
      let same = (store_block-SameWaiters height hash block before).0 in
      let still =
        SameWaiters-IsWaitedOn before waiting same (add_height_waiter-IsWaitedOn height g w) in
      let (is_best, _, is_stored) =
        store_block_found height hash block before (add_height_waiter-IsCached height g c)
          (unfold add_height_waiter in positive) in
      let cached : waiting.hash_at_height height ≡ some hash =
        best_found hash height waiting is_best in
      let started = (store_block-SameWaiters height hash block before).1 in
      let member : contains (waiting.height_waiters height) g.next_chan ≡ true =
        ap (λ (f : ℤ → List ℕ). contains (f height) g.next_chan) same.height_waiters
        ∙ added_waits height g in
      let (g', run, kept, told, _) = run_signal_height_correct height hash waiting still cached in
      (
        waiting,
        g',
        rw (natural, now, found),
        is_best,
        is_stored,
        unfold add_height_waiter in started,
        run,
        told g.next_chan ∙ rw member,
      )
