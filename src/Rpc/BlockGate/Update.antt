-- ===== src/Rpc/BlockGate/Update.antt =====
-- updateToBlock of v4/rpcutils/blockgate.go: what it leaves alone, starts and makes the best block.
use hc_data.Base.{
  ◌≡◌, refl, ap, true, Bool-cases, inl, inr, List, [], ◌∷◌, ◌++◌, Option, none, some, length,
}
use hc_data.Base.Int.{ℤ, pos, ltb_ℤ}
use hc_data.Base.Exec.{ok}
use hc_data.Base.HashSet.{Hash}
use hc_data.Rpc.BlockGate.{
  Task, signal_hash, signal_height, BlockGate, Node, Pair, drop_oldest, store_block,
  update_to_block, update_with, get_block, best_block, best_block_hash, block_of,
}
use hc_data.Rpc.BlockGate.Cache.{IsCached, written, store_block-IsCached, store_block_found}

module _ {Block : Type 0} where
  -- What storing a block leaves alone.
  pub record SameWaiters (g g' : BlockGate Block) : Type 0 where
    pub cap : g'.cap ≡ g.cap
    pub next_chan : g'.next_chan ≡ g.next_chan
    pub height_waiters : g'.height_waiters ≡ g.height_waiters
    pub hash_waiters : g'.hash_waiters ≡ g.hash_waiters
    pub height_chans : g'.height_chans ≡ g.height_chans
    pub hash_chans : g'.hash_chans ≡ g.hash_chans

  drop_oldest-SameWaiters :
      (q : List Pair) (g : BlockGate Block)
      → SameWaiters g (drop_oldest q g) × ((drop_oldest q g).pending ≡ g.pending)
  unfolding drop_oldest
  drop_oldest-SameWaiters [] g = (
    record {
      cap = refl;
      next_chan = refl;
      height_waiters = refl;
      hash_waiters = refl;
      height_chans = refl;
      hash_chans = refl;
    },
    refl,
  )
  drop_oldest-SameWaiters ((o, x) ∷ rest) g = (
    record {
      cap = refl;
      next_chan = refl;
      height_waiters = refl;
      hash_waiters = refl;
      height_chans = refl;
      hash_chans = refl;
    },
    refl,
  )

  pub store_block-SameWaiters :
      (height : ℤ) (hash : Hash) (block : Block) (g : BlockGate Block)
      → SameWaiters g (store_block height hash block g)
        × ((store_block height hash block g).pending
            ≡ g.pending ++ signal_height height ∷ signal_hash hash ∷ [])
  unfolding store_block
  store_block-SameWaiters height hash block g =
      elim (Bool-cases (ltb_ℤ g.cap (pos (length (g.expire_queue ++ (height, hash) ∷ []))))) [
        | inr fits ↦ rw fits (
          record {
            cap = refl;
            next_chan = refl;
            height_waiters = refl;
            hash_waiters = refl;
            height_chans = refl;
            hash_chans = refl;
          },
          refl,
        )
        | inl over ↦
            let (same, p) =
              drop_oldest-SameWaiters (g.expire_queue ++ (height, hash) ∷ [])
                (written height hash block g) in
            rw over (
              record {
                cap = same.cap;
                next_chan = same.next_chan;
                height_waiters = same.height_waiters;
                hash_waiters = same.hash_waiters;
                height_chans = same.height_chans;
                hash_chans = same.hash_chans;
              },
              ap (λ (l : List Task). l ++ signal_height height ∷ signal_hash hash ∷ []) p,
            )
      ]

  update_with-IsCached :
      (height : ℤ) (found : Option (Block × Hash)) (g : BlockGate Block)
      → IsCached g
      → IsCached (update_with height found g).1
  unfolding update_with
  update_with-IsCached height none g cached = cached
  update_with-IsCached height (some (block, hash)) g cached =
      store_block-IsCached height hash block g cached

  -- Whatever the node answers, updateToBlock keeps the gate's maps in step with its queue, and the queue
  -- within the capacity.
  pub update_to_block-IsCached :
      (node : Node Block) (height : ℤ) (g : BlockGate Block)
      → IsCached g
      → IsCached (update_to_block node height g).1
  unfolding update_to_block
  update_to_block-IsCached node height g cached =
      update_with-IsCached height (get_block height node) g cached

  -- From a gate in step with a capacity of one or more, updateToBlock at a height for which the node gives
  -- a block ends without error. It starts two goroutines, which signal the height and the hash, and the
  -- block is then the best block: every getter finds it, and none reports an error.
  pub update_to_block_correct :
      (node : Node Block) (height : ℤ) (block : Block) (hash : Hash) (g : BlockGate Block)
      → IsCached g
      → ltb_ℤ (pos 0) g.cap ≡ true
      → get_block height node ≡ some (block, hash)
      → (g' : BlockGate Block) × (update_to_block node height g ≡ (ok block, g'))
        × (g'.pending ≡ g.pending ++ signal_height height ∷ signal_hash hash ∷ [])
        × (best_block_hash g' ≡ (hash, height, none))
        × (best_block g' ≡ (some block, none))
        × (block_of hash g' ≡ (some block, none))
  unfolding update_to_block update_with
  update_to_block_correct node height block hash g cached positive found =
      let (a, b, c) = store_block_found height hash block g cached positive in
      (
        store_block height hash block g,
        rw (found, update_with),
        (store_block-SameWaiters height hash block g).1,
        a,
        b,
        c,
      )
