-- ===== src/StakeDb/Recover.antt =====
-- NewStakeDatabase and LoadAndRecover of v4/stakedb/stakedb.go: the stake node and the ticket pool are
-- brought to the same height, the pool is advanced to its tip, and the live tickets are cached. What Open
-- finds (hcd's stake node and its database) is an argument. On failure both databases are closed, so no
-- state comes back. A loop that disconnects takes the height plus one as fuel, since each round lowers the
-- height, and one that trims the tip plus one.
mod Tests
pub mod Lower
pub mod Level
pub mod Started
use hc_data.Base.{
  ℕ, zero, suc, ◌+◌, Bool, true, false, List, [], Option, none, some, ltb, not, ◌==◌, if◌then◌else◌,
}
use hc_data.Base.Int.{ℤ, pos, negsuc, ◌-ℤ◌, ltb_ℤ}
use hc_data.Base.Exec.{Outcome, ok, err, panic, out_of_fuel, Exec, pure, raise, continue}
use hc_data.Base.HashSet.{Hash}
use hc_data.StakeDb.DiffDb.{PoolDiff, DiffDb}
use hc_data.StakeDb.TicketPool.{TicketPool, PoolError, trim, advance_to_tip}
use hc_data.StakeDb.TicketPool.Disk.{new_ticket_pool}
use hc_data.StakeDb.PoolInfoCache.{Lane, PoolInfoCache, CacheError, new_pool_info_cache, set}
use hc_data.StakeDb.LiveTickets.{LiveTickets, Fetch, FetchError, populate}
use hc_data.StakeDb.Connect.{
  PoolInfo, StakeNode, StakeError, pool_failed, cache_failed, open_failed, heights_differ, Db,
}
use hc_data.StakeDb.Disconnect.{Client, disconnect_block}
use hc_data.StakeDb.Reorg.{rewind}

-- An error, with the height that NewStakeDatabase returns beside it
pub record Failure : Type 0 where
  pub height : ℤ
  pub error : StakeError

abbrev pub no_pool_info : PoolInfo
no_pool_info = record { height = pos 0; size = 0; value = pos 0; winners = [] }

-- The height to which LoadAndRecover rewinds, from the heights of the stake node and of the pool
abbrev pub lower_of : ℤ → ℕ → ℤ
lower_of to height = if ltb_ℤ (pos height) to then pos height else to

unfoldable pub target_of : ℤ → ℕ → ℕ → ℤ
target_of to stake pool = lower_of (lower_of (if ltb_ℤ to (pos 0) then pos 0 else to) stake) pool

module _ (D : DiffDb) (L : Lane) (N : StakeNode) where
  open D use {State}
  open L use {Queue}
  open N use {Node, Disk, height}

  abbrev pub Load : Type 0 → Type 0
  Load A = Exec Failure (Db D L N) A

  abbrev pub fail_at :
      {A : Type 0} → ℤ → Outcome StakeError A × Db D L N → Outcome Failure A × Db D L N
  fail_at h (ok a, db) = (ok a, db)
  fail_at h (err e, db) = (err (record { height = h; error = e }), db)
  fail_at h (panic, db) = (panic, db)
  fail_at h (out_of_fuel, db) = (out_of_fuel, db)

  -- `for heightStakeDB > heightTicketPool`: the height of the pool is that of before the round.
  unfoldable pub level_loop : Fetch → Client → ℕ → Load (Unit {0})
  unfolding disconnect_block
  level_loop fetch client zero db = (out_of_fuel, db)
  level_loop fetch client (suc fuel) db =
      let round =
        continue (fail_at (pos db.pool_db.tip) (disconnect_block D L N fetch client true db))
          (λ _. level_loop fetch client fuel) in
      if ltb db.pool_db.tip (height db.best_node) then round else pure tt db

  -- The rest of a round of the loop that trims; Trim returns no error.
  unfoldable pub trimmed_to :
      (ℕ → Load ℕ) → Outcome PoolError (ℕ × PoolDiff) × TicketPool State → Load ℕ
  trimmed_to walk (ok (tip, undo), tp) db = walk tip (record db { pool_db = tp })
  trimmed_to walk (err e, tp) db =
      raise (record { height = negsuc 0; error = pool_failed e }) (record db { pool_db = tp })
  trimmed_to walk (panic, tp) db = (panic, record db { pool_db = tp })
  trimmed_to walk (out_of_fuel, tp) db = (out_of_fuel, record db { pool_db = tp })

  -- `for heightTicketPool > heightStakeDB`
  unfoldable pub trim_down : ℕ → ℕ → ℕ → Load ℕ
  unfolding trimmed_to
  trim_down zero stake tip db = (out_of_fuel, db)
  trim_down (suc fuel) stake tip db =
      let round = trimmed_to (trim_down fuel stake) (trim db.pool_db) db in
      if ltb stake tip then round else pure tip db

  abbrev pub check_level : ℕ → Load (Unit {0})
  check_level tip db =
      if tip == height db.best_node
      then pure tt db
      else raise
          (record {
            height = if ltb (height db.best_node) tip then pos (height db.best_node) else negsuc 0;
            error = heights_differ;
          })
          db

  -- Both loops, and the test that follows them
  unfoldable pub level : Fetch → Client → Load (Unit {0})
  unfolding level_loop trim_down
  level fetch client db = continue (level_loop fetch client (height db.best_node + 1) db) (λ _ db1.
      continue (trim_down (db1.pool_db.tip + 1) (height db1.best_node) db1.pool_db.tip db1)
        check_level)

  -- The cache with the genesis block
  abbrev pub with_cache :
      {A : Type 0}
      → (PoolInfoCache PoolInfo Queue → Outcome Failure A)
      → Outcome CacheError (Unit {0}) × PoolInfoCache PoolInfo Queue
      → Outcome Failure A
  with_cache f (ok u, c) = f c
  with_cache f (err e, c) = err (record { height = negsuc 0; error = cache_failed e })
  with_cache f (panic, c) = panic
  with_cache f (out_of_fuel, c) = out_of_fuel

  abbrev pub with_pool :
      {A : Type 0}
      → (TicketPool State → Outcome Failure A)
      → Outcome PoolError (TicketPool State)
      → Outcome Failure A
  with_pool f (ok tp) = f tp
  with_pool f (err e) = err (record { height = negsuc 0; error = pool_failed e })
  with_pool f panic = panic
  with_pool f out_of_fuel = out_of_fuel

  abbrev pub with_node :
      {A : Type 0} → (Node → Disk → Outcome Failure A) → Option (Node × Disk) → Outcome Failure A
  with_node f none = err (record { height = negsuc 0; error = open_failed })
  with_node f (some (node, disk)) = f node disk

  -- The database after Open
  abbrev pub opened : TicketPool State → PoolInfoCache PoolInfo Queue → Node → Disk → Db D L N
  opened tp c node disk = record {
    best_node = node;
    stake_db = disk;
    block_cache = λ _. none;
    live = record { live_ticket_cache = []; pool_value = pos 0 };
    pool_info = c;
    pool_db = tp;
    pending = [];
  }

  abbrev pub result_of :
      {A : Type 0} → Outcome Failure A × Db D L N → Outcome Failure (A × Db D L N)
  result_of (ok a, db) = ok (a, db)
  result_of (err e, db) = err e
  result_of (panic, db) = panic
  result_of (out_of_fuel, db) = out_of_fuel

  -- What both functions do up to Open, and then the rest
  unfoldable pub open_with :
      {A : Type 0} → Hash → State → Option (Node × Disk) → Load A → Outcome Failure (A × Db D L N)
  open_with genesis_hash diff_db found run =
      with_pool
        (λ tp.
          with_cache (λ c. with_node (λ node disk. result_of (run (opened tp c node disk))) found)
            (set L genesis_hash no_pool_info (new_pool_info_cache L (pos 513))))
        (new_ticket_pool D diff_db)

  module _ (live_tickets : Node → List Hash) (fetch : Fetch) (client : Client) where
    -- The caller of PopulateLiveTicketCache gets the database also beside its error: the flag.
    abbrev pub keep_populated : Outcome FetchError (Bool × LiveTickets) → Load Bool
    keep_populated (ok (failed, s)) db = pure failed (record db { live = s })
    keep_populated (err e) db = pure true db
    keep_populated panic db = (panic, db)
    keep_populated out_of_fuel db = (out_of_fuel, db)

    unfoldable pub populate_cache : Load Bool
    populate_cache db = keep_populated (populate fetch (live_tickets db.best_node)) db

    -- NewStakeDatabase, after the heights are level
    abbrev pub advanced_or_fail :
        (ℤ × Outcome PoolError (Unit {0})) × TicketPool State → Load (ℤ × Bool)
    advanced_or_fail ((h, ok u), tp) db =
        continue (populate_cache (record db { pool_db = tp })) (λ failed. pure (h, failed))
    advanced_or_fail ((h, err e), tp) db =
        raise (record { height = h; error = pool_failed e }) (record db { pool_db = tp })
    advanced_or_fail ((h, panic), tp) db = (panic, record db { pool_db = tp })
    advanced_or_fail ((h, out_of_fuel), tp) db = (out_of_fuel, record db { pool_db = tp })

    unfoldable pub advance_new : Load (ℤ × Bool)
    unfolding populate_cache
    advance_new db = advanced_or_fail (advance_to_tip db.pool_db) db

    unfoldable pub start_new : Load (ℤ × Bool)
    unfolding level advance_new
    start_new db =
        continue
          (if height db.best_node == db.pool_db.tip then pure tt db else level fetch client db)
          (λ _. advance_new)

    -- NewStakeDatabase: the height that it returns, and whether the live tickets could not all be cached
    unfoldable pub new_stake_database :
        Hash → State → Option (Node × Disk) → Outcome Failure ((ℤ × Bool) × Db D L N)
    unfolding open_with start_new
    new_stake_database genesis_hash diff_db found = open_with genesis_hash diff_db found start_new

    -- LoadAndRecover, after the heights are those to which it rewinds: where the pool does not advance to
    -- its tip, one block more than it got is disconnected.
    abbrev pub advanced_or_rewind :
        (ℤ × Outcome PoolError (Unit {0})) × TicketPool State → Load Bool
    advanced_or_rewind ((h, ok u), tp) db = populate_cache (record db { pool_db = tp })
    advanced_or_rewind ((h, err e), tp) db =
        continue
          (fail_at (negsuc 0)
            (rewind D L N fetch client (h -ℤ pos 1) true (record db { pool_db = tp })))
          (λ _. populate_cache)
    advanced_or_rewind ((h, panic), tp) db = (panic, record db { pool_db = tp })
    advanced_or_rewind ((h, out_of_fuel), tp) db = (out_of_fuel, record db { pool_db = tp })

    unfoldable pub advance_recovered : Load Bool
    unfolding populate_cache
    advance_recovered db = advanced_or_rewind (advance_to_tip db.pool_db) db

    -- The loop back to the specified height is that of Rewind.
    unfoldable pub lower_to : ℤ → Load Bool
    unfolding advance_recovered rewind
    lower_to target db =
        continue (fail_at (negsuc 0) (rewind D L N fetch client target true db))
          (λ _. advance_recovered)

    unfoldable pub start_recovered : ℤ → Load Bool
    unfolding level lower_to target_of
    start_recovered to db =
        continue (level fetch client db)
          (λ _. lower_to (target_of to (height db.best_node) db.pool_db.tip))

    -- LoadAndRecover; a failure has no height here.
    unfoldable pub load_and_recover :
        Hash → State → Option (Node × Disk) → ℤ → Outcome Failure (Bool × Db D L N)
    unfolding open_with start_recovered
    load_and_recover genesis_hash diff_db found to =
        open_with genesis_hash diff_db found (start_recovered to)
