-- ===== src/StakeDb/Connect/Invariant.antt =====
-- ConnectBlock (v4/stakedb/stakedb.go) on every branch.
use hc_data.Base.{
  refl, ℕ, ◌+◌, ◌≡◌, Bool, true, false, Bool-cases, inl, inr, List, Option, none, some,
}
use hc_data.Base.Int.{ℤ, pos, ◌-ℤ◌, ltb_ℤ}
use hc_data.Base.Exec.{Outcome, ok, err, panic, out_of_fuel, continue}
use hc_data.Base.HashSet.{Hash}
use hc_data.StakeDb.DiffDb.{PoolDiff, DiffDb}
use hc_data.StakeDb.TicketPool.{TicketPool, PoolError}
use hc_data.StakeDb.PoolInfoCache.{Lane, PoolInfoCache, CacheError}
use hc_data.StakeDb.LiveTickets.{Fetch}
use hc_data.StakeDb.LiveTickets.Summed.{IsSummed, apply_diff-IsSummed}
use hc_data.StakeDb.Connect.{
  Block, PoolInfo, StakeNode, StakeError, Db, find_block, read_maturing, maturing_tickets,
  keep_written, keep_node, connect_node, keep_pool, append_pool_diff, after_connect,
  connect_tickets, connect_with, connect_block, revoked_tickets_in_block, tickets_spent_in_block,
  block_diff,
}
use hc_data.StakeDb.TicketPool.Disk.{append_diff}

module _ (D : DiffDb) (L : Lane) (N : StakeNode) where
  open D use {State}
  open L use {Queue}
  open N use {Node, Disk, height, winners, pool_size, connect, write_connected}

  keep_pool-live :
      (r : Outcome PoolError (Unit {0}) × TicketPool State) (db : Db D L N)
      → (keep_pool D L N r db).1.live ≡ db.live
  unfolding keep_pool
  keep_pool-live (ok _, tp) db = refl
  keep_pool-live (err e, tp) db = refl
  keep_pool-live (panic, tp) db = refl
  keep_pool-live (out_of_fuel, tp) db = refl

  append_pool_diff-live :
      (d : PoolDiff) (next : ℕ) (r : Outcome CacheError (Unit {0}) × PoolInfoCache PoolInfo Queue)
      (db : Db D L N)
      → (append_pool_diff D L N d next r db).1.live ≡ db.live
  unfolding append_pool_diff
  append_pool_diff-live d next (ok _, cache) db =
      keep_pool-live (append_diff D d (pos next) db.pool_db) (record db { pool_info = cache })
  append_pool_diff-live d next (err e, cache) db = refl
  append_pool_diff-live d next (panic, cache) db = refl
  append_pool_diff-live d next (out_of_fuel, cache) db = refl

  module _ (fetch : Fetch) where
    abbrev Summed : Db D L N → Type 0
    Summed db = IsSummed db.live

    after_connect-IsSummed :
        (block : Block) (maturing voters : List Hash) (best_height : ℕ) (db : Db D L N)
        → IsSummed db.live
        → IsSummed (after_connect D L N fetch block maturing voters best_height db).1.live
    unfolding after_connect
    after_connect-IsSummed block maturing voters best_height db s =
        rw
          (append_pool_diff-live (block_diff D L N maturing voters db.best_node) (best_height + 1) _
            _)
          (apply_diff-IsSummed fetch (block_diff D L N maturing voters db.best_node) db.live s)

    continue-IsSummed :
        {A : Type 0} (r : Outcome StakeError A × Db D L N)
        (f : A → Db D L N → Outcome StakeError (Unit {0}) × Db D L N)
        → IsSummed r.1.live
        → ((a : A) (db : Db D L N) → IsSummed db.live → IsSummed (f a db).1.live)
        → IsSummed (continue r f).1.live
    continue-IsSummed (ok a, db) f s h = h a db s
    continue-IsSummed (err e, db) f s h = s
    continue-IsSummed (panic, db) f s h = s
    continue-IsSummed (out_of_fuel, db) f s h = s

    keep_written-IsSummed :
        (written : Option Disk) (db : Db D L N)
        → IsSummed db.live
        → IsSummed (keep_written D L N written db).1.live
    unfolding keep_written
    keep_written-IsSummed none db s = s
    keep_written-IsSummed (some disk) db s = s

    keep_node-IsSummed :
        (hash : Hash) (connected : Option Node) (db : Db D L N)
        → IsSummed db.live
        → IsSummed (keep_node D L N hash connected db).1.live
    unfolding keep_node
    keep_node-IsSummed hash none db s = s
    keep_node-IsSummed hash (some node) db s =
        keep_written-IsSummed (write_connected db.stake_db node hash)
          (record db { best_node = node }) s

    connect_node-IsSummed :
        (block : Block) (header : Option ℕ) (voted revoked maturing : List Hash) (db : Db D L N)
        → IsSummed db.live
        → IsSummed (connect_node D L N block header voted revoked maturing db).1.live
    unfolding connect_node
    connect_node-IsSummed block none voted revoked maturing db s = s
    connect_node-IsSummed block (some header) voted revoked maturing db s =
        keep_node-IsSummed block.hash (connect header voted revoked maturing db.best_node) db s

    connect_tickets-IsSummed :
        (block : Block) (maturing : List Hash) (revoked voted : Option (List Hash)) (db : Db D L N)
        → IsSummed db.live
        → IsSummed (connect_tickets D L N fetch block maturing revoked voted db).1.live
    unfolding connect_tickets
    connect_tickets-IsSummed block maturing none voted db s = s
    connect_tickets-IsSummed block maturing (some revoked) none db s = s
    connect_tickets-IsSummed block maturing (some revoked) (some voted) db s =
        continue-IsSummed (connect_node D L N block block.header voted revoked maturing db)
          (λ _.
            after_connect D L N fetch block maturing (winners db.best_node) (height db.best_node))
          (connect_node-IsSummed block block.header voted revoked maturing db s)
          (λ _ db' s'.
            after_connect-IsSummed block maturing (winners db.best_node) (height db.best_node) db'
              s')

    connect_with-IsSummed :
        (block : Block) (maturing : List Hash) (db : Db D L N)
        → IsSummed db.live
        → IsSummed (connect_with D L N fetch block maturing db).1.live
    unfolding connect_with
    connect_with-IsSummed block maturing db s =
        connect_tickets-IsSummed block maturing (revoked_tickets_in_block block.s_transactions)
          (tickets_spent_in_block block.s_transactions) _ s

    read_maturing-IsSummed :
        (ind : ℤ) (b : Option Block) (cached : Bool) (db : Db D L N)
        → IsSummed db.live
        → IsSummed (read_maturing D L N ind (b, cached) db).1.live
    unfolding read_maturing
    read_maturing-IsSummed ind none cached db s = s
    read_maturing-IsSummed ind (some b) true db s = s
    read_maturing-IsSummed ind (some b) false db s = s

    maturing_tickets-IsSummed :
        (block_at : ℤ → Option Block) (ind : ℤ) (db : Db D L N)
        → IsSummed db.live
        → IsSummed (maturing_tickets D L N block_at ind db).1.live
    unfolding maturing_tickets
    maturing_tickets-IsSummed block_at ind db s = elim (Bool-cases (ltb_ℤ ind (pos 0))) [
      | inl early ↦ rw early s
      | inr later ↦
          let (b, cached) = find_block D L N block_at ind db in
          rw later (read_maturing-IsSummed ind b cached db s)
    ]

    -- Whatever ConnectBlock returns, errors and panics of its parts included, the pool value stays the sum of
    -- the live ticket cache.
    pub connect_block-IsSummed :
        (block_at : ℤ → Option Block) (maturity : ℕ) (block : Block) (db : Db D L N)
        → IsSummed db.live
        → IsSummed (connect_block D L N fetch block_at maturity block db).1.live
    unfolding connect_block
    connect_block-IsSummed block_at maturity block db s =
        continue-IsSummed (maturing_tickets D L N block_at (block.height -ℤ pos maturity) db)
          (connect_with D L N fetch block)
          (maturing_tickets-IsSummed block_at (block.height -ℤ pos maturity) db s)
          (connect_with-IsSummed block)
