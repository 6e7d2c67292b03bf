-- ===== src/StakeDb/Disconnect.antt =====
-- DisconnectBlock of StakeDatabase (v4/stakedb/stakedb.go): the ticket pool is trimmed to the parent, the
-- trimmed diffs are undone, and the stake node goes back to the parent.
mod Tests
pub mod Parent
use hc_data.Base.{
  and_then, ℕ, zero, suc, ◌+◌, Bool, List, [], ◌∷◌, ◌++◌, Option, none, some, ltb, not,
  if◌then◌else◌,
}
use hc_data.Base.Int.{ℤ, pos, ◌-ℤ◌, ltb_ℤ, beq_ℤ}
use hc_data.Base.Exec.{Outcome, ok, err, panic, out_of_fuel, pure, raise, continue}
use hc_data.Base.HashSet.{Hash}
use hc_data.StakeDb.DiffDb.{PoolDiff, DiffDb}
use hc_data.StakeDb.TicketPool.{TicketPool, PoolError, trim}
use hc_data.StakeDb.PoolInfoCache.{Lane}
use hc_data.StakeDb.LiveTickets.{LiveTickets, Fetch, undo_diff}
use hc_data.StakeDb.Connect.{
  Block, StakeNode, StakeDatabase, StakeError, serialize_failed, no_parent, disconnect_failed,
  pool_failed, Db, Method, keep_written,
}

-- The node's answers to GetBlockHeader, of which the previous block is read, and to GetBlock.
pub record Client : Type 0 where
  pub prev_block : Hash → Option Hash
  pub block_with : Hash → Option Block

-- dbPrevBlock
abbrev pub prev_of : Client → Hash → Option Block
prev_of client h = and_then (client.prev_block h) client.block_with

-- The loop that undoes the trimmed diffs, in the order in which they were trimmed.
abbrev pub undo_all : Fetch → List PoolDiff → LiveTickets → LiveTickets
undo_all fetch [] s = s
undo_all fetch (d ∷ rest) s = undo_all fetch rest (undo_diff fetch d s)

module _ (D : DiffDb) (L : Lane) (N : StakeNode) where
  open D use {State}
  open N use {Node, height, disconnect, write_disconnected, best_hash}

  abbrev pub db_prev_block : Client → Db D L N → Option Block
  db_prev_block client db = and_then (best_hash db.stake_db) (prev_of client)

  -- The rest of a round of the trimming loop. Trim itself returns no error.
  unfoldable pub trimmed_to :
      (ℕ → List PoolDiff → Method D L N (List PoolDiff))
      → ℕ
      → List PoolDiff
      → Outcome PoolError (ℕ × PoolDiff) × TicketPool State
      → Method D L N (List PoolDiff)
  trimmed_to walk tip undo_diffs (ok (new_tip, undo), tp) db =
      let rest = walk new_tip (undo_diffs ++ undo ∷ []) (record db { pool_db = tp }) in
      if not (ltb new_tip tip) then (panic, record db { pool_db = tp }) else rest
  trimmed_to walk tip undo_diffs (err e, tp) db = raise (pool_failed e) (record db { pool_db = tp })
  trimmed_to walk tip undo_diffs (panic, tp) db = (panic, record db { pool_db = tp })
  trimmed_to walk tip undo_diffs (out_of_fuel, tp) db = (out_of_fuel, record db { pool_db = tp })

  -- `for poolDBTip > parentBlock.Height()`: each round lowers the tip.
  unfoldable pub trim_loop : ℕ → ℤ → ℕ → List PoolDiff → Method D L N (List PoolDiff)
  unfolding trimmed_to
  trim_loop zero target tip undo_diffs db = (out_of_fuel, db)
  trim_loop (suc fuel) target tip undo_diffs db =
      let round = trimmed_to (trim_loop fuel target) tip undo_diffs (trim db.pool_db) db in
      if ltb_ℤ target (pos tip) then round else pure undo_diffs db

  unfoldable pub keep_parent : Block → Option Node → Method D L N (Unit {0})
  unfolding keep_written
  keep_parent parent none db = raise disconnect_failed db
  keep_parent parent (some node) db =
      keep_written D L N (write_disconnected db.stake_db node parent.hash db.best_node)
        (record db { best_node = node })

  unfoldable pub disconnect_node : Block → Option ℕ → Method D L N (Unit {0})
  unfolding keep_parent
  disconnect_node parent none db = raise serialize_failed db
  disconnect_node parent (some header) db =
      keep_parent parent (disconnect header db.stake_db db.best_node) db

  unfoldable pub undo_and_disconnect :
      Fetch → Bool → Block → List PoolDiff → Method D L N (Unit {0})
  unfolding disconnect_node
  undo_and_disconnect fetch neglect_cache parent undo_diffs db =
      disconnect_node parent parent.header
        (if neglect_cache then db else record db { live = undo_all fetch undo_diffs db.live })

  unfoldable pub disconnect_to : Fetch → Bool → Option Block → Method D L N (Unit {0})
  unfolding trim_loop undo_and_disconnect
  disconnect_to fetch neglect_cache none db = raise no_parent db
  disconnect_to fetch neglect_cache (some parent) db =
      let trimmed =
        continue (trim_loop (db.pool_db.tip + 1) parent.height db.pool_db.tip [] db)
          (undo_and_disconnect fetch neglect_cache parent) in
      if beq_ℤ parent.height (pos (height db.best_node) -ℤ pos 1) then trimmed else (panic, db)

  -- disconnectBlock, which DisconnectBlock calls under the lock
  unfoldable pub disconnect_block : Fetch → Client → Bool → Method D L N (Unit {0})
  unfolding disconnect_to
  disconnect_block fetch client neglect_cache db =
      disconnect_to fetch neglect_cache (db_prev_block client db) db
