-- ===== src/StakeDb/Disconnect/Parent.antt =====
-- DisconnectBlock (v4/stakedb/stakedb.go) on a database in step.
use hc_data.Base.{
  ℕ, suc, ◌+◌, ◌-◌, ◌≡◌, ◌<◌, refl, Bool, true, false, [], ◌∷◌, ◌++◌, some, arith, ltb,
  if◌then◌else◌, lt→ltb, le→ltb_false,
}
use hc_data.Base.Int.{pos, ◌-ℤ◌, ltb_ℤ, beq_ℤ}
use hc_data.Base.Exec.{ok}
use hc_data.StakeDb.DiffDb.{PoolDiff, DiffDb}
use hc_data.StakeDb.TicketPool.{TicketPool, trim}
use hc_data.StakeDb.TicketPool.Trim.{trim_correct}
use hc_data.StakeDb.PoolInfoCache.{Lane}
use hc_data.StakeDb.LiveTickets.{LiveTickets, Fetch, undo_diff}
use hc_data.StakeDb.LiveTickets.Summed.{IsSummed, apply_diff-IsSummed}
use hc_data.StakeDb.Connect.{Block, StakeNode, Db, keep_written}
use hc_data.StakeDb.Connect.Success.{IsInStep}
use hc_data.StakeDb.Disconnect.{
  Client, db_prev_block, trimmed_to, trim_loop, keep_parent, disconnect_node, undo_and_disconnect,
  disconnect_to, disconnect_block,
}

module _ (D : DiffDb) (L : Lane) (N : StakeNode) where
  open D use {State}
  open N use {Node, Disk, height, disconnect, write_disconnected}

  -- One block above the parent, the loop trims once.
  trim_loop-once :
      (tip fuel : ℕ) (d : PoolDiff) (tp : TicketPool State) (db : Db D L N)
      → 0 < tip
      → trim db.pool_db ≡ (ok (tip - 1, d), tp)
      → trim_loop D L N (suc (suc fuel)) (pos (tip - 1)) tip [] db
        ≡ (ok (d ∷ []), record db { pool_db = tp })
  unfolding trim_loop trimmed_to
  trim_loop-once tip fuel d tp db h run =
      let above : ltb_ℤ (pos (tip - 1)) (pos tip) ≡ true = lt→ltb _ _ (omega arith) in
      let there : ltb_ℤ (pos (tip - 1)) (pos (tip - 1)) ≡ false = le→ltb_false _ _ (omega arith) in
      let lower : ltb (tip - 1) tip ≡ true = lt→ltb _ _ (omega arith) in
      rw (above, run, lower, there)

  -- What DisconnectBlock reads of the parent, and what hcd answers.
  pub record Disconnects (client : Client) (parent : Block) (db : Db D L N) (back : Node)
      (disk : Disk) : Type 0 where
    pub header : ℕ
    pub found : db_prev_block D L N client db ≡ some parent
    pub serialized : parent.header ≡ some header
    pub disconnected : disconnect header db.stake_db db.best_node ≡ some back
    pub node_written : write_disconnected db.stake_db back parent.hash db.best_node ≡ some disk

  pub disconnect_node-ok :
      (client : Client) (parent : Block) (db : Db D L N) (back : Node) (disk : Disk)
      (tp : TicketPool State) (live : LiveTickets)
      → Disconnects client parent db back disk
      → disconnect_node D L N parent parent.header (record db { pool_db = tp; live = live })
        ≡ (ok tt, record db { pool_db = tp; live = live; best_node = back; stake_db = disk })
  unfolding disconnect_node keep_parent keep_written
  disconnect_node-ok client parent db back disk tp live c =
      rw (c.serialized, c.disconnected, c.node_written)

  undo_and_disconnect-ok :
      (fetch : Fetch) (neglect_cache : Bool) (client : Client) (parent : Block) (db : Db D L N)
      (back : Node) (disk : Disk) (d : PoolDiff) (tp : TicketPool State)
      → Disconnects client parent db back disk
      → undo_and_disconnect D L N fetch neglect_cache parent (d ∷ []) (record db { pool_db = tp })
        ≡ (
          ok tt,
          record db {
            pool_db = tp;
            live = if neglect_cache then db.live else undo_diff fetch d db.live;
            best_node = back;
            stake_db = disk;
          },
        )
  unfolding undo_and_disconnect
  undo_and_disconnect-ok fetch true client parent db back disk d tp c =
      disconnect_node-ok client parent db back disk tp db.live c
  undo_and_disconnect-ok fetch false client parent db back disk d tp c =
      disconnect_node-ok client parent db back disk tp (undo_diff fetch d db.live) c

  live-IsSummed :
      (fetch : Fetch) (neglect_cache : Bool) (d : PoolDiff) (s : LiveTickets)
      → IsSummed s
      → IsSummed (if neglect_cache then s else undo_diff fetch d s)
  unfolding undo_diff
  live-IsSummed fetch true d s h = h
  live-IsSummed fetch false d s h =
      apply_diff-IsSummed fetch (record { tickets_in = d.tickets_out; tickets_out = d.tickets_in })
        s h

  -- DisconnectBlock from a database in step above genesis, where the client gives the parent at the height
  -- below, the stake node goes back one block and the writes succeed: it ends without error and the
  -- database is in step again. The last diff is gone from the ticket pool, and the live tickets have it
  -- undone, unless the cache is neglected.
  pub disconnect_block_correct :
      (fetch : Fetch) (client : Client) (neglect_cache : Bool) (parent : Block) (db : Db D L N)
      (back : Node) (disk : Disk)
      → IsInStep D L N db
      → 0 < db.pool_db.tip
      → parent.height ≡ pos (db.pool_db.tip - 1)
      → Disconnects client parent db back disk
      → height back + 1 ≡ height db.best_node
      → (d : PoolDiff) × (db' : Db D L N) × (disconnect_block D L N fetch client neglect_cache db
          ≡ (ok tt, db'))
        × IsInStep D L N db'
        × (db'.pool_db.diffs ++ d ∷ [] ≡ db.pool_db.diffs)
        × (db'.live ≡ (if neglect_cache then db.live else undo_diff fetch d db.live))
        × (db'.best_node ≡ back)
        × (db'.stake_db ≡ disk)
  unfolding disconnect_block disconnect_to
  disconnect_block_correct fetch client neglect_cache parent db back disk step h level c lower =
      let (d, tp, run, t) = trim_correct db.pool_db step.valid h in
      let two_rounds : db.pool_db.tip + 1 ≡ suc (suc (db.pool_db.tip - 1)) = omega arith in
      let walked = trim_loop-once db.pool_db.tip (db.pool_db.tip - 1) d tp db h run in
      let same_height : beq_ℤ (pos (db.pool_db.tip - 1)) (pos (height db.best_node) -ℤ pos 1)
          ≡ true =
        ground (arith, step.same_height) in
      (
        d,
        record db {
          pool_db = tp;
          live = if neglect_cache then db.live else undo_diff fetch d db.live;
          best_node = back;
          stake_db = disk;
        },
        rw (c.found, level, same_height, two_rounds, walked)
            (undo_and_disconnect-ok fetch neglect_cache client parent db back disk d tp c),
        record {
          same_height = omega (arith, t.tip, step.same_height);
          valid = t.valid;
          summed = live-IsSummed fetch neglect_cache d db.live step.summed;
        },
        t.diffs,
        refl,
        refl,
        refl,
      )
