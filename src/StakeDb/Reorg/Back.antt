-- ===== src/StakeDb/Reorg/Back.antt =====
-- DisconnectBlocks and Rewind (v4/stakedb/stakedb.go) on a database in step.
use hc_data.Base.{
  ℕ, zero, suc, ◌+◌, ◌-◌, ◌<◌, ◌≡◌, refl, ap, sym, ◌∙◌, Bool, true, false, List, [], ◌∷◌, ◌++◌,
  arith, length, if◌then◌else◌, lt→ltb, le→ltb_false,
}
use hc_data.Base.Int.{pos, ltb_ℤ, beq_ℤ}
use hc_data.Base.Exec.{ok}
use hc_data.StakeDb.DiffDb.{PoolDiff, DiffDb}
use hc_data.StakeDb.PoolInfoCache.{Lane}
use hc_data.StakeDb.LiveTickets.{Fetch, undo_diff}
use hc_data.StakeDb.Connect.{Block, StakeNode, Db}
use hc_data.StakeDb.Connect.Success.{IsInStep}
use hc_data.StakeDb.Disconnect.{Client, undo_all, disconnect_block}
use hc_data.StakeDb.Disconnect.Parent.{Disconnects, disconnect_block_correct}
use hc_data.StakeDb.Reorg.{disconnect_loop, disconnect_blocks, rewind_loop, rewind}

-- The diffs with others behind them, of which the latest comes first
abbrev pub followed_by : List PoolDiff → List PoolDiff → List PoolDiff
followed_by diffs [] = diffs
followed_by diffs (d ∷ latest_first) = followed_by diffs latest_first ++ d ∷ []

module _ (D : DiffDb) (L : Lane) (N : StakeNode) where
  open N use {Node, Disk, height}

  -- n blocks can be disconnected: each time the client gives the parent at the height below, and the stake
  -- node goes back one block and is written.
  pub data Disconnectable (fetch : Fetch) (client : Client) (neglect_cache : Bool)
      : ℕ → Db D L N → Type 0 where
    stay : (db : Db D L N) → Disconnectable fetch client neglect_cache 0 db
    back_one :
        (n : ℕ) (db : Db D L N) (parent : Block) (back : Node) (disk : Disk)
        → 0 < db.pool_db.tip
        → parent.height ≡ pos (db.pool_db.tip - 1)
        → Disconnects D L N client parent db back disk
        → height back + 1 ≡ height db.best_node
        → ((db' : Db D L N)
            → disconnect_block D L N fetch client neglect_cache db ≡ (ok tt, db')
            → Disconnectable fetch client neglect_cache n db')
        → Disconnectable fetch client neglect_cache (suc n) db

  -- The database without its last diffs, the latest first, which are undone unless the cache is neglected
  pub record WentBack (fetch : Fetch) (neglect_cache : Bool) (n : ℕ) (db db' : Db D L N)
      : Type 0 where
    pub undone : List PoolDiff
    pub in_step : IsInStep D L N db'
    pub count : length undone ≡ n
    pub diffs : db.pool_db.diffs ≡ followed_by db'.pool_db.diffs undone
    pub live : db'.live ≡ (if neglect_cache then db.live else undo_all fetch undone db.live)
    pub lower : height db'.best_node + n ≡ height db.best_node

  one_back :
      (fetch : Fetch) (neglect_cache : Bool) (n : ℕ) (d : PoolDiff) (db db' db'' : Db D L N)
      → db'.pool_db.diffs ++ d ∷ [] ≡ db.pool_db.diffs
      → db'.live ≡ (if neglect_cache then db.live else undo_diff fetch d db.live)
      → height db'.best_node + 1 ≡ height db.best_node
      → WentBack fetch neglect_cache n db' db''
      → WentBack fetch neglect_cache (suc n) db db''
  one_back fetch neglect_cache n d db db' db'' diffs live lower w = record {
    undone = d ∷ w.undone;
    in_step = w.in_step;
    count = ap suc w.count;
    diffs = sym diffs ∙ ap (λ ds. ds ++ d ∷ []) w.diffs;
    live = w.live ∙ undone_live neglect_cache live;
    lower = omega (arith, w.lower);
  }
    where
      undone_live :
          (neglect : Bool)
          → db'.live ≡ (if neglect then db.live else undo_diff fetch d db.live)
          → (if neglect then db'.live else undo_all fetch w.undone db'.live)
            ≡ (if neglect then db.live else undo_all fetch (d ∷ w.undone) db.live)
      undone_live true e = e
      undone_live false e = ap (undo_all fetch w.undone) e

  -- Disconnecting none
  none_back :
      (fetch : Fetch) (neglect_cache : Bool) (db : Db D L N)
      → IsInStep D L N db
      → WentBack fetch neglect_cache 0 db db
  none_back fetch neglect_cache db step = record {
    undone = [];
    in_step = step;
    count = refl;
    diffs = refl;
    live = same_live neglect_cache;
    lower = omega arith;
  }
    where
      same_live : (neglect : Bool) → db.live ≡ (if neglect then db.live else db.live)
      same_live true = refl
      same_live false = refl

  disconnect_loop-WentBack :
      (fetch : Fetch) (client : Client) (n : ℕ) (db : Db D L N)
      → IsInStep D L N db
      → Disconnectable fetch client false n db
      → (db' : Db D L N) × (disconnect_loop D L N fetch client n db ≡ (ok tt, db'))
        × WentBack fetch false n db db'
  unfolding disconnect_loop
  disconnect_loop-WentBack fetch client zero db step (stay _) =
      (db, refl, none_back fetch false db step)
  disconnect_loop-WentBack fetch client (suc n) db step
        (back_one _ _ parent back disk above level c lower rest) =
      let (d, db1, run, step1, diffs, live, node, _) =
        disconnect_block_correct D L N fetch client false parent db back disk step above level c
          lower in
      let (db2, run2, w) = disconnect_loop-WentBack fetch client n db1 step1 (rest db1 run) in
      (
        db2,
        rw run run2,
        one_back fetch false n d db db1 db2 diffs live (ap (λ m. height m + 1) node ∙ lower) w,
      )

  -- DisconnectBlocks from a database in step, from which that many blocks can be disconnected, ends without
  -- error: the database is in step that many blocks lower, its last diffs are gone, and the live tickets
  -- have them undone, the latest first.
  pub disconnect_blocks_correct :
      (fetch : Fetch) (client : Client) (n : ℕ) (db : Db D L N)
      → IsInStep D L N db
      → Disconnectable fetch client false n db
      → (db' : Db D L N) × (disconnect_blocks D L N fetch client (pos n) db ≡ (ok tt, db'))
        × WentBack fetch false n db db'
  unfolding disconnect_blocks
  disconnect_blocks_correct fetch client n db step c =
      disconnect_loop-WentBack fetch client n db step c

  rewind_loop-WentBack :
      (fetch : Fetch) (client : Client) (neglect_cache : Bool) (fuel to n : ℕ) (db : Db D L N)
      → n < fuel
      → IsInStep D L N db
      → to + n ≡ height db.best_node
      → Disconnectable fetch client neglect_cache n db
      → (db' : Db D L N) × (rewind_loop D L N fetch client fuel (pos to) neglect_cache db
          ≡ (ok tt, db'))
        × WentBack fetch neglect_cache n db db'
  unfolding rewind_loop
  rewind_loop-WentBack fetch client neglect_cache zero to n db h step level c = absurd (omega arith)
  rewind_loop-WentBack fetch client neglect_cache (suc fuel) to zero db h step level (stay _) =
      let there : ltb_ℤ (pos to) (pos (height db.best_node)) ≡ false =
        le→ltb_false _ _ (omega arith) in
      (db, rw there refl, none_back fetch neglect_cache db step)
  rewind_loop-WentBack fetch client neglect_cache (suc fuel) to (suc n) db h step level
        (back_one _ _ parent back disk above at_parent c lower rest) =
      let higher : ltb_ℤ (pos to) (pos (height db.best_node)) ≡ true = lt→ltb _ _ (omega arith) in
      let (d, db1, run, step1, diffs, live, node, _) =
        disconnect_block_correct D L N fetch client neglect_cache parent db back disk step above
          at_parent c lower in
      let lower1 : height db1.best_node + 1 ≡ height db.best_node =
        ap (λ m. height m + 1) node ∙ lower in
      let same : beq_ℤ (pos db1.pool_db.tip) (pos (height db1.best_node)) ≡ true =
        ground (arith, step1.same_height) in
      let (db2, run2, w) =
        rewind_loop-WentBack fetch client neglect_cache fuel to n db1 (omega arith) step1
          (omega arith) (rest db1 run) in
      (
        db2,
        rw (higher, run, same) run2,
        one_back fetch neglect_cache n d db db1 db2 diffs live lower1 w,
      )

  -- Rewind to a height, from a database in step that is n blocks above it and from which n blocks can be
  -- disconnected, ends without error at that height, in step, and without the last n diffs; the live
  -- tickets have them undone, unless the cache is neglected.
  pub rewind_correct :
      (fetch : Fetch) (client : Client) (neglect_cache : Bool) (to n : ℕ) (db : Db D L N)
      → IsInStep D L N db
      → to + n ≡ height db.best_node
      → Disconnectable fetch client neglect_cache n db
      → (db' : Db D L N) × (rewind D L N fetch client (pos to) neglect_cache db ≡ (ok tt, db'))
        × WentBack fetch neglect_cache n db db'
  unfolding rewind
  rewind_correct fetch client neglect_cache to n db step level c =
      rewind_loop-WentBack fetch client neglect_cache (height db.best_node + 1) to n db
        (omega arith) step level c
