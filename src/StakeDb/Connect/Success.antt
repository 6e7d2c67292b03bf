-- ===== src/StakeDb/Connect/Success.antt =====
-- ConnectBlock (v4/stakedb/stakedb.go) where its parts succeed.
use hc_data.Base.{
  sym, ℕ, ◌+◌, ◌≡◌, refl, ap, ◌∙◌, Bool, true, false, List, ◌∷◌, [], ◌++◌, Option, some,
  if◌then◌else◌,
}
use hc_data.Base.Int.{ℤ, pos, ◌-ℤ◌, ltb_ℤ, beq_ℤ}
use hc_data.Base.Exec.{ok}
use hc_data.Base.HashSet.{Hash}
use hc_data.StakeDb.DiffDb.{DiffDb}
use hc_data.StakeDb.TicketPool.{TicketPool, append}
use hc_data.StakeDb.TicketPool.Replay.{none_live, replay, Fits}
use hc_data.StakeDb.TicketPool.Step.{IsValid}
use hc_data.StakeDb.TicketPool.Trim.{append-IsValid}
use hc_data.StakeDb.TicketPool.Persist.{append_diff_correct}
use hc_data.StakeDb.PoolInfoCache.{Lane, PoolInfoCache}
use hc_data.StakeDb.PoolInfoCache.Bounded.{set_correct}
use hc_data.StakeDb.LiveTickets.{Fetch, apply_diff}
use hc_data.StakeDb.LiveTickets.Summed.{IsSummed, apply_diff-IsSummed}
use hc_data.StakeDb.Connect.{
  Block, PoolInfo, StakeNode, Db, tickets_in_block, find_block, forget_block, read_maturing,
  maturing_tickets, keep_written, keep_node, connect_node, keep_pool, append_pool_diff,
  after_connect, connect_tickets, connect_with, connect_block, revoked_tickets_in_block,
  tickets_spent_in_block, block_diff, make_pool_info,
}

IsValid-moved :
    {S : Type 0} (tp : TicketPool S) (db : S) → IsValid tp → IsValid (record tp { diff_db = db })
IsValid-moved tp db v = record {
  tip_length = v.tip_length;
  replayed = record {
    within = v.within;
    distinct = v.distinct;
    consistent = v.consistent;
    holds = v.holds;
  };
}

module _ (D : DiffDb) (L : Lane) (N : StakeNode) where
  open D use {State}
  open L use {Queue}
  open N use {Node, Disk, height, winners, pool_size, connect, write_connected}

  -- The ticket pool is valid and has as many diffs as the best node has blocks, and the pool value is the sum
  -- of the cached tickets.
  pub record IsInStep (db : Db D L N) : Type 0 where
    pub same_height : db.pool_db.tip ≡ height db.best_node
    pub valid : IsValid db.pool_db
    pub summed : IsSummed db.live

  after_connect-ok :
      (fetch : Fetch) (block : Block) (maturing : List Hash) (db : Db D L N) (state : State)
      (voters : List Hash) (best_height : ℕ)
      → best_height ≡ db.pool_db.tip
      → D.set db.pool_db.diff_db
          (db.pool_db.tip + 1)
          (block_diff D L N maturing voters db.best_node)
        ≡ some state
      → (cache : PoolInfoCache PoolInfo Queue) × (after_connect D L N fetch block maturing voters
            best_height db
          ≡ (
            ok tt,
            record db {
              live = apply_diff fetch (block_diff D L N maturing voters db.best_node) db.live;
              pool_info = cache;
              pool_db = record (append (block_diff D L N maturing voters db.best_node) db.pool_db) {
                diff_db = state;
              };
              pending = db.pending ++ record { height = block.height; hash = block.hash } ∷ [];
            },
          ))
  unfolding after_connect append_pool_diff keep_pool
  after_connect-ok fetch block maturing db state voters best_height e written =
      let d = block_diff D L N maturing voters db.best_node in
      let updated = apply_diff fetch d db.live in
      let info =
        make_pool_info D L N updated.pool_value (pool_size db.best_node) (winners db.best_node)
          block.height in
      let (cache, stored, _, _, _) = set_correct L block.hash info db.pool_info in
      let appended =
        (append_diff_correct D d (pos (db.pool_db.tip + 1)) db.pool_db).2 state refl written in
      (cache, rw (stored, e, appended))

  -- The best node, its database and the cached blocks have moved on to the block.
  abbrev pub node_moved : Block → Node → Disk → Db D L N → Db D L N
  node_moved block next disk db = record db {
    best_node = next;
    stake_db = disk;
    block_cache = λ h. if beq_ℤ block.height h then some block else db.block_cache h;
  }

  -- What ConnectBlock reads of the block, and what hcd answers.
  pub record Connects (block : Block) (maturing : List Hash) (db : Db D L N) (next : Node)
      (disk : Disk) : Type 0 where
    pub header : ℕ
    pub voted : List Hash
    pub revoked : List Hash
    pub serialized : block.header ≡ some header
    pub votes : tickets_spent_in_block block.s_transactions ≡ some voted
    pub revocations : revoked_tickets_in_block block.s_transactions ≡ some revoked
    pub connected : connect header voted revoked maturing db.best_node ≡ some next
    pub node_written : write_connected db.stake_db next block.hash ≡ some disk

  connect_with-ok :
      (fetch : Fetch) (block : Block) (maturing : List Hash) (db : Db D L N) (next : Node)
      (disk : Disk)
      → Connects block maturing db next disk
      → connect_with D L N fetch block maturing db
        ≡ after_connect D L N fetch block maturing
            (winners db.best_node)
            (height db.best_node)
            (node_moved block next disk db)
  unfolding connect_with connect_tickets connect_node keep_node keep_written
  connect_with-ok fetch block maturing db next disk c =
      rw (c.revocations, c.votes, c.serialized, c.connected, c.node_written)

  -- What ConnectBlock leaves on success, for the tickets that mature and the next best node.
  pub record Connected (fetch : Fetch) (block : Block) (maturing : List Hash) (next : Node)
      (disk : Disk) (state : State) (db db' : Db D L N) : Type 0 where
    pub in_step : IsInStep db'
    pub best_node : db'.best_node ≡ next
    pub stake_db : db'.stake_db ≡ disk
    pub pool_db :
        db'.pool_db
        ≡ record (append (block_diff D L N maturing (winners db.best_node) next) db.pool_db) {
          diff_db = state;
        }
    pub live :
        db'.live ≡ apply_diff fetch (block_diff D L N maturing (winners db.best_node) next) db.live
    pub pending :
        db'.pending ≡ db.pending ++ record { height = block.height; hash = block.hash } ∷ []

  connect_with-Connected :
      (fetch : Fetch) (block : Block) (maturing : List Hash) (db : Db D L N) (next : Node)
      (disk : Disk) (state : State)
      → IsInStep db
      → Connects block maturing db next disk
      → height next ≡ height db.best_node + 1
      → Fits
          (replay none_live db.pool_db.diffs)
          (block_diff D L N maturing (winners db.best_node) next)
      → D.set db.pool_db.diff_db
          (db.pool_db.tip + 1)
          (block_diff D L N maturing (winners db.best_node) next)
        ≡ some state
      → (db' : Db D L N) × (connect_with D L N fetch block maturing db ≡ (ok tt, db'))
        × Connected fetch block maturing next disk state db db'
  connect_with-Connected fetch block maturing db next disk state step c higher fits written =
      let d = block_diff D L N maturing (winners db.best_node) next in
      let (cache, run) =
        after_connect-ok fetch block maturing (node_moved block next disk db) state
          (winners db.best_node) (height db.best_node) (sym step.same_height) written in
      (
        _,
        connect_with-ok fetch block maturing db next disk c ∙ run,
        record {
          in_step = record {
            same_height = unfold append in (ap (λ n. n + 1) step.same_height ∙ sym higher);
            valid =
                IsValid-moved (append d db.pool_db) state
                  (append-IsValid db.pool_db d step.valid fits);
            summed = apply_diff-IsSummed fetch d db.live step.summed;
          };
          best_node = refl;
          stake_db = refl;
          pool_db = refl;
          live = refl;
          pending = refl;
        },
      )

  -- ConnectBlock of a block from a database in step, whose maturing block is cached or given by the node.
  -- Where the stake node connects the block one higher, the writes succeed and the block's diff fits the
  -- live tickets, it ends without error and the database is in step again: the stake node is the connected
  -- one, the diff of the maturing tickets against the winners and the expired is appended to the ticket
  -- pool and applied to the live tickets, and a goroutine is started that signals the block's waiters.
  pub connect_block_correct :
      (fetch : Fetch) (block_at : ℤ → Option Block) (maturity : ℕ) (block old : Block)
      (cached : Bool) (db : Db D L N) (next : Node) (disk : Disk) (state : State)
      → IsInStep db
      → ltb_ℤ (block.height -ℤ pos maturity) (pos 0) ≡ false
      → find_block D L N block_at (block.height -ℤ pos maturity) db ≡ (some old, cached)
      → Connects block (tickets_in_block old.s_transactions) db next disk
      → height next ≡ height db.best_node + 1
      → Fits
          (replay none_live db.pool_db.diffs)
          (block_diff D L N (tickets_in_block old.s_transactions) (winners db.best_node) next)
      → D.set db.pool_db.diff_db
          (db.pool_db.tip + 1)
          (block_diff D L N (tickets_in_block old.s_transactions) (winners db.best_node) next)
        ≡ some state
      → (db' : Db D L N) × (connect_block D L N fetch block_at maturity block db ≡ (ok tt, db'))
        × Connected fetch block (tickets_in_block old.s_transactions) next disk state db db'
  unfolding connect_block maturing_tickets read_maturing
  connect_block_correct fetch block_at maturity block old true db next disk state step later known c
        higher fits written =
      let tickets = tickets_in_block old.s_transactions in
      let forgotten = forget_block D L N (block.height -ℤ pos maturity) db in
      let (db', run, result) =
        connect_with-Connected fetch block tickets forgotten next disk state
          (record { same_height = step.same_height; valid = step.valid; summed = step.summed })
          (record {
            header = c.header;
            voted = c.voted;
            revoked = c.revoked;
            serialized = c.serialized;
            votes = c.votes;
            revocations = c.revocations;
            connected = c.connected;
            node_written = c.node_written;
          })
          higher fits written in
      (
        db',
        rw (later, known) run,
        record {
          in_step = result.in_step;
          best_node = result.best_node;
          stake_db = result.stake_db;
          pool_db = result.pool_db;
          live = result.live;
          pending = result.pending;
        },
      )
  connect_block_correct fetch block_at maturity block old false db next disk state step later known
        c higher fits written =
      let tickets = tickets_in_block old.s_transactions in
      let (db', run, result) =
        connect_with-Connected fetch block tickets db next disk state step c higher fits written in
      (db', rw (later, known) run, result)
