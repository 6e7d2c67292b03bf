-- ===== src/StakeDb/Reorg/Forth.antt =====
-- The loop of switchToSideChain (v4/stakedb/chainmonitor.go) that connects the side chain.
use mathlib.Core.List.{append-nil, append_assoc}
use hc_data.Base.{
  is_empty, ℕ, suc, ◌+◌, ◌≡◌, refl, ap, sym, ◌∙◌, Bool, true, false, List, [], ◌∷◌, ◌++◌, Option,
  some, arith, length,
}
use hc_data.Base.Int.{ℤ, pos, ◌-ℤ◌, ltb_ℤ, beq_ℤ}
use hc_data.Base.Exec.{ok}
use hc_data.Base.HashSet.{Hash}
use hc_data.StakeDb.DiffDb.{PoolDiff, DiffDb}
use hc_data.StakeDb.TicketPool.Replay.{none_live, replay, Fits}
use hc_data.StakeDb.TicketPool.{append}
use hc_data.StakeDb.PoolInfoCache.{Lane}
use hc_data.StakeDb.LiveTickets.{LiveTickets, Fetch, apply_diff}
use hc_data.StakeDb.Connect.{
  Block, StakeNode, Db, connect_block, find_block, tickets_in_block, block_diff,
}
use hc_data.StakeDb.Connect.Success.{IsInStep, Connects, connect_block_correct}
use hc_data.StakeDb.Disconnect.{Client}
use hc_data.StakeDb.Reorg.{
  tip_height, tip_hash, connect_chain, connect_block_hash, connect_found, connected_or,
}

-- The tip after the blocks with the given hashes
abbrev pub last_hash : Option Hash → List Hash → Option Hash
last_hash tip [] = tip
last_hash tip (h ∷ rest) = last_hash (some h) rest

-- The live tickets after the diffs, in their order
abbrev pub apply_all : Fetch → List PoolDiff → LiveTickets → LiveTickets
apply_all fetch [] s = s
apply_all fetch (d ∷ rest) s = apply_all fetch rest (apply_diff fetch d s)

module _ (D : DiffDb) (L : Lane) (N : StakeNode) where
  open D use {State}
  open N use {Node, Disk, height, winners}

  -- The blocks with the hashes can be connected: the client gives each, with its hash and the height above the
  -- best one, it matures a block that is cached or given, the stake node connects it, the writes succeed
  -- and its diff fits the live tickets.
  pub data Connectable (fetch : Fetch) (block_at : ℤ → Option Block) (maturity : ℕ)
      (client : Client) : List Hash → Db D L N → Type 0 where
    no_more : (db : Db D L N) → Connectable fetch block_at maturity client [] db
    forth_one :
        (rest : List Hash) (db : Db D L N) (block old : Block) (cached : Bool) (next : Node)
        (disk : Disk) (state : State)
        → client.block_with block.hash ≡ some block
        → ltb_ℤ (block.height -ℤ pos maturity) (pos 0) ≡ false
        → find_block D L N block_at (block.height -ℤ pos maturity) db ≡ (some old, cached)
        → Connects D L N block (tickets_in_block old.s_transactions) db next disk
        → height next ≡ height db.best_node + 1
        → Fits
            (replay none_live db.pool_db.diffs)
            (block_diff D L N (tickets_in_block old.s_transactions) (winners db.best_node) next)
        → D.set db.pool_db.diff_db
            (db.pool_db.tip + 1)
            (block_diff D L N (tickets_in_block old.s_transactions) (winners db.best_node) next)
          ≡ some state
        → block.height ≡ pos (height next)
        → ((db' : Db D L N)
            → connect_block D L N fetch block_at maturity block db ≡ (ok tt, db')
            → Connectable fetch block_at maturity client rest db')
        → Connectable fetch block_at maturity client (block.hash ∷ rest) db

  -- The database with diffs behind those that it had, which are applied to the live tickets
  pub record WentForth (fetch : Fetch) (n : ℕ) (db db' : Db D L N) : Type 0 where
    pub applied : List PoolDiff
    pub in_step : IsInStep D L N db'
    pub count : length applied ≡ n
    pub diffs : db'.pool_db.diffs ≡ db.pool_db.diffs ++ applied
    pub live : db'.live ≡ apply_all fetch applied db.live
    pub higher : height db'.best_node ≡ height db.best_node + n

  connect_block_hash-ok :
      (fetch : Fetch) (block_at : ℤ → Option Block) (maturity : ℕ) (client : Client) (block : Block)
      (db db' : Db D L N)
      → client.block_with block.hash ≡ some block
      → connect_block D L N fetch block_at maturity block db ≡ (ok tt, db')
      → connect_block_hash D L N fetch block_at maturity client block.hash db ≡ (ok block, db')
  unfolding connect_block_hash connect_found
  connect_block_hash-ok fetch block_at maturity client block db db' given run = rw (given, run)

  one_forth :
      (fetch : Fetch) (n : ℕ) (d : PoolDiff) (db db' db'' : Db D L N)
      → db'.pool_db.diffs ≡ db.pool_db.diffs ++ d ∷ []
      → db'.live ≡ apply_diff fetch d db.live
      → height db'.best_node ≡ height db.best_node + 1
      → WentForth fetch n db' db''
      → WentForth fetch (suc n) db db''
  one_forth fetch n d db db' db'' diffs live higher w = record {
    applied = d ∷ w.applied;
    in_step = w.in_step;
    count = ap suc w.count;
    diffs =
        w.diffs
        ∙ ap (λ ds. ds ++ w.applied) diffs
        ∙ append_assoc db.pool_db.diffs (d ∷ []) w.applied;
    live = w.live ∙ ap (apply_all fetch w.applied) live;
    higher = omega (arith, w.higher);
  }

  pub connect_chain-WentForth :
      (fetch : Fetch) (block_at : ℤ → Option Block) (maturity : ℕ) (client : Client)
      (hashes : List Hash) (tip : Option Block) (db : Db D L N)
      → IsInStep D L N db
      → (is_empty hashes ≡ true → tip_height tip ≡ pos (height db.best_node))
      → Connectable fetch block_at maturity client hashes db
      → (db' : Db D L N) × (connect_chain D L N fetch block_at maturity client hashes tip db ≡ (
        ok (record {
          height = pos (height db'.best_node);
          hash = last_hash (tip_hash tip) hashes;
          failed = false;
        }),
        db',
      ))
        × WentForth fetch (length hashes) db db'
  unfolding connect_chain connected_or
  connect_chain-WentForth fetch block_at maturity client [] tip db step level (no_more _) =
      let there : beq_ℤ (pos (height db.best_node)) (tip_height tip) ≡ true =
        ground (arith, level refl) in
      (
        db,
        rw there refl,
        record {
          applied = [];
          in_step = step;
          count = refl;
          diffs = sym (append-nil db.pool_db.diffs);
          live = refl;
          higher = omega arith;
        },
      )
  connect_chain-WentForth fetch block_at maturity client (_ ∷ hashes) tip db step level
        (forth_one _ _ block old cached next disk state given later known c upper fits written
          at_next rest) =
      let d = block_diff D L N (tickets_in_block old.s_transactions) (winners db.best_node) next in
      let (db1, run, r) =
        connect_block_correct D L N fetch block_at maturity block old cached db next disk state step
          later known c upper fits written in
      let level1 : block.height ≡ pos (height db1.best_node) =
        at_next ∙ ap (λ m. pos (height m)) (sym r.best_node) in
      let (db2, run2, w) =
        connect_chain-WentForth fetch block_at maturity client hashes (some block) db1 r.in_step
          (λ _. level1) (rest db1 run) in
      (
        db2,
        rw (connect_block_hash-ok fetch block_at maturity client block db db1 given run) run2,
        one_forth fetch (length hashes) d db db1 db2
            (ap (λ p. p.diffs) r.pool_db ∙ unfold append in refl) r.live
            (ap height r.best_node ∙ upper) w,
      )
