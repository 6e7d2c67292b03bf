-- ===== src/StakeDb/Reorg/Switch.antt =====
-- switchToSideChain and a round of ReorgHandler (v4/stakedb/chainmonitor.go).
use hc_data.Base.{
  ℕ, ◌+◌, ◌≡◌, refl, ap, ◌∙◌, true, false, List, [], ◌∷◌, ◌++◌, Option, none, some, arith, length,
}
use hc_data.Base.Int.{ℤ, pos, ◌-ℤ◌, beq_ℤ}
use hc_data.Base.Exec.{Outcome, ok, err, panic}
use hc_data.Base.HashSet.{Hash}
use hc_data.StakeDb.DiffDb.{PoolDiff, DiffDb}
use hc_data.StakeDb.PoolInfoCache.{Lane}
use hc_data.StakeDb.LiveTickets.{Fetch}
use hc_data.StakeDb.Connect.{Block, StakeNode, StakeError, Db}
use hc_data.StakeDb.Connect.Success.{IsInStep}
use hc_data.StakeDb.Disconnect.{Client, undo_all}
use hc_data.StakeDb.Reorg.{
  ReorgData, Switched, is_found, no_switch, disconnect_blocks, disconnected_or, connect_chain,
  switch_to_side_chain, read_hash, reorg_round,
}
use hc_data.StakeDb.Reorg.Back.{Disconnectable, WentBack, followed_by, disconnect_blocks_correct}
use hc_data.StakeDb.Reorg.Forth.{
  Connectable, WentForth, last_hash, apply_all, connect_chain-WentForth,
}

last_hash-is_found : (h : Hash) (rest : List Hash) → is_found (last_hash (some h) rest) ≡ true
last_hash-is_found h [] = refl
last_hash-is_found h (x ∷ rest) = last_hash-is_found x rest

-- The data of a reorganization that connects a chain above the height of the common ancestor
abbrev pub side_chain : ℤ → ℕ → List Hash → ReorgData
side_chain old_height ancestor chain = record {
  old_chain_height = old_height;
  new_chain_height = pos (ancestor + length chain);
  new_chain = chain;
}

-- The number of blocks to disconnect, as switchToSideChain computes it
count_back :
    (h : Hash) (rest : List Hash) (ancestor n tip : ℕ)
    → ancestor + n ≡ tip
    → pos tip -ℤ (pos (ancestor + length (h ∷ rest)) -ℤ pos (length (h ∷ rest))) ≡ pos n
count_back h rest ancestor n tip level = ground arith

ancestor_back :
    (h : Hash) (rest : List Hash) (ancestor : ℕ)
    → pos (ancestor + length (h ∷ rest)) -ℤ pos (length (h ∷ rest)) ≡ pos ancestor
ancestor_back h rest ancestor = ground arith

module _ (D : DiffDb) (L : Lane) (N : StakeNode) where
  open N use {height}

  -- One branch exchanged for another: the diffs of the old branch, the latest first, are gone and undone, and
  -- those of the new one stand behind the common ones and are applied.
  pub record Exchanged (fetch : Fetch) (back forth : ℕ) (db db' : Db D L N) : Type 0 where
    pub common : List PoolDiff
    pub undone : List PoolDiff
    pub applied : List PoolDiff
    pub in_step : IsInStep D L N db'
    pub undone_count : length undone ≡ back
    pub applied_count : length applied ≡ forth
    pub old_diffs : db.pool_db.diffs ≡ followed_by common undone
    pub new_diffs : db'.pool_db.diffs ≡ common ++ applied
    pub live : db'.live ≡ apply_all fetch applied (undo_all fetch undone db.live)
    pub new_height : height db'.best_node + back ≡ height db.best_node + forth

  exchange :
      (fetch : Fetch) (back forth : ℕ) (db db1 db2 : Db D L N)
      → WentBack D L N fetch false back db db1
      → WentForth D L N fetch forth db1 db2
      → Exchanged fetch back forth db db2
  exchange fetch back forth db db1 db2 b f = record {
    common = db1.pool_db.diffs;
    undone = b.undone;
    applied = f.applied;
    in_step = f.in_step;
    undone_count = b.count;
    applied_count = f.count;
    old_diffs = b.diffs;
    new_diffs = f.diffs;
    live = f.live ∙ ap (apply_all fetch f.applied) b.live;
    new_height = omega (arith, b.lower, f.higher);
  }

  switch-ok :
      (fetch : Fetch) (block_at : ℤ → Option Block) (maturity : ℕ) (client : Client)
      (old_height : ℤ) (h : Hash) (rest : List Hash) (ancestor n : ℕ) (db db1 : Db D L N)
      (result : Outcome StakeError Switched × Db D L N)
      → ancestor + n ≡ height db.best_node
      → height db1.best_node ≡ ancestor
      → disconnect_blocks D L N fetch client (pos n) db ≡ (ok tt, db1)
      → connect_chain D L N fetch block_at maturity client (h ∷ rest) none db1 ≡ result
      → switch_to_side_chain D L N fetch block_at maturity client
          (side_chain old_height ancestor (h ∷ rest))
          db
        ≡ result
  unfolding switch_to_side_chain disconnected_or
  switch-ok fetch block_at maturity client old_height h rest ancestor n db db1 result level low back
        forth =
      let counted = count_back h rest ancestor n (height db.best_node) level in
      let there : beq_ℤ (pos (height db1.best_node)) (pos ancestor) ≡ true = ground arith in
      rw (counted, back, ancestor_back h rest ancestor, there, forth) refl

  -- A reorganization of a database in step, n blocks back to the common ancestor, where these can be
  -- disconnected and the blocks of the new chain can then be connected: switchToSideChain returns the new
  -- height and the hash of the last block, and the round of ReorgHandler ends. The database is in step
  -- again, with the diffs of the old branch undone and those of the new one applied.
  pub reorg_round_correct :
      (fetch : Fetch) (block_at : ℤ → Option Block) (maturity : ℕ) (client : Client)
      (old_height : ℤ) (h : Hash) (rest : List Hash) (ancestor n : ℕ) (db : Db D L N)
      → IsInStep D L N db
      → ancestor + n ≡ height db.best_node
      → Disconnectable D L N fetch client false n db
      → ((db1 : Db D L N)
          → disconnect_blocks D L N fetch client (pos n) db ≡ (ok tt, db1)
          → Connectable D L N fetch block_at maturity client (h ∷ rest) db1)
      → (db' : Db D L N) × (switch_to_side_chain D L N fetch block_at maturity client
            (side_chain old_height ancestor (h ∷ rest))
            db
          ≡ (
            ok (record {
              height = pos (height db'.best_node);
              hash = last_hash (some h) rest;
              failed = false;
            }),
            db',
          ))
        × (reorg_round D L N fetch block_at maturity client
              (side_chain old_height ancestor (h ∷ rest))
              db
            ≡ (ok tt, db'))
        × Exchanged fetch n (length (h ∷ rest)) db db'
  unfolding reorg_round read_hash
  reorg_round_correct fetch block_at maturity client old_height h rest ancestor n db step level c
        k =
      let (db1, back, b) = disconnect_blocks_correct D L N fetch client n db step c in
      let (db2, forth, f) =
        connect_chain-WentForth D L N fetch block_at maturity client (h ∷ rest) none db1 b.in_step
          (λ e. absurd (ground arith)) (k db1 back) in
      let switched =
        switch-ok fetch block_at maturity client old_height h rest ancestor n db db1 _ level
          (omega (arith, b.lower)) back forth in
      (
        db2,
        switched,
        rw (switched, last_hash-is_found h rest) refl,
        exchange fetch n (length (h ∷ rest)) db db1 db2 b f,
      )

  -- Where DisconnectBlocks returns an error, switchToSideChain returns it without a hash, and the round of
  -- ReorgHandler panics as it reads the hash.
  pub failed_disconnect_panics :
      (fetch : Fetch) (block_at : ℤ → Option Block) (maturity : ℕ) (client : Client)
      (old_height : ℤ) (h : Hash) (rest : List Hash) (ancestor n : ℕ) (e : StakeError)
      (db db' : Db D L N)
      → ancestor + n ≡ height db.best_node
      → disconnect_blocks D L N fetch client (pos n) db ≡ (err e, db')
      → (switch_to_side_chain D L N fetch block_at maturity client
            (side_chain old_height ancestor (h ∷ rest))
            db
          ≡ (ok no_switch, db'))
        × (reorg_round D L N fetch block_at maturity client
              (side_chain old_height ancestor (h ∷ rest))
              db
            ≡ (panic, db'))
  unfolding switch_to_side_chain disconnected_or reorg_round read_hash
  failed_disconnect_panics fetch block_at maturity client old_height h rest ancestor n e db db'
        level run =
      let counted = count_back h rest ancestor n (height db.best_node) level in
      (rw (counted, run) refl, rw (counted, run) refl)
