-- ===== src/StakeDb/Recover/Lower.antt =====
-- DisconnectBlock with a neglected cache (v4/stakedb/stakedb.go), where the ticket pool may be lower or
-- higher than the stake node, and the loops of DisconnectBlock that recovery runs.
use hc_data.Base.{
  and_then, ℕ, zero, suc, ◌+◌, ◌-◌, ◌<◌, ◌≤◌, ◌≡◌, ◌⊎◌, inl, inr, refl, ap, sym, ◌∙◌, true, List,
  [], ◌∷◌, ◌++◌, some, arith, ltb, take, take-all, take-append, if◌then◌else◌, lt→ltb, Bool-cases,
}
use hc_data.Base.Int.{pos, ◌-ℤ◌, ltb_ℤ, beq_ℤ}
use hc_data.Base.Exec.{ok}
use hc_data.StakeDb.DiffDb.{PoolDiff, DiffDb}
use hc_data.StakeDb.TicketPool.{TicketPool, trim}
use hc_data.StakeDb.TicketPool.Step.{IsValid}
use hc_data.StakeDb.TicketPool.Trim.{Trimmed, trim_correct}
use hc_data.StakeDb.PoolInfoCache.{Lane}
use hc_data.StakeDb.LiveTickets.{Fetch}
use hc_data.StakeDb.Connect.{Block, StakeNode, Db}
use hc_data.StakeDb.Disconnect.{
  Client, prev_of, trimmed_to, trim_loop, undo_and_disconnect, disconnect_to, disconnect_block,
}
use hc_data.StakeDb.Disconnect.Parent.{Disconnects, disconnect_node-ok}

-- A ticket pool without the diffs from `n` on
pub record CutTo {S : Type 0} (n : ℕ) (tp tp' : TicketPool S) : Type 0 where
  pub valid : IsValid tp'
  pub tip : tp'.tip ≡ (if ltb n tp.tip then n else tp.tip)
  pub diffs : tp'.diffs ≡ take n tp.diffs

pub not_cut : {S : Type 0} (n : ℕ) (tp : TicketPool S) → IsValid tp → tp.tip ≤ n → CutTo n tp tp
not_cut n tp v h = record {
  valid = v;
  tip = ground arith;
  diffs = sym (take-all n tp.diffs (omega (arith, v.tip_length)));
}

pub cut_more :
    {S : Type 0} (n : ℕ) (d : PoolDiff) (tp tp1 tp2 : TicketPool S)
    → n < tp.tip
    → IsValid tp
    → Trimmed tp d tp1
    → CutTo n tp1 tp2
    → CutTo n tp tp2
cut_more n d tp tp1 tp2 h v t c = record {
  valid = c.valid;
  tip = ground (arith, c.tip, t.tip);
  diffs =
      c.diffs
      ∙ sym (take-append n tp1.diffs (d ∷ []) (omega (arith, t.tip, t.valid.tip_length)))
      ∙ ap (take n) t.diffs;
}

module _ (D : DiffDb) (L : Lane) (N : StakeNode) where
  open N use {Node, Disk, height, disconnect, write_disconnected, best_hash}

  trim_loop-CutTo :
      (fuel n tip : ℕ) (acc : List PoolDiff) (db : Db D L N)
      → db.pool_db.tip ≡ tip
      → tip < fuel
      → IsValid db.pool_db
      → (undo : List PoolDiff) × (tp : TicketPool D.State) × (trim_loop D L N fuel
            (pos n)
            tip
            acc
            db
          ≡ (ok undo, record db { pool_db = tp }))
        × CutTo n db.pool_db tp
  unfolding trim_loop trimmed_to
  trim_loop-CutTo zero n tip acc db e h v = absurd (omega arith)
  trim_loop-CutTo (suc fuel) n tip acc db e h v = elim (Bool-cases (ltb_ℤ (pos n) (pos tip))) [
    | inl more ↦
        let above : n < tip = ground arith in
        let higher : n < db.pool_db.tip = omega arith in
        let (d, tp, run, t) = trim_correct db.pool_db v (omega arith) in
        let at_tip : trim db.pool_db ≡ (ok (tip - 1, d), tp) =
          run ∙ ap (λ (k : ℕ). (ok (k - 1, d), tp)) e in
        let lower : ltb (tip - 1) tip ≡ true = lt→ltb _ _ (omega arith) in
        let (undo, tp', rest, c) =
          trim_loop-CutTo fuel n (tip - 1) (acc ++ d ∷ []) (record db { pool_db = tp })
            (omega (arith, t.tip)) (omega arith) t.valid in
        (undo, tp', rw (more, at_tip, lower) rest, cut_more n d db.pool_db tp tp' higher v t c)
    | inr there ↦ (acc, db.pool_db, rw there refl, not_cut n db.pool_db v (ground arith))
  ]

  -- From a stake node and its database, blocks can be disconnected down to the last ones: each time the
  -- client gives the parent, whose height is that of the node that hcd goes back to, one lower, and the
  -- write succeeds.
  pub data GoesBack (client : Client) (last : Node) (last_disk : Disk) : Node → Disk → Type 0 where
    stay : GoesBack client last last_disk last last_disk
    back_to :
        (node : Node) (disk : Disk) (parent : Block) (header : ℕ) (back : Node) (disk' : Disk)
        → and_then (best_hash disk) (prev_of client) ≡ some parent
        → parent.header ≡ some header
        → parent.height ≡ pos (height back)
        → height back + 1 ≡ height node
        → disconnect header disk node ≡ some back
        → write_disconnected disk back parent.hash node ≡ some disk'
        → GoesBack client last last_disk back disk'
        → GoesBack client last last_disk node disk

  pub GoesBack-le :
      (client : Client) (last : Node) (last_disk : Disk) (node : Node) (disk : Disk)
      → GoesBack client last last_disk node disk
      → height last ≤ height node
  GoesBack-le client last last_disk node disk stay = omega arith
  GoesBack-le client last last_disk node disk
        (back_to _ _ parent header back disk' _ _ _ lower _ _ rest) =
      omega (arith, GoesBack-le client last last_disk back disk' rest)

  pub record BackOne (client : Client) (last : Node) (last_disk : Disk) (db : Db D L N)
      : Type 0 where
    pub parent : Block
    pub back : Node
    pub disk : Disk
    pub level : parent.height ≡ pos (height back)
    pub lower : height back + 1 ≡ height db.best_node
    pub disconnects : Disconnects D L N client parent db back disk
    pub rest : GoesBack client last last_disk back disk

  GoesBack-cases_at :
      (client : Client) (last : Node) (last_disk : Disk) (node : Node) (disk : Disk) (db : Db D L N)
      → db.best_node ≡ node
      → db.stake_db ≡ disk
      → GoesBack client last last_disk node disk
      → ((node ≡ last) × (disk ≡ last_disk)) ⊎ BackOne client last last_disk db
  GoesBack-cases_at client last last_disk node disk db e f stay = inl (refl, refl)
  GoesBack-cases_at client last last_disk node disk db e f
        (back_to _ _ parent header back disk' found serialized level lower gone written rest) =
      inr (record {
        parent = parent;
        back = back;
        disk = disk';
        level = level;
        lower = lower ∙ sym (ap height e);
        disconnects = record {
          header = header;
          found = rw f found;
          serialized = serialized;
          disconnected = rw (e, f) gone;
          node_written = rw (e, f) written;
        };
        rest = rest;
      })

  -- A database is at the last node, or a block can be disconnected.
  pub GoesBack-cases :
      (client : Client) (last : Node) (last_disk : Disk) (db : Db D L N)
      → GoesBack client last last_disk db.best_node db.stake_db
      → ((db.best_node ≡ last) × (db.stake_db ≡ last_disk)) ⊎ BackOne client last last_disk db
  GoesBack-cases client last last_disk db g =
      GoesBack-cases_at client last last_disk db.best_node db.stake_db db refl refl g

  -- DisconnectBlock with a neglected cache, wherever the tip of the ticket pool is
  pub disconnect_block-CutTo :
      (fetch : Fetch) (client : Client) (last : Node) (last_disk : Disk) (db : Db D L N)
      (b : BackOne client last last_disk db)
      → IsValid db.pool_db
      → (tp : TicketPool D.State) × (disconnect_block D L N fetch client true db
          ≡ (ok tt, record db { pool_db = tp; best_node = b.back; stake_db = b.disk }))
        × CutTo (height b.back) db.pool_db tp
  unfolding disconnect_block disconnect_to undo_and_disconnect
  disconnect_block-CutTo fetch client last last_disk db b v =
      let (undo, tp, run, c) =
        trim_loop-CutTo (db.pool_db.tip + 1) (height b.back) db.pool_db.tip [] db refl (omega arith)
          v in
      let below : beq_ℤ (pos (height b.back)) (pos (height db.best_node) -ℤ pos 1) ≡ true =
        ground (arith, b.lower) in
      (
        tp,
        rw (b.disconnects.found, b.level, below, run)
            (disconnect_node-ok D L N client b.parent db b.back b.disk tp db.live b.disconnects),
        c,
      )
