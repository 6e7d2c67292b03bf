-- ===== src/StakeDb/Recover/Level.antt =====
-- The loops of NewStakeDatabase and LoadAndRecover (v4/stakedb/stakedb.go) that bring the stake node and
-- the ticket pool to one height.
use Prim.Native.Nat.{min}
use hc_data.Base.{
  ℕ, zero, suc, ◌+◌, ◌-◌, ◌<◌, ◌≤◌, ◌≡◌, inl, inr, refl, ap, sym, ◌∙◌, true, arith, ltb, take,
  take-all, take-take, Bool-cases, ==_refl,
}
use hc_data.Base.Int.{pos, ltb_ℤ, beq_ℤ}
use hc_data.Base.Exec.{ok}
use hc_data.StakeDb.DiffDb.{DiffDb}
use hc_data.StakeDb.TicketPool.{TicketPool, trim}
use hc_data.StakeDb.TicketPool.Step.{IsValid}
use hc_data.StakeDb.TicketPool.Trim.{trim_correct}
use hc_data.StakeDb.PoolInfoCache.{Lane}
use hc_data.StakeDb.LiveTickets.{Fetch}
use hc_data.StakeDb.Connect.{StakeNode, Db}
use hc_data.StakeDb.Disconnect.{Client}
use hc_data.StakeDb.Reorg.{rewind_loop}
use hc_data.StakeDb.Recover.{level_loop, trimmed_to, trim_down, level}
use hc_data.StakeDb.Recover.Lower.{
  CutTo, not_cut, cut_more, GoesBack, GoesBack-le, GoesBack-cases, disconnect_block-CutTo,
}

module _ (D : DiffDb) (L : Lane) (N : StakeNode) where
  open N use {Node, Disk, height}

  module _ (client : Client) (last : Node) (last_disk : Disk) where
    -- A database that is lower, with the blocks below it still there
    pub record Lowered (n : ℕ) (db db' : Db D L N) : Type 0 where
      pub at : height db'.best_node ≡ n
      pub rest : GoesBack D L N client last last_disk db'.best_node db'.stake_db
      pub valid : IsValid db'.pool_db
      pub tip : db'.pool_db.tip ≡ n
      pub diffs : db'.pool_db.diffs ≡ take n db.pool_db.diffs

    -- At the height of the last node there is nothing left to disconnect.
    pub last-of :
        (db : Db D L N)
        → height db.best_node ≡ height last
        → GoesBack D L N client last last_disk db.best_node db.stake_db
        → (db.best_node ≡ last) × (db.stake_db ≡ last_disk)
    last-of db e g = elim (GoesBack-cases D L N client last last_disk db g) [
      | inl same ↦ same
      | inr b ↦
          absurd
            (omega (arith, b.lower, GoesBack-le D L N client last last_disk b.back b.disk b.rest))
    ]

    level_loop-ok :
        (fetch : Fetch) (fuel : ℕ) (db : Db D L N)
        → height db.best_node < fuel
        → IsValid db.pool_db
        → GoesBack D L N client last last_disk db.best_node db.stake_db
        → height last ≤ db.pool_db.tip
        → (db' : Db D L N) × (level_loop D L N fetch client fuel db ≡ (ok tt, db'))
          × GoesBack D L N client last last_disk db'.best_node db'.stake_db
          × IsValid db'.pool_db
          × (db'.pool_db.tip ≡ db.pool_db.tip)
          × (db'.pool_db.diffs ≡ db.pool_db.diffs)
          × (height db'.best_node ≡ min (height db.best_node) db.pool_db.tip)
    unfolding level_loop
    level_loop-ok fetch zero db h v g low = absurd (omega arith)
    level_loop-ok fetch (suc fuel) db h v g low =
        elim (Bool-cases (ltb db.pool_db.tip (height db.best_node))) [
          | inl more ↦ elim (GoesBack-cases D L N client last last_disk db g) [
            | inl (e, _) ↦
                let same : height db.best_node ≡ height last = ap height e in absurd (ground arith)
            | inr b ↦
                let above : db.pool_db.tip < height db.best_node = ground arith in
                let (tp, run, c) =
                  disconnect_block-CutTo D L N fetch client last last_disk db b v in
                let same_tip : tp.tip ≡ db.pool_db.tip = ground (arith, c.tip, b.lower) in
                let whole : take (height b.back) db.pool_db.diffs ≡ db.pool_db.diffs =
                  take-all (height b.back) db.pool_db.diffs
                    (omega (arith, v.tip_length, b.lower)) in
                let (db', rest, back, valid, tip, diffs, at) =
                  level_loop-ok fetch fuel
                    (record db { pool_db = tp; best_node = b.back; stake_db = b.disk })
                    (omega (arith, b.lower)) c.valid b.rest (omega arith) in
                (
                  db',
                  rw (more, run) rest,
                  back,
                  valid,
                  tip ∙ same_tip,
                  diffs ∙ c.diffs ∙ whole,
                  omega (arith, at, same_tip, b.lower),
                )
          ]
          | inr there ↦
              let below : height db.best_node ≤ db.pool_db.tip = ground arith in
              (db, rw there refl, g, v, refl, refl, omega arith)
        ]

    trim_down-CutTo :
        (fuel stake tip : ℕ) (db : Db D L N)
        → db.pool_db.tip ≡ tip
        → tip < fuel
        → stake ≤ tip
        → IsValid db.pool_db
        → (tp : TicketPool D.State) × (trim_down D L N fuel stake tip db
            ≡ (ok stake, record db { pool_db = tp }))
          × CutTo stake db.pool_db tp
    unfolding trim_down trimmed_to
    trim_down-CutTo zero stake tip db e h low v = absurd (omega arith)
    trim_down-CutTo (suc fuel) stake tip db e h low v = elim (Bool-cases (ltb stake tip)) [
      | inl more ↦
          let above : stake < tip = ground arith in
          let higher : stake < db.pool_db.tip = omega arith in
          let (d, tp, run, t) = trim_correct db.pool_db v (omega arith) in
          let at_tip : trim db.pool_db ≡ (ok (tip - 1, d), tp) =
            run ∙ ap (λ (k : ℕ). (ok (k - 1, d), tp)) e in
          let (tp', rest, c) =
            trim_down-CutTo fuel stake (tip - 1) (record db { pool_db = tp }) (omega (arith, t.tip))
              (omega arith) (omega arith) t.valid in
          (tp', rw (more, at_tip) rest, cut_more stake d db.pool_db tp tp' higher v t c)
      | inr there ↦
          let same : tip ≡ stake = ground arith in
          (
            db.pool_db,
            rw there (ap (λ (k : ℕ). (ok k, db)) same),
            not_cut stake db.pool_db v (omega arith),
          )
    ]

    -- Both databases at the lower of their heights
    pub level-Lowered :
        (fetch : Fetch) (db : Db D L N)
        → IsValid db.pool_db
        → GoesBack D L N client last last_disk db.best_node db.stake_db
        → height last ≤ db.pool_db.tip
        → (db' : Db D L N) × (level D L N fetch client db ≡ (ok tt, db'))
          × Lowered (min (height db.best_node) db.pool_db.tip) db db'
    unfolding level
    level-Lowered fetch db v g low =
        let (db1, run, back, valid, tip, diffs, at) =
          level_loop-ok fetch (height db.best_node + 1) db (omega arith) v g low in
        let (tp, trimmed, c) =
          trim_down-CutTo (db1.pool_db.tip + 1) (height db1.best_node) db1.pool_db.tip db1 refl
            (omega arith) (omega (arith, at, tip)) valid in
        (
          record db1 { pool_db = tp },
          rw (run, trimmed, ==_refl (height db1.best_node)) refl,
          record {
            at = at;
            rest = back;
            valid = c.valid;
            tip = ground (arith, c.tip, at, tip);
            diffs =
                c.diffs
                ∙ ap (take (height db1.best_node)) diffs
                ∙ ap (λ n. take n db.pool_db.diffs) at;
          },
        )

    pub rewind_loop-Lowered :
        (fetch : Fetch) (fuel to : ℕ) (db : Db D L N)
        → height db.best_node < fuel
        → IsValid db.pool_db
        → GoesBack D L N client last last_disk db.best_node db.stake_db
        → db.pool_db.tip ≡ height db.best_node
        → height last ≤ to
        → to ≤ height db.best_node
        → (db' : Db D L N) × (rewind_loop D L N fetch client fuel (pos to) true db ≡ (ok tt, db'))
          × Lowered to db db'
    unfolding rewind_loop
    rewind_loop-Lowered fetch zero to db h v g same low up = absurd (omega arith)
    rewind_loop-Lowered fetch (suc fuel) to db h v g same low up =
        elim (Bool-cases (ltb_ℤ (pos to) (pos (height db.best_node)))) [
          | inl more ↦ elim (GoesBack-cases D L N client last last_disk db g) [
            | inl (e, _) ↦
                let there : height db.best_node ≡ height last = ap height e in absurd (ground arith)
            | inr b ↦
                let above : to < height db.best_node = ground arith in
                let (tp, run, c) =
                  disconnect_block-CutTo D L N fetch client last last_disk db b v in
                let level : tp.tip ≡ height b.back = ground (arith, c.tip, b.lower) in
                let equal : beq_ℤ (pos tp.tip) (pos (height b.back)) ≡ true = ground arith in
                let (db', rest, l) =
                  rewind_loop-Lowered fetch fuel to
                    (record db { pool_db = tp; best_node = b.back; stake_db = b.disk })
                    (omega (arith, b.lower)) c.valid b.rest level low (omega (arith, b.lower)) in
                (
                  db',
                  rw (more, run, equal) rest,
                  record {
                    at = l.at;
                    rest = l.rest;
                    valid = l.valid;
                    tip = l.tip;
                    diffs =
                        l.diffs
                        ∙ ap (take to) c.diffs
                        ∙ take-take to (height b.back) db.pool_db.diffs (omega (arith, b.lower));
                  },
                )
          ]
          | inr there ↦
              let here : height db.best_node ≡ to = ground arith in
              (
                db,
                rw there refl,
                record {
                  at = here;
                  rest = g;
                  valid = v;
                  tip = same ∙ here;
                  diffs =
                      sym (take-all to db.pool_db.diffs (omega (arith, v.tip_length, same, here)));
                },
              )
        ]
