-- ===== src/StakeDb/Recover/Started.antt =====
-- What NewStakeDatabase and LoadAndRecover (v4/stakedb/stakedb.go) give where the blocks that have to be
-- disconnected can be.
use Prim.Native.Nat.{min}
use hc_data.Base.{
  ℕ, ◌+◌, ◌≤◌, ◌≡◌, inl, inr, refl, ap, sym, ◌∙◌, true, List, [], none, some, arith, ◌==◌, length,
  take, take-all, take-take, if◌then◌else◌, Bool-cases,
}
use hc_data.Base.Int.{ℤ, pos, negsuc, ◌-ℤ◌}
use hc_data.Base.Exec.{Outcome, ok, Exec, continue}
use hc_data.Base.HashSet.{Hash, contains, contains-nil_lem, IsDistinct}
use hc_data.Base.HashMap.{lookup}
use hc_data.StakeDb.DiffDb.{PoolDiff, DiffDb}
use hc_data.StakeDb.TicketPool.{TicketPool}
use hc_data.StakeDb.TicketPool.Disk.{new_ticket_pool}
use hc_data.StakeDb.TicketPool.Replay.{none_live, IsConsistent}
use hc_data.StakeDb.TicketPool.Step.{IsValid}
use hc_data.StakeDb.TicketPool.Walk.{advance_to_tip_correct}
use hc_data.StakeDb.TicketPool.Persist.{numbered, new_ticket_pool-IsStored}
use hc_data.StakeDb.PoolInfoCache.{Lane, PoolInfoCache, new_pool_info_cache}
use hc_data.StakeDb.PoolInfoCache.Bounded.{set_correct}
use hc_data.StakeDb.LiveTickets.{Fetch}
use hc_data.StakeDb.LiveTickets.Undo.{price}
use hc_data.StakeDb.LiveTickets.Populate.{any_missing, populate_correct}
use hc_data.StakeDb.Connect.{PoolInfo, StakeNode, Db}
use hc_data.StakeDb.Connect.Success.{IsInStep}
use hc_data.StakeDb.Disconnect.{Client}
use hc_data.StakeDb.Reorg.{rewind}
use hc_data.StakeDb.Recover.{
  Failure, target_of, no_pool_info, level, opened, open_with, populate_cache, advance_new,
  start_new, new_stake_database, advance_recovered, lower_to, start_recovered, load_and_recover,
}
use hc_data.StakeDb.Recover.Lower.{GoesBack}
use hc_data.StakeDb.Recover.Level.{last-of, level-Lowered, rewind_loop-Lowered}

-- The height to which LoadAndRecover rewinds is none above the two.
target_of-le :
    (to : ℤ) (stake pool n : ℕ) → pos n ≡ target_of to stake pool → (n ≤ stake) × (n ≤ pool)
unfolding target_of
target_of-le (pos to) stake pool n e = ground arith
target_of-le (negsuc to) stake pool n e = ground arith

continue-ok :
    {E S A B : Type 0} {m : Outcome E A × S} {a : A} {s : S}
    → m ≡ (ok a, s)
    → (f : A → Exec E S B) → continue m f ≡ f a s
continue-ok e f = ap (λ r. continue r f) e

module _ (D : DiffDb) (L : Lane) (N : StakeNode) where
  open N use {Node, Disk, height}

  -- A database at the last node: in step, with the diffs up to its height, all of them applied, and with
  -- the live tickets that the node gives.
  pub record IsStarted (live_tickets : Node → List Hash) (fetch : Fetch) (last : Node)
      (last_disk : Disk) (stored : List PoolDiff) (db : Db D L N) : Type 0 where
    pub best_node : db.best_node ≡ last
    pub stake_db : db.stake_db ≡ last_disk
    pub in_step : IsInStep D L N db
    pub diffs : db.pool_db.diffs ≡ take (height last) stored
    pub cursor : db.pool_db.cursor ≡ db.pool_db.tip
    pub cached :
        (k : Hash)
        → lookup k db.live.live_ticket_cache
          ≡ (if contains (live_tickets last) k then price (fetch k) else none)

  module _ (live_tickets : Node → List Hash) (fetch : Fetch) (client : Client) (last : Node)
      (last_disk : Disk) (stored : List PoolDiff)
      (honest : (t : Hash) (tx_hash : Hash) (v : ℤ) → fetch t ≡ some (tx_hash, v) → tx_hash ≡ t)
      (one_each : IsDistinct (live_tickets last)) where
    -- A database that is level at the last node: the pool advances to its tip.
    abbrev IsLevel : Db D L N → Type 0
    IsLevel db =
        (db.best_node ≡ last)
        × (db.stake_db ≡ last_disk)
        × IsValid db.pool_db
        × (db.pool_db.tip ≡ height last)
        × (db.pool_db.diffs ≡ take (height last) stored)

    populated :
        (db : Db D L N) (tp : TicketPool D.State)
        → IsLevel db
        → IsValid tp
        → tp.cursor ≡ db.pool_db.tip
        → tp.tip ≡ db.pool_db.tip
        → tp.diffs ≡ db.pool_db.diffs
        → (db' : Db D L N) × (populate_cache D L N live_tickets fetch client
              (record db { pool_db = tp })
            ≡ (ok (any_missing fetch (live_tickets last)), db'))
          × IsStarted live_tickets fetch last last_disk stored db'
    unfolding populate_cache
    populated db tp (node, disk, v, level, diffs) valid at tip same =
        let (s, run, summed, cached) = populate_correct fetch honest (live_tickets last) one_each in
        (
          record db { pool_db = tp; live = s },
          rw (node, run) refl,
          record {
            best_node = node;
            stake_db = disk;
            in_step = record {
              same_height = tip ∙ level ∙ sym (ap height node);
              valid = valid;
              summed = summed;
            };
            diffs = same ∙ diffs;
            cursor = at ∙ sym tip;
            cached = cached;
          },
        )

    advance_recovered-IsStarted :
        (db : Db D L N)
        → IsLevel db
        → (db' : Db D L N) × (advance_recovered D L N live_tickets fetch client db
            ≡ (ok (any_missing fetch (live_tickets last)), db'))
          × IsStarted live_tickets fetch last last_disk stored db'
    unfolding advance_recovered
    advance_recovered-IsStarted db l =
        let (tp, up, valid, m) = advance_to_tip_correct db.pool_db l.2 in
        let (db', run, s) = populated db tp l valid m.cursor m.tip m.diffs in (db', rw up run, s)

    advance_new-IsStarted :
        (db : Db D L N)
        → IsLevel db
        → (db' : Db D L N) × (advance_new D L N live_tickets fetch client db
            ≡ (ok (pos (height last) -ℤ pos 1, any_missing fetch (live_tickets last)), db'))
          × IsStarted live_tickets fetch last last_disk stored db'
    unfolding advance_new
    advance_new-IsStarted db l =
        let (tp, up, valid, m) = advance_to_tip_correct db.pool_db l.2 in
        let (db', run, s) = populated db tp l valid m.cursor m.tip m.diffs in
        (
          db',
          rw (up, run)
              (ap (λ (n : ℕ). (ok (pos n -ℤ pos 1, any_missing fetch (live_tickets last)), db'))
                l.3),
          s,
        )

    lower_to-IsStarted :
        (n : ℕ) (db : Db D L N)
        → height last ≤ n
        → height db.best_node ≡ n
        → IsValid db.pool_db
        → GoesBack D L N client last last_disk db.best_node db.stake_db
        → db.pool_db.tip ≡ n
        → db.pool_db.diffs ≡ take n stored
        → (db' : Db D L N) × (lower_to D L N live_tickets fetch client (pos (height last)) db
            ≡ (ok (any_missing fetch (live_tickets last)), db'))
          × IsStarted live_tickets fetch last last_disk stored db'
    unfolding lower_to rewind
    lower_to-IsStarted n db low at valid rest tip diffs =
        let (db2, run2, m) =
          rewind_loop-Lowered D L N client last last_disk fetch (height db.best_node + 1)
            (height last) db (omega arith) valid rest (tip ∙ sym at) (omega arith) (omega arith) in
        let (at_node, at_disk) = last-of D L N client last last_disk db2 m.at m.rest in
        let fewer = take-take (height last) n stored low in
        let (db', run3, s) =
          advance_recovered-IsStarted db2
            (at_node, at_disk, m.valid, m.tip, m.diffs ∙ ap (take (height last)) diffs ∙ fewer) in
        (db', rw run2 run3, s)

    -- The database that is opened over the stored diffs
    module _ (genesis_hash : Hash) (diff_db : D.State) (node : Node) (disk : Disk)
        (on_disk : D.items diff_db ≡ numbered 0 stored) (can_read : D.readable diff_db ≡ true)
        (consistent : IsConsistent none_live stored)
        (back : GoesBack D L N client last last_disk node disk) where
      abbrev new_pool : TicketPool D.State
      new_pool = record {
        cursor = 0;
        tip = length stored;
        diffs = stored;
        pool = [];
        diff_db = diff_db;
      }

      new_pool-IsValid : IsValid new_pool
      new_pool-IsValid = record {
        tip_length = refl;
        replayed = record {
          within = omega arith;
          distinct = tt;
          consistent = consistent;
          holds = λ h. contains-nil_lem h;
        };
      }

      loaded : new_ticket_pool D diff_db ≡ ok new_pool
      loaded =
          (new_ticket_pool-IsStored D new_pool stored
            (record {
              on_disk = on_disk;
              first = take-all (length stored) stored (omega arith);
              reach = omega arith;
            })
            can_read).0

      -- What runs on the opened database decides the result.
      open_with-ok :
          {A : Type 0} (run : Exec Failure (Db D L N) A) (a : A) (P : Db D L N → Type 0)
          → ((c : PoolInfoCache PoolInfo L.Queue)
              → (db' : Db D L N) × (run (opened D L N new_pool c node disk) ≡ (ok a, db')) × P db')
          → (db' : Db D L N) × (open_with D L N genesis_hash diff_db (some (node, disk)) run
              ≡ ok (a, db'))
            × P db'
      unfolding open_with
      open_with-ok run a P h =
          let (c, cached, _, _, _) =
            set_correct L genesis_hash no_pool_info (new_pool_info_cache L (pos 513)) in
          let (db', e, p) = h c in (db', rw (loaded, cached, e) refl, p)

      start_recovered-IsStarted :
          (to : ℤ) (c : PoolInfoCache PoolInfo L.Queue)
          → pos (height last) ≡ target_of to (height node) (length stored)
          → (db' : Db D L N) × (start_recovered D L N live_tickets fetch client to
                (opened D L N new_pool c node disk)
              ≡ (ok (any_missing fetch (live_tickets last)), db'))
            × IsStarted live_tickets fetch last last_disk stored db'
      unfolding start_recovered
      start_recovered-IsStarted to c target =
          let (under_node, under_pool) =
            target_of-le to (height node) (length stored) (height last) target in
          let (db1, run1, l) =
            level-Lowered D L N client last last_disk fetch (opened D L N new_pool c node disk)
              new_pool-IsValid back under_pool in
          let (db', run2, s) =
            lower_to-IsStarted (min (height node) (length stored)) db1 (omega arith) l.at l.valid
              l.rest l.tip l.diffs in
          let next = λ (t : ℤ).
            continue (level D L N fetch client (opened D L N new_pool c node disk))
              (λ _. lower_to D L N live_tickets fetch client t) in
          (db', ap next (sym target) ∙ continue-ok run1 _ ∙ run2, s)

      -- LoadAndRecover, where the disk holds diffs that fit each other, the node answers with the
      -- transaction that was asked for, the last node lists no live ticket twice, and the blocks can be
      -- disconnected from the stake node that is opened down to that last one, which is at the height to
      -- which it rewinds, the given one, but no less than zero and no more than the heights of the stake
      -- node and of the pool: it ends without error at that node, in step, with the stored diffs up to its
      -- height, all applied; the cache holds for the live tickets what the node gives, and an error is
      -- returned beside the database just where it fails to give some.
      pub load_and_recover_correct :
          (to : ℤ)
          → pos (height last) ≡ target_of to (height node) (length stored)
          → (db' : Db D L N) × (load_and_recover D L N live_tickets fetch client genesis_hash
                diff_db
                (some (node, disk))
                to
              ≡ ok (any_missing fetch (live_tickets last), db'))
            × IsStarted live_tickets fetch last last_disk stored db'
      unfolding load_and_recover
      load_and_recover_correct to target =
          open_with-ok (start_recovered D L N live_tickets fetch client to)
            (any_missing fetch (live_tickets last))
            (IsStarted live_tickets fetch last last_disk stored)
            (λ c. start_recovered-IsStarted to c target)

      start_new-IsStarted :
          (c : PoolInfoCache PoolInfo L.Queue)
          → height last ≡ min (height node) (length stored)
          → (db' : Db D L N) × (start_new D L N live_tickets fetch client
                (opened D L N new_pool c node disk)
              ≡ (ok (pos (height last) -ℤ pos 1, any_missing fetch (live_tickets last)), db'))
            × IsStarted live_tickets fetch last last_disk stored db'
      unfolding start_new
      start_new-IsStarted c lowest = elim (Bool-cases (height node == length stored)) [
        | inl same ↦
            let equal : height node ≡ length stored = ground arith in
            let db = opened D L N new_pool c node disk in
            let (at_node, at_disk) =
              last-of D L N client last last_disk (opened D L N new_pool c node disk)
                (omega (arith, lowest)) back in
            let (db', run, s) = advance_new-IsStarted (opened D L N new_pool c node disk) (
              at_node,
              at_disk,
              new_pool-IsValid,
              omega (arith, lowest),
              sym (take-all (height last) stored (omega (arith, lowest))),
            ) in
            (db', rw same run, s)
        | inr other ↦
            let (db1, run1, l) =
              level-Lowered D L N client last last_disk fetch (opened D L N new_pool c node disk)
                new_pool-IsValid back (omega (arith, lowest)) in
            let (at_node, at_disk) =
              last-of D L N client last last_disk db1 (l.at ∙ sym lowest) l.rest in
            let (db', run, s) = advance_new-IsStarted db1 (
              at_node,
              at_disk,
              l.valid,
              l.tip ∙ sym lowest,
              l.diffs ∙ ap (λ n. take n stored) (sym lowest),
            ) in
            (db', rw (other, run1) run, s)
      ]

      -- NewStakeDatabase, where the disk holds diffs that fit each other, the node answers with the
      -- transaction that was asked for, the last node lists no live ticket twice, and the blocks can be
      -- disconnected from the stake node that is opened down to that last one, which is at the lower of
      -- the heights of the stake node and of the pool: it ends without error at that node, in step, with
      -- the stored diffs up to its height, all applied; the cache holds for the live tickets what the node
      -- gives, and an error is returned beside the database just where it fails to give some. The height
      -- that it returns is one less than that of the database.
      pub new_stake_database_correct :
          height last ≡ min (height node) (length stored)
          → (db' : Db D L N) × (new_stake_database D L N live_tickets fetch client genesis_hash
                diff_db
                (some (node, disk))
              ≡ ok ((pos (height last) -ℤ pos 1, any_missing fetch (live_tickets last)), db'))
            × IsStarted live_tickets fetch last last_disk stored db'
      unfolding new_stake_database
      new_stake_database_correct lowest =
          open_with-ok (start_new D L N live_tickets fetch client)
            (pos (height last) -ℤ pos 1, any_missing fetch (live_tickets last))
            (IsStarted live_tickets fetch last last_disk stored) (λ c. start_new-IsStarted c lowest)
