-- ===== src/Mempool/Monitor/Reported.antt =====
-- The tickets that the monitor counts (v4/mempool/mempool.go), and those that it reports to a saver.
use hc_data.Base.{
  ℕ, ◌+◌, ◌*◌, ◌≡◌, refl, ap, ◌∙◌, Bool, true, false, List, [], ◌∷◌, ◌++◌, Option, none, some, ◌==◌,
  if◌then◌else◌, arith, Bool-cases, inl, inr, ltb, ◌||◌, ◌&&◌, not,
}
use hc_data.Base.Int.{ℤ, pos, ◌-ℤ◌, ltb_ℤ}
use hc_data.Base.Exec.{Outcome, ok, err, panic, out_of_fuel}
use hc_data.Base.HashSet.{Hash}
use hc_data.Mempool.Collector.{MempoolData, CollectError, u32}
use hc_data.Mempool.Monitor.{
  TxType, regular, ss_tx, ss_gen, ss_rtx, other, Save, MempoolMonitor, Round, Event, received,
  closed, quit, saves, go_on, store, collect_and_store, count_ticket, handle_tx, handle, tx_handler,
}

-- How often a saver is among the savers
abbrev pub times : ℕ → List (Option ℕ) → ℕ
times s [] = 0
times s (none ∷ rest) = times s rest
times s (some t ∷ rest) = if s == t then times s rest + 1 else times s rest

-- A round in which a ticket is counted
abbrev pub is_counted : Option Hash → Option TxType → Option ℕ → ℕ
is_counted (some h) (some ss_tx) (some n) = 1
is_counted _ _ _ = 0

module _ {Float FeeInfo : Type 0} where
  -- The new tickets of all that a saver stores
  abbrev pub reported : ℕ → List (Save Float FeeInfo) → ℕ
  reported s [] = 0
  reported s (save ∷ rest) =
      if s == save.saver then save.mp_data.new_tickets + reported s rest else reported s rest

  -- The tickets that are counted before the handler returns
  abbrev pub purchases : List (Event Float FeeInfo) → ℕ
  purchases [] = 0
  purchases (received r ∷ rest) = is_counted r.new_tx.hash r.tx_type r.block_count + purchases rest
  purchases (closed ∷ rest) = 0
  purchases (quit ∷ rest) = 0

  abbrev pub IsCollected :
      Outcome CollectError (MempoolData Float FeeInfo × Option CollectError) → Type 0
  IsCollected (ok (data_, none)) = Unit
  IsCollected _ = ⊥

  -- Collect succeeds whenever it is called.
  abbrev pub AllCollect : List (Event Float FeeInfo) → Type 0
  AllCollect [] = Unit
  AllCollect (received r ∷ rest) = IsCollected r.collected × AllCollect rest
  AllCollect (closed ∷ rest) = Unit
  AllCollect (quit ∷ rest) = Unit

  reported-append :
      (s : ℕ) (xs ys : List (Save Float FeeInfo))
      → reported s (xs ++ ys) ≡ reported s xs + reported s ys
  reported-append s [] ys = omega arith
  reported-append s (x ∷ xs) ys = ground (arith, reported-append s xs ys)

  reported-saves :
      (s : ℕ) (savers : List (Option ℕ)) (data_ : MempoolData Float FeeInfo) (now : ℤ)
      → reported s (saves savers data_ now) ≡ times s savers * data_.new_tickets
  unfolding saves
  reported-saves s [] data_ now = omega arith
  reported-saves s (none ∷ rest) data_ now = reported-saves s rest data_ now
  reported-saves s (some t ∷ rest) data_ now =
      let later = reported-saves s rest data_ now in
      elim (Bool-cases (s == t)) [
        | inl same ↦
            let one_more : (times s rest + 1) * data_.new_tickets
                ≡ times s rest * data_.new_tickets + data_.new_tickets =
              grind arith in
            rw same (omega (arith, later, one_more))
        | inr differs ↦ rw differs later
      ]

  -- The savers stay, and the tickets that are counted or reported to the saver are `k` more.
  pub record Counts (s k : ℕ) (m m' : MempoolMonitor Float FeeInfo) : Type 0 where
    pub savers : m'.data_savers ≡ m.data_savers
    pub total :
        m'.mpool_info.num_tickets_since_stats_report + reported s m'.saved
        ≡ m.mpool_info.num_tickets_since_stats_report + reported s m.saved + k

module _ {Float FeeInfo : Type 0} (fee_number : FeeInfo → ℕ) (s : ℕ) where
  store-Counts :
      (now : ℤ) (n : ℕ) (c : Outcome CollectError (MempoolData Float FeeInfo × Option CollectError))
      (m : MempoolMonitor Float FeeInfo)
      → IsCollected c
      → times s m.data_savers ≡ 1
      → (m' : MempoolMonitor Float FeeInfo) × (store fee_number now n c m ≡ (ok tt, m'))
        × Counts s n m m'
  unfolding store
  store-Counts now n (ok (data_, none)) m h one =
      let given : MempoolData Float FeeInfo = record data_ { new_tickets = n } in
      let sum = reported-append s m.saved (saves m.data_savers given now) in
      let new = reported-saves s m.data_savers given now in
      let once : times s m.data_savers * n ≡ n = rw one (omega arith) in
      (_, refl, record { savers = refl; total = omega (arith, sum, new, once) })
  store-Counts now n (ok (data_, some e)) m h one = absurd h
  store-Counts now n (err e) m h one = absurd h
  store-Counts now n panic m h one = absurd h
  store-Counts now n out_of_fuel m h one = absurd h

  collect_and_store-Counts :
      (r : Round Float FeeInfo) (m : MempoolMonitor Float FeeInfo)
      → IsCollected r.collected
      → times s m.data_savers ≡ 1
      → (m' : MempoolMonitor Float FeeInfo) × (go_on (collect_and_store fee_number r m)
          ≡ (ok tt, m'))
        × Counts s 0 m m'
  unfolding collect_and_store
  collect_and_store-Counts r m h one =
      let (m', run, c) =
        store-Counts r.now_store m.mpool_info.num_tickets_since_stats_report r.collected
          (record m {
            mpool_info = record m.mpool_info {
              num_tickets_since_stats_report = 0;
              last_collect_time = r.now_collect;
            };
          })
          h one in
      (m', ap go_on run, record { savers = c.savers; total = omega (arith, c.total) })

  either_way :
      (time_to skip : Bool) (m counted : MempoolMonitor Float FeeInfo)
      (collected : Outcome CollectError (Unit {0}) × MempoolMonitor Float FeeInfo)
      → Counts s 1 m counted
      → (m' : MempoolMonitor Float FeeInfo) × (collected ≡ (ok tt, m')) × Counts s 1 m m'
      → (m' : MempoolMonitor Float FeeInfo) × ((if time_to
            then (if skip then (ok tt, counted) else collected)
            else (ok tt, counted))
          ≡ (ok tt, m'))
        × Counts s 1 m m'
  either_way true true m counted collected k c = (counted, refl, k)
  either_way true false m counted collected k c = c
  either_way false skip m counted collected k c = (counted, refl, k)

  count_ticket-Counts :
      (r : Round Float FeeInfo) (height : ℕ) (m : MempoolMonitor Float FeeInfo)
      → IsCollected r.collected
      → times s m.data_savers ≡ 1
      → (m' : MempoolMonitor Float FeeInfo) × (count_ticket fee_number r height m ≡ (ok tt, m'))
        × Counts s 1 m m'
  unfolding count_ticket
  count_ticket-Counts r height m h one =
      let counted : MempoolMonitor Float FeeInfo = record m {
        mpool_info = record m.mpool_info {
          current_height =
              if ltb m.mpool_info.current_height height
              then height
              else m.mpool_info.current_height;
          num_tickets_since_stats_report = m.mpool_info.num_tickets_since_stats_report + 1;
        };
      } in
      let (m', run, c) = collect_and_store-Counts r counted h one in
      let kept : Counts s 1 m counted = record { savers = refl; total = omega arith } in
      let since = r.now_since_last -ℤ m.mpool_info.last_collect_time in
      either_way
        (ltb m.mpool_info.current_height height
          || ltb_ℤ m.max_interval since
          || (not (ltb_ℤ (pos (m.mpool_info.num_tickets_since_stats_report + 1)) m.new_ticket_limit)
              && not (ltb_ℤ since m.min_interval)))
        (ltb_ℤ since (r.now_since_tx -ℤ r.new_tx.t)) m counted
        (go_on (collect_and_store fee_number r counted)) kept
        (m', run, record { savers = c.savers; total = omega (arith, c.total) })

  handle_tx-Counts :
      (r : Round Float FeeInfo) (h : Hash) (tx_type : Option TxType) (count : Option ℕ)
      (m : MempoolMonitor Float FeeInfo)
      → IsCollected r.collected
      → times s m.data_savers ≡ 1
      → (m' : MempoolMonitor Float FeeInfo) × (handle_tx fee_number r tx_type count m ≡ (ok tt, m'))
        × Counts s (is_counted (some h) tx_type count) m m'
  unfolding handle_tx
  handle_tx-Counts r h (some ss_tx) (some n) m c one = count_ticket-Counts r (u32 n) m c one
  handle_tx-Counts r h (some ss_tx) none m c one =
      (m, refl, record { savers = refl; total = omega arith })
  handle_tx-Counts r h (some regular) count m c one =
      (m, refl, record { savers = refl; total = omega arith })
  handle_tx-Counts r h (some ss_gen) count m c one =
      (m, refl, record { savers = refl; total = omega arith })
  handle_tx-Counts r h (some ss_rtx) count m c one =
      (m, refl, record { savers = refl; total = omega arith })
  handle_tx-Counts r h (some other) count m c one =
      (m, refl, record { savers = refl; total = omega arith })
  handle_tx-Counts r h none count m c one = (m, refl, record { savers = refl; total = omega arith })

  handle-Counts :
      (r : Round Float FeeInfo) (hash : Option Hash) (m : MempoolMonitor Float FeeInfo)
      → IsCollected r.collected
      → times s m.data_savers ≡ 1
      → (m' : MempoolMonitor Float FeeInfo) × (handle fee_number r hash m ≡ (ok tt, m'))
        × Counts s (is_counted hash r.tx_type r.block_count) m m'
  unfolding handle
  handle-Counts r none m c one = collect_and_store-Counts r m c one
  handle-Counts r (some h) m c one = handle_tx-Counts r h r.tx_type r.block_count m c one

  -- TxHandler, where Collect succeeds whenever it is called, and a saver is among the savers once, ends
  -- without error, and the counter and the new tickets of all reports to the saver are together more by
  -- the number of tickets that are counted before it returns.
  pub tx_handler-Counts :
      (events : List (Event Float FeeInfo)) (m : MempoolMonitor Float FeeInfo)
      → AllCollect events
      → times s m.data_savers ≡ 1
      → (m' : MempoolMonitor Float FeeInfo) × (tx_handler fee_number events m ≡ (ok tt, m'))
        × Counts s (purchases events) m m'
  unfolding tx_handler
  tx_handler-Counts [] m c one = (m, refl, record { savers = refl; total = omega arith })
  tx_handler-Counts (received r ∷ rest) m c one =
      let (m1, run1, k1) = handle-Counts r r.new_tx.hash m c.0 one in
      let (m2, run2, k2) = tx_handler-Counts rest m1 c.1 (rw k1.savers one) in
      (
        m2,
        rw run1 run2,
        record { savers = k2.savers ∙ k1.savers; total = omega (arith, k1.total, k2.total) },
      )
  tx_handler-Counts (closed ∷ rest) m c one =
      (m, refl, record { savers = refl; total = omega arith })
  tx_handler-Counts (quit ∷ rest) m c one = (m, refl, record { savers = refl; total = omega arith })

  -- After a signal of a new block, where Collect returns an error without data, and a saver is among the
  -- savers once: whatever the handler gets then, with Collect successful, the tickets that were counted
  -- before the signal are in no report to the saver and not in the counter.
  pub failed_collection_loses_tickets :
      (r : Round Float FeeInfo) (e : CollectError) (rest : List (Event Float FeeInfo))
      (m : MempoolMonitor Float FeeInfo)
      → r.new_tx.hash ≡ none
      → r.collected ≡ err e
      → AllCollect rest
      → times s m.data_savers ≡ 1
      → (m' : MempoolMonitor Float FeeInfo) × (tx_handler fee_number (received r ∷ rest) m
          ≡ (ok tt, m'))
        × (m'.mpool_info.num_tickets_since_stats_report + reported s m'.saved
            ≡ reported s m.saved + purchases rest)
  unfolding tx_handler handle collect_and_store store
  failed_collection_loses_tickets r e rest m signal failed c one =
      let reset : MempoolMonitor Float FeeInfo = record m {
        mpool_info = record m.mpool_info {
          num_tickets_since_stats_report = 0;
          last_collect_time = r.now_collect;
        };
      } in
      let (m', run, k) = tx_handler-Counts rest reset c one in
      (m', rw (signal, failed) run, omega (arith, k.total))
