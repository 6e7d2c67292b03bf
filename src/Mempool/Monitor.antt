-- ===== src/Mempool/Monitor.antt =====
-- TxHandler and CollectAndStore of mempoolMonitor (v4/mempool/mempool.go). The clock's readings, the node's
-- answers and what Collect gives come with each round; times and durations are integers without a bound, and
-- the counter of tickets stays far below 2^31. A saver runs in a goroutine of its own: here, what the
-- goroutines that were started store.
mod Tests
pub mod Reported
use hc_data.Base.{
  ℕ, zero, suc, ◌+◌, Bool, true, false, ◌&&◌, ◌||◌, not, List, [], ◌∷◌, ◌++◌, Option, none, some,
  ltb, if◌then◌else◌,
}
use hc_data.Base.Int.{ℤ, pos, ◌-ℤ◌, ltb_ℤ}
use hc_data.Base.Exec.{Outcome, ok, err, panic, out_of_fuel, continue}
use hc_data.Base.HashSet.{Hash}
use hc_data.Mempool.Collector.{MempoolData, CollectError, u32}

-- A nil hash is the signal of a new block.
pub record NewTx : Type 0 where
  pub hash : Option Hash
  pub t : ℤ

pub record MempoolInfo : Type 0 where
  pub current_height : ℕ
  pub num_ticket_purchases_in_mempool : ℕ
  pub num_tickets_since_stats_report : ℕ
  pub last_collect_time : ℤ

-- What DetermineTxType tells of a transaction
pub data TxType : Type 0 where
  regular ss_tx ss_gen ss_rtx other : TxType

module _ (Float FeeInfo : Type 0) where
  -- What a saver is given
  pub record Save : Type 0 where
    pub saver : ℕ
    pub mp_data : MempoolData Float FeeInfo
    pub timestamp : ℤ

  -- The monitor, with the savers by number (`none` for a nil one), and what they store
  pub record MempoolMonitor : Type 0 where
    pub mpool_info : MempoolInfo
    pub new_ticket_limit : ℤ
    pub min_interval : ℤ
    pub max_interval : ℤ
    pub data_savers : List (Option ℕ)
    pub saved : List Save

  -- A transaction from the channel with what the round reads: the type of the transaction that the node
  -- gives, the block count, the clock before the two tests and in CollectAndStore, and what Collect gives.
  pub record Round : Type 0 where
    pub new_tx : NewTx
    pub tx_type : Option TxType
    pub block_count : Option ℕ
    pub now_since_last : ℤ
    pub now_since_tx : ℤ
    pub now_collect : ℤ
    pub now_store : ℤ
    pub collected : Outcome CollectError (MempoolData Float FeeInfo × Option CollectError)

  pub data Event : Type 0 where
    received : Round → Event
    closed quit : Event

module _ {Float FeeInfo : Type 0} where
  -- The loop over the savers, of which a nil one is passed over
  unfoldable pub saves : List (Option ℕ) → MempoolData Float FeeInfo → ℤ → List (Save Float FeeInfo)
  saves [] data_ timestamp = []
  saves (none ∷ rest) data_ timestamp = saves rest data_ timestamp
  saves (some s ∷ rest) data_ timestamp =
      record { saver = s; mp_data = data_; timestamp = timestamp } ∷ saves rest data_ timestamp

  -- TxHandler goes on after an error.
  abbrev pub go_on :
      Outcome CollectError (Unit {0}) × MempoolMonitor Float FeeInfo
      → Outcome CollectError (Unit {0}) × MempoolMonitor Float FeeInfo
  go_on (ok u, m) = (ok u, m)
  go_on (err e, m) = (ok tt, m)
  go_on (panic, m) = (panic, m)
  go_on (out_of_fuel, m) = (out_of_fuel, m)

module _ {Float FeeInfo : Type 0} (fee_number : FeeInfo → ℕ) where
  -- CollectAndStore after the counter and the timer are reset; Collect may give data beside an error.
  unfoldable pub store :
      ℤ
      → ℕ
      → Outcome CollectError (MempoolData Float FeeInfo × Option CollectError)
      → MempoolMonitor Float FeeInfo
      → Outcome CollectError (Unit {0}) × MempoolMonitor Float FeeInfo
  unfolding saves
  store now new_tickets (ok (data_, none)) m = (
    ok tt,
    record m {
      mpool_info = record m.mpool_info {
        num_ticket_purchases_in_mempool = fee_number data_.ticket_fees;
      };
      saved = m.saved ++ saves m.data_savers (record data_ { new_tickets = new_tickets }) now;
    },
  )
  store now new_tickets (ok (data_, some e)) m = (err e, m)
  store now new_tickets (err e) m = (err e, m)
  store now new_tickets panic m = (panic, m)
  store now new_tickets out_of_fuel m = (out_of_fuel, m)

  -- CollectAndStore
  unfoldable pub collect_and_store :
      Round Float FeeInfo
      → MempoolMonitor Float FeeInfo
      → Outcome CollectError (Unit {0}) × MempoolMonitor Float FeeInfo
  unfolding store
  collect_and_store r m =
      store r.now_store m.mpool_info.num_tickets_since_stats_report r.collected (record m {
        mpool_info = record m.mpool_info {
          num_tickets_since_stats_report = 0;
          last_collect_time = r.now_collect;
        };
      })

  -- After the block count: the ticket is counted, and it is decided whether it is time to collect.
  unfoldable pub count_ticket :
      Round Float FeeInfo
      → ℕ
      → MempoolMonitor Float FeeInfo
      → Outcome CollectError (Unit {0}) × MempoolMonitor Float FeeInfo
  unfolding collect_and_store
  count_ticket r tx_height m =
      let new_block = ltb m.mpool_info.current_height tx_height in
      let counted = m.mpool_info.num_tickets_since_stats_report + 1 in
      let m' = record m {
        mpool_info = record m.mpool_info {
          current_height = if new_block then tx_height else m.mpool_info.current_height;
          num_tickets_since_stats_report = counted;
        };
      } in
      let enough_new_tickets = not (ltb_ℤ (pos counted) m.new_ticket_limit) in
      let time_since_last = r.now_since_last -ℤ m.mpool_info.last_collect_time in
      let quite_long = ltb_ℤ m.max_interval time_since_last in
      let long_enough = not (ltb_ℤ time_since_last m.min_interval) in
      if new_block || quite_long || (enough_new_tickets && long_enough)
      then (if ltb_ℤ time_since_last (r.now_since_tx -ℤ r.new_tx.t)
          then (ok tt, m')
          else go_on (collect_and_store r m'))
      else (ok tt, m')

  -- Only a ticket purchase is counted, and only where the node gives the block count.
  unfoldable pub handle_tx :
      Round Float FeeInfo
      → Option TxType
      → Option ℕ
      → MempoolMonitor Float FeeInfo
      → Outcome CollectError (Unit {0}) × MempoolMonitor Float FeeInfo
  unfolding count_ticket
  handle_tx r (some ss_tx) (some best_block) m = count_ticket r (u32 best_block) m
  handle_tx r (some ss_tx) none m = (ok tt, m)
  handle_tx r (some regular) count m = (ok tt, m)
  handle_tx r (some ss_gen) count m = (ok tt, m)
  handle_tx r (some ss_rtx) count m = (ok tt, m)
  handle_tx r (some other) count m = (ok tt, m)
  handle_tx r none count m = (ok tt, m)

  unfoldable pub handle :
      Round Float FeeInfo
      → Option Hash
      → MempoolMonitor Float FeeInfo
      → Outcome CollectError (Unit {0}) × MempoolMonitor Float FeeInfo
  unfolding collect_and_store handle_tx
  handle r none m = go_on (collect_and_store r m)
  handle r (some h) m = handle_tx r r.tx_type r.block_count m

  -- TxHandler: it returns when the channel is closed or the context is done.
  unfoldable pub tx_handler :
      List (Event Float FeeInfo)
      → MempoolMonitor Float FeeInfo
      → Outcome CollectError (Unit {0}) × MempoolMonitor Float FeeInfo
  unfolding handle
  tx_handler [] m = (ok tt, m)
  tx_handler (received r ∷ rest) m = continue (handle r r.new_tx.hash m) (λ _. tx_handler rest)
  tx_handler (closed ∷ rest) m = (ok tt, m)
  tx_handler (quit ∷ rest) m = (ok tt, m)
