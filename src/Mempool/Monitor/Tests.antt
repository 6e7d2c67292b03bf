-- ===== src/Mempool/Monitor/Tests.antt =====
-- The monitor (v4/mempool/mempool.go) with one saver, five tickets counted, and a ticket at a new height.
use hc_data.Base.{ℕ, ◌+◌, ◌≡◌, refl, [], ◌∷◌, Option, none, some}
use hc_data.Base.Int.{pos, negsuc}
use hc_data.Base.Exec.{Outcome, ok, err}
use hc_data.Base.HashSet.{Hash}
use hc_data.Mempool.Collector.{MempoolData, CollectError, votes_failed}
use hc_data.Mempool.Monitor.{
  MempoolMonitor, Round, Event, received, closed, quit, ss_tx, tx_handler,
}
use hc_data.Mempool.Monitor.Reported.{
  Counts, reported, tx_handler-Counts, failed_collection_loses_tickets,
}

abbrev found : MempoolData ℕ ℕ
found = record {
  height = 8;
  num_tickets = 3;
  num_votes = 5;
  new_tickets = 0;
  ticket_fees = 3;
  minable_fees = record {
    all_fees = [];
    all_fee_rates = [];
    lowest_mineable_idx = negsuc 0;
    lowest_mineable_fee = 0;
    target_fee_window = [];
  };
  all_tickets_details = [];
  stake_diff = 20;
}

abbrev at_seven : MempoolMonitor ℕ ℕ
at_seven = record {
  mpool_info = record {
    current_height = 7;
    num_ticket_purchases_in_mempool = 0;
    num_tickets_since_stats_report = 5;
    last_collect_time = pos 100;
  };
  new_ticket_limit = pos 10;
  min_interval = pos 4;
  max_interval = pos 60;
  data_savers = none ∷ some 1 ∷ [];
  saved = [];
}

abbrev round_of :
    Option Hash → Outcome CollectError (MempoolData ℕ ℕ × Option CollectError) → Round ℕ ℕ
round_of hash collected = record {
  new_tx = record { hash = hash; t = pos 109 };
  tx_type = some ss_tx;
  block_count = some 8;
  now_since_last = pos 110;
  now_since_tx = pos 110;
  now_collect = pos 111;
  now_store = pos 112;
  collected = collected;
}

abbrev ticket : Event ℕ ℕ
ticket = received (round_of (some 40) (ok (found, none)))

tx_handler-Counts_example :
    (m : MempoolMonitor ℕ ℕ) × (tx_handler (λ n. n) (ticket ∷ quit ∷ ticket ∷ []) at_seven
      ≡ (ok tt, m))
    × Counts 1 1 at_seven m
tx_handler-Counts_example =
    tx_handler-Counts (λ n. n) 1 (ticket ∷ quit ∷ ticket ∷ []) at_seven (tt, tt) refl

failed_collection_loses_tickets_example :
    (m : MempoolMonitor ℕ ℕ) × (tx_handler
        (λ n. n)
        (received (round_of none (err votes_failed)) ∷ ticket ∷ closed ∷ [])
        at_seven
      ≡ (ok tt, m))
    × (m.mpool_info.num_tickets_since_stats_report + reported 1 m.saved ≡ 1)
failed_collection_loses_tickets_example =
    failed_collection_loses_tickets (λ n. n) 1 (round_of none (err votes_failed)) votes_failed
      (ticket ∷ closed ∷ []) at_seven refl refl (tt, tt) refl
