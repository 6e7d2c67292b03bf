-- ===== src/Mempool/Cache/Tests.antt =====
-- Tests of the theorems on MempoolDataCache (v4/mempool/mempoolcache.go), with numbers for floats.
use hc_data.Base.{ℕ, [], ◌∷◌}
use hc_data.Base.Int.{pos}
use hc_data.Mempool.Cache.{MempoolData, MempoolDataCache}

abbrev three_fees : MempoolData ℕ ℕ ℕ
three_fees = record {
  height = 5;
  num_tickets = 3;
  fee_info = 0;
  all_fees = 1 ∷ 2 ∷ 3 ∷ [];
  all_fee_rates = 4 ∷ 5 ∷ 6 ∷ [];
  lowest_mineable_fee = 1;
  all_tickets_details = 7 ∷ 8 ∷ 9 ∷ [];
  stake_diff = 2;
}

abbrev empty_cache : MempoolDataCache ℕ ℕ ℕ
empty_cache = record {
  height = 0;
  timestamp = pos 0;
  num_tickets = 0;
  ticket_fee_info = 0;
  all_fees = [];
  all_fee_rates = [];
  lowest_mineable_by_fee_rate = 0;
  all_tickets_details = [];
  stake_diff = 0;
}
