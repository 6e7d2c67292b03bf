-- ===== src/Mempool/Cache.antt =====
-- MempoolDataCache of v4/mempool/mempoolcache.go. Floats and the fee info of the node are opaque, so the
-- average of GetTicketPriceCountTime is left out; times are Unix seconds. A method holds the cache's
-- lock, so it is one step.
mod Tests
pub mod Newest
use hc_data.Base.{ℕ, ◌-◌, Bool, ◌||◌, not, List, [], drop, length, if◌then◌else◌}
use hc_data.Base.Int.{ℤ, pos, pos_part, ltb_ℤ, beq_ℤ}

module _ (Float FeeInfo Details : Type 0) where
  -- MempoolData, with the parts of its fee infos that the cache keeps
  pub record MempoolData : Type 0 where
    pub height : ℕ
    pub num_tickets : ℕ
    pub fee_info : FeeInfo
    pub all_fees : List Float
    pub all_fee_rates : List Float
    pub lowest_mineable_fee : Float
    pub all_tickets_details : List Details
    pub stake_diff : Float

  pub record MempoolDataCache : Type 0 where
    pub height : ℕ
    pub timestamp : ℤ
    pub num_tickets : ℕ
    pub ticket_fee_info : FeeInfo
    pub all_fees : List Float
    pub all_fee_rates : List Float
    pub lowest_mineable_by_fee_rate : Float
    pub all_tickets_details : List Details
    pub stake_diff : Float

-- What GetFees, GetFeeRates and GetTicketsDetails copy: nothing for zero, everything for a negative number
-- or one that is not below the length, and else the end of the slice.
unfoldable pub newest : {A : Type 0} → ℤ → List A → List A
newest n all =
    if beq_ℤ n (pos 0)
    then []
    else if ltb_ℤ n (pos 0) || not (ltb_ℤ n (pos (length all)))
    then all
    else drop (length all - pos_part n) all

module _ {Float FeeInfo Details : Type 0} where
  -- StoreMPData
  unfoldable pub store_mp_data :
      MempoolData Float FeeInfo Details
      → ℤ
      → MempoolDataCache Float FeeInfo Details
      → MempoolDataCache Float FeeInfo Details
  store_mp_data data_ timestamp c = record {
    height = data_.height;
    timestamp = timestamp;
    num_tickets = data_.num_tickets;
    ticket_fee_info = data_.fee_info;
    all_fees = data_.all_fees;
    all_fee_rates = data_.all_fee_rates;
    lowest_mineable_by_fee_rate = data_.lowest_mineable_fee;
    all_tickets_details = data_.all_tickets_details;
    stake_diff = data_.stake_diff;
  }

  -- GetNumTickets
  unfoldable pub get_num_tickets : MempoolDataCache Float FeeInfo Details → ℕ × ℕ
  get_num_tickets c = (c.height, c.num_tickets)

  -- GetFeeInfo
  unfoldable pub get_fee_info : MempoolDataCache Float FeeInfo Details → ℕ × FeeInfo
  get_fee_info c = (c.height, c.ticket_fee_info)

  -- GetFees
  unfoldable pub get_fees : ℤ → MempoolDataCache Float FeeInfo Details → ℕ × ℕ × List Float
  unfolding newest
  get_fees n c = (c.height, length c.all_fees, newest n c.all_fees)

  -- GetFeeRates
  unfoldable pub get_fee_rates : ℤ → MempoolDataCache Float FeeInfo Details → ℕ × ℤ × ℕ × List Float
  unfolding newest
  get_fee_rates n c = (c.height, c.timestamp, length c.all_fee_rates, newest n c.all_fee_rates)

  -- GetTicketsDetails
  unfoldable pub get_tickets_details :
      ℤ → MempoolDataCache Float FeeInfo Details → ℕ × ℤ × ℕ × List Details
  unfolding newest
  get_tickets_details n c =
      (c.height, c.timestamp, length c.all_tickets_details, newest n c.all_tickets_details)
