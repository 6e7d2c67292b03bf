-- ===== src/Mempool/Collector.antt =====
-- Collect of mempoolDataCollector (v4/mempool/mempool.go). The node's answers are an argument; floats, with
-- their zero and the fee rate of a fee and a size, are opaque, and sort.Sort is an argument too. The map of
-- the node's tickets comes as the list in which it is walked.
mod Tests
pub mod Window
use hc_data.Base.{
  ℕ, zero, suc, ◌+◌, ◌-◌, ◌%◌, ◌^◌, Bool, List, [], ◌∷◌, map, Option, none, some, ltb, leb, not,
  ◌==◌, if◌then◌else◌, length, get_elem?, take, drop,
}
use hc_data.Base.Int.{ℤ, pos, negsuc, pos_part}
use hc_data.Base.Exec.{Outcome, ok, err, panic, out_of_fuel}
use hc_data.Base.HashSet.{Hash}

-- uint32
abbrev pub u32 : ℕ → ℕ
u32 n = n % 2 ^ 32

pub data CollectError : Type 0 where
  tickets_failed votes_failed difficulty_failed fee_info_failed block_count_failed : CollectError

-- A slice `fees[low:high]`; bounds that do not fit panic (`none`).
abbrev pub slice : {A : Type 0} → List A → ℕ → ℕ → Option (List A)
slice all low high =
    if leb low high
    then (if leb high (length all) then some (take (high - low) (drop low all)) else none)
    else none

module _ (Float FeeInfo : Type 0) where
  -- An entry of GetRawMempoolVerbose
  pub record RawTicket : Type 0 where
    pub hash : Hash
    pub fee : Float
    pub size : ℕ
    pub height : ℕ

  pub record TicketDetails : Type 0 where
    pub hash : Hash
    pub fee : Float
    pub fee_rate : Float
    pub size : ℕ
    pub height : ℕ

  pub record MinableFeeInfo : Type 0 where
    pub all_fees : List Float
    pub all_fee_rates : List Float
    pub lowest_mineable_idx : ℤ
    pub lowest_mineable_fee : Float
    pub target_fee_window : List Float

  pub record MempoolData : Type 0 where
    pub height : ℕ
    pub num_tickets : ℕ
    pub num_votes : ℕ
    pub new_tickets : ℕ
    pub ticket_fees : FeeInfo
    pub minable_fees : MinableFeeInfo
    pub all_tickets_details : List TicketDetails
    pub stake_diff : Float

  -- The node's answers, in the order in which they are asked for; `none` is an error.
  pub record Answers : Type 0 where
    pub tickets : Option (List RawTicket)
    pub num_votes : Option ℕ
    pub stake_diff : Option Float
    pub fee_info : Option FeeInfo
    pub block_count : Option ℕ

-- Where the lowest fee rate stands that would be mined: -1 without tickets
unfoldable pub lowest_mineable_idx : ℕ → ℕ → ℤ
lowest_mineable_idx n n_max =
    if leb n_max n then pos (n - n_max) else if n == 0 then negsuc 0 else pos 0

-- The bounds of the window around an index, five to each side
abbrev pub fee_rad : ℕ
fee_rad = 5

unfoldable pub low_end : ℕ → ℕ
low_end idx = if ltb idx fee_rad then 0 else idx - fee_rad

unfoldable pub high_end : ℕ → ℕ → ℕ
high_end n idx = if ltb n (idx + fee_rad + 1) then n else idx + fee_rad + 1

module _ {Float FeeInfo : Type 0} (zero_coin : Float) (rate : Float → ℕ → Float)
    (sort_by : (TicketDetails Float FeeInfo → Float)
      → List (TicketDetails Float FeeInfo)
      → List (TicketDetails Float FeeInfo))
    (fee_number : FeeInfo → ℕ) where
  abbrev pub details : RawTicket Float FeeInfo → TicketDetails Float FeeInfo
  details t = record {
    hash = t.hash;
    fee = t.fee;
    fee_rate = rate t.fee t.size;
    size = t.size;
    height = t.height;
  }

  abbrev pub is_negative : ℤ → Bool
  is_negative (pos n) = Bool.false
  is_negative (negsuc n) = Bool.true

  -- The fee rate at the index; without a valid index, the variable keeps its zero.
  unfoldable pub lowest_mineable_fee : List Float → ℤ → Option Float
  lowest_mineable_fee rates (pos idx) = get_elem? rates idx
  lowest_mineable_fee rates (negsuc n) = some zero_coin

  -- `if N > 0`: the slice of fee rates about the index
  unfoldable pub fee_window : ℕ → ℤ → List Float → Option (List Float)
  unfolding low_end high_end
  fee_window n idx rates =
      if n == 0 then some [] else slice rates (low_end (pos_part idx)) (high_end n (pos_part idx))

  abbrev pub with_window :
      List Float
      → List Float
      → ℤ
      → Option Float
      → Option (List Float)
      → Option (MinableFeeInfo Float FeeInfo)
  with_window fees rates idx none window = none
  with_window fees rates idx (some fee) none = none
  with_window fees rates idx (some fee) (some window) = some (record {
    all_fees = fees;
    all_fee_rates = rates;
    lowest_mineable_idx = idx;
    lowest_mineable_fee = fee;
    target_fee_window = window;
  })

  -- What Collect makes of the n tickets, sorted twice; an index out of range panics.
  unfoldable pub minable_fees :
      ℕ
      → ℕ
      → List (TicketDetails Float FeeInfo)
      → List (TicketDetails Float FeeInfo)
      → Option (MinableFeeInfo Float FeeInfo)
  unfolding lowest_mineable_idx lowest_mineable_fee fee_window
  minable_fees n n_max by_fee by_rate =
      let rates = map (λ t. t.fee_rate) by_rate in
      let idx = lowest_mineable_idx n n_max in
      with_window (map (λ t. t.fee) by_fee) rates idx (lowest_mineable_fee rates idx)
        (fee_window n idx rates)

  abbrev pub height_or_zero : Option ℕ → ℕ
  height_or_zero none = 0
  height_or_zero (some h) = u32 h

  abbrev pub failed_with : Option ℕ → Option CollectError
  failed_with none = some block_count_failed
  failed_with (some h) = none

  abbrev pub with_fees :
      {A : Type 0}
      → Option (MinableFeeInfo Float FeeInfo)
      → (MinableFeeInfo Float FeeInfo → A)
      → Outcome CollectError A
  with_fees none f = panic
  with_fees (some m) f = ok (f m)

  abbrev pub asked :
      {A B : Type 0}
      → Option A
      → CollectError
      → (A → Outcome CollectError B)
      → Outcome CollectError B
  asked none e f = err e
  asked (some a) e f = f a

  -- Collect, for MaxFreshStakePerBlock. Where only the last answer, the block count, is an error, it is
  -- returned beside the data.
  unfoldable pub collect :
      ℕ
      → Answers Float FeeInfo
      → Outcome CollectError (MempoolData Float FeeInfo × Option CollectError)
  unfolding minable_fees
  collect n_max a = asked a.tickets tickets_failed λ tickets.
      asked a.num_votes votes_failed λ votes. asked a.stake_diff difficulty_failed λ diff.
        asked a.fee_info fee_info_failed λ info.
          let by_fee = sort_by (λ t. t.fee) (map details tickets) in
          let by_rate = sort_by (λ t. t.fee_rate) by_fee in
          with_fees (minable_fees (length tickets) n_max by_fee by_rate) λ fees. (
            record {
              height = height_or_zero a.block_count;
              num_tickets = fee_number info;
              num_votes = u32 votes;
              new_tickets = 0;
              ticket_fees = info;
              minable_fees = fees;
              all_tickets_details = by_rate;
              stake_diff = diff;
            },
            failed_with a.block_count,
          )
