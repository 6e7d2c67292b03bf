-- ===== src/Mempool/Collector/Window.antt =====
-- The fees that Collect (v4/mempool/mempool.go) gives: the lowest that would be mined, and those about it.
use Prim.Native.Nat.{min}
use hc_data.Base.{
  ℕ, zero, suc, ◌+◌, ◌-◌, ◌<◌, ◌≤◌, ◌≡◌, refl, sym, ap, ◌∙◌, Bool, true, false, List, [], ◌∷◌, map,
  Option, some, leb, ◌==◌, length, get_elem?, take, drop, arith, length-map, length-take,
  length-drop, get_elem?-lt, get_elem?-take, Bool-cases, inl, inr,
}
use hc_data.Base.Int.{pos, negsuc}
use hc_data.Base.Exec.{ok}
use hc_data.Mempool.Collector.{
  RawTicket, TicketDetails, MinableFeeInfo, MempoolData, slice, fee_rad, lowest_mineable_idx,
  low_end, high_end, lowest_mineable_fee, fee_window, minable_fees, details, failed_with, collect,
  height_or_zero, u32,
}

-- A slice within the length is what stands between its bounds.
pub slice-ok :
    {A : Type 0} (all : List A) (low high : ℕ)
    → low ≤ high
    → high ≤ length all
    → slice all low high ≡ some (take (high - low) (drop low all))
slice-ok all low high h k =
    let ordered : leb low high ≡ true = ground arith in
    let inside : leb high (length all) ≡ true = ground arith in rw (ordered, inside) refl

get_elem?-drop :
    {A : Type 0} (n i : ℕ) (xs : List A) → get_elem? (drop n xs) i ≡ get_elem? xs (n + i)
get_elem?-drop zero i xs = let e : 0 + i ≡ i = omega arith in rw e refl
get_elem?-drop (suc n) i [] = refl
get_elem?-drop (suc n) i (x ∷ xs) =
    let e : suc n + i ≡ suc (n + i) = omega arith in rw e (get_elem?-drop n i xs)

-- With tickets, the index is within them, and as many are at it or above as can be mined.
pub lowest_mineable_idx_bounds :
    (n n_max : ℕ)
    → 0 < n
    → 0 < n_max
    → (idx : ℕ) × (lowest_mineable_idx n n_max ≡ pos idx) × (idx + min n n_max ≡ n)
unfolding lowest_mineable_idx
lowest_mineable_idx_bounds n n_max h k = elim (Bool-cases (leb n_max n)) [
  | inl more ↦ (n - n_max, rw more refl, ground arith)
  | inr fewer ↦ (0, ground arith, ground arith)
]

window_bounds :
    (n idx : ℕ)
    → idx < n
    → (low_end idx ≤ idx)
      × (idx < high_end n idx)
      × (high_end n idx ≤ n)
      × (high_end n idx ≤ low_end idx + fee_rad + fee_rad + 1)
      × (idx ≤ low_end idx + fee_rad)
unfolding low_end high_end
window_bounds n idx h = ground arith

window_covers :
    (n idx j size : ℕ)
    → idx < n
    → size ≡ high_end n idx - low_end idx
    → j < n
    → idx ≤ j + 5
    → j ≤ idx + 5
    → (low_end idx ≤ j) × (j < low_end idx + size)
unfolding low_end high_end
window_covers n idx j size h e k p q = ground arith

module _ {Float : Type 0} (less : Float → Float → Bool) where
  -- Sorted fee rates, the lowest of the `n_max` last ones that would be mined, and the rates up to five
  -- places from it
  pub record IsWindow {FeeInfo : Type 0} (rates : List Float) (n_max : ℕ)
      (m : MinableFeeInfo Float FeeInfo) : Type 0 where
    pub idx : ℕ
    pub low : ℕ
    pub at : m.lowest_mineable_idx ≡ pos idx
    pub mined : idx + min (length rates) n_max ≡ length rates
    pub fee : get_elem? rates idx ≡ some m.lowest_mineable_fee
    pub from_idx :
        (j : ℕ) (a : Float)
        → idx ≤ j
        → get_elem? rates j ≡ some a
        → less a m.lowest_mineable_fee ≡ false
    pub up_to_idx :
        (j : ℕ) (a : Float)
        → j ≤ idx
        → get_elem? rates j ≡ some a
        → less m.lowest_mineable_fee a ≡ false
    pub size : length m.target_fee_window ≤ 11
    pub covers :
        (j : ℕ)
        → j < length rates
        → idx ≤ j + 5
        → j ≤ idx + 5
        → (low ≤ j) × (j < low + length m.target_fee_window)
    pub entry :
        (j : ℕ)
        → j < length m.target_fee_window
        → get_elem? m.target_fee_window j ≡ get_elem? rates (low + j)

  -- Rates that are sorted: none is less than one before it.
  abbrev pub IsAscending : List Float → Type 0
  IsAscending rates =
      (i j : ℕ) (a b : Float)
      → i ≤ j
      → get_elem? rates i ≡ some a
      → get_elem? rates j ≡ some b
      → less b a ≡ false

module _ {Float FeeInfo : Type 0} (zero_coin : Float) (rate : Float → ℕ → Float)
    (sort_by : (TicketDetails Float FeeInfo → Float)
      → List (TicketDetails Float FeeInfo)
      → List (TicketDetails Float FeeInfo))
    (fee_number : FeeInfo → ℕ) (less : Float → Float → Bool) where
  minable_fees-IsWindow :
      (n_max : ℕ) (by_fee by_rate : List (TicketDetails Float FeeInfo))
      → 0 < n_max
      → 0 < length by_rate
      → IsAscending less (map (λ t. t.fee_rate) by_rate)
      → (m : MinableFeeInfo Float FeeInfo) × (minable_fees zero_coin rate sort_by fee_number
            (length by_rate)
            n_max
            by_fee
            by_rate
          ≡ some m)
        × IsWindow less (map (λ t. t.fee_rate) by_rate) n_max m
  unfolding minable_fees lowest_mineable_fee fee_window
  minable_fees-IsWindow n_max by_fee by_rate h k sorted =
      let rates : List Float = map (λ t. t.fee_rate) by_rate in
      let n : length rates ≡ length by_rate = length-map (λ t. t.fee_rate) by_rate in
      let (idx, at, mined) = lowest_mineable_idx_bounds (length by_rate) n_max k h in
      let inside : idx < length by_rate = ground arith in
      let (fee, there) = get_elem?-lt rates idx (omega (arith, n)) in
      let (low_le, lt_high, high_le, short, near) = window_bounds (length by_rate) idx inside in
      let some_tickets : (length by_rate == 0) ≡ false = ground arith in
      let low = low_end idx in
      let high = high_end (length by_rate) idx in
      let window : List Float = take (high - low) (drop low rates) in
      let cut = slice-ok rates low high (omega arith) (omega (arith, n)) in
      let m : MinableFeeInfo Float FeeInfo = record {
        all_fees = map (λ t. t.fee) by_fee;
        all_fee_rates = rates;
        lowest_mineable_idx = pos idx;
        lowest_mineable_fee = fee;
        target_fee_window = window;
      } in
      let size : length window ≡ high - low =
        length-take (high - low) (drop low rates) ∙ omega (arith, length-drop low rates, n) in
      (
        m,
        rw (at, there, some_tickets, cut) refl,
        record {
          idx = idx;
          low = low;
          at = refl;
          mined = omega (arith, n, mined);
          fee = there;
          from_idx = λ j a p e. sorted idx j fee a p there e;
          up_to_idx = λ j a p e. sorted j idx a fee p e there;
          size = omega (arith, size);
          covers = λ j p q r.
              window_covers (length by_rate) idx j (length window) inside size (omega (arith, n)) q
                r;
          entry = λ j p.
              get_elem?-take (high - low) (drop low rates) j (omega (arith, size))
              ∙ get_elem?-drop low j rates;
        },
      )

  minable_fees-cases :
      (n_max n : ℕ) (by_fee by_rate : List (TicketDetails Float FeeInfo))
      → length by_rate ≡ n
      → 0 < n_max
      → IsAscending less (map (λ t. t.fee_rate) by_rate)
      → (m : MinableFeeInfo Float FeeInfo) × (minable_fees zero_coin rate sort_by fee_number n n_max
            by_fee by_rate
          ≡ some m)
        × (n ≡ 0
            → (m.lowest_mineable_idx ≡ negsuc 0)
              × (m.lowest_mineable_fee ≡ zero_coin)
              × (m.target_fee_window ≡ []))
        × (0 < n → IsWindow less (map (λ t. t.fee_rate) by_rate) n_max m)
  unfolding minable_fees lowest_mineable_idx lowest_mineable_fee fee_window
  minable_fees-cases n_max zero by_fee by_rate e h sorted =
      let no_mining : leb n_max 0 ≡ false = ground arith in
      (
        record {
          all_fees = map (λ t. t.fee) by_fee;
          all_fee_rates = map (λ t. t.fee_rate) by_rate;
          lowest_mineable_idx = negsuc 0;
          lowest_mineable_fee = zero_coin;
          target_fee_window = [];
        },
        rw no_mining refl,
        λ _. (refl, refl, refl),
        λ p. absurd (omega arith),
      )
  minable_fees-cases n_max (suc n) by_fee by_rate e h sorted =
      let (m, run, w) = minable_fees-IsWindow n_max by_fee by_rate h (omega arith) sorted in
      (
        m,
        ap (λ k. minable_fees zero_coin rate sort_by fee_number k n_max by_fee by_rate) (sym e)
            ∙ run,
        λ p. absurd (omega arith),
        λ _. w,
      )

  abbrev pub as_details : List (RawTicket Float FeeInfo) → List (TicketDetails Float FeeInfo)
  as_details tickets = map (details zero_coin rate sort_by fee_number) tickets

  -- Collect on answers of the node, of which only the last may be an error, where sorting keeps the number
  -- of entries and leaves no fee rate behind a greater one, and a block can take a new ticket: it does not
  -- panic.
  -- Without tickets there is no index and no fee; with tickets, the index is that of the lowest fee rate
  -- among as many as a block can take, and the window holds the rates up to five places from it, 11 at
  -- most. An error of the last answer is returned beside the data.
  pub collect_correct :
      (n_max : ℕ) (tickets : List (RawTicket Float FeeInfo)) (votes : ℕ) (diff : Float)
      (info : FeeInfo) (count : Option ℕ)
      → ((key : TicketDetails Float FeeInfo → Float) (xs : List (TicketDetails Float FeeInfo))
          → length (sort_by key xs) ≡ length xs)
      → IsAscending less (
          map
            (λ t. t.fee_rate)
            (sort_by (λ t. t.fee_rate) (sort_by (λ t. t.fee) (as_details tickets))))
      → 0 < n_max
      → (data_ : MempoolData Float FeeInfo) × (collect zero_coin rate sort_by fee_number n_max
            (record {
              tickets = some tickets;
              num_votes = some votes;
              stake_diff = some diff;
              fee_info = some info;
              block_count = count;
            })
          ≡ ok (data_, failed_with zero_coin rate sort_by fee_number count))
        × (length data_.all_tickets_details ≡ length tickets)
        × (length tickets ≡ 0
            → (data_.minable_fees.lowest_mineable_idx ≡ negsuc 0)
              × (data_.minable_fees.lowest_mineable_fee ≡ zero_coin)
              × (data_.minable_fees.target_fee_window ≡ []))
        × (0 < length tickets
            → IsWindow less
                (map (λ t. t.fee_rate) data_.all_tickets_details)
                n_max
                data_.minable_fees)
  unfolding collect
  collect_correct n_max tickets votes diff info count same_length ascending h =
      let by_fee = sort_by (λ t. t.fee) (as_details tickets) in
      let by_rate = sort_by (λ t. t.fee_rate) by_fee in
      let n : length by_rate ≡ length tickets =
        same_length (λ t. t.fee_rate) by_fee
        ∙ same_length (λ t. t.fee) (as_details tickets)
        ∙ length-map (details zero_coin rate sort_by fee_number) tickets in
      let (m, run, empty, full) =
        minable_fees-cases n_max (length tickets) by_fee by_rate n h ascending in
      (
        record {
          height = height_or_zero zero_coin rate sort_by fee_number count;
          num_tickets = fee_number info;
          num_votes = u32 votes;
          new_tickets = 0;
          ticket_fees = info;
          minable_fees = m;
          all_tickets_details = by_rate;
          stake_diff = diff;
        },
        rw run refl,
        n,
        empty,
        full,
      )
