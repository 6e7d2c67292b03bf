-- ===== src/Mempool/Collector/Tests.antt =====
-- Collect (v4/mempool/mempool.go) with three tickets, of which two can be mined; floats are numbers here, and
-- the tickets come with rising fees.
use hc_data.Base.{
  ℕ, zero, suc, get_elem?, ◌<◌, ◌+◌, ◌≡◌, refl, List, [], ◌∷◌, map, some, none, arith, ltb, length,
}
use hc_data.Base.Int.{pos, negsuc}
use hc_data.Base.Exec.{ok}
use hc_data.Mempool.Collector.{
  RawTicket, TicketDetails, MempoolData, Answers, collect, minable_fees,
}
use hc_data.Mempool.Collector.Window.{IsWindow, IsAscending, collect_correct}

abbrev ticket : ℕ → RawTicket ℕ ℕ
ticket n = record { hash = n; fee = n; size = 300; height = 7 }

abbrev unsorted : (TicketDetails ℕ ℕ → ℕ) → List (TicketDetails ℕ ℕ) → List (TicketDetails ℕ ℕ)
unsorted key xs = xs

abbrev answers : Answers ℕ ℕ
answers = record {
  tickets = some (ticket 1 ∷ ticket 2 ∷ ticket 3 ∷ []);
  num_votes = some 5;
  stake_diff = some 20;
  fee_info = some 3;
  block_count = some 7;
}

three_tickets :
    minable_fees 0
      (λ fee size. fee)
      unsorted
      (λ info. info)
      3
      2
      []
      (map
        (λ (n : ℕ). record { hash = n; fee = n; fee_rate = n; size = 300; height = 7 })
        (1 ∷ 2 ∷ 3 ∷ []))
    ≡ some (record {
      all_fees = [];
      all_fee_rates = 1 ∷ 2 ∷ 3 ∷ [];
      lowest_mineable_idx = pos 1;
      lowest_mineable_fee = 2;
      target_fee_window = 1 ∷ 2 ∷ 3 ∷ [];
    })
unfolding minable_fees
three_tickets = refl

one_more : (j b : ℕ) → get_elem? (1 ∷ 2 ∷ 3 ∷ []) j ≡ some b → b ≡ j + 1
one_more zero b e = ground arith
one_more (suc zero) b e = ground arith
one_more (suc (suc zero)) b e = ground arith
one_more (suc (suc (suc j))) b e = ground arith

rising : IsAscending ltb (1 ∷ 2 ∷ 3 ∷ [])
rising i j a b h p q = ground (arith, one_more i a p, one_more j b q)

collect_correct_example :
    (data_ : MempoolData ℕ ℕ) × (collect 0 (λ fee size. fee) unsorted (λ info. info) 2 answers
      ≡ ok (data_, none))
    × (length data_.all_tickets_details ≡ 3)
    × (◌≡◌ {A = ℕ} 3 0
        → (data_.minable_fees.lowest_mineable_idx ≡ negsuc 0)
          × (data_.minable_fees.lowest_mineable_fee ≡ 0)
          × (data_.minable_fees.target_fee_window ≡ []))
    × (0 < 3 → IsWindow ltb (map (λ t. t.fee_rate) data_.all_tickets_details) 2 data_.minable_fees)
collect_correct_example =
    collect_correct 0 (λ fee size. fee) unsorted (λ info. info) ltb 2
      (ticket 1 ∷ ticket 2 ∷ ticket 3 ∷ []) 5 20 3 (some 7) (λ key xs. refl) rising (omega arith)
