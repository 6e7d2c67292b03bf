-- ===== src/StakeDb/TicketPool/Tests.antt =====
-- Tests of the theorems on v4/stakedb/ticketpool.go at concrete pools.
use hc_data.StakeDb.Samples.{
  list_db, first_diff, second_diff, third_diff, two_items, at_one, at_one-IsValid,
}
use hc_data.Base.Exec.{ok, panic}
use hc_data.StakeDb.TicketPool.Walk.{pool_at_correct}
use hc_data.StakeDb.TicketPool.Trim.{Trimmed, trim_correct}
use hc_data.StakeDb.TicketPool.Disk.{append_diff, new_ticket_pool}
use hc_data.StakeDb.TicketPool.Persist.{IsStored, new_ticket_pool-IsStored, lost_write_panics}
use hc_data.Base.{ℕ, ◌-◌, ◌≡◌, refl, List, [], ◌∷◌, arith, take}
use hc_data.Base.Int.{pos}
use hc_data.Base.HashSet.{Hash, contains, IsDistinct}
use hc_data.StakeDb.DiffDb.{PoolDiff, upsert}
use hc_data.StakeDb.TicketPool.{trim, pool_at, TicketPool, append}
use hc_data.StakeDb.TicketPool.Step.{live_at, MovedTo, IsReplayed, IsValid}

at_one-IsReplayed : IsReplayed at_one
at_one-IsReplayed = at_one-IsValid.replayed

at_one-IsStored : IsStored (list_db 0) at_one (first_diff ∷ second_diff ∷ [])
at_one-IsStored = record { on_disk = refl; first = refl; reach = omega arith }

abbrev three_items : List (ℕ × PoolDiff)
three_items = (1, first_diff) ∷ (2, second_diff) ∷ (3, third_diff) ∷ []

pool_at_correct_example :
    (tp' : TicketPool (List (ℕ × PoolDiff))) × (pool_at (pos 2) at_one ≡ (ok tp'.pool, tp'))
    × IsValid tp'
    × MovedTo 2 at_one tp'
    × IsDistinct tp'.pool
    × ((h : Hash) → contains tp'.pool h ≡ live_at 2 at_one.diffs h)
pool_at_correct_example = pool_at_correct 2 at_one at_one-IsValid (omega arith)

trim_correct_example :
    (d : PoolDiff) × (tp' : TicketPool (List (ℕ × PoolDiff))) × (trim at_one
      ≡ (ok (at_one.tip - 1, d), tp'))
    × Trimmed at_one d tp'
trim_correct_example = trim_correct at_one at_one-IsValid (omega arith)

new_ticket_pool-IsStored_example :
    (new_ticket_pool (list_db 0) two_items
      ≡ ok (record {
        cursor = 0;
        tip = 2;
        diffs = first_diff ∷ second_diff ∷ [];
        pool = [];
        diff_db = two_items;
      }))
    × (take 2 (first_diff ∷ second_diff ∷ []) ≡ at_one.diffs)
new_ticket_pool-IsStored_example =
    new_ticket_pool-IsStored (list_db 0) at_one (first_diff ∷ second_diff ∷ []) at_one-IsStored refl

abbrev with_gap : List (ℕ × PoolDiff)
with_gap = (1, first_diff) ∷ (2, second_diff) ∷ (4, third_diff) ∷ []

lost_write_panics_example :
    (append_diff
        (list_db 3)
        third_diff
        (pos 4)
        (append_diff (list_db 3) third_diff (pos 3) at_one).1
      ≡ (ok tt, record (append third_diff (append third_diff at_one)) { diff_db = with_gap }))
    × (new_ticket_pool (list_db 3) with_gap ≡ panic)
lost_write_panics_example =
    lost_write_panics (list_db 3) third_diff third_diff at_one with_gap refl refl refl
      (unfold upsert in refl) refl
