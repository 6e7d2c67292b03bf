-- ===== src/StakeDb/LiveTickets/Tests.antt =====
-- Concrete caches for the theorems on the live ticket cache (v4/stakedb/stakedb.go).
use hc_data.Base.{◌≡◌, ◌≢◌, refl, true, false, [], ◌∷◌, none, some, arith, ◌==◌, if◌then◌else◌}
use hc_data.Base.Int.{ℤ, pos}
use hc_data.Base.HashSet.{Hash, contains}
use hc_data.Base.HashMap.{lookup}
use hc_data.StakeDb.DiffDb.{PoolDiff}
use hc_data.StakeDb.LiveTickets.{LiveTickets, Fetch, apply_diff, undo_diff}
use hc_data.StakeDb.LiveTickets.Summed.{IsSummed}
use hc_data.StakeDb.LiveTickets.Undo.{price, undo_diff-apply_diff}

-- The node knows the tickets 1 to 3.
abbrev three_known : Fetch
three_known h =
    if h == 1
    then some (1, pos 10)
    else if h == 2
    then some (2, pos 20)
    else if h == 3
    then some (3, pos 30)
    else none

abbrev two_cached : LiveTickets
two_cached = record { live_ticket_cache = (1, pos 10) ∷ (2, pos 20) ∷ []; pool_value = pos 30 }

abbrev next_block : PoolDiff
next_block = record { tickets_in = 3 ∷ []; tickets_out = 1 ∷ [] }

two_cached-IsSummed : IsSummed two_cached
unfolding lookup
two_cached-IsSummed = record { one_each = (refl, (refl, tt)); total = refl }

two_cached-priced :
    (k : Hash) (v : ℤ)
    → lookup k two_cached.live_ticket_cache ≡ some v
    → price (three_known k) ≡ some v
unfolding lookup
two_cached-priced k v h = ground arith

came_new : (k : Hash) → contains (3 ∷ []) k ≡ true → lookup k two_cached.live_ticket_cache ≡ none
unfolding lookup contains
came_new k h = ground arith

left_cached :
    (k : Hash)
    → contains (1 ∷ []) k ≡ true
    → contains (3 ∷ []) k ≡ false
    → lookup k two_cached.live_ticket_cache ≢ none
unfolding lookup contains
left_cached k h g = ground arith

undo_diff-apply_diff_example :
    ((k : Hash)
      → lookup k
          (undo_diff three_known next_block
            (apply_diff three_known next_block two_cached)).live_ticket_cache
        ≡ lookup k two_cached.live_ticket_cache)
    × ((undo_diff three_known next_block (apply_diff three_known next_block two_cached)).pool_value
        ≡ pos 30)
undo_diff-apply_diff_example =
    undo_diff-apply_diff three_known next_block two_cached two_cached-IsSummed two_cached-priced
      came_new left_cached

three_known-honest : (t tx_hash : Hash) (v : ℤ) → three_known t ≡ some (tx_hash, v) → tx_hash ≡ t
three_known-honest t tx_hash v h = ground arith
