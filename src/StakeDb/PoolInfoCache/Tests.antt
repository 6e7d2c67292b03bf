-- ===== src/StakeDb/PoolInfoCache/Tests.antt =====
-- Concrete caches for the theorems on PoolInfoCache (v4/stakedb/stakedb.go).
use hc_data.StakeDb.Samples.{list_lane}
use hc_data.Base.{
  ℕ, ◌≡◌, refl, false, inr, List, [], ◌∷◌, none, some, arith, ◌==◌, if◌then◌else◌, drop,
}
use hc_data.Base.Int.{pos}
use hc_data.Base.Exec.{ok}
use hc_data.Base.HashSet.{Hash, contains}
use hc_data.StakeDb.PoolInfoCache.{PoolInfoCache, get, set}
use hc_data.StakeDb.PoolInfoCache.Bounded.{IsBounded, expires, set_correct, set_lost}

-- Two hashes at the capacity of three: the next one expires the oldest.
abbrev two_held : PoolInfoCache ℕ (List Hash)
two_held = record {
  pool_info = λ k. if 7 == k then some 70 else if 8 == k then some 80 else none;
  expire_queue = 7 ∷ 8 ∷ [];
  max_size = pos 3;
}

two_held-IsBounded : IsBounded list_lane two_held
unfolding contains get
two_held-IsBounded = record { queued = λ h info p. ground arith; room = inr refl }

set_correct_example :
    (c' : PoolInfoCache ℕ (List Hash)) × (set list_lane 9 90 two_held ≡ (ok tt, c'))
    × (c'.max_size ≡ pos 3)
    × (c'.expire_queue ≡ drop 1 (7 ∷ 8 ∷ 9 ∷ []))
    × ((k : Hash)
        → get list_lane k c' ≡ (
            if expires false (7 ∷ 8 ∷ 9 ∷ []) k
            then none
            else if 9 == k
            then some 90
            else get list_lane k two_held))
set_correct_example = set_correct list_lane 9 90 two_held

set_lost_example :
    (c' : PoolInfoCache ℕ (List Hash)) × (set list_lane 7 71 two_held ≡ (ok tt, c'))
    × (get list_lane 7 c' ≡ none)
set_lost_example = set_lost list_lane 7 71 two_held (8 ∷ []) refl refl
