-- ===== src/ApiCache.antt =====
-- The block cache of v4/api/types/apicache.go: the blocks it keeps, and the comparisons by which its
-- priority queue orders them. A hash string stands as a number, and so does a hash; of a block's summary
-- the model has the two fields that the cache reads. Accesses and times are not bounded here.
pub mod Heap
pub mod Queue
pub mod Store
pub mod Order
mod Tests
use hc_data.Base.{ℕ, ◌*◌, ◌/◌, ◌+◌, Bool, List, Option, ltb, ◌==◌, if◌then◌else◌}
use hc_data.Base.Int.{ℤ, pos, negsuc, pos_part, neg_part, ltb_ℤ, ◌-ℤ◌}
use hc_data.Base.HashSet.{Hash}

-- BlockDataBasic
pub record Summary : Type 0 where
  pub height : ℕ
  pub hash : ℕ

pub record CachedBlock : Type 0 where
  pub summary : Summary
  pub accesses : ℕ
  pub access_time : ℤ
  pub heap_idx : ℤ

-- newCachedBlock
unfoldable pub new_cached_block : Summary → CachedBlock
new_cached_block s = record { summary = s; accesses = 0; access_time = pos 0; heap_idx = negsuc 0 }

-- Access, at a reading of the clock
unfoldable pub access : ℤ → CachedBlock → CachedBlock
access now b = record b { accesses = b.accesses + 1; access_time = now }

abbrev pub Less : Type 0
Less = CachedBlock → CachedBlock → Bool

unfoldable pub less_by_height : Less
less_by_height a b = ltb a.summary.height b.summary.height

unfoldable pub less_by_access_count : Less
less_by_access_count a b = ltb a.accesses b.accesses

unfoldable pub less_by_access_time : Less
less_by_access_time a b = ltb_ℤ a.access_time b.access_time

unfoldable pub less_by_access_count_then_height : Less
unfolding less_by_height less_by_access_count
less_by_access_count_then_height a b =
    if a.accesses == b.accesses then less_by_height a b else less_by_access_count a b

-- The size of an integer
abbrev pub abs : ℤ → ℕ
abs a = pos_part a + neg_part a

-- MakeLessByAccessTimeThenCount, for a number of milliseconds that is positive: the quotient that Go
-- rounds towards zero is zero where that of the sizes is.
unfoldable pub make_less_by_access_time_then_count : ℕ → Less
unfolding less_by_access_count less_by_access_time
make_less_by_access_time_then_count milliseconds_binned a b =
    let threshold = milliseconds_binned * 1000000 in
    if abs (a.access_time -ℤ b.access_time) / threshold == 0
    then less_by_access_count a b
    else less_by_access_time a b
