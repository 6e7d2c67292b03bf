-- ===== src/ApiCache/Tests.antt =====
-- Runs of the cache of v4/api/types/apicache.go at concrete inputs.
use hc_data.Base.{arith, map, ℕ, zero, suc, ◌≡◌, refl, Bool, [], ◌∷◌, Option, none, some, ◌+◌}
use hc_data.Base.Int.{pos, negsuc}
use hc_data.Base.HashSet.{Hash}
use hc_data.Base.HashMap
use hc_data.ApiCache.Heap
use hc_data.ApiCache.Heap.{Heap}
use hc_data.ApiCache.Heap.Kept.Ends.{IsRemoved}
use hc_data.ApiCache.{make_less_by_access_time_then_count, Summary, CachedBlock, less_by_height}
use hc_data.ApiCache.Queue.{remove_index, insert, Clock, BlockPriorityQueue}
use hc_data.ApiCache.Queue.Moved.{IsOrderly}
use hc_data.ApiCache.Queue.Inserted.{Inserted, insert_correct, remove_index_correct}
use hc_data.ApiCache.Store.{
  get_cached_block, remove_cached_block, place_hash, Call, done, panicked, blocked, ApiCache,
  new_api_cache, set_less_fn, store_block_summary, get_cached_block_by_height,
}
use hc_data.ApiCache.Store.InStep.{IsInStep}
use hc_data.ApiCache.Store.Reached.{AfterCalls, created, stored, less_set, reached-IsInStep}
use hc_data.ApiCache.Store.Lost.{remove_cached_block_idle, height_out_of_range_blocks}
use hc_data.ApiCache.Order.{IsStrictWeakOrder, binned_not_IsStrictWeakOrder}

-- Strings that are all hashes but for one
abbrev parse : ℕ → Option Hash
parse zero = none
parse (suc n) = some (suc n)

abbrev clock : Clock
clock n = pos (100 + n)

abbrev summary : ℕ → Summary
summary h = record { height = h; hash = suc h }

-- What a call returned, or the cache before it
abbrev after : ApiCache → Call ApiCache → ApiCache
after c (done d) = d
after c panicked = c
after c blocked = c

abbrev by_height : ApiCache
by_height = after (new_api_cache 2) (set_less_fn less_by_height (new_api_cache 2))

abbrev add : ℕ → ApiCache → ApiCache
add h c = after c (store_block_summary parse clock (summary h) c)

-- A cache for two blocks, after three
abbrev one_stored : ApiCache
one_stored = add 5 by_height

abbrev two_stored : ApiCache
two_stored = add 3 one_stored

abbrev three_stored : ApiCache
three_stored = add 4 two_stored

two_reached : AfterCalls parse (λ h. h) 2 two_stored
unfolding HashMap.insert HashMap.lookup Heap.less_at Heap.swap less_by_height new_api_cache
    set_less_fn store_block_summary place_hash
two_reached =
    stored clock (summary 3) one_stored two_stored
      (stored clock (summary 5) by_height one_stored
        (less_set less_by_height (new_api_cache 2) by_height created refl) refl)
      refl

two_stored-IsInStep : IsInStep parse two_stored
two_stored-IsInStep = reached-IsInStep parse (λ h. h) 2 two_stored two_reached

-- The third block takes the place of the lower one of the first two.
three_heights : map (λ b. b.summary.height) three_stored.expire_queue.bh ≡ 4 ∷ 5 ∷ []
unfolding HashMap.insert HashMap.lookup Heap.less_at Heap.swap less_by_height new_api_cache
    set_less_fn store_block_summary place_hash Heap.least_child
three_heights = refl

reached-IsInStep_example : IsInStep parse two_stored
reached-IsInStep_example = reached-IsInStep parse (λ h. h) 2 two_stored two_reached

insert_correct_example :
    (r : BlockPriorityQueue × Bool × Option Hash) × (insert parse clock
        (summary 4)
        two_stored.expire_queue
      ≡ some r)
    × Inserted parse (clock 0) (summary 4) two_stored.expire_queue r
insert_correct_example =
    insert_correct parse clock (summary 4) two_stored.expire_queue two_stored-IsInStep.orderly

-- The blocks of the queue, and of the map, after two stores
abbrev low_block : CachedBlock
low_block = record { summary = summary 3; accesses = 1; access_time = pos 101; heap_idx = pos 0 }

abbrev held_block : CachedBlock
held_block = record {
  summary = summary 3;
  accesses = 1;
  access_time = pos 100;
  heap_idx = negsuc 0;
}

remove_index_correct_example :
    (bh : Heap) × IsRemoved low_block.summary two_stored.expire_queue.bh bh
    × (remove_index 0 two_stored.expire_queue ≡ some (record two_stored.expire_queue { bh = bh }))
    × IsOrderly (record two_stored.expire_queue { bh = bh })
unfolding HashMap.insert HashMap.lookup Heap.less_at Heap.swap less_by_height new_api_cache
    set_less_fn store_block_summary place_hash
remove_index_correct_example =
    remove_index_correct 0 low_block two_stored.expire_queue two_stored-IsInStep.orderly refl

remove_cached_block_idle_example : remove_cached_block parse held_block two_stored ≡ done two_stored
unfolding HashMap.insert HashMap.lookup Heap.less_at Heap.swap less_by_height new_api_cache
    set_less_fn store_block_summary place_hash
remove_cached_block_idle_example =
    remove_cached_block_idle parse 4 4 held_block two_stored two_stored-IsInStep refl refl refl

height_out_of_range_blocks_example :
    (c' : ApiCache) × (get_cached_block_by_height parse (λ h. h) clock (pos 9) two_stored
      ≡ done (c', none))
    × ((s : Summary) → store_block_summary parse clock s c' ≡ blocked)
    × ((h : Hash) → get_cached_block clock h c' ≡ blocked)
    × ((b : CachedBlock) → remove_cached_block parse b c' ≡ blocked)
unfolding HashMap.insert HashMap.lookup Heap.less_at Heap.swap less_by_height new_api_cache
    set_less_fn store_block_summary place_hash
height_out_of_range_blocks_example =
    height_out_of_range_blocks parse (λ h. h) clock clock (pos 9) two_stored refl

binned_not_IsStrictWeakOrder_example : ¬ IsStrictWeakOrder (make_less_by_access_time_then_count 1)
binned_not_IsStrictWeakOrder_example = binned_not_IsStrictWeakOrder 1 (omega arith)
