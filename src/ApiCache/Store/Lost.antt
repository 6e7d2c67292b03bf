-- ===== src/ApiCache/Store/Lost.antt =====
-- RemoveCachedBlock and GetCachedBlockByHeight of APICache (v4/api/types/apicache.go) where they do not do
-- what they are for.
use hc_data.Base.{ℕ, ◌+◌, ◌≡◌, ap, true, false, Option, none, some, arith, ◌==◌}
use hc_data.Base.Int.{ℤ, negsuc}
use hc_data.Base.HashSet.{Hash}
use hc_data.Base.HashMap.{lookup}
use hc_data.ApiCache.{Summary, CachedBlock}
use hc_data.ApiCache.Queue.{Clock, BlockPriorityQueue, remove_block, remove_from}
use hc_data.ApiCache.Store.{
  done, blocked, ApiCache, store_block_summary, remove_cached_block, delete_on_error,
  get_cached_block, get_cached_block_by_height, get_at, mainchain_at,
}
use hc_data.ApiCache.Store.InStep.{IsInStep}

pub remove_unplaced :
    (b : CachedBlock) (q : BlockPriorityQueue) → b.heap_idx ≡ negsuc 0 → remove_block b q ≡ some q
unfolding remove_block remove_from
remove_unplaced b q h = ap (λ i. remove_from i b q) h

-- RemoveCachedBlock of a block that the cache holds, where no read lock is held: the queue is left as it is,
-- since the block that the map holds has no index in it, and nothing is deleted from the map.
pub remove_cached_block_idle :
    (parse : ℕ → Option Hash) (k h : Hash) (b : CachedBlock) (c : ApiCache)
    → IsInStep parse c
    → c.readers ≡ 0
    → lookup k c.block_cache ≡ some b
    → parse b.summary.hash ≡ some h
    → remove_cached_block parse b c ≡ done c
unfolding remove_cached_block delete_on_error
remove_cached_block_idle parse k h b c i unread found e =
    let open_lock : (c.readers == 0) ≡ true = ground arith in
    rw (open_lock, remove_unplaced b c.expire_queue (i.unplaced k b found), e)

-- GetCachedBlockByHeight of a height that is negative or not below the number of main chain blocks returns
-- no block and leaves the read lock held, so that every later store, read of a cached block and removal is
-- blocked.
pub height_out_of_range_blocks :
    (parse : ℕ → Option Hash) (hash_string : Hash → ℕ) (clock later : Clock) (height : ℤ)
    (c : ApiCache)
    → mainchain_at height c.mainchain_blocks ≡ none
    → (c' : ApiCache) × (get_cached_block_by_height parse hash_string clock height c
        ≡ done (c', none))
      × ((s : Summary) → store_block_summary parse later s c' ≡ blocked)
      × ((h : Hash) → get_cached_block later h c' ≡ blocked)
      × ((b : CachedBlock) → remove_cached_block parse b c' ≡ blocked)
unfolding get_cached_block_by_height get_at store_block_summary get_cached_block remove_cached_block
height_out_of_range_blocks parse hash_string clock later height c out =
    let held : (c.readers + 1 == 0) ≡ false = ground arith in
    (record c { readers = c.readers + 1 }, rw out, (λ s. rw held), (λ h. rw held), (λ b. rw held))
