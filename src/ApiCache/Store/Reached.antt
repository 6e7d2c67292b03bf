-- ===== src/ApiCache/Store/Reached.antt =====
-- The caches that the calls of APICache (v4/api/types/apicache.go) lead to, from a new one.
use hc_data.Base.{ℕ, ◌≤◌, ◌≡◌, refl, sym, ◌∙◌, true, false, Option, some, arith, length}
use hc_data.Base.Int.{ℤ}
use hc_data.Base.HashSet.{Hash}
use hc_data.Base.HashMap.{lookup}
use hc_data.ApiCache.{Summary, CachedBlock, Less}
use hc_data.ApiCache.Queue.{Clock, BlockPriorityQueue, reheap}
use hc_data.ApiCache.Queue.Heights.{is_outside}
use hc_data.ApiCache.Queue.Inserted.{reheap_correct}
use hc_data.ApiCache.Store.{
  done, ApiCache, new_api_cache, set_less_fn, enable, disable, store_block_summary,
  remove_cached_block, get_cached_block_by_hash_str, get_cached_block_by_height, mainchain_at,
  utilization_blocks,
}
use hc_data.ApiCache.Store.InStep.{IsInStep}
use hc_data.ApiCache.Heap.Kept.{tally}
use hc_data.ApiCache.Store.Calls.{
  some_inj, locked-done, same-IsInStep, new-IsInStep, stored-IsInStep, with-queue-IsInStep,
  removed-IsInStep, parsed-IsInStep, at-IsInStep,
}
use hc_data.ApiCache.Store.Stored.{others-IsInStep}

-- What a sequence of calls leads to: each call that returns, with the reheap of WatchPriorityQueue
-- between them. The block removed is one that the cache returned.
pub data AfterCalls (parse : ℕ → Option Hash) (hash_string : Hash → ℕ) (capacity : ℕ)
    : ApiCache → Type 0 where
  created : AfterCalls parse hash_string capacity (new_api_cache capacity)
  stored :
      (clock : Clock) (s : Summary) (c c' : ApiCache)
      → AfterCalls parse hash_string capacity c
      → store_block_summary parse clock s c ≡ done c'
      → AfterCalls parse hash_string capacity c'
  removed :
      (k : Hash) (b : CachedBlock) (c c' : ApiCache)
      → AfterCalls parse hash_string capacity c
      → lookup k c.block_cache ≡ some b
      → remove_cached_block parse b c ≡ done c'
      → AfterCalls parse hash_string capacity c'
  read_by_height :
      (clock : Clock) (height : ℤ) (c c' : ApiCache) (o : Option CachedBlock)
      → AfterCalls parse hash_string capacity c
      → get_cached_block_by_height parse hash_string clock height c ≡ done (c', o)
      → AfterCalls parse hash_string capacity c'
  read_by_hash_str :
      (clock : Clock) (hash_str : ℕ) (c c' : ApiCache) (o : Option CachedBlock)
      → AfterCalls parse hash_string capacity c
      → get_cached_block_by_hash_str parse hash_string clock hash_str c ≡ done (c', o)
      → AfterCalls parse hash_string capacity c'
  less_set :
      (less : Less) (c c' : ApiCache)
      → AfterCalls parse hash_string capacity c
      → set_less_fn less c ≡ done c'
      → AfterCalls parse hash_string capacity c'
  enabled :
      (c c' : ApiCache)
      → AfterCalls parse hash_string capacity c
      → enable c ≡ done c'
      → AfterCalls parse hash_string capacity c'
  disabled :
      (c c' : ApiCache)
      → AfterCalls parse hash_string capacity c
      → disable c ≡ done c'
      → AfterCalls parse hash_string capacity c'
  reheaped :
      (c : ApiCache) (q : BlockPriorityQueue)
      → AfterCalls parse hash_string capacity c
      → reheap c.expire_queue ≡ some q
      → AfterCalls parse hash_string capacity (record c { expire_queue = q })

module _ (parse : ℕ → Option Hash) (hash_string : Hash → ℕ) where
  -- Every cache that calls lead to, from a new one, is in step.
  pub reached-IsInStep :
      (capacity : ℕ) (c : ApiCache) → AfterCalls parse hash_string capacity c → IsInStep parse c
  unfolding set_less_fn enable disable get_cached_block_by_height get_cached_block_by_hash_str
  reached-IsInStep n _ created = new-IsInStep n
  reached-IsInStep n _ (stored clock s d c r e) =
      stored-IsInStep clock s d c (reached-IsInStep n d r) e
  reached-IsInStep n _ (removed k b d c r found e) =
      removed-IsInStep k b d c (reached-IsInStep n d r) found e
  reached-IsInStep n _ (read_by_height clock height d c o r e) =
      at-IsInStep parse hash_string clock (mainchain_at height d.mainchain_blocks) d c o
        (reached-IsInStep n d r) e
  reached-IsInStep n _ (read_by_hash_str clock text d c o r e) =
      parsed-IsInStep clock (parse text) d c o (reached-IsInStep n d r) e
  reached-IsInStep n _ (less_set less d c r e) =
      let i = reached-IsInStep n d r in
      same-IsInStep
        ((with-queue-IsInStep d (record d.expire_queue { less_fn = less }) i
          (record { placed = i.orderly.placed; within = i.orderly.within }) refl refl (λ p. refl)))
        (locked-done d _ e).1
  reached-IsInStep n _ (enabled d c r e) =
      same-IsInStep
        (others-IsInStep parse d true d.mainchain_blocks d.hits d.misses d.readers
          (reached-IsInStep n d r))
        (locked-done d _ e).1
  reached-IsInStep n _ (disabled d c r e) =
      same-IsInStep
        (others-IsInStep parse d false d.mainchain_blocks d.hits d.misses d.readers
          (reached-IsInStep n d r))
        (locked-done d _ e).1
  reached-IsInStep n _ (reheaped d q r e) =
      let i = reached-IsInStep n d r in
      let (bh, same, ended, orderly) = reheap_correct d.expire_queue i.orderly in
      let is_q : q ≡ record d.expire_queue { bh = bh; needs_reheap = false } =
        some_inj (sym e ∙ ended) in
      rw is_q (
        with-queue-IsInStep d (record d.expire_queue { bh = bh; needs_reheap = false }) i orderly
          refl same.same_length same.same_tally)

  -- In every cache that calls lead to, from a new one, the map holds no more blocks than the capacity and as
  -- many as the queue, and no block of the queue has a height outside the queue's least and greatest ones.
  pub reached_bounded :
      (capacity : ℕ) (c : ApiCache)
      → AfterCalls parse hash_string capacity c
      → (utilization_blocks c ≤ c.capacity)
        × (length c.expire_queue.bh ≡ utilization_blocks c)
        × (tally (is_outside c.expire_queue) c.expire_queue.bh ≡ 0)
  unfolding utilization_blocks
  reached_bounded capacity c r =
      let i = reached-IsInStep capacity c r in
      (omega (arith, i.same_size, i.fits), sym i.same_size, i.orderly.within)
