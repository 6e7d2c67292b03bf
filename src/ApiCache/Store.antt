-- ===== src/ApiCache/Store.antt =====
-- APICache of v4/api/types/apicache.go. chainhash.NewHashFromStr is a parameter, and so is the string of a
-- hash. The cache's lock is held for a whole call, unless a call returns without its release: the reads
-- that are held between calls are counted, and a call that needs the lock for itself is then blocked.
pub mod Entries
pub mod InStep
pub mod Calls
pub mod Stored
pub mod Lost
pub mod Reached
use hc_data.Base.{
  ℕ, zero, suc, ◌+◌, ◌-◌, Bool, true, false, List, [], ◌∷◌, ◌++◌, Option, none, some, ltb, ◌==◌,
  if◌then◌else◌, length, get_elem?, set,
}
use hc_data.Base.Int.{ℤ, pos, negsuc}
use hc_data.Base.HashSet.{Hash}
use hc_data.Base.HashMap
use hc_data.ApiCache.{Summary, CachedBlock, new_cached_block, access, Less}
use hc_data.ApiCache.Queue
use hc_data.ApiCache.Queue.{Clock, BlockPriorityQueue, new_block_priority_queue}

-- How a call ends
pub data Call (A : Type 0) : Type 0 where
  done : A → Call A
  panicked : Call A
  blocked : Call A

pub record ApiCache : Type 0 where
  pub is_enabled : Bool
  pub capacity : ℕ
  pub block_cache : List (Hash × CachedBlock)
  pub mainchain_blocks : List Hash
  pub expire_queue : BlockPriorityQueue
  pub hits : ℕ
  pub misses : ℕ
  pub readers : ℕ

-- NewAPICache
unfoldable pub new_api_cache : ℕ → ApiCache
unfolding new_block_priority_queue
new_api_cache capacity = record {
  is_enabled = true;
  capacity = capacity;
  block_cache = [];
  mainchain_blocks = [];
  expire_queue = new_block_priority_queue capacity;
  hits = 0;
  misses = 0;
  readers = 0;
}

-- A call between Lock and Unlock
abbrev pub locked : {A : Type 0} → ApiCache → Call A → Call A
locked c body = if c.readers == 0 then body else blocked

-- SetLessFn
unfoldable pub set_less_fn : Less → ApiCache → Call ApiCache
unfolding Queue.set_less_fn
set_less_fn less c =
    locked c (done (record c { expire_queue = Queue.set_less_fn less c.expire_queue }))

-- Enable
unfoldable pub enable : ApiCache → Call ApiCache
enable c = locked c (done (record c { is_enabled = true }))

-- Disable
unfoldable pub disable : ApiCache → Call ApiCache
disable c = locked c (done (record c { is_enabled = false }))

-- UtilizationBlocks
unfoldable pub utilization_blocks : ApiCache → ℕ
utilization_blocks c = length c.block_cache

-- `n` empty hashes
abbrev pub empty_hashes : ℕ → List Hash
empty_hashes zero = []
empty_hashes (suc n) = 0 ∷ empty_hashes n

-- What StoreBlockSummary makes of MainchainBlocks: padded up to the height, then appended or updated
unfoldable pub place_hash : ℕ → Hash → List Hash → List Hash
place_hash height hash blocks =
    let padded =
      (if ltb (length blocks) height
        then blocks ++ empty_hashes (height - length blocks)
        else blocks) in
    if length padded == height then padded ++ hash ∷ [] else set height hash padded

-- `if removedBlock != nil { delete(apic.blockCache, *removedBlock) }`
abbrev pub delete_removed : Option Hash → List (Hash × CachedBlock) → List (Hash × CachedBlock)
delete_removed none m = m
delete_removed (some h) m = HashMap.erase h m

-- `if wasAdded { apic.blockCache[*hash] = cachedBlock }`
abbrev pub add_new :
    Bool → Hash → CachedBlock → List (Hash × CachedBlock) → List (Hash × CachedBlock)
add_new true h b m = HashMap.insert h b m
add_new false h b m = m

-- The end of StoreBlockSummary, from what Insert returned
unfoldable pub finish_store :
    Hash → CachedBlock → ApiCache → Option (BlockPriorityQueue × Bool × Option Hash) → Call ApiCache
finish_store h b c none = panicked
finish_store h b c (some (q, was_added, removed)) = done (record c {
  expire_queue = q;
  block_cache = add_new was_added h b (delete_removed removed c.block_cache);
})

-- The deletion in RemoveCachedBlock: only where NewHashFromStr fails, and its hash is nil
unfoldable pub delete_on_error : Option Hash → ApiCache → Call ApiCache
delete_on_error none c = panicked
delete_on_error (some hash) c = done c

abbrev pub with_queue :
    ApiCache → Option BlockPriorityQueue → (ApiCache → Call ApiCache) → Call ApiCache
with_queue c none rest = panicked
with_queue c (some q) rest = rest (record c { expire_queue = q })

module _ (parse : ℕ → Option Hash) where
  unfoldable pub store_uncached :
      Clock → Summary → Hash → ApiCache → Option CachedBlock → Call ApiCache
  unfolding finish_store Queue.insert new_cached_block access
  store_uncached clock s hash c (some b) = done c
  store_uncached clock s hash c none =
      finish_store hash (access (clock 0) (new_cached_block s)) c
        (Queue.insert parse (λ k. clock (suc k)) s c.expire_queue)

  unfoldable pub store_hash : Clock → Summary → Option Hash → ApiCache → Call ApiCache
  unfolding place_hash store_uncached HashMap.lookup
  store_hash clock s none c = panicked
  store_hash clock s (some hash) c =
      let c' = record c { mainchain_blocks = place_hash s.height hash c.mainchain_blocks } in
      store_uncached clock s hash c' (HashMap.lookup hash c'.block_cache)

  -- StoreBlockSummary; the error that it returns is always nil.
  unfoldable pub store_block_summary : Clock → Summary → ApiCache → Call ApiCache
  unfolding store_hash
  store_block_summary clock s c =
      locked c (if c.is_enabled then store_hash clock s (parse s.hash) c else done c)

  -- RemoveCachedBlock, of a block that is not nil
  unfoldable pub remove_cached_block : CachedBlock → ApiCache → Call ApiCache
  unfolding delete_on_error Queue.remove_block
  remove_cached_block b c =
      locked c (
        with_queue c (Queue.remove_block b c.expire_queue) (delete_on_error (parse b.summary.hash)))

-- getCachedBlockByHash, from the cached block
unfoldable pub count_hit :
    Clock → Hash → Option CachedBlock → ApiCache → Call (ApiCache × Option CachedBlock)
unfolding HashMap.insert access
count_hit clock hash none c = done (record c { misses = c.misses + 1 }, none)
count_hit clock hash (some b) c =
    let b' = access (clock 0) b in
    done (
      record c {
        block_cache = HashMap.insert hash b' c.block_cache;
        expire_queue = record c.expire_queue { needs_reheap = true; last_access = clock 1 };
        hits = c.hits + 1;
      },
      some b',
    )

-- getCachedBlockByHash
unfoldable pub get_cached_block : Clock → Hash → ApiCache → Call (ApiCache × Option CachedBlock)
unfolding count_hit HashMap.lookup
get_cached_block clock hash c =
    locked c (count_hit clock hash (HashMap.lookup hash c.block_cache) c)

unfoldable pub get_parsed : Clock → Option Hash → ApiCache → Call (ApiCache × Option CachedBlock)
unfolding get_cached_block
get_parsed clock none c = done (c, none)
get_parsed clock (some hash) c = get_cached_block clock hash c

-- GetCachedBlockByHash, from the check of the hash's own string
unfoldable pub get_valid :
    Clock → Hash → Option Hash → ApiCache → Call (ApiCache × Option CachedBlock)
unfolding get_cached_block
get_valid clock hash none c = done (c, none)
get_valid clock hash (some valid) c = get_cached_block clock hash c

-- The entry at a height, which is none below 0
abbrev pub mainchain_at : ℤ → List Hash → Option Hash
mainchain_at (pos h) blocks = get_elem? blocks h
mainchain_at (negsuc n) blocks = none

abbrev pub summary_of : Call (ApiCache × Option CachedBlock) → Call (ApiCache × Option Summary)
summary_of panicked = panicked
summary_of blocked = blocked
summary_of (done (c, none)) = done (c, none)
summary_of (done (c, some b)) = done (c, some b.summary)

module _ (parse : ℕ → Option Hash) (hash_string : Hash → ℕ) where
  -- GetCachedBlockByHashStr
  unfoldable pub get_cached_block_by_hash_str :
      Clock → ℕ → ApiCache → Call (ApiCache × Option CachedBlock)
  unfolding get_parsed
  get_cached_block_by_hash_str clock hash_str c = get_parsed clock (parse hash_str) c

  -- GetCachedBlockByHash
  unfoldable pub get_cached_block_by_hash :
      Clock → Hash → ApiCache → Call (ApiCache × Option CachedBlock)
  unfolding get_valid
  get_cached_block_by_hash clock hash c = get_valid clock hash (parse (hash_string hash)) c

  -- GetCachedBlockByHeight: outside the slice it returns with the read lock held.
  unfoldable pub get_at : Clock → Option Hash → ApiCache → Call (ApiCache × Option CachedBlock)
  unfolding get_cached_block_by_hash
  get_at clock none c = done (record c { readers = c.readers + 1 }, none)
  get_at clock (some hash) c = get_cached_block_by_hash clock hash c

  unfoldable pub get_cached_block_by_height :
      Clock → ℤ → ApiCache → Call (ApiCache × Option CachedBlock)
  unfolding get_at
  get_cached_block_by_height clock height c =
      get_at clock (mainchain_at height c.mainchain_blocks) c

  -- GetBlockSummary
  unfoldable pub get_block_summary : Clock → ℤ → ApiCache → Call (ApiCache × Option Summary)
  unfolding get_cached_block_by_height
  get_block_summary clock height c = summary_of (get_cached_block_by_height clock height c)
