-- ===== src/ApiCache/Store/InStep.antt =====
-- The block cache of v4/api/types/apicache.go: its map and its priority queue hold blocks of the same
-- hashes.
use hc_data.Base.{ℕ, ◌≤◌, ◌<◌, ◌≡◌, ◌∙◌, Bool, true, false, Option, none, some, arith, ◌==◌, length}
use hc_data.Base.Int.{negsuc}
use hc_data.Base.HashSet.{Hash}
use hc_data.Base.HashMap.{
  lookup, erase, IsMap, lookup-erase, lookup-insert, erase-absent, IsMap-erase, IsMap-insert,
}
use hc_data.Base.HashMap
use hc_data.ApiCache.{Summary, CachedBlock}
use hc_data.ApiCache.Store.Entries.{
  present, at_hash, unplaced-insert, count-insert, count-erase, length-insert-absent,
}
use hc_data.ApiCache.Heap.Kept.{one, tally}
use hc_data.ApiCache.Queue.{BlockPriorityQueue}
use hc_data.ApiCache.Queue.Moved.{IsOrderly, IsAdded, IsReplaced}
use hc_data.ApiCache.Store.{Call, done, ApiCache}

-- Is the parsed hash the given one?
abbrev pub is_hash : Hash → Option Hash → Bool
is_hash k none = false
is_hash k (some j) = j == k

-- Does the parse fail?
abbrev pub is_none : Option Hash → Bool
is_none none = true
is_none (some j) = false

-- The map has an entry for the hash of each block in the queue, and for no other one; there are as many entries
-- as blocks, and no more than the capacity.
pub record IsInStep (parse : ℕ → Option Hash) (c : ApiCache) : Type 0 where
  pub orderly : IsOrderly c.expire_queue
  pub same_capacity : c.expire_queue.capacity ≡ c.capacity
  pub fits : length c.expire_queue.bh ≤ c.capacity
  pub is_map : IsMap c.block_cache
  pub same_size : length c.block_cache ≡ length c.expire_queue.bh
  pub same_hashes :
      (k : Hash)
      → tally (λ s. is_hash k (parse s.hash)) c.expire_queue.bh ≡ present (lookup k c.block_cache)
  pub parsed : tally (λ s. is_none (parse s.hash)) c.expire_queue.bh ≡ 0
  pub unplaced :
      (k : Hash) (b : CachedBlock) → lookup k c.block_cache ≡ some b → b.heap_idx ≡ negsuc 0

-- A call that ends, with a cache in step
abbrev pub EndsInStep : (ℕ → Option Hash) → Call ApiCache → Type 0
EndsInStep parse call = (c : ApiCache) × (call ≡ done c) × IsInStep parse c

module _ (parse : ℕ → Option Hash) where
  one_hash :
      (k h : Hash) (s : Summary)
      → parse s.hash ≡ some h
      → one (λ r. is_hash k (parse r.hash)) s ≡ at_hash h k
  one_hash k h s e = rw e

  one_parsed :
      (h : Hash) (s : Summary) → parse s.hash ≡ some h → one (λ r. is_none (parse r.hash)) s ≡ 0
  one_parsed h s e = rw e

  pub added-IsInStep :
      (h : Hash) (b : CachedBlock) (s : Summary) (c : ApiCache) (q : BlockPriorityQueue)
      → IsInStep parse c
      → parse s.hash ≡ some h
      → lookup h c.block_cache ≡ none
      → b.heap_idx ≡ negsuc 0
      → length c.expire_queue.bh < c.expire_queue.capacity
      → IsAdded s c.expire_queue q
      → IsInStep parse
          (record c { expire_queue = q; block_cache = HashMap.insert h b c.block_cache })
  added-IsInStep h b s c q i e absent hb room a = record {
    orderly = a.orderly;
    same_capacity = a.same_capacity ∙ i.same_capacity;
    fits = omega (arith, a.longer, i.same_capacity);
    is_map = IsMap-insert h b c.block_cache i.is_map;
    same_size = omega (arith, length-insert-absent h b c.block_cache absent, a.longer, i.same_size);
    same_hashes = λ k. omega (
      arith,
      a.counted (λ r. is_hash k (parse r.hash)),
      one_hash k h s e,
      i.same_hashes k,
      count-insert k h b c.block_cache absent,
    );
    parsed = omega (arith, a.counted (λ r. is_none (parse r.hash)), i.parsed, one_parsed h s e);
    unplaced = λ k d. unplaced-insert h k b d c.block_cache hb i.unplaced;
  }

  pub replaced-IsInStep :
      (h r : Hash) (b v : CachedBlock) (s old : Summary) (c : ApiCache) (q : BlockPriorityQueue)
      → IsInStep parse c
      → parse s.hash ≡ some h
      → parse old.hash ≡ some r
      → lookup h c.block_cache ≡ none
      → lookup r c.block_cache ≡ some v
      → b.heap_idx ≡ negsuc 0
      → IsReplaced old s c.expire_queue q
      → IsInStep parse
          (record c { expire_queue = q; block_cache = HashMap.insert h b (erase r c.block_cache) })
  replaced-IsInStep h r b v s old c q i e eo absent found hb p =
      let m = c.block_cache in
      let still_absent : lookup h (erase r m) ≡ none = ground (arith, lookup-erase r h m, absent) in
      let still_unplaced : (j : Hash) (d : CachedBlock)
          → lookup j (erase r m) ≡ some d
          → d.heap_idx ≡ negsuc 0 =
        λ j d l. i.unplaced j d (ground (arith, lookup-erase r j m, l)) in
      record {
        orderly = p.orderly;
        same_capacity = p.same_capacity ∙ i.same_capacity;
        fits = omega (arith, p.same_length, i.fits);
        is_map = IsMap-insert h b (erase r m) (IsMap-erase r m i.is_map);
        same_size = omega (
          arith,
          length-insert-absent h b (erase r m) still_absent,
          HashMap.length-erase r v m i.is_map found,
          p.same_length,
          i.same_size,
        );
        same_hashes = λ k. omega (
          arith,
          p.counted (λ t. is_hash k (parse t.hash)),
          one_hash k h s e,
          one_hash k r old eo,
          i.same_hashes k,
          count-insert k h b (erase r m) still_absent,
          count-erase k r v m found,
        );
        parsed = omega (
          arith,
          p.counted (λ t. is_none (parse t.hash)),
          i.parsed,
          one_parsed h s e,
          one_parsed r old eo,
        );
        unplaced = λ k d. unplaced-insert h k b d (erase r m) hb still_unplaced;
      }
