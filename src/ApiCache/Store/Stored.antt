-- ===== src/ApiCache/Store/Stored.antt =====
-- StoreBlockSummary and the reads of APICache (v4/api/types/apicache.go), from a cache whose map and queue
-- are in step.
use hc_data.Base.{
  ℕ, suc, ◌+◌, ◌≡◌, refl, ap, sym, ◌∙◌, Bool, true, false, Bool-cases, Option-cases, inl, inr, List,
  Option, none, some, arith, ◌==◌, if◌then◌else◌, get_elem?,
}
use hc_data.Base.Int.{ℤ, negsuc}
use hc_data.Base.HashSet.{Hash}
use hc_data.Base.HashMap
use hc_data.Base.HashMap.{lookup, IsMap-insert}
use hc_data.ApiCache.{Summary, CachedBlock, new_cached_block, access}
use hc_data.ApiCache.Heap.Kept.{one-tally}
use hc_data.ApiCache.Queue.{Clock, BlockPriorityQueue}
use hc_data.ApiCache.Queue.Inserted.{
  Inserted, none_wanted, too_low, replaced, added, insert_correct,
}
use hc_data.ApiCache.Store.{
  Call, done, ApiCache, store_block_summary, store_hash, store_uncached, finish_store, place_hash,
  get_cached_block, count_hit,
}
use hc_data.ApiCache.Store.Entries.{
  unplaced-insert, length-insert-found, present-insert-found, present,
}
use hc_data.ApiCache.Store.InStep.{
  IsInStep, EndsInStep, is_hash, is_none, added-IsInStep, replaced-IsInStep,
}

-- What a call that ends returns
pub done_inj : {A : Type 0} {x y : A} → done x ≡ done y → x ≡ y
done_inj e = ground arith

pub done_subst :
    {parse : ℕ → Option Hash} {c c' : ApiCache} {o o' : Option CachedBlock}
    → IsInStep parse c
    → ◌≡◌ {A = Call (ApiCache × Option CachedBlock)} (done (c, o)) (done (c', o'))
    → IsInStep parse c'
done_subst {parse} {c} {c'} i e = let same : c' ≡ c = sym (ap (λ p. p.0) (done_inj e)) in rw same i

module _ (parse : ℕ → Option Hash) where
  -- The hash of a block in the queue is in the map.
  in_map :
      (c : ApiCache) (i : ℕ) (b : CachedBlock)
      → IsInStep parse c
      → get_elem? c.expire_queue.bh i ≡ some b
      → (r : Hash) × (v : CachedBlock) × (parse b.summary.hash ≡ some r)
        × (lookup r c.block_cache ≡ some v)
  in_map c i b s e = elim (Option-cases (parse b.summary.hash)) [
    | inl unparsed ↦ absurd (
        ground (
          arith,
          one-tally (λ t. is_none (parse t.hash)) i b c.expire_queue.bh e,
          s.parsed,
          ap is_none unparsed,
        ))
    | inr (r, parsed) ↦ elim (Option-cases (lookup r c.block_cache)) [
      | inl absent ↦
          let counted : is_hash r (parse b.summary.hash) ≡ true = rw parsed (ground arith) in
          absurd (
            ground (
              arith,
              one-tally (λ t. is_hash r (parse t.hash)) i b c.expire_queue.bh e,
              s.same_hashes r,
              counted,
              ap present absent,
            ))
      | inr (v, found) ↦ (r, v, parsed, found)
    ]
  ]

  finish_store-EndsInStep :
      (h : Hash) (b : CachedBlock) (now : ℤ) (s : Summary) (c : ApiCache)
      (r : BlockPriorityQueue × Bool × Option Hash)
      → IsInStep parse c
      → parse s.hash ≡ some h
      → lookup h c.block_cache ≡ none
      → b.heap_idx ≡ negsuc 0
      → Inserted parse now s c.expire_queue r
      → EndsInStep parse (finish_store h b c (some r))
  unfolding finish_store
  finish_store-EndsInStep h b now s c r i e absent hb (none_wanted z) = (c, refl, i)
  finish_store-EndsInStep h b now s c r i e absent hb (too_low top f t l) = (c, refl, i)
  finish_store-EndsInStep h b now s c r i e absent hb (added q room a) = (
    record c { expire_queue = q; block_cache = HashMap.insert h b c.block_cache },
    refl,
    added-IsInStep parse h b s c q i e absent hb room a,
  )
  finish_store-EndsInStep h b now s c r i e absent hb (replaced top q f t l p) =
      let (old, v, parsed, found) = in_map c 0 top i t in
      (
        record c {
          expire_queue = q;
          block_cache = HashMap.insert h b (HashMap.erase old c.block_cache);
        },
        rw parsed,
        replaced-IsInStep parse h old b v s top.summary c q i e parsed absent found hb p,
      )

  -- A change of the other fields
  pub others-IsInStep :
      (c : ApiCache) (enabled : Bool) (blocks : List Hash) (hits misses readers : ℕ)
      → IsInStep parse c
      → IsInStep parse (record c {
        is_enabled = enabled;
        mainchain_blocks = blocks;
        hits = hits;
        misses = misses;
        readers = readers;
      })
  others-IsInStep c enabled blocks hits misses readers i = record {
    orderly = i.orderly;
    same_capacity = i.same_capacity;
    fits = i.fits;
    is_map = i.is_map;
    same_size = i.same_size;
    same_hashes = i.same_hashes;
    parsed = i.parsed;
    unplaced = i.unplaced;
  }

  EndsInStep-if :
      (b : Bool) {x y : Call ApiCache}
      → EndsInStep parse x
      → EndsInStep parse y
      → EndsInStep parse (if b then x else y)
  EndsInStep-if true h k = h
  EndsInStep-if false h k = k

  store_uncached-EndsInStep :
      (clock : Clock) (s : Summary) (h : Hash) (c : ApiCache) (o : Option CachedBlock)
      → IsInStep parse c
      → parse s.hash ≡ some h
      → lookup h c.block_cache ≡ o
      → EndsInStep parse (store_uncached parse clock s h c o)
  unfolding store_uncached new_cached_block access
  store_uncached-EndsInStep clock s h c (some b) i e found = (c, refl, i)
  store_uncached-EndsInStep clock s h c none i e absent =
      let b = access (clock 0) (new_cached_block s) in
      let (r, ended, result) =
        insert_correct parse (λ k. clock (suc k)) s c.expire_queue i.orderly in
      rw ended (finish_store-EndsInStep h b (clock 1) s c r i e absent refl result)

  -- StoreBlockSummary of a block whose hash is valid, where no read lock is left held, ends and leaves a
  -- cache in step.
  pub store_block_summary-IsInStep :
      (clock : Clock) (s : Summary) (h : Hash) (c : ApiCache)
      → IsInStep parse c
      → c.readers ≡ 0
      → parse s.hash ≡ some h
      → EndsInStep parse (store_block_summary parse clock s c)
  unfolding store_block_summary store_hash
  store_block_summary-IsInStep clock s h c i unread e =
      let c' = record c { mainchain_blocks = place_hash s.height h c.mainchain_blocks } in
      let i' : IsInStep parse c' =
        others-IsInStep c c.is_enabled (place_hash s.height h c.mainchain_blocks) c.hits c.misses
          c.readers i in
      let open_lock : (c.readers == 0) ≡ true = ground arith in
      rw open_lock (
        EndsInStep-if c.is_enabled
          (rw e (store_uncached-EndsInStep clock s h c' (lookup h c'.block_cache) i' e refl))
          (c, refl, i))

  -- A read that finds the block counts its access.
  hit-IsInStep :
      (clock : Clock) (h : Hash) (b : CachedBlock) (c : ApiCache)
      → IsInStep parse c
      → lookup h c.block_cache ≡ some b
      → IsInStep parse (record c {
        block_cache = HashMap.insert h (access (clock 0) b) c.block_cache;
        expire_queue = record c.expire_queue { needs_reheap = true; last_access = clock 1 };
        hits = c.hits + 1;
      })
  unfolding access
  hit-IsInStep clock h b c i found =
      let m = c.block_cache in
      let hb : b.heap_idx ≡ negsuc 0 = i.unplaced h b found in
      record {
        orderly = record { placed = i.orderly.placed; within = i.orderly.within };
        same_capacity = i.same_capacity;
        fits = i.fits;
        is_map = IsMap-insert h (access (clock 0) b) m i.is_map;
        same_size = length-insert-found h (access (clock 0) b) b m i.is_map found ∙ i.same_size;
        same_hashes =
            λ k. i.same_hashes k ∙ sym (present-insert-found k h (access (clock 0) b) b m found);
        parsed = i.parsed;
        unplaced = λ k d. unplaced-insert h k (access (clock 0) b) d m hb i.unplaced;
      }

  count_hit-IsInStep :
      (clock : Clock) (h : Hash) (c c' : ApiCache) (o found : Option CachedBlock)
      → IsInStep parse c
      → lookup h c.block_cache ≡ found
      → count_hit clock h found c ≡ done (c', o)
      → IsInStep parse c'
  unfolding count_hit
  count_hit-IsInStep clock h c c' o none i absent e =
      done_subst
        (others-IsInStep c c.is_enabled c.mainchain_blocks c.hits (c.misses + 1) c.readers i) e
  count_hit-IsInStep clock h c c' o (some b) i found e =
      done_subst (hit-IsInStep clock h b c i found) e

  -- What a read by hash returns leaves the cache in step.
  pub get_cached_block-IsInStep :
      (clock : Clock) (h : Hash) (c c' : ApiCache) (o : Option CachedBlock)
      → IsInStep parse c
      → get_cached_block clock h c ≡ done (c', o)
      → IsInStep parse c'
  unfolding get_cached_block
  get_cached_block-IsInStep clock h c c' o i e = elim (Bool-cases (c.readers == 0)) [
    | inl unread ↦
        count_hit-IsInStep clock h c c' o (lookup h c.block_cache) i refl
          (ground (arith, e, unread))
    | inr held ↦ absurd (ground (arith, e, held))
  ]
