-- ===== src/ApiCache/Store/Calls.antt =====
-- Each call of APICache (v4/api/types/apicache.go) that returns, from a cache whose map and queue are in
-- step.
use hc_data.Base.{
  ℕ, ◌+◌, ◌≡◌, refl, sym, ◌∙◌, Bool, Bool-cases, Option-cases, inl, inr, Option, none, some, arith,
  ◌==◌, if◌then◌else◌, length,
}
use hc_data.Base.HashSet.{Hash}
use hc_data.Base.HashMap.{lookup}
use hc_data.ApiCache.{Summary, CachedBlock}
use hc_data.ApiCache.Queue.{new_block_priority_queue, Clock, BlockPriorityQueue}
use hc_data.ApiCache.Queue.Moved.{IsOrderly}
use hc_data.ApiCache.Store.{
  locked, Call, done, ApiCache, new_api_cache, store_block_summary, store_hash, remove_cached_block,
  delete_on_error, get_cached_block_by_hash, get_parsed, get_valid, get_at,
}
use hc_data.ApiCache.Store.InStep.{IsInStep, is_hash, is_none}
use hc_data.ApiCache.Heap.Kept.{tally}
use hc_data.ApiCache.Store.Lost.{remove_unplaced}
use hc_data.ApiCache.Store.Stored.{
  done_subst, done_inj, store_block_summary-IsInStep, get_cached_block-IsInStep, others-IsInStep,
}

pub some_inj : {A : Type 0} {x y : A} → some x ≡ some y → x ≡ y
some_inj e = ground arith

-- A call that returns had the lock for itself.
pub locked-done :
    {A : Type 0} {a : A} (c : ApiCache) (body : Call A)
    → locked c body ≡ done a
    → (c.readers ≡ 0) × (body ≡ done a)
locked-done {A} {a} c body e = elim (Bool-cases (c.readers == 0)) [
  | inl unread ↦ (ground arith, ground (arith, e, unread))
  | inr held ↦ absurd (ground (arith, e, held))
]

module _ {parse : ℕ → Option Hash} where
  pub same-IsInStep : {c c' : ApiCache} → IsInStep parse c → done c ≡ done c' → IsInStep parse c'
  same-IsInStep {c} {c'} i e = let same : c' ≡ c = sym (done_inj e) in rw same i

  pub new-IsInStep : (capacity : ℕ) → IsInStep parse (new_api_cache capacity)
  unfolding new_api_cache new_block_priority_queue tally lookup
  new-IsInStep capacity = record {
    orderly = record { placed = λ i b e. absurd (ground arith); within = refl };
    same_capacity = refl;
    fits = omega arith;
    is_map = tt;
    same_size = refl;
    same_hashes = λ k. refl;
    parsed = refl;
    unplaced = λ k b e. absurd (ground arith);
  }

  pub stored-IsInStep :
      (clock : Clock) (s : Summary) (c c' : ApiCache)
      → IsInStep parse c
      → store_block_summary parse clock s c ≡ done c'
      → IsInStep parse c'
  unfolding store_block_summary store_hash
  stored-IsInStep clock s c c' i e =
      let (unread, body) =
        locked-done c (if c.is_enabled then store_hash parse clock s (parse s.hash) c else done c)
          e in
      elim (Option-cases (parse s.hash)) [
        | inl unparsed ↦ elim (Bool-cases c.is_enabled) [
          | inl on ↦ absurd (ground (arith, body, on, unparsed))
          | inr off ↦ same-IsInStep i (ground (arith, body, off))
        ]
        | inr (h, parsed) ↦
            let (d, ended, j) = store_block_summary-IsInStep parse clock s h c i unread parsed in
            same-IsInStep j (sym ended ∙ e)
      ]

  pub with-queue-IsInStep :
      (c : ApiCache) (q : BlockPriorityQueue)
      → IsInStep parse c
      → IsOrderly q
      → q.capacity ≡ c.expire_queue.capacity
      → length q.bh ≡ length c.expire_queue.bh
      → ((p : Summary → Bool) → tally p q.bh ≡ tally p c.expire_queue.bh)
      → IsInStep parse (record c { expire_queue = q })
  with-queue-IsInStep c q i orderly cap_same size counts = record {
    orderly = orderly;
    same_capacity = cap_same ∙ i.same_capacity;
    fits = omega (arith, i.fits);
    is_map = i.is_map;
    same_size = i.same_size ∙ sym size;
    same_hashes = λ k. counts (λ s. is_hash k (parse s.hash)) ∙ i.same_hashes k;
    parsed = counts (λ s. is_none (parse s.hash)) ∙ i.parsed;
    unplaced = i.unplaced;
  }

  pub removed-IsInStep :
      (k : Hash) (b : CachedBlock) (c c' : ApiCache)
      → IsInStep parse c
      → lookup k c.block_cache ≡ some b
      → remove_cached_block parse b c ≡ done c'
      → IsInStep parse c'
  unfolding remove_cached_block delete_on_error
  removed-IsInStep k b c c' i found e =
      let idle = remove_unplaced b c.expire_queue (i.unplaced k b found) in
      let (unread, body) = locked-done c _ e in
      elim (Option-cases (parse b.summary.hash)) [
        | inl unparsed ↦ absurd (ground (arith, body, idle, unparsed))
        | inr (h, parsed) ↦ same-IsInStep i (ground (arith, body, idle, parsed))
      ]

  pub valid-IsInStep :
      (clock : Clock) (h : Hash) (o : Option Hash) (c c' : ApiCache) (b : Option CachedBlock)
      → IsInStep parse c
      → get_valid clock h o c ≡ done (c', b)
      → IsInStep parse c'
  unfolding get_valid
  valid-IsInStep clock h none c c' b i e = done_subst i e
  valid-IsInStep clock h (some v) c c' b i e = get_cached_block-IsInStep parse clock h c c' b i e

  pub parsed-IsInStep :
      (clock : Clock) (o : Option Hash) (c c' : ApiCache) (b : Option CachedBlock)
      → IsInStep parse c
      → get_parsed clock o c ≡ done (c', b)
      → IsInStep parse c'
  unfolding get_parsed
  parsed-IsInStep clock none c c' b i e = done_subst i e
  parsed-IsInStep clock (some h) c c' b i e = get_cached_block-IsInStep parse clock h c c' b i e

module _ (parse : ℕ → Option Hash) (hash_string : Hash → ℕ) where
  pub at-IsInStep :
      (clock : Clock) (o : Option Hash) (c c' : ApiCache) (b : Option CachedBlock)
      → IsInStep parse c
      → get_at parse hash_string clock o c ≡ done (c', b)
      → IsInStep parse c'
  unfolding get_at get_cached_block_by_hash
  at-IsInStep clock none c c' b i e =
      done_subst
        (others-IsInStep parse c c.is_enabled c.mainchain_blocks c.hits c.misses (c.readers + 1) i)
        e
  at-IsInStep clock (some h) c c' b i e = valid-IsInStep clock h (parse (hash_string h)) c c' b i e
