-- ===== src/StakeDb/PoolInfoCache/Capacity.antt =====
-- SetCapacity of PoolInfoCache (v4/stakedb/stakedb.go): what it keeps and expires, and the bound.
use hc_data.Base.{
  take, ℕ, zero, suc, ◌+◌, ◌-◌, ◌≡◌, ◌≤◌, ◌<◌, refl, ap, ◌∙◌, inl, inr, Bool, true, false, ◌||◌,
  Bool-cases, Option-cases, List, [], ◌∷◌, Option, none, some, arith, ltb, ltb→lt, ltb_false→le,
  lt→ltb, ◌==◌, if◌then◌else◌, length, drop, length-drop,
}
use hc_data.Base.Int.{ℤ, pos, ltb_ℤ}
use hc_data.Base.Exec.{ok, err}
use hc_data.Base.HashSet.{contains-nil_lem, Hash, contains, contains-cons, contains-nil}
use hc_data.StakeDb.PoolInfoCache.{
  Lane, PoolInfoCache, get, shrink, shrink_loop, set_capacity, delete, capacity_not_reduced,
}
use hc_data.StakeDb.PoolInfoCache.Bounded.{IsBounded}

module _ {Info : Type 0} (L : Lane) where
  open L use {
    Queue, entries, enqueue, dequeue, size, entries-enqueue, dequeue-empty, dequeue-first,
    size-entries,
  }

  -- One round of SetCapacity takes the oldest hash off the queue, and its info out of the map.
  abbrev without_oldest : Hash → PoolInfoCache Info Queue → PoolInfoCache Info Queue
  without_oldest oldest c = record c {
    pool_info = delete oldest c.pool_info;
    expire_queue = (dequeue c.expire_queue).1;
  }

  abbrev AllQueued : PoolInfoCache Info Queue → Type 0
  AllQueued c =
      (h : Hash) (info : Info) → get L h c ≡ some info → contains (entries c.expire_queue) h ≡ true

  without_oldest-AllQueued :
      (oldest : Hash) (c : PoolInfoCache Info Queue) (rest : List Hash)
      → entries c.expire_queue ≡ oldest ∷ rest
      → AllQueued c
      → AllQueued (without_oldest oldest c)
  unfolding get
  without_oldest-AllQueued oldest c rest split b k i h =
      rw ((dequeue-first c.expire_queue oldest rest split).1)
        (ground (arith, b k i, ap (λ l. contains l k) split, contains-cons oldest rest k))

  -- What a round does at a queue with an entry, and at the empty queue.
  shrink-ok :
      (oldest : Hash) (c : PoolInfoCache Info Queue) (rest : List Hash)
      → entries c.expire_queue ≡ oldest ∷ rest
      → shrink L (dequeue c.expire_queue) c ≡ (ok tt, without_oldest oldest c)
  unfolding shrink
  shrink-ok oldest c rest split = rw ((dequeue-first c.expire_queue oldest rest split).0, shrink)

  shrink-empty :
      (c : PoolInfoCache Info Queue)
      → entries c.expire_queue ≡ []
      → shrink L (dequeue c.expire_queue) c
        ≡ (err capacity_not_reduced, record c { expire_queue = (dequeue c.expire_queue).1 })
  unfolding shrink
  shrink-empty c none_left = rw ((dequeue-empty c.expire_queue none_left).0, shrink)

  drop_two :
      (later oldest : Bool) (o : Option Info)
      → (if later then none else if oldest then none else o) ≡ (if oldest || later then none else o)
  drop_two later oldest o = ground arith

  -- The loop at a positive capacity keeps the newest hashes.
  shrink_loop-ok :
      (fuel n : ℕ) (c : PoolInfoCache Info Queue) (l : List Hash)
      → entries c.expire_queue ≡ l
      → length l < fuel
      → c.max_size ≡ pos (suc n)
      → AllQueued c
      → (c' : PoolInfoCache Info Queue) × (shrink_loop L fuel c ≡ (ok tt, c'))
        × (c'.max_size ≡ pos (suc n))
        × AllQueued c'
        × (entries c'.expire_queue ≡ drop (length l - n) l)
        × ((k : Hash)
            → get L k c' ≡ (if contains (take (length l - n) l) k then none else get L k c))
  unfolding shrink_loop get
  shrink_loop-ok zero n c l e f m b = elim f [ ]
  shrink_loop-ok (suc fuel) n c [] e f m b =
      let none_held : size c.expire_queue ≡ 0 = size-entries c.expire_queue ∙ ap length e in
      let nothing : 0 - n ≡ 0 = omega arith in
      (
        c,
        rw (none_held, m, lt→ltb (0 + 0) (suc n + 0) (omega arith)),
        m,
        b,
        rw nothing e,
        λ k. rw (nothing, contains-nil_lem),
      )
  shrink_loop-ok (suc fuel) n c (oldest ∷ rest) e f m b =
      let held_now : size c.expire_queue ≡ suc (length rest) =
        size-entries c.expire_queue ∙ ap length e in
      elim (Bool-cases (ltb (suc (length rest) + 0) (suc n + 0))) [
        | inl room ↦
            let nothing : suc (length rest) - n ≡ 0 = omega (arith, ltb→lt _ _ room) in
            (c, rw (held_now, m, room), m, b, rw nothing e, λ k. rw (nothing, contains-nil_lem))
        | inr full ↦
            let (c', run, m', b', kept, infos) =
              shrink_loop-ok fuel n (without_oldest oldest c) rest
                (dequeue-first c.expire_queue oldest rest e).1 (omega arith) m
                (without_oldest-AllQueued oldest c rest e b) in
            let one_more : suc (length rest) - n ≡ suc (length rest - n) =
              omega (arith, ltb_false→le _ _ full) in
            let still : ltb_ℤ (pos (size c.expire_queue)) c.max_size ≡ false =
              rw (held_now, m) full in
            (
              c',
              rw (still, shrink-ok oldest c rest e) run,
              m',
              b',
              rw one_more kept,
              λ k.
                  rw (one_more, contains-cons)
                    (infos k
                      ∙ drop_two (contains (take (length rest - n) rest) k) (oldest == k)
                          (c.pool_info k)),
            )
      ]

  -- At a capacity that no queue is below, it empties the cache and reports an error.
  shrink_loop-err :
      (fuel : ℕ) (c : PoolInfoCache Info Queue) (l : List Hash)
      → entries c.expire_queue ≡ l
      → length l < fuel
      → ((n : ℕ) → ltb_ℤ (pos n) c.max_size ≡ false)
      → AllQueued c
      → (c' : PoolInfoCache Info Queue) × (shrink_loop L fuel c ≡ (err capacity_not_reduced, c'))
        × AllQueued c'
        × (entries c'.expire_queue ≡ [])
  unfolding shrink_loop get
  shrink_loop-err zero c l e f never b = elim f [ ]
  shrink_loop-err (suc fuel) c [] e f never b = (
    record c { expire_queue = (dequeue c.expire_queue).1 },
    rw (never (size c.expire_queue), shrink-empty c e),
    λ k i h.
        let q : contains (entries c.expire_queue) k ≡ true = b k i h in
        rw ((dequeue-empty c.expire_queue e).1) (rw e at q),
    (dequeue-empty c.expire_queue e).1,
  )
  shrink_loop-err (suc fuel) c (oldest ∷ rest) e f never b =
      let (c', run, b', emptied) =
        shrink_loop-err fuel (without_oldest oldest c) rest
          (dequeue-first c.expire_queue oldest rest e).1 (omega arith) never
          (without_oldest-AllQueued oldest c rest e b) in
      (c', rw (never (size c.expire_queue), shrink-ok oldest c rest e) run, b', emptied)

  -- On a bounded cache SetCapacity at n + 1 ends without error: the newest n hashes stay, at most, in their
  -- order; the older ones leave the queue and their infos the map, the other infos stay, and the cache is
  -- bounded by the new capacity.
  pub set_capacity_correct :
      (n : ℕ) (c : PoolInfoCache Info Queue)
      → IsBounded L c
      → (c' : PoolInfoCache Info Queue) × (set_capacity L (pos (suc n)) c ≡ (ok tt, c'))
        × IsBounded L c'
        × (c'.max_size ≡ pos (suc n))
        × (entries c'.expire_queue
            ≡ drop (length (entries c.expire_queue) - n) (entries c.expire_queue))
        × ((k : Hash)
            → get L k c' ≡ (
                if contains (take (length (entries c.expire_queue) - n) (entries c.expire_queue)) k
                then none
                else get L k c))
  unfolding set_capacity get
  set_capacity_correct n c b =
      let (c', run, m, queued, kept, infos) =
        shrink_loop-ok (size c.expire_queue + 1) n (record c { max_size = pos (suc n) })
          (entries c.expire_queue) refl (omega (arith, size-entries c.expire_queue)) refl
          b.queued in
      let few : length (entries c'.expire_queue) ≤ n = omega (
        arith,
        ap (λ (l : List Hash). length l) kept,
        length-drop (length (entries c.expire_queue) - n) (entries c.expire_queue),
      ) in
      (
        c',
        run,
        record {
          queued = queued;
          room =
              inr (rw m (lt→ltb (length (entries c'.expire_queue) + 0) (suc n + 0) (omega arith)));
        },
        m,
        kept,
        infos,
      )

  -- On a bounded cache SetCapacity at a capacity of zero or less empties the cache, and then returns an error.
  pub set_capacity-err :
      (cap : ℤ) (c : PoolInfoCache Info Queue)
      → ((n : ℕ) → ltb_ℤ (pos n) cap ≡ false)
      → IsBounded L c
      → (c' : PoolInfoCache Info Queue) × (set_capacity L cap c ≡ (err capacity_not_reduced, c'))
        × (entries c'.expire_queue ≡ [])
        × ((k : Hash) → get L k c' ≡ none)
  unfolding set_capacity get
  set_capacity-err cap c never b =
      let (c', run, queued, emptied) =
        shrink_loop-err (size c.expire_queue + 1) (record c { max_size = cap })
          (entries c.expire_queue) refl (omega (arith, size-entries c.expire_queue)) never
          b.queued in
      (
        c',
        run,
        emptied,
        λ k. elim (Option-cases (c'.pool_info k)) [
          | inl missing ↦ missing
          | inr (i, found) ↦
              let q : contains (entries c'.expire_queue) k ≡ true = queued k i found in
              absurd (contains-nil k (rw emptied at q))
        ],
      )
