-- ===== src/StakeDb/PoolInfoCache/Bounded.antt =====
-- Set of PoolInfoCache (v4/stakedb/stakedb.go): what it stores and expires, and the bound that it keeps.
use hc_data.Base.{
  ◌+◌, ◌≡◌, refl, sym, ap, ◌∙◌, ◌⊎◌, inl, inr, Bool, true, false, Bool-cases, List, [], ◌∷◌, ◌++◌,
  none, some, arith, ◌==◌, ==_refl, if◌then◌else◌, length, length-append, drop,
}
use hc_data.Base.Int.{pos, ltb_ℤ}
use hc_data.Base.Exec.{ok}
use hc_data.Base.HashSet.{Hash, contains, contains-append, contains-cons}
use hc_data.StakeDb.PoolInfoCache.{Lane, PoolInfoCache, get, set, store, delete, expire}

append-cons : (xs : List Hash) (y : Hash) → (h : Hash) × (t : List Hash) × (xs ++ y ∷ [] ≡ h ∷ t)
append-cons [] y = (y, [], refl)
append-cons (x ∷ xs) y = (x, xs ++ y ∷ [], refl)

empty_of_length : (xs : List Hash) → length xs ≡ 0 → xs ≡ []
empty_of_length [] h = refl
empty_of_length (x ∷ xs) h = absurd (omega arith)

-- Whether Set expires `k`: the queue with the new hash has reached the capacity, and `k` is its oldest.
abbrev pub expires : Bool → List Hash → Hash → Bool
expires true q k = false
expires false [] k = false
expires false (oldest ∷ rest) k = oldest == k

module _ {Info : Type 0} (L : Lane) where
  open L use {
    Queue, entries, enqueue, dequeue, size, entries-enqueue, dequeue-empty, dequeue-first,
    size-entries,
  }

  abbrev held : PoolInfoCache Info Queue → List Hash
  held c = entries c.expire_queue

  -- Every hash with an info stands in the queue, and the queue is shorter than the capacity or empty.
  pub record IsBounded (c : PoolInfoCache Info Queue) : Type 0 where
    pub queued :
        (h : Hash) (info : Info)
        → get L h c ≡ some info
        → contains (entries c.expire_queue) h ≡ true
    pub room :
        (entries c.expire_queue ≡ [])
        ⊎ (ltb_ℤ (pos (length (entries c.expire_queue))) c.max_size ≡ true)

  -- What Set leaves: where the queue, with the hash, is shorter than the capacity, the info is stored
  -- and nothing else changes; where it is not, the oldest hash leaves the queue and its info the map.
  pub record Stored (hash : Hash) (info : Info) (c c' : PoolInfoCache Info Queue) : Type 0 where
    pub max_size : c'.max_size ≡ c.max_size
    pub below :
        ltb_ℤ (pos (length (entries c.expire_queue) + 1)) c.max_size ≡ true
        → (entries c'.expire_queue ≡ entries c.expire_queue ++ hash ∷ [])
          × ((k : Hash) → get L k c' ≡ (if hash == k then some info else get L k c))
    pub at_capacity :
        ltb_ℤ (pos (length (entries c.expire_queue) + 1)) c.max_size ≡ false
        → (oldest : Hash) × (entries c.expire_queue ++ hash ∷ [] ≡ oldest ∷ entries c'.expire_queue)
          × ((k : Hash)
              → get L k c'
                ≡ (if oldest == k then none else if hash == k then some info else get L k c))

  module _ (hash : Hash) (info : Info) (c : PoolInfoCache Info Queue) where
    size-enqueue : size (enqueue hash c.expire_queue) ≡ length (entries c.expire_queue) + 1
    size-enqueue =
        size-entries _
        ∙ ap length (entries-enqueue hash c.expire_queue)
        ∙ length-append (entries c.expire_queue) (hash ∷ [])

    set-Stored :
        (c' : PoolInfoCache Info Queue) × (set L hash info c ≡ (ok tt, c')) × Stored hash info c c'
    unfolding set get
    set-Stored = elim (Bool-cases (ltb_ℤ (pos (length (entries c.expire_queue) + 1)) c.max_size)) [
      | inl room ↦ (
        record c {
          pool_info = store hash info c.pool_info;
          expire_queue = enqueue hash c.expire_queue;
        },
        rw (size-enqueue, room),
        record {
          max_size = refl;
          below = λ _. (entries-enqueue hash c.expire_queue, λ k. refl);
          at_capacity = λ full. cc;
        },
      )
      | inr full ↦
          let (oldest, rest, split) = append-cons (entries c.expire_queue) hash in
          let (first, others) =
            dequeue-first (enqueue hash c.expire_queue) oldest rest
              (entries-enqueue hash c.expire_queue ∙ split) in
          (
            record c {
              pool_info = delete oldest (store hash info c.pool_info);
              expire_queue = (dequeue (enqueue hash c.expire_queue)).1;
            },
            rw (size-enqueue, full, expire, first),
            record {
              max_size = refl;
              below = λ room. cc;
              at_capacity = λ _. (oldest, split ∙ ap (◌∷◌ oldest) (sym others), λ k. refl);
            },
          )
    ]

  Stored-IsBounded :
      (hash : Hash) (info : Info) (c c' : PoolInfoCache Info Queue)
      → IsBounded c
      → Stored hash info c c'
      → IsBounded c'
  Stored-IsBounded hash info c c' b s =
      elim (Bool-cases (ltb_ℤ (pos (length (entries c.expire_queue) + 1)) c.max_size)) [
        | inl room ↦
            let (grown, stored) = s.below room in
            record {
              queued = λ k i h.
                  rw (grown, contains-append)
                    (ground (arith, stored k, b.queued k i, contains-cons hash [] k));
              room =
                  inr (
                    rw (grown, s.max_size, length-append (entries c.expire_queue) (hash ∷ []))
                      room);
            }
        | inr full ↦
            let (oldest, split, stored) = s.at_capacity full in
            let same_size : length (entries c'.expire_queue) ≡ length (entries c.expire_queue) =
              omega (
                arith,
                length-append (entries c.expire_queue) (hash ∷ []),
                ap (λ (l : List Hash). length l) split,
              ) in
            record {
              queued = λ k i h. ground (
                arith,
                stored k,
                b.queued k i,
                contains-append (entries c.expire_queue) (hash ∷ []) k,
                ap (λ l. contains l k) split,
                contains-cons oldest (entries c'.expire_queue) k,
                contains-cons hash [] k,
              );
              room = elim b.room [
                | inl none_held ↦ inl (empty_of_length _ (same_size ∙ ap length none_held))
                | inr few ↦ inr (rw (same_size, s.max_size) few)
              ];
            }
      ]

  -- Set keeps the bound: every hash with an info is queued, and the queue never holds as many hashes as
  -- the capacity, unless it is empty.
  pub set-IsBounded :
      (hash : Hash) (info : Info) (c : PoolInfoCache Info Queue)
      → IsBounded c
      → IsBounded (set L hash info c).1
  set-IsBounded hash info c b =
      let (c', run, s) = set-Stored hash info c in rw run (Stored-IsBounded hash info c c' b s)

  -- Set never fails. It queues the hash and stores its info; where the queue with the hash has reached the
  -- capacity, the oldest hash leaves the queue and the infos, and nothing else changes.
  pub set_correct :
      (hash : Hash) (info : Info) (c : PoolInfoCache Info Queue)
      → (c' : PoolInfoCache Info Queue) × (set L hash info c ≡ (ok tt, c'))
        × (c'.max_size ≡ c.max_size)
        × (entries c'.expire_queue
            ≡ drop
                (if ltb_ℤ (pos (length (entries c.expire_queue) + 1)) c.max_size then 0 else 1)
                (entries c.expire_queue ++ hash ∷ []))
        × ((k : Hash)
            → get L k c' ≡ (
                if expires
                  (ltb_ℤ (pos (length (entries c.expire_queue) + 1)) c.max_size)
                  (entries c.expire_queue ++ hash ∷ [])
                  k
                then none
                else if hash == k
                then some info
                else get L k c))
  set_correct hash info c =
      let (c', run, s) = set-Stored hash info c in
      elim (Bool-cases (ltb_ℤ (pos (length (entries c.expire_queue) + 1)) c.max_size)) [
        | inl room ↦
            let (grown, stored) = s.below room in
            (c', run, s.max_size, rw room grown, λ k. rw room (stored k))
        | inr full ↦
            let (oldest, split, stored) = s.at_capacity full in
            (c', run, s.max_size, rw (full, split), λ k. rw (full, split) (stored k))
      ]

  -- The info that Set stores is lost at once where the hash is the oldest in the queue and the queue,
  -- with the hash once more, reaches the capacity.
  pub set_lost :
      (hash : Hash) (info : Info) (c : PoolInfoCache Info Queue) (rest : List Hash)
      → entries c.expire_queue ≡ hash ∷ rest
      → ltb_ℤ (pos (length (entries c.expire_queue) + 1)) c.max_size ≡ false
      → (c' : PoolInfoCache Info Queue) × (set L hash info c ≡ (ok tt, c')) × (get L hash c' ≡ none)
  set_lost hash info c rest split full =
      let (c', run, s) = set-Stored hash info c in
      let (oldest, shifted, stored) = s.at_capacity full in
      let whole : hash ∷ (rest ++ hash ∷ []) ≡ oldest ∷ entries c'.expire_queue =
        rw split at shifted in
      let same : hash ≡ oldest = ground arith in (c', run, rw (stored hash, ← same, ==_refl hash))
