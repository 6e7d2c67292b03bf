-- ===== src/StakeDb/PoolInfoCache.antt =====
-- PoolInfoCache of v4/stakedb/stakedb.go: a map of pool info by block hash, and a queue of hashes by
-- which it is bounded. The queue is that of the package lane, as an interface. A method holds the
-- cache's lock, so it is one step.
mod Tests
pub mod Bounded
pub mod Capacity
use hc_data.Base.{
  ℕ, zero, suc, ◌+◌, ◌≡◌, Bool, not, List, [], ◌∷◌, ◌++◌, Option, none, some, ◌==◌, if◌then◌else◌,
  length,
}
use hc_data.Base.Int.{ℤ, pos, ltb_ℤ}
use hc_data.Base.Exec.{Outcome, ok, err, panic, out_of_fuel, Exec, pure, raise, continue}
use hc_data.Base.HashSet.{Hash}

-- lane.Queue, for hashes: first in, first out; Dequeue of an empty queue returns nil.
pub record Lane : Type 1 where
  pub Queue : Type 0
  pub entries : Queue → List Hash
  pub new_queue : Queue
  pub enqueue : Hash → Queue → Queue
  pub dequeue : Queue → Option Hash × Queue
  pub size : Queue → ℕ
  pub entries-new : entries new_queue ≡ []
  pub entries-enqueue : (h : Hash) (q : Queue) → entries (enqueue h q) ≡ entries q ++ h ∷ []
  pub dequeue-empty :
      (q : Queue) → entries q ≡ [] → ((dequeue q).0 ≡ none) × (entries (dequeue q).1 ≡ [])
  pub dequeue-first :
      (q : Queue) (h : Hash) (rest : List Hash)
      → entries q ≡ h ∷ rest
      → ((dequeue q).0 ≡ some h) × (entries (dequeue q).1 ≡ rest)
  pub size-entries : (q : Queue) → size q ≡ length (entries q)

pub data CacheError : Type 0 where
  capacity_not_reduced : CacheError

-- A map write and a map delete, on maps as functions.
abbrev pub store : {V : Type 0} → Hash → V → (Hash → Option V) → Hash → Option V
store k v m j = if k == j then some v else m j

abbrev pub delete : {V : Type 0} → Hash → (Hash → Option V) → Hash → Option V
delete k m j = if k == j then none else m j

pub record PoolInfoCache (Info Q : Type 0) : Type 0 where
  pub pool_info : Hash → Option Info
  pub expire_queue : Q
  pub max_size : ℤ

abbrev pub Method : Type 0 → Type 0 → Type 0
Method Info Q = Exec CacheError (PoolInfoCache Info Q) (Unit {0})

module _ {Info Q : Type 0} where
  -- The deletion of the hash that Dequeue returned; the type assertion of Set panics on nil.
  unfoldable pub expire : Option Hash × Q → Method Info Q
  expire (none, q) c = (panic, record c { expire_queue = q })
  expire (some hash, q) c =
      pure tt (record c { pool_info = delete hash c.pool_info; expire_queue = q })

module _ {Info : Type 0} (L : Lane) where
  open L use {Queue, new_queue, enqueue, dequeue, size}

  -- NewPoolInfoCache
  unfoldable pub new_pool_info_cache : ℤ → PoolInfoCache Info Queue
  new_pool_info_cache n = record { pool_info = λ _. none; expire_queue = new_queue; max_size = n }

  -- Get
  unfoldable pub get : Hash → PoolInfoCache Info Queue → Option Info
  get hash c = c.pool_info hash

  -- `c.expireQueue.Size() >= c.maxSize`
  abbrev pub is_full : PoolInfoCache Info Queue → Bool
  is_full c = not (ltb_ℤ (pos (size c.expire_queue)) c.max_size)

  -- Set
  unfoldable pub set : Hash → Info → Method Info Queue
  unfolding expire
  set hash info c =
      let c' = record c {
        pool_info = store hash info c.pool_info;
        expire_queue = enqueue hash c.expire_queue;
      } in
      if is_full c' then expire (dequeue c'.expire_queue) c' else pure tt c'

  -- One round of the loop of SetCapacity: nil from Dequeue is an error there.
  unfoldable pub shrink : Option Hash × Queue → Method Info Queue
  unfolding expire
  shrink (none, q) c = raise capacity_not_reduced (record c { expire_queue = q })
  shrink (some hash, q) c = expire (some hash, q) c

  unfoldable pub shrink_loop : ℕ → Method Info Queue
  shrink_loop zero c = (out_of_fuel, c)
  shrink_loop (suc fuel) c =
      let round = continue (shrink (dequeue c.expire_queue) c) (λ _. shrink_loop fuel) in
      if is_full c then round else pure tt c

  -- SetCapacity: each round takes an entry off the queue, or is the last.
  unfoldable pub set_capacity : ℤ → Method Info Queue
  unfolding shrink_loop shrink
  set_capacity cap c = shrink_loop (size c.expire_queue + 1) (record c { max_size = cap })
