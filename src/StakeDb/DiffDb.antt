-- ===== src/StakeDb/DiffDb.antt =====
-- PoolDiff of v4/stakedb/ticketpool.go, and the on-disk database of diffs as an interface: badger and
-- gob are not code of this repository.
use hc_data.Base.{ℕ, ◌≡◌, Bool, List, [], ◌∷◌, Option, some, ltb, ◌==◌, if◌then◌else◌}
use hc_data.Base.HashSet.{Hash}

-- PoolDiff: `in` is a word of this language.
pub record PoolDiff : Type 0 where
  pub tickets_in : List Hash
  pub tickets_out : List Hash

-- What a key-value store with ordered keys holds after a write: one item for each key, in key order.
-- The keys are heights as 8 big-endian bytes, so their order is that of the numbers.
unfoldable pub upsert : ℕ → PoolDiff → List (ℕ × PoolDiff) → List (ℕ × PoolDiff)
upsert h d [] = (h, d) ∷ []
upsert h d ((k, e) ∷ rest) =
    if ltb h k
    then (h, d) ∷ (k, e) ∷ rest
    else if h == k
    then (h, d) ∷ rest
    else (k, e) ∷ upsert h d rest

-- A badger database of gob-encoded diffs. `set` is one update transaction, which fails as a whole
-- (`none`); `items` is what an iterator meets, and `readable` says that every item can be fetched and
-- decoded.
pub record DiffDb : Type 1 where
  pub State : Type 0
  pub items : State → List (ℕ × PoolDiff)
  pub readable : State → Bool
  pub set : State → ℕ → PoolDiff → Option State
  pub items-set :
      (s : State) (h : ℕ) (d : PoolDiff) (t : State)
      → set s h d ≡ some t
      → items t ≡ upsert h d (items s)
