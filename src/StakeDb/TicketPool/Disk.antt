-- ===== src/StakeDb/TicketPool/Disk.antt =====
-- The methods of v4/stakedb/ticketpool.go that write and load the on-disk diffs. Opening the database
-- and the migration from the older storm database are left out.
use hc_data.Base.{ℕ, ◌+◌, List, [], ◌∷◌, Option, none, some, ◌==◌, if◌then◌else◌, length, map}
use hc_data.Base.Int.{ℤ, pos, pos_part, beq_ℤ}
use hc_data.Base.Exec.{Outcome, ok, err, panic, out_of_fuel, pure, raise, continue}
use hc_data.StakeDb.DiffDb.{PoolDiff, DiffDb}
use hc_data.StakeDb.TicketPool.{
  TicketPool, Method, PoolError, not_building, store_failed, load_failed, append, advance,
}

-- The loop of LoadAllPoolDiffs: a height that does not follow the last one panics.
unfoldable pub follow_on : ℕ → List (ℕ × PoolDiff) → Outcome PoolError (Unit {0})
follow_on last [] = ok tt
follow_on last ((height, diff) ∷ rest) =
    let loaded = follow_on height rest in if last + 1 == height then loaded else panic

abbrev pub end_height : ℕ → List (ℕ × PoolDiff) → ℕ
end_height h [] = h
end_height h ((k, _) ∷ rest) = end_height k rest

-- What the update transaction returned.
unfoldable pub keep_written : {S : Type 0} → Option S → Method S (Unit {0})
keep_written none tp = raise store_failed tp
keep_written (some db) tp = pure tt (record tp { diff_db = db })

-- What the view transaction returned.
unfoldable pub walked :
    List (ℕ × PoolDiff) → Outcome PoolError (Unit {0}) → Outcome PoolError (List (ℕ × PoolDiff))
walked loaded (ok _) = ok loaded
walked loaded (err e) = err e
walked loaded panic = panic
walked loaded out_of_fuel = out_of_fuel

-- The rest of NewTicketPool, from the loaded items.
unfoldable pub from_loaded :
    {S : Type 0} → S → Outcome PoolError (List (ℕ × PoolDiff)) → Outcome PoolError (TicketPool S)
from_loaded db (ok loaded) =
    if length loaded == end_height 0 loaded
    then ok (record {
      cursor = 0;
      tip = length loaded;
      diffs = map (λ (_, diff). diff) loaded;
      pool = [];
      diff_db = db;
    })
    else panic
from_loaded db (err e) = err e
from_loaded db panic = panic
from_loaded db out_of_fuel = out_of_fuel

module _ (D : DiffDb) where
  open D use {State, items, readable, set}

  -- storeDiff: the key is the height as an unsigned number.
  unfoldable pub store_diff : PoolDiff → ℤ → Method State (Unit {0})
  unfolding keep_written
  store_diff diff height tp = keep_written (set tp.diff_db (pos_part height) diff) tp

  -- Append
  unfoldable pub append_diff : PoolDiff → ℤ → Method State (Unit {0})
  unfolding append store_diff
  append_diff diff height tp =
      if beq_ℤ height (pos (tp.tip + 1))
      then store_diff diff height (append diff tp)
      else raise (not_building height tp.tip) tp

  unfoldable pub append_and_advance_pool : PoolDiff → ℤ → Method State (Unit {0})
  unfolding append store_diff
  append_and_advance_pool diff height tp =
      if beq_ℤ height (pos (tp.tip + 1))
      then continue (store_diff diff height (append diff tp)) (λ _. advance)
      else raise (not_building height tp.tip) tp

  unfoldable pub load_all_pool_diffs : State → Outcome PoolError (List (ℕ × PoolDiff))
  unfolding follow_on walked
  load_all_pool_diffs db =
      if readable db then walked (items db) (follow_on 0 (items db)) else err load_failed

  -- NewTicketPool, from the open database on.
  unfoldable pub new_ticket_pool : State → Outcome PoolError (TicketPool State)
  unfolding load_all_pool_diffs from_loaded
  new_ticket_pool db = from_loaded db (load_all_pool_diffs db)
