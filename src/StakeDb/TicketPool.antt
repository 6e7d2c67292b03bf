-- ===== src/StakeDb/TicketPool.antt =====
-- TicketPool of v4/stakedb/ticketpool.go: the diffs of the live ticket pool, a cursor at the next diff
-- to apply, and the pool at the cursor. The read-write lock is held by every method that is modelled,
-- so a method is one step. Log lines are left out.
mod Tests
pub mod Replay
pub mod Step
pub mod Walk
pub mod Trim
pub mod Disk
pub mod Persist
use hc_data.Base.{
  ℕ, zero, suc, ◌+◌, ◌-◌, ◌||◌, List, [], ◌∷◌, ◌++◌, Option, none, some, true, false, ltb, ◌==◌,
  if◌then◌else◌, length, get_elem?, take,
}
use hc_data.Base.Int.{ℤ, pos, ◌+ℤ◌, ◌-ℤ◌, ltb_ℤ, beq_ℤ}
use hc_data.Base.Exec.{Outcome, ok, err, panic, out_of_fuel, Exec, pure, raise, continue, ◌>>◌}
use hc_data.Base.HashSet.{Hash, insert_all, erase_all}
use hc_data.StakeDb.DiffDb.{PoolDiff}

-- The errors that the methods return, with the values that their messages show.
pub data PoolError : Type 0 where
  not_building not_connected : ℤ → ℕ → PoolError
  cursor_at_tip past_tip cursor_at_genesis store_failed load_failed : PoolError
  invalid_destination : ℤ → PoolError
  pool_size : ℕ → ℤ → PoolError

-- `cursor` and `tip` are never negative: each is decremented behind a test.
pub record TicketPool (S : Type 0) : Type 0 where
  pub cursor : ℕ
  pub tip : ℕ
  pub diffs : List PoolDiff
  pub pool : List Hash
  pub diff_db : S

abbrev pub Method : Type 0 → Type 0 → Type 0
Method S A = Exec PoolError (TicketPool S) A

abbrev pub empty_diff : PoolDiff
empty_diff = record { tickets_in = []; tickets_out = [] }

module _ {S : Type 0} where
  -- append
  unfoldable pub append : PoolDiff → TicketPool S → TicketPool S
  append diff tp = record tp { tip = tp.tip + 1; diffs = tp.diffs ++ diff ∷ [] }

  unfoldable pub max_cursor : TicketPool S → ℕ
  max_cursor tp = if tp.tip == 0 then 0 else tp.tip - 1

  unfoldable pub apply_diff : List Hash → List Hash → TicketPool S → TicketPool S
  apply_diff tickets_in tickets_out tp = record tp {
    pool = erase_all tickets_out (insert_all tickets_in tp.pool);
  }

  -- The rest of advance, from the diff at the cursor: an index past the end panics.
  pub apply_next : Option PoolDiff → Method S (Unit {0})
  unfolding apply_diff
  apply_next none tp = (panic, tp)
  apply_next (some diff) tp =
      let expected =
        pos (length tp.pool) +ℤ pos (length diff.tickets_in) -ℤ pos (length diff.tickets_out) in
      let next = record (apply_diff diff.tickets_in diff.tickets_out tp) {
        cursor = tp.cursor + 1;
      } in
      if beq_ℤ (pos (length next.pool)) expected
      then pure tt next
      else raise (pool_size (length next.pool) expected) next

  unfoldable pub advance : Method S (Unit {0})
  unfolding apply_next max_cursor
  advance tp =
      if ltb (max_cursor tp) tp.cursor
      then raise cursor_at_tip tp
      else apply_next (get_elem? tp.diffs tp.cursor) tp

  -- The rest of retreat, from the diff before the cursor.
  pub undo_previous : Option PoolDiff → Method S (Unit {0})
  unfolding apply_diff
  undo_previous none tp = (panic, tp)
  undo_previous (some diff) tp =
      let expected =
        pos (length tp.pool) -ℤ pos (length diff.tickets_in) +ℤ pos (length diff.tickets_out) in
      let previous = record (apply_diff diff.tickets_out diff.tickets_in tp) {
        cursor = tp.cursor - 1;
      } in
      if beq_ℤ (pos (length previous.pool)) expected
      then pure tt previous
      else raise (pool_size (length previous.pool) expected) previous

  unfoldable pub retreat : Method S (Unit {0})
  unfolding undo_previous
  retreat tp =
      if tp.cursor == 0
      then raise cursor_at_genesis tp
      else undo_previous (get_elem? tp.diffs (tp.cursor - 1)) tp

  -- `for height > tp.cursor { advance }`
  pub advance_loop : ℕ → ℤ → Method S (Unit {0})
  advance_loop zero height tp = (out_of_fuel, tp)
  advance_loop (suc fuel) height tp =
      let round = continue (advance tp) (λ _. advance_loop fuel height) in
      if ltb_ℤ (pos tp.cursor) height then round else pure tt tp

  -- A round raises the cursor, which stays within the tip.
  unfoldable pub advance_while : ℤ → Method S (Unit {0})
  advance_while height tp = advance_loop (tp.tip + 1) height tp

  -- `for tp.cursor > height { retreat }`
  unfoldable pub retreat_loop : ℕ → ℤ → Method S (Unit {0})
  retreat_loop zero height tp = (out_of_fuel, tp)
  retreat_loop (suc fuel) height tp =
      let round = continue (retreat tp) (λ _. retreat_loop fuel height) in
      if ltb_ℤ height (pos tp.cursor) then round else pure tt tp

  -- A round lowers the cursor; at a negative height the last round is an error.
  unfoldable pub retreat_while : ℤ → Method S (Unit {0})
  retreat_while height tp = retreat_loop (tp.cursor + 1) height tp

  unfoldable pub advance_to : ℤ → Method S (Unit {0})
  advance_to height tp =
      if ltb_ℤ (pos tp.tip) height then raise past_tip tp else advance_while height tp

  -- AdvanceToTip returns the cursor less one also beside an error.
  unfoldable pub advance_to_tip : TicketPool S → (ℤ × Outcome PoolError (Unit {0})) × TicketPool S
  advance_to_tip tp =
      let (r, tp') = advance_to (pos tp.tip) tp in ((pos tp'.cursor -ℤ pos 1, r), tp')

  unfoldable pub retreat_to : ℤ → Method S (Unit {0})
  retreat_to height tp =
      if ltb_ℤ height (pos 0) || ltb_ℤ (pos tp.tip) height
      then raise (invalid_destination height) tp
      else retreat_while height tp

  unfoldable pub current_pool : TicketPool S → List Hash × ℕ
  current_pool tp = (tp.pool, tp.cursor)

  -- Pool
  unfoldable pub pool_at : ℤ → Method S (List Hash)
  unfolding current_pool
  pool_at height tp =
      if ltb_ℤ (pos tp.tip) height
      then raise (not_connected height tp.tip) tp
      else (do advance_while height; retreat_while height; λ tp'. pure (current_pool tp').0 tp') tp

  -- The end of trim: the last diff is removed and returned.
  pub cut_undo : Option PoolDiff → Method S (ℕ × PoolDiff)
  cut_undo none tp = (panic, tp)
  cut_undo (some undo) tp =
      pure (tp.tip, undo) (record tp { diffs = take (length tp.diffs - 1) tp.diffs })

  pub cut_last : Method S (ℕ × PoolDiff)
  unfolding cut_undo
  cut_last tp = cut_undo (get_elem? tp.diffs (length tp.diffs - 1)) tp

  -- An error of retreatTo is logged and dropped.
  pub ignore_error :
      Outcome PoolError (Unit {0}) × TicketPool S
      → Method S (ℕ × PoolDiff)
      → Outcome PoolError (ℕ × PoolDiff) × TicketPool S
  ignore_error (ok _, tp) f = f tp
  ignore_error (err _, tp) f = f tp
  ignore_error (panic, tp) f = (panic, tp)
  ignore_error (out_of_fuel, tp) f = (out_of_fuel, tp)

  unfoldable pub trim : Method S (ℕ × PoolDiff)
  unfolding cut_last ignore_error max_cursor
  trim tp =
      if tp.tip == 0 || length tp.diffs == 0
      then pure (tp.tip, empty_diff) tp
      else (let shorter = record tp { tip = tp.tip - 1 } in
          if ltb (max_cursor shorter) shorter.cursor
          then ignore_error (retreat_to (pos (max_cursor shorter)) shorter) cut_last
          else cut_last shorter)
