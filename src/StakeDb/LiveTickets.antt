-- ===== src/StakeDb/LiveTickets.antt =====
-- The live ticket cache and the pool value of StakeDatabase (v4/stakedb/stakedb.go): applyDiff,
-- undoDiff and PopulateLiveTicketCache. The node's answer to a request for a transaction is an
-- argument: the hash of the transaction and the value of its first output, or an error.
mod Tests
pub mod Summed
pub mod Undo
pub mod Populate
use hc_data.Base.{Bool, true, false, List, [], ◌∷◌, Option, none, some, ◌==◌, if◌then◌else◌}
use hc_data.Base.Int.{ℤ, pos, ◌+ℤ◌, ◌-ℤ◌}
use hc_data.Base.Exec.{Outcome, ok, err, panic, out_of_fuel}
use hc_data.Base.HashSet.{Hash}
use hc_data.Base.HashMap.{lookup, insert, erase}
use hc_data.StakeDb.DiffDb.{PoolDiff}

pub record LiveTickets : Type 0 where
  pub live_ticket_cache : List (Hash × ℤ)
  pub pool_value : ℤ

pub data FetchError : Type 0 where
  rpc_failed : FetchError

-- What the node answers for a ticket.
abbrev pub Fetch : Type 0
Fetch = Hash → Option (Hash × ℤ)

-- One round of the first loop of applyDiff: a ticket that is there already, or that the node does not
-- give, is passed over.
unfoldable pub add_fetched : Hash → Option (Hash × ℤ) → LiveTickets → LiveTickets
add_fetched hash none s = s
add_fetched hash (some (tx_hash, val)) s = record {
  live_ticket_cache = insert hash val s.live_ticket_cache;
  pool_value = s.pool_value +ℤ val;
}

-- One round of the second loop: a ticket that is not there is passed over.
unfoldable pub remove_found : Hash → Option ℤ → LiveTickets → LiveTickets
remove_found hash none s = s
remove_found hash (some val) s = record {
  live_ticket_cache = erase hash s.live_ticket_cache;
  pool_value = s.pool_value -ℤ val;
}

pub remove_tickets : List Hash → LiveTickets → LiveTickets
unfolding remove_found
remove_tickets [] s = s
remove_tickets (hash ∷ rest) s =
    remove_tickets rest (remove_found hash (lookup hash s.live_ticket_cache) s)

-- One answer that PopulateLiveTicketCache receives; the flag says that one failed before.
unfoldable pub receive :
    Hash → Option (Hash × ℤ) → Bool × LiveTickets → Outcome FetchError (Bool × LiveTickets)
receive ticket none (failed, s) = ok (true, s)
receive ticket (some (tx_hash, value)) (failed, s) =
    if tx_hash == ticket
    then ok (
      failed,
      record {
        live_ticket_cache = insert ticket value s.live_ticket_cache;
        pool_value = s.pool_value +ℤ value;
      },
    )
    else panic

unfoldable pub receive_rest :
    (Bool × LiveTickets → Outcome FetchError (Bool × LiveTickets))
    → Outcome FetchError (Bool × LiveTickets)
    → Outcome FetchError (Bool × LiveTickets)
receive_rest next (ok s) = next s
receive_rest next (err e) = err e
receive_rest next panic = panic
receive_rest next out_of_fuel = out_of_fuel

module _ (fetch : Fetch) where
  unfoldable pub add_missing : Hash → Option ℤ → LiveTickets → LiveTickets
  unfolding add_fetched
  add_missing hash (some val) s = s
  add_missing hash none s = add_fetched hash (fetch hash) s

  pub add_tickets : List Hash → LiveTickets → LiveTickets
  unfolding add_missing
  add_tickets [] s = s
  add_tickets (hash ∷ rest) s =
      add_tickets rest (add_missing hash (lookup hash s.live_ticket_cache) s)

  -- applyDiff
  unfoldable pub apply_diff : PoolDiff → LiveTickets → LiveTickets
  apply_diff diff s = remove_tickets diff.tickets_out (add_tickets diff.tickets_in s)

  -- undoDiff
  unfoldable pub undo_diff : PoolDiff → LiveTickets → LiveTickets
  unfolding apply_diff
  undo_diff diff s =
      apply_diff (record { tickets_in = diff.tickets_out; tickets_out = diff.tickets_in }) s

  pub receive_all : List Hash → Bool × LiveTickets → Outcome FetchError (Bool × LiveTickets)
  unfolding receive receive_rest
  receive_all [] s = ok s
  receive_all (ticket ∷ rest) s = receive_rest (receive_all rest) (receive ticket (fetch ticket) s)

  -- PopulateLiveTicketCache, for the live tickets of the best node: the cache and the value that it
  -- builds, beside whether it returns an error.
  unfoldable pub populate : List Hash → Outcome FetchError (Bool × LiveTickets)
  unfolding receive_all
  populate live_tickets =
      receive_all live_tickets (false, record { live_ticket_cache = []; pool_value = pos 0 })
