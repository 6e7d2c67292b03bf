-- ===== src/StakeDb/Handoff/Tests.antt =====
-- Schedules of the goroutines of the ChainMonitor (v4/stakedb/chainmonitor.go).
use hc_data.Base.{true, false, ◌≡◌, ◌⊎◌, refl, List, [], ◌∷◌, ◌++◌}
use hc_data.Base.HashSet.{Hash}
use hc_data.StakeDb.Handoff.{
  announced, handed, new_chain_monitor, Thread, call, sync, handle, quit, run,
}
use hc_data.StakeDb.Handoff.Merged.{Merged}
use hc_data.StakeDb.Handoff.Ordered.{returned_in_order}
use hc_data.StakeDb.Handoff.Progress.{call_after_quit_waits}

-- Two calls, of which the second gets the lock first, and is in progress
abbrev two_calls : List Thread
two_calls =
    call 7 ∷ call 8 ∷ sync 1 ∷ sync 0 ∷ handle true ∷ sync 0 ∷ handle true ∷ handle true ∷ []

-- The second call has returned, and then the first one, whose block is not connected.
abbrev one_fails : List Thread
one_fails =
    two_calls
    ++ handle true
      ∷ handle true
      ∷ sync 0
      ∷ sync 0
      ∷ sync 0
      ∷ handle true
      ∷ handle false
      ∷ handle true
      ∷ handle true
      ∷ []

both_handled :
    ((run one_fails new_chain_monitor).connected ≡ 8 ∷ [])
    × ((run one_fails new_chain_monitor).failed ≡ 7 ∷ [])
    × ((run one_fails new_chain_monitor).returned ≡ 8 ∷ 7 ∷ [])
unfolding new_chain_monitor run
both_handled = (refl, refl, refl)

returned_in_order_example :
    Merged
      (run one_fails new_chain_monitor).connected
      (run one_fails new_chain_monitor).failed
      (run one_fails new_chain_monitor).handled
    × (((run one_fails new_chain_monitor).handled ≡ (run one_fails new_chain_monitor).returned)
        ⊎ ((h : Hash) × ((run one_fails new_chain_monitor).caller ≡ handed h)
            × ((run one_fails new_chain_monitor).handled
                ≡ (run one_fails new_chain_monitor).returned ++ h ∷ [])))
returned_in_order_example = returned_in_order one_fails

abbrev late_call : List Thread
late_call = quit ∷ call 7 ∷ sync 0 ∷ sync 0 ∷ []

call_after_quit_waits_example :
    (run two_calls (run late_call new_chain_monitor)).caller ≡ announced 7
unfolding new_chain_monitor run
call_after_quit_waits_example =
    call_after_quit_waits 7 two_calls (run late_call new_chain_monitor) refl refl
