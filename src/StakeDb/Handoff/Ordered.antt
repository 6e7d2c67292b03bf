-- ===== src/StakeDb/Handoff/Ordered.antt =====
-- The order in which the calls of BlockConnectedSync (v4/stakedb/chainmonitor.go) return.
use hc_data.Base.{
  ℕ, ◌≡◌, ◌⊎◌, refl, Bool, true, false, inl, inr, List, [], ◌∷◌, ◌++◌, Option, none, some,
  if◌then◌else◌, get_elem?,
}
use hc_data.Base.HashSet.{Hash}
use hc_data.StakeDb.Handoff.Merged.{Merged, run-IsMerged, new-IsMerged}
use hc_data.StakeDb.Handoff.{
  Caller, idle, entered, announced, handed, Handler, waiting, received, connecting, releasing,
  signalling, stopped, ChainMonitor, new_chain_monitor, Thread, call, sync, handle, reorganize,
  quit, enter, is_locked, sync_step, handler_step, reorg_step, quit_step, step, or_stay, run,
}

-- How the two goroutines may stand to each other, with the content of ConnectingLock, the blocks for which
-- ConnectBlockHash has returned and those whose calls have returned
pub data InPhase : Caller → Bool → Handler → List Hash → List Hash → Type 0 where
  none_calls : (hs : List Hash) → InPhase idle false waiting hs hs
  none_calls_stopped : (hs : List Hash) → InPhase idle false stopped hs hs
  one_entered : (h : Hash) (hs : List Hash) → InPhase (entered h) false waiting hs hs
  one_entered_stopped : (h : Hash) (hs : List Hash) → InPhase (entered h) false stopped hs hs
  one_announced : (h : Hash) (hs : List Hash) → InPhase (announced h) true waiting hs hs
  one_announced_stopped : (h : Hash) (hs : List Hash) → InPhase (announced h) true stopped hs hs
  is_received : (h : Hash) (hs : List Hash) → InPhase (handed h) true (received h) hs hs
  is_connecting : (h : Hash) (hs : List Hash) → InPhase (handed h) false (connecting h true) hs hs
  is_connected :
      (h : Hash) (hs : List Hash) → InPhase (handed h) false (releasing true) (hs ++ h ∷ []) hs
  is_signalled : (h : Hash) (hs : List Hash) → InPhase (handed h) false signalling (hs ++ h ∷ []) hs

abbrev pub IsInPhase : ChainMonitor → Type 0
IsInPhase s = InPhase s.caller s.connecting_lock s.handler s.handled s.returned

abbrev pub monitor :
    List Hash
    → Caller
    → Bool
    → Handler
    → Bool
    → List Hash
    → List Hash
    → List Hash
    → List Hash
    → ChainMonitor
monitor pending caller token handler reorg hs rs cs fs = record {
  pending = pending;
  caller = caller;
  connecting_lock = token;
  handler = handler;
  reorg_locked = reorg;
  handled = hs;
  connected = cs;
  failed = fs;
  returned = rs;
}

module _ (pending : List Hash) (reorg : Bool) (cs fs : List Hash) where
  enter-IsInPhase :
      (o : Option Hash) (i : ℕ) (handler : Handler) (hs : List Hash)
      → InPhase idle false handler hs hs
      → ((h : Hash) → InPhase (entered h) false handler hs hs)
      → IsInPhase (
          or_stay
            (monitor pending idle false handler reorg hs hs cs fs)
            (enter o i (monitor pending idle false handler reorg hs hs cs fs)))
  enter-IsInPhase none i handler hs p k = p
  enter-IsInPhase (some h) i handler hs p k = k h

  sync_step-IsInPhase :
      (i : ℕ) (caller : Caller) (token : Bool) (handler : Handler) (hs rs : List Hash)
      → InPhase caller token handler hs rs
      → IsInPhase (
          or_stay
            (monitor pending caller token handler reorg hs rs cs fs)
            (sync_step i caller (monitor pending caller token handler reorg hs rs cs fs)))
  unfolding sync_step
  sync_step-IsInPhase i _ _ _ _ _ (none_calls hs) =
      enter-IsInPhase (get_elem? pending i) i waiting hs (none_calls hs) (λ h. one_entered h hs)
  sync_step-IsInPhase i _ _ _ _ _ (none_calls_stopped hs) =
      enter-IsInPhase (get_elem? pending i) i stopped hs (none_calls_stopped hs)
        (λ h. one_entered_stopped h hs)
  sync_step-IsInPhase i _ _ _ _ _ (one_entered h hs) = one_announced h hs
  sync_step-IsInPhase i _ _ _ _ _ (one_entered_stopped h hs) = one_announced_stopped h hs
  sync_step-IsInPhase i _ _ _ _ _ (one_announced h hs) = is_received h hs
  sync_step-IsInPhase i _ _ _ _ _ (one_announced_stopped h hs) = one_announced_stopped h hs
  sync_step-IsInPhase i _ _ _ _ _ (is_received h hs) = is_received h hs
  sync_step-IsInPhase i _ _ _ _ _ (is_connecting h hs) = is_connecting h hs
  sync_step-IsInPhase i _ _ _ _ _ (is_connected h hs) = is_connected h hs
  sync_step-IsInPhase i _ _ _ _ _ (is_signalled h hs) = is_signalled h hs

  receive-IsInPhase :
      (good locked : Bool) (h : Hash) (hs : List Hash)
      → IsInPhase (
          or_stay (monitor pending (handed h) true (received h) locked hs hs cs fs) (
            handler_step good
              (received h)
              (monitor pending (handed h) true (received h) locked hs hs cs fs)))
  unfolding handler_step
  receive-IsInPhase good true h hs = is_received h hs
  receive-IsInPhase good false h hs = is_connecting h hs

  handler_step-IsInPhase :
      (good : Bool) (caller : Caller) (token : Bool) (handler : Handler) (hs rs : List Hash)
      → InPhase caller token handler hs rs
      → IsInPhase (
          or_stay
            (monitor pending caller token handler reorg hs rs cs fs)
            (handler_step good handler (monitor pending caller token handler reorg hs rs cs fs)))
  unfolding handler_step
  handler_step-IsInPhase good _ _ _ _ _ (none_calls hs) = none_calls hs
  handler_step-IsInPhase good _ _ _ _ _ (none_calls_stopped hs) = none_calls_stopped hs
  handler_step-IsInPhase good _ _ _ _ _ (one_entered h hs) = one_entered h hs
  handler_step-IsInPhase good _ _ _ _ _ (one_entered_stopped h hs) = one_entered_stopped h hs
  handler_step-IsInPhase good _ _ _ _ _ (one_announced h hs) = one_announced h hs
  handler_step-IsInPhase good _ _ _ _ _ (one_announced_stopped h hs) = one_announced_stopped h hs
  handler_step-IsInPhase good _ _ _ _ _ (is_received h hs) = receive-IsInPhase good reorg h hs
  handler_step-IsInPhase good _ _ _ _ _ (is_connecting h hs) = is_connected h hs
  handler_step-IsInPhase good _ _ _ _ _ (is_connected h hs) = is_signalled h hs
  handler_step-IsInPhase good _ _ _ _ _ (is_signalled h hs) = none_calls (hs ++ h ∷ [])

  quit_step-IsInPhase :
      (caller : Caller) (token : Bool) (handler : Handler) (hs rs : List Hash)
      → InPhase caller token handler hs rs
      → IsInPhase (
          or_stay
            (monitor pending caller token handler reorg hs rs cs fs)
            (quit_step handler (monitor pending caller token handler reorg hs rs cs fs)))
  unfolding quit_step
  quit_step-IsInPhase _ _ _ _ _ (none_calls hs) = none_calls_stopped hs
  quit_step-IsInPhase _ _ _ _ _ (none_calls_stopped hs) = none_calls_stopped hs
  quit_step-IsInPhase _ _ _ _ _ (one_entered h hs) = one_entered_stopped h hs
  quit_step-IsInPhase _ _ _ _ _ (one_entered_stopped h hs) = one_entered_stopped h hs
  quit_step-IsInPhase _ _ _ _ _ (one_announced h hs) = one_announced_stopped h hs
  quit_step-IsInPhase _ _ _ _ _ (one_announced_stopped h hs) = one_announced_stopped h hs
  quit_step-IsInPhase _ _ _ _ _ (is_received h hs) = is_received h hs
  quit_step-IsInPhase _ _ _ _ _ (is_connecting h hs) = is_connecting h hs
  quit_step-IsInPhase _ _ _ _ _ (is_connected h hs) = is_connected h hs
  quit_step-IsInPhase _ _ _ _ _ (is_signalled h hs) = is_signalled h hs

if-IsInPhase :
    (b c : Bool) (s t u : ChainMonitor)
    → IsInPhase s
    → IsInPhase t
    → IsInPhase u
    → IsInPhase (or_stay s (if b then some t else if c then none else some u))
if-IsInPhase true c s t u p q r = q
if-IsInPhase false true s t u p q r = p
if-IsInPhase false false s t u p q r = r

reorg_step-IsInPhase : (s : ChainMonitor) → IsInPhase s → IsInPhase (or_stay s (reorg_step s))
unfolding reorg_step
reorg_step-IsInPhase s p =
    if-IsInPhase s.reorg_locked (is_locked s.handler) s (record s { reorg_locked = false })
      (record s { reorg_locked = true }) p p p

step-IsInPhase : (t : Thread) (s : ChainMonitor) → IsInPhase s → IsInPhase (or_stay s (step t s))
unfolding step
step-IsInPhase (call h) s p = p
step-IsInPhase (sync i) s p =
    sync_step-IsInPhase s.pending s.reorg_locked s.connected s.failed i s.caller s.connecting_lock
      s.handler s.handled s.returned p
step-IsInPhase (handle good) s p =
    handler_step-IsInPhase s.pending s.reorg_locked s.connected s.failed good s.caller
      s.connecting_lock s.handler s.handled s.returned p
step-IsInPhase reorganize s p = reorg_step-IsInPhase s p
step-IsInPhase quit s p =
    quit_step-IsInPhase s.pending s.reorg_locked s.connected s.failed s.caller s.connecting_lock
      s.handler s.handled s.returned p

pub run-IsInPhase :
    (schedule : List Thread) (s : ChainMonitor) → IsInPhase s → IsInPhase (run schedule s)
unfolding run
run-IsInPhase [] s p = p
run-IsInPhase (t ∷ rest) s p = run-IsInPhase rest (or_stay s (step t s)) (step-IsInPhase t s p)

new-IsInPhase : IsInPhase new_chain_monitor
unfolding new_chain_monitor
new-IsInPhase = none_calls []

pub reached-IsInPhase : (schedule : List Thread) → IsInPhase (run schedule new_chain_monitor)
reached-IsInPhase schedule = run-IsInPhase schedule new_chain_monitor new-IsInPhase

-- What a phase says of the log
in_order :
    (caller : Caller) (token : Bool) (handler : Handler) (hs rs : List Hash)
    → InPhase caller token handler hs rs
    → (hs ≡ rs) ⊎ ((h : Hash) × (caller ≡ handed h) × (hs ≡ rs ++ h ∷ []))
in_order _ _ _ _ _ (none_calls hs) = inl refl
in_order _ _ _ _ _ (none_calls_stopped hs) = inl refl
in_order _ _ _ _ _ (one_entered h hs) = inl refl
in_order _ _ _ _ _ (one_entered_stopped h hs) = inl refl
in_order _ _ _ _ _ (one_announced h hs) = inl refl
in_order _ _ _ _ _ (one_announced_stopped h hs) = inl refl
in_order _ _ _ _ _ (is_received h hs) = inl refl
in_order _ _ _ _ _ (is_connecting h hs) = inl refl
in_order _ _ _ _ _ (is_connected h hs) = inr (h, refl, refl)
in_order _ _ _ _ _ (is_signalled h hs) = inr (h, refl, refl)

-- Whatever the schedule, and whichever calls of ConnectBlockHash return an error: the blocks that were
-- connected and those that failed make up, in order, the blocks for which ConnectBlockHash has returned,
-- and these are the blocks whose calls of BlockConnectedSync have returned, in the same order, and after
-- them at most the block of the call that waits for DoneConnecting.
pub returned_in_order :
    (schedule : List Thread)
    → Merged
        (run schedule new_chain_monitor).connected
        (run schedule new_chain_monitor).failed
        (run schedule new_chain_monitor).handled
      × (((run schedule new_chain_monitor).handled ≡ (run schedule new_chain_monitor).returned)
          ⊎ ((h : Hash) × ((run schedule new_chain_monitor).caller ≡ handed h)
              × ((run schedule new_chain_monitor).handled
                  ≡ (run schedule new_chain_monitor).returned ++ h ∷ [])))
returned_in_order schedule =
    let s = run schedule new_chain_monitor in
    (
      run-IsMerged schedule new_chain_monitor new-IsMerged,
      in_order s.caller s.connecting_lock s.handler s.handled s.returned
          (reached-IsInPhase schedule),
    )
