-- ===== src/StakeDb/Handoff/Progress.antt =====
-- That calls of BlockConnectedSync (v4/stakedb/chainmonitor.go) do not wait for each other for ever.
use hc_data.Base.{
  ◌∙◌, ap, ap₂, ℕ, ◌+◌, ◌*◌, ◌<◌, ◌≡◌, refl, Bool, true, false, List, [], ◌∷◌, some, length,
}
use hc_data.Base.HashSet.{Hash}
use hc_data.StakeDb.Handoff.{
  reorganize, quit, call, quit_step, reorg_step, or_stay, Caller, idle, entered, announced, handed,
  Handler, waiting, received, connecting, releasing, signalling, stopped, ChainMonitor, Thread,
  sync, handle, sync_step, handler_step, step, run,
}
use hc_data.StakeDb.Handoff.Ordered.{monitor}

abbrev pub is_stopped : Handler → Bool
is_stopped waiting = false
is_stopped (received h) = false
is_stopped (connecting h b) = false
is_stopped (releasing b) = false
is_stopped signalling = false
is_stopped stopped = true

-- Has a call not returned yet?
abbrev pub is_called : Caller → List Hash → Bool
is_called idle [] = false
is_called idle (h ∷ hs) = true
is_called (entered h) hs = true
is_called (announced h) hs = true
is_called (handed h) hs = true

-- The number of steps that the handler takes for the hash that it has, and before them those of the call
abbrev handler_left : Handler → ℕ
handler_left waiting = 0
handler_left (received h) = 4
handler_left (connecting h b) = 3
handler_left (releasing b) = 2
handler_left signalling = 1
handler_left stopped = 0

abbrev caller_left : Caller → Handler → ℕ
caller_left idle handler = 0
caller_left (entered h) handler = 6
caller_left (announced h) handler = 5
caller_left (handed h) handler = handler_left handler

-- The number of steps until all calls have returned
abbrev pub steps_left : ChainMonitor → ℕ
steps_left s = 7 * length s.pending + caller_left s.caller s.handler

-- A step of the calls or of the handler that leaves fewer steps, whether or not ConnectBlockHash, where it is
-- what the handler calls, succeeds
abbrev pub Advances : ChainMonitor → Type 0
Advances s =
    (t : Bool → Thread) × ((good : Bool)
      → (s' : ChainMonitor) × (step (t good) s ≡ some s') × (steps_left s' < steps_left s))

-- The handler has quit, and a call waits to send it a hash.
abbrev pub IsLeft : Hash → ChainMonitor → Type 0
IsLeft h s = (s.caller ≡ announced h) × (s.handler ≡ stopped)

monitor-IsLeft :
    (h : Hash) (t : Thread) (pending : List Hash) (token reorg : Bool) (hs rs cs fs : List Hash)
    → IsLeft h (
        or_stay
          (monitor pending (announced h) token stopped reorg hs rs cs fs)
          (step t (monitor pending (announced h) token stopped reorg hs rs cs fs)))
unfolding step sync_step handler_step reorg_step quit_step
monitor-IsLeft h (call j) pending token reorg hs rs cs fs = (refl, refl)
monitor-IsLeft h (sync i) pending token reorg hs rs cs fs = (refl, refl)
monitor-IsLeft h (handle good) pending token reorg hs rs cs fs = (refl, refl)
monitor-IsLeft h reorganize pending token true hs rs cs fs = (refl, refl)
monitor-IsLeft h reorganize pending token false hs rs cs fs = (refl, refl)
monitor-IsLeft h quit pending token reorg hs rs cs fs = (refl, refl)

step-IsLeft :
    (h : Hash) (t : Thread) (s : ChainMonitor) → IsLeft h s → IsLeft h (or_stay s (step t s))
step-IsLeft h t s (at_send, quitted) =
    let same : s
        ≡ monitor s.pending (announced h) s.connecting_lock stopped s.reorg_locked s.handled
            s.returned s.connected s.failed =
      ap₂
        (λ c k.
          monitor s.pending c s.connecting_lock k s.reorg_locked s.handled s.returned s.connected
            s.failed)
        at_send quitted in
    let left =
      monitor-IsLeft h t s.pending s.connecting_lock s.reorg_locked s.handled s.returned s.connected
        s.failed in
    (
      ap (λ x. (or_stay x (step t x)).caller) same ∙ left.0,
      ap (λ x. (or_stay x (step t x)).handler) same ∙ left.1,
    )

-- A call that comes after the end of the context, when the handler has quit, never returns: whatever the
-- schedule, it still waits to send its hash.
pub call_after_quit_waits :
    (h : Hash) (schedule : List Thread) (s : ChainMonitor)
    → s.caller ≡ announced h
    → s.handler ≡ stopped
    → (run schedule s).caller ≡ announced h
unfolding run
call_after_quit_waits h [] s at_send quitted = at_send
call_after_quit_waits h (t ∷ rest) s at_send quitted =
    let left = step-IsLeft h t s (at_send, quitted) in
    call_after_quit_waits h rest (or_stay s (step t s)) left.0 left.1
