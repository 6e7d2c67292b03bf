-- ===== src/StakeDb/Handoff.antt =====
-- BlockConnectedSync and BlockConnectedHandler of the ChainMonitor (v4/stakedb/chainmonitor.go), which run in
-- goroutines of their own, and hand a block over. A step is what one goroutine does up to its next wait;
-- a schedule says which goroutine is next. ConnectBlockHash is one step of the handler; whether it returns an
-- error is given with the step. The channel of blocks has no buffer, and is not closed while calls wait.

mod Tests
pub mod Merged
pub mod Ordered
pub mod Progress
use hc_data.Base.{
  ℕ, zero, suc, ◌+◌, Bool, true, false, not, List, [], ◌∷◌, ◌++◌, Option, none, some, if◌then◌else◌,
  get_elem?,
}
use hc_data.Base.HashSet.{Hash}

-- Where the call that holds syncConnect stands: none does, the lock is taken, ConnectingLock is filled, or
-- the hash is sent and the call waits for DoneConnecting.
pub data Caller : Type 0 where
  idle : Caller
  entered : Hash → Caller
  announced : Hash → Caller
  handed : Hash → Caller

-- Where the handler stands: it waits for a hash, has one, holds the monitor's lock with it and knows whether to
-- signal, is about to release the lock, is about to send on DoneConnecting, or has quit.
pub data Handler : Type 0 where
  waiting : Handler
  received : Hash → Handler
  connecting : Hash → Bool → Handler
  releasing : Bool → Handler
  signalling : Handler
  stopped : Handler

-- ChainMonitor, with its goroutines: the calls that wait for syncConnect, the content of ConnectingLock, and
-- whether a reorganization holds the lock. The log has the blocks for which ConnectBlockHash has returned, those
-- of them that it connected, those for which it returned an error, and those whose calls have returned.
pub record ChainMonitor : Type 0 where
  pub pending : List Hash
  pub caller : Caller
  pub connecting_lock : Bool
  pub handler : Handler
  pub reorg_locked : Bool
  pub handled : List Hash
  pub connected : List Hash
  pub failed : List Hash
  pub returned : List Hash

-- NewChainMonitor, with its handler started
unfoldable pub new_chain_monitor : ChainMonitor
new_chain_monitor = record {
  pending = [];
  caller = idle;
  connecting_lock = false;
  handler = waiting;
  reorg_locked = false;
  handled = [];
  connected = [];
  failed = [];
  returned = [];
}

-- What runs next: a new call of BlockConnectedSync, the call that holds or gets syncConnect (of those that
-- wait, the one at an index), the handler (where the step is its call of ConnectBlockHash, with whether that
-- succeeds), the reorganization handler, or the end of the context
pub data Thread : Type 0 where
  call : Hash → Thread
  sync : ℕ → Thread
  handle : Bool → Thread
  reorganize : Thread
  quit : Thread

abbrev pub remove_at : ℕ → List Hash → List Hash
remove_at i [] = []
remove_at zero (h ∷ hs) = hs
remove_at (suc i) (h ∷ hs) = h ∷ remove_at i hs

-- The lock syncConnect goes to a call that waits.
abbrev pub enter : Option Hash → ℕ → ChainMonitor → Option ChainMonitor
enter none i s = none
enter (some h) i s = some (record s { caller = entered h; pending = remove_at i s.pending })

-- `p.blockChan <- hash`, which waits for the handler
abbrev pub send_block : Hash → Handler → ChainMonitor → Option ChainMonitor
send_block h waiting s = some (record s { caller = handed h; handler = received h })
send_block h (received j) s = none
send_block h (connecting j b) s = none
send_block h (releasing b) s = none
send_block h signalling s = none
send_block h stopped s = none

-- A step of BlockConnectedSync
unfoldable pub sync_step : ℕ → Caller → ChainMonitor → Option ChainMonitor
sync_step i idle s = enter (get_elem? s.pending i) i s
sync_step i (entered h) s =
    if s.connecting_lock
    then none
    else some (record s { caller = announced h; connecting_lock = true })
sync_step i (announced h) s = send_block h s.handler s
sync_step i (handed h) s = none

-- `p.DoneConnecting <- struct{}{}`, which waits for the call, and lets it return
abbrev pub send_done : Caller → ChainMonitor → Option ChainMonitor
send_done (handed h) s =
    some (record s { caller = idle; handler = waiting; returned = s.returned ++ h ∷ [] })
send_done idle s = none
send_done (entered h) s = none
send_done (announced h) s = none

-- A step of BlockConnectedHandler, which releases the lock and signals in the same way after an error
unfoldable pub handler_step : Bool → Handler → ChainMonitor → Option ChainMonitor
handler_step good waiting s = none
handler_step good (received h) s =
    if s.reorg_locked
    then none
    else some (record s { handler = connecting h s.connecting_lock; connecting_lock = false })
handler_step good (connecting h signal) s = some (record s {
  handler = releasing signal;
  handled = s.handled ++ h ∷ [];
  connected = if good then s.connected ++ h ∷ [] else s.connected;
  failed = if good then s.failed else s.failed ++ h ∷ [];
})
handler_step good (releasing signal) s =
    some (record s { handler = if signal then signalling else waiting })
handler_step good signalling s = send_done s.caller s
handler_step good stopped s = none

-- Does the handler hold the monitor's lock?
abbrev pub is_locked : Handler → Bool
is_locked waiting = false
is_locked (received h) = false
is_locked (connecting h b) = true
is_locked (releasing b) = true
is_locked signalling = false
is_locked stopped = false

-- The reorganization handler takes the lock, or gives it back.
unfoldable pub reorg_step : ChainMonitor → Option ChainMonitor
reorg_step s =
    if s.reorg_locked
    then some (record s { reorg_locked = false })
    else if is_locked s.handler
    then none
    else some (record s { reorg_locked = true })

-- The end of the context is seen where the handler waits for a hash.
unfoldable pub quit_step : Handler → ChainMonitor → Option ChainMonitor
quit_step waiting s = some (record s { handler = stopped })
quit_step (received h) s = none
quit_step (connecting h b) s = none
quit_step (releasing b) s = none
quit_step signalling s = none
quit_step stopped s = none

-- A step, where the goroutine does not wait
unfoldable pub step : Thread → ChainMonitor → Option ChainMonitor
unfolding sync_step handler_step reorg_step quit_step
step (call h) s = some (record s { pending = s.pending ++ h ∷ [] })
step (sync i) s = sync_step i s.caller s
step (handle good) s = handler_step good s.handler s
step reorganize s = reorg_step s
step quit s = quit_step s.handler s

abbrev pub or_stay : ChainMonitor → Option ChainMonitor → ChainMonitor
or_stay s none = s
or_stay s (some t) = t

-- A run by a schedule; a goroutine that waits is passed over.
unfoldable pub run : List Thread → ChainMonitor → ChainMonitor
unfolding step
run [] s = s
run (t ∷ rest) s = run rest (or_stay s (step t s))
