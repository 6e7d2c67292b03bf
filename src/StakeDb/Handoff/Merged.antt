-- ===== src/StakeDb/Handoff/Merged.antt =====
-- The log of BlockConnectedHandler (v4/stakedb/chainmonitor.go): which of its blocks were connected.
use hc_data.Base.{
  ℕ, Bool, true, false, List, [], ◌∷◌, ◌++◌, Option, none, some, if◌then◌else◌, get_elem?,
}
use hc_data.Base.HashSet.{Hash}
use hc_data.StakeDb.Handoff.{
  Caller, idle, entered, announced, handed, Handler, waiting, received, connecting, releasing,
  signalling, stopped, ChainMonitor, new_chain_monitor, Thread, call, sync, handle, reorganize,
  quit, enter, send_block, send_done, is_locked, sync_step, handler_step, reorg_step, quit_step,
  step, or_stay, run,
}

-- The blocks that were connected and those that failed make up, in order, the blocks for which
-- ConnectBlockHash has returned.
pub data Merged : List Hash → List Hash → List Hash → Type 0 where
  none_handled : Merged [] [] []
  one_connected :
      (h : Hash) (cs fs hs : List Hash) → Merged cs fs hs → Merged (cs ++ h ∷ []) fs (hs ++ h ∷ [])
  one_failed :
      (h : Hash) (cs fs hs : List Hash) → Merged cs fs hs → Merged cs (fs ++ h ∷ []) (hs ++ h ∷ [])

abbrev pub IsMerged : ChainMonitor → Type 0
IsMerged s = Merged s.connected s.failed s.handled

enter-IsMerged :
    (o : Option Hash) (i : ℕ) (s : ChainMonitor) → IsMerged s → IsMerged (or_stay s (enter o i s))
enter-IsMerged none i s p = p
enter-IsMerged (some h) i s p = p

send_block-IsMerged :
    (h : Hash) (handler : Handler) (s : ChainMonitor)
    → IsMerged s
    → IsMerged (or_stay s (send_block h handler s))
send_block-IsMerged h waiting s p = p
send_block-IsMerged h (received j) s p = p
send_block-IsMerged h (connecting j b) s p = p
send_block-IsMerged h (releasing b) s p = p
send_block-IsMerged h signalling s p = p
send_block-IsMerged h stopped s p = p

send_done-IsMerged :
    (caller : Caller) (s : ChainMonitor) → IsMerged s → IsMerged (or_stay s (send_done caller s))
send_done-IsMerged idle s p = p
send_done-IsMerged (entered h) s p = p
send_done-IsMerged (announced h) s p = p
send_done-IsMerged (handed h) s p = p

if-IsMerged :
    (b : Bool) (s : ChainMonitor) (x y : Option ChainMonitor)
    → IsMerged (or_stay s x)
    → IsMerged (or_stay s y)
    → IsMerged (or_stay s (if b then x else y))
if-IsMerged true s x y p q = p
if-IsMerged false s x y p q = q

sync_step-IsMerged :
    (i : ℕ) (caller : Caller) (s : ChainMonitor)
    → IsMerged s
    → IsMerged (or_stay s (sync_step i caller s))
unfolding sync_step
sync_step-IsMerged i idle s p = enter-IsMerged (get_elem? s.pending i) i s p
sync_step-IsMerged i (entered h) s p =
    if-IsMerged s.connecting_lock s none
      (some (record s { caller = announced h; connecting_lock = true })) p p
sync_step-IsMerged i (announced h) s p = send_block-IsMerged h s.handler s p
sync_step-IsMerged i (handed h) s p = p

handler_step-IsMerged :
    (good : Bool) (handler : Handler) (s : ChainMonitor)
    → IsMerged s
    → IsMerged (or_stay s (handler_step good handler s))
unfolding handler_step
handler_step-IsMerged good waiting s p = p
handler_step-IsMerged good (received h) s p =
    if-IsMerged s.reorg_locked s none
      (some (record s { handler = connecting h s.connecting_lock; connecting_lock = false })) p p
handler_step-IsMerged true (connecting h signal) s p =
    one_connected h s.connected s.failed s.handled p
handler_step-IsMerged false (connecting h signal) s p =
    one_failed h s.connected s.failed s.handled p
handler_step-IsMerged good (releasing signal) s p = p
handler_step-IsMerged good signalling s p = send_done-IsMerged s.caller s p
handler_step-IsMerged good stopped s p = p

quit_step-IsMerged :
    (handler : Handler) (s : ChainMonitor) → IsMerged s → IsMerged (or_stay s (quit_step handler s))
unfolding quit_step
quit_step-IsMerged waiting s p = p
quit_step-IsMerged (received h) s p = p
quit_step-IsMerged (connecting h b) s p = p
quit_step-IsMerged (releasing b) s p = p
quit_step-IsMerged signalling s p = p
quit_step-IsMerged stopped s p = p

reorg_step-IsMerged : (s : ChainMonitor) → IsMerged s → IsMerged (or_stay s (reorg_step s))
unfolding reorg_step
reorg_step-IsMerged s p =
    let taken : ChainMonitor = record s { reorg_locked = true } in
    if-IsMerged s.reorg_locked s (some (record s { reorg_locked = false }))
      (if is_locked s.handler then none else some taken) p
      (if-IsMerged (is_locked s.handler) s none (some taken) p p)

step-IsMerged : (t : Thread) (s : ChainMonitor) → IsMerged s → IsMerged (or_stay s (step t s))
unfolding step
step-IsMerged (call h) s p = p
step-IsMerged (sync i) s p = sync_step-IsMerged i s.caller s p
step-IsMerged (handle good) s p = handler_step-IsMerged good s.handler s p
step-IsMerged reorganize s p = reorg_step-IsMerged s p
step-IsMerged quit s p = quit_step-IsMerged s.handler s p

pub run-IsMerged :
    (schedule : List Thread) (s : ChainMonitor) → IsMerged s → IsMerged (run schedule s)
unfolding run
run-IsMerged [] s p = p
run-IsMerged (t ∷ rest) s p = run-IsMerged rest (or_stay s (step t s)) (step-IsMerged t s p)

pub new-IsMerged : IsMerged new_chain_monitor
unfolding new_chain_monitor
new-IsMerged = none_handled
