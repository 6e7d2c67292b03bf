-- ===== src/StakeDb/Waiters.antt =====
-- WaitForHeight and signalWaiters of StakeDatabase (v4/stakedb/stakedb.go), as goroutines. An event is what one
-- of them does up to its next lock: a call of WaitForHeight reads the height and then takes the lock of the
-- waiters; ConnectBlock raises the height and starts a goroutine that signals. The channels that are returned
-- have room for one value, and nothing is received here, which only empties them. A block is connected at the
-- height above the best one, as the stake node's heights count up; ConnectBlock itself does not test it. Whether
-- the node gives the block at a height is an argument.
mod Tests
pub mod Fresh
pub mod Lost
use hc_data.Base.{
  and_then, ℕ, zero, suc, ◌+◌, ◌-◌, Bool, true, false, List, [], ◌∷◌, ◌++◌, Option, none, some,
  ◌==◌, take, drop, get_elem?, if◌then◌else◌,
}
use hc_data.Base.Int.{ℤ, pos, ltb_ℤ, beq_ℤ}
use hc_data.Base.HashSet.{Hash}
use hc_data.StakeDb.Connect.{Signal}

-- An entry of heightWaiters
pub record Waiter : Type 0 where
  pub height : ℤ
  pub channel : ℕ

-- A call of WaitForHeight that has read the height, and the block that its deferred signal is about
pub record Caller : Type 0 where
  pub height : ℤ
  pub channel : ℕ
  pub deferred : Option Hash

-- A value in a channel; WaitForHeight sends nil.
pub record Sent : Type 0 where
  pub channel : ℕ
  pub value : Option Hash

pub record Waiting : Type 0 where
  pub height : ℕ
  pub height_waiters : List Waiter
  pub callers : List Caller
  pub signals : List Signal
  pub sent : List Sent
  pub next_channel : ℕ

pub data Event : Type 0 where
  call : ℤ → Event
  register signal : ℕ → Event
  connect : Hash → Event
  disconnect : Event

abbrev pub new_waiting : ℕ → Waiting
new_waiting height = record {
  height = height;
  height_waiters = [];
  callers = [];
  signals = [];
  sent = [];
  next_channel = 0;
}

abbrev pub remove_at : {A : Type 0} → ℕ → List A → List A
remove_at i [] = []
remove_at zero (x ∷ xs) = xs
remove_at (suc i) (x ∷ xs) = x ∷ remove_at i xs

abbrev pub is_full : ℕ → List Sent → Bool
is_full c [] = false
is_full c (x ∷ xs) = if x.channel == c then true else is_full c xs

-- The loop of signalWaiters over the channels of a height; it panics (`none`) where one has no room.
unfoldable pub deliver : ℤ → Hash → List Waiter → List Sent → Option (List Sent)
deliver h hash [] sent = some sent
deliver h hash (w ∷ rest) sent =
    let given =
      deliver h hash rest (sent ++ record { channel = w.channel; value = some hash } ∷ []) in
    let passed = deliver h hash rest sent in
    if beq_ℤ w.height h then (if is_full w.channel sent then none else given) else passed

-- `delete(db.heightWaiters, height)`
unfoldable pub others : ℤ → List Waiter → List Waiter
others h [] = []
others h (w ∷ rest) = if beq_ℤ w.height h then others h rest else w ∷ others h rest

unfoldable pub delivered : ℤ → Option (List Sent) → Waiting → Option Waiting
unfolding others
delivered h none s = none
delivered h (some sent) s =
    some (record s { height_waiters = others h s.height_waiters; sent = sent })

-- signalWaiters
unfoldable pub signal_waiters : Signal → Waiting → Option Waiting
unfolding deliver delivered
signal_waiters g s = delivered g.height (deliver g.height g.hash s.height_waiters s.sent) s

unfoldable pub run_signal : ℕ → Option Signal → Waiting → Option Waiting
unfolding signal_waiters
run_signal i none s = some s
run_signal i (some g) s = signal_waiters g (record s { signals = remove_at i s.signals })

-- The deferred goroutine of a call
abbrev pub deferred_signal : ℤ → Option Hash → List Signal
deferred_signal h none = []
deferred_signal h (some hash) = record { height = h; hash = hash } ∷ []

-- The rest of WaitForHeight, from the lock of the waiters on
unfoldable pub finish_call : ℕ → Option Caller → Waiting → Option Waiting
finish_call i none s = some s
finish_call i (some c) s = some (record s {
  callers = remove_at i s.callers;
  height_waiters = s.height_waiters ++ record { height = c.height; channel = c.channel } ∷ [];
  signals = s.signals ++ deferred_signal c.height c.deferred;
})

abbrev pub add_caller : ℤ → Option Hash → Waiting → Waiting
add_caller h deferred s = record s {
  callers = s.callers ++ record { height = h; channel = s.next_channel; deferred = deferred } ∷ [];
  next_channel = s.next_channel + 1;
}

-- At the height of the best block, a block that is not found panics.
unfoldable pub call_at_best : ℤ → Option Hash → Waiting → Option Waiting
call_at_best h none s = none
call_at_best h (some hash) s = some (add_caller h (some hash) s)

-- `defer func() { waitChan <- nil }()`
abbrev pub send_nil : Waiting → Waiting
send_nil s = record s {
  sent = s.sent ++ record { channel = s.next_channel; value = none } ∷ [];
  next_channel = s.next_channel + 1;
}

module _ (block : ℤ → Option Hash) where
  -- WaitForHeight, up to the lock of the waiters
  unfoldable pub start_call : ℤ → Waiting → Option Waiting
  unfolding call_at_best
  start_call h s =
      if ltb_ℤ h (pos s.height)
      then some (send_nil s)
      else if beq_ℤ (pos s.height) h
      then call_at_best h (block h) s
      else some (add_caller h none s)

  unfoldable pub step : Event → Waiting → Option Waiting
  unfolding start_call finish_call run_signal
  step (call h) s = start_call h s
  step (register i) s = finish_call i (get_elem? s.callers i) s
  step (signal i) s = run_signal i (get_elem? s.signals i) s
  step (connect hash) s = some (record s {
    height = s.height + 1;
    signals = s.signals ++ record { height = pos (s.height + 1); hash = hash } ∷ [];
  })
  step disconnect s = some (record s { height = s.height - 1 })

  -- A schedule, as long as nothing panics
  unfoldable pub run : List Event → Waiting → Option Waiting
  unfolding step
  run [] s = some s
  run (e ∷ rest) s = and_then (step e s) (run rest)
