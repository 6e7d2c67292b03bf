-- ===== src/StakeDb/Waiters/Tests.antt =====
-- Waiters of a stake database at the height 5 (v4/stakedb/stakedb.go).
use hc_data.Base.{ℕ, ◌≡◌, refl, List, [], ◌∷◌, Option, some, get_elem?}
use hc_data.Base.Int.{ℤ, pos}
use hc_data.Base.HashSet.{Hash}
use hc_data.StakeDb.Waiters.{
  Waiting, Event, call, register, signal, connect, disconnect, new_waiting, step, run,
}
use hc_data.StakeDb.Waiters.Fresh.{
  IsFresh, new_waiting-IsFresh, values_in, waits_on, run-IsFresh, signal_delivers,
}
use hc_data.StakeDb.Waiters.Lost.{late_waiter_is_lost}

abbrev block : ℤ → Option Hash
block h = some 70

abbrev two_calls : List Event
two_calls =
    call (pos 6)
    ∷ call (pos 5)
    ∷ register 1
    ∷ register 0
    ∷ disconnect
    ∷ connect 60
    ∷ connect 61
    ∷ signal 2
    ∷ signal 0
    ∷ signal 0
    ∷ call (pos 2)
    ∷ []

run-IsFresh_example : (s : Waiting) × (run block two_calls (new_waiting 5) ≡ some s) × IsFresh s
run-IsFresh_example =
    run-IsFresh block (λ h. (70, refl)) two_calls (new_waiting 5) (new_waiting-IsFresh 5)

abbrev one_waiter : Waiting
one_waiter = record {
  height = 6;
  height_waiters = record { height = pos 6; channel = 0 } ∷ [];
  callers = [];
  signals = record { height = pos 6; hash = 61 } ∷ [];
  sent = [];
  next_channel = 1;
}

one_waiter_reached :
    run block (call (pos 6) ∷ register 0 ∷ connect 61 ∷ []) (new_waiting 5) ≡ some one_waiter
unfolding run
one_waiter_reached = refl

signal_delivers_example :
    (s : Waiting) × (step block (signal 0) one_waiter ≡ some s)
    × ((k : ℕ) × (get_elem? s.sent k ≡ some (record { channel = 0; value = some 61 })))
    × (values_in 0 s.sent ≡ 1)
    × (waits_on 0 s.height_waiters ≡ 0)
signal_delivers_example =
    signal_delivers block (λ h. (70, refl)) (call (pos 6) ∷ register 0 ∷ connect 61 ∷ []) 5 0 0
      one_waiter (record { height = pos 6; hash = 61 }) (record { height = pos 6; channel = 0 })
      one_waiter_reached refl refl refl

late_waiter_is_lost_example :
    (s : Waiting) × (run block
        (call (pos 6) ∷ connect 61 ∷ signal 0 ∷ register 0 ∷ connect 62 ∷ signal 0 ∷ [])
        (new_waiting 5)
      ≡ some s)
    × (values_in 0 s.sent ≡ 0)
late_waiter_is_lost_example =
    late_waiter_is_lost block (λ h. (70, refl)) 5 61 (connect 62 ∷ signal 0 ∷ []) (tt, (tt, tt))
