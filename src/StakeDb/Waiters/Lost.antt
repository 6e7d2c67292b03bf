-- ===== src/StakeDb/Waiters/Lost.antt =====
-- A call of WaitForHeight (v4/stakedb/stakedb.go) between whose two locks the block comes.
use hc_data.Base.{
  ℕ, zero, suc, ◌+◌, ◌≤◌, ◌<◌, ◌≡◌, refl, sym, ◌∙◌, true, false, List, [], ◌∷◌, ◌++◌, Option, none,
  some, ◌==◌, get_elem?, arith, Bool-cases, Option-cases, inl, inr,
}
use mathlib.Core.Path.{subst}
use hc_data.Base.Int.{ℤ, pos, ltb_ℤ, beq_ℤ}
use hc_data.Base.HashSet.{Hash}
use hc_data.Base.Tally.{tally-append}
use hc_data.StakeDb.Connect.{Signal}
use hc_data.StakeDb.Waiters.{
  Waiter, Caller, Sent, Waiting, Event, call, register, signal, connect, disconnect, new_waiting,
  remove_at, is_full, deliver, others, delivered, signal_waiters, run_signal, finish_call,
  deferred_signal, add_caller, send_nil, call_at_best, start_call, step, run,
}
use hc_data.StakeDb.Waiters.Fresh.{values_in, new_waiting-IsFresh, run-IsFresh}

module _ {A : Type 0} where
  abbrev pub All : (A → Type 0) → List A → Type 0
  All P [] = Unit
  All P (x ∷ xs) = P x × All P xs

  All-append : (P : A → Type 0) (xs ys : List A) → All P xs → All P ys → All P (xs ++ ys)
  All-append P [] ys h k = k
  All-append P (x ∷ xs) ys h k = (h.0, All-append P xs ys h.1 k)

  All-remove_at : (P : A → Type 0) (i : ℕ) (xs : List A) → All P xs → All P (remove_at i xs)
  All-remove_at P i [] h = tt
  All-remove_at P zero (x ∷ xs) h = h.1
  All-remove_at P (suc i) (x ∷ xs) h = (h.0, All-remove_at P i xs h.1)

  All-get_elem? :
      (P : A → Type 0) (i : ℕ) (xs : List A) (x : A) → All P xs → get_elem? xs i ≡ some x → P x
  All-get_elem? P i [] x h e = absurd (ground arith)
  All-get_elem? P zero (y ∷ xs) x h e = let same : y ≡ x = ground arith in subst P same h.0
  All-get_elem? P (suc i) (y ∷ xs) x h e = All-get_elem? P i xs x h.1 e

-- No call at this height, and no block is disconnected
abbrev pub IsElsewhere : ℤ → Event → Type 0
IsElsewhere h (call k) = beq_ℤ k h ≡ false
IsElsewhere h (register i) = Unit
IsElsewhere h (signal i) = Unit
IsElsewhere h (connect hash) = Unit
IsElsewhere h disconnect = ⊥

module _ (h c : ℕ) where
  abbrev OtherSignal : Signal → Type 0
  OtherSignal g = beq_ℤ g.height (pos h) ≡ false

  abbrev OtherCall : Caller → Type 0
  OtherCall x = ((x.channel == c) ≡ false) × (beq_ℤ x.height (pos h) ≡ false)

  abbrev OnlyAt : Waiter → Type 0
  OnlyAt w = (w.channel == c) ≡ true → beq_ℤ w.height (pos h) ≡ true

  -- The best block is at the height or above it, nothing is to signal it or call for it, and the channel,
  -- which can only be with a waiter for it, is empty.
  record IsLost (s : Waiting) : Type 0 where
    reached : h ≤ s.height
    made : c < s.next_channel
    signals : All OtherSignal s.signals
    callers : All OtherCall s.callers
    waiters : All OnlyAt s.height_waiters
    empty : values_in c s.sent ≡ 0

  All-others : (g : ℤ) (ws : List Waiter) → All OnlyAt ws → All OnlyAt (others g ws)
  unfolding others
  All-others g [] a = tt
  All-others g (w ∷ ws) a = elim (Bool-cases (beq_ℤ w.height g)) [
    | inl there ↦ rw there (All-others g ws a.1)
    | inr elsewhere ↦ rw elsewhere (a.0, All-others g ws a.1)
  ]

  deliver-empty :
      (g : ℤ) (hash : Hash) (ws : List Waiter) (sent sent' : List Sent)
      → beq_ℤ g (pos h) ≡ false
      → All OnlyAt ws
      → values_in c sent ≡ 0
      → deliver g hash ws sent ≡ some sent'
      → values_in c sent' ≡ 0
  unfolding deliver
  deliver-empty g hash [] sent sent' other a e run =
      let same : sent ≡ sent' = ground arith in rw (← same) e
  deliver-empty g hash (w ∷ ws) sent sent' other a e run = elim (Bool-cases (beq_ℤ w.height g)) [
    | inl there ↦ elim (Bool-cases (is_full w.channel sent)) [
      | inl full ↦ absurd (cc (rw (there, full) at run))
      | inr room ↦ elim (Bool-cases (w.channel == c)) [
        | inl same ↦
            let at_h : beq_ℤ w.height (pos h) ≡ true = a.0 same in
            absurd (ground (arith, other, at_h, there))
        | inr differs ↦
            let given : Sent = record { channel = w.channel; value = some hash } in
            let grown = tally-append (λ (x : Sent). x.channel) c sent (given ∷ []) in
            deliver-empty g hash ws (sent ++ given ∷ []) sent' other a.1
              (ground (arith, grown, e, differs)) (rw (there, room) at run)
      ]
    ]
    | inr elsewhere ↦ deliver-empty g hash ws sent sent' other a.1 e (rw elsewhere at run)
  ]

  deferred-other :
      (k : ℤ) (o : Option Hash) → beq_ℤ k (pos h) ≡ false → All OtherSignal (deferred_signal k o)
  deferred-other k none e = tt
  deferred-other k (some hash) e = (e, tt)

  signal-IsLost :
      (i : ℕ) (o : Option Signal) (s s' : Waiting)
      → get_elem? s.signals i ≡ o
      → IsLost s
      → run_signal i o s ≡ some s'
      → IsLost s'
  unfolding run_signal signal_waiters delivered
  signal-IsLost i none s s' e l run = let same : s ≡ s' = ground arith in subst IsLost same l
  signal-IsLost i (some g) s s' e l run =
      elim (Option-cases (deliver g.height g.hash s.height_waiters s.sent)) [
        | inl fails ↦ absurd (cc (rw fails at run))
        | inr (sent, gives) ↦
            let after : Waiting = record s {
              signals = remove_at i s.signals;
              height_waiters = others g.height s.height_waiters;
              sent = sent;
            } in
            let result : some after ≡ some s' = rw gives at run in
            let same : after ≡ s' = ground arith in
            let other = All-get_elem? OtherSignal i s.signals g l.signals e in
            let kept : IsLost after = record {
              reached = l.reached;
              made = l.made;
              signals = All-remove_at OtherSignal i s.signals l.signals;
              callers = l.callers;
              waiters = All-others g.height s.height_waiters l.waiters;
              empty =
                  deliver-empty g.height g.hash s.height_waiters s.sent sent other l.waiters l.empty
                    gives;
            } in
            subst IsLost same kept
      ]

  finish-IsLost :
      (i : ℕ) (o : Option Caller) (s s' : Waiting)
      → get_elem? s.callers i ≡ o
      → IsLost s
      → finish_call i o s ≡ some s'
      → IsLost s'
  unfolding finish_call
  finish-IsLost i none s s' e l run = let same : s ≡ s' = ground arith in subst IsLost same l
  finish-IsLost i (some x) s s' e l run =
      let other = All-get_elem? OtherCall i s.callers x l.callers e in
      let w : Waiter = record { height = x.height; channel = x.channel } in
      let after : Waiting = record s {
        callers = remove_at i s.callers;
        height_waiters = s.height_waiters ++ w ∷ [];
        signals = s.signals ++ deferred_signal x.height x.deferred;
      } in
      let same : after ≡ s' = ground arith in
      let kept : IsLost after = record {
        reached = l.reached;
        made = l.made;
        signals =
            All-append OtherSignal s.signals (deferred_signal x.height x.deferred) l.signals
              (deferred-other x.height x.deferred other.1);
        callers = All-remove_at OtherCall i s.callers l.callers;
        waiters =
            All-append OnlyAt s.height_waiters (w ∷ []) l.waiters
              ((λ here. absurd (cc (other.0, here))), tt);
        empty = l.empty;
      } in
      subst IsLost same kept

  add_caller-IsLost :
      (k : ℤ) (o : Option Hash) (s : Waiting)
      → beq_ℤ k (pos h) ≡ false
      → IsLost s
      → IsLost (add_caller k o s)
  add_caller-IsLost k o s e l = record {
    reached = l.reached;
    made = omega (arith, l.made);
    signals = l.signals;
    callers =
        All-append OtherCall s.callers
          (record { height = k; channel = s.next_channel; deferred = o } ∷ []) l.callers
          ((ground (arith, l.made), e), tt);
    waiters = l.waiters;
    empty = l.empty;
  }

  send_nil-IsLost : (s : Waiting) → IsLost s → IsLost (send_nil s)
  send_nil-IsLost s l =
      let nil : Sent = record { channel = s.next_channel; value = none } in
      let grown = tally-append (λ (x : Sent). x.channel) c s.sent (nil ∷ []) in
      record {
        reached = l.reached;
        made = omega (arith, l.made);
        signals = l.signals;
        callers = l.callers;
        waiters = l.waiters;
        empty = ground (arith, grown, l.empty, l.made);
      }

  module _ (block : ℤ → Option Hash) where
    start-IsLost :
        (k : ℤ) (s s' : Waiting)
        → beq_ℤ k (pos h) ≡ false
        → IsLost s
        → start_call block k s ≡ some s'
        → IsLost s'
    unfolding start_call call_at_best
    start-IsLost k s s' e l run = elim (Bool-cases (ltb_ℤ k (pos s.height))) [
      | inl past ↦
          let result : some (send_nil s) ≡ some s' = rw past at run in
          let same : send_nil s ≡ s' = ground arith in subst IsLost same (send_nil-IsLost s l)
      | inr not_past ↦ elim (Bool-cases (beq_ℤ (pos s.height) k)) [
        | inl here ↦ elim (Option-cases (block k)) [
          | inl missing ↦ absurd (cc (rw (not_past, here, missing) at run))
          | inr (hash, found) ↦
              let result : some (add_caller k (some hash) s) ≡ some s' =
                rw (not_past, here, found) at run in
              let same : add_caller k (some hash) s ≡ s' = ground arith in
              subst IsLost same (add_caller-IsLost k (some hash) s e l)
        ]
        | inr ahead ↦
            let result : some (add_caller k none s) ≡ some s' = rw (not_past, ahead) at run in
            let same : add_caller k none s ≡ s' = ground arith in
            subst IsLost same (add_caller-IsLost k none s e l)
      ]
    ]

    step-IsLost :
        (e : Event) (s s' : Waiting)
        → IsElsewhere (pos h) e
        → IsLost s
        → step block e s ≡ some s'
        → IsLost s'
    unfolding step
    step-IsLost (call k) s s' other l run = start-IsLost k s s' other l run
    step-IsLost (register i) s s' other l run =
        finish-IsLost i (get_elem? s.callers i) s s' refl l run
    step-IsLost (signal i) s s' other l run =
        signal-IsLost i (get_elem? s.signals i) s s' refl l run
    step-IsLost (connect hash) s s' other l run =
        let g : Signal = record { height = pos (s.height + 1); hash = hash } in
        let after : Waiting = record s { height = s.height + 1; signals = s.signals ++ g ∷ [] } in
        let same : after ≡ s' = ground arith in
        let kept : IsLost after = record {
          reached = omega (arith, l.reached);
          made = l.made;
          signals =
              All-append OtherSignal s.signals (g ∷ []) l.signals (ground (arith, l.reached), tt);
          callers = l.callers;
          waiters = l.waiters;
          empty = l.empty;
        } in
        subst IsLost same kept
    step-IsLost disconnect s s' other l run = absurd other

    run-IsLost :
        (events : List Event) (s s' : Waiting)
        → All (IsElsewhere (pos h)) events
        → IsLost s
        → run block events s ≡ some s'
        → IsLost s'
    unfolding run
    run-IsLost [] s s' other l r = let same : s ≡ s' = ground arith in subst IsLost same l
    run-IsLost (e ∷ rest) s s' other l r = elim (Option-cases (step block e s)) [
      | inl fails ↦ absurd (cc (rw fails at r))
      | inr (s1, first) ↦
          run-IsLost rest s1 s' other.1 (step-IsLost e s s1 other.0 l first) (rw first at r)
    ]

module _ (block : ℤ → Option Hash) (known : (h : ℤ) → (hash : Hash) × (block h ≡ some hash)) where
  -- After the call is registered, at the height of the block that came between its two locks
  abbrev late : ℕ → Waiting
  late h = record {
    height = h + 1;
    height_waiters = record { height = pos (h + 1); channel = 0 } ∷ [];
    callers = [];
    signals = [];
    sent = [];
    next_channel = 1;
  }

  late-IsLost : (h : ℕ) → IsLost (h + 1) 0 (late h)
  late-IsLost h = record {
    reached = omega arith;
    made = omega arith;
    signals = tt;
    callers = tt;
    waiters = ((λ here. ground arith), tt);
    empty = refl;
  }

  run-late :
      (h : ℕ) (hash : Hash) (events : List Event)
      → run block
          (call (pos (h + 1)) ∷ connect hash ∷ signal 0 ∷ register 0 ∷ events)
          (new_waiting h)
        ≡ run block events (late h)
  unfolding run step start_call finish_call run_signal signal_waiters delivered deliver others
  run-late h hash events =
      let not_past : ltb_ℤ (pos (h + 1)) (pos h) ≡ false = ground arith in
      let not_here : beq_ℤ (pos h) (pos (h + 1)) ≡ false = ground arith in
      rw (not_past, not_here) refl

  -- Where the node gives every block, after a call of WaitForHeight for the height above the best block,
  -- where that block is connected and the goroutine that signals it runs before the call takes the lock of
  -- the waiters: whatever the schedule after it, as long as no block is disconnected and there is no other
  -- call for that height, the channel of the call stays empty.
  pub late_waiter_is_lost :
      (h : ℕ) (hash : Hash) (events : List Event)
      → All (IsElsewhere (pos (h + 1))) events
      → (s : Waiting) × (run block
            (call (pos (h + 1)) ∷ connect hash ∷ signal 0 ∷ register 0 ∷ events)
            (new_waiting h)
          ≡ some s)
        × (values_in 0 s.sent ≡ 0)
  late_waiter_is_lost h hash events other =
      let (s, runs, _) =
        run-IsFresh block known (call (pos (h + 1)) ∷ connect hash ∷ signal 0 ∷ register 0 ∷ events)
          (new_waiting h) (new_waiting-IsFresh h) in
      let lost =
        run-IsLost (h + 1) 0 block events (late h) s other (late-IsLost h)
          (sym (run-late h hash events) ∙ runs) in
      (s, runs, lost.empty)
