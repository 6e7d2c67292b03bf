-- ===== src/StakeDb/Waiters/Fresh.antt =====
-- The channels of those who wait for a height (v4/stakedb/stakedb.go): each gets one value at most, so that
-- signalWaiters finds room in it.
use hc_data.Base.{
  ℕ, zero, suc, ◌+◌, ◌≤◌, ◌≡◌, refl, sym, ap, ◌∙◌, Bool, true, false, List, [], ◌∷◌, ◌++◌, Option,
  none, some, ◌==◌, ==_refl, ltb, get_elem?, if◌then◌else◌, arith, length, Bool-cases, inl, inr,
  get_elem?-append_self,
}
use mathlib.Core.List.{append_assoc, append-nil}
use hc_data.Base.Int.{ℤ, pos, ltb_ℤ, beq_ℤ}
use hc_data.Base.HashSet.{Hash}
use hc_data.Base.Tally.{tally, tally-append}
use hc_data.StakeDb.Connect.{Signal}
use hc_data.StakeDb.Waiters.{
  Waiter, Caller, Sent, Waiting, Event, call, register, signal, connect, disconnect, new_waiting,
  remove_at, is_full, deliver, others, delivered, signal_waiters, run_signal, finish_call,
  add_caller, send_nil, call_at_best, start_call, step, run,
}

module _ {A : Type 0} (channel_of : A → ℕ) (c : ℕ) where
  pub tally-remove_at :
      (i : ℕ) (xs : List A) (x : A)
      → get_elem? xs i ≡ some x
      → tally channel_of c (remove_at i xs) + tally channel_of c (x ∷ []) ≡ tally channel_of c xs
  tally-remove_at i [] x e = absurd (ground arith)
  tally-remove_at zero (y ∷ xs) x e = let same : y ≡ x = ground arith in rw same (ground arith)
  tally-remove_at (suc i) (y ∷ xs) x e = ground (arith, tally-remove_at i xs x e)

abbrev pub values_in : ℕ → List Sent → ℕ
values_in c sent = tally (λ (x : Sent). x.channel) c sent

abbrev pub waits_on : ℕ → List Waiter → ℕ
waits_on c ws = tally (λ (w : Waiter). w.channel) c ws

abbrev pub calls_with : ℕ → List Caller → ℕ
calls_with c cs = tally (λ (x : Caller). x.channel) c cs

is_full-none : (c : ℕ) (sent : List Sent) → values_in c sent ≡ 0 → is_full c sent ≡ false
is_full-none c [] e = refl
is_full-none c (x ∷ xs) e = elim (Bool-cases (x.channel == c)) [
  | inl same ↦ absurd (ground arith)
  | inr differs ↦
      let rest : values_in c xs ≡ 0 = ground arith in rw differs (is_full-none c xs rest)
]

-- What the loop of signalWaiters leaves: each waiter for the height has the hash in its channel, and the
-- values and the waiters of a channel are together as many as before.
pub record IsDelivered (h : ℤ) (hash : Hash) (ws : List Waiter) (sent sent' : List Sent)
    : Type 0 where
  pub more : List Sent
  pub grown : sent' ≡ sent ++ more
  pub same_count :
      (c : ℕ) → values_in c sent' + waits_on c (others h ws) ≡ values_in c sent + waits_on c ws
  pub gets :
      (i : ℕ) (w : Waiter)
      → get_elem? ws i ≡ some w
      → beq_ℤ w.height h ≡ true
      → (k : ℕ) × (get_elem? sent' k ≡ some (record { channel = w.channel; value = some hash }))

first_gets :
    (h : ℤ) (hash : Hash) (w : Waiter) (rest : List Waiter) (sent sent' : List Sent)
    → IsDelivered h hash rest (sent ++ record { channel = w.channel; value = some hash } ∷ []) sent'
    → (i : ℕ) (x : Waiter) → get_elem? (w ∷ rest) i ≡ some x
    → beq_ℤ x.height h ≡ true
    → (k : ℕ) × (get_elem? sent' k ≡ some (record { channel = x.channel; value = some hash }))
first_gets h hash w rest sent sent' d zero x e p =
    let same : w ≡ x = ground arith in
    let given : Sent = record { channel = w.channel; value = some hash } in
    let grown : sent' ≡ sent ++ given ∷ d.more = d.grown ∙ append_assoc sent (given ∷ []) d.more in
    (
      length sent,
      ap (λ xs. get_elem? xs (length sent)) grown
          ∙ get_elem?-append_self sent d.more given
          ∙ ap (λ (y : Waiter). some (record { channel = y.channel; value = some hash })) same,
    )
first_gets h hash w rest sent sent' d (suc i) x e p = d.gets i x e p

other_gets :
    (h : ℤ) (hash : Hash) (w : Waiter) (rest : List Waiter) (sent sent' : List Sent)
    → beq_ℤ w.height h ≡ false
    → IsDelivered h hash rest sent sent'
    → (i : ℕ) (x : Waiter) → get_elem? (w ∷ rest) i ≡ some x
    → beq_ℤ x.height h ≡ true
    → (k : ℕ) × (get_elem? sent' k ≡ some (record { channel = x.channel; value = some hash }))
other_gets h hash w rest sent sent' q d zero x e p =
    let same : w ≡ x = ground arith in
    let clash : beq_ℤ x.height h ≡ false = ap (λ (y : Waiter). beq_ℤ y.height h) (sym same) ∙ q in
    absurd (cc (sym p ∙ clash))
other_gets h hash w rest sent sent' q d (suc i) x e p = d.gets i x e p

pub deliver-ok :
    (h : ℤ) (hash : Hash) (ws : List Waiter) (sent : List Sent)
    → ((c : ℕ) → values_in c sent + waits_on c ws ≤ 1)
    → (sent' : List Sent) × (deliver h hash ws sent ≡ some sent') × IsDelivered h hash ws sent sent'
unfolding deliver others
deliver-ok h hash [] sent one = (
  sent,
  refl,
  record {
    more = [];
    grown = sym (append-nil sent);
    same_count = λ c. refl;
    gets = λ i w e p. absurd (cc e);
  },
)
deliver-ok h hash (w ∷ rest) sent one = elim (Bool-cases (beq_ℤ w.height h)) [
  | inl there ↦
      let given : Sent = record { channel = w.channel; value = some hash } in
      let alone : values_in w.channel sent ≡ 0 = ground (arith, one w.channel, ==_refl w.channel) in
      let (sent', run, d) =
        deliver-ok h hash rest (sent ++ given ∷ []) (λ c.
          ground (arith, one c, tally-append (λ (x : Sent). x.channel) c sent (given ∷ []))) in
      (
        sent',
        rw (there, is_full-none w.channel sent alone) run,
        record {
          more = given ∷ d.more;
          grown = d.grown ∙ append_assoc sent (given ∷ []) d.more;
          same_count = λ c. rw there (
              ground (
                arith,
                d.same_count c,
                tally-append (λ (x : Sent). x.channel) c sent (given ∷ []),
              ));
          gets = first_gets h hash w rest sent sent' d;
        },
      )
  | inr elsewhere ↦
      let (sent', run, d) = deliver-ok h hash rest sent (λ c. ground (arith, one c)) in
      (
        sent',
        rw elsewhere run,
        record {
          more = d.more;
          grown = d.grown;
          same_count = λ c. rw elsewhere (ground (arith, d.same_count c));
          gets = other_gets h hash w rest sent sent' elsewhere d;
        },
      )
]

-- A channel is with a call, with the waiters or has its value, and one that was not made yet is nowhere.
pub record IsFresh (s : Waiting) : Type 0 where
  pub at_most_one :
      (c : ℕ)
      → values_in c s.sent + waits_on c s.height_waiters + calls_with c s.callers
        ≤ (if ltb c s.next_channel then 1 else 0)

pub new_waiting-IsFresh : (height : ℕ) → IsFresh (new_waiting height)
new_waiting-IsFresh height = record { at_most_one = λ c. omega arith }

one_at_most : (b : Bool) (n : ℕ) → n ≤ (if b then 1 else 0) → n ≤ 1
one_at_most true n h = h
one_at_most false n h = omega arith

-- A run of the signalling goroutine
pub signal_waiters-ok :
    (g : Signal) (s : Waiting)
    → IsFresh s
    → (s' : Waiting) × (signal_waiters g s ≡ some s')
      × IsFresh s'
      × IsDelivered g.height g.hash s.height_waiters s.sent s'.sent
      × (s'.height_waiters ≡ others g.height s.height_waiters)
unfolding signal_waiters delivered
signal_waiters-ok g s f =
    let (sent, run, d) =
      deliver-ok g.height g.hash s.height_waiters s.sent
        (λ c. one_at_most (ltb c s.next_channel) _ (omega (arith, f.at_most_one c))) in
    (
      record s { height_waiters = others g.height s.height_waiters; sent = sent },
      rw run refl,
      record { at_most_one = λ c. omega (arith, f.at_most_one c, d.same_count c) },
      d,
      refl,
    )

add_caller-IsFresh :
    (h : ℤ) (deferred : Option Hash) (s : Waiting) → IsFresh s → IsFresh (add_caller h deferred s)
add_caller-IsFresh h deferred s f =
    let c' : Caller = record { height = h; channel = s.next_channel; deferred = deferred } in
    record {
      at_most_one = λ c.
          ground (
            arith,
            f.at_most_one c,
            tally-append (λ (x : Caller). x.channel) c s.callers (c' ∷ []),
          );
    }

finish_call-ok :
    (i : ℕ) (s : Waiting) (o : Option Caller)
    → get_elem? s.callers i ≡ o
    → IsFresh s
    → (s' : Waiting) × (finish_call i o s ≡ some s') × IsFresh s'
unfolding finish_call
finish_call-ok i s none e f = (s, refl, f)
finish_call-ok i s (some x) e f = (
  _,
  refl,
  record {
    at_most_one = λ c. ground (
      arith,
      f.at_most_one c,
      tally-remove_at (λ (y : Caller). y.channel) c i s.callers x e,
      tally-append (λ (w : Waiter). w.channel) c s.height_waiters
          (record { height = x.height; channel = x.channel } ∷ []),
    );
  },
)

run_signal-ok :
    (i : ℕ) (o : Option Signal) (s : Waiting)
    → IsFresh s
    → (s' : Waiting) × (run_signal i o s ≡ some s') × IsFresh s'
unfolding run_signal
run_signal-ok i none s f = (s, refl, f)
run_signal-ok i (some g) s f =
    let (s', run, f', _, _) =
      signal_waiters-ok g (record s { signals = remove_at i s.signals })
        (record { at_most_one = f.at_most_one }) in
    (s', run, f')

has_value :
    (k : ℕ) (sent : List Sent) (c : ℕ) (v : Option Hash)
    → get_elem? sent k ≡ some (record { channel = c; value = v })
    → 1 ≤ values_in c sent
has_value k sent c v e = ground (
  arith,
  ==_refl c,
  tally-remove_at (λ (x : Sent). x.channel) c k sent (record { channel = c; value = v }) e,
)

module _ (block : ℤ → Option Hash) (known : (h : ℤ) → (hash : Hash) × (block h ≡ some hash)) where
  start_call-ok :
      (h : ℤ) (s : Waiting)
      → IsFresh s
      → (s' : Waiting) × (start_call block h s ≡ some s') × IsFresh s'
  unfolding start_call call_at_best
  start_call-ok h s f = elim (Bool-cases (ltb_ℤ h (pos s.height))) [
    | inl past ↦
        let nil : Sent = record { channel = s.next_channel; value = none } in
        let grown = λ (c : ℕ). tally-append (λ (x : Sent). x.channel) c s.sent (nil ∷ []) in
        (
          send_nil s,
          rw past refl,
          record { at_most_one = λ c. ground (arith, f.at_most_one c, grown c) },
        )
    | inr not_past ↦ elim (Bool-cases (beq_ℤ (pos s.height) h)) [
      | inl here ↦
          let (hash, e) = known h in
          (
            add_caller h (some hash) s,
            rw (not_past, here, e) refl,
            add_caller-IsFresh h (some hash) s f,
          )
      | inr ahead ↦ (add_caller h none s, rw (not_past, ahead) refl, add_caller-IsFresh h none s f)
    ]
  ]

  pub step-ok :
      (e : Event) (s : Waiting)
      → IsFresh s
      → (s' : Waiting) × (step block e s ≡ some s') × IsFresh s'
  unfolding step
  step-ok (call h) s f = start_call-ok h s f
  step-ok (register i) s f = finish_call-ok i s (get_elem? s.callers i) refl f
  step-ok (signal i) s f = run_signal-ok i (get_elem? s.signals i) s f
  step-ok (connect hash) s f = (_, refl, record { at_most_one = f.at_most_one })
  step-ok disconnect s f = (_, refl, record { at_most_one = f.at_most_one })

  -- Whatever the schedule, where the node gives every block, from a state in which each channel is with a
  -- call or with the waiters or has its value, and only once: nothing panics, signalWaiters included, and
  -- the state is again such a one, so no channel gets a second value.
  pub run-IsFresh :
      (events : List Event) (s : Waiting)
      → IsFresh s
      → (s' : Waiting) × (run block events s ≡ some s') × IsFresh s'
  unfolding run
  run-IsFresh [] s f = (s, refl, f)
  run-IsFresh (e ∷ rest) s f =
      let (s1, run1, f1) = step-ok e s f in
      let (s2, run2, f2) = run-IsFresh rest s1 f1 in (s2, rw run1 run2, f2)

  -- Where a schedule from a state without calls has led, and the node gives every block: a goroutine of
  -- signalWaiters that is still to run does not panic, and each waiter for its height then has the hash in
  -- its channel, which has no other value, and is no longer a waiter.
  pub signal_delivers :
      (events : List Event) (height i j : ℕ) (s : Waiting) (g : Signal) (w : Waiter)
      → run block events (new_waiting height) ≡ some s
      → get_elem? s.signals i ≡ some g
      → get_elem? s.height_waiters j ≡ some w
      → beq_ℤ w.height g.height ≡ true
      → (s' : Waiting) × (step block (signal i) s ≡ some s')
        × ((k : ℕ) × (get_elem? s'.sent k
              ≡ some (record { channel = w.channel; value = some g.hash })))
        × (values_in w.channel s'.sent ≡ 1)
        × (waits_on w.channel s'.height_waiters ≡ 0)
  unfolding step run_signal
  signal_delivers events height i j s g w reached there waits same =
      let (s0, run0, f0) = run-IsFresh events (new_waiting height) (new_waiting-IsFresh height) in
      let e : s0 ≡ s = ground (arith, sym run0 ∙ reached) in
      let f : IsFresh s = rw (← e) f0 in
      let (s', run', f', d, left) =
        signal_waiters-ok g (record s { signals = remove_at i s.signals })
          (record { at_most_one = f.at_most_one }) in
      let (k, sent) = d.gets j w waits same in
      let once = has_value k s'.sent w.channel (some g.hash) sent in
      let most = one_at_most (ltb w.channel s'.next_channel) _ (f'.at_most_one w.channel) in
      (s', rw there run', (k, sent), omega (arith, once, most), omega (arith, once, most))
