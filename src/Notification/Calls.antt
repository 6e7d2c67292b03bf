-- ===== src/Notification/Calls.antt =====
-- The calls of the handlers in the log of the notification queue (v4/notification/ntfnhandlers.go).
use hc_data.Base.{
  ℕ, zero, suc, ◌+◌, ◌≤◌, ◌<◌, ◌≡◌, refl, ap, sym, ◌∙◌, Bool, false, Bool-cases, inl, inr, List, [],
  ◌∷◌, ◌++◌, arith, ◌==◌, if◌then◌else◌,
}
use hc_data.Base.HashSet.{Hash}
use hc_data.Notification.{
  Message, handler_called, new_tx, exp_new_tx, update_status_node_height, reorg_sent,
  CollectionQueue, call_handlers, offer,
}
use mathlib.Core.List.{append-nil, append_assoc}

-- The blocks for which the handler at a place was called
abbrev pub call_of : ℕ → Message → List Hash
call_of i (handler_called j h) = if j == i then h ∷ [] else []
call_of i new_tx = []
call_of i exp_new_tx = []
call_of i (update_status_node_height h) = []
call_of i (reorg_sent m data_) = []

unfoldable pub calls : ℕ → List Message → List Hash
calls i [] = []
calls i (m ∷ rest) = call_of i m ++ calls i rest

pub calls-append : (i : ℕ) (ms ns : List Message) → calls i (ms ++ ns) ≡ calls i ms ++ calls i ns
unfolding calls
calls-append i [] ns = refl
calls-append i (m ∷ ms) ns =
    ap (λ t. call_of i m ++ t) (calls-append i ms ns)
    ∙ sym (append_assoc (call_of i m) (calls i ms) (calls i ns))

calls-before : (i n j : ℕ) (h : Hash) → i < j → calls i (call_handlers n j h) ≡ []
unfolding calls
calls-before i zero j h p = refl
calls-before i (suc n) j h p =
    let other : (j == i) ≡ false = ground arith in
    rw other (calls-before i n (suc j) h (omega arith))

-- Each handler is called once.
pub calls-call_handlers :
    (i n j : ℕ) (h : Hash) → j ≤ i → i < j + n → calls i (call_handlers n j h) ≡ h ∷ []
unfolding calls
calls-call_handlers i zero j h p r = absurd (omega arith)
calls-call_handlers i (suc n) j h p r = elim (Bool-cases (j == i)) [
  | inl here ↦ rw here (ap (λ t. h ∷ t) (calls-before i n (suc j) h (ground arith)))
  | inr later ↦ rw later (calls-call_handlers i n (suc j) h (ground arith) (omega arith))
]

-- What a step leaves of the queue: the handlers, and for one of them the blocks of its calls
pub record IsCalled (i : ℕ) (q : CollectionQueue) (more : List Hash) (head : Hash)
    (q' : CollectionQueue) : Type 0 where
  pub same_handlers : q'.sync_handlers ≡ q.sync_handlers
  pub called : calls i q'.sent ≡ calls i q.sent ++ more
  pub at_head : q'.prev_hash ≡ head

pub IsCalled-offer :
    (ready : List Message → Message → Bool) (i : ℕ) (m : Message) (q p : CollectionQueue)
    (more : List Hash) (head : Hash)
    → call_of i m ≡ []
    → IsCalled i q more head p
    → IsCalled i q more head (offer ready m p)
unfolding offer calls
IsCalled-offer ready i m q p more head silent c = elim (Bool-cases (ready p.sent m)) [
  | inl taken ↦ rw taken record {
    same_handlers = c.same_handlers;
    called =
        calls-append i p.sent (m ∷ [])
        ∙ ap (λ t. calls i p.sent ++ (t ++ [])) silent
        ∙ append-nil (calls i p.sent)
        ∙ c.called;
    at_head = c.at_head;
  }
  | inr shut ↦ rw shut c
]
