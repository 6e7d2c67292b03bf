-- ===== src/Notification/Followed.antt =====
-- Which blocks the handlers of the notification queue (v4/notification/ntfnhandlers.go) get.
use hc_data.Notification.Calls.{calls, calls-append, calls-call_handlers, IsCalled, IsCalled-offer}
use hc_data.Base.{
  ℕ, ◌<◌, ◌≡◌, refl, ap, sym, ◌∙◌, Bool, true, false, Bool-cases, inl, inr, List, [], ◌∷◌, ◌++◌,
  Option, none, some, arith, ◌==◌, if◌then◌else◌, map,
}
use hc_data.Base.HashSet.{Hash}
use hc_data.Rpc.Chains.{
  Blocks, Ancestor, found, ancestor_at_genesis, ancestor_max_chain_length, get_block_failed,
  common_ancestor,
}
use hc_data.Notification.{
  BlockHashHeight, ReorgEvent, Message, new_tx, exp_new_tx, update_status_node_height, reorg_sent,
  CollectionQueue, call_handlers, connect, process_block, set_previous_block, signal_monitors,
  signal_with, signal_reorg, Event, block_connected, reorganization, unknown, process_event,
  super_queue, full_data, stake_db, wired_db, block_data, dcrpg_db,
}
use mathlib.Core.List.{append-nil, append_assoc}

-- Did CommonAncestor find an ancestor?
abbrev pub is_found : Ancestor → Bool
is_found (found h new_chain old_chain) = true
is_found (ancestor_at_genesis new_chain old_chain) = false
is_found ancestor_max_chain_length = false
is_found (get_block_failed h) = false

-- The head after a reorganization: the new one where the common ancestor is found
abbrev pub head_after : Option Blocks → ReorgEvent → Hash → Hash
head_after none d head = head
head_after (some node) d head =
    if is_found (common_ancestor node d.new_chain_head d.old_chain_head)
    then d.new_chain_head
    else head

-- The blocks that connect: each has as its previous block the head, which is the last of them or that of a
-- reorganization since then.
abbrev pub connecting : Option Blocks → Hash → List Event → List Hash
connecting client head [] = []
connecting client head (block_connected bh ∷ rest) =
    let with_it = bh.hash ∷ connecting client bh.hash rest in
    let without_it = connecting client head rest in
    if bh.prev_hash == head then with_it else without_it
connecting client head (reorganization d ∷ rest) = connecting client (head_after client d head) rest
connecting client head (unknown ∷ rest) = connecting client head rest

process_block-connects :
    (ready : List Message → Message → Bool) (bh : BlockHashHeight) (q : CollectionQueue)
    → (bh.prev_hash == q.prev_hash) ≡ true
    → process_block ready bh q ≡ connect ready bh q
unfolding process_block
process_block-connects ready bh q e = ap (λ b. if b then connect ready bh q else q) e

process_block-apart :
    (ready : List Message → Message → Bool) (bh : BlockHashHeight) (q : CollectionQueue)
    → (bh.prev_hash == q.prev_hash) ≡ false
    → process_block ready bh q ≡ q
unfolding process_block
process_block-apart ready bh q e = ap (λ b. if b then connect ready bh q else q) e

module _ (ready : List Message → Message → Bool) (i : ℕ) where
  connect-IsCalled :
      (bh : BlockHashHeight) (q : CollectionQueue)
      → i < q.sync_handlers
      → IsCalled i q (bh.hash ∷ []) bh.hash (connect ready bh q)
  unfolding connect set_previous_block
  connect-IsCalled bh q h =
      let calls_made = call_handlers q.sync_handlers 0 bh.hash in
      IsCalled-offer ready i (update_status_node_height bh.height) q _ (bh.hash ∷ []) bh.hash refl (
        IsCalled-offer ready i exp_new_tx q _ (bh.hash ∷ []) bh.hash refl (
          IsCalled-offer ready i new_tx q _ (bh.hash ∷ []) bh.hash refl record {
            same_handlers = refl;
            called =
                calls-append i q.sent calls_made
                ∙ ap (λ t. calls i q.sent ++ t)
                    (calls-call_handlers i q.sync_handlers 0 bh.hash (omega arith) (omega arith));
            at_head = refl;
          }))

  unchanged-IsCalled : (q : CollectionQueue) → IsCalled i q [] q.prev_hash q
  unchanged-IsCalled q = record {
    same_handlers = refl;
    called = sym (append-nil (calls i q.sent));
    at_head = refl;
  }

  signal_with-IsCalled :
      (d : ReorgEvent) (a : Ancestor) (q : CollectionQueue)
      → IsCalled i q []
          (if is_found a then d.new_chain_head else q.prev_hash)
          (signal_with ready d a q)
  unfolding signal_with signal_monitors set_previous_block
  signal_with-IsCalled d (ancestor_at_genesis new_chain old_chain) q = unchanged-IsCalled q
  signal_with-IsCalled d ancestor_max_chain_length q = unchanged-IsCalled q
  signal_with-IsCalled d (get_block_failed h) q = unchanged-IsCalled q
  signal_with-IsCalled d (found h new_chain old_chain) q =
      let data_ = full_data d h new_chain old_chain in
      let c = IsCalled-offer ready i (reorg_sent dcrpg_db data_) q _ [] q.prev_hash refl (
        IsCalled-offer ready i (reorg_sent block_data data_) q _ [] q.prev_hash refl (
          IsCalled-offer ready i (reorg_sent wired_db data_) q _ [] q.prev_hash refl (
            IsCalled-offer ready i (reorg_sent stake_db data_) q q [] q.prev_hash refl
              (unchanged-IsCalled q)))) in
      record { same_handlers = c.same_handlers; called = c.called; at_head = refl }

  signal_reorg-IsCalled :
      (client : Option Blocks) (d : ReorgEvent) (q : CollectionQueue)
      → IsCalled i q [] (head_after client d q.prev_hash) (signal_reorg ready client d q)
  unfolding signal_reorg
  signal_reorg-IsCalled none d q = unchanged-IsCalled q
  signal_reorg-IsCalled (some node) d q =
      signal_with-IsCalled d (common_ancestor node d.new_chain_head d.old_chain_head) q

  -- Events behind one that made the given calls
  behind :
      (client : Option Blocks) (rest : List Event) (more : List Hash) (head : Hash)
      (q q' : CollectionQueue)
      → IsCalled i q more head q'
      → calls i (super_queue ready client rest q').sent
        ≡ calls i q'.sent ++ connecting client q'.prev_hash rest
      → calls i (super_queue ready client rest q').sent
        ≡ calls i q.sent ++ (more ++ connecting client head rest)
  behind client rest more head q q' c e =
      e
      ∙ ap (λ t. calls i q'.sent ++ connecting client t rest) c.at_head
      ∙ ap (λ t. t ++ connecting client head rest) c.called
      ∙ append_assoc (calls i q.sent) more (connecting client head rest)

  -- Whatever the channels take, superQueue calls each synchronous handler once for each block that connects,
  -- in the order of the events, and for no other block.
  pub super_queue-calls :
      (client : Option Blocks) (events : List Event) (q : CollectionQueue)
      → i < q.sync_handlers
      → calls i (super_queue ready client events q).sent
        ≡ calls i q.sent ++ connecting client q.prev_hash events
  unfolding super_queue process_event
  super_queue-calls client [] q h = sym (append-nil (calls i q.sent))
  super_queue-calls client (unknown ∷ rest) q h = super_queue-calls client rest q h
  super_queue-calls client (reorganization d ∷ rest) q h =
      let c = signal_reorg-IsCalled client d q in
      behind client rest [] (head_after client d q.prev_hash) q (signal_reorg ready client d q) c (
        super_queue-calls client rest (signal_reorg ready client d q)
          (omega (arith, c.same_handlers)))
  super_queue-calls client (block_connected bh ∷ rest) q h =
      elim (Bool-cases (bh.prev_hash == q.prev_hash)) [
        | inl connects ↦
            let c = connect-IsCalled bh q h in
            rw connects (
              ap (λ p. calls i (super_queue ready client rest p).sent)
                (process_block-connects ready bh q connects)
              ∙ behind client rest (bh.hash ∷ []) bh.hash q (connect ready bh q) c (
                  super_queue-calls client rest (connect ready bh q)
                    (omega (arith, c.same_handlers))))
        | inr apart ↦ rw apart (
            ap (λ p. calls i (super_queue ready client rest p).sent)
              (process_block-apart ready bh q apart)
            ∙ super_queue-calls client rest q h)
      ]

-- No block of the list has the given previous block.
abbrev pub NoneFollows : Hash → List BlockHashHeight → Type 0
NoneFollows head [] = Unit
NoneFollows head (bh ∷ rest) = ((bh.prev_hash == head) ≡ false) × NoneFollows head rest

signal_with-failed :
    (ready : List Message → Message → Bool) (d : ReorgEvent) (a : Ancestor) (q : CollectionQueue)
    → is_found a ≡ false
    → signal_with ready d a q ≡ q
unfolding signal_with
signal_with-failed ready d (found h new_chain old_chain) q e = absurd (ground arith)
signal_with-failed ready d (ancestor_at_genesis new_chain old_chain) q e = refl
signal_with-failed ready d ancestor_max_chain_length q e = refl
signal_with-failed ready d (get_block_failed h) q e = refl

lost :
    (ready : List Message → Message → Bool) (node : Blocks) (blocks : List BlockHashHeight)
    (q : CollectionQueue)
    → NoneFollows q.prev_hash blocks
    → super_queue ready (some node) (map block_connected blocks) q ≡ q
unfolding super_queue process_event
lost ready node [] q apart = refl
lost ready node (bh ∷ rest) q apart =
    ap (super_queue ready (some node) (map block_connected rest))
      (process_block-apart ready bh q apart.0)
    ∙ lost ready node rest q apart.1

-- Where CommonAncestor fails for a reorganization, the queue keeps the old head: the reorganization and any
-- blocks after it that do not build on the old head leave the queue as it is, so the blocks of the new
-- chain get to no handler.
pub failed_reorg_loses_blocks :
    (ready : List Message → Message → Bool) (node : Blocks) (d : ReorgEvent)
    (blocks : List BlockHashHeight) (q : CollectionQueue)
    → is_found (common_ancestor node d.new_chain_head d.old_chain_head) ≡ false
    → NoneFollows q.prev_hash blocks
    → super_queue ready (some node) (reorganization d ∷ map block_connected blocks) q ≡ q
unfolding super_queue process_event signal_reorg
failed_reorg_loses_blocks ready node d blocks q failed apart =
    ap (super_queue ready (some node) (map block_connected blocks))
      (signal_with-failed ready d (common_ancestor node d.new_chain_head d.old_chain_head) q failed)
    ∙ lost ready node blocks q apart
