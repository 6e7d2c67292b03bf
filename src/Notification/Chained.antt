-- ===== src/Notification/Chained.antt =====
-- What the monitors are told of a reorganization (v4/notification/ntfnhandlers.go).
use hc_data.Base.{ℕ, zero, suc, Bool, Bool-cases, inl, inr, List, [], ◌∷◌, ◌++◌, some, ◌==◌}
use hc_data.Base.HashSet.{Hash}
use hc_data.Rpc.Chains.{
  Blocks, Ancestor, found, ancestor_at_genesis, ancestor_max_chain_length, get_block_failed,
  common_ancestor,
}
use hc_data.Rpc.Chains.Links.{IsChain, IsResult, common_ancestor-IsResult}
use hc_data.Notification.{
  BlockHashHeight, ReorgEvent, Message, handler_called, new_tx, exp_new_tx,
  update_status_node_height, reorg_sent, CollectionQueue, call_handlers, offer, connect,
  process_block, set_previous_block, signal_monitors, signal_with, signal_reorg, Event,
  block_connected, reorganization, unknown, process_event, super_queue,
}

-- The chains of a reorganization lead from the common ancestor to the two heads.
abbrev pub IsLinked : Blocks → Message → Type 0
IsLinked node (handler_called i h) = Unit
IsLinked node new_tx = Unit
IsLinked node exp_new_tx = Unit
IsLinked node (update_status_node_height h) = Unit
IsLinked node (reorg_sent m data_) =
    IsChain node data_.common_ancestor_hash data_.new_chain data_.new_chain_head
    × IsChain node data_.common_ancestor_hash data_.old_chain data_.old_chain_head

abbrev pub AllLinked : Blocks → List Message → Type 0
AllLinked node [] = Unit
AllLinked node (m ∷ rest) = IsLinked node m × AllLinked node rest

AllLinked-append :
    (node : Blocks) (ms ns : List Message)
    → AllLinked node ms
    → AllLinked node ns
    → AllLinked node (ms ++ ns)
AllLinked-append node [] ns h k = k
AllLinked-append node (m ∷ ms) ns h k = (h.0, AllLinked-append node ms ns h.1 k)

AllLinked-call_handlers :
    (node : Blocks) (n i : ℕ) (h : Hash) → AllLinked node (call_handlers n i h)
AllLinked-call_handlers node zero i h = tt
AllLinked-call_handlers node (suc n) i h = (tt, AllLinked-call_handlers node n (suc i) h)

module _ (ready : List Message → Message → Bool) (node : Blocks) where
  AllLinked-offer :
      (m : Message) (q : CollectionQueue)
      → IsLinked node m
      → AllLinked node q.sent
      → AllLinked node (offer ready m q).sent
  unfolding offer
  AllLinked-offer m q h k = elim (Bool-cases (ready q.sent m)) [
    | inl taken ↦ rw taken (AllLinked-append node q.sent (m ∷ []) k (h, tt))
    | inr shut ↦ rw shut k
  ]

  signal_with-AllLinked :
      (d : ReorgEvent) (a : Ancestor) (q : CollectionQueue)
      → IsResult node d.new_chain_head d.old_chain_head a
      → AllLinked node q.sent
      → AllLinked node (signal_with ready d a q).sent
  unfolding signal_with signal_monitors set_previous_block
  signal_with-AllLinked d (found h new_chain old_chain) q r k =
      AllLinked-offer _ _ r
        (AllLinked-offer _ _ r (AllLinked-offer _ _ r (AllLinked-offer _ q r k)))
  signal_with-AllLinked d (ancestor_at_genesis new_chain old_chain) q r k = k
  signal_with-AllLinked d ancestor_max_chain_length q r k = k
  signal_with-AllLinked d (get_block_failed h) q r k = k

  process_block-AllLinked :
      (bh : BlockHashHeight) (q : CollectionQueue)
      → AllLinked node q.sent
      → AllLinked node (process_block ready bh q).sent
  unfolding process_block connect set_previous_block
  process_block-AllLinked bh q k = elim (Bool-cases (bh.prev_hash == q.prev_hash)) [
    | inl connects ↦ rw connects (
        AllLinked-offer (update_status_node_height bh.height) _ tt (
          AllLinked-offer exp_new_tx _ tt (
            AllLinked-offer new_tx _ tt (
              AllLinked-append node q.sent (call_handlers q.sync_handlers 0 bh.hash) k
                (AllLinked-call_handlers node q.sync_handlers 0 bh.hash)))))
    | inr apart ↦ rw apart k
  ]

  -- Whatever the events, superQueue sends the monitors no reorganization whose two chains do not lead from
  -- the common ancestor to the two heads, by the node's own blocks.
  pub super_queue-AllLinked :
      (events : List Event) (q : CollectionQueue)
      → AllLinked node q.sent
      → AllLinked node (super_queue ready (some node) events q).sent
  unfolding super_queue process_event signal_reorg
  super_queue-AllLinked [] q k = k
  super_queue-AllLinked (unknown ∷ rest) q k = super_queue-AllLinked rest q k
  super_queue-AllLinked (block_connected bh ∷ rest) q k =
      super_queue-AllLinked rest (process_block ready bh q) (process_block-AllLinked bh q k)
  super_queue-AllLinked (reorganization d ∷ rest) q k =
      super_queue-AllLinked rest
        (signal_with ready d (common_ancestor node d.new_chain_head d.old_chain_head) q)
        (signal_with-AllLinked d (common_ancestor node d.new_chain_head d.old_chain_head) q
          (common_ancestor-IsResult node d.new_chain_head d.old_chain_head) k)
