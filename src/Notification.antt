-- ===== src/Notification.antt =====
-- The notification queue of v4/notification/ntfnhandlers.go: superQueue takes the events in the order in which
-- the node reported them, hands new blocks to the synchronous handlers, and sends reorganizations to the
-- monitors. What is sent is logged in order. A send that does not wait succeeds where the receiver is
-- ready, which is an argument that may depend on what was sent before. The monitors are taken to end, so that
-- the waits on their wait groups return.

pub mod Calls
pub mod Followed
pub mod Chained
mod Tests
use hc_data.Base.{
  ℕ, zero, suc, ◌+◌, ◌%◌, ◌^◌, Bool, List, [], ◌∷◌, ◌++◌, Option, none, some, ◌==◌, if◌then◌else◌,
}
use hc_data.Base.Int.{ℤ}
use hc_data.Base.HashSet.{Hash}
use hc_data.Rpc.Chains.{
  Blocks, Ancestor, found, ancestor_at_genesis, ancestor_max_chain_length, get_block_failed,
  common_ancestor,
}

-- blockHashHeight
pub record BlockHashHeight : Type 0 where
  pub hash : Hash
  pub height : ℤ
  pub prev_hash : Hash

-- ReorgData, as the node reports a reorganization
pub record ReorgEvent : Type 0 where
  pub old_chain_head : Hash
  pub old_chain_height : ℤ
  pub new_chain_head : Hash
  pub new_chain_height : ℤ

-- ReorgData of v4/txhelpers/txhelpers.go, as the monitors get it
pub record ReorgData : Type 0 where
  pub common_ancestor_hash : Hash
  pub old_chain_head : Hash
  pub old_chain_height : ℤ
  pub old_chain : List Hash
  pub new_chain_head : Hash
  pub new_chain_height : ℤ
  pub new_chain : List Hash

pub data Monitor : Type 0 where
  stake_db wired_db block_data dcrpg_db : Monitor

-- What is called or sent: a synchronous handler by its place, and a message on a channel
pub data Message : Type 0 where
  handler_called : ℕ → Hash → Message
  new_tx exp_new_tx : Message
  update_status_node_height : ℤ → Message
  reorg_sent : Monitor → ReorgData → Message

-- collectionQueue, with the number of its handlers, and the log of what was sent
pub record CollectionQueue : Type 0 where
  pub sync_handlers : ℕ
  pub prev_hash : Hash
  pub prev_height : ℤ
  pub sent : List Message

-- SetPreviousBlock
unfoldable pub set_previous_block : Hash → ℤ → CollectionQueue → CollectionQueue
set_previous_block prev_hash prev_height q = record q {
  prev_hash = prev_hash;
  prev_height = prev_height;
}

-- SetSynchronousHandlers
unfoldable pub set_synchronous_handlers : ℕ → CollectionQueue → CollectionQueue
set_synchronous_handlers n q = record q { sync_handlers = n }

-- The call of the handlers in order, from the place i on, of which n are left
abbrev pub call_handlers : ℕ → ℕ → Hash → List Message
call_handlers zero i hash = []
call_handlers (suc n) i hash = handler_called i hash ∷ call_handlers n (suc i) hash

-- The data that signalReorg sends
abbrev pub full_data : ReorgEvent → Hash → List Hash → List Hash → ReorgData
full_data d ancestor new_chain old_chain = record {
  common_ancestor_hash = ancestor;
  old_chain_head = d.old_chain_head;
  old_chain_height = d.old_chain_height;
  old_chain = old_chain;
  new_chain_head = d.new_chain_head;
  new_chain_height = d.new_chain_height;
  new_chain = new_chain;
}

module _ (ready : List Message → Message → Bool) where
  -- A send that does not wait
  unfoldable pub offer : Message → CollectionQueue → CollectionQueue
  offer m q = if ready q.sent m then record q { sent = q.sent ++ m ∷ [] } else q

  -- processBlock, for a block that connects
  unfoldable pub connect : BlockHashHeight → CollectionQueue → CollectionQueue
  unfolding offer set_previous_block
  connect bh q =
      let handled = record q { sent = q.sent ++ call_handlers q.sync_handlers 0 bh.hash } in
      offer (update_status_node_height bh.height)
        (offer exp_new_tx (offer new_tx (set_previous_block bh.hash bh.height handled)))

  -- processBlock
  unfoldable pub process_block : BlockHashHeight → CollectionQueue → CollectionQueue
  unfolding connect
  process_block bh q = if bh.prev_hash == q.prev_hash then connect bh q else q

  -- The sends to the monitors, that of the stake database first, each waited for
  unfoldable pub signal_monitors : ReorgEvent → ReorgData → CollectionQueue → CollectionQueue
  unfolding offer set_previous_block
  signal_monitors d data_ q = set_previous_block d.new_chain_head d.new_chain_height (
      offer (reorg_sent dcrpg_db data_) (
        offer (reorg_sent block_data data_)
          (offer (reorg_sent wired_db data_) (offer (reorg_sent stake_db data_) q))))

  -- signalReorg, from what CommonAncestor returned
  unfoldable pub signal_with : ReorgEvent → Ancestor → CollectionQueue → CollectionQueue
  unfolding signal_monitors
  signal_with d (found ancestor new_chain old_chain) q =
      signal_monitors d (full_data d ancestor new_chain old_chain) q
  signal_with d (ancestor_at_genesis new_chain old_chain) q = q
  signal_with d ancestor_max_chain_length q = q
  signal_with d (get_block_failed h) q = q

  -- signalReorg; without a client of the node nothing is done.
  unfoldable pub signal_reorg : Option Blocks → ReorgEvent → CollectionQueue → CollectionQueue
  unfolding signal_with common_ancestor
  signal_reorg none d q = q
  signal_reorg (some node) d q =
      signal_with d (common_ancestor node d.new_chain_head d.old_chain_head) q

-- What superQueue takes off its channel
pub data Event : Type 0 where
  block_connected : BlockHashHeight → Event
  reorganization : ReorgEvent → Event
  unknown : Event

module _ (ready : List Message → Message → Bool) (client : Option Blocks) where
  unfoldable pub process_event : Event → CollectionQueue → CollectionQueue
  unfolding process_block signal_reorg
  process_event (block_connected bh) q = process_block ready bh q
  process_event (reorganization d) q = signal_reorg ready client d q
  process_event unknown q = q

  -- superQueue
  unfoldable pub super_queue : List Event → CollectionQueue → CollectionQueue
  unfolding process_event
  super_queue [] q = q
  super_queue (e ∷ rest) q = super_queue rest (process_event e q)
