-- ===== src/Notification/Tests.antt =====
-- Runs of the notification queue (v4/notification/ntfnhandlers.go) at concrete events.
use hc_data.Base.{
  ◌≡◌, refl, arith, Bool, true, List, [], ◌∷◌, ◌++◌, none, some, ◌==◌, if◌then◌else◌,
}
use hc_data.Base.Int.{pos}
use hc_data.Rpc.Chains.{Blocks, common_ancestor, ancestor_loop, round_with, compare_headers, follow}
use hc_data.Notification.{
  BlockHashHeight, ReorgEvent, Message, CollectionQueue, Event, block_connected, reorganization,
  super_queue,
}
use hc_data.Notification.Calls.{calls}
use hc_data.Notification.Followed.{connecting, super_queue-calls, failed_reorg_loses_blocks}
use hc_data.Notification.Chained.{AllLinked, super_queue-AllLinked}

-- The block 3 has two successors, 4 and 5.
abbrev node : Blocks
node h =
    if h == 4
    then some (record { prev_block = 3; height = 4 })
    else if h == 5
    then some (record { prev_block = 3; height = 4 })
    else none

abbrev silent : Blocks
silent h = none

abbrev queue : CollectionQueue
queue = record { sync_handlers = 2; prev_hash = 3; prev_height = pos 3; sent = [] }

abbrev always : List Message → Message → Bool
always sent m = true

abbrev fourth : BlockHashHeight
fourth = record { hash = 4; height = pos 4; prev_hash = 3 }

abbrev sixth : BlockHashHeight
sixth = record { hash = 6; height = pos 5; prev_hash = 5 }

abbrev to_five : ReorgEvent
to_five = record {
  old_chain_head = 4;
  old_chain_height = pos 4;
  new_chain_head = 5;
  new_chain_height = pos 4;
}

abbrev events : List Event
events = block_connected fourth ∷ reorganization to_five ∷ block_connected sixth ∷ []

-- Both blocks are handled, the second on the new head.
both_connect : connecting (some node) 3 events ≡ 4 ∷ 6 ∷ []
unfolding common_ancestor ancestor_loop round_with compare_headers follow
both_connect = refl

super_queue-calls_example :
    calls 1 (super_queue always (some node) events queue).sent
    ≡ calls 1 [] ++ connecting (some node) 3 events
super_queue-calls_example = super_queue-calls always 1 (some node) events queue (omega arith)

super_queue-AllLinked_example : AllLinked node (super_queue always (some node) events queue).sent
super_queue-AllLinked_example = super_queue-AllLinked always node events queue tt

failed_reorg_loses_blocks_example :
    super_queue always (some silent) (reorganization to_five ∷ block_connected sixth ∷ []) queue
    ≡ queue
unfolding common_ancestor ancestor_loop round_with follow
failed_reorg_loses_blocks_example =
    failed_reorg_loses_blocks always silent to_five (sixth ∷ []) queue refl (refl, tt)
