-- ===== src/StakeDb/Disconnect/Tests.antt =====
-- Tests of the theorem on DisconnectBlock (v4/stakedb/stakedb.go) at a concrete database.
use hc_data.Base.{◌≡◌, refl, false, [], ◌∷◌, ◌++◌, none, some, arith, ◌==◌, if◌then◌else◌}
use hc_data.Base.Int.{pos}
use hc_data.Base.Exec.{ok}
use hc_data.StakeDb.DiffDb.{PoolDiff}
use hc_data.StakeDb.LiveTickets.{Fetch, undo_diff}
use hc_data.StakeDb.Samples.{
  list_db, list_lane, first_diff, second_diff, height_node, at_two, at_two-IsInStep,
}
use hc_data.StakeDb.Connect.{Block, Db}
use hc_data.StakeDb.Connect.Success.{IsInStep}
use hc_data.StakeDb.Disconnect.{Client, disconnect_block}
use hc_data.StakeDb.Disconnect.Parent.{Disconnects, disconnect_block_correct}

abbrev parent_block : Block
parent_block = record { hash = 31; height = pos 1; header = some 5; s_transactions = [] }

abbrev parent_client : Client
parent_client = record {
  prev_block = λ h. if h == 32 then some 31 else none;
  block_with = λ h. if h == 31 then some parent_block else none;
}

abbrev one_known : Fetch
one_known h = if h == 1 then some (1, pos 10) else none

parent_block-Disconnects :
    Disconnects (list_db 0) list_lane height_node parent_client parent_block at_two 1 31
parent_block-Disconnects = record {
  header = 5;
  found = refl;
  serialized = refl;
  disconnected = refl;
  node_written = refl;
}

disconnect_block_correct_example :
    (d : PoolDiff) × (db' : Db (list_db 0) list_lane height_node) × (disconnect_block
        (list_db 0)
        list_lane
        height_node
        one_known
        parent_client
        false
        at_two
      ≡ (ok tt, db'))
    × IsInStep (list_db 0) list_lane height_node db'
    × (db'.pool_db.diffs ++ d ∷ [] ≡ first_diff ∷ second_diff ∷ [])
    × (db'.live ≡ undo_diff one_known d at_two.live)
    × (db'.best_node ≡ 1)
    × (db'.stake_db ≡ 31)
disconnect_block_correct_example =
    disconnect_block_correct (list_db 0) list_lane height_node one_known parent_client false
      parent_block at_two 1 31 at_two-IsInStep (omega arith) refl parent_block-Disconnects refl
