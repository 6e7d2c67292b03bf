-- ===== src/StakeDb/Connect/Tests.antt =====
-- Tests of the theorems on ConnectBlock (v4/stakedb/stakedb.go) at a concrete database.
use hc_data.Base.{ℕ, ◌≡◌, refl, true, List, [], ◌∷◌, none, some, arith, ◌==◌, if◌then◌else◌}
use hc_data.Base.Int.{pos}
use hc_data.Base.Exec.{ok}
use hc_data.Base.HashSet.{contains}
use hc_data.StakeDb.DiffDb.{PoolDiff, upsert}
use hc_data.StakeDb.TicketPool.Replay.{none_live, replay, Fits}
use hc_data.StakeDb.LiveTickets.{Fetch}
use hc_data.StakeDb.Samples.{
  height_node, old_block, at_two, at_two-IsInStep, list_db, list_lane, first_diff, second_diff,
}
use hc_data.StakeDb.Connect.{Block, Db, ss_gen, connect_block}
use hc_data.StakeDb.Connect.Success.{Connects, Connected, connect_block_correct}

-- The ticket 2 votes in the block at the height 3.
abbrev new_block : Block
new_block = record {
  hash = 33;
  height = pos 3;
  header = some 7;
  s_transactions = record { hash = 40; tx_type = ss_gen; previous = 0 ∷ 2 ∷ [] } ∷ [];
}

abbrev five_known : Fetch
five_known h = if h == 5 then some (5, pos 50) else none

abbrev five_for_two : PoolDiff
five_for_two = record { tickets_in = 5 ∷ []; tickets_out = 2 ∷ [] }

five_for_two-Fits : Fits (replay none_live (first_diff ∷ second_diff ∷ [])) five_for_two
unfolding contains
five_for_two-Fits = record {
  in_distinct = (refl, tt);
  out_distinct = (refl, tt);
  in_new = λ h p. ground arith;
  out_live = λ h p. ground arith;
}

new_block-Connects : Connects (list_db 0) list_lane height_node new_block (5 ∷ []) at_two 3 33
new_block-Connects = record {
  header = 7;
  voted = 2 ∷ [];
  revoked = [];
  serialized = refl;
  votes = refl;
  revocations = refl;
  connected = refl;
  node_written = refl;
}

abbrev three_written : List (ℕ × PoolDiff)
three_written = (1, first_diff) ∷ (2, second_diff) ∷ (3, five_for_two) ∷ []

connect_block_correct_example :
    (db' : Db (list_db 0) list_lane height_node) × (connect_block
        (list_db 0)
        list_lane
        height_node
        five_known
        (λ h. none)
        1
        new_block
        at_two
      ≡ (ok tt, db'))
    × Connected
        (list_db 0)
        list_lane
        height_node
        five_known
        new_block
        (5 ∷ [])
        3
        33
        three_written
        at_two
        db'
connect_block_correct_example =
    connect_block_correct (list_db 0) list_lane height_node five_known (λ h. none) 1 new_block
      old_block true at_two 3 33 three_written at_two-IsInStep refl refl new_block-Connects refl
      five_for_two-Fits (unfold upsert in refl)
