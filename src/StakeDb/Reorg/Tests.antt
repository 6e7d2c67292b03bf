-- ===== src/StakeDb/Reorg/Tests.antt =====
-- A reorganization of a concrete stake database (v4/stakedb/chainmonitor.go): one block back, and one forth.
use hc_data.Base.{
  ◌≡◌, refl, ap, sym, false, [], ◌∷◌, none, some, arith, ◌==◌, if◌then◌else◌, Option,
}
use hc_data.Base.Int.{ℤ, pos}
use hc_data.Base.Exec.{ok, panic}
use hc_data.Base.HashSet
use hc_data.Base.HashSet.{contains, Hash}
use hc_data.StakeDb.DiffDb.{PoolDiff, upsert}
use hc_data.StakeDb.TicketPool.{trim, retreat, retreat_to, retreat_while, retreat_loop}
use hc_data.StakeDb.TicketPool.Replay.{none_live, replay, Fits}
use hc_data.StakeDb.LiveTickets.{Fetch}
use hc_data.StakeDb.Samples.{list_db, list_lane, first_diff, height_node, at_two, at_two-IsInStep}
use hc_data.StakeDb.Connect.{Block, Db, no_parent, ss_tx, ss_gen}
use hc_data.StakeDb.Connect.Success.{Connects}
use hc_data.StakeDb.Disconnect.{Client}
use hc_data.StakeDb.Disconnect.Parent.{Disconnects}
use hc_data.StakeDb.Reorg.{no_switch, disconnect_blocks, switch_to_side_chain, reorg_round}
use hc_data.StakeDb.Reorg.Back.{Disconnectable, stay, back_one}
use hc_data.StakeDb.Reorg.Forth.{Connectable, no_more, forth_one}
use hc_data.StakeDb.Reorg.Switch.{
  side_chain, Exchanged, reorg_round_correct, failed_disconnect_panics,
}

-- The common ancestor, in which the ticket 5 was bought
abbrev ancestor_block : Block
ancestor_block = record {
  hash = 31;
  height = pos 1;
  header = some 5;
  s_transactions = record { hash = 5; tx_type = ss_tx; previous = 9 ∷ [] } ∷ [];
}

-- A block of the side chain, in which the ticket 2 votes
abbrev side_block : Block
side_block = record {
  hash = 42;
  height = pos 2;
  header = some 7;
  s_transactions = record { hash = 40; tx_type = ss_gen; previous = 0 ∷ 2 ∷ [] } ∷ [];
}

abbrev two_chains : Client
two_chains = record {
  prev_block = λ h. if h == 32 then some 31 else none;
  block_with =
      λ h. if h == 31 then some ancestor_block else if h == 42 then some side_block else none;
}

abbrev no_answers : Client
no_answers = record { prev_block = λ h. none; block_with = λ h. none }

abbrev all_known : Fetch
all_known h = some (h, pos 10)

abbrev answers : ℤ → Option Block
answers h = some ancestor_block

ancestor_block-Disconnects :
    Disconnects (list_db 0) list_lane height_node two_chains ancestor_block at_two 1 31
ancestor_block-Disconnects = record {
  header = 5;
  found = refl;
  serialized = refl;
  disconnected = refl;
  node_written = refl;
}

one_back-Disconnectable :
    Disconnectable (list_db 0) list_lane height_node all_known two_chains false 1 at_two
one_back-Disconnectable =
    back_one 0 at_two ancestor_block 1 31 (omega arith) refl ancestor_block-Disconnects refl
      (λ db e. stay db)

abbrev went_back : Db (list_db 0) list_lane height_node
went_back =
    (disconnect_blocks (list_db 0) list_lane height_node all_known two_chains (pos 1) at_two).1

abbrev side_diff : PoolDiff
side_diff = record { tickets_in = 5 ∷ []; tickets_out = 2 ∷ [] }

side_diff-Fits : Fits (replay none_live (first_diff ∷ [])) side_diff
unfolding contains
side_diff-Fits = record {
  in_distinct = (refl, tt);
  out_distinct = (refl, tt);
  in_new = λ h p. ground arith;
  out_live = λ h p. ground arith;
}

side_block-Connects : Connects (list_db 0) list_lane height_node side_block (5 ∷ []) went_back 2 42
unfolding disconnect_blocks trim retreat_to retreat_while retreat_loop retreat HashSet.erase_all
    HashSet.erase HashSet.insert_all
side_block-Connects = record {
  header = 7;
  voted = 2 ∷ [];
  revoked = [];
  serialized = refl;
  votes = refl;
  revocations = refl;
  connected = refl;
  node_written = refl;
}

went_back-Connectable :
    Connectable (list_db 0) list_lane height_node all_known answers 1 two_chains (42 ∷ []) went_back
unfolding disconnect_blocks upsert trim retreat_to retreat_while retreat_loop retreat
    HashSet.erase_all HashSet.erase HashSet.insert_all
went_back-Connectable =
    forth_one [] went_back side_block ancestor_block false 2 42
      ((1, first_diff) ∷ (2, side_diff) ∷ []) refl refl refl side_block-Connects refl side_diff-Fits
      refl refl (λ db e. no_more db)

reorg_round_correct_example :
    (db' : Db (list_db 0) list_lane height_node) × (switch_to_side_chain
        (list_db 0)
        list_lane
        height_node
        all_known
        answers
        1
        two_chains
        (side_chain (pos 2) 1 (42 ∷ []))
        at_two
      ≡ (ok (record { height = pos db'.best_node; hash = some 42; failed = false }), db'))
    × (reorg_round
          (list_db 0)
          list_lane
          height_node
          all_known
          answers
          1
          two_chains
          (side_chain (pos 2) 1 (42 ∷ []))
          at_two
        ≡ (ok tt, db'))
    × Exchanged (list_db 0) list_lane height_node all_known 1 1 at_two db'
reorg_round_correct_example =
    reorg_round_correct (list_db 0) list_lane height_node all_known answers 1 two_chains (pos 2) 42
      [] 1 1 at_two at_two-IsInStep refl one_back-Disconnectable
      (λ db e. (let same : db ≡ went_back = sym (ap (λ r. r.1) e) in rw same went_back-Connectable))

failed_disconnect_panics_example :
    (switch_to_side_chain
        (list_db 0)
        list_lane
        height_node
        all_known
        answers
        1
        no_answers
        (side_chain (pos 2) 1 (42 ∷ []))
        at_two
      ≡ (ok no_switch, at_two))
    × (reorg_round
          (list_db 0)
          list_lane
          height_node
          all_known
          answers
          1
          no_answers
          (side_chain (pos 2) 1 (42 ∷ []))
          at_two
        ≡ (panic, at_two))
unfolding disconnect_blocks
failed_disconnect_panics_example =
    failed_disconnect_panics (list_db 0) list_lane height_node all_known answers 1 no_answers
      (pos 2) 42 [] 1 1 no_parent at_two at_two refl refl
