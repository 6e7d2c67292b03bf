-- ===== src/StakeDb/Recover/Tests.antt =====
-- Recovery (v4/stakedb/stakedb.go) of a stake node at the height 3 and a ticket pool of two diffs.
use hc_data.Base.{ℕ, ◌+◌, ◌-◌, ◌≡◌, refl, false, List, [], ◌∷◌, none, some, arith, sym}
use hc_data.Base.Int.{pos}
use hc_data.Base.Exec.{ok}
use hc_data.Base.HashSet.{Hash}
use hc_data.StakeDb.DiffDb.{PoolDiff}
use hc_data.StakeDb.LiveTickets.{Fetch}
use hc_data.StakeDb.Connect.{Block, StakeNode, Db}
use hc_data.StakeDb.Disconnect.{Client}
use hc_data.StakeDb.Samples.{list_db, list_lane, first_diff, second_diff, at_two-IsInStep}
use hc_data.StakeDb.Recover.{target_of, new_stake_database, load_and_recover}
use hc_data.StakeDb.Recover.Lower.{GoesBack, stay, back_to}
use hc_data.StakeDb.Recover.Started.{
  IsStarted, load_and_recover_correct, new_stake_database_correct,
}

abbrev counting_node : StakeNode
counting_node = record {
  Node = ℕ;
  Disk = Hash;
  height = λ n. n;
  winners = λ n. 2 ∷ [];
  expired_by_block = λ n. [];
  pool_size = λ n. 3;
  connect = λ header voted revoked maturing n. some (n + 1);
  write_connected = λ disk n hash. some hash;
  disconnect = λ header disk n. some (n - 1);
  write_disconnected = λ disk n hash child. some hash;
  best_hash = λ disk. some disk;
}

abbrev client : Client
client = record {
  prev_block = λ h. some (h - 1);
  block_with =
      λ h. some (record { hash = h; height = pos (h - 30); header = some 5; s_transactions = [] });
}

abbrev no_tickets : ℕ → List Hash
no_tickets n = []

abbrev none_known : Fetch
none_known h = none

abbrev two_diffs : List PoolDiff
two_diffs = first_diff ∷ second_diff ∷ []

abbrev block_at : ℕ → Block
block_at h = record { hash = h; height = pos (h - 30); header = some 5; s_transactions = [] }

from_three : GoesBack (list_db 0) list_lane counting_node client 1 31 3 33
from_three =
    back_to 3 33 (block_at 32) 5 2 32 refl refl refl refl refl refl
      (back_to 2 32 (block_at 31) 5 1 31 refl refl refl refl refl refl stay)

two_of_three : GoesBack (list_db 0) list_lane counting_node client 2 32 3 33
two_of_three = back_to 3 33 (block_at 32) 5 2 32 refl refl refl refl refl refl stay

lower_target : target_of (pos 1) 3 2 ≡ pos 1
unfolding target_of
lower_target = refl

load_and_recover_correct_example :
    (db : Db (list_db 0) list_lane counting_node) × (load_and_recover
        (list_db 0)
        list_lane
        counting_node
        no_tickets
        none_known
        client
        30
        ((1, first_diff) ∷ (2, second_diff) ∷ [])
        (some (3, 33))
        (pos 1)
      ≡ ok (false, db))
    × IsStarted (list_db 0) list_lane counting_node no_tickets none_known 1 31 two_diffs db
load_and_recover_correct_example =
    load_and_recover_correct (list_db 0) list_lane counting_node no_tickets none_known client 1 31
      two_diffs (λ t tx_hash v e. absurd (cc e)) tt 30 ((1, first_diff) ∷ (2, second_diff) ∷ []) 3
      33 refl refl at_two-IsInStep.valid.consistent from_three (pos 1) (sym lower_target)

new_stake_database_correct_example :
    (db : Db (list_db 0) list_lane counting_node) × (new_stake_database
        (list_db 0)
        list_lane
        counting_node
        no_tickets
        none_known
        client
        30
        ((1, first_diff) ∷ (2, second_diff) ∷ [])
        (some (3, 33))
      ≡ ok ((pos 1, false), db))
    × IsStarted (list_db 0) list_lane counting_node no_tickets none_known 2 32 two_diffs db
new_stake_database_correct_example =
    new_stake_database_correct (list_db 0) list_lane counting_node no_tickets none_known client 2 32
      two_diffs (λ t tx_hash v e. absurd (cc e)) tt 30 ((1, first_diff) ∷ (2, second_diff) ∷ []) 3
      33 refl refl at_two-IsInStep.valid.consistent two_of_three (omega arith)
