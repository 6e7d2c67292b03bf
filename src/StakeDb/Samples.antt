-- ===== src/StakeDb/Samples.antt =====
-- Concrete ticket pools, a database that is a list of items, and a queue that is a list, for the tests
-- of v4/stakedb.

use hc_data.Base.Int.{pos, beq_ℤ}
use hc_data.Base.HashMap.{lookup}
use hc_data.StakeDb.LiveTickets.Summed.{IsSummed}
use hc_data.StakeDb.Connect.{Block, StakeNode, Db, ss_tx}
use hc_data.StakeDb.Connect.Success.{IsInStep}
use hc_data.Base.{
  ◌+◌, ℕ, ◌≡◌, refl, true, List, [], ◌∷◌, Option, none, some, arith, ◌==◌, Bool-cases, inl, inr,
  if◌then◌else◌, ◌++◌, length,
}
use hc_data.Base.HashSet.{Hash, contains}
use hc_data.StakeDb.DiffDb.{PoolDiff, DiffDb, upsert}
use hc_data.StakeDb.TicketPool.{TicketPool}
use hc_data.StakeDb.TicketPool.Replay.{Fits, none_live, replay}
use hc_data.StakeDb.TicketPool.Step.{IsValid}
use hc_data.StakeDb.PoolInfoCache.{Lane}

-- A list of items that refuses to write at one height.
abbrev pub failing_at : ℕ → List (ℕ × PoolDiff) → ℕ → PoolDiff → Option (List (ℕ × PoolDiff))
failing_at bad s h d = if h == bad then none else some (upsert h d s)

pub failing_at-upsert :
    (bad : ℕ) (s : List (ℕ × PoolDiff)) (h : ℕ) (d : PoolDiff) (t : List (ℕ × PoolDiff))
    → failing_at bad s h d ≡ some t
    → t ≡ upsert h d s
failing_at-upsert bad s h d t e = elim (Bool-cases (h == bad)) [
  | inl fails ↦ absurd (ground arith)
  | inr works ↦ ground arith
]

abbrev pub list_db : ℕ → DiffDb
list_db bad = record {
  State = List (ℕ × PoolDiff);
  items = λ s. s;
  readable = λ s. true;
  set = failing_at bad;
  items-set = failing_at-upsert bad;
}

abbrev pub first_diff : PoolDiff
first_diff = record { tickets_in = 1 ∷ 2 ∷ 3 ∷ []; tickets_out = [] }

abbrev pub second_diff : PoolDiff
second_diff = record { tickets_in = 4 ∷ []; tickets_out = 1 ∷ [] }

abbrev pub third_diff : PoolDiff
third_diff = record { tickets_in = 5 ∷ []; tickets_out = 2 ∷ 5 ∷ [] }

pub first_diff-Fits : Fits none_live first_diff
unfolding contains
first_diff-Fits = record {
  in_distinct = (refl, (refl, (refl, tt)));
  out_distinct = tt;
  in_new = λ h p. refl;
  out_live = λ h p. ground arith;
}

pub second_diff-Fits : Fits (replay none_live (first_diff ∷ [])) second_diff
unfolding contains
second_diff-Fits = record {
  in_distinct = (refl, tt);
  out_distinct = (refl, tt);
  in_new = λ h p. ground arith;
  out_live = λ h p. ground arith;
}

pub third_diff-Fits : Fits (replay none_live (first_diff ∷ second_diff ∷ [])) third_diff
unfolding contains
third_diff-Fits = record {
  in_distinct = (refl, tt);
  out_distinct = (refl, (refl, tt));
  in_new = λ h p. ground arith;
  out_live = λ h p. ground arith;
}

abbrev pub two_items : List (ℕ × PoolDiff)
two_items = (1, first_diff) ∷ (2, second_diff) ∷ []

-- Two diffs, the first of them applied.
abbrev pub at_one : TicketPool (List (ℕ × PoolDiff))
at_one = record {
  cursor = 1;
  tip = 2;
  diffs = first_diff ∷ second_diff ∷ [];
  pool = 3 ∷ 2 ∷ 1 ∷ [];
  diff_db = two_items;
}

pub at_one-IsValid : IsValid at_one
unfolding contains
at_one-IsValid = record {
  tip_length = refl;
  replayed = record {
    within = omega arith;
    distinct = (refl, (refl, (refl, tt)));
    consistent = (first_diff-Fits, (second_diff-Fits, tt));
    holds = λ h. ground arith;
  };
}

abbrev pub first_of : List Hash → Option Hash × List Hash
first_of [] = (none, [])
first_of (h ∷ rest) = (some h, rest)

pub first_of-empty : (q : List Hash) → q ≡ [] → ((first_of q).0 ≡ none) × ((first_of q).1 ≡ [])
first_of-empty q e = rw e (refl, refl)

pub first_of-first :
    (q : List Hash) (h : Hash) (rest : List Hash)
    → q ≡ h ∷ rest
    → ((first_of q).0 ≡ some h) × ((first_of q).1 ≡ rest)
first_of-first q h rest e = rw e (refl, refl)

abbrev pub list_lane : Lane
list_lane = record {
  Queue = List Hash;
  entries = λ q. q;
  new_queue = [];
  enqueue = λ h q. q ++ h ∷ [];
  dequeue = first_of;
  size = length;
  entries-new = refl;
  entries-enqueue = λ h q. refl;
  dequeue-empty = first_of-empty;
  dequeue-first = first_of-first;
  size-entries = λ q. refl;
}

-- A stake node that is its height; the ticket 2 wins, and none expires.
abbrev pub height_node : StakeNode
height_node = record {
  Node = ℕ;
  Disk = Hash;
  height = λ n. n;
  winners = λ n. 2 ∷ [];
  expired_by_block = λ n. [];
  pool_size = λ n. 3;
  connect = λ header voted revoked maturing n. some (n + 1);
  write_connected = λ disk n hash. some hash;
  disconnect = λ header disk n. some 1;
  write_disconnected = λ disk n hash child. some hash;
  best_hash = λ disk. some disk;
}

-- The ticket 5 was bought in the block at the height 2.
abbrev pub old_block : Block
old_block = record {
  hash = 32;
  height = pos 2;
  header = some 6;
  s_transactions = record { hash = 5; tx_type = ss_tx; previous = 9 ∷ [] } ∷ [];
}

abbrev pub at_two : Db (list_db 0) list_lane height_node
at_two = record {
  best_node = 2;
  stake_db = 32;
  block_cache = λ h. if beq_ℤ (pos 2) h then some old_block else none;
  live = record {
    live_ticket_cache = (2, pos 20) ∷ (3, pos 30) ∷ (4, pos 40) ∷ [];
    pool_value = pos 90;
  };
  pool_info = record { pool_info = λ k. none; expire_queue = []; max_size = pos 3 };
  pool_db = at_one;
  pending = [];
}

pub at_two-IsSummed : IsSummed at_two.live
unfolding lookup
at_two-IsSummed = record { one_each = (refl, (refl, (refl, tt))); total = refl }

pub at_two-IsInStep : IsInStep (list_db 0) list_lane height_node at_two
at_two-IsInStep = record { same_height = refl; valid = at_one-IsValid; summed = at_two-IsSummed }
