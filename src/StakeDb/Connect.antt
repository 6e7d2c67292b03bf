-- ===== src/StakeDb/Connect.antt =====
-- ConnectBlock of StakeDatabase (v4/stakedb/stakedb.go), and the tickets of a block that it reads with
-- v4/txhelpers/staketree.go. The stake node and its database are code of hcd, and an interface here, as
-- are the answers of the RPC client. Amounts stay in atoms: the average value, a float, is left out.
mod Tests
pub mod Invariant
pub mod Success
use hc_data.Base.{
  ℕ, zero, suc, ◌+◌, ◌≡◌, Bool, true, false, List, [], ◌∷◌, ◌++◌, Option, none, some, if◌then◌else◌,
  get_elem?,
}
use hc_data.Base.Int.{ℤ, pos, ◌-ℤ◌, ltb_ℤ, beq_ℤ}
use hc_data.Base.Exec.{Outcome, ok, err, panic, out_of_fuel, Exec, pure, raise, continue}
use hc_data.Base.HashSet.{Hash}
use hc_data.StakeDb.DiffDb.{PoolDiff, DiffDb}
use hc_data.StakeDb.TicketPool.{TicketPool, PoolError}
use hc_data.StakeDb.TicketPool.Disk.{append_diff}
use hc_data.StakeDb.PoolInfoCache.{Lane, PoolInfoCache, CacheError, set}
use hc_data.StakeDb.LiveTickets.{LiveTickets, Fetch, apply_diff}

-- What DetermineTxType tells of a transaction of the stake tree.
pub data TxType : Type 0 where
  ss_tx ss_gen ss_rtx other : TxType

-- A transaction of the stake tree: its hash, its type, and the hashes of the outpoints that it spends.
pub record StakeTx : Type 0 where
  pub hash : Hash
  pub tx_type : TxType
  pub previous : List Hash

-- What the methods read of a dcrutil.Block; `header` is the serialized header, or nothing where that fails.
pub record Block : Type 0 where
  pub hash : Hash
  pub height : ℤ
  pub header : Option ℕ
  pub s_transactions : List StakeTx

-- TicketsInBlock
abbrev pub ticket_of : TxType → Hash → List Hash → List Hash
ticket_of ss_tx h tickets = h ∷ tickets
ticket_of ss_gen h tickets = tickets
ticket_of ss_rtx h tickets = tickets
ticket_of other h tickets = tickets

abbrev pub tickets_in_block : List StakeTx → List Hash
tickets_in_block [] = []
tickets_in_block (tx ∷ rest) = ticket_of tx.tx_type tx.hash (tickets_in_block rest)

-- An index past the inputs panics (`none`).
abbrev pub cons_found : Option Hash → Option (List Hash) → Option (List Hash)
cons_found none tickets = none
cons_found (some h) none = none
cons_found (some h) (some tickets) = some (h ∷ tickets)

abbrev pub spent_by : TxType → List Hash → Option (List Hash) → Option (List Hash)
spent_by ss_gen previous tickets = cons_found (get_elem? previous 1) tickets
spent_by ss_tx previous tickets = tickets
spent_by ss_rtx previous tickets = tickets
spent_by other previous tickets = tickets

-- TicketsSpentInBlock
abbrev pub tickets_spent_in_block : List StakeTx → Option (List Hash)
tickets_spent_in_block [] = some []
tickets_spent_in_block (tx ∷ rest) = spent_by tx.tx_type tx.previous (tickets_spent_in_block rest)

abbrev pub revoked_by : TxType → List Hash → Option (List Hash) → Option (List Hash)
revoked_by ss_rtx previous tickets = cons_found (get_elem? previous 0) tickets
revoked_by ss_tx previous tickets = tickets
revoked_by ss_gen previous tickets = tickets
revoked_by other previous tickets = tickets

-- RevokedTicketsInBlock
abbrev pub revoked_tickets_in_block : List StakeTx → Option (List Hash)
revoked_tickets_in_block [] = some []
revoked_tickets_in_block (tx ∷ rest) =
    revoked_by tx.tx_type tx.previous (revoked_tickets_in_block rest)

-- hcd: the stake node, and the database in which it is kept. `connect` is ConnectNode with the seed that
-- CalcHash256PRNGIV makes of a header; `none` is an error.
pub record StakeNode : Type 1 where
  pub Node : Type 0
  pub Disk : Type 0
  pub height : Node → ℕ
  pub winners : Node → List Hash
  pub expired_by_block : Node → List Hash
  pub pool_size : Node → ℕ
  pub connect : ℕ → List Hash → List Hash → List Hash → Node → Option Node
  pub write_connected : Disk → Node → Hash → Option Disk
  -- DisconnectNode with the seed of the parent's header
  pub disconnect : ℕ → Disk → Node → Option Node
  -- WriteDisconnectedBestNode with the undo data of the child node, which comes last
  pub write_disconnected : Disk → Node → Hash → Node → Option Disk
  -- the hash of the best block, as dbState reads it
  pub best_hash : Disk → Option Hash

pub data StakeError : Type 0 where
  serialize_failed connect_failed write_failed no_parent disconnect_failed no_block heights_differ
        open_failed :
      StakeError
  pool_failed : PoolError → StakeError
  cache_failed : CacheError → StakeError

-- TicketPoolInfo
pub record PoolInfo : Type 0 where
  pub height : ℤ
  pub size : ℕ
  pub value : ℤ
  pub winners : List Hash

-- The goroutine that signals the waiters of a height, with the hash of the block.
pub record Signal : Type 0 where
  pub height : ℤ
  pub hash : Hash

pub record StakeDatabase (Node Disk Q S : Type 0) : Type 0 where
  pub best_node : Node
  pub stake_db : Disk
  pub block_cache : ℤ → Option Block
  pub live : LiveTickets
  pub pool_info : PoolInfoCache PoolInfo Q
  pub pool_db : TicketPool S
  pub pending : List Signal

module _ (D : DiffDb) (L : Lane) (N : StakeNode) where
  open D use {State}
  open L use {Queue}
  open N use {Node, Disk, height, winners, expired_by_block, pool_size, connect, write_connected}

  abbrev pub Db : Type 0
  Db = StakeDatabase Node Disk Queue State

  abbrev pub Method : Type 0 → Type 0
  Method A = Exec StakeError Db A

  -- BlockCached and block: the second value tells whether the block was cached.
  abbrev pub cached_or : Option Block → Option Block → Option Block × Bool
  cached_or (some b) answer = (some b, true)
  cached_or none answer = (answer, false)

  abbrev pub find_block : (ℤ → Option Block) → ℤ → Db → Option Block × Bool
  find_block block_at ind db = cached_or (db.block_cache ind) (block_at ind)

  abbrev pub forget_block : ℤ → Db → Db
  forget_block ind db = record db {
    block_cache = λ h. if beq_ℤ ind h then none else db.block_cache h;
  }

  -- The tickets of the maturing block; where neither the cache nor the node has it, a nil block is read.
  unfoldable pub read_maturing : ℤ → Option Block × Bool → Method (List Hash)
  read_maturing ind (none, was_cached) db = (panic, db)
  read_maturing ind (some b, was_cached) db =
      pure (tickets_in_block b.s_transactions) (if was_cached then forget_block ind db else db)

  unfoldable pub maturing_tickets : (ℤ → Option Block) → ℤ → Method (List Hash)
  unfolding read_maturing
  maturing_tickets block_at ind db =
      if ltb_ℤ ind (pos 0) then pure [] db else read_maturing ind (find_block block_at ind db) db

  unfoldable pub keep_written : Option Disk → Method (Unit {0})
  keep_written none db = raise write_failed db
  keep_written (some disk) db = pure tt (record db { stake_db = disk })

  unfoldable pub keep_node : Hash → Option Node → Method (Unit {0})
  unfolding keep_written
  keep_node hash none db = raise connect_failed db
  keep_node hash (some node) db =
      keep_written (write_connected db.stake_db node hash) (record db { best_node = node })

  -- connectBlock
  unfoldable pub connect_node :
      Block → Option ℕ → List Hash → List Hash → List Hash → Method (Unit {0})
  unfolding keep_node
  connect_node block none spent revoked maturing db = raise serialize_failed db
  connect_node block (some header) spent revoked maturing db =
      keep_node block.hash (connect header spent revoked maturing db.best_node) db

  -- The end of ConnectBlock: the diff is appended to the ticket pool.
  unfoldable pub keep_pool : Outcome PoolError (Unit {0}) × TicketPool State → Method (Unit {0})
  keep_pool (ok _, tp) db = pure tt (record db { pool_db = tp })
  keep_pool (err e, tp) db = raise (pool_failed e) (record db { pool_db = tp })
  keep_pool (panic, tp) db = (panic, record db { pool_db = tp })
  keep_pool (out_of_fuel, tp) db = (out_of_fuel, record db { pool_db = tp })

  unfoldable pub append_pool_diff :
      PoolDiff
      → ℕ
      → Outcome CacheError (Unit {0}) × PoolInfoCache PoolInfo Queue
      → Method (Unit {0})
  unfolding keep_pool
  append_pool_diff diff next (ok _, cache) db =
      keep_pool (append_diff D diff (pos next) db.pool_db) (record db { pool_info = cache })
  append_pool_diff diff next (err e, cache) db =
      raise (cache_failed e) (record db { pool_info = cache })
  append_pool_diff diff next (panic, cache) db = (panic, record db { pool_info = cache })
  append_pool_diff diff next (out_of_fuel, cache) db =
      (out_of_fuel, record db { pool_info = cache })

  -- makePoolInfo
  abbrev pub make_pool_info : ℤ → ℕ → List Hash → ℤ → PoolInfo
  make_pool_info value size winning_tickets at = record {
    height = at;
    size = size;
    value = value;
    winners = winning_tickets;
  }

  -- The diff of the block: the maturing tickets come in, and the winners and the expired tickets go out.
  abbrev pub block_diff : List Hash → List Hash → Node → PoolDiff
  block_diff maturing voters node = record {
    tickets_in = maturing;
    tickets_out = voters ++ expired_by_block node;
  }

  -- ConnectBlock, once the node is connected. The deferred signal is started whatever is returned.
  unfoldable pub after_connect : Fetch → Block → List Hash → List Hash → ℕ → Method (Unit {0})
  unfolding append_pool_diff
  after_connect fetch block maturing voters best_height db =
      let diff = block_diff maturing voters db.best_node in
      let updated = apply_diff fetch diff db.live in
      let info =
        make_pool_info updated.pool_value (pool_size db.best_node) (winners db.best_node)
          block.height in
      append_pool_diff diff (best_height + 1) (set L block.hash info db.pool_info) (record db {
        live = updated;
        pending = db.pending ++ record { height = block.height; hash = block.hash } ∷ [];
      })

  unfoldable pub connect_tickets :
      Fetch → Block → List Hash → Option (List Hash) → Option (List Hash) → Method (Unit {0})
  unfolding connect_node after_connect
  connect_tickets fetch block maturing none voted db = (panic, db)
  connect_tickets fetch block maturing (some revoked) none db = (panic, db)
  connect_tickets fetch block maturing (some revoked) (some voted) db =
      continue (connect_node block block.header voted revoked maturing db)
        (λ _. after_connect fetch block maturing (winners db.best_node) (height db.best_node))

  unfoldable pub connect_with : Fetch → Block → List Hash → Method (Unit {0})
  unfolding connect_tickets
  connect_with fetch block maturing db =
      connect_tickets fetch block maturing (revoked_tickets_in_block block.s_transactions)
        (tickets_spent_in_block block.s_transactions)
        (record db {
          block_cache = λ h. if beq_ℤ block.height h then some block else db.block_cache h;
        })

  -- ConnectBlock: `maturity` is TicketMaturity of the network's parameters.
  unfoldable pub connect_block : Fetch → (ℤ → Option Block) → ℕ → Block → Method (Unit {0})
  unfolding maturing_tickets connect_with
  connect_block fetch block_at maturity block db =
      continue (maturing_tickets block_at (block.height -ℤ pos maturity) db)
        (connect_with fetch block)
