-- ===== src/StakeDb/Reorg.antt =====
-- Reorganizations of the stake database: DisconnectBlocks, Rewind and ConnectBlockHash of
-- v4/stakedb/stakedb.go, and the ChainMonitor of v4/stakedb/chainmonitor.go that calls them. A round of the
-- monitor holds its lock, so it is one step. The header that the node returns for a hash has that hash.
mod Tests
pub mod Back
pub mod Forth
pub mod Switch
use hc_data.Base.{
  is_empty, ℕ, zero, suc, ◌+◌, ◌-◌, Bool, true, false, List, [], ◌∷◌, Option, none, some, not, ◌||◌,
  length, if◌then◌else◌,
}
use hc_data.Base.Int.{ℤ, pos, pos_part, ◌-ℤ◌, ltb_ℤ, beq_ℤ}
use hc_data.Base.Exec.{Outcome, ok, err, panic, out_of_fuel, Exec, pure, raise, continue}
use hc_data.Base.HashSet.{Hash}
use hc_data.StakeDb.DiffDb.{DiffDb}
use hc_data.StakeDb.PoolInfoCache.{Lane}
use hc_data.StakeDb.LiveTickets.{Fetch}
use hc_data.StakeDb.Connect.{
  Block, StakeNode, StakeError, no_block, heights_differ, Db, Method, connect_block,
}
use hc_data.StakeDb.Disconnect.{Client, disconnect_block}

-- ReorgData, with what the stake database reads of it; the new chain does not have the common ancestor.
pub record ReorgData : Type 0 where
  pub old_chain_height : ℤ
  pub new_chain_height : ℤ
  pub new_chain : List Hash

-- What switchToSideChain returns: a height, a hash or nil, and whether there is an error too
pub record Switched : Type 0 where
  pub height : ℤ
  pub hash : Option Hash
  pub failed : Bool

abbrev pub is_found : {A : Type 0} → Option A → Bool
is_found none = false
is_found (some a) = true

abbrev pub tip_height : Option Block → ℤ
tip_height none = pos 0
tip_height (some b) = b.height

abbrev pub tip_hash : Option Block → Option Hash
tip_hash none = none
tip_hash (some b) = some b.hash

-- The hash of the header that DBTipBlockHeader gets; without a header, a nil one is read.
abbrev pub header_hash : Client → Option Hash → Option Hash
header_hash client none = none
header_hash client (some h) = if is_found (client.prev_block h) then some h else none

-- What switchToSideChain returns with an error and without a block
abbrev pub no_switch : Switched
no_switch = record { height = pos 0; hash = none; failed = true }

module _ (D : DiffDb) (L : Lane) (N : StakeNode) where
  open N use {height, best_hash}

  -- The loop of DisconnectBlocks, of which n rounds are left
  unfoldable pub disconnect_loop : Fetch → Client → ℕ → Method D L N (Unit {0})
  unfolding disconnect_block
  disconnect_loop fetch client zero db = pure tt db
  disconnect_loop fetch client (suc n) db =
      continue (disconnect_block D L N fetch client false db) (λ _. disconnect_loop fetch client n)

  -- DisconnectBlocks
  unfoldable pub disconnect_blocks : Fetch → Client → ℤ → Method D L N (Unit {0})
  unfolding disconnect_loop
  disconnect_blocks fetch client count = disconnect_loop fetch client (pos_part count)

  -- Rewind: the loop goes on while the stake node is above `to`; after each round the heights are compared.
  unfoldable pub rewind_loop : Fetch → Client → ℕ → ℤ → Bool → Method D L N (Unit {0})
  unfolding disconnect_block
  rewind_loop fetch client zero to neglect_cache db = (out_of_fuel, db)
  rewind_loop fetch client (suc fuel) to neglect_cache db =
      let round = continue (disconnect_block D L N fetch client neglect_cache db) (λ _ db'.
        (let rest = rewind_loop fetch client fuel to neglect_cache db' in
          if beq_ℤ (pos db'.pool_db.tip) (pos (height db'.best_node))
          then rest
          else raise heights_differ db')) in
      if ltb_ℤ to (pos (height db.best_node)) then round else pure tt db

  unfoldable pub rewind : Fetch → Client → ℤ → Bool → Method D L N (Unit {0})
  unfolding rewind_loop
  rewind fetch client to neglect_cache db =
      rewind_loop fetch client (height db.best_node + 1) to neglect_cache db

  -- ConnectBlockHash
  unfoldable pub connect_found : Fetch → (ℤ → Option Block) → ℕ → Option Block → Method D L N Block
  unfolding connect_block
  connect_found fetch block_at maturity none db = raise no_block db
  connect_found fetch block_at maturity (some block) db =
      continue (connect_block D L N fetch block_at maturity block db) (λ _. pure block)

  unfoldable pub connect_block_hash :
      Fetch → (ℤ → Option Block) → ℕ → Client → Hash → Method D L N Block
  unfolding connect_found
  connect_block_hash fetch block_at maturity client hash =
      connect_found fetch block_at maturity (client.block_with hash)

  -- What is returned where a block of the side chain is not connected
  unfoldable pub fail_at : Option Hash → Method D L N Switched
  fail_at none db = (panic, db)
  fail_at (some h) db =
      pure (record { height = pos (height db.best_node); hash = some h; failed = true }) db

  -- After a block of the side chain
  unfoldable pub connected_or :
      Client
      → (Block → Method D L N Switched)
      → Outcome StakeError Block × Db D L N
      → Outcome StakeError Switched × Db D L N
  unfolding fail_at
  connected_or client next (ok block, db) = next block db
  connected_or client next (err e, db) = fail_at (header_hash client (best_hash db.stake_db)) db
  connected_or client next (panic, db) = (panic, db)
  connected_or client next (out_of_fuel, db) = (out_of_fuel, db)

  -- The loop that connects the side chain, after the block `tip`
  unfoldable pub connect_chain :
      Fetch → (ℤ → Option Block) → ℕ → Client → List Hash → Option Block → Method D L N Switched
  unfolding connect_block_hash connected_or
  connect_chain fetch block_at maturity client [] tip db =
      if beq_ℤ (pos (height db.best_node)) (tip_height tip)
      then pure (record { height = pos (height db.best_node); hash = tip_hash tip; failed = false })
          db
      else (panic, db)
  connect_chain fetch block_at maturity client (hash ∷ rest) tip db =
      connected_or client (λ block. connect_chain fetch block_at maturity client rest (some block))
        (connect_block_hash fetch block_at maturity client hash db)

  -- After the blocks are disconnected
  unfoldable pub disconnected_or :
      ℤ
      → Method D L N Switched
      → Outcome StakeError (Unit {0}) × Db D L N
      → Outcome StakeError Switched × Db D L N
  disconnected_or ancestor_height connect_all (ok u, db) =
      if beq_ℤ (pos (height db.best_node)) ancestor_height then connect_all db else (panic, db)
  disconnected_or ancestor_height connect_all (err e, db) = pure no_switch db
  disconnected_or ancestor_height connect_all (panic, db) = (panic, db)
  disconnected_or ancestor_height connect_all (out_of_fuel, db) = (out_of_fuel, db)

  -- switchToSideChain, of reorganization data that is not nil
  unfoldable pub switch_to_side_chain :
      Fetch → (ℤ → Option Block) → ℕ → Client → ReorgData → Method D L N Switched
  unfolding disconnect_blocks disconnected_or connect_chain
  switch_to_side_chain fetch block_at maturity client data_ db =
      let ancestor_height = data_.new_chain_height -ℤ pos (length data_.new_chain) in
      if is_empty data_.new_chain
      then pure no_switch db
      else disconnected_or ancestor_height
          (connect_chain fetch block_at maturity client data_.new_chain none)
          (disconnect_blocks fetch client (pos (height db.best_node) -ℤ ancestor_height) db)

  -- The end of a round of ReorgHandler, which reads the returned hash
  unfoldable pub read_hash : Switched → Method D L N (Unit {0})
  read_hash s db = if is_found s.hash then pure tt db else (panic, db)

  -- A round of ReorgHandler, for reorganization data that it receives
  unfoldable pub reorg_round :
      Fetch → (ℤ → Option Block) → ℕ → Client → ReorgData → Method D L N (Unit {0})
  unfolding switch_to_side_chain read_hash
  reorg_round fetch block_at maturity client data_ db =
      continue (switch_to_side_chain fetch block_at maturity client data_ db) read_hash
