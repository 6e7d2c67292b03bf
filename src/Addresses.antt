-- ===== src/Addresses.antt =====
-- Which transactions involve an address: TxPaysToAddress, TxConsumesOutpointWithAddress, TxInvolvesAddress and
-- AddressOutpoints of v4/txhelpers/txhelpers.go, and UnconfirmedTxnsForAddress of v4/rpcutils/rpcclient.go.
-- Addresses and hash strings stand as numbers. The addresses of a script, the tree of a transaction and the
-- node's answers are parameters; the map of the mempool comes as the list in which it is walked.
mod Tests
pub mod Involved
pub mod Spent
pub mod Scanned
pub mod Collected
use hc_data.Base.{
  is_empty, ℕ, zero, suc, ◌+◌, Bool, true, false, ◌&&◌, List, [], ◌∷◌, ◌++◌, map, Option, none,
  some, ◌==◌, if◌then◌else◌, get_elem?,
}
use hc_data.Base.Int.{ℤ, pos}
use hc_data.Base.HashSet.{Hash}
use hc_data.Base.HashMap.{insert}

abbrev pub Address : Type 0
Address = ℕ

pub record OutPoint : Type 0 where
  pub hash : Hash
  pub index : ℕ
  pub tree : ℕ

pub record TxOut : Type 0 where
  pub pk_script : ℕ

-- What is read of a wire.MsgTx, with its hash
pub record MsgTx : Type 0 where
  pub hash : Hash
  pub inputs : List OutPoint
  pub outputs : List TxOut

pub record PrevOut : Type 0 where
  pub tx_spending : Hash
  pub input_index : ℕ
  pub previous_outpoint : OutPoint

pub record TxWithBlockData : Type 0 where
  pub tx : MsgTx
  pub block_height : ℤ
  pub block_hash : Hash
  pub mem_pool_time : ℤ

pub record AddressOutpoints : Type 0 where
  pub address : Address
  pub outpoints : List OutPoint
  pub prev_outs : List PrevOut
  pub txns_store : List (Hash × TxWithBlockData)

-- NewAddressOutpoints
abbrev pub new_address_outpoints : Address → AddressOutpoints
new_address_outpoints addr = record {
  address = addr;
  outpoints = [];
  prev_outs = [];
  txns_store = [];
}

-- The loop that stores transactions by their hash
unfoldable pub store_txns :
    List TxWithBlockData → List (Hash × TxWithBlockData) → List (Hash × TxWithBlockData)
store_txns [] store = store
store_txns (t ∷ rest) store = store_txns rest (insert t.tx.hash t store)

-- Update
unfoldable pub update :
    List TxWithBlockData → List OutPoint → List PrevOut → AddressOutpoints → AddressOutpoints
unfolding store_txns
update txns outpoints prev_outs a = record a {
  outpoints = a.outpoints ++ outpoints;
  prev_outs = a.prev_outs ++ prev_outs;
  txns_store = store_txns txns a.txns_store;
}

-- What the node answers: GetRawTransactionVerbose with what MsgTxFromHex makes of it, and GetRawTransaction
pub record RawTx : Type 0 where
  pub decoded : Option MsgTx
  pub block_height : ℤ
  pub block_hash : Hash

pub record Client : Type 0 where
  pub verbose : Hash → Option RawTx
  pub raw_transaction : Hash → Option MsgTx

-- A transaction of the mempool: NewHashFromStr of its key, and its time
pub record MempoolTx : Type 0 where
  pub hash : Option Hash
  pub time : ℤ

-- An input that is recorded, with the transaction whose output it spends
abbrev pub Consumed : Type 0
Consumed = PrevOut × TxWithBlockData

-- What UnconfirmedTxnsForAddress returns
pub record Unconfirmed : Type 0 where
  pub address_outpoints : Option AddressOutpoints
  pub num_unconfirmed : ℕ
  pub failed : Bool

-- A body that runs once for each address that is the one of interest
unfoldable pub for_matches : {A : Type 0} → Address → List Address → A → List A
for_matches addr [] x = []
for_matches addr (a ∷ rest) x =
    if addr == a then x ∷ for_matches addr rest x else for_matches addr rest x

module _ (addresses_of : TxOut → Option (List Address)) (tree_of : MsgTx → ℕ) (addr : Address) where
  -- A script whose addresses cannot be extracted is passed over.
  unfoldable pub paid_by : {A : Type 0} → Option (List Address) → A → List A
  unfolding for_matches
  paid_by none x = []
  paid_by (some addrs) x = for_matches addr addrs x

  unfoldable pub pays_from : MsgTx → ℕ → List TxOut → List OutPoint
  unfolding paid_by
  pays_from tx i [] = []
  pays_from tx i (out ∷ rest) =
      paid_by (addresses_of out) (record { hash = tx.hash; index = i; tree = tree_of tx })
      ++ pays_from tx (suc i) rest

  -- TxPaysToAddress
  unfoldable pub tx_pays_to_address : MsgTx → List OutPoint
  unfolding pays_from
  tx_pays_to_address tx = pays_from tx 0 tx.outputs

  -- An input whose previous transaction is decoded; an index past its outputs panics (`none`).
  unfoldable pub consumes_output :
      Hash → ℕ → OutPoint → RawTx → MsgTx → Option TxOut → Option (List Consumed)
  unfolding paid_by
  consumes_output spending i prev raw tx none = none
  consumes_output spending i prev raw tx (some out) = some (
      paid_by (addresses_of out) (
        record {
          tx_spending = spending;
          input_index = i;
          previous_outpoint = record { hash = tx.hash; index = prev.index; tree = tree_of tx };
        },
        record {
          tx = tx;
          block_height = raw.block_height;
          block_hash = raw.block_hash;
          mem_pool_time = pos 0;
        },
      ))

  unfoldable pub consumes_decoded :
      Hash → ℕ → OutPoint → RawTx → Option MsgTx → Option (List Consumed)
  unfolding consumes_output
  consumes_decoded spending i prev raw none = some []
  consumes_decoded spending i prev raw (some tx) =
      consumes_output spending i prev raw tx (get_elem? tx.outputs prev.index)

  unfoldable pub consumes_raw : Hash → ℕ → OutPoint → Option RawTx → Option (List Consumed)
  unfolding consumes_decoded
  consumes_raw spending i prev none = some []
  consumes_raw spending i prev (some raw) = consumes_decoded spending i prev raw raw.decoded

  abbrev pub both : {A : Type 0} → Option (List A) → Option (List A) → Option (List A)
  both none ys = none
  both (some xs) none = none
  both (some xs) (some ys) = some (xs ++ ys)

  -- The inputs; that of a coinbase has the zero hash.
  unfoldable pub consumes_from : Client → Hash → ℕ → List OutPoint → Option (List Consumed)
  unfolding consumes_raw
  consumes_from client spending i [] = some []
  consumes_from client spending i (prev ∷ rest) =
      both
        (if prev.hash == 0
          then some []
          else consumes_raw spending i prev (client.verbose prev.hash))
        (consumes_from client spending (suc i) rest)

  -- TxConsumesOutpointWithAddress; its two slices grow together, and are a list of pairs.
  unfoldable pub tx_consumes_outpoint_with_address : Client → MsgTx → Option (List Consumed)
  unfolding consumes_from
  tx_consumes_outpoint_with_address client tx = consumes_from client tx.hash 0 tx.inputs

  -- What is recorded of a transaction of the mempool
  unfoldable pub record_tx :
      MempoolTx → MsgTx → List OutPoint → List Consumed → AddressOutpoints → AddressOutpoints
  unfolding update
  record_tx m tx outpoints consumed a =
      update
        (map (λ (c : Consumed). record c.1 { mem_pool_time = m.time }) consumed
          ++ record { tx = tx; block_height = pos 0; block_hash = 0; mem_pool_time = m.time } ∷ [])
        outpoints (map (λ (c : Consumed). c.0) consumed) a

  abbrev pub Scan : Type 0
  Scan = AddressOutpoints → ℕ → Bool → Option Unconfirmed

  unfoldable pub scan_involved :
      Scan → MempoolTx → MsgTx → List OutPoint → Option (List Consumed) → Scan
  unfolding record_tx
  scan_involved next m tx outpoints none a n failed = none
  scan_involved next m tx outpoints (some consumed) a n failed =
      if is_empty outpoints && is_empty consumed
      then next a n failed
      else next (record_tx m tx outpoints consumed a) (n + 1) failed

  -- TxInvolvesAddress of a transaction that the node gives
  unfoldable pub scan_raw : Scan → Client → MempoolTx → Option MsgTx → Scan
  unfolding scan_involved tx_pays_to_address tx_consumes_outpoint_with_address
  scan_raw next client m none a n failed = next a n true
  scan_raw next client m (some tx) a n failed =
      scan_involved next m tx (tx_pays_to_address tx) (tx_consumes_outpoint_with_address client tx)
        a n failed

  unfoldable pub scan_hash : Scan → Client → MempoolTx → Option Hash → Scan
  unfolding scan_raw
  scan_hash next client m none a n failed =
      some (record { address_outpoints = some a; num_unconfirmed = 0; failed = true })
  scan_hash next client m (some h) a n failed =
      scan_raw next client m (client.raw_transaction h) a n failed

  unfoldable pub scan : Client → List MempoolTx → Scan
  unfolding scan_hash
  scan client [] a n failed =
      some (record { address_outpoints = some a; num_unconfirmed = n; failed = failed })
  scan client (m ∷ rest) a n failed = scan_hash (scan client rest) client m m.hash a n failed

  -- UnconfirmedTxnsForAddress
  unfoldable pub unconfirmed_txns_for_address :
      Client → Option (List MempoolTx) → Option Unconfirmed
  unfolding scan
  unconfirmed_txns_for_address client none =
      some (record { address_outpoints = none; num_unconfirmed = 0; failed = true })
  unconfirmed_txns_for_address client (some mempool) =
      scan client mempool (new_address_outpoints addr) 0 false
