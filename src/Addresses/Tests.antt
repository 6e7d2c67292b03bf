-- ===== src/Addresses/Tests.antt =====
-- A mempool of two transactions, of which the second spends the output of the first to the address 9
-- (v4/rpcutils/rpcclient.go).
use hc_data.Base.{
  inr, is_empty, and_then, ℕ, ap, get_elem?, ◌≡◌, refl, false, List, [], ◌∷◌, Option, none, some,
  ◌==◌, if◌then◌else◌,
}
use hc_data.Base.Int.{pos}
use hc_data.Addresses.{
  Address, OutPoint, TxOut, MsgTx, PrevOut, TxWithBlockData, AddressOutpoints, Client, RawTx,
  MempoolTx, tx_pays_to_address, tx_consumes_outpoint_with_address, unconfirmed_txns_for_address,
}
use hc_data.Addresses.Involved.{AllOf, index_count, times_in, tx_pays_to_address_correct}
use hc_data.Addresses.Collected.{AllAnswered, unconfirmed_txns_for_address_correct}
use hc_data.Addresses.Scanned.{Known, IsKnown, StoresTime, parent_time_by_order}

abbrev addresses_of : TxOut → Option (List Address)
addresses_of out = if out.pk_script == 0 then none else some (out.pk_script ∷ [])

abbrev regular_tree : MsgTx → ℕ
regular_tree tx = 0

abbrev parent_tx : MsgTx
parent_tx = record {
  hash = 50;
  inputs = [];
  outputs = record { pk_script = 0 } ∷ record { pk_script = 9 } ∷ [];
}

abbrev output_one : OutPoint
output_one = record { hash = 50; index = 1; tree = 0 }

abbrev child_tx : MsgTx
child_tx = record { hash = 51; inputs = output_one ∷ []; outputs = record { pk_script = 4 } ∷ [] }

-- The first input spends an output without an address, the second one that to the address 9.
abbrev two_inputs_tx : MsgTx
two_inputs_tx = record {
  hash = 52;
  inputs = record { hash = 50; index = 0; tree = 0 } ∷ output_one ∷ [];
  outputs = record { pk_script = 9 } ∷ [];
}

abbrev client : Client
client = record {
  verbose = λ h.
      if h == 50
      then some (record { decoded = some parent_tx; block_height = pos 0; block_hash = 0 })
      else none;
  raw_transaction = λ h.
      if h == 50 then some parent_tx else if h == 52 then some two_inputs_tx else some child_tx;
}

abbrev parent : Known
parent = record { tx = parent_tx; consumed = [] }

abbrev spent_output : PrevOut
spent_output = record { tx_spending = 51; input_index = 0; previous_outpoint = output_one }

abbrev spent_tx : TxWithBlockData
spent_tx = record { tx = parent_tx; block_height = pos 0; block_hash = 0; mem_pool_time = pos 0 }

abbrev child : Known
child = record { tx = child_tx; consumed = (spent_output, spent_tx) ∷ [] }

abbrev parent_entry : MempoolTx
parent_entry = record { hash = some 50; time = pos 100 }

abbrev child_entry : MempoolTx
child_entry = record { hash = some 51; time = pos 200 }

parent-IsKnown : IsKnown addresses_of regular_tree 9 client parent_entry parent
unfolding tx_consumes_outpoint_with_address
parent-IsKnown = (50, refl, refl, refl)

child-IsKnown : IsKnown addresses_of regular_tree 9 client child_entry child
unfolding tx_consumes_outpoint_with_address
child-IsKnown = (51, refl, refl, refl)

parent_pays : tx_pays_to_address addresses_of regular_tree 9 parent_tx ≡ output_one ∷ []
unfolding tx_pays_to_address
parent_pays = refl

child_pays : tx_pays_to_address addresses_of regular_tree 9 child_tx ≡ []
unfolding tx_pays_to_address
child_pays = refl

tx_pays_to_address_correct_example :
    AllOf parent_tx 0 (tx_pays_to_address addresses_of regular_tree 9 parent_tx)
    × ((i : ℕ)
        → index_count i (tx_pays_to_address addresses_of regular_tree 9 parent_tx)
          ≡ times_in 9 (and_then (get_elem? parent_tx.outputs i) addresses_of))
tx_pays_to_address_correct_example =
    tx_pays_to_address_correct addresses_of regular_tree 9 parent_tx

abbrev two_inputs_entry : MempoolTx
two_inputs_entry = record { hash = some 52; time = pos 300 }

two_transactions-AllAnswered :
    AllAnswered client (parent_entry ∷ two_inputs_entry ∷ []) (parent_tx ∷ two_inputs_tx ∷ [])
two_transactions-AllAnswered =
    let raw : RawTx = record { decoded = some parent_tx; block_height = pos 0; block_hash = 0 } in
    (
      (50, refl, refl, tt),
      (
        (
          52,
          refl,
          refl,
          (
            inr (raw, parent_tx, record { pk_script = 0 }, refl, refl, refl),
            (inr (raw, parent_tx, record { pk_script = 9 }, refl, refl, refl), tt),
          ),
        ),
        tt,
      ),
    )

unconfirmed_txns_for_address_correct_example :
    (a : AddressOutpoints) × (unconfirmed_txns_for_address addresses_of regular_tree 9 client
        (some (parent_entry ∷ two_inputs_entry ∷ []))
      ≡ some (record { address_outpoints = some a; num_unconfirmed = 2; failed = false }))
    × (a.outpoints ≡ output_one ∷ record { hash = 52; index = 0; tree = 0 } ∷ [])
    × (a.prev_outs
        ≡ record { tx_spending = 52; input_index = 1; previous_outpoint = output_one } ∷ [])
unconfirmed_txns_for_address_correct_example =
    unconfirmed_txns_for_address_correct addresses_of regular_tree 9 client
      (parent_entry ∷ two_inputs_entry ∷ []) (parent_tx ∷ two_inputs_tx ∷ [])
      two_transactions-AllAnswered

parent_time_by_order_example :
    StoresTime addresses_of regular_tree 9 client 50 (parent_entry ∷ child_entry ∷ []) (pos 200)
    × StoresTime addresses_of regular_tree 9 client 50 (child_entry ∷ parent_entry ∷ []) (pos 100)
parent_time_by_order_example =
    parent_time_by_order addresses_of regular_tree 9 client parent_entry child_entry parent child
      spent_output spent_tx parent-IsKnown child-IsKnown (ap is_empty parent_pays) refl refl refl
      refl
