-- ===== src/Addresses/Collected.antt =====
-- What UnconfirmedTxnsForAddress (v4/rpcutils/rpcclient.go) collects from a mempool that the node can give.
use hc_data.Base.{
  is_empty, ℕ, ◌+◌, ◌≡◌, refl, sym, ap, ap₂, ◌∙◌, false, ◌&&◌, List, [], ◌∷◌, ◌++◌, map, Option,
  some, if◌then◌else◌, arith,
}
use hc_data.Base.HashSet.{Hash}
use hc_data.Addresses.{
  Address, OutPoint, TxOut, MsgTx, PrevOut, AddressOutpoints, Client, MempoolTx, Consumed,
  new_address_outpoints, unconfirmed_txns_for_address,
}
use hc_data.Addresses.Spent.{
  AllGiven, paid_from, spent_from, tx_pays_to_address-paid, tx_consumes_outpoint_with_address-spent,
}
use hc_data.Addresses.Scanned.{
  Known, AllKnown, all_outpoints, all_prev_outs, num_involved, scan-Known,
}

-- The node gives a transaction of the mempool, and all that its inputs spend.
abbrev pub IsAnswered : Client → MempoolTx → MsgTx → Type 0
IsAnswered client m tx =
    (h : Hash) × (m.hash ≡ some h)
    × (client.raw_transaction h ≡ some tx)
    × AllGiven client tx.inputs

abbrev pub AllAnswered : Client → List MempoolTx → List MsgTx → Type 0
AllAnswered client [] [] = Unit
AllAnswered client [] (tx ∷ txs) = ⊥
AllAnswered client (m ∷ ms) [] = ⊥
AllAnswered client (m ∷ ms) (tx ∷ txs) = IsAnswered client m tx × AllAnswered client ms txs

module _ (addresses_of : TxOut → Option (List Address)) (tree_of : MsgTx → ℕ) (addr : Address) where
  abbrev pub paid : MsgTx → List OutPoint
  paid tx = paid_from addresses_of tree_of addr tx 0 tx.outputs

  abbrev pub spent : Client → MsgTx → List PrevOut
  spent client tx = spent_from addresses_of tree_of addr client tx.hash 0 tx.inputs

  abbrev pub all_paid : List MsgTx → List OutPoint
  all_paid [] = []
  all_paid (tx ∷ txs) = paid tx ++ all_paid txs

  abbrev pub all_spent : Client → List MsgTx → List PrevOut
  all_spent client [] = []
  all_spent client (tx ∷ txs) = spent client tx ++ all_spent client txs

  -- The transactions that pay to the address or spend an output to it
  abbrev pub num_with_either : Client → List MsgTx → ℕ
  num_with_either client [] = 0
  num_with_either client (tx ∷ txs) =
      if is_empty (paid tx) && is_empty (spent client tx)
      then num_with_either client txs
      else num_with_either client txs + 1

  is_empty-map : (cs : List Consumed) → is_empty (map (λ (c : Consumed). c.0) cs) ≡ is_empty cs
  is_empty-map [] = refl
  is_empty-map (c ∷ cs) = refl

  -- What the scan records of such a mempool
  answered-Known :
      (client : Client) (mempool : List MempoolTx) (txs : List MsgTx)
      → AllAnswered client mempool txs
      → (known : List Known) × AllKnown addresses_of tree_of addr client mempool known
        × (all_outpoints addresses_of tree_of addr known ≡ all_paid txs)
        × (all_prev_outs addresses_of tree_of addr known ≡ all_spent client txs)
        × (num_involved addresses_of tree_of addr known ≡ num_with_either client txs)
  answered-Known client [] [] all = ([], tt, refl, refl, refl)
  answered-Known client [] (tx ∷ txs) all = absurd all
  answered-Known client (m ∷ ms) [] all = absurd all
  answered-Known client (m ∷ ms) (tx ∷ txs) ((h, valid, found, given), rest) =
      let (known, are_known, outs, ins, count) = answered-Known client ms txs rest in
      let (cs, run, same) =
        tx_consumes_outpoint_with_address-spent addresses_of tree_of addr client tx given in
      let pays_same = tx_pays_to_address-paid addresses_of tree_of addr tx in
      let nothing : is_empty cs ≡ is_empty (spent client tx) =
        sym (is_empty-map cs) ∙ ap is_empty same in
      (
        record { tx = tx; consumed = cs } ∷ known,
        ((h, valid, found, run), are_known),
        ap₂ (λ xs ys. xs ++ ys) pays_same outs,
        ap₂ (λ xs ys. xs ++ ys) same ins,
        rw (pays_same, nothing, count) refl,
      )

  -- UnconfirmedTxnsForAddress, where the node gives every transaction of its mempool, and for every input but
  -- a coinbase's the transaction whose output it spends: it ends without an error. Its outpoints are the
  -- outputs of these transactions one by one, each as often as the address is among its own; its previous
  -- outputs are the inputs one by one, each as often as the address is among those of the output that it
  -- spends; and it counts the transactions that have either.
  pub unconfirmed_txns_for_address_correct :
      (client : Client) (mempool : List MempoolTx) (txs : List MsgTx)
      → AllAnswered client mempool txs
      → (a : AddressOutpoints) × (unconfirmed_txns_for_address addresses_of tree_of addr client
            (some mempool)
          ≡ some (record {
            address_outpoints = some a;
            num_unconfirmed = num_with_either client txs;
            failed = false;
          }))
        × (a.outpoints ≡ all_paid txs)
        × (a.prev_outs ≡ all_spent client txs)
  unfolding unconfirmed_txns_for_address
  unconfirmed_txns_for_address_correct client mempool txs all =
      let (known, are_known, same_outs, same_ins, same_count) =
        answered-Known client mempool txs all in
      let (a, run, outs, ins) =
        scan-Known addresses_of tree_of addr client mempool known (new_address_outpoints addr) 0
          are_known in
      let from_zero : 0 + num_involved addresses_of tree_of addr known
          ≡ num_with_either client txs =
        omega (arith, same_count) in
      (
        a,
        run
            ∙ ap
                (λ (c : ℕ).
                  some (record { address_outpoints = some a; num_unconfirmed = c; failed = false }))
                from_zero,
        outs ∙ same_outs,
        ins ∙ same_ins,
      )
