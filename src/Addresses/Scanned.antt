-- ===== src/Addresses/Scanned.antt =====
-- What UnconfirmedTxnsForAddress (v4/rpcutils/rpcclient.go) collects from the mempool.
use hc_data.Base.{
  is_empty, ℕ, ◌+◌, ◌≡◌, refl, sym, ap, ◌∙◌, Bool, true, false, ◌&&◌, List, [], ◌∷◌, ◌++◌, map,
  Option, none, some, ◌==◌, ==_refl, if◌then◌else◌, arith, Bool-cases, inl, inr,
}
use mathlib.Core.List.{append_assoc, append-nil}
use hc_data.Base.Int.{ℤ, pos}
use hc_data.Base.HashSet.{Hash}
use hc_data.Base.HashMap.{lookup, insert, lookup-insert}
use hc_data.Addresses.{
  Address, OutPoint, TxOut, MsgTx, PrevOut, TxWithBlockData, AddressOutpoints, Client, MempoolTx,
  Consumed, new_address_outpoints, store_txns, update, tx_pays_to_address,
  tx_consumes_outpoint_with_address, record_tx, scan_involved, scan_raw, scan_hash, scan,
  unconfirmed_txns_for_address,
}

-- A transaction of the mempool, and its inputs that spend outputs to the address
pub record Known : Type 0 where
  pub tx : MsgTx
  pub consumed : List Consumed

module _ (addresses_of : TxOut → Option (List Address)) (tree_of : MsgTx → ℕ) (addr : Address) where
  abbrev pub pays : MsgTx → List OutPoint
  pays tx = tx_pays_to_address addresses_of tree_of addr tx

  -- The node gives the transaction, and every input can be looked at.
  abbrev pub IsKnown : Client → MempoolTx → Known → Type 0
  IsKnown client m k =
      (h : Hash) × (m.hash ≡ some h)
      × (client.raw_transaction h ≡ some k.tx)
      × (tx_consumes_outpoint_with_address addresses_of tree_of addr client k.tx ≡ some k.consumed)

  abbrev pub AllKnown : Client → List MempoolTx → List Known → Type 0
  AllKnown client [] [] = Unit
  AllKnown client [] (k ∷ ks) = ⊥
  AllKnown client (m ∷ ms) [] = ⊥
  AllKnown client (m ∷ ms) (k ∷ ks) = IsKnown client m k × AllKnown client ms ks

  -- All outpoints to the address, all inputs that spend such, and the number of transactions with either
  abbrev pub all_outpoints : List Known → List OutPoint
  all_outpoints [] = []
  all_outpoints (k ∷ ks) = pays k.tx ++ all_outpoints ks

  abbrev pub all_prev_outs : List Known → List PrevOut
  all_prev_outs [] = []
  all_prev_outs (k ∷ ks) = map (λ (c : Consumed). c.0) k.consumed ++ all_prev_outs ks

  abbrev pub num_involved : List Known → ℕ
  num_involved [] = 0
  num_involved (k ∷ ks) =
      if is_empty (pays k.tx) && is_empty k.consumed then num_involved ks else num_involved ks + 1

  none_of :
      {A B : Type 0} (xs : List A) (ys : List B)
      → (is_empty xs && is_empty ys) ≡ true
      → (xs ≡ []) × (ys ≡ [])
  none_of [] [] e = (refl, refl)
  none_of [] (y ∷ ys) e = absurd (cc e)
  none_of (x ∷ xs) ys e = absurd (cc e)

  -- The rest of the mempool, from what is collected so far
  pub scan-Known :
      (client : Client) (mempool : List MempoolTx) (known : List Known) (a : AddressOutpoints)
      (n : ℕ)
      → AllKnown client mempool known
      → (a' : AddressOutpoints) × (scan addresses_of tree_of addr client mempool a n false
          ≡ some (record {
            address_outpoints = some a';
            num_unconfirmed = n + num_involved known;
            failed = false;
          }))
        × (a'.outpoints ≡ a.outpoints ++ all_outpoints known)
        × (a'.prev_outs ≡ a.prev_outs ++ all_prev_outs known)
  unfolding scan scan_hash scan_raw scan_involved record_tx update
  scan-Known client [] [] a n all =
      let e : n ≡ n + 0 = omega arith in
      (
        a,
        ap
            (λ (k : ℕ).
              some (record { address_outpoints = some a; num_unconfirmed = k; failed = false }))
            e,
        sym (append-nil a.outpoints),
        sym (append-nil a.prev_outs),
      )
  scan-Known client [] (k ∷ ks) a n all = absurd all
  scan-Known client (m ∷ ms) [] a n all = absurd all
  scan-Known client (m ∷ ms) (k ∷ ks) a n ((h, valid, found, spends), rest) =
      elim (Bool-cases (is_empty (pays k.tx) && is_empty k.consumed)) [
        | inl nothing ↦
            let (no_outs, no_ins) = none_of (pays k.tx) k.consumed nothing in
            let (a', run, outs, ins) = scan-Known client ms ks a n rest in
            (
              a',
              rw (valid, found, spends, nothing) run,
              outs
                  ∙ ap (λ (o : List OutPoint). a.outpoints ++ (o ++ all_outpoints ks))
                      (sym no_outs),
              ins
                  ∙ ap
                      (λ (c : List Consumed).
                        a.prev_outs ++ (map (λ (x : Consumed). x.0) c ++ all_prev_outs ks))
                      (sym no_ins),
            )
        | inr involved ↦
            let next = record_tx addresses_of tree_of addr m k.tx (pays k.tx) k.consumed a in
            let (a', run, outs, ins) = scan-Known client ms ks next (n + 1) rest in
            let one_more : n + 1 + num_involved ks ≡ n + (num_involved ks + 1) = omega arith in
            (
              a',
              rw (valid, found, spends, involved)
                  (run
                    ∙ ap
                        (λ (c : ℕ). some (record {
                          address_outpoints = some a';
                          num_unconfirmed = c;
                          failed = false;
                        }))
                        one_more),
              outs ∙ append_assoc a.outpoints (pays k.tx) (all_outpoints ks),
              ins
                  ∙ append_assoc a.prev_outs (map (λ (c : Consumed). c.0) k.consumed)
                      (all_prev_outs ks),
            )
      ]

abbrev pub time_of : Option TxWithBlockData → Option ℤ
time_of none = none
time_of (some t) = some t.mem_pool_time

and-false : (b : Bool) → (b && false) ≡ false
and-false true = refl
and-false false = refl

module _ (addresses_of : TxOut → Option (List Address)) (tree_of : MsgTx → ℕ) (addr : Address)
    (tx : MsgTx) (outs : List OutPoint) (m : MempoolTx) (a : AddressOutpoints) where
  own_time :
      (consumed : List Consumed)
      → consumed ≡ []
      → time_of
          (lookup tx.hash (record_tx addresses_of tree_of addr m tx outs consumed a).txns_store)
        ≡ some m.time
  unfolding record_tx update store_txns
  own_time [] e =
      let own : TxWithBlockData = record {
        tx = tx;
        block_height = pos 0;
        block_hash = 0;
        mem_pool_time = m.time;
      } in
      ap time_of (lookup-insert tx.hash tx.hash own a.txns_store) ∙ rw (==_refl tx.hash) refl
  own_time (c ∷ cs) e = absurd (cc e)

  spent_time :
      (consumed : List Consumed) (p : PrevOut) (t : TxWithBlockData) (h : Hash)
      → consumed ≡ (p, t) ∷ []
      → t.tx.hash ≡ h
      → (tx.hash == h) ≡ false
      → time_of (lookup h (record_tx addresses_of tree_of addr m tx outs consumed a).txns_store)
        ≡ some m.time
  unfolding record_tx update store_txns
  spent_time consumed p t h e same other =
      let own : TxWithBlockData = record {
        tx = tx;
        block_height = pos 0;
        block_hash = 0;
        mem_pool_time = m.time;
      } in
      let timed : TxWithBlockData = record t { mem_pool_time = m.time } in
      let store = insert t.tx.hash timed a.txns_store in
      let there : (t.tx.hash == h) ≡ true = ap (λ (k : ℕ). k == h) same ∙ ==_refl h in
      rw e (
        ap time_of (lookup-insert tx.hash h own store)
        ∙ rw other (ap time_of (lookup-insert t.tx.hash h timed a.txns_store) ∙ rw there refl))

module _ (addresses_of : TxOut → Option (List Address)) (tree_of : MsgTx → ℕ) (addr : Address)
    (client : Client) where
  -- The mempool time that is stored for a transaction
  abbrev pub StoresTime : Hash → List MempoolTx → ℤ → Type 0
  StoresTime h mempool time =
      (a : AddressOutpoints) × (n : ℕ) × (unconfirmed_txns_for_address addresses_of tree_of addr
          client (some mempool)
        ≡ some (record { address_outpoints = some a; num_unconfirmed = n; failed = false }))
      × (time_of (lookup h a.txns_store) ≡ some time)

  -- Where the mempool has two transactions that the node gives, of which one spends an output to the
  -- address of the other and no further such output, and the other pays to the address and spends no such
  -- output itself: the mempool time that is stored for the other one is its own if the map of the mempool
  -- gives it last, and that of the transaction that spends it if it comes first.
  pub parent_time_by_order :
      (m m' : MempoolTx) (parent child : Known) (p : PrevOut) (t : TxWithBlockData)
      → IsKnown addresses_of tree_of addr client m parent
      → IsKnown addresses_of tree_of addr client m' child
      → is_empty (pays addresses_of tree_of addr parent.tx) ≡ false
      → parent.consumed ≡ []
      → child.consumed ≡ (p, t) ∷ []
      → t.tx.hash ≡ parent.tx.hash
      → (child.tx.hash == parent.tx.hash) ≡ false
      → StoresTime parent.tx.hash (m ∷ m' ∷ []) m'.time
        × StoresTime parent.tx.hash (m' ∷ m ∷ []) m.time
  unfolding unconfirmed_txns_for_address scan scan_hash scan_raw scan_involved
  parent_time_by_order m m' parent child p t (h, valid, found, spends) (h', valid', found', spends')
        paid none_spent spent same other =
      let involved : (is_empty (pays addresses_of tree_of addr parent.tx)
            && is_empty parent.consumed)
          ≡ false =
        ground (arith, paid) in
      let spender : (is_empty (pays addresses_of tree_of addr child.tx) && is_empty child.consumed)
          ≡ false =
        rw spent (and-false (is_empty (pays addresses_of tree_of addr child.tx))) in
      let with_parent : AddressOutpoints → AddressOutpoints =
        record_tx addresses_of tree_of addr m parent.tx (pays addresses_of tree_of addr parent.tx)
          parent.consumed in
      let with_child : AddressOutpoints → AddressOutpoints =
        record_tx addresses_of tree_of addr m' child.tx (pays addresses_of tree_of addr child.tx)
          child.consumed in
      let start : AddressOutpoints = new_address_outpoints addr in
      (
        (
          with_child (with_parent start),
          0 + 1 + 1,
          rw (valid, found, spends, involved, valid', found', spends', spender) refl,
          spent_time addresses_of tree_of addr child.tx (pays addresses_of tree_of addr child.tx) m'
              (with_parent start) child.consumed p t parent.tx.hash spent same other,
        ),
        (
          with_parent (with_child start),
          0 + 1 + 1,
          rw (valid', found', spends', spender, valid, found, spends, involved) refl,
          own_time addresses_of tree_of addr parent.tx (pays addresses_of tree_of addr parent.tx) m
              (with_child start) parent.consumed none_spent,
        ),
      )
