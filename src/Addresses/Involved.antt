-- ===== src/Addresses/Involved.antt =====
-- The outputs and the inputs of a transaction that are recorded for an address (v4/txhelpers/txhelpers.go).
use hc_data.Base.{
  and_then, ℕ, zero, suc, ◌+◌, ◌<◌, ◌≡◌, refl, sym, ap, ◌∙◌, true, false, List, [], ◌∷◌, ◌++◌,
  Option, none, some, ◌==◌, if◌then◌else◌, get_elem?, arith, Bool-cases, inl, inr,
}
use hc_data.Base.Tally.{tally, tally-append}
use hc_data.Addresses.{
  Address, OutPoint, TxOut, MsgTx, for_matches, paid_by, pays_from, tx_pays_to_address,
}

-- How often an address is among those of an output
abbrev pub times : Address → List Address → ℕ
times addr addrs = tally (λ (a : ℕ). a) addr addrs

abbrev pub times_in : Address → Option (List Address) → ℕ
times_in addr none = 0
times_in addr (some addrs) = times addr addrs

abbrev pub index_count : ℕ → List OutPoint → ℕ
index_count i outpoints = tally (λ (o : OutPoint). o.index) i outpoints

abbrev pub AllOf : MsgTx → ℕ → List OutPoint → Type 0
AllOf tx tree [] = Unit
AllOf tx tree (o ∷ rest) = (o.hash ≡ tx.hash) × (o.tree ≡ tree) × AllOf tx tree rest

AllOf-append :
    (tx : MsgTx) (tree : ℕ) (xs ys : List OutPoint)
    → AllOf tx tree xs
    → AllOf tx tree ys
    → AllOf tx tree (xs ++ ys)
AllOf-append tx tree [] ys h k = k
AllOf-append tx tree (x ∷ xs) ys (h, t, r) k = (h, t, AllOf-append tx tree xs ys r k)

-- One entry for each time that the address is there
for_matches-count :
    (addr : Address) (addrs : List Address) (o : OutPoint) (i : ℕ)
    → index_count i (for_matches addr addrs o) ≡ (if o.index == i then times addr addrs else 0)
unfolding for_matches
for_matches-count addr [] o i = ground arith
for_matches-count addr (a ∷ rest) o i = ground (arith, for_matches-count addr rest o i)

for_matches-AllOf :
    (tx : MsgTx) (tree : ℕ) (addr : Address) (addrs : List Address) (i : ℕ)
    → AllOf tx tree (for_matches addr addrs (record { hash = tx.hash; index = i; tree = tree }))
unfolding for_matches
for_matches-AllOf tx tree addr [] i = tt
for_matches-AllOf tx tree addr (a ∷ rest) i = elim (Bool-cases (addr == a)) [
  | inl same ↦ rw same (refl, refl, for_matches-AllOf tx tree addr rest i)
  | inr differs ↦ rw differs (for_matches-AllOf tx tree addr rest i)
]

module _ (addresses_of : TxOut → Option (List Address)) (tree_of : MsgTx → ℕ) (addr : Address) where
  paid_by-count :
      (addrs : Option (List Address)) (o : OutPoint) (i : ℕ)
      → index_count i (paid_by addresses_of tree_of addr addrs o)
        ≡ (if o.index == i then times_in addr addrs else 0)
  unfolding paid_by
  paid_by-count none o i = ground arith
  paid_by-count (some addrs) o i = for_matches-count addr addrs o i

  paid_by-AllOf :
      (tx : MsgTx) (addrs : Option (List Address)) (i : ℕ)
      → AllOf tx (tree_of tx) (
          paid_by addresses_of tree_of addr addrs
            (record { hash = tx.hash; index = i; tree = tree_of tx }))
  unfolding paid_by
  paid_by-AllOf tx none i = tt
  paid_by-AllOf tx (some addrs) i = for_matches-AllOf tx (tree_of tx) addr addrs i

  pays_from-before :
      (tx : MsgTx) (start : ℕ) (outs : List TxOut) (i : ℕ)
      → i < start
      → index_count i (pays_from addresses_of tree_of addr tx start outs) ≡ 0
  unfolding pays_from
  pays_from-before tx start [] i h = refl
  pays_from-before tx start (out ∷ rest) i h =
      let o : OutPoint = record { hash = tx.hash; index = start; tree = tree_of tx } in
      let first : List OutPoint = paid_by addresses_of tree_of addr (addresses_of out) o in
      ground (
        arith,
        tally-append (λ (p : OutPoint). p.index) i first
            (pays_from addresses_of tree_of addr tx (suc start) rest),
        paid_by-count (addresses_of out) o i,
        pays_from-before tx (suc start) rest i (omega arith),
      )

  pays_from-count :
      (tx : MsgTx) (start : ℕ) (outs : List TxOut) (i : ℕ)
      → index_count (start + i) (pays_from addresses_of tree_of addr tx start outs)
        ≡ times_in addr (and_then (get_elem? outs i) addresses_of)
  unfolding pays_from
  pays_from-count tx start [] i = refl
  pays_from-count tx start (out ∷ rest) zero =
      let o : OutPoint = record { hash = tx.hash; index = start; tree = tree_of tx } in
      let first : List OutPoint = paid_by addresses_of tree_of addr (addresses_of out) o in
      let later : List OutPoint = pays_from addresses_of tree_of addr tx (suc start) rest in
      let split = tally-append (λ (p : OutPoint). p.index) (start + 0) first later in
      let here = paid_by-count (addresses_of out) o (start + 0) in
      let same : (start == (start + 0)) ≡ true = ground arith in
      let none_later = pays_from-before tx (suc start) rest (start + 0) (omega arith) in
      ground (arith, split, here, same, none_later)
  pays_from-count tx start (out ∷ rest) (suc i) =
      let o : OutPoint = record { hash = tx.hash; index = start; tree = tree_of tx } in
      let first : List OutPoint = paid_by addresses_of tree_of addr (addresses_of out) o in
      let later : List OutPoint = pays_from addresses_of tree_of addr tx (suc start) rest in
      let split = tally-append (λ (p : OutPoint). p.index) (start + suc i) first later in
      let here = paid_by-count (addresses_of out) o (start + suc i) in
      let other : (start == (start + suc i)) ≡ false = ground arith in
      let next : suc start + i ≡ start + suc i = omega arith in
      let ih =
        ap (λ (k : ℕ). index_count k later) (sym next) ∙ pays_from-count tx (suc start) rest i in
      ground (arith, split, here, other, ih)

  pays_from-AllOf :
      (tx : MsgTx) (start : ℕ) (outs : List TxOut)
      → AllOf tx (tree_of tx) (pays_from addresses_of tree_of addr tx start outs)
  unfolding pays_from
  pays_from-AllOf tx start [] = tt
  pays_from-AllOf tx start (out ∷ rest) =
      AllOf-append tx (tree_of tx) _ (pays_from addresses_of tree_of addr tx (suc start) rest)
        (paid_by-AllOf tx (addresses_of out) start) (pays_from-AllOf tx (suc start) rest)

  -- TxPaysToAddress gives outpoints of the transaction and of its tree only, and one with an index for each
  -- time that the address is among those of the output at the index.
  pub tx_pays_to_address_correct :
      (tx : MsgTx)
      → AllOf tx (tree_of tx) (tx_pays_to_address addresses_of tree_of addr tx)
        × ((i : ℕ)
            → index_count i (tx_pays_to_address addresses_of tree_of addr tx)
              ≡ times_in addr (and_then (get_elem? tx.outputs i) addresses_of))
  unfolding tx_pays_to_address
  tx_pays_to_address_correct tx = (
    pays_from-AllOf tx 0 tx.outputs,
    λ i.
        let e : i ≡ 0 + i = omega arith in
        ap (λ (k : ℕ). index_count k (pays_from addresses_of tree_of addr tx 0 tx.outputs)) e
        ∙ pays_from-count tx 0 tx.outputs i,
  )
