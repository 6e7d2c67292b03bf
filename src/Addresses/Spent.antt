-- ===== src/Addresses/Spent.antt =====
-- The outputs and the inputs of a transaction that are recorded for an address (v4/txhelpers/txhelpers.go), one
-- by one, where the node gives the transactions that the inputs spend.
use hc_data.Base.{
  and_then, ℕ, zero, suc, ◌+◌, ◌≡◌, ◌⊎◌, refl, ap, ap₂, ◌∙◌, Bool, true, false, List, [], ◌∷◌, ◌++◌,
  map, Option, none, some, ◌==◌, if◌then◌else◌, get_elem?, arith, Bool-cases, inl, inr,
}
use mathlib.Core.List.{map-append}
use hc_data.Base.Int.{pos}
use hc_data.Base.HashSet.{Hash}
use hc_data.Addresses.{
  Address, OutPoint, TxOut, MsgTx, PrevOut, RawTx, Client, Consumed, for_matches, paid_by,
  pays_from, tx_pays_to_address, consumes_output, consumes_decoded, consumes_raw, consumes_from,
  tx_consumes_outpoint_with_address,
}
use hc_data.Addresses.Involved.{times, times_in}

abbrev pub copies : {A : Type 0} → ℕ → A → List A
copies zero x = []
copies (suc n) x = x ∷ copies n x

==_comm : (m n : ℕ) → (m == n) ≡ (n == m)
==_comm m n = ground arith

cons_if :
    {A : Type 0} (n : ℕ) (xs : List A) (b : Bool) (x : A)
    → xs ≡ copies n x
    → (if b then x ∷ xs else xs) ≡ copies (if b then n + 1 else n) x
cons_if n xs true x e =
    let more : suc n ≡ n + 1 = omega arith in ap (λ ys. x ∷ ys) e ∙ ap (λ k. copies k x) more
cons_if n xs false x e = e

for_matches-copies :
    {A : Type 0} (addr : Address) (addrs : List Address) (x : A)
    → for_matches addr addrs x ≡ copies (times addr addrs) x
unfolding for_matches
for_matches-copies addr [] x = refl
for_matches-copies addr (a ∷ rest) x =
    ap (λ b. if b then x ∷ for_matches addr rest x else for_matches addr rest x) (==_comm addr a)
    ∙ cons_if (times addr rest) (for_matches addr rest x) (a == addr) x
        (for_matches-copies addr rest x)

-- An input of a coinbase, or one whose transaction the node gives, with the output that it spends
abbrev pub IsGiven : Client → OutPoint → Type 0
IsGiven client prev =
    (prev.hash ≡ 0)
    ⊎ ((raw : RawTx) × (t : MsgTx) × (out : TxOut) × (client.verbose prev.hash ≡ some raw)
        × (raw.decoded ≡ some t)
        × (get_elem? t.outputs prev.index ≡ some out))

abbrev pub AllGiven : Client → List OutPoint → Type 0
AllGiven client [] = Unit
AllGiven client (prev ∷ rest) = IsGiven client prev × AllGiven client rest

-- The transaction whose output an input spends; an input of a coinbase spends none.
abbrev pub previous_tx : Client → OutPoint → Option MsgTx
previous_tx client prev =
    if prev.hash == 0 then none else and_then (client.verbose prev.hash) (λ raw. raw.decoded)

module _ (addresses_of : TxOut → Option (List Address)) (tree_of : MsgTx → ℕ) (addr : Address) where
  -- The outputs one by one, each as often as the address is among its own
  abbrev pub paid_from : MsgTx → ℕ → List TxOut → List OutPoint
  paid_from tx i [] = []
  paid_from tx i (out ∷ rest) =
      copies (times_in addr (addresses_of out))
        (record { hash = tx.hash; index = i; tree = tree_of tx })
      ++ paid_from tx (suc i) rest

  abbrev pub spent_output : Hash → ℕ → OutPoint → Option MsgTx → List PrevOut
  spent_output spending i prev none = []
  spent_output spending i prev (some t) =
      copies (times_in addr (and_then (get_elem? t.outputs prev.index) addresses_of)) (record {
        tx_spending = spending;
        input_index = i;
        previous_outpoint = record { hash = t.hash; index = prev.index; tree = tree_of t };
      })

  -- The inputs one by one, each as often as the address is among those of the output that it spends
  abbrev pub spent_from : Client → Hash → ℕ → List OutPoint → List PrevOut
  spent_from client spending i [] = []
  spent_from client spending i (prev ∷ rest) =
      spent_output spending i prev (previous_tx client prev)
      ++ spent_from client spending (suc i) rest

  paid_by-copies :
      {A : Type 0} (addrs : Option (List Address)) (x : A)
      → paid_by addresses_of tree_of addr addrs x ≡ copies (times_in addr addrs) x
  unfolding paid_by
  paid_by-copies none x = refl
  paid_by-copies (some addrs) x = for_matches-copies addr addrs x

  pays_from-paid :
      (tx : MsgTx) (i : ℕ) (outs : List TxOut)
      → pays_from addresses_of tree_of addr tx i outs ≡ paid_from tx i outs
  unfolding pays_from
  pays_from-paid tx i [] = refl
  pays_from-paid tx i (out ∷ rest) =
      ap₂ (λ xs ys. xs ++ ys) (paid_by-copies (addresses_of out) _) (pays_from-paid tx (suc i) rest)

  -- TxPaysToAddress gives the outputs one by one, each as often as it has the address.
  pub tx_pays_to_address-paid :
      (tx : MsgTx) → tx_pays_to_address addresses_of tree_of addr tx ≡ paid_from tx 0 tx.outputs
  unfolding tx_pays_to_address
  tx_pays_to_address-paid tx = pays_from-paid tx 0 tx.outputs

  map-copies : {A B : Type 0} (f : A → B) (n : ℕ) (x : A) → map f (copies n x) ≡ copies n (f x)
  map-copies f zero x = refl
  map-copies f (suc n) x = ap (λ xs. f x ∷ xs) (map-copies f n x)

  consumes_from-spent :
      (client : Client) (spending : Hash) (i : ℕ) (inputs : List OutPoint)
      → AllGiven client inputs
      → (cs : List Consumed) × (consumes_from addresses_of tree_of addr client spending i inputs
          ≡ some cs)
        × (map (λ (c : Consumed). c.0) cs ≡ spent_from client spending i inputs)
  unfolding consumes_from consumes_raw consumes_decoded consumes_output
  consumes_from-spent client spending i [] given = ([], refl, refl)
  consumes_from-spent client spending i (prev ∷ rest) (given, later) =
      let (cs, run, same) = consumes_from-spent client spending (suc i) rest later in
      elim (Bool-cases (prev.hash == 0)) [
        | inl coinbase ↦ (cs, rw (coinbase, run) refl, rw coinbase same)
        | inr other ↦ elim given [
          | inl zero_hash ↦ absurd (ground (arith, other, zero_hash))
          | inr (raw, t, out, found, decoded, there) ↦
              let entry : Consumed = (
                record {
                  tx_spending = spending;
                  input_index = i;
                  previous_outpoint = record {
                    hash = t.hash;
                    index = prev.index;
                    tree = tree_of t;
                  };
                },
                record {
                  tx = t;
                  block_height = raw.block_height;
                  block_hash = raw.block_hash;
                  mem_pool_time = pos 0;
                },
              ) in
              let here = paid_by addresses_of tree_of addr (addresses_of out) entry in
              let copied =
                ap (λ xs. map (λ (c : Consumed). c.0) xs) (paid_by-copies (addresses_of out) entry)
                ∙ map-copies (λ (c : Consumed). c.0) (times_in addr (addresses_of out)) entry in
              (
                here ++ cs,
                rw (other, found, decoded, there, run) refl,
                rw (other, found, decoded, there)
                    (map-append (λ (c : Consumed). c.0) here cs
                      ∙ ap₂ (λ xs ys. xs ++ ys) copied same),
              )
        ]
      ]

  -- TxConsumesOutpointWithAddress, where every input is given, gives the inputs one by one, each as often as
  -- the output that it spends has the address.
  pub tx_consumes_outpoint_with_address-spent :
      (client : Client) (tx : MsgTx)
      → AllGiven client tx.inputs
      → (cs : List Consumed) × (tx_consumes_outpoint_with_address addresses_of tree_of addr client
            tx
          ≡ some cs)
        × (map (λ (c : Consumed). c.0) cs ≡ spent_from client tx.hash 0 tx.inputs)
  unfolding tx_consumes_outpoint_with_address
  tx_consumes_outpoint_with_address-spent client tx given =
      consumes_from-spent client tx.hash 0 tx.inputs given
