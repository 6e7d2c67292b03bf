-- ===== src/StakeDb/LiveTickets/Populate.antt =====
-- The cache and the sum that PopulateLiveTicketCache builds (v4/stakedb/stakedb.go).
use hc_data.Base.{
  ◌≡◌, refl, sym, ap, ◌∙◌, Bool, true, false, ◌||◌, Bool-cases, Option-cases, inl, inr, List, [],
  ◌∷◌, Option, none, some, arith, ◌==◌, ==_iff, ==_refl, if◌then◌else◌,
}
use hc_data.Base.Int.{ℤ, pos, ◌+ℤ◌}
use hc_data.Base.Exec.{ok}
use hc_data.Base.HashSet.{Hash, contains, contains-cons, contains-nil_lem, IsDistinct}
use hc_data.Base.HashMap.{lookup, insert, lookup-insert}
use hc_data.StakeDb.LiveTickets.{LiveTickets, Fetch, receive, receive_all, populate}
use hc_data.StakeDb.LiveTickets.Summed.{IsSummed, insert-IsSummed}
use hc_data.StakeDb.LiveTickets.Undo.{or_else, or_else-none, price}

or-true : (b : Bool) → (b || true) ≡ true
or-true b = ground arith

still_new :
    (t k : Hash) (v : ℤ) (rest : List Hash) (o : Option ℤ)
    → contains rest t ≡ false
    → contains rest k ≡ true
    → o ≡ none
    → (if t == k then some v else o) ≡ none
still_new t k v rest o u p n = elim (Bool-cases (t == k)) [
  | inl same ↦
      let e : t ≡ k = (==_iff t k).0 same in let q : contains rest k ≡ false = rw e at u in cc
  | inr other ↦ rw other n
]

module _ (fetch : Fetch) where
  -- Whether the node fails to give one of the tickets.
  abbrev pub any_missing : List Hash → Bool
  any_missing [] = false
  any_missing (t ∷ rest) = elim (fetch t) [ none ↦ true | some _ ↦ any_missing rest ]

  -- A ticket that the node does not give adds nothing.
  answer-missing :
      (t k : Hash) (rest : List Hash)
      → fetch t ≡ none
      → (if contains rest k then price (fetch k) else none)
        ≡ (if contains (t ∷ rest) k then price (fetch k) else none)
  answer-missing t k rest missing = rw contains-cons (elim (Bool-cases (t == k)) [
    | inl same ↦
        let e : t ≡ k = (==_iff t k).0 same in
        let none_there : fetch k ≡ none = rw e at missing in rw (same, none_there) (ground arith)
    | inr other ↦ rw other
  ])

  -- A ticket that the node gives adds its value.
  answer-given :
      (t k : Hash) (v : ℤ) (rest : List Hash) (m : List (Hash × ℤ))
      → price (fetch t) ≡ some v
      → lookup t m ≡ none
      → or_else (lookup k (insert t v m)) (if contains rest k then price (fetch k) else none)
        ≡ or_else (lookup k m) (if contains (t ∷ rest) k then price (fetch k) else none)
  answer-given t k v rest m given new =
      rw (contains-cons, lookup-insert t k v m)
        (elim (Bool-cases (t == k)) [
          | inl same ↦
              let e : t ≡ k = (==_iff t k).0 same in
              let value : price (fetch k) ≡ some v = rw e at given in
              let absent : lookup k m ≡ none = rw e at new in rw (same, absent, value)
          | inr other ↦ rw other
        ])

module _ (fetch : Fetch)
    (honest : (t : Hash) (tx_hash : Hash) (v : ℤ) → fetch t ≡ some (tx_hash, v) → tx_hash ≡ t) where
  receive_all_correct :
      (tickets : List Hash) (failed : Bool) (s : LiveTickets)
      → IsSummed s
      → IsDistinct tickets
      → ((k : Hash) → contains tickets k ≡ true → lookup k s.live_ticket_cache ≡ none)
      → (s' : LiveTickets) × (receive_all fetch tickets (failed, s)
          ≡ ok (failed || any_missing fetch tickets, s'))
        × IsSummed s'
        × ((k : Hash)
            → lookup k s'.live_ticket_cache
              ≡ or_else
                  (lookup k s.live_ticket_cache)
                  (if contains tickets k then price (fetch k) else none))
  unfolding receive_all
  receive_all_correct [] failed s h d new =
      (s, ground arith, h, λ k. rw contains-nil_lem (or_else-none (lookup k s.live_ticket_cache)))
  receive_all_correct (t ∷ rest) failed s h d new = elim (Option-cases (fetch t)) [
    | inl missing ↦
        let flag : (failed || any_missing fetch (t ∷ rest)) ≡ true = ground (arith, missing) in
        let (s', run, h', answers) =
          receive_all_correct rest true s h d.1
            (λ k p. new k (rw contains-cons (ground (arith, p)))) in
        (
          s',
          rw (missing, receive) (run ∙ ap (λ (b : Bool). ok (b, s')) (sym flag)),
          h',
          λ k.
              answers k
              ∙ ap (or_else (lookup k s.live_ticket_cache)) (answer-missing fetch t k rest missing),
        )
    | inr ((tx_hash, v), given) ↦
        let t_new : lookup t s.live_ticket_cache ≡ none = new t (rw (contains-cons, ==_refl t)) in
        let skipped : any_missing fetch (t ∷ rest) ≡ any_missing fetch rest =
          ground (arith, given) in
        let same_hash : tx_hash ≡ t = honest t tx_hash v given in
        let next : LiveTickets = record {
          live_ticket_cache = insert t v s.live_ticket_cache;
          pool_value = s.pool_value +ℤ v;
        } in
        let (s', run, h', answers) =
          receive_all_correct rest failed next
            (insert-IsSummed t v s.live_ticket_cache s.pool_value h.one_each h.total t_new) d.1
            (λ k p. rw (lookup-insert t k v s.live_ticket_cache) (
              still_new t k v rest (lookup k s.live_ticket_cache) d.0 p
                (new k (rw contains-cons (rw p (or-true (t == k))))))) in
        (
          s',
          rw (given, receive, same_hash, ==_refl t)
              (run ∙ ap (λ (b : Bool). ok (failed || b, s')) (sym skipped)),
          h',
          λ k. answers k ∙ answer-given fetch t k v rest s.live_ticket_cache (rw given) t_new,
        )
  ]

  -- From distinct live tickets, where the node answers with the transaction that was asked for,
  -- PopulateLiveTicketCache ends without a panic: the cache holds for exactly the live tickets what the
  -- node gives, the pool value is the sum of the cache, and an error is returned exactly when the node
  -- fails to give some ticket.
  pub populate_correct :
      (live_tickets : List Hash)
      → IsDistinct live_tickets
      → (s : LiveTickets) × (populate fetch live_tickets ≡ ok (any_missing fetch live_tickets, s))
        × IsSummed s
        × ((k : Hash)
            → lookup k s.live_ticket_cache
              ≡ (if contains live_tickets k then price (fetch k) else none))
  unfolding populate lookup
  populate_correct live_tickets d =
      receive_all_correct live_tickets false (record { live_ticket_cache = []; pool_value = pos 0 })
        (record { one_each = tt; total = refl }) d (λ k p. refl)
