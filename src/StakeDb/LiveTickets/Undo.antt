-- ===== src/StakeDb/LiveTickets/Undo.antt =====
-- undoDiff after applyDiff (v4/stakedb/stakedb.go): what the cache answers after each of them, and the pool
-- value.
use hc_data.Base.{
  ◌≡◌, ◌≢◌, refl, sym, ap, ◌∙◌, true, false, Bool-cases, Option-cases, inl, inr, List, [], ◌∷◌,
  Option, none, some, arith, ◌==◌, ==_iff, ==_refl, if◌then◌else◌,
}
use hc_data.Base.Int.{ℤ, ◌+ℤ◌}
use hc_data.Base.HashSet.{Hash, contains, contains-cons, contains-nil_lem}
use hc_data.Base.HashMap.{lookup, erase, IsMap, IsMap-erase, lookup-erase, lookup-insert}
use hc_data.StakeDb.DiffDb.{PoolDiff}
use hc_data.StakeDb.LiveTickets.{
  LiveTickets, Fetch, add_missing, add_tickets, remove_found, remove_tickets, apply_diff, undo_diff,
}
use hc_data.StakeDb.LiveTickets.Summed.{sum, IsSummed, sum-erase, apply_diff-IsSummed}

abbrev pub or_else : Option ℤ → Option ℤ → Option ℤ
or_else (some v) o = some v
or_else none o = o

-- The value that the node gives for a ticket.
abbrev pub price : Option (Hash × ℤ) → Option ℤ
price none = none
price (some (tx_hash, val)) = some val

pub or_else-none : (o : Option ℤ) → o ≡ or_else o none
or_else-none (some v) = refl
or_else-none none = refl

-- Two maps that answer alike have one sum.
empty_map : (m : List (Hash × ℤ)) → ((k : Hash) → lookup k m ≡ none) → m ≡ []
unfolding lookup
empty_map [] h = refl
empty_map ((j, v) ∷ m) h = let e = h j in ground (arith, ==_refl j)

sum-ext :
    (m n : List (Hash × ℤ))
    → IsMap m
    → IsMap n
    → ((k : Hash) → lookup k m ≡ lookup k n)
    → sum m ≡ sum n
unfolding lookup
sum-ext [] n d e h = rw (empty_map n (λ k. sym (h k)))
sum-ext ((j, v) ∷ m) n d e h =
    let found : lookup j n ≡ some v = sym (h j) ∙ rw (==_refl j) in
    let rest : (k : Hash) → lookup k m ≡ lookup k (erase j n) = λ k.
      rw (lookup-erase j k n) (elim (Bool-cases (j == k)) [
        | inl same ↦ let p : j ≡ k = (==_iff j k).0 same in rw same (rw p at d.0)
        | inr other ↦ rw other (let q = h k in rw other at q)
      ]) in
    ap (λ t. v +ℤ t) (sum-ext m (erase j n) d.1 (IsMap-erase j n e) rest)
    ∙ sym (sum-erase j v n e found)

lookup-remove_found :
    (hash k : Hash) (s : LiveTickets)
    → lookup k (remove_found hash (lookup hash s.live_ticket_cache) s).live_ticket_cache
      ≡ (if hash == k then none else lookup k s.live_ticket_cache)
unfolding remove_found
lookup-remove_found hash k s = elim (Option-cases (lookup hash s.live_ticket_cache)) [
  | inl absent ↦ rw absent (elim (Bool-cases (hash == k)) [
    | inl same ↦ let e : hash ≡ k = (==_iff hash k).0 same in rw same (rw e at absent)
    | inr other ↦ rw other
  ])
  | inr (v, found) ↦ rw found (lookup-erase hash k s.live_ticket_cache)
]

lookup-remove_tickets :
    (tickets : List Hash) (k : Hash) (s : LiveTickets)
    → lookup k (remove_tickets tickets s).live_ticket_cache
      ≡ (if contains tickets k then none else lookup k s.live_ticket_cache)
unfolding remove_tickets
lookup-remove_tickets [] k s = rw contains-nil_lem
lookup-remove_tickets (hash ∷ rest) k s =
    let next = remove_found hash (lookup hash s.live_ticket_cache) s in
    rw (contains-cons, lookup-remove_tickets rest k next, lookup-remove_found hash k s)
      (ground arith)

module _ (fetch : Fetch) where
  lookup-add_missing :
      (hash k : Hash) (s : LiveTickets)
      → lookup k (add_missing fetch hash (lookup hash s.live_ticket_cache) s).live_ticket_cache
        ≡ or_else (lookup k s.live_ticket_cache) (if hash == k then price (fetch k) else none)
  unfolding add_missing
  lookup-add_missing hash k s = elim (Option-cases (lookup hash s.live_ticket_cache)) [
    | inr (v, found) ↦ rw found (elim (Bool-cases (hash == k)) [
      | inl same ↦ let e : hash ≡ k = (==_iff hash k).0 same in ground (arith, rw e at found)
      | inr other ↦ rw other (or_else-none (lookup k s.live_ticket_cache))
    ])
    | inl absent ↦ elim (Option-cases (fetch hash)) [
      | inl failed ↦
          rw (absent, failed)
            (elim (Bool-cases (hash == k)) [
              | inl same ↦
                  let e : hash ≡ k = (==_iff hash k).0 same in rw (same, ← e, absent, failed)
              | inr other ↦ rw other (or_else-none (lookup k s.live_ticket_cache))
            ])
      | inr ((tx_hash, val), given) ↦
          rw (absent, given, lookup-insert hash k val s.live_ticket_cache)
            (elim (Bool-cases (hash == k)) [
              | inl same ↦
                  let e : hash ≡ k = (==_iff hash k).0 same in rw (same, ← e, absent, given)
              | inr other ↦ rw other (or_else-none (lookup k s.live_ticket_cache))
            ])
    ]
  ]

  lookup-add_tickets :
      (tickets : List Hash) (k : Hash) (s : LiveTickets)
      → lookup k (add_tickets fetch tickets s).live_ticket_cache
        ≡ or_else
            (lookup k s.live_ticket_cache)
            (if contains tickets k then price (fetch k) else none)
  unfolding add_tickets
  lookup-add_tickets [] k s = rw contains-nil_lem (or_else-none (lookup k s.live_ticket_cache))
  lookup-add_tickets (hash ∷ rest) k s =
      let next = add_missing fetch hash (lookup hash s.live_ticket_cache) s in
      rw (contains-cons, lookup-add_tickets rest k next, lookup-add_missing hash k s) (ground arith)

  -- After applyDiff the cache holds what it held and, for the tickets that came in and were not there,
  -- the values that the node gives, less the tickets that went out.
  pub lookup-apply_diff :
      (d : PoolDiff) (k : Hash) (s : LiveTickets)
      → lookup k (apply_diff fetch d s).live_ticket_cache ≡ (
          if contains d.tickets_out k
          then none
          else or_else
              (lookup k s.live_ticket_cache)
              (if contains d.tickets_in k then price (fetch k) else none))
  unfolding apply_diff
  lookup-apply_diff d k s = rw (
    lookup-remove_tickets d.tickets_out k (add_tickets fetch d.tickets_in s),
    lookup-add_tickets d.tickets_in k s,
  )

  -- Where the tickets that come in are not cached, those that go out are cached or just come in, and the
  -- node gives every cached value again, undoDiff after applyDiff restores every cached value and the
  -- pool value.
  pub undo_diff-apply_diff :
      (d : PoolDiff) (s : LiveTickets)
      → IsSummed s
      → ((k : Hash) (v : ℤ) → lookup k s.live_ticket_cache ≡ some v → price (fetch k) ≡ some v)
      → ((k : Hash) → contains d.tickets_in k ≡ true → lookup k s.live_ticket_cache ≡ none)
      → ((k : Hash)
          → contains d.tickets_out k ≡ true
          → contains d.tickets_in k ≡ false
          → lookup k s.live_ticket_cache ≢ none)
      → ((k : Hash)
          → lookup k (undo_diff fetch d (apply_diff fetch d s)).live_ticket_cache
            ≡ lookup k s.live_ticket_cache)
        × ((undo_diff fetch d (apply_diff fetch d s)).pool_value ≡ s.pool_value)
  undo_diff-apply_diff d s h priced came left =
      (same, back.total ∙ sum-ext _ s.live_ticket_cache back.one_each h.one_each same ∙ sym h.total)
    where
      after : LiveTickets
      after = apply_diff fetch d s

      swapped : PoolDiff
      swapped = record { tickets_in = d.tickets_out; tickets_out = d.tickets_in }

      back : IsSummed (undo_diff fetch d (apply_diff fetch d s))
      back =
          unfold undo_diff in
          apply_diff-IsSummed fetch swapped after (apply_diff-IsSummed fetch d s h)

      restored :
          (k : Hash) (o : Option ℤ)
          → lookup k s.live_ticket_cache ≡ o
          → lookup k (undo_diff fetch d (apply_diff fetch d s)).live_ticket_cache ≡ o
      restored k none e =
          unfold undo_diff in
          rw (lookup-apply_diff swapped k after, lookup-apply_diff d k s, e)
            (ground (arith, left k, e))
      restored k (some v) e =
          unfold undo_diff in
          rw (lookup-apply_diff swapped k after, lookup-apply_diff d k s, e)
            (ground (arith, came k, e, priced k v e))

      same :
          (k : Hash)
          → lookup k (undo_diff fetch d (apply_diff fetch d s)).live_ticket_cache
            ≡ lookup k s.live_ticket_cache
      same k = restored k (lookup k s.live_ticket_cache) refl
