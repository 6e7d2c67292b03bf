-- ===== src/StakeDb/LiveTickets/Summed.antt =====
-- The pool value and the sum of the live ticket cache (v4/stakedb/stakedb.go).
use hc_data.Base.{
  ◌≡◌, ap, ◌∙◌, Bool-cases, Option-cases, inl, inr, List, [], ◌∷◌, none, some, arith, ◌==◌, ==_iff,
}
use hc_data.Base.Int.{ℤ, pos, ◌+ℤ◌, ◌-ℤ◌}
use hc_data.Base.HashSet.{Hash}
use hc_data.Base.HashMap.{lookup, insert, erase, IsMap, erase-absent, IsMap-erase, IsMap-insert}
use hc_data.StakeDb.DiffDb.{PoolDiff}
use hc_data.StakeDb.LiveTickets.{
  LiveTickets, Fetch, add_missing, add_tickets, remove_found, remove_tickets, apply_diff,
}

abbrev pub sum : List (Hash × ℤ) → ℤ
sum [] = pos 0
sum ((h, v) ∷ m) = v +ℤ sum m

pub record IsSummed (s : LiveTickets) : Type 0 where
  pub one_each : IsMap s.live_ticket_cache
  pub total : s.pool_value ≡ sum s.live_ticket_cache

+ℤ_comm : (a b : ℤ) → a +ℤ b ≡ b +ℤ a
+ℤ_comm a b = ground arith

+ℤ_left_comm : (a b c : ℤ) → a +ℤ (b +ℤ c) ≡ b +ℤ (a +ℤ c)
+ℤ_left_comm a b c = ground arith

+ℤ_cancel : (a b : ℤ) → (a +ℤ b) -ℤ a ≡ b
+ℤ_cancel a b = ground arith

pub sum-erase :
    (k : Hash) (v : ℤ) (m : List (Hash × ℤ))
    → IsMap m
    → lookup k m ≡ some v
    → sum m ≡ v +ℤ sum (erase k m)
unfolding lookup erase
sum-erase k v [] d h = ground arith
sum-erase k v ((j, w) ∷ m) d h = elim (Bool-cases (j == k)) [
  | inl same ↦
      let j_is_k : j ≡ k = (==_iff j k).0 same in
      let absent : lookup k m ≡ none = rw j_is_k at d.0 in
      let value : w ≡ v = ground arith in rw (same, value, erase-absent k m absent)
  | inr other ↦
      let found : lookup k m ≡ some v = ground arith in
      rw other (ap (λ t. w +ℤ t) (sum-erase k v m d.1 found) ∙ +ℤ_left_comm w v (sum (erase k m)))
]

pub insert-IsSummed :
    (hash : Hash) (v : ℤ) (m : List (Hash × ℤ)) (total : ℤ)
    → IsMap m
    → total ≡ sum m
    → lookup hash m ≡ none
    → IsSummed (record { live_ticket_cache = insert hash v m; pool_value = total +ℤ v })
unfolding insert
insert-IsSummed hash v m total d t absent = record {
  one_each = IsMap-insert hash v m d;
  total = rw (t, erase-absent hash m absent) (+ℤ_comm (sum m) v);
}

remove_found-IsSummed :
    (hash : Hash) (s : LiveTickets)
    → IsSummed s
    → IsSummed (remove_found hash (lookup hash s.live_ticket_cache) s)
unfolding remove_found
remove_found-IsSummed hash s h = elim (Option-cases (lookup hash s.live_ticket_cache)) [
  | inl absent ↦ rw absent h
  | inr (v, found) ↦ rw found (record {
    one_each = IsMap-erase hash s.live_ticket_cache h.one_each;
    total =
        rw (h.total, sum-erase hash v s.live_ticket_cache h.one_each found)
          (+ℤ_cancel v (sum (erase hash s.live_ticket_cache)));
  })
]

remove_tickets-IsSummed :
    (tickets : List Hash) (s : LiveTickets) → IsSummed s → IsSummed (remove_tickets tickets s)
unfolding remove_tickets
remove_tickets-IsSummed [] s h = h
remove_tickets-IsSummed (hash ∷ rest) s h =
    remove_tickets-IsSummed rest _ (remove_found-IsSummed hash s h)

module _ (fetch : Fetch) where
  add_missing-IsSummed :
      (hash : Hash) (s : LiveTickets)
      → IsSummed s
      → IsSummed (add_missing fetch hash (lookup hash s.live_ticket_cache) s)
  unfolding add_missing
  add_missing-IsSummed hash s h = elim (Option-cases (lookup hash s.live_ticket_cache)) [
    | inr (v, found) ↦ rw found h
    | inl absent ↦ elim (Option-cases (fetch hash)) [
      | inl failed ↦ rw (absent, failed) h
      | inr ((tx_hash, val), given) ↦
          rw (absent, given)
            (insert-IsSummed hash val s.live_ticket_cache s.pool_value h.one_each h.total absent)
    ]
  ]

  add_tickets-IsSummed :
      (tickets : List Hash) (s : LiveTickets) → IsSummed s → IsSummed (add_tickets fetch tickets s)
  unfolding add_tickets
  add_tickets-IsSummed [] s h = h
  add_tickets-IsSummed (hash ∷ rest) s h =
      add_tickets-IsSummed rest _ (add_missing-IsSummed hash s h)

  -- applyDiff keeps the pool value equal to the sum of the cached values, whatever the diff and whatever
  -- the node answers.
  pub apply_diff-IsSummed :
      (d : PoolDiff) (s : LiveTickets) → IsSummed s → IsSummed (apply_diff fetch d s)
  unfolding apply_diff
  apply_diff-IsSummed d s h =
      remove_tickets-IsSummed d.tickets_out _ (add_tickets-IsSummed d.tickets_in s h)
