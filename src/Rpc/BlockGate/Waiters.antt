-- ===== src/Rpc/BlockGate/Waiters.antt =====
-- The waiters of BlockGate (v4/rpcutils/blockgate.go): which channels wait for which key.
use hc_data.Base.{
  ◌⊎◌, lt→ltb, ℕ, ◌+◌, ◌≡◌, ◌<◌, ◌↔◌, refl, sym, ◌∙◌, Bool, true, false, ◌||◌, Bool-cases, inl, inr,
  List, [], ◌∷◌, ◌++◌, arith, ◌==◌, ==_iff, ==_refl, if◌then◌else◌,
}
use hc_data.Base.Exec.{ok}
use hc_data.Base.HashSet.{contains, contains-append, contains-cons, contains-nil_lem, IsDistinct}
use hc_data.Rpc.BlockGate.Notify.{send_all}

distinct_heads :
    (c x : ℕ) (rest : List ℕ) → contains rest c ≡ false → contains rest x ≡ true → (c == x) ≡ false
distinct_heads c x rest absent present = elim (Bool-cases (c == x)) [
  | inl same ↦
      let p : c ≡ x = (==_iff c x).0 same in let q : contains rest x ≡ false = rw p at absent in cc
  | inr other ↦ other
]

-- Sending one value to distinct channels with nothing in them fills these and no other.
pub send_all-ok :
    {V : Type 0} (room : ℕ) (v : V) (cs : List ℕ) (chans : ℕ → List V)
    → 0 < room
    → IsDistinct cs
    → ((c : ℕ) → contains cs c ≡ true → chans c ≡ [])
    → (chans' : ℕ → List V) × (send_all room v cs chans ≡ ok chans')
      × ((d : ℕ) → chans' d ≡ (if contains cs d then v ∷ [] else chans d))
unfolding send_all
send_all-ok room v [] chans r d e = (chans, refl, λ x. rw contains-nil_lem)
send_all-ok {V} room v (c ∷ rest) chans r d e =
    let unsent : chans c ≡ [] = e c (rw (contains-cons, ==_refl c)) in
    let (chans', sent, told) = send_all-ok room v rest next r d.1 still in
    (
      chans',
      rw (unsent, lt→ltb 0 room r) sent,
      λ x.
          told x
          ∙ (rw contains-cons (elim (Bool-cases (c == x)) [
            | inl same ↦
                let p : c ≡ x = (==_iff c x).0 same in
                let not_again : contains rest x ≡ false = rw p at d.0 in
                let empty : chans x ≡ [] = rw p at unsent in rw (same, not_again, empty)
            | inr other ↦ rw other
          ])),
    )
  where
    next : ℕ → List V
    next x = if c == x then chans x ++ v ∷ [] else chans x

    still : (x : ℕ) → contains rest x ≡ true → next x ≡ []
    still x h =
        let other : (c == x) ≡ false = distinct_heads c x rest d.0 h in
        rw other (e x (rw (contains-cons, other) h))

-- The channels of a map of waiters: each waits for one key, once, and nothing was sent to it.
pub record IsWaiting {K V : Type 0} (waiters : K → List ℕ) (chans : ℕ → List V) (next : ℕ)
    : Type 0 where
  pub known : (k : K) (c : ℕ) → contains (waiters k) c ≡ true → c < next
  pub unsent : (k : K) (c : ℕ) → contains (waiters k) c ≡ true → chans c ≡ []
  pub distinct : (k : K) → IsDistinct (waiters k)
  pub apart :
      (j k : K) (c : ℕ) → contains (waiters j) c ≡ true → contains (waiters k) c ≡ true → j ≡ k

IsDistinct-snoc :
    (xs : List ℕ) (a : ℕ) → contains xs a ≡ false → IsDistinct xs → IsDistinct (xs ++ a ∷ [])
IsDistinct-snoc [] a h d = (contains-nil_lem a, tt)
IsDistinct-snoc (x ∷ xs) a h d =
    let parts = rw contains-cons at h in
    let (other, absent) = neither (x == a) (contains xs a) parts in
    (
      rw (contains-append, contains-cons, contains-nil_lem, d.0, ==_comm_false x a other),
      IsDistinct-snoc xs a absent d.1,
    )
  where
    neither : (p q : Bool) → (p || q) ≡ false → (p ≡ false) × (q ≡ false)
    neither p q e = ground arith

    ==_comm_false : (x a : ℕ) → (x == a) ≡ false → (a == x) ≡ false
    ==_comm_false x a e = ground arith

module _ {K : Type 0} (beq : K → K → Bool) where
  -- Who waits after a new channel was added.
  added :
      (waiters : K → List ℕ) (next : ℕ) (key k : K) (c : ℕ)
      → contains (if beq key k then waiters k ++ next ∷ [] else waiters k) c ≡ true
      → (contains (waiters k) c ≡ true) ⊎ ((beq key k ≡ true) × (c ≡ next))
  added waiters next key k c h = elim (Bool-cases (beq key k)) [
    | inl same ↦
        let both = rw (same, contains-append, contains-cons, contains-nil_lem) at h in
        either (contains (waiters k) c) same both
    | inr other ↦ inl (rw other at h)
  ]
    where
      either :
          (b : Bool)
          → beq key k ≡ true
          → (b || (next == c || false)) ≡ true
          → (b ≡ true) ⊎ ((beq key k ≡ true) × (c ≡ next))
      either true same e = inl refl
      either false same e = elim (Bool-cases (next == c)) [
        | inl p ↦ inr (same, sym ((==_iff next c).0 p))
        | inr n ↦ cc
      ]

  -- Who waits after the waiters of a key were forgotten.
  remaining :
      (waiters : K → List ℕ) (key k : K) (c : ℕ)
      → contains (if beq key k then [] else waiters k) c ≡ true
      → (beq key k ≡ false) × (contains (waiters k) c ≡ true)
  remaining waiters key k c h = elim (Bool-cases (beq key k)) [
    | inl same ↦ let p = rw (same, contains-nil_lem) at h in cc
    | inr other ↦ (other, rw other at h)
  ]

module _ {K V : Type 0} (beq : K → K → Bool)
    (beq_iff : (j k : K) → (beq j k ≡ true) ↔ (j ≡ k)) where
  -- A new channel waits.
  pub IsWaiting-add :
      (waiters : K → List ℕ) (chans : ℕ → List V) (next : ℕ) (key : K)
      → IsWaiting waiters chans next
      → IsWaiting
          (λ k. if beq key k then waiters k ++ next ∷ [] else waiters k)
          (λ d. if next == d then [] else chans d)
          (next + 1)
  IsWaiting-add waiters chans next key w = record {
    known = λ k c h. elim (added beq waiters next key k c h) [
      | inl old ↦ let p = w.known k c old in omega arith
      | inr (_, e) ↦ omega arith
    ];
    unsent = λ k c h. elim (Bool-cases (next == c)) [
      | inl same ↦ rw same
      | inr other ↦ rw other (elim (added beq waiters next key k c h) [
        | inl old ↦ w.unsent k c old
        | inr (_, e) ↦ let p : (next == c) ≡ true = (==_iff next c).1 (sym e) in cc
      ])
    ];
    distinct = λ k. elim (Bool-cases (beq key k)) [
      | inl same ↦ rw same (IsDistinct-snoc (waiters k) next (fresh k) (w.distinct k))
      | inr other ↦ rw other (w.distinct k)
    ];
    apart = λ j k c p q. elim (added beq waiters next key j c p) [
      | inl old ↦ elim (added beq waiters next key k c q) [
        | inl also ↦ w.apart j k c old also
        | inr (_, e) ↦ let below = w.known j c old in absurd (omega arith)
      ]
      | inr (same, e) ↦ elim (added beq waiters next key k c q) [
        | inl also ↦ let below = w.known k c also in absurd (omega arith)
        | inr (also, _) ↦ sym ((beq_iff key j).0 same) ∙ (beq_iff key k).0 also
      ]
    ];
  }
    where
      fresh : (k : K) → contains (waiters k) next ≡ false
      fresh k = elim (Bool-cases (contains (waiters k) next)) [
        | inl old ↦ let p = w.known k next old in absurd (omega arith)
        | inr new ↦ new
      ]

  -- The waiters of one key are told and forgotten.
  pub IsWaiting-tell :
      (waiters : K → List ℕ) (chans chans' : ℕ → List V) (next : ℕ) (key : K) (v : V)
      → IsWaiting waiters chans next
      → ((d : ℕ) → chans' d ≡ (if contains (waiters key) d then v ∷ [] else chans d))
      → IsWaiting (λ k. if beq key k then [] else waiters k) chans' next
  IsWaiting-tell waiters chans chans' next key v w told = record {
    known = λ k c h. w.known k c (remaining beq waiters key k c h).1;
    unsent = λ k c h.
        let (other, waits) = remaining beq waiters key k c h in
        told c ∙ rw (untold k c other waits) (w.unsent k c waits);
    distinct = λ k. elim (Bool-cases (beq key k)) [
      | inl same ↦ rw same tt
      | inr other ↦ rw other (w.distinct k)
    ];
    apart = λ j k c p q.
        w.apart j k c (remaining beq waiters key j c p).1 (remaining beq waiters key k c q).1;
  }
    where
      untold :
          (k : K) (c : ℕ)
          → beq key k ≡ false
          → contains (waiters k) c ≡ true
          → contains (waiters key) c ≡ false
      untold k c other waits = elim (Bool-cases (contains (waiters key) c)) [
        | inl told_too ↦
            let p : beq key k ≡ true = (beq_iff key k).1 (w.apart key k c told_too waits) in cc
        | inr silent ↦ silent
      ]
