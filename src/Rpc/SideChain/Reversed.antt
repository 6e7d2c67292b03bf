-- ===== src/Rpc/SideChain/Reversed.antt =====
-- The loop of reverseStringSlice (v4/rpcutils/rpcclient.go) against the reversal of a list.
use hc_data.Base.{
  ap₂, ℕ, zero, suc, ◌+◌, ◌-◌, ◌/◌, ◌≤◌, ◌<◌, ◌≡◌, refl, ap, sym, ◌∙◌, inl, inr, Bool-cases, List,
  [], ◌∷◌, ◌++◌, some, arith, ltb, ◌==◌, length, get_elem?, set, length-set, length-append,
  get_elem?-lt, get_elem?-set_self, get_elem?-set_other, get_elem?-append, get_elem?-append_self,
}
use hc_data.Base.HashSet.{Hash}
use hc_data.Rpc.SideChain.{exchange, reverse_loop, reverse_string_slice}

abbrev pub reversed : List Hash → List Hash
reversed [] = []
reversed (x ∷ xs) = reversed xs ++ x ∷ []

length-reversed : (xs : List Hash) → length (reversed xs) ≡ length xs
length-reversed [] = refl
length-reversed (x ∷ xs) = omega (arith, length-append (reversed xs) (x ∷ []), length-reversed xs)

get_elem?-reversed :
    (xs : List Hash) (j : ℕ)
    → j < length xs
    → get_elem? (reversed xs) j ≡ get_elem? xs (length xs - 1 - j)
get_elem?-reversed [] j h = absurd (omega arith)
get_elem?-reversed (x ∷ xs) j h = elim (Bool-cases (j == length xs)) [
  | inl last ↦
      let at_end : j ≡ length (reversed xs) = ground (arith, length-reversed xs) in
      let first : suc (length xs) - 1 - j ≡ 0 = ground arith in
      ap (get_elem? (reversed xs ++ x ∷ [])) at_end
      ∙ get_elem?-append_self (reversed xs) [] x
      ∙ ap (get_elem? (x ∷ xs)) (sym first)
  | inr inner ↦
      let before : j < length xs = ground arith in
      let later : suc (length xs) - 1 - j ≡ suc (length xs - 1 - j) = omega arith in
      get_elem?-append (reversed xs) (x ∷ []) j (omega (arith, length-reversed xs))
      ∙ get_elem?-reversed xs j before
      ∙ ap (get_elem? (x ∷ xs)) (sym later)
]

-- Lists of one length that have the same entries are equal.
same_entries :
    (xs ys : List Hash)
    → length xs ≡ length ys
    → ((j : ℕ) → j < length xs → get_elem? xs j ≡ get_elem? ys j)
    → xs ≡ ys
same_entries [] [] l h = refl
same_entries [] (y ∷ ys) l h = absurd (omega arith)
same_entries (x ∷ xs) [] l h = absurd (omega arith)
same_entries (x ∷ xs) (y ∷ ys) l h =
    let heads : some x ≡ some y = h 0 (omega arith) in
    let tails = same_entries xs ys (omega arith) (λ j p. h (suc j) (omega arith)) in
    let same : x ≡ y = ground arith in ap₂ (λ a as'. a ∷ as') same tails

-- After k rounds the first and the last k entries have changed places.
record IsMirrored (k : ℕ) (s t : List Hash) : Type 0 where
  same_length : length t ≡ length s
  outer_low : (j : ℕ) → j < length s → j < k → get_elem? t j ≡ get_elem? s (length s - 1 - j)
  outer_high :
      (j : ℕ) → j < length s → length s ≤ j + k → get_elem? t j ≡ get_elem? s (length s - 1 - j)
  inner : (j : ℕ) → k ≤ j → j + k < length s → get_elem? t j ≡ get_elem? s j

-- Two entries have changed places, and the others are as they were.
record IsExchanged (i j : ℕ) (t u : List Hash) : Type 0 where
  kept_length : length u ≡ length t
  at_i : get_elem? u i ≡ get_elem? t j
  at_j : get_elem? u j ≡ get_elem? t i
  elsewhere : (m : ℕ) → (m ≡ i → ⊥) → (m ≡ j → ⊥) → get_elem? u m ≡ get_elem? t m

exchange-IsExchanged :
    (i j : ℕ) (t : List Hash)
    → i < j
    → j < length t
    → (u : List Hash) × (exchange (get_elem? t i) (get_elem? t j) i j t ≡ some u)
      × IsExchanged i j t u
exchange-IsExchanged i j t h k =
    let (x, ex) = get_elem?-lt t i (omega arith) in
    let (y, ey) = get_elem?-lt t j k in
    let mid = set i y t in
    let len = length-set i y t in
    (
      set j x mid,
      rw (ex, ey) refl,
      record {
        kept_length = length-set j x mid ∙ len;
        at_i =
            get_elem?-set_other j i x mid (λ e. absurd (omega arith))
            ∙ get_elem?-set_self i y t (omega arith)
            ∙ sym ey;
        at_j = get_elem?-set_self j x mid (omega (arith, len)) ∙ sym ex;
        elsewhere = λ m p q.
            get_elem?-set_other j m x mid (λ e. q (sym e))
            ∙ get_elem?-set_other i m y t (λ e. p (sym e));
      },
    )

IsMirrored-round :
    (k j : ℕ) (s t u : List Hash)
    → j ≡ length s - 1 - k
    → k < j
    → IsMirrored k s t
    → IsExchanged k j t u
    → IsMirrored (suc k) s u
IsMirrored-round k j s t u ej h m e =
    let back : length s - 1 - j ≡ k = omega arith in
    record {
      same_length = e.kept_length ∙ m.same_length;
      outer_low = λ i p q. elim (Bool-cases (i == k)) [
        | inl here ↦
            let at : i ≡ k = ground arith in
            let there : length s - 1 - i ≡ j = omega arith in
            ap (get_elem? u) at
            ∙ e.at_i
            ∙ m.inner j (omega arith) (omega arith)
            ∙ ap (get_elem? s) (sym there)
        | inr not_here ↦
            let apart : (i ≡ k → ⊥) = λ r. absurd (ground arith) in
            let below : i < k = ground arith in
            e.elsewhere i apart (λ r. absurd (omega arith)) ∙ m.outer_low i p below
      ];
      outer_high = λ i p q. elim (Bool-cases (i == j)) [
        | inl here ↦
            let at : i ≡ j = ground arith in
            let there : length s - 1 - i ≡ k = omega arith in
            ap (get_elem? u) at
            ∙ e.at_j
            ∙ m.inner k (omega arith) (omega arith)
            ∙ ap (get_elem? s) (sym there)
        | inr not_here ↦
            let apart : (i ≡ j → ⊥) = λ r. absurd (ground arith) in
            let above : j < i = ground arith in
            e.elsewhere i (λ r. absurd (omega arith)) apart ∙ m.outer_high i p (omega arith)
      ];
      inner = λ i p q.
          e.elsewhere i (λ r. absurd (omega arith)) (λ r. absurd (omega arith))
          ∙ m.inner i (omega arith) (omega arith);
    }

ap-IsMirrored : {k l : ℕ} {s t : List Hash} → k ≡ l → IsMirrored k s t → IsMirrored l s t
ap-IsMirrored e m = record {
  same_length = m.same_length;
  outer_low = λ j p q. m.outer_low j p (omega arith);
  outer_high = λ j p q. m.outer_high j p (omega arith);
  inner = λ j p q. m.inner j (omega arith) (omega arith);
}

-- After half of the rounds, each entry is the mirrored one; that in the middle is its own.
mirrored_entry :
    (s u : List Hash) (j : ℕ)
    → IsMirrored (length s / 2 + 0) s u
    → j < length s
    → get_elem? u j ≡ get_elem? (reversed s) j
mirrored_entry s u j m h = elim (Bool-cases (ltb j (length s / 2))) [
  | inl low ↦ m.outer_low j h (ground arith) ∙ sym (get_elem?-reversed s j h)
  | inr not_low ↦ elim (Bool-cases (ltb (j + length s / 2) (length s))) [
    | inl middle ↦
        let own : length s - 1 - j ≡ j = ground arith in
        m.inner j (ground arith) (ground arith)
        ∙ ap (get_elem? s) (sym own)
        ∙ sym (get_elem?-reversed s j h)
    | inr high ↦ m.outer_high j h (ground arith) ∙ sym (get_elem?-reversed s j h)
  ]
]

reverse_loop-IsMirrored :
    (n k : ℕ) (s t : List Hash)
    → n + k ≡ length s / 2
    → IsMirrored k s t
    → (u : List Hash) × (reverse_loop n k t ≡ some u) × IsMirrored (n + k) s u
unfolding reverse_loop
reverse_loop-IsMirrored zero k s t h m = (t, refl, ap-IsMirrored (omega arith) m)
reverse_loop-IsMirrored (suc n) k s t h m =
    let j = length t - 1 - k in
    let len = m.same_length in
    let (u, run, e) = exchange-IsExchanged k j t (omega arith) (omega arith) in
    let (v, rest, r) =
      reverse_loop-IsMirrored n (suc k) s u (omega arith)
        (IsMirrored-round k j s t u (omega arith) (omega arith) m e) in
    (v, rw run rest, ap-IsMirrored (omega arith) r)

-- reverseStringSlice reverses the slice.
pub reverse_string_slice-reversed : (s : List Hash) → reverse_string_slice s ≡ some (reversed s)
unfolding reverse_string_slice
reverse_string_slice-reversed s =
    let (u, run, m) = reverse_loop-IsMirrored (length s / 2) 0 s s (omega arith) record {
      same_length = refl;
      outer_low = λ j p q. absurd (omega arith);
      outer_high = λ j p q. absurd (omega arith);
      inner = λ j p q. refl;
    } in
    let same : u ≡ reversed s =
      same_entries u (reversed s) (m.same_length ∙ sym (length-reversed s))
        λ j p. mirrored_entry s u j m (omega (arith, m.same_length)) in
    run ∙ ap some same
