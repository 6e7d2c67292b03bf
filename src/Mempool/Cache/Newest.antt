-- ===== src/Mempool/Cache/Newest.antt =====
-- The getters of MempoolDataCache (v4/mempool/mempoolcache.go) after a store.
use Prim.Native.Nat.{min}
use hc_data.Base.{
  ◌∷◌, ℕ, ◌-◌, ◌≡◌, refl, ap, ◌∙◌, true, false, Bool-cases, inl, inr, List, [], ◌++◌, arith, take,
  length, length-drop, take-append-drop, ltb→lt, ltb_false→le,
}
use hc_data.Base.Int.{ℤ, pos, negsuc, ltb_ℤ, beq_ℤ}
use hc_data.Mempool.Cache.{
  MempoolData, MempoolDataCache, newest, store_mp_data, get_fees, get_fee_rates,
  get_tickets_details,
}

-- The entries from `older` on, of which there are `n`, or all where there are fewer.
abbrev pub IsNewest : {A : Type 0} → ℕ → List A → List A → Type 0
IsNewest {A} n all found =
    ((older : List A) × (older ++ found ≡ all)) × (length found ≡ min n (length all))

append_nil : {A : Type 0} (xs : List A) → xs ++ [] ≡ xs
append_nil [] = refl
append_nil (x ∷ xs) = ap (◌∷◌ x) (append_nil xs)

is_natural : (n : ℕ) → ltb_ℤ (pos n) (pos 0) ≡ false
is_natural n = ground arith

newest-IsNewest : {A : Type 0} (n : ℕ) (all : List A) → IsNewest n all (newest (pos n) all)
unfolding newest
newest-IsNewest n all = elim (Bool-cases (beq_ℤ (pos n) (pos 0))) [
  | inl zero_asked ↦
      let zero_n : n ≡ 0 = ground arith in
      rw zero_asked ((all, append_nil all), omega (arith, zero_n))
  | inr some_asked ↦ elim (Bool-cases (ltb_ℤ (pos n) (pos (length all)))) [
    | inl fewer ↦
        rw (some_asked, is_natural n, fewer)
          (
            (take (length all - n) all, take-append-drop (length all - n) all),
            length-drop (length all - n) all ∙ omega (arith, ltb→lt _ _ fewer),
          )
    | inr enough ↦
        rw (some_asked, is_natural n, enough) (([], refl), omega (arith, ltb_false→le _ _ enough))
  ]
]

newest-negsuc : {A : Type 0} (n : ℕ) (all : List A) → newest (negsuc n) all ≡ all
unfolding newest
newest-negsuc n all =
    let not_zero : beq_ℤ (negsuc n) (pos 0) ≡ false = ground arith in
    let negative : ltb_ℤ (negsuc n) (pos 0) ≡ true = ground arith in rw (not_zero, negative)

module _ {Float FeeInfo Details : Type 0} where
  -- What StoreMPData stores the getters find, each with the height and the number of all entries: asked for
  -- a natural number of fees, fee rates or tickets, they return as many of the last ones, or all where
  -- there are fewer.
  pub store_get_last :
      (data_ : MempoolData Float FeeInfo Details) (timestamp : ℤ)
      (c : MempoolDataCache Float FeeInfo Details) (n : ℕ)
      → ((fees : List Float) × (get_fees (pos n) (store_mp_data data_ timestamp c)
            ≡ (data_.height, length data_.all_fees, fees))
          × IsNewest n data_.all_fees fees)
        × ((rates : List Float) × (get_fee_rates (pos n) (store_mp_data data_ timestamp c)
              ≡ (data_.height, timestamp, length data_.all_fee_rates, rates))
            × IsNewest n data_.all_fee_rates rates)
        × ((tickets : List Details) × (get_tickets_details (pos n) (store_mp_data data_ timestamp c)
              ≡ (data_.height, timestamp, length data_.all_tickets_details, tickets))
            × IsNewest n data_.all_tickets_details tickets)
  unfolding store_mp_data get_fees get_fee_rates get_tickets_details
  store_get_last data_ timestamp c n = (
    (newest (pos n) data_.all_fees, refl, newest-IsNewest n data_.all_fees),
    (newest (pos n) data_.all_fee_rates, refl, newest-IsNewest n data_.all_fee_rates),
    (newest (pos n) data_.all_tickets_details, refl, newest-IsNewest n data_.all_tickets_details),
  )

  -- Asked for a negative number, the getters return everything that StoreMPData stored.
  pub store_get_all :
      (data_ : MempoolData Float FeeInfo Details) (timestamp : ℤ)
      (c : MempoolDataCache Float FeeInfo Details) (n : ℕ)
      → (get_fees (negsuc n) (store_mp_data data_ timestamp c)
          ≡ (data_.height, length data_.all_fees, data_.all_fees))
        × (get_fee_rates (negsuc n) (store_mp_data data_ timestamp c)
            ≡ (data_.height, timestamp, length data_.all_fee_rates, data_.all_fee_rates))
        × (get_tickets_details (negsuc n) (store_mp_data data_ timestamp c) ≡ (
          data_.height,
          timestamp,
          length data_.all_tickets_details,
          data_.all_tickets_details,
        ))
  unfolding store_mp_data get_fees get_fee_rates get_tickets_details
  store_get_all data_ timestamp c n = (
    ap (λ l. (data_.height, length data_.all_fees, l)) (newest-negsuc n data_.all_fees),
    ap (λ l. (data_.height, timestamp, length data_.all_fee_rates, l))
        (newest-negsuc n data_.all_fee_rates),
    ap (λ l. (data_.height, timestamp, length data_.all_tickets_details, l))
        (newest-negsuc n data_.all_tickets_details),
  )
