-- ===== src/Base/HashMap.antt =====
-- Go's `map[chainhash.Hash]V` where its entries are counted or summed: a list of entries, one for each
-- key.
use hc_data.Base.{
  ◌≡◌, refl, suc, length, sym, ap, ◌∙◌, List, [], ◌∷◌, Option, none, some, arith, ◌==◌,
  if◌then◌else◌, Bool-cases, inl, inr,
}
use hc_data.Base.HashSet.{Hash}

module _ {V : Type 0} where
  unfoldable pub lookup : Hash → List (Hash × V) → Option V
  lookup k [] = none
  lookup k ((j, v) ∷ m) = if j == k then some v else lookup k m

  -- delete(m, k)
  unfoldable pub erase : Hash → List (Hash × V) → List (Hash × V)
  erase k [] = []
  erase k ((j, v) ∷ m) = let rest = erase k m in if j == k then rest else (j, v) ∷ rest

  -- m[k] = v
  unfoldable pub insert : Hash → V → List (Hash × V) → List (Hash × V)
  unfolding erase
  insert k v m = (k, v) ∷ erase k m

  -- Each key has one entry.
  abbrev pub IsMap : List (Hash × V) → Type 0
  IsMap [] = Unit
  IsMap ((j, v) ∷ m) = (lookup j m ≡ none) × IsMap m

  pub lookup-erase :
      (k j : Hash) (m : List (Hash × V))
      → lookup j (erase k m) ≡ (if k == j then none else lookup j m)
  unfolding lookup erase
  lookup-erase k j [] = ground arith
  lookup-erase k j ((i, v) ∷ m) = ground (arith, lookup-erase k j m)

  pub lookup-insert :
      (k j : Hash) (v : V) (m : List (Hash × V))
      → lookup j (insert k v m) ≡ (if k == j then some v else lookup j m)
  unfolding lookup insert
  lookup-insert k j v m = ground (arith, lookup-erase k j m)

  pub erase-absent : (k : Hash) (m : List (Hash × V)) → lookup k m ≡ none → erase k m ≡ m
  unfolding lookup erase
  erase-absent k [] h = refl
  erase-absent k ((i, v) ∷ m) h = ground (arith, erase-absent k m)

  pub IsMap-erase : (k : Hash) (m : List (Hash × V)) → IsMap m → IsMap (erase k m)
  unfolding erase
  IsMap-erase k [] h = tt
  IsMap-erase k ((i, v) ∷ m) h = elim (Bool-cases (i == k)) [
    | inl same ↦ rw same (IsMap-erase k m h.1)
    | inr other ↦ rw other (ground (arith, lookup-erase k i m), IsMap-erase k m h.1)
  ]

  pub IsMap-insert : (k : Hash) (v : V) (m : List (Hash × V)) → IsMap m → IsMap (insert k v m)
  unfolding insert
  IsMap-insert k v m h = (ground (arith, lookup-erase k k m), IsMap-erase k m h)

  pub length-erase :
      (k : Hash) (v : V) (m : List (Hash × V))
      → IsMap m
      → lookup k m ≡ some v
      → suc (length (erase k m)) ≡ length m
  unfolding lookup erase
  length-erase k v [] h e = absurd (ground arith)
  length-erase k v ((i, w) ∷ m) h e = elim (Bool-cases (i == k)) [
    | inl same ↦
        let at_k : i ≡ k = ground arith in
        rw same
          (ap (λ l. suc (length l)) (erase-absent k m (ap (λ j. lookup j m) (sym at_k) ∙ h.0)))
    | inr other ↦
        let found : lookup k m ≡ some v = ground (arith, other, e) in
        rw other (ap suc (length-erase k v m h.1 found))
  ]
