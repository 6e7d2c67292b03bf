-- ===== src/Base/HashSet.antt =====
-- Go's `map[chainhash.Hash]struct{}` as a list of its keys, each once. A hash is its 32 bytes, read as
-- a number. The order of the keys is left to the runtime; here it is the order of insertion.
use hc_data.Base.{
  ℕ, suc, ◌+◌, ◌≡◌, refl, ap, Bool, true, false, not, ◌&&◌, ◌||◌, List, [], ◌∷◌, ◌++◌, arith, ◌==◌,
  length, if◌then◌else◌, Bool-cases, inl, inr, ==_iff,
}

abbrev pub Hash : Type 0
Hash = ℕ

unfoldable pub contains : List Hash → Hash → Bool
contains [] a = false
contains (x ∷ xs) a = x == a || contains xs a

-- m[a] = struct{}{}
unfoldable pub insert : Hash → List Hash → List Hash
insert a xs = if contains xs a then xs else a ∷ xs

-- delete(m, a)
unfoldable pub erase : Hash → List Hash → List Hash
erase a [] = []
erase a (x ∷ xs) = let rest = erase a xs in if x == a then rest else x ∷ rest

unfoldable pub insert_all : List Hash → List Hash → List Hash
insert_all [] xs = xs
insert_all (a ∷ rest) xs = insert_all rest (insert a xs)

unfoldable pub erase_all : List Hash → List Hash → List Hash
erase_all [] xs = xs
erase_all (a ∷ rest) xs = erase_all rest (erase a xs)

-- Each key stands once.
abbrev pub IsDistinct : List Hash → Type 0
IsDistinct [] = Unit
IsDistinct (x ∷ xs) = (contains xs x ≡ false) × IsDistinct xs

pub contains-insert :
    (a b : Hash) (xs : List Hash) → contains (insert a xs) b ≡ (a == b || contains xs b)
unfolding insert contains
contains-insert a b xs = elim (Bool-cases (contains xs a)) [
  | inl old ↦ rw old (elim (Bool-cases (a == b)) [
    | inl e ↦ rw e (let p : a ≡ b = (==_iff a b).0 e in rw (← p) old)
    | inr n ↦ rw n
  ])
  | inr new ↦ rw new
]

pub contains-erase :
    (a b : Hash) (xs : List Hash) → contains (erase a xs) b ≡ (not (a == b) && contains xs b)
unfolding erase contains
contains-erase a b [] = ground arith
contains-erase a b (x ∷ xs) = ground (arith, contains-erase a b xs)

pub IsDistinct-insert : (a : Hash) (xs : List Hash) → IsDistinct xs → IsDistinct (insert a xs)
unfolding insert
IsDistinct-insert a xs d = elim (Bool-cases (contains xs a)) [
  | inl old ↦ rw old d
  | inr new ↦ rw new (new, d)
]

pub IsDistinct-erase : (a : Hash) (xs : List Hash) → IsDistinct xs → IsDistinct (erase a xs)
unfolding erase
IsDistinct-erase a [] d = tt
IsDistinct-erase a (x ∷ xs) d = elim (Bool-cases (x == a)) [
  | inl e ↦ rw e (IsDistinct-erase a xs d.1)
  | inr n ↦ rw n (ground (arith, contains-erase a x xs), IsDistinct-erase a xs d.1)
]

pub erase-absent : (a : Hash) (xs : List Hash) → contains xs a ≡ false → erase a xs ≡ xs
unfolding erase contains
erase-absent a [] h = refl
erase-absent a (x ∷ xs) h = ground (arith, erase-absent a xs)

pub length-insert :
    (a : Hash) (xs : List Hash) → contains xs a ≡ false → length (insert a xs) ≡ suc (length xs)
unfolding insert
length-insert a xs h = rw h

pub length-erase :
    (a : Hash) (xs : List Hash)
    → IsDistinct xs
    → contains xs a ≡ true
    → suc (length (erase a xs)) ≡ length xs
unfolding erase contains
length-erase a [] d h = cc
length-erase a (x ∷ xs) d h = elim (Bool-cases (x == a)) [
  | inl e ↦
      let p : x ≡ a = (==_iff x a).0 e in
      rw e (ap suc (ap length (erase-absent a xs (rw p at d.0))))
  | inr n ↦ rw n (ap suc (length-erase a xs d.1 (rw n at h)))
]

pub contains-insert_all :
    (keys : List Hash) (b : Hash) (xs : List Hash)
    → contains (insert_all keys xs) b ≡ (contains keys b || contains xs b)
unfolding insert_all contains
contains-insert_all [] b xs = refl
contains-insert_all (a ∷ rest) b xs =
    ground (arith, contains-insert_all rest b (insert a xs), contains-insert a b xs)

pub contains-erase_all :
    (keys : List Hash) (b : Hash) (xs : List Hash)
    → contains (erase_all keys xs) b ≡ (not (contains keys b) && contains xs b)
unfolding erase_all contains
contains-erase_all [] b xs = refl
contains-erase_all (a ∷ rest) b xs =
    ground (arith, contains-erase_all rest b (erase a xs), contains-erase a b xs)

pub IsDistinct-insert_all : (keys xs : List Hash) → IsDistinct xs → IsDistinct (insert_all keys xs)
unfolding insert_all
IsDistinct-insert_all [] xs d = d
IsDistinct-insert_all (a ∷ rest) xs d =
    IsDistinct-insert_all rest (insert a xs) (IsDistinct-insert a xs d)

pub IsDistinct-erase_all : (keys xs : List Hash) → IsDistinct xs → IsDistinct (erase_all keys xs)
unfolding erase_all
IsDistinct-erase_all [] xs d = d
IsDistinct-erase_all (a ∷ rest) xs d =
    IsDistinct-erase_all rest (erase a xs) (IsDistinct-erase a xs d)

-- Distinct new keys make the map grow by their number.
pub length-insert_all :
    (keys xs : List Hash)
    → IsDistinct keys
    → ((b : Hash) → contains keys b ≡ true → contains xs b ≡ false)
    → length (insert_all keys xs) ≡ length xs + length keys
unfolding insert_all
length-insert_all [] xs d h = omega arith
length-insert_all (a ∷ rest) xs d h =
    omega (arith, length-insert_all rest (insert a xs) d.1 rest_new, length-insert a xs a_new)
  where
    a_new : contains xs a ≡ false
    a_new = h a (unfold contains in ground arith)

    rest_new : (b : Hash) → contains rest b ≡ true → contains (insert a xs) b ≡ false
    rest_new b p = unfold contains in ground (arith, contains-insert a b xs, h b, d.0)

-- Distinct keys that are all present make the map shrink by their number.
pub length-erase_all :
    (keys xs : List Hash)
    → IsDistinct keys
    → IsDistinct xs
    → ((b : Hash) → contains keys b ≡ true → contains xs b ≡ true)
    → length (erase_all keys xs) + length keys ≡ length xs
unfolding erase_all
length-erase_all [] xs d e h = omega arith
length-erase_all (a ∷ rest) xs d e h = omega (
  arith,
  length-erase_all rest (erase a xs) d.1 (IsDistinct-erase a xs e) rest_kept,
  length-erase a xs e a_old,
)
  where
    a_old : contains xs a ≡ true
    a_old = h a (unfold contains in ground arith)

    rest_kept : (b : Hash) → contains rest b ≡ true → contains (erase a xs) b ≡ true
    rest_kept b p = unfold contains in ground (arith, contains-erase a b xs, h b, d.0)

pub contains-append :
    (xs ys : List Hash) (a : Hash) → contains (xs ++ ys) a ≡ (contains xs a || contains ys a)
unfolding contains
contains-append [] ys a = refl
contains-append (x ∷ xs) ys a = ground (arith, contains-append xs ys a)

pub contains-cons :
    (x : Hash) (xs : List Hash) (a : Hash) → contains (x ∷ xs) a ≡ (x == a || contains xs a)
unfolding contains
contains-cons x xs a = refl

pub contains-nil : (a : Hash) → contains [] a ≡ true → ⊥
unfolding contains
contains-nil a h = cc

pub contains-nil_lem : (a : Hash) → contains [] a ≡ false
unfolding contains
contains-nil_lem a = refl
