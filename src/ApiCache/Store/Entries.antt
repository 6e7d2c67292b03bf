-- ===== src/ApiCache/Store/Entries.antt =====
-- The entries of the block cache's map (v4/api/types/apicache.go) when one is written or deleted.
use hc_data.Base.{
  ℕ, ◌+◌, ◌≡◌, ap, sym, ◌∙◌, Bool-cases, inl, inr, List, Option, none, some, arith, ◌==◌,
  if◌then◌else◌, length,
}
use hc_data.Base.Int.{negsuc}
use hc_data.Base.HashSet.{Hash}
use hc_data.Base.HashMap.{
  lookup, erase, IsMap, lookup-erase, lookup-insert, erase-absent, IsMap-erase, IsMap-insert,
}
use hc_data.Base.HashMap
use hc_data.ApiCache.{CachedBlock}

-- 1 for an entry of the map, else 0
abbrev pub present : Option CachedBlock → ℕ
present none = 0
present (some b) = 1

present-insert :
    (k h : Hash) (b : CachedBlock) (m : List (Hash × CachedBlock))
    → present (lookup k (HashMap.insert h b m)) ≡ (if h == k then 1 else present (lookup k m))
present-insert k h b m = ground (arith, lookup-insert h k b m)

present-erase :
    (k h : Hash) (m : List (Hash × CachedBlock))
    → present (lookup k (erase h m)) ≡ (if h == k then 0 else present (lookup k m))
present-erase k h m = ground (arith, lookup-erase h k m)

pub unplaced-insert :
    (h k : Hash) (b c : CachedBlock) (m : List (Hash × CachedBlock))
    → b.heap_idx ≡ negsuc 0
    → ((j : Hash) (d : CachedBlock) → lookup j m ≡ some d → d.heap_idx ≡ negsuc 0)
    → lookup k (HashMap.insert h b m) ≡ some c
    → c.heap_idx ≡ negsuc 0
unplaced-insert h k b c m hb all e = elim (Bool-cases (h == k)) [
  | inl same ↦ let found : some b ≡ some c = ground (arith, lookup-insert h k b m) in ground arith
  | inr other ↦
      let found : lookup k m ≡ some c = ground (arith, lookup-insert h k b m) in all k c found
]

pub length-insert-absent :
    (h : Hash) (b : CachedBlock) (m : List (Hash × CachedBlock))
    → lookup h m ≡ none
    → length (HashMap.insert h b m) ≡ length m + 1
unfolding HashMap.insert
length-insert-absent h b m e = omega (arith, ap length (erase-absent h m e))

-- Is there an entry for k more, or one less, when an entry of h is inserted or deleted?
abbrev pub at_hash : Hash → Hash → ℕ
at_hash h k = if h == k then 1 else 0

pub count-insert :
    (k h : Hash) (b : CachedBlock) (m : List (Hash × CachedBlock))
    → lookup h m ≡ none
    → present (lookup k (HashMap.insert h b m)) ≡ present (lookup k m) + at_hash h k
count-insert k h b m absent = elim (Bool-cases (h == k)) [
  | inl same ↦
      let at_k : h ≡ k = ground arith in
      let none_at_k : present (lookup k m) ≡ 0 =
        ap (λ j. present (lookup j m)) (sym at_k) ∙ ap present absent in
      let p : present (lookup k (HashMap.insert h b m)) ≡ 1 =
        present-insert k h b m ∙ ap (λ t. if t then 1 else present (lookup k m)) same in
      rw same (omega arith)
  | inr other ↦
      let p : present (lookup k (HashMap.insert h b m)) ≡ present (lookup k m) =
        present-insert k h b m ∙ ap (λ t. if t then 1 else present (lookup k m)) other in
      rw other (omega arith)
]

pub count-erase :
    (k r : Hash) (v : CachedBlock) (m : List (Hash × CachedBlock))
    → lookup r m ≡ some v
    → present (lookup k (erase r m)) + at_hash r k ≡ present (lookup k m)
count-erase k r v m found = elim (Bool-cases (r == k)) [
  | inl same ↦
      let at_k : r ≡ k = ground arith in
      let one_at_k : present (lookup k m) ≡ 1 =
        ap (λ j. present (lookup j m)) (sym at_k) ∙ ap present found in
      let p : present (lookup k (erase r m)) ≡ 0 =
        present-erase k r m ∙ ap (λ t. if t then 0 else present (lookup k m)) same in
      rw same (omega arith)
  | inr other ↦
      let p : present (lookup k (erase r m)) ≡ present (lookup k m) =
        present-erase k r m ∙ ap (λ t. if t then 0 else present (lookup k m)) other in
      rw other (omega arith)
]

-- An entry is overwritten.
pub length-insert-found :
    (h : Hash) (b v : CachedBlock) (m : List (Hash × CachedBlock))
    → IsMap m
    → lookup h m ≡ some v
    → length (HashMap.insert h b m) ≡ length m
unfolding HashMap.insert
length-insert-found h b v m i found = HashMap.length-erase h v m i found

pub present-insert-found :
    (k h : Hash) (b v : CachedBlock) (m : List (Hash × CachedBlock))
    → lookup h m ≡ some v
    → present (lookup k (HashMap.insert h b m)) ≡ present (lookup k m)
present-insert-found k h b v m found = ground (arith, present-insert k h b m, found)
