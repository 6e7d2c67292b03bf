-- ===== src/Rpc/Chains/Found.antt =====
-- CommonAncestor (v4/rpcutils/rpcclient.go) on two chains that part at a block.

use hc_data.Base.{
  ltb_false→le, ◌⊎◌, ltb→lt, ℕ, zero, suc, ◌+◌, ◌≡◌, ◌≤◌, ◌<◌, refl, true, false, Bool-cases, inl,
  inr, List, [], ◌∷◌, some, arith, ltb, ◌==◌, ==_refl, length,
}
use hc_data.Base.HashSet.{Hash, contains, contains-cons}
use hc_data.Rpc.Chains.{
  Blocks, found, zero_hash, max_ancestor_chain_length, compare_headers, round_with, follow,
  ancestor_loop, common_ancestor,
}

-- The path from `cur` down to `end`, without `end`, whose height is `level`: each block names the next one
-- of the path, and its height is one more than the next one's.
abbrev pub IsPath : Blocks → ℕ → Hash → Hash → List Hash → Type 0
IsPath blocks level end cur [] = cur ≡ end
IsPath blocks level end cur (x ∷ rest) =
    (x ≡ cur)
    × ((p : Hash) × (blocks cur
          ≡ some (record { prev_block = p; height = level + length rest + 1 }))
        × IsPath blocks level end p rest)

-- The path turned round, before `chain`.
abbrev pub turn : List Hash → List Hash → List Hash
turn [] chain = chain
turn (x ∷ path) chain = turn path (x ∷ chain)

-- The first path does not meet the zero hash, nor the second path.
pub record IsApart (path_a path_b : List Hash) : Type 0 where
  pub no_zero : contains path_a zero_hash ≡ false
  pub no_common : (h : Hash) → contains path_a h ≡ true → contains path_b h ≡ false

tail_absent :
    (x : Hash) (path : List Hash) (h : Hash)
    → contains (x ∷ path) h ≡ false
    → contains path h ≡ false
tail_absent x path h e = let p = rw contains-cons at e in ground arith

tail_present :
    (x : Hash) (path : List Hash) (h : Hash) → contains path h ≡ true → contains (x ∷ path) h ≡ true
tail_present x path h e = rw (contains-cons, e) (ground arith)

IsApart-tail_a :
    (x : Hash) (path_a path_b : List Hash) → IsApart (x ∷ path_a) path_b → IsApart path_a path_b
IsApart-tail_a x path_a path_b s = record {
  no_zero = tail_absent x path_a zero_hash s.no_zero;
  no_common = λ h e. s.no_common h (tail_present x path_a h e);
}

IsApart-tail_b :
    (y : Hash) (path_a path_b : List Hash) → IsApart path_a (y ∷ path_b) → IsApart path_a path_b
IsApart-tail_b y path_a path_b s = record {
  no_zero = s.no_zero;
  no_common = λ h e. tail_absent y path_b h (s.no_common h e);
}

head_differs :
    (x y : Hash) (path_a path_b : List Hash)
    → IsApart (x ∷ path_a) (y ∷ path_b)
    → ((x == zero_hash) ≡ false) × ((x == y) ≡ false)
head_differs x y path_a path_b s =
    let no_zero = rw contains-cons at s.no_zero in
    let here : contains (x ∷ path_a) x ≡ true = rw (contains-cons, ==_refl x) in
    let other = rw contains-cons at (s.no_common x here) in (ground arith, ground arith)

module _ (blocks : Blocks) (level : ℕ) (end : Hash) (not_zero : (end == zero_hash) ≡ false) where
  -- At one height either both paths end, or both go on to different blocks.
  level_cases :
      (x y a b : Hash) (path_a path_b : List Hash)
      → length path_a ≡ length path_b
      → IsPath blocks level end a path_a
      → IsPath blocks level end b path_b
      → IsApart (x ∷ path_a) (y ∷ path_b)
      → ((path_a ≡ []) × (path_b ≡ []) × (a ≡ end) × (b ≡ end))
        ⊎ ((0 < length path_a)
            × (0 < length path_b)
            × ((a == zero_hash) ≡ false)
            × ((a == b) ≡ false))
  level_cases x y a b [] [] e p q s = inl (refl, refl, p, q)
  level_cases x y a b [] (w ∷ path_b) e p q s = absurd (omega arith)
  level_cases x y a b (v ∷ path_a) [] e p q s = absurd (omega arith)
  level_cases x y a b (v ∷ path_a) (w ∷ path_b) e p q s =
      let (non_zero, differ) = head_differs v w path_a path_b (
        IsApart-tail_a x (v ∷ path_a) (w ∷ path_b)
          (IsApart-tail_b y (x ∷ v ∷ path_a) (w ∷ path_b) s)) in
      inr (omega arith, omega arith, rw (← p.0) non_zero, rw (← p.0, ← q.0) differ)

  walk :
      (left : ℕ) (a b : Hash) (path_a path_b chain_a chain_b : List Hash)
      → 0 < length path_a
      → 0 < length path_b
      → length path_a ≤ left
      → length path_b ≤ left
      → IsPath blocks level end a path_a
      → IsPath blocks level end b path_b
      → IsApart path_a path_b
      → ancestor_loop blocks left a b chain_a chain_b
        ≡ found end (turn path_a chain_a) (turn path_b chain_b)
  unfolding ancestor_loop follow round_with compare_headers
  walk left a b [] path_b chain_a chain_b m n f g p q s = absurd (omega arith)
  walk left a b (x ∷ path_a) [] chain_a chain_b m n f g p q s = absurd (omega arith)
  walk zero a b (x ∷ path_a) (y ∷ path_b) chain_a chain_b m n f g p q s = absurd (omega arith)
  walk (suc left) a b (x ∷ path_a) (y ∷ path_b) chain_a chain_b m n f g
        (here_a, (back_a, head_a, rest_a)) (here_b, (back_b, head_b, rest_b)) s =
      rw (head_a, head_b, ← here_a, ← here_b)
        (elim (Bool-cases (ltb (level + length path_b + 1) (level + length path_a + 1))) [
          | inl higher ↦ rw higher (
              walk left back_a y path_a (y ∷ path_b) (x ∷ chain_a) chain_b
                (omega (arith, ltb→lt _ _ higher)) n (omega arith)
                (omega (arith, ltb→lt _ _ higher)) rest_a (refl, (back_b, rw here_b head_b, rest_b))
                (IsApart-tail_a x path_a (y ∷ path_b) s))
          | inr not_higher ↦
              elim (Bool-cases (ltb (level + length path_a + 1) (level + length path_b + 1))) [
                | inl lower ↦
                    rw (not_higher, lower)
                      (walk left x back_b (x ∷ path_a) path_b chain_a (y ∷ chain_b) m
                        (omega (arith, ltb→lt _ _ lower)) (omega (arith, ltb→lt _ _ lower))
                        (omega arith) (refl, (back_a, rw here_a head_a, rest_a)) rest_b
                        (IsApart-tail_b y (x ∷ path_a) path_b s))
                | inr not_lower ↦
                    let same_length : length path_a ≡ length path_b =
                      omega (arith, ltb_false→le _ _ not_higher, ltb_false→le _ _ not_lower) in
                    elim (level_cases x y back_a back_b path_a path_b same_length rest_a rest_b s) [
                      | inl (none_a, none_b, end_a, end_b) ↦ rw (
                        not_higher,
                        not_lower,
                        end_a,
                        end_b,
                        not_zero,
                        ==_refl end,
                        none_a,
                        none_b,
                      )
                      | inr (more_a, more_b, non_zero, differ) ↦
                          rw (not_higher, not_lower, non_zero, differ)
                            (walk left back_a back_b path_a path_b (x ∷ chain_a) (y ∷ chain_b)
                              more_a more_b (omega arith) (omega arith) rest_a rest_b
                              (IsApart-tail_a x path_a path_b
                                (IsApart-tail_b y (x ∷ path_a) path_b s)))
                    ]
              ]
        ])

-- Two paths down to the same block that meet nowhere else, and are short enough, are what CommonAncestor
-- finds: where the node has every block of both, the height of each is one more than that of the one
-- before, neither path is empty and the ancestor is not the zero hash, it returns the ancestor and the
-- two paths from the lowest block to the tip.
pub common_ancestor_complete :
    (blocks : Blocks) (level : ℕ) (end a b : Hash) (path_a path_b : List Hash)
    → (end == zero_hash) ≡ false
    → 0 < length path_a
    → 0 < length path_b
    → length path_a ≤ max_ancestor_chain_length
    → length path_b ≤ max_ancestor_chain_length
    → IsPath blocks level end a path_a
    → IsPath blocks level end b path_b
    → IsApart path_a path_b
    → common_ancestor blocks a b ≡ found end (turn path_a []) (turn path_b [])
unfolding common_ancestor
common_ancestor_complete blocks level end a b path_a path_b not_zero m n f g p q s =
    walk blocks level end not_zero max_ancestor_chain_length a b path_a path_b [] [] m n f g p q s
