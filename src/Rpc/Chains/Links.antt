-- ===== src/Rpc/Chains/Links.antt =====
-- What a result of CommonAncestor (v4/rpcutils/rpcclient.go) says of the chains.
use hc_data.Base.{
  ℕ, zero, suc, ◌≡◌, refl, sym, ap, ◌∙◌, Bool-cases, inl, inr, List, [], ◌∷◌, Option, none, some,
  ltb, ◌==◌, ==_iff,
}
use hc_data.Base.HashSet.{Hash}
use hc_data.Rpc.Chains.{
  Header, Blocks, Ancestor, Round, finish, next, found, ancestor_at_genesis,
  ancestor_max_chain_length, get_block_failed, zero_hash, compare_headers, round_with, follow,
  ancestor_loop, common_ancestor,
}

-- The previous block, where the node has the block.
abbrev pub parent : Option Header → Option Hash
parent none = none
parent (some b) = some b.prev_block

-- From `start` the chain leads to `tip`: each block of it has the one before, or `start`, as its previous
-- block, and the tip is the last.
abbrev pub IsChain : Blocks → Hash → List Hash → Hash → Type 0
IsChain blocks start [] tip = start ≡ tip
IsChain blocks start (x ∷ rest) tip = (parent (blocks x) ≡ some start) × IsChain blocks x rest tip

-- What holds of a result for the tips `a` and `b`.
abbrev pub IsResult : Blocks → Hash → Hash → Ancestor → Type 0
IsResult blocks a b (found h chain_a chain_b) =
    IsChain blocks h chain_a a × IsChain blocks h chain_b b
IsResult blocks a b (ancestor_at_genesis chain_a chain_b) =
    IsChain blocks zero_hash chain_a a × ((start : Hash) × IsChain blocks start chain_b b)
IsResult blocks a b ancestor_max_chain_length = Unit
IsResult blocks a b (get_block_failed h) = blocks h ≡ none

-- What holds of the hashes and the chains between two rounds.
abbrev IsRound : Blocks → Hash → Hash → Round → Type 0
IsRound blocks a b (finish r) = IsResult blocks a b r
IsRound blocks a b (next x y chain_a chain_b) =
    IsChain blocks x chain_a a × IsChain blocks y chain_b b

module _ (blocks : Blocks) (tip_a tip_b : Hash) where
  round_with-IsRound :
      (x y : Hash) (chain_a chain_b : List Hash) (s t : Option Header)
      → blocks x ≡ s
      → blocks y ≡ t
      → IsChain blocks x chain_a tip_a
      → IsChain blocks y chain_b tip_b
      → IsRound blocks tip_a tip_b (round_with x y chain_a chain_b s t)
  unfolding round_with compare_headers
  round_with-IsRound x y chain_a chain_b none t e f p q = e
  round_with-IsRound x y chain_a chain_b (some a) none e f p q = f
  round_with-IsRound x y chain_a chain_b (some a) (some b) e f p q =
      let back_a : parent (blocks x) ≡ some a.prev_block = rw e in
      let back_b : parent (blocks y) ≡ some b.prev_block = rw f in
      elim (Bool-cases (ltb b.height a.height)) [
        | inl higher ↦ rw higher ((back_a, p), q)
        | inr not_higher ↦ elim (Bool-cases (ltb a.height b.height)) [
          | inl lower ↦ rw (not_higher, lower) (p, (back_b, q))
          | inr level ↦ elim (Bool-cases (a.prev_block == zero_hash)) [
            | inl genesis ↦
                let none_before : a.prev_block ≡ zero_hash =
                  (==_iff a.prev_block zero_hash).0 genesis in
                rw (not_higher, level, genesis)
                  ((back_a ∙ ap some none_before, p), (b.prev_block, (back_b, q)))
            | inr later ↦ elim (Bool-cases (a.prev_block == b.prev_block)) [
              | inl same ↦
                  let one : a.prev_block ≡ b.prev_block =
                    (==_iff a.prev_block b.prev_block).0 same in
                  rw (not_higher, level, later, same) ((back_a, p), (back_b ∙ ap some (sym one), q))
              | inr apart ↦ rw (not_higher, level, later, apart) ((back_a, p), (back_b, q))
            ]
          ]
        ]
      ]

  follow-IsResult :
      (walk : Hash → Hash → List Hash → List Hash → Ancestor) (r : Round)
      → ((x y : Hash) (chain_a chain_b : List Hash)
          → IsChain blocks x chain_a tip_a
          → IsChain blocks y chain_b tip_b
          → IsResult blocks tip_a tip_b (walk x y chain_a chain_b))
      → IsRound blocks tip_a tip_b r
      → IsResult blocks tip_a tip_b (follow walk r)
  unfolding follow
  follow-IsResult walk (finish r) h round = round
  follow-IsResult walk (next x y chain_a chain_b) h round = h x y chain_a chain_b round.0 round.1

  ancestor_loop-IsResult :
      (left : ℕ) (x y : Hash) (chain_a chain_b : List Hash)
      → IsChain blocks x chain_a tip_a
      → IsChain blocks y chain_b tip_b
      → IsResult blocks tip_a tip_b (ancestor_loop blocks left x y chain_a chain_b)
  unfolding ancestor_loop
  ancestor_loop-IsResult zero x y chain_a chain_b p q = tt
  ancestor_loop-IsResult (suc left) x y chain_a chain_b p q =
      follow-IsResult (ancestor_loop blocks left)
        (round_with x y chain_a chain_b (blocks x) (blocks y)) (ancestor_loop-IsResult left)
        (round_with-IsRound x y chain_a chain_b (blocks x) (blocks y) refl refl p q)

-- Whatever CommonAncestor returns is right. An ancestor that it finds has two chains that lead from it to
-- the two tips; at genesis the first chain leads from the zero hash to its tip, and the second to the
-- other tip; and the block that it reports as missing is one that the node does not give.
pub common_ancestor-IsResult :
    (blocks : Blocks) (tip_a tip_b : Hash)
    → IsResult blocks tip_a tip_b (common_ancestor blocks tip_a tip_b)
unfolding common_ancestor
common_ancestor-IsResult blocks tip_a tip_b =
    ancestor_loop-IsResult blocks tip_a tip_b 8192 tip_a tip_b [] [] refl refl
