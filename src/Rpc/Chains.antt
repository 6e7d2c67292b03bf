-- ===== src/Rpc/Chains.antt =====
-- CommonAncestor of v4/rpcutils/rpcclient.go: two walks from the tips of two chains back to their last
-- common block. The node's answer to GetBlock is an argument: the header of the block, or nothing.
mod Tests
pub mod Links
pub mod Found
use hc_data.Base.{
  ℕ, zero, suc, ◌≡◌, Bool, true, false, List, [], ◌∷◌, Option, none, some, ltb, ◌==◌, if◌then◌else◌,
}
use hc_data.Base.HashSet.{Hash}

pub record Header : Type 0 where
  pub prev_block : Hash
  pub height : ℕ

-- What GetBlock answers.
abbrev pub Blocks : Type 0
Blocks = Hash → Option Header

abbrev pub zero_hash : Hash
zero_hash = 0

abbrev pub max_ancestor_chain_length : ℕ
max_ancestor_chain_length = 8192

-- What CommonAncestor returns. At genesis the chains come back beside the error.
pub data Ancestor : Type 0 where
  found : Hash → List Hash → List Hash → Ancestor
  ancestor_at_genesis : List Hash → List Hash → Ancestor
  ancestor_max_chain_length : Ancestor
  get_block_failed : Hash → Ancestor

-- How a round of the loop ends: with a result, or with the hashes and the chains of the next round.
pub data Round : Type 0 where
  finish : Ancestor → Round
  next : Hash → Hash → List Hash → List Hash → Round

module _ (hash_a hash_b : Hash) (chain_a chain_b : List Hash) where
  -- The round behind the two answers of the node.
  unfoldable pub compare_headers : Header → Header → Round
  compare_headers a b =
      if ltb b.height a.height
      then next a.prev_block hash_b (hash_a ∷ chain_a) chain_b
      else if ltb a.height b.height
      then next hash_a b.prev_block chain_a (hash_b ∷ chain_b)
      else if a.prev_block == zero_hash
      then finish (ancestor_at_genesis (hash_a ∷ chain_a) (hash_b ∷ chain_b))
      else if a.prev_block == b.prev_block
      then finish (found a.prev_block (hash_a ∷ chain_a) (hash_b ∷ chain_b))
      else next a.prev_block b.prev_block (hash_a ∷ chain_a) (hash_b ∷ chain_b)

  unfoldable pub round_with : Option Header → Option Header → Round
  unfolding compare_headers
  round_with none b = finish (get_block_failed hash_a)
  round_with (some a) none = finish (get_block_failed hash_b)
  round_with (some a) (some b) = compare_headers a b

unfoldable pub follow : (Hash → Hash → List Hash → List Hash → Ancestor) → Round → Ancestor
follow walk (finish r) = r
follow walk (next a b chain_a chain_b) = walk a b chain_a chain_b

module _ (blocks : Blocks) where
  -- The loop: each of its rounds that goes on counts `length` up by one, and `left` is what is left of
  -- maxAncestorChainLength.
  unfoldable pub ancestor_loop : ℕ → Hash → Hash → List Hash → List Hash → Ancestor
  unfolding round_with follow
  ancestor_loop zero hash_a hash_b chain_a chain_b = ancestor_max_chain_length
  ancestor_loop (suc left) hash_a hash_b chain_a chain_b =
      follow (ancestor_loop left)
        (round_with hash_a hash_b chain_a chain_b (blocks hash_a) (blocks hash_b))

  -- CommonAncestor
  unfoldable pub common_ancestor : Hash → Hash → Ancestor
  unfolding ancestor_loop
  common_ancestor hash_a hash_b = ancestor_loop max_ancestor_chain_length hash_a hash_b [] []
