-- ===== src/Rpc/SideChain.antt =====
-- SideChainFull, sideChainTips and reverseStringSlice of v4/rpcutils/rpcclient.go. Hash strings stand as
-- numbers; the node's answers are an argument. The walk runs on fuel, which is to be more than the number of
-- blocks of the side chain.
mod Tests
pub mod Reversed
pub mod Complete
use hc_data.Base.{
  and_then, ℕ, zero, suc, ◌+◌, ◌-◌, ◌/◌, Bool, true, false, List, [], ◌∷◌, ◌++◌, Option, none, some,
  ◌==◌, if◌then◌else◌, length, get_elem?, set,
}
use hc_data.Base.Int.{ℤ, negsuc, beq_ℤ}
use hc_data.Base.Exec.{Outcome, ok, err, panic, out_of_fuel}
use hc_data.Base.HashSet.{Hash}

-- What is read of a header, and of a chain tip with its status
pub record HeaderVerbose : Type 0 where
  pub confirmations : ℤ
  pub previous_hash : Hash

pub data Status : Type 0 where
  valid_headers valid_fork other : Status

pub record ChainTip : Type 0 where
  pub hash : Hash
  pub status : Status

abbrev pub keep_tip : Status → ChainTip → List ChainTip → List ChainTip
keep_tip valid_headers tip rest = tip ∷ rest
keep_tip valid_fork tip rest = tip ∷ rest
keep_tip other tip rest = rest

-- sideChainTips
unfoldable pub side_chain_tips : List ChainTip → List ChainTip
side_chain_tips [] = []
side_chain_tips (tip ∷ rest) = keep_tip tip.status tip (side_chain_tips rest)

-- `s[i], s[j] = s[j], s[i]`; an index out of range panics.
abbrev pub exchange : Option Hash → Option Hash → ℕ → ℕ → List Hash → Option (List Hash)
exchange none y i j s = none
exchange (some x) none i j s = none
exchange (some x) (some y) i j s = some (set j x (set i y s))

-- The loop of reverseStringSlice, from the index i on, of which n rounds are left
unfoldable pub reverse_loop : ℕ → ℕ → List Hash → Option (List Hash)
reverse_loop zero i s = some s
reverse_loop (suc n) i s =
    let j = length s - 1 - i in
    and_then (exchange (get_elem? s i) (get_elem? s j) i j s) (reverse_loop n (suc i))

-- reverseStringSlice
unfoldable pub reverse_string_slice : List Hash → Option (List Hash)
unfolding reverse_loop
reverse_string_slice s = reverse_loop (length s / 2) 0 s

pub data SideChainError : Type 0 where
  header_failed : Hash → SideChainError
  tip_not_on_side_chain : SideChainError

abbrev pub reversed_or : Option (List Hash) → Outcome SideChainError (List Hash)
reversed_or none = panic
reversed_or (some s) = ok s

module _ (header : Hash → Option HeaderVerbose) (tip_hash : Hash) where
  -- A round of the walk, with the header of the block
  unfoldable pub walk_from :
      (Hash → List Hash → Outcome SideChainError (List Hash))
      → Hash
      → List Hash
      → Option HeaderVerbose
      → Outcome SideChainError (List Hash)
  unfolding reverse_string_slice
  walk_from walk hash side_chain none = err (header_failed hash)
  walk_from walk hash side_chain (some b) =
      let further = walk b.previous_hash (side_chain ++ hash ∷ []) in
      if beq_ℤ b.confirmations (negsuc 0)
      then further
      else if hash == tip_hash
      then err tip_not_on_side_chain
      else reversed_or (reverse_string_slice side_chain)

  unfoldable pub walk : ℕ → Hash → List Hash → Outcome SideChainError (List Hash)
  unfolding walk_from
  walk zero hash side_chain = out_of_fuel
  walk (suc fuel) hash side_chain = walk_from (walk fuel) hash side_chain (header hash)

  -- SideChainFull
  unfoldable pub side_chain_full : ℕ → Outcome SideChainError (List Hash)
  unfolding walk
  side_chain_full fuel = walk fuel tip_hash []
