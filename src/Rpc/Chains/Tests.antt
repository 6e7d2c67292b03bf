-- ===== src/Rpc/Chains/Tests.antt =====
-- A small block tree for the theorems on CommonAncestor (v4/rpcutils/rpcclient.go).
use hc_data.Base.{◌≡◌, refl, [], ◌∷◌, none, some, arith, ◌==◌, if◌then◌else◌}
use hc_data.Base.HashSet.{contains}
use hc_data.Rpc.Chains.{Blocks, found, common_ancestor}
use hc_data.Rpc.Chains.Links.{IsResult, common_ancestor-IsResult}
use hc_data.Rpc.Chains.Found.{IsApart, turn, common_ancestor_complete}

-- The blocks 11 and 21 follow the block 10 at the height 5, and 22 follows 21.
abbrev fork : Blocks
fork h =
    if h == 11
    then some (record { prev_block = 10; height = 6 })
    else if h == 21
    then some (record { prev_block = 10; height = 6 })
    else if h == 22
    then some (record { prev_block = 21; height = 7 })
    else none

fork-IsApart : IsApart (11 ∷ []) (22 ∷ 21 ∷ [])
unfolding contains
fork-IsApart = record { no_zero = refl; no_common = λ h e. ground arith }

common_ancestor_complete_example :
    common_ancestor fork 11 22 ≡ found 10 (turn (11 ∷ []) []) (turn (22 ∷ 21 ∷ []) [])
common_ancestor_complete_example =
    common_ancestor_complete fork 5 10 11 22 (11 ∷ []) (22 ∷ 21 ∷ []) refl (omega arith)
      (omega arith) (omega arith) (omega arith) (refl, (10, refl, refl))
      (refl, (21, refl, (refl, (10, refl, refl)))) fork-IsApart

common_ancestor-IsResult_example : IsResult fork 11 22 (common_ancestor fork 11 22)
common_ancestor-IsResult_example = common_ancestor-IsResult fork 11 22
