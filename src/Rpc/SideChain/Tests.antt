-- ===== src/Rpc/SideChain/Tests.antt =====
-- A side chain of two blocks (v4/rpcutils/rpcclient.go).
use hc_data.Base.{◌≡◌, refl, arith, Option, some, [], ◌∷◌, ◌==◌, if◌then◌else◌}
use hc_data.Base.Int.{pos, negsuc}
use hc_data.Base.Exec.{ok}
use hc_data.Base.HashSet.{Hash}
use hc_data.Rpc.SideChain.{
  HeaderVerbose, ChainTip, valid_fork, other, side_chain_tips, side_chain_full,
}
use hc_data.Rpc.SideChain.Complete.{side_chain_full_correct}

abbrev header : Hash → Option HeaderVerbose
header h =
    if h == 9
    then some (record { confirmations = negsuc 0; previous_hash = 8 })
    else if h == 8
    then some (record { confirmations = negsuc 0; previous_hash = 3 })
    else some (record { confirmations = pos 5; previous_hash = 2 })

side_chain_full_correct_example : side_chain_full header 9 3 ≡ ok (8 ∷ 9 ∷ [])
side_chain_full_correct_example =
    side_chain_full_correct header 9 3 (9 ∷ 8 ∷ [])
      (refl, (_, refl, refl, (refl, (_, refl, refl, (_, refl, refl))))) (omega arith)

abbrev tip_at : Hash → ChainTip
tip_at h = record { hash = h; status = valid_fork }

two_tips :
    side_chain_tips (tip_at 1 ∷ record { hash = 2; status = other } ∷ tip_at 3 ∷ [])
    ≡ tip_at 1 ∷ tip_at 3 ∷ []
unfolding side_chain_tips
two_tips = refl
