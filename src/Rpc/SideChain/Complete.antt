-- ===== src/Rpc/SideChain/Complete.antt =====
-- What SideChainFull (v4/rpcutils/rpcclient.go) returns.
use mathlib.Core.List.{append-nil, append_assoc}
use hc_data.Base.{
  ℕ, zero, suc, ◌<◌, ◌≡◌, refl, ap, sym, ◌∙◌, true, false, Bool-cases, inl, inr, List, [], ◌∷◌,
  ◌++◌, Option, some, arith, ◌==◌, length,
}
use hc_data.Base.Int.{negsuc, beq_ℤ}
use hc_data.Base.Exec.{Outcome, ok, err}
use hc_data.Base.HashSet.{Hash}
use hc_data.Rpc.SideChain.{
  HeaderVerbose, SideChainError, tip_not_on_side_chain, reversed_or, reverse_string_slice,
  walk_from, walk, side_chain_full,
}
use hc_data.Rpc.SideChain.Reversed.{reversed, reverse_string_slice-reversed}

-- From the hash, the previous blocks lead through those of the list, which are not of the main chain, to a
-- block that is.
abbrev pub LeadsToMain : (Hash → Option HeaderVerbose) → Hash → List Hash → Type 0
LeadsToMain header h [] =
    (b : HeaderVerbose) × (header h ≡ some b) × (beq_ℤ b.confirmations (negsuc 0) ≡ false)
LeadsToMain header h (d ∷ ds) =
    (h ≡ d)
    × ((b : HeaderVerbose) × (header h ≡ some b)
        × (beq_ℤ b.confirmations (negsuc 0) ≡ true)
        × LeadsToMain header b.previous_hash ds)

-- The side chain in ascending order, or an error for a tip of the main chain
abbrev pub side_chain_or_error : List Hash → Outcome SideChainError (List Hash)
side_chain_or_error [] = err tip_not_on_side_chain
side_chain_or_error (d ∷ ds) = ok (reversed (d ∷ ds))

module _ (header : Hash → Option HeaderVerbose) (tip_hash : Hash) where
  walk-leads :
      (fuel : ℕ) (h : Hash) (ds behind : List Hash) (tip : HeaderVerbose)
      → header tip_hash ≡ some tip
      → beq_ℤ tip.confirmations (negsuc 0) ≡ true
      → LeadsToMain header h ds
      → length ds < fuel
      → walk header tip_hash fuel h behind ≡ reversed_or (reverse_string_slice (behind ++ ds))
  unfolding walk walk_from
  walk-leads zero h ds behind tip e side leads enough = absurd (omega arith)
  walk-leads (suc fuel) h [] behind tip e side (b, found, main) enough =
      elim (Bool-cases (h == tip_hash)) [
        | inl at_tip ↦
            let same : h ≡ tip_hash = ground arith in
            let one : some b ≡ some tip = sym found ∙ ap header same ∙ e in
            absurd (ground (arith, main, side, one))
        | inr below ↦
            rw (found, main, below)
              (ap (λ s. reversed_or (reverse_string_slice s)) (sym (append-nil behind)))
      ]
  walk-leads (suc fuel) h (d ∷ ds) behind tip e side (at, (b, found, on_side, leads)) enough =
      rw (found, on_side)
        (walk-leads fuel b.previous_hash ds (behind ++ h ∷ []) tip e side leads (omega arith)
          ∙ ap (λ s. reversed_or (reverse_string_slice s))
              (append_assoc behind (h ∷ []) ds ∙ ap (λ x. behind ++ x ∷ ds) at))

  -- Where the previous blocks lead from the tip through a side chain to the main chain, and the fuel is more
  -- than the number of its blocks, SideChainFull returns them in ascending order, with the tip last; for a
  -- tip of the main chain it returns an error.
  pub side_chain_full_correct :
      (fuel : ℕ) (ds : List Hash)
      → LeadsToMain header tip_hash ds
      → length ds < fuel
      → side_chain_full header tip_hash fuel ≡ side_chain_or_error ds
  unfolding side_chain_full walk walk_from
  side_chain_full_correct zero ds leads enough = absurd (omega arith)
  side_chain_full_correct (suc fuel) [] (b, found, main) enough =
      let at_tip : (tip_hash == tip_hash) ≡ true = ground arith in rw (found, main, at_tip) refl
  side_chain_full_correct (suc fuel) (d ∷ ds) (at, (b, found, on_side, leads)) enough =
      walk-leads (suc fuel) tip_hash (d ∷ ds) [] b found on_side (at, (b, found, on_side, leads))
        enough
      ∙ ap reversed_or (reverse_string_slice-reversed (d ∷ ds))
