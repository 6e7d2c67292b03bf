-- ===== src/StakeDb/TicketPool/Trim.antt =====
-- Trim of v4/stakedb/ticketpool.go, which removes the last diff, and its relation to append.
use Prim.Native.Nat.{min}
use hc_data.Base.{
  suc, ◌+◌, ◌-◌, ◌≡◌, ◌≤◌, ◌<◌, sym, ap, ap₂, ◌∙◌, Bool-cases, inl, inr, false, ◌||◌, List, [], ◌∷◌,
  ◌++◌, arith, ltb, ◌==◌, ltb_false→le, length, take, get_elem?-lt, take-suc, take-all, take-take,
  take-append, length-take, length-append, append_inj,
}
use hc_data.Base.Exec.{ok}
use hc_data.StakeDb.DiffDb.{PoolDiff}
use hc_data.StakeDb.TicketPool.{TicketPool, append, max_cursor, cut_last, trim}
use hc_data.StakeDb.TicketPool.Replay.{
  none_live, replay, Fits, IsConsistent-take, IsConsistent-append,
}
use hc_data.StakeDb.TicketPool.Step.{IsReplayed, IsValid, MovedTo}
use hc_data.StakeDb.TicketPool.Walk.{retreat_to-Walks, MovedTo-eq, MovedTo-refl}

module _ {S : Type 0} where
  -- What Trim returns from `tp`: the new tip and the diff that was last; the state is valid again, without
  -- that diff, and the cursor was drawn back to the last diff that is left, if it stood beyond it.
  pub record Trimmed (tp : TicketPool S) (d : PoolDiff) (tp' : TicketPool S) : Type 0 where
    pub valid : IsValid tp'
    pub tip : tp'.tip + 1 ≡ tp.tip
    pub diffs : tp'.diffs ++ d ∷ [] ≡ tp.diffs
    pub cursor : tp'.cursor ≡ min tp.cursor (tp.tip - 2)
    pub diff_db : tp'.diff_db ≡ tp.diff_db

  -- Cutting the last diff from a state whose cursor does not need it.
  cut_last-Trimmed :
      (tp tp1 : TicketPool S)
      → IsValid tp
      → 0 < tp.tip
      → IsReplayed tp1
      → MovedTo (min tp.cursor (tp.tip - 2)) (record tp { tip = tp.tip - 1 }) tp1
      → (d : PoolDiff) × (tp' : TicketPool S) × (cut_last tp1 ≡ (ok (tp.tip - 1, d), tp'))
        × Trimmed tp d tp'
  unfolding cut_last
  cut_last-Trimmed tp tp1 v pos_tip r m =
      let n = length tp1.diffs - 1 in
      let size : suc n ≡ length tp1.diffs =
        omega (arith, v.tip_length, ap (λ (ds : List PoolDiff). length ds) m.diffs) in
      let short : tp1.cursor ≤ n =
        omega (arith, v.tip_length, ap (λ (ds : List PoolDiff). length ds) m.diffs, m.cursor) in
      let (d, e) = get_elem?-lt tp1.diffs n (omega arith) in
      (
        d,
        record tp1 { diffs = take n tp1.diffs },
        rw (e, m.tip),
        record {
          valid = record {
            tip_length = omega (
              arith,
              length-take n tp1.diffs,
              m.tip,
              v.tip_length,
              ap (λ (ds : List PoolDiff). length ds) m.diffs,
            );
            replayed = record {
              within = omega (arith, length-take n tp1.diffs);
              distinct = r.distinct;
              consistent = IsConsistent-take none_live tp1.diffs n r.consistent;
              holds = λ h. rw (take-take tp1.cursor n tp1.diffs short) (r.holds h);
            };
          };
          tip = omega (arith, m.tip);
          diffs =
              sym (take-suc n tp1.diffs d e) ∙ take-all (suc n) tp1.diffs (omega arith) ∙ m.diffs;
          cursor = m.cursor;
          diff_db = m.diff_db;
        },
      )

  shorter-IsReplayed :
      (tp : TicketPool S) → IsValid tp → IsReplayed (record tp { tip = tp.tip - 1 })
  shorter-IsReplayed tp v = record {
    within = v.within;
    distinct = v.distinct;
    consistent = v.consistent;
    holds = v.holds;
  }

  last : (tp : TicketPool S) → max_cursor (record tp { tip = tp.tip - 1 }) ≡ tp.tip - 2
  unfolding max_cursor
  last tp = ground arith

  -- From a valid state above genesis, Trim ends without error: it returns the lowered tip and the last
  -- diff, and leaves a valid state without it.
  pub trim_correct :
      (tp : TicketPool S)
      → IsValid tp
      → 0 < tp.tip
      → (d : PoolDiff) × (tp' : TicketPool S) × (trim tp ≡ (ok (tp.tip - 1, d), tp'))
        × Trimmed tp d tp'
  unfolding trim
  trim_correct tp v h =
      let shorter = record tp { tip = tp.tip - 1 } in
      let some_diffs : (tp.tip == 0 || length tp.diffs == 0) ≡ false =
        ground (arith, v.tip_length) in
      elim (Bool-cases (ltb (max_cursor shorter) tp.cursor)) [
        | inl beyond ↦
            let (tp1, walked, r1, m) =
              retreat_to-Walks (max_cursor shorter) shorter (shorter-IsReplayed tp v)
                (omega (arith, last tp)) in
            let (d, tp', cut, trimmed) =
              cut_last-Trimmed tp tp1 v h r1 (MovedTo-eq (ap (min tp.cursor) (last tp)) m) in
            (d, tp', rw (some_diffs, beyond, walked) cut, trimmed)
        | inr before ↦
            let (d, tp', cut, trimmed) =
              cut_last-Trimmed tp shorter v h (shorter-IsReplayed tp v)
                (MovedTo-refl shorter (omega (arith, last tp, ltb_false→le _ _ before))) in
            (d, tp', rw (some_diffs, before) cut, trimmed)
      ]

  -- A diff that fits the tickets that are live at the tip keeps a pool valid when it is appended.
  pub append-IsValid :
      (tp : TicketPool S) (d : PoolDiff)
      → IsValid tp
      → Fits (replay none_live tp.diffs) d
      → IsValid (append d tp)
  unfolding append
  append-IsValid tp d v f = record {
    tip_length = omega (arith, v.tip_length, length-append tp.diffs (d ∷ []));
    replayed = record {
      within = omega (arith, v.within, length-append tp.diffs (d ∷ []));
      distinct = v.distinct;
      consistent = IsConsistent-append none_live tp.diffs d v.consistent f;
      holds = λ h. rw (take-append tp.cursor tp.diffs (d ∷ []) v.within) (v.holds h);
    };
  }

  -- Trim takes back an append: where the new diff fits the tickets that are live at the tip, it returns
  -- that diff, and the tip and the diffs are those from before. The cursor is drawn back to the last of
  -- them, at most.
  pub trim-append :
      (tp : TicketPool S) (d : PoolDiff)
      → IsValid tp
      → Fits (replay none_live tp.diffs) d
      → (tp' : TicketPool S) × (trim (append d tp) ≡ (ok (tp.tip, d), tp'))
        × IsValid tp'
        × (tp'.diffs ≡ tp.diffs)
        × (tp'.cursor ≡ min tp.cursor (tp.tip - 1))
  unfolding append
  trim-append tp d v f =
      let (last_diff, tp', trimmed, t) =
        trim_correct (append d tp) (append-IsValid tp d v f) (omega arith) in
      let (same_diffs, same_last) = append_inj tp'.diffs tp.diffs last_diff d t.diffs in
      let back : tp.tip + 1 - 1 ≡ tp.tip = omega arith in
      (
        tp',
        trimmed ∙ ap₂ (λ n (e : PoolDiff). (ok (n, e), tp')) back same_last,
        t.valid,
        same_diffs,
        t.cursor ∙ omega arith,
      )
