-- ===== src/StakeDb/TicketPool/Walk.antt =====
-- The loops of v4/stakedb/ticketpool.go that walk the cursor: Pool, AdvanceToTip and retreatTo.
use Prim.Native.Nat.{min, max}
use hc_data.Base.{
  ℕ, zero, suc, ◌+◌, ◌-◌, ◌≡◌, ◌≤◌, ◌<◌, refl, sym, ap, ◌∙◌, Bool-cases, inl, inr, true, false,
  arith, ltb, ltb→lt, ltb_false→le, le→ltb_false, length,
}
use hc_data.Base.Int.{pos, negsuc, ◌-ℤ◌, ltb_ℤ}
use hc_data.Base.Exec.{Outcome, ok, err}
use hc_data.Base.HashSet.{Hash, contains, IsDistinct}
use hc_data.StakeDb.TicketPool.{
  TicketPool, PoolError, retreat, advance_loop, advance_while, retreat_loop, retreat_while,
  advance_to, advance_to_tip, retreat_to, pool_at, cursor_at_genesis,
}
use hc_data.StakeDb.TicketPool.Step.{
  live_at, IsReplayed, IsValid, MovedTo, advance_correct, retreat_correct,
}

no_less : (n : ℕ) → ltb n 0 ≡ false
no_less n = ground arith

module _ {S : Type 0} where
  pub MovedTo-trans :
      {m n : ℕ} {a b c : TicketPool S} → MovedTo m a b → MovedTo n b c → MovedTo n a c
  MovedTo-trans p q = record {
    cursor = q.cursor;
    tip = q.tip ∙ p.tip;
    diffs = q.diffs ∙ p.diffs;
    diff_db = q.diff_db ∙ p.diff_db;
  }

  pub MovedTo-refl : {n : ℕ} (a : TicketPool S) → a.cursor ≡ n → MovedTo n a a
  MovedTo-refl a e = record { cursor = e; tip = refl; diffs = refl; diff_db = refl }

  pub MovedTo-eq : {m n : ℕ} {a b : TicketPool S} → m ≡ n → MovedTo m a b → MovedTo n a b
  MovedTo-eq e p = record {
    cursor = p.cursor ∙ e;
    tip = p.tip;
    diffs = p.diffs;
    diff_db = p.diff_db;
  }

  -- `run` returns without error, in a replayed state where only the cursor, now at `n`, and the pool differ.
  abbrev pub Walks : ℕ → TicketPool S → Outcome PoolError (Unit {0}) × TicketPool S → Type 0
  Walks n tp run = (tp' : TicketPool S) × (run ≡ (ok tt, tp')) × IsReplayed tp' × MovedTo n tp tp'

  advance_loop-Walks :
      (fuel height : ℕ) (tp : TicketPool S)
      → IsReplayed tp
      → tp.tip ≤ length tp.diffs
      → height ≤ tp.tip
      → tp.tip - tp.cursor < fuel
      → Walks (max tp.cursor height) tp (advance_loop fuel (pos height) tp)
  unfolding advance_loop
  advance_loop-Walks zero height tp v r h f = elim f [ ]
  advance_loop-Walks (suc fuel) height tp v r h f =
      elim (Bool-cases (ltb_ℤ (pos tp.cursor) (pos height))) [
        | inl below ↦
            let lower : tp.cursor < height = ground arith in
            let (tp1, stepped, v1, m1) = advance_correct tp v (omega arith) r in
            let (tp2, walked, v2, m2) =
              advance_loop-Walks fuel height tp1 v1 (rw (m1.tip, m1.diffs) r)
                (omega (arith, m1.tip)) (omega (arith, m1.tip, m1.cursor)) in
            (
              tp2,
              rw (below, stepped) walked,
              v2,
              MovedTo-eq (omega (arith, m1.cursor)) (MovedTo-trans m1 m2),
            )
        | inr there ↦ (tp, rw there, v, MovedTo-refl tp (ground arith))
      ]

  retreat_loop-Walks :
      (fuel height : ℕ) (tp : TicketPool S)
      → IsReplayed tp
      → tp.cursor < fuel
      → Walks (min tp.cursor height) tp (retreat_loop fuel (pos height) tp)
  unfolding retreat_loop
  retreat_loop-Walks zero height tp v f = elim f [ ]
  retreat_loop-Walks (suc fuel) height tp v f =
      elim (Bool-cases (ltb_ℤ (pos height) (pos tp.cursor))) [
        | inl above ↦
            let higher : height < tp.cursor = ground arith in
            let (tp1, stepped, v1, m1) = retreat_correct tp v (omega arith) in
            let (tp2, walked, v2, m2) =
              retreat_loop-Walks fuel height tp1 v1 (omega (arith, m1.cursor)) in
            (
              tp2,
              rw (above, stepped) walked,
              v2,
              MovedTo-eq (omega (arith, m1.cursor)) (MovedTo-trans m1 m2),
            )
        | inr there ↦ (tp, rw there, v, MovedTo-refl tp (ground arith))
      ]

  -- At a negative height the loop undoes every diff, and then reports that it cannot go on.
  retreat_loop-negsuc :
      (fuel n : ℕ) (tp : TicketPool S)
      → IsReplayed tp
      → tp.cursor < fuel
      → (tp' : TicketPool S) × (retreat_loop fuel (negsuc n) tp ≡ (err cursor_at_genesis, tp'))
        × IsReplayed tp'
        × MovedTo 0 tp tp'
  unfolding retreat_loop
  retreat_loop-negsuc zero n tp v f = elim f [ ]
  retreat_loop-negsuc (suc fuel) n tp v f = elim (Bool-cases (ltb 0 tp.cursor)) [
    | inl above ↦
        let (tp1, stepped, v1, m1) = retreat_correct tp v (ltb→lt _ _ above) in
        let (tp2, walked, v2, m2) =
          retreat_loop-negsuc fuel n tp1 v1 (omega (arith, ltb→lt _ _ above, m1.cursor)) in
        (tp2, rw (negative tp.cursor, stepped) walked, v2, MovedTo-trans m1 m2)
    | inr there ↦
        let none_left : tp.cursor ≡ 0 = omega (arith, ltb_false→le _ _ there) in
        let refused : retreat tp ≡ (err cursor_at_genesis, tp) = unfold retreat in ground arith in
        (tp, rw (negative tp.cursor, refused), v, MovedTo-refl tp none_left)
  ]
    where
      negative : (c : ℕ) → ltb_ℤ (negsuc n) (pos c) ≡ true
      negative c = ground arith

  pub advance_while-Walks :
      (height : ℕ) (tp : TicketPool S)
      → IsValid tp
      → height ≤ tp.tip
      → Walks (max tp.cursor height) tp (advance_while (pos height) tp)
  unfolding advance_while
  advance_while-Walks height tp v h =
      advance_loop-Walks (tp.tip + 1) height tp v.replayed (omega (arith, v.tip_length)) h
        (omega arith)

  pub retreat_while-Walks :
      (height : ℕ) (tp : TicketPool S)
      → IsReplayed tp
      → Walks (min tp.cursor height) tp (retreat_while (pos height) tp)
  unfolding retreat_while
  retreat_while-Walks height tp v = retreat_loop-Walks (tp.cursor + 1) height tp v (omega arith)

  -- retreatTo at a height up to the tip.
  pub retreat_to-Walks :
      (height : ℕ) (tp : TicketPool S)
      → IsReplayed tp
      → height ≤ tp.tip
      → Walks (min tp.cursor height) tp (retreat_to (pos height) tp)
  unfolding retreat_to
  retreat_to-Walks height tp v h =
      let (tp', down, r, m) = retreat_while-Walks height tp v in
      (
        tp',
        rw (no_less (height + 0), le→ltb_false (tp.tip + 0) (height + 0) (omega arith), down),
        r,
        m,
      )

  -- A walk keeps the tip and the diffs.
  pub MovedTo-IsValid :
      {n : ℕ} {tp tp' : TicketPool S} → MovedTo n tp tp' → IsValid tp → IsReplayed tp' → IsValid tp'
  MovedTo-IsValid m v r = record {
    tip_length = m.tip ∙ v.tip_length ∙ ap length (sym m.diffs);
    replayed = r;
  }

  -- From a valid state, Pool at a connected height ends without error. It returns exactly the tickets
  -- that the diffs up to the height leave live, each once, and moves the cursor there; diffs, tip and
  -- database stay.
  pub pool_at_correct :
      (height : ℕ) (tp : TicketPool S)
      → IsValid tp
      → height ≤ tp.tip
      → (tp' : TicketPool S) × (pool_at (pos height) tp ≡ (ok tp'.pool, tp'))
        × IsValid tp'
        × MovedTo height tp tp'
        × IsDistinct tp'.pool
        × ((h : Hash) → contains tp'.pool h ≡ live_at height tp.diffs h)
  unfolding pool_at
  pool_at_correct height tp v h =
      let (tp1, up, v1, m1) = advance_while-Walks height tp v h in
      let (tp2, down, v2, m2) = retreat_while-Walks height tp1 v1 in
      let m : MovedTo height tp tp2 = MovedTo-eq (omega (arith, m1.cursor)) (MovedTo-trans m1 m2) in
      (
        tp2,
        rw (le→ltb_false (tp.tip + 0) (height + 0) (omega arith), up, down),
        MovedTo-IsValid m v v2,
        m,
        v2.distinct,
        λ a. rw (v2.holds a, m.cursor, m.diffs),
      )

  advance_while-negsuc : (n : ℕ) (tp : TicketPool S) → advance_while (negsuc n) tp ≡ (ok tt, tp)
  unfolding advance_while advance_loop
  advance_while-negsuc n tp =
      let more : tp.tip + 1 ≡ suc tp.tip = omega arith in rw (more, no_less (tp.cursor + suc n))

  -- At a negative height, which it does not refuse, Pool on a valid state undoes every diff and then returns
  -- the error of the cursor at genesis: the state that it leaves is valid, with the cursor at 0.
  pub pool_at-err :
      (height : ℕ) (tp : TicketPool S)
      → IsValid tp
      → (tp' : TicketPool S) × (pool_at (negsuc height) tp ≡ (err cursor_at_genesis, tp'))
        × IsValid tp'
        × MovedTo 0 tp tp'
  unfolding pool_at retreat_while
  pool_at-err height tp v =
      let (tp', down, r, m) =
        retreat_loop-negsuc (tp.cursor + 1) height tp v.replayed (omega arith) in
      (
        tp',
        rw (no_less (tp.tip + suc height), advance_while-negsuc height tp, down),
        MovedTo-IsValid m v r,
        m,
      )

  -- AdvanceToTip from a valid state applies every diff that is left and ends without error; it returns
  -- the tip less one.
  pub advance_to_tip_correct :
      (tp : TicketPool S)
      → IsValid tp
      → (tp' : TicketPool S) × (advance_to_tip tp ≡ ((pos tp.tip -ℤ pos 1, ok tt), tp'))
        × IsValid tp'
        × MovedTo tp.tip tp tp'
  unfolding advance_to_tip advance_to
  advance_to_tip_correct tp v =
      let (tp', up, r, m) = advance_while-Walks tp.tip tp v (omega arith) in
      let here : MovedTo tp.tip tp tp' = MovedTo-eq (omega (arith, v.within, v.tip_length)) m in
      (
        tp',
        rw (le→ltb_false (tp.tip + 0) (tp.tip + 0) (omega arith), up, here.cursor),
        MovedTo-IsValid m v r,
        here,
      )
