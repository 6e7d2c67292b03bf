-- ===== src/StakeDb/TicketPool/Step.antt =====
-- advance and retreat of v4/stakedb/ticketpool.go, one step of the cursor each, and what a valid pool is.
use hc_data.Base.{
  ℕ, suc, ◌+◌, ◌-◌, ◌≡◌, ◌≤◌, ◌<◌, refl, ap, ◌∙◌, true, false, List, some, arith, take, get_elem?,
  length, take-suc, get_elem?-lt, ltb, ◌==◌,
}
use hc_data.Base.Int.{pos, ◌+ℤ◌, ◌-ℤ◌, beq_ℤ}
use hc_data.Base.Exec.{ok}
use hc_data.Base.HashSet.{
  Hash, contains, insert_all, erase_all, IsDistinct, contains-insert_all, contains-erase_all,
  IsDistinct-insert_all, IsDistinct-erase_all, length-insert_all, length-erase_all,
}
use hc_data.StakeDb.DiffDb.{PoolDiff}
use hc_data.StakeDb.TicketPool.{TicketPool, max_cursor, advance, retreat}
use hc_data.StakeDb.TicketPool.Replay.{
  Live, none_live, after, replay, Fits, IsConsistent, replay-append, Fits-get_elem?,
}

-- The tickets that are live before the diff at `n`.
abbrev pub live_at : ℕ → List PoolDiff → Live
live_at n ds = replay none_live (take n ds)

-- The pool at the cursor is what the diffs before the cursor make of the empty pool.
pub record IsReplayed {S : Type 0} (tp : TicketPool S) : Type 0 where
  pub within : tp.cursor ≤ length tp.diffs
  pub distinct : IsDistinct tp.pool
  pub consistent : IsConsistent none_live tp.diffs
  pub holds : (h : Hash) → contains tp.pool h ≡ live_at tp.cursor tp.diffs h

-- Besides, the tip is the number of the diffs.
pub record IsValid {S : Type 0} (tp : TicketPool S) : Type 0 where
  pub tip_length : tp.tip ≡ length tp.diffs
  pub replayed : IsReplayed tp
  pub open replayed use *

-- Only the cursor, now at `n`, and the pool are changed.
pub record MovedTo {S : Type 0} (n : ℕ) (tp tp' : TicketPool S) : Type 0 where
  pub cursor : tp'.cursor ≡ n
  pub tip : tp'.tip ≡ tp.tip
  pub diffs : tp'.diffs ≡ tp.diffs
  pub diff_db : tp'.diff_db ≡ tp.diff_db

module _ (live : Live) (d : PoolDiff) (fits : Fits live d) (pool : List Hash)
    (one : IsDistinct pool) where
  -- Where the pool holds the tickets before the diff, applying it gives those after it.
  pub contains-apply :
      ((h : Hash) → contains pool h ≡ live h)
      → (h : Hash)
      → contains (erase_all d.tickets_out (insert_all d.tickets_in pool)) h ≡ after live d h
  contains-apply holds h = rw (contains-erase_all, contains-insert_all, holds h)

  pub length-apply :
      ((h : Hash) → contains pool h ≡ live h)
      → length (erase_all d.tickets_out (insert_all d.tickets_in pool)) + length d.tickets_out
        ≡ length pool + length d.tickets_in
  length-apply holds =
      length-erase_all d.tickets_out (insert_all d.tickets_in pool) fits.out_distinct
        (IsDistinct-insert_all d.tickets_in pool one)
        (λ b p. rw (contains-insert_all, holds b) (fits.out_live b p))
      ∙ length-insert_all d.tickets_in pool fits.in_distinct (λ b p. rw (holds b) (fits.in_new b p))

  -- Where the pool holds the tickets after the diff, undoing it gives those before it.
  pub contains-undo :
      ((h : Hash) → contains pool h ≡ after live d h)
      → (h : Hash) → contains (erase_all d.tickets_in (insert_all d.tickets_out pool)) h ≡ live h
  contains-undo holds h =
      rw (contains-erase_all, contains-insert_all, holds h)
        (ground (arith, fits.in_new h, fits.out_live h))

  pub length-undo :
      ((h : Hash) → contains pool h ≡ after live d h)
      → length (erase_all d.tickets_in (insert_all d.tickets_out pool)) + length d.tickets_in
        ≡ length pool + length d.tickets_out
  length-undo holds =
      length-erase_all d.tickets_in (insert_all d.tickets_out pool) fits.in_distinct
        (IsDistinct-insert_all d.tickets_out pool one)
        (λ b p. rw (contains-insert_all, holds b) (ground (arith, fits.in_new b)))
      ∙ length-insert_all d.tickets_out pool fits.out_distinct (λ b p. rw (holds b) (ground arith))

-- The tests on the sizes pass.
size_test :
    (n pool came left : ℕ)
    → n + left ≡ pool + came
    → beq_ℤ (pos n) (pos pool +ℤ pos came -ℤ pos left) ≡ true
size_test n pool came left h = ground arith

size_test_back :
    (n pool came left : ℕ)
    → n + came ≡ pool + left
    → beq_ℤ (pos n) (pos pool -ℤ pos came +ℤ pos left) ≡ true
size_test_back n pool came left h = ground arith

pub live_at-next :
    (n : ℕ) (ds : List PoolDiff) (d : PoolDiff)
    → get_elem? ds n ≡ some d
    → live_at (n + 1) ds ≡ after (live_at n ds) d
live_at-next n ds d e =
    let next : n + 1 ≡ suc n = omega arith in
    rw (next, take-suc n ds d e) (replay-append none_live (take n ds) d)

module _ {S : Type 0} (tp : TicketPool S) (valid : IsReplayed tp) (d : PoolDiff) where
  abbrev advanced : TicketPool S
  advanced = record tp {
    cursor = tp.cursor + 1;
    pool = erase_all d.tickets_out (insert_all d.tickets_in tp.pool);
  }

  abbrev retreated : TicketPool S
  retreated = record tp {
    cursor = tp.cursor - 1;
    pool = erase_all d.tickets_in (insert_all d.tickets_out tp.pool);
  }

  module _ (at_cursor : get_elem? tp.diffs tp.cursor ≡ some d) (before_tip : tp.cursor < tp.tip)
      (diffs_reach : tp.tip ≤ length tp.diffs) where
    Fits-next : Fits (live_at tp.cursor tp.diffs) d
    Fits-next = Fits-get_elem? none_live tp.diffs tp.cursor d valid.consistent at_cursor

    advance-ok : advance tp ≡ (ok tt, advanced)
    unfolding advance
    advance-ok =
        let not_at_tip : ltb (max_cursor tp) tp.cursor ≡ false =
          unfold max_cursor in ground arith in
        let same_size =
          length-apply (live_at tp.cursor tp.diffs) d Fits-next tp.pool valid.distinct
            valid.holds in
        rw (not_at_tip, at_cursor, size_test _ _ _ _ same_size)

    advanced-IsReplayed : IsReplayed advanced
    advanced-IsReplayed = record {
      within = omega (arith, valid.within);
      distinct =
          IsDistinct-erase_all d.tickets_out _
            (IsDistinct-insert_all d.tickets_in tp.pool valid.distinct);
      consistent = valid.consistent;
      holds = λ h. rw (live_at-next tp.cursor tp.diffs d at_cursor) (
          contains-apply (live_at tp.cursor tp.diffs) d Fits-next tp.pool valid.distinct valid.holds
            h);
    }

  module _ (before_cursor : get_elem? tp.diffs (tp.cursor - 1) ≡ some d)
      (moved : 0 < tp.cursor) where
    Fits-previous : Fits (live_at (tp.cursor - 1) tp.diffs) d
    Fits-previous =
        Fits-get_elem? none_live tp.diffs (tp.cursor - 1) d valid.consistent before_cursor

    holds_after : (h : Hash) → contains tp.pool h ≡ after (live_at (tp.cursor - 1) tp.diffs) d h
    holds_after h =
        let back : tp.cursor - 1 + 1 ≡ tp.cursor = omega arith in
        let next = rw back at (live_at-next (tp.cursor - 1) tp.diffs d before_cursor) in
        valid.holds h ∙ ap (λ (live : Live). live h) next

    retreat-ok : retreat tp ≡ (ok tt, retreated)
    unfolding retreat
    retreat-ok =
        let not_at_genesis : (tp.cursor == 0) ≡ false = ground arith in
        let same_size =
          length-undo (live_at (tp.cursor - 1) tp.diffs) d Fits-previous tp.pool valid.distinct
            holds_after in
        rw (not_at_genesis, before_cursor, size_test_back _ _ _ _ same_size)

    retreated-IsReplayed : IsReplayed retreated
    retreated-IsReplayed = record {
      within = omega (arith, valid.within);
      distinct =
          IsDistinct-erase_all d.tickets_in _
            (IsDistinct-insert_all d.tickets_out tp.pool valid.distinct);
      consistent = valid.consistent;
      holds =
          contains-undo (live_at (tp.cursor - 1) tp.diffs) d Fits-previous tp.pool valid.distinct
            holds_after;
    }

module _ {S : Type 0} (tp : TicketPool S) (valid : IsReplayed tp) where
  -- advance at a cursor before the tip returns without error, and the pool is that of the next height.
  pub advance_correct :
      tp.cursor < tp.tip
      → tp.tip ≤ length tp.diffs
      → (tp' : TicketPool S) × (advance tp ≡ (ok tt, tp'))
        × IsReplayed tp'
        × MovedTo (tp.cursor + 1) tp tp'
  advance_correct h inside =
      let (d, e) = get_elem?-lt tp.diffs tp.cursor (omega arith) in
      (
        advanced tp valid d,
        advance-ok tp valid d e h inside,
        advanced-IsReplayed tp valid d e h inside,
        record { cursor = refl; tip = refl; diffs = refl; diff_db = refl },
      )

  -- retreat at a cursor after genesis returns without error, and the pool is that of the height before.
  pub retreat_correct :
      0 < tp.cursor
      → (tp' : TicketPool S) × (retreat tp ≡ (ok tt, tp'))
        × IsReplayed tp'
        × MovedTo (tp.cursor - 1) tp tp'
  retreat_correct h =
      let inside : tp.cursor - 1 < length tp.diffs = omega (arith, valid.within) in
      let (d, e) = get_elem?-lt tp.diffs (tp.cursor - 1) inside in
      (
        retreated tp valid d,
        retreat-ok tp valid d e h,
        retreated-IsReplayed tp valid d e h,
        record { cursor = refl; tip = refl; diffs = refl; diff_db = refl },
      )
