-- ===== src/StakeDb/TicketPool/Persist.antt =====
-- The on-disk diffs of v4/stakedb/ticketpool.go against the diffs in memory, and what a new TicketPool
-- loads.
use native.Mathlib.Nat.{zero-add}
use hc_data.Base.{
  ℕ, zero, suc, ◌+◌, ◌≡◌, ◌≢◌, ◌≤◌, ◌<◌, refl, sym, ap, ap₂, ◌∙◌, true, false, Bool-cases, inl, inr,
  List, [], ◌∷◌, ◌++◌, none, some, arith, ltb, ◌==◌, length, take, map, take-all, length-append,
  take-append, take-take, ==_refl,
}
use hc_data.Base.Int.{ℤ, pos, beq_ℤ, beq_ℤ_iff}
use hc_data.Base.Exec.{ok, err, panic}
use hc_data.StakeDb.DiffDb.{PoolDiff, DiffDb, upsert}
use hc_data.StakeDb.TicketPool.{trim, TicketPool, not_building, store_failed, append}
use hc_data.StakeDb.TicketPool.Disk.{follow_on, end_height, append_diff, new_ticket_pool}
use hc_data.StakeDb.TicketPool.Step.{IsValid}
use hc_data.StakeDb.TicketPool.Trim.{Trimmed, trim_correct}

-- The diffs as items, at the heights that follow `last`.
abbrev pub numbered : ℕ → List PoolDiff → List (ℕ × PoolDiff)
numbered last [] = []
numbered last (d ∷ ds) = (last + 1, d) ∷ numbered (last + 1) ds

-- The list with its entry at `n` replaced, or with one more entry.
abbrev pub put : ℕ → PoolDiff → List PoolDiff → List PoolDiff
put n d [] = d ∷ []
put zero d (e ∷ ds) = d ∷ ds
put (suc n) d (e ∷ ds) = e ∷ put n d ds

upsert-numbered :
    (last n : ℕ) (d : PoolDiff) (ds : List PoolDiff)
    → n ≤ length ds
    → upsert (last + 1 + n) d (numbered last ds) ≡ numbered last (put n d ds)
unfolding upsert
upsert-numbered last zero d [] h = ground arith
upsert-numbered last (suc n) d [] h = absurd (omega arith)
upsert-numbered last zero d (e ∷ ds) h = ground arith
upsert-numbered last (suc n) d (e ∷ ds) h =
    let shift : last + 1 + suc n ≡ last + 1 + 1 + n = omega arith in
    let not_less : ltb (last + 1 + suc n) (last + 1) ≡ false = ground arith in
    let not_same : (last + 1 + suc n == last + 1) ≡ false = ground arith in
    rw (not_less, not_same)
      (ap (◌∷◌ (last + 1, e)) (
        ap (λ t. upsert t d (numbered (last + 1) ds)) shift
        ∙ upsert-numbered (last + 1) n d ds (omega arith)))

take-put :
    (n : ℕ) (d : PoolDiff) (ds : List PoolDiff)
    → n ≤ length ds
    → take (suc n) (put n d ds) ≡ take n ds ++ d ∷ []
take-put zero d [] h = refl
take-put (suc n) d [] h = absurd (omega arith)
take-put zero d (e ∷ ds) h = refl
take-put (suc n) d (e ∷ ds) h = ap (◌∷◌ e) (take-put n d ds (omega arith))

length-put : (n : ℕ) (d : PoolDiff) (ds : List PoolDiff) → n ≤ length ds → n < length (put n d ds)
length-put zero d [] h = omega arith
length-put (suc n) d [] h = absurd (omega arith)
length-put zero d (e ∷ ds) h = omega arith
length-put (suc n) d (e ∷ ds) h = omega (arith, length-put n d ds)

follow_on-numbered : (last : ℕ) (ds : List PoolDiff) → follow_on last (numbered last ds) ≡ ok tt
unfolding follow_on
follow_on-numbered last [] = refl
follow_on-numbered last (d ∷ ds) = rw (==_refl (last + 1)) (follow_on-numbered (last + 1) ds)

end_height-numbered :
    (last : ℕ) (ds : List PoolDiff) → end_height last (numbered last ds) ≡ last + length ds
end_height-numbered last [] = omega arith
end_height-numbered last (d ∷ ds) = end_height-numbered (last + 1) ds ∙ omega arith

length-numbered : (last : ℕ) (ds : List PoolDiff) → length (numbered last ds) ≡ length ds
length-numbered last [] = refl
length-numbered last (d ∷ ds) = ap suc (length-numbered (last + 1) ds)

map-numbered : (last : ℕ) (ds : List PoolDiff) → map (λ (_, d). d) (numbered last ds) ≡ ds
map-numbered last [] = refl
map-numbered last (d ∷ ds) = ap (◌∷◌ d) (map-numbered (last + 1) ds)

-- A diff written one height too far: the walk over the items panics.
follow_on_gap :
    (last h : ℕ) (d : PoolDiff) (ds : List PoolDiff)
    → h ≡ last + length ds + 1 + 1
    → follow_on last (upsert h d (numbered last ds)) ≡ panic
unfolding follow_on upsert
follow_on_gap last h d [] e = ground arith
follow_on_gap last h d (x ∷ ds) e =
    let not_less : ltb h (last + 1) ≡ false = ground arith in
    let not_same : (h == last + 1) ≡ false = ground arith in
    rw (not_less, not_same, ==_refl (last + 1)) (follow_on_gap (last + 1) h d ds (omega arith))

module _ (D : DiffDb) where
  open D use {State, items, readable, set, items-set}

  -- The disk holds `stored` at the heights from 1 on, and the diffs in memory are the first of these: a
  -- trim leaves the others on disk.
  pub record IsStored (tp : TicketPool State) (stored : List PoolDiff) : Type 0 where
    pub on_disk : items tp.diff_db ≡ numbered 0 stored
    pub first : take tp.tip stored ≡ tp.diffs
    pub reach : tp.tip ≤ length stored

  -- What Append does on every branch. A height that does not follow the tip is refused and changes nothing.
  -- At the height that follows, the diff is appended in memory; where the write fails its error is
  -- returned beside the longer state, and where it succeeds the disk is the written one.
  pub append_diff_correct :
      (d : PoolDiff) (height : ℤ) (tp : TicketPool State)
      → (height ≢ pos (tp.tip + 1)
          → append_diff D d height tp ≡ (err (not_building height tp.tip), tp))
        × (height ≡ pos (tp.tip + 1)
            → set tp.diff_db (tp.tip + 1) d ≡ none
            → append_diff D d height tp ≡ (err store_failed, append d tp))
        × ((db : State)
            → height ≡ pos (tp.tip + 1)
            → set tp.diff_db (tp.tip + 1) d ≡ some db
            → append_diff D d height tp ≡ (ok tt, record (append d tp) { diff_db = db }))
  unfolding append_diff
  append_diff_correct d height tp = (
    λ other. elim (Bool-cases (beq_ℤ height (pos (tp.tip + 1)))) [
      | inl same ↦ absurd (other ((beq_ℤ_iff height (pos (tp.tip + 1))).0 same))
      | inr differ ↦ rw differ
    ],
    λ e failed. rw (e, ==_refl (tp.tip + 1 + 0), failed),
    λ db e written. rw (e, ==_refl (tp.tip + 1 + 0), written),
  )

  written-IsStored :
      (d : PoolDiff) (tp : TicketPool State) (db : State) (stored : List PoolDiff)
      → IsStored tp stored
      → set tp.diff_db (tp.tip + 1) d ≡ some db
      → IsStored (record (append d tp) { diff_db = db }) (put tp.tip d stored)
  unfolding append
  written-IsStored d tp db stored s written = record {
    on_disk =
        let order : tp.tip + 1 ≡ 0 + 1 + tp.tip = omega arith in
        items-set tp.diff_db (tp.tip + 1) d db written
        ∙ ap₂ (λ h its. upsert h d its) order s.on_disk
        ∙ upsert-numbered 0 tp.tip d stored s.reach;
    first =
        let next : tp.tip + 1 ≡ suc tp.tip = omega arith in
        rw (next, take-put tp.tip d stored s.reach)
          (ap (λ (ds : List PoolDiff). ds ++ d ∷ []) s.first);
    reach = omega (arith, length-put tp.tip d stored s.reach);
  }

  -- Append at the next height with a successful write ends without error, and the diffs in memory, with
  -- the new one, are on disk again.
  pub append_diff-IsStored :
      (d : PoolDiff) (tp : TicketPool State) (db : State) (stored : List PoolDiff)
      → IsStored tp stored
      → set tp.diff_db (tp.tip + 1) d ≡ some db
      → (append_diff D d (pos (tp.tip + 1)) tp ≡ (ok tt, record (append d tp) { diff_db = db }))
        × IsStored (append_diff D d (pos (tp.tip + 1)) tp).1 (put tp.tip d stored)
  append_diff-IsStored d tp db stored s written =
      let run = (append_diff_correct d (pos (tp.tip + 1)) tp).2 db refl written in
      (run, rw run (written-IsStored d tp db stored s written))

  Trimmed-IsStored :
      (tp tp' : TicketPool State) (d : PoolDiff) (stored : List PoolDiff)
      → IsStored tp stored
      → Trimmed tp d tp'
      → IsStored tp' stored
  Trimmed-IsStored tp tp' d stored s t =
      let size = length-append tp'.diffs (d ∷ []) in
      let shorter : tp'.tip ≤ tp.tip = omega (arith, t.tip) in
      let same : take tp'.tip stored ≡ take tp'.tip tp.diffs =
        sym (take-take tp'.tip tp.tip stored shorter) ∙ ap (take tp'.tip) s.first in
      record {
        on_disk = rw t.diff_db s.on_disk;
        first =
            same
            ∙ ap (take tp'.tip) (sym t.diffs)
            ∙ take-append tp'.tip tp'.diffs (d ∷ []) (omega (arith, t.valid.tip_length))
            ∙ take-all tp'.tip tp'.diffs (omega (arith, t.valid.tip_length));
        reach = omega (arith, s.reach, t.tip);
      }

  -- A Trim of a valid pool above genesis keeps the diffs in memory on disk: it does not touch the disk.
  pub trim-IsStored :
      (tp : TicketPool State) (stored : List PoolDiff)
      → IsValid tp
      → 0 < tp.tip
      → IsStored tp stored
      → IsStored (trim tp).1 stored
  trim-IsStored tp stored v h s =
      let (d, tp', run, t) = trim_correct tp v h in rw run (Trimmed-IsStored tp tp' d stored s t)

  -- A new ticket pool over the same disk starts with an empty pool at genesis. It has all the diffs that
  -- are on disk, and the first of them, as many as the tip was, are the diffs that were in memory.
  pub new_ticket_pool-IsStored :
      (tp : TicketPool State) (stored : List PoolDiff)
      → IsStored tp stored
      → readable tp.diff_db ≡ true
      → (new_ticket_pool D tp.diff_db
          ≡ ok (record {
            cursor = 0;
            tip = length stored;
            diffs = stored;
            pool = [];
            diff_db = tp.diff_db;
          }))
        × (take tp.tip stored ≡ tp.diffs)
  unfolding new_ticket_pool
  new_ticket_pool-IsStored tp stored s r = (
    rw (
      r,
      s.on_disk,
      follow_on-numbered 0 stored,
      end_height-numbered 0 stored,
      length-numbered 0 stored,
      map-numbered 0 stored,
      zero-add (length stored),
      ==_refl (length stored),
    ),
    s.first,
  )

  -- A failed write is not taken back. From a state whose disk holds just its diffs, an Append that fails
  -- to write leaves the longer state; where a further Append is then written, the disk lacks a height, and
  -- a new ticket pool over that disk panics.
  pub lost_write_panics :
      (d e : PoolDiff) (tp : TicketPool State) (db : State)
      → items tp.diff_db ≡ numbered 0 tp.diffs
      → tp.tip ≡ length tp.diffs
      → set tp.diff_db (tp.tip + 1) d ≡ none
      → set tp.diff_db (tp.tip + 1 + 1) e ≡ some db
      → readable db ≡ true
      → (append_diff D e (pos (tp.tip + 1 + 1)) (append_diff D d (pos (tp.tip + 1)) tp).1
          ≡ (ok tt, record (append e (append d tp)) { diff_db = db }))
        × (new_ticket_pool D db ≡ panic)
  unfolding new_ticket_pool
  lost_write_panics d e tp db on_disk size failed written r = (
    rw ((append_diff_correct d (pos (tp.tip + 1)) tp).1 refl failed) (
        (append_diff_correct e (pos (tp.tip + 1 + 1)) (append d tp)).2 db (unfold append in refl)
          (unfold append in written)),
    rw (
      r,
      items-set tp.diff_db (tp.tip + 1 + 1) e db written,
      on_disk,
      follow_on_gap 0 (tp.tip + 1 + 1) e tp.diffs (omega arith),
    ),
  )
