-- ===== src/ApiCache/Queue/Heights.antt =====
-- The range of heights that a BlockPriorityQueue of v4/api/types/apicache.go keeps.
use hc_data.Base.{
  ℕ, ◌≡◌, refl, ap, ◌∙◌, Bool, true, false, Bool-cases, inl, inr, ◌||◌, [], ◌∷◌, arith,
}
use hc_data.Base.Int.{pos, ltb_ℤ, beq_ℤ}
use hc_data.ApiCache.{Summary}
use hc_data.ApiCache.Heap.{Heap}
use hc_data.ApiCache.Heap.Kept.{tally}
use hc_data.ApiCache.Queue.{
  BlockPriorityQueue, may_narrow, rescan_if, update_min_max, update_all, rescan_min_max,
  rescan_min_max_for_remove, rescan_min_max_for_update,
}

-- Is the height of the summary outside the range that the queue keeps?
abbrev pub is_outside : BlockPriorityQueue → Summary → Bool
is_outside q s = ltb_ℤ (pos s.height) q.min_height || ltb_ℤ q.max_height (pos s.height)

-- No block of the queue is outside its range.
abbrev pub IsWithin : BlockPriorityQueue → Type 0
IsWithin q = tally (is_outside q) q.bh ≡ 0

-- The same queue but for its range, in which everything stands that stood in it before
pub record IsWidened (q q' : BlockPriorityQueue) : Type 0 where
  pub same_bh : q'.bh ≡ q.bh
  pub same_capacity : q'.capacity ≡ q.capacity
  pub wider : (s : Summary) → is_outside q s ≡ false → is_outside q' s ≡ false

IsWidened-refl : (q : BlockPriorityQueue) → IsWidened q q
IsWidened-refl q = record { same_bh = refl; same_capacity = refl; wider = λ s h. h }

IsWidened-trans :
    {q q' q'' : BlockPriorityQueue} → IsWidened q q' → IsWidened q' q'' → IsWidened q q''
IsWidened-trans v w = record {
  same_bh = w.same_bh ∙ v.same_bh;
  same_capacity = w.same_capacity ∙ v.same_capacity;
  wider = λ s h. w.wider s (v.wider s h);
}

pub update_min_max-IsWidened : (h : ℕ) (q : BlockPriorityQueue) → IsWidened q (update_min_max h q)
unfolding update_min_max
update_min_max-IsWidened h q = record {
  same_bh = refl;
  same_capacity = refl;
  wider = λ s e. ground arith;
}

-- The height itself is in the range afterwards.
pub update_min_max-covers :
    (s : Summary) (q : BlockPriorityQueue) → is_outside (update_min_max s.height q) s ≡ false
unfolding update_min_max
update_min_max-covers s q = ground arith

update_all-IsWidened : (bs : Heap) (q : BlockPriorityQueue) → IsWidened q (update_all bs q)
unfolding update_all
update_all-IsWidened [] q = IsWidened-refl q
update_all-IsWidened (b ∷ bs) q =
    IsWidened-trans (update_min_max-IsWidened b.summary.height q)
      (update_all-IsWidened bs (update_min_max b.summary.height q))

rescan_if-IsWidened : (b : Bool) (q : BlockPriorityQueue) → IsWidened q (rescan_if b q)
unfolding rescan_min_max
rescan_if-IsWidened true q = update_all-IsWidened q.bh q
rescan_if-IsWidened false q = IsWidened-refl q

pub rescan_for_update-IsWidened :
    (a r : ℕ) (q : BlockPriorityQueue) → IsWidened q (rescan_min_max_for_update a r q)
unfolding rescan_min_max_for_update
rescan_for_update-IsWidened a r q =
    IsWidened-trans (rescan_if-IsWidened (may_narrow a r q) q)
      (update_min_max-IsWidened a (rescan_if (may_narrow a r q) q))

pub rescan_for_update-covers :
    (s : Summary) (r : ℕ) (q : BlockPriorityQueue)
    → is_outside (rescan_min_max_for_update s.height r q) s ≡ false
unfolding rescan_min_max_for_update
rescan_for_update-covers s r q = update_min_max-covers s (rescan_if (may_narrow s.height r q) q)

-- A height in the range changes nothing.
update_min_max-fixed :
    (s : Summary) (q : BlockPriorityQueue) → is_outside q s ≡ false → update_min_max s.height q ≡ q
unfolding update_min_max
update_min_max-fixed s q h =
    let low : ltb_ℤ (pos s.height) q.min_height ≡ false = ground arith in
    let high : ltb_ℤ q.max_height (pos s.height) ≡ false = ground arith in rw (low, high)

update_all-fixed :
    (bs : Heap) (q : BlockPriorityQueue) → tally (is_outside q) bs ≡ 0 → update_all bs q ≡ q
unfolding update_all tally
update_all-fixed [] q h = refl
update_all-fixed (b ∷ bs) q h = elim (Bool-cases (is_outside q b.summary)) [
  | inl out ↦ absurd (ground (arith, out, h))
  | inr within ↦
      let rest : tally (is_outside q) bs ≡ 0 = omega arith in
      ap (update_all bs) (update_min_max-fixed b.summary q within) ∙ update_all-fixed bs q rest
]

-- A rescan of a queue whose blocks are in its range changes nothing.
pub rescan_min_max-fixed : (q : BlockPriorityQueue) → IsWithin q → rescan_min_max q ≡ q
unfolding rescan_min_max
rescan_min_max-fixed q h = update_all-fixed q.bh q h

pub rescan_for_remove-fixed :
    (r : ℕ) (q : BlockPriorityQueue) → IsWithin q → rescan_min_max_for_remove r q ≡ q
unfolding rescan_min_max_for_remove
rescan_for_remove-fixed r q h =
    elim (Bool-cases (beq_ℤ (pos r) q.min_height || beq_ℤ (pos r) q.max_height)) [
      | inl scanned ↦ rw scanned (rescan_min_max-fixed q h)
      | inr skipped ↦ rw skipped
    ]

-- Nothing is outside a range: the count of a wider range is zero too.
pub tally-wider :
    (q q' : BlockPriorityQueue) (bh : Heap)
    → ((s : Summary) → is_outside q s ≡ false → is_outside q' s ≡ false)
    → tally (is_outside q) bh ≡ 0
    → tally (is_outside q') bh ≡ 0
unfolding tally
tally-wider q q' [] w h = refl
tally-wider q q' (b ∷ bh) w h = elim (Bool-cases (is_outside q b.summary)) [
  | inl out ↦ absurd (ground (arith, out, h))
  | inr within ↦
      let rest : tally (is_outside q) bh ≡ 0 = omega arith in
      let rest' : tally (is_outside q') bh ≡ 0 = tally-wider q q' bh w rest in
      ground (arith, w b.summary within, rest')
]
