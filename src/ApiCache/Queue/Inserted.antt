-- ===== src/ApiCache/Queue/Inserted.antt =====
-- Insert, RemoveIndex and Reheap of BlockPriorityQueue (v4/api/types/apicache.go).
use hc_data.Base.{
  ℕ, suc, ◌≤◌, ◌<◌, ◌≡◌, ap, ◌∙◌, Bool, true, false, Option, none, some, arith, leb, ◌==◌, length,
  get_elem?, get_elem?-lt,
}
use hc_data.Base.Int.{ℤ, pos}
use hc_data.Base.HashSet.{Hash}
use hc_data.ApiCache.{Summary, CachedBlock}
use hc_data.ApiCache.Heap.{Heap}
use hc_data.ApiCache.Heap.Kept.{Gives, gives, Gives-bind, Gives-if, IsRearranged}
use hc_data.ApiCache.Heap.Kept.Moves.{init-Gives}
use hc_data.ApiCache.Heap.Kept.Ends.{IsRemoved, remove-Gives}
use hc_data.ApiCache.Queue.{
  Clock, BlockPriorityQueue, update_min_max, remove_index, remove_at, reheap, insert, replace_top,
  mark_access,
}
use hc_data.ApiCache.Queue.Heights.{
  is_outside, IsWithin, update_min_max-IsWidened, rescan_for_remove-fixed, tally-wider,
}
use hc_data.ApiCache.Queue.Moved.{
  IsOrderly, IsAdded, IsReplaced, push_correct, update_block_correct,
}

-- The block that Insert would put in the place of the top
abbrev pub candidate : ℤ → Summary → CachedBlock
candidate now s = record { summary = s; accesses = 1; access_time = now; heap_idx = pos 0 }

-- What Insert may return: it refuses a block where the capacity is 0 and where the queue is full and its top
-- is not less than the block; a full queue replaces a top that is less; else the block is added.
pub data Inserted (parse : ℕ → Option Hash) (now : ℤ) (s : Summary) (q : BlockPriorityQueue)
    : BlockPriorityQueue × Bool × Option Hash → Type 0 where
  none_wanted : q.capacity ≡ 0 → Inserted parse now s q (q, false, none)
  too_low :
      (top : CachedBlock)
      → q.capacity ≤ length q.bh
      → get_elem? q.bh 0 ≡ some top
      → q.less_fn top (candidate now s) ≡ false
      → Inserted parse now s q (q, false, none)
  replaced :
      (top : CachedBlock) (q' : BlockPriorityQueue)
      → q.capacity ≤ length q.bh
      → get_elem? q.bh 0 ≡ some top
      → q.less_fn top (candidate now s) ≡ true
      → IsReplaced top.summary s q q'
      → Inserted parse now s q (q', true, parse top.summary.hash)
  added :
      (q' : BlockPriorityQueue)
      → length q.bh < q.capacity
      → IsAdded s q q'
      → Inserted parse now s q (q', true, none)

mark_access-IsReplaced :
    {old s : Summary} {q : BlockPriorityQueue} (now : ℤ) (o : Option Hash) (q' : BlockPriorityQueue)
    → IsReplaced old s q q'
    → IsReplaced old s q (mark_access now o q')
mark_access-IsReplaced now none q' r = r
mark_access-IsReplaced now (some h) q' r = record {
  orderly = record { placed = r.orderly.placed; within = r.orderly.within };
  same_capacity = r.same_capacity;
  same_length = r.same_length;
  counted = r.counted;
}

update-IsAdded :
    {s : Summary} {q : BlockPriorityQueue} (now : ℤ) (q' : BlockPriorityQueue)
    → IsAdded s q q'
    → IsAdded s q (record (update_min_max s.height q') { last_access = now })
unfolding update_min_max
update-IsAdded {s} {q} now q' a =
    let wider = (update_min_max-IsWidened s.height q').wider in
    record {
      orderly = record {
        placed = a.orderly.placed;
        within = tally-wider q' (update_min_max s.height q') q'.bh wider a.orderly.within;
      };
      same_capacity = a.same_capacity;
      longer = a.longer;
      counted = a.counted;
    }

module _ (parse : ℕ → Option Hash) where
  replace_top-Inserted :
      (clock : Clock) (s : Summary) (q : BlockPriorityQueue) (top : CachedBlock)
      → IsOrderly q
      → q.capacity ≤ length q.bh
      → get_elem? q.bh 0 ≡ some top
      → Gives (Inserted parse (clock 0) s q) (replace_top parse clock s q (some top))
  unfolding replace_top
  replace_top-Inserted clock s q top h full e =
      Gives-if (q.less_fn top (candidate (clock 0) s))
        (λ less. Gives-bind (update_block_correct (λ k. clock (suc k)) 0 top s q h e) λ q' r.
          gives (
            replaced top (mark_access (clock 2) (parse top.summary.hash) q') full e less
              (mark_access-IsReplaced (clock 2) (parse top.summary.hash) q' r)))
        (λ not_less. gives (too_low top full e not_less))

  -- Insert of an orderly queue ends: it refuses the block, replaces the top or adds the block.
  pub insert_correct :
      (clock : Clock) (s : Summary) (q : BlockPriorityQueue)
      → IsOrderly q
      → Gives (Inserted parse (clock 0) s q) (insert parse clock s q)
  unfolding insert
  insert_correct clock s q h =
      Gives-if (q.capacity == 0) (λ zero_capacity. gives (none_wanted (ground arith)))
        (λ positive.
          Gives-if (leb q.capacity (length q.bh))
            (λ full.
              let (top, e) = get_elem?-lt q.bh 0 (ground arith) in
              rw e (replace_top-Inserted clock s q top h (ground arith) e))
            (λ room. Gives-bind (push_correct clock s q h) λ q' r. gives (
              added (record (update_min_max s.height q') { last_access = clock 1 }) (ground arith)
                (update-IsAdded (clock 1) q' r))))

-- What is left after a block was taken out is in the range.
remaining-IsWithin :
    (q : BlockPriorityQueue) (b : Summary) (bh : Heap)
    → IsWithin q
    → IsRemoved b q.bh bh
    → IsWithin (record q { bh = bh })
remaining-IsWithin q b bh h r = omega (arith, r.counted (is_outside q))

-- RemoveIndex of an orderly queue takes out the block at the index and leaves an orderly queue, whose range
-- of heights is the old one even where the block was the only one at its end.
pub remove_index_correct :
    (i : ℕ) (b : CachedBlock) (q : BlockPriorityQueue)
    → IsOrderly q
    → get_elem? q.bh i ≡ some b
    → (bh : Heap) × IsRemoved b.summary q.bh bh
      × (remove_index i q ≡ some (record q { bh = bh }))
      × IsOrderly (record q { bh = bh })
unfolding remove_index remove_at
remove_index_correct i b q h e =
    let (bh, ended, r) = remove-Gives q.less_fn i b q.bh e in
    let within = remaining-IsWithin q b.summary bh h.within r in
    (
      bh,
      r,
      rw (e, ended)
          (ap some (rescan_for_remove-fixed b.summary.height (record q { bh = bh }) within)),
      record { placed = r.placed h.placed; within = within },
    )

-- Reheap of an orderly queue ends, with the same blocks in an orderly queue.
pub reheap_correct :
    (q : BlockPriorityQueue)
    → IsOrderly q
    → (bh : Heap) × IsRearranged (length q.bh) q.bh bh
      × (reheap q ≡ some (record q { bh = bh; needs_reheap = false }))
      × IsOrderly (record q { bh = bh; needs_reheap = false })
unfolding reheap
reheap_correct q h =
    let (bh, ended, r) = init-Gives q.less_fn q.bh in
    (
      bh,
      r,
      rw ended,
      record { placed = r.keeps_placed h.placed; within = r.same_tally (is_outside q) ∙ h.within },
    )
