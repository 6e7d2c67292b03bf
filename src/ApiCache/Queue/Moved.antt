-- ===== src/ApiCache/Queue/Moved.antt =====
-- What the operations of BlockPriorityQueue (v4/api/types/apicache.go) do to the blocks of the queue.
use hc_data.Base.{
  ℕ, ◌+◌, ◌<◌, ◌≡◌, refl, ap, ◌∙◌, Bool, false, some, arith, length, get_elem?, set, length-set,
  get_elem?-some,
}
use hc_data.Base.Int.{pos}
use hc_data.ApiCache.{Summary, CachedBlock}
use hc_data.ApiCache.Heap.{Heap, fix}
use hc_data.ApiCache.Heap.Kept.{Gives, gives, Gives-bind, one, tally, tally-set, IsPlaced}
use hc_data.ApiCache.Heap.Kept.Moves.{fix-Gives, set-IsPlaced}
use hc_data.ApiCache.Heap.Kept.Ends.{push-Gives}
use hc_data.ApiCache.Queue.{
  Clock, BlockPriorityQueue, update_min_max, renewed, push, update_block, rescan_min_max_for_update,
}
use hc_data.ApiCache.Queue.Heights.{
  is_outside, IsWithin, IsWidened, update_min_max-IsWidened, update_min_max-covers,
  rescan_for_update-IsWidened, rescan_for_update-covers, tally-wider,
}

-- Each block of the queue has its index, and is in the range.
pub record IsOrderly (q : BlockPriorityQueue) : Type 0 where
  pub placed : IsPlaced q.bh
  pub within : IsWithin q

-- The queue after a block with the summary was added
pub record IsAdded (s : Summary) (q q' : BlockPriorityQueue) : Type 0 where
  pub orderly : IsOrderly q'
  pub same_capacity : q'.capacity ≡ q.capacity
  pub longer : length q'.bh ≡ length q.bh + 1
  pub counted : (p : Summary → Bool) → tally p q'.bh ≡ tally p q.bh + one p s

-- The queue after the block with the summary `old` got another one
pub record IsReplaced (old s : Summary) (q q' : BlockPriorityQueue) : Type 0 where
  pub orderly : IsOrderly q'
  pub same_capacity : q'.capacity ≡ q.capacity
  pub same_length : length q'.bh ≡ length q.bh
  pub counted : (p : Summary → Bool) → tally p q'.bh + one p old ≡ tally p q.bh + one p s

-- Blocks that are counted as those of the queue and one in the range are in the wider range.
within_wider :
    (q q' : BlockPriorityQueue) (old : ℕ) (s : Summary) (bh : Heap)
    → IsWithin q
    → ((r : Summary) → is_outside q r ≡ false → is_outside q' r ≡ false)
    → is_outside q' s ≡ false
    → tally (is_outside q') bh + old ≡ tally (is_outside q') q.bh + one (is_outside q') s
    → tally (is_outside q') bh ≡ 0
within_wider q q' old s bh h w covered e =
    let none_out : tally (is_outside q') q.bh ≡ 0 = tally-wider q q' q.bh w h in
    let new_in : one (is_outside q') s ≡ 0 = rw covered in omega arith

pub push_correct :
    (clock : Clock) (s : Summary) (q : BlockPriorityQueue)
    → IsOrderly q
    → Gives (IsAdded s q) (push clock s q)
unfolding push update_min_max
push_correct clock s q h =
    let b : CachedBlock = record {
      summary = s;
      accesses = 1;
      access_time = clock 0;
      heap_idx = pos (length q.bh);
    } in
    Gives-bind (push-Gives q.less_fn b q.bh refl) λ bh r. gives record {
      orderly = record {
        placed = r.placed h.placed;
        within =
            within_wider q (update_min_max s.height q) 0 s bh h.within
              ((update_min_max-IsWidened s.height q).wider) (update_min_max-covers s q)
              (omega (arith, r.counted (is_outside (update_min_max s.height q))));
      };
      same_capacity = refl;
      longer = r.longer;
      counted = r.counted;
    }

pub update_block_correct :
    (clock : Clock) (i : ℕ) (b : CachedBlock) (s : Summary) (q : BlockPriorityQueue)
    → IsOrderly q
    → get_elem? q.bh i ≡ some b
    → Gives (IsReplaced b.summary s q) (update_block clock i (some b) s q)
unfolding update_block renewed
update_block_correct clock i b s q h e =
    let b' = renewed (clock 0) s b in
    let at : b.heap_idx ≡ pos i = h.placed i b e in
    let hi : i < length q.bh = get_elem?-some q.bh i b e in
    let len : length (set i b' q.bh) ≡ length q.bh = length-set i b' q.bh in
    let (bh, ended, r) = fix-Gives q.less_fn i (set i b' q.bh) (omega (arith, len)) in
    let fixed : fix q.less_fn b.heap_idx (set i b' q.bh) ≡ some bh =
      ap (λ k. fix q.less_fn k (set i b' q.bh)) at ∙ ended in
    let q1 : BlockPriorityQueue = record q { bh = bh } in
    let q2 = rescan_min_max_for_update s.height b.summary.height q1 in
    let w : IsWidened q1 q2 = rescan_for_update-IsWidened s.height b.summary.height q1 in
    let covered : is_outside q2 s ≡ false = rescan_for_update-covers s b.summary.height q1 in
    let counts : (p : Summary → Bool) → tally p bh + one p b.summary ≡ tally p q.bh + one p s =
      λ p. omega (arith, r.same_tally p, tally-set p i b b' q.bh e) in
    Gives-bind {P = λ ch. ch ≡ bh} (bh, fixed, refl)
      λ ch same. rw same (
        gives record {
          orderly = record {
            placed =
                rw w.same_bh
                  (r.keeps_placed λ k c e'. set-IsPlaced i b' q.bh k c at hi e' (h.placed k c));
            within =
                ap (tally (is_outside q2)) w.same_bh
                ∙ within_wider q q2 (one (is_outside q2) b.summary) s bh h.within w.wider covered
                    (counts (is_outside q2));
          };
          same_capacity = w.same_capacity;
          same_length = ap length w.same_bh ∙ r.same_length ∙ len;
          counted = λ p. omega (arith, ap (tally p) w.same_bh, counts p);
        })
