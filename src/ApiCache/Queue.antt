-- ===== src/ApiCache/Queue.antt =====
-- BlockPriorityQueue of v4/api/types/apicache.go. Its blocks are reached through the queue alone, so they
-- are values in its list. A method holds the queue's lock, or is called where it is held, so it is one
-- step. Each reading of the clock during a call is given by its number; times are nanoseconds.
pub mod Heights
pub mod Moved
pub mod Inserted
use hc_data.Base.{
  ℕ, zero, suc, ◌+◌, ◌^◌, ◌-◌, Bool, true, false, not, ◌&&◌, ◌||◌, List, [], ◌∷◌, Option, none,
  some, ltb, leb, ◌==◌, if◌then◌else◌, length, get_elem?, set,
}
use hc_data.Base.Int.{ℤ, pos, negsuc, ltb_ℤ, beq_ℤ}
use hc_data.Base.HashSet.{Hash}
use hc_data.ApiCache.{Summary, CachedBlock, access, Less, make_less_by_access_time_then_count}
use hc_data.ApiCache.Heap
use hc_data.ApiCache.Heap.{Heap, bind}

abbrev pub Clock : Type 0
Clock = ℕ → ℤ

pub record BlockPriorityQueue : Type 0 where
  pub bh : Heap
  pub capacity : ℕ
  pub needs_reheap : Bool
  pub min_height : ℤ
  pub max_height : ℤ
  pub less_fn : Less
  pub last_access : ℤ

-- NewBlockPriorityQueue
unfoldable pub new_block_priority_queue : ℕ → BlockPriorityQueue
new_block_priority_queue capacity = record {
  bh = [];
  capacity = capacity;
  needs_reheap = false;
  min_height = pos (2 ^ 32 - 1);
  max_height = negsuc 0;
  less_fn = make_less_by_access_time_then_count 1;
  last_access = pos 0;
}

-- SetLessFn
unfoldable pub set_less_fn : Less → BlockPriorityQueue → BlockPriorityQueue
set_less_fn less q = record q { less_fn = less }

-- updateMinMax
unfoldable pub update_min_max : ℕ → BlockPriorityQueue → BlockPriorityQueue
update_min_max h q = record q {
  max_height = if ltb_ℤ q.max_height (pos h) then pos h else q.max_height;
  min_height = if ltb_ℤ (pos h) q.min_height then pos h else q.min_height;
}

-- The loop of RescanMinMax, over the blocks that are given
unfoldable pub update_all : Heap → BlockPriorityQueue → BlockPriorityQueue
unfolding update_min_max
update_all [] q = q
update_all (b ∷ bs) q = update_all bs (update_min_max b.summary.height q)

-- RescanMinMax
unfoldable pub rescan_min_max : BlockPriorityQueue → BlockPriorityQueue
unfolding update_all
rescan_min_max q = update_all q.bh q

-- RescanMinMaxForRemove
unfoldable pub rescan_min_max_for_remove : ℕ → BlockPriorityQueue → BlockPriorityQueue
unfolding rescan_min_max
rescan_min_max_for_remove height q =
    if beq_ℤ (pos height) q.min_height || beq_ℤ (pos height) q.max_height
    then rescan_min_max q
    else q

-- RescanMinMaxForUpdate: the condition, and the scan
abbrev pub may_narrow : ℕ → ℕ → BlockPriorityQueue → Bool
may_narrow height_add height_remove q =
    beq_ℤ (pos height_remove) q.min_height && leb height_remove height_add
    || beq_ℤ (pos height_remove) q.max_height && leb height_add height_remove

abbrev pub rescan_if : Bool → BlockPriorityQueue → BlockPriorityQueue
rescan_if test q = if test then rescan_min_max q else q

unfoldable pub rescan_min_max_for_update : ℕ → ℕ → BlockPriorityQueue → BlockPriorityQueue
unfolding rescan_min_max update_min_max
rescan_min_max_for_update height_add height_remove q =
    update_min_max height_add (rescan_if (may_narrow height_add height_remove q) q)

-- Push, of a block with the given summary: heap.Push calls it and lets the block rise.
unfoldable pub push : Clock → Summary → BlockPriorityQueue → Option BlockPriorityQueue
unfolding update_min_max Heap.push
push clock s q =
    let b : CachedBlock = record {
      summary = s;
      accesses = 1;
      access_time = clock 0;
      heap_idx = pos (length q.bh);
    } in
    bind (Heap.push q.less_fn b q.bh)
      λ bh. some (record (update_min_max s.height q) { bh = bh; last_access = clock 0 })

-- What UpdateBlock makes of the block: the new summary, and one access
unfoldable pub renewed : ℤ → Summary → CachedBlock → CachedBlock
unfolding access
renewed now s b = access now (record b { summary = s; accesses = 0 })

-- UpdateBlock, of the block that is in the queue's slice at the index i; nil is no block.
unfoldable pub update_block :
    Clock → ℕ → Option CachedBlock → Summary → BlockPriorityQueue → Option BlockPriorityQueue
unfolding renewed rescan_min_max_for_update Heap.fix
update_block clock i none s q = some q
update_block clock i (some b) s q =
    bind (Heap.fix q.less_fn b.heap_idx (set i (renewed (clock 0) s b) q.bh)) λ bh.
      some (record (rescan_min_max_for_update s.height b.summary.height (record q { bh = bh })) {
        last_access = clock 0;
      })

-- ResetHeap, without what it does to the blocks of the argument outside the queue
unfoldable pub reset_block : ℤ → ℕ → CachedBlock → CachedBlock
reset_block now i b = record b { heap_idx = pos i; accesses = 1; access_time = now }

unfoldable pub reset_blocks : ℤ → ℕ → Heap → Heap
unfolding reset_block
reset_blocks now i [] = []
reset_blocks now i (b ∷ bs) = reset_block now i b ∷ reset_blocks now (suc i) bs

unfoldable pub reset_heap : Clock → Heap → BlockPriorityQueue → Option BlockPriorityQueue
unfolding update_all reset_blocks Heap.init
reset_heap clock bh q =
    let fresh = update_all bh (record q { max_height = negsuc 0; min_height = pos (2 ^ 32 - 1) }) in
    bind (Heap.init q.less_fn (reset_blocks (clock 0) 0 bh))
      λ ch. some (record fresh { bh = ch; needs_reheap = false })

-- Reheap
unfoldable pub reheap : BlockPriorityQueue → Option BlockPriorityQueue
unfolding Heap.init
reheap q = bind (Heap.init q.less_fn q.bh) λ bh. some (record q { bh = bh; needs_reheap = false })

-- RemoveIndex
unfoldable pub remove_at : ℕ → Option CachedBlock → BlockPriorityQueue → Option BlockPriorityQueue
unfolding Heap.remove rescan_min_max_for_remove
remove_at idx none q = none
remove_at idx (some b) q =
    bind (Heap.remove q.less_fn idx q.bh)
      λ bh. some (rescan_min_max_for_remove b.summary.height (record q { bh = bh }))

unfoldable pub remove_index : ℕ → BlockPriorityQueue → Option BlockPriorityQueue
unfolding remove_at
remove_index idx q = remove_at idx (get_elem? q.bh idx) q

-- `if removedBlockHash != nil { pq.lastAccess = time.Now() }`
abbrev pub mark_access : ℤ → Option Hash → BlockPriorityQueue → BlockPriorityQueue
mark_access now none q = q
mark_access now (some h) q = record q { last_access = now }

-- Is the block at the index one with that hash string?
abbrev pub has_text : ℕ → Option CachedBlock → Bool
has_text text none = false
has_text text (some b) = b.summary.hash == text

-- RemoveBlock: an index that is negative or 0 is not looked at.
unfoldable pub remove_from : ℤ → CachedBlock → BlockPriorityQueue → Option BlockPriorityQueue
unfolding remove_index
remove_from (negsuc n) b q = some q
remove_from (pos i) b q =
    if ltb 0 i && ltb i (length q.bh) && has_text b.summary.hash (get_elem? q.bh i)
    then remove_index i q
    else some q

unfoldable pub remove_block : CachedBlock → BlockPriorityQueue → Option BlockPriorityQueue
unfolding remove_from
remove_block b q = remove_from b.heap_idx b q

module _ (parse : ℕ → Option Hash) where
  -- Insert at capacity: the block at the top gives way to one that it is less than.
  unfoldable pub replace_top :
      Clock
      → Summary
      → BlockPriorityQueue
      → Option CachedBlock
      → Option (BlockPriorityQueue × Bool × Option Hash)
  unfolding update_block
  replace_top clock s q none = none
  replace_top clock s q (some top) =
      let candidate : CachedBlock = record {
        summary = s;
        accesses = 1;
        access_time = clock 0;
        heap_idx = pos 0;
      } in
      if q.less_fn top candidate
      then bind (update_block (λ k. clock (suc k)) 0 (some top) s q) (λ q'.
        some (mark_access (clock 2) (parse top.summary.hash) q', true, parse top.summary.hash))
      else some (q, false, none)

  -- Insert: whether the block was added, and the hash of the block that gave way
  unfoldable pub insert :
      Clock → Summary → BlockPriorityQueue → Option (BlockPriorityQueue × Bool × Option Hash)
  unfolding replace_top push update_min_max
  insert clock s q =
      if q.capacity == 0
      then some (q, false, none)
      else if leb q.capacity (length q.bh)
      then replace_top clock s q (get_elem? q.bh 0)
      else bind (push clock s q)
          (λ q'. some (record (update_min_max s.height q') { last_access = clock 1 }, true, none))
