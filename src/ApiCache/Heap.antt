-- ===== src/ApiCache/Heap.antt =====
-- What v4/api/types/apicache.go uses of Go's container/heap, on the slice of a BlockPriorityQueue: the
-- entries are moved by the queue's Swap, which keeps the index of each. Nothing is returned where the Go
-- code panics with an index out of range, and where the fuel of a loop runs out.
pub mod Kept
use hc_data.Base.{
  ℕ, zero, suc, ◌+◌, ◌-◌, ◌*◌, ◌/◌, Bool, true, false, not, ◌&&◌, List, [], ◌∷◌, ◌++◌, Option, none,
  some, ltb, leb, ◌==◌, if◌then◌else◌, length, get_elem?, set, take,
}
use hc_data.Base.Int.{ℤ, pos, negsuc}
use hc_data.ApiCache.{CachedBlock, Less}

abbrev pub Heap : Type 0
Heap = List CachedBlock

-- The rest of a computation that may have panicked
abbrev pub bind : {A B : Type 0} → Option A → (A → Option B) → Option B
bind none f = none
bind (some a) f = f a

-- Less, of the entries at two indices
abbrev pub less_some : Less → Option CachedBlock → Option CachedBlock → Option Bool
less_some less none b = none
less_some less (some a) none = none
less_some less (some a) (some b) = some (less a b)

unfoldable pub less_at : Less → ℕ → ℕ → Heap → Option Bool
less_at less i j bh = less_some less (get_elem? bh i) (get_elem? bh j)

-- Swap, of the entries at two indices
abbrev pub swap_some : ℕ → ℕ → Option CachedBlock → Option CachedBlock → Heap → Option Heap
swap_some i j none b bh = none
swap_some i j (some a) none bh = none
swap_some i j (some a) (some b) bh =
    some (set j (record a { heap_idx = pos j }) (set i (record b { heap_idx = pos i }) bh))

unfoldable pub swap : ℕ → ℕ → Heap → Option Heap
swap i j bh = swap_some i j (get_elem? bh i) (get_elem? bh j) bh

-- up: the entry at j rises above its parents.
unfoldable pub up : Less → ℕ → ℕ → Heap → Option Heap
up less zero j bh = none
up less (suc fuel) j bh =
    let i = (j - 1) / 2 in
    if i == j
    then some bh
    else bind (less_at less j i bh)
        λ rises. if rises then bind (swap i j bh) (λ ch. up less fuel i ch) else some bh

-- The child with which `down` compares, of the two at 2 i + 1 and 2 i + 2 below n
unfoldable pub least_child : Less → ℕ → ℕ → Heap → Option ℕ
least_child less n j1 bh =
    if ltb (j1 + 1) n
    then bind (less_at less (j1 + 1) j1 bh) (λ right. some (if right then j1 + 1 else j1))
    else some j1

-- down: the entry at i sinks below its children that stand before n; its last index is returned too.
unfoldable pub down : Less → ℕ → ℕ → ℕ → Heap → Option (Heap × ℕ)
down less zero i n bh = none
down less (suc fuel) i n bh =
    let j1 = 2 * i + 1 in
    if leb n j1
    then some (bh, i)
    else bind (least_child less n j1 bh) λ j.
      bind (less_at less j i bh)
        λ sinks. if sinks then bind (swap i j bh) (λ ch. down less fuel j n ch) else some (bh, i)

-- The end of Fix and Remove: `if !down(h, i, n) { up(h, i) }`
unfoldable pub settle : Less → ℕ → ℕ → Heap → Option Heap
unfolding up down
settle less i n bh =
    bind (down less (suc n) i n bh)
      λ moved. if ltb i moved.1 then some moved.0 else up less (suc i) i moved.0

-- Fix, at the index of an entry; at -1 the loops end at once.
unfoldable pub fix : Less → ℤ → Heap → Option Heap
unfolding settle
fix less (pos i) bh = settle less i (length bh) bh
fix less (negsuc zero) bh = some bh
fix less (negsuc (suc n)) bh = none

-- Init, of the first i parents, from the last to the first
unfoldable pub init_from : Less → ℕ → Heap → Option Heap
unfolding down
init_from less zero bh = some bh
init_from less (suc i) bh =
    bind (down less (suc (length bh)) i (length bh) bh) λ moved. init_from less i moved.0

-- Init
unfoldable pub init : Less → Heap → Option Heap
unfolding init_from
init less bh = init_from less (length bh / 2) bh

-- Push, of the entry that the queue's Push appends
unfoldable pub push : Less → CachedBlock → Heap → Option Heap
unfolding up
push less b bh = up less (suc (length bh)) (length bh) (bh ++ b ∷ [])

-- The queue's Pop takes the last entry, which there must be; nothing reads the entry afterwards.
unfoldable pub pop : Heap → Option Heap
pop bh = if length bh == 0 then none else some (take (length bh - 1) bh)

-- Remove
unfoldable pub remove : Less → ℕ → Heap → Option Heap
unfolding swap settle pop
remove less i bh =
    let n = length bh - 1 in
    if n == i then pop bh else bind (swap i n bh) λ ch. bind (settle less i n ch) pop
