-- ===== src/Rpc/BlockGate.antt =====
-- BlockGate of v4/rpcutils/blockgate.go: a cache of the latest blocks, and channels for callers that
-- wait for a block. A method holds the gate's lock, so it is one step; a goroutine that it starts is a
-- task in `pending`, which runs at some later step. The node's answers are arguments.
mod Tests
pub mod Notify
pub mod Cache
pub mod Update
pub mod Waiters
pub mod Signal
pub mod Delivery
pub mod Late
use hc_data.Base.{
  ℕ, ◌+◌, ◌≡◌, Bool, true, false, not, ◌&&◌, ◌||◌, List, [], ◌∷◌, ◌++◌, Option, none, some, ltb,
  ◌==◌, if◌then◌else◌, length,
}
use hc_data.Base.Int.{ℤ, pos, negsuc, ◌+ℤ◌, ltb_ℤ, beq_ℤ}
use hc_data.Base.Exec.{Outcome, ok, err, panic, out_of_fuel, Exec, pure, raise, continue}
use hc_data.Base.HashSet.{Hash}

pub data GateError : Type 0 where
  get_best_block_failed no_best_hash no_block : GateError
  get_block_failed : ℤ → GateError

-- The zero value of chainhash.Hash, which a map gives for a key that it lacks.
abbrev pub zero_hash : Hash
zero_hash = 0

abbrev pub or_zero : Option Hash → Hash
or_zero none = zero_hash
or_zero (some h) = h

abbrev pub Pair : Type 0
Pair = ℤ × Hash

abbrev pub hash_in_queue : List Pair → Hash → Bool
hash_in_queue [] hash = false
hash_in_queue ((_, x) ∷ q) hash = x == hash || hash_in_queue q hash

abbrev pub height_in_queue : List Pair → ℤ → Bool
height_in_queue [] height = false
height_in_queue ((h, _) ∷ q) height = beq_ℤ h height || height_in_queue q height

-- A goroutine that waits to run.
pub data Task : Type 0 where
  signal_height : ℤ → Task
  signal_hash : Hash → Task

-- What the node answers to GetBlockHash and GetBlock.
pub record Node (Block : Type 0) : Type 0 where
  pub best : Option (Hash × ℤ)
  pub hash_at : ℤ → Option Hash
  pub block_at : Hash → Option Block

-- Channels are numbers; `height_chans` and `hash_chans` hold what was sent and not yet received.
pub record BlockGate (Block : Type 0) : Type 0 where
  pub height : ℤ
  pub fetch_to_height : ℤ
  pub hash_at_height : ℤ → Option Hash
  pub block_with_hash : Hash → Option Block
  pub height_waiters : ℤ → List ℕ
  pub hash_waiters : Hash → List ℕ
  pub expire_queue : List Pair
  pub cap : ℤ
  pub pending : List Task
  pub next_chan : ℕ
  pub height_chans : ℕ → List Hash
  pub hash_chans : ℕ → List ℤ

abbrev pub Method : Type 0 → Type 0 → Type 0
Method Block A = Exec GateError (BlockGate Block) A

abbrev pub hash_error : Option Hash → Option GateError
hash_error none = some no_best_hash
hash_error (some _) = none

abbrev pub best_of : ℤ → Option Hash → Hash × ℤ × Option GateError
best_of height none = (zero_hash, height, some no_best_hash)
best_of height (some hash) = (hash, height, none)

module _ {Block : Type 0} where
  -- NewBlockGate
  unfoldable pub new_block_gate : ℤ → BlockGate Block
  new_block_gate capacity = record {
    height = negsuc 0;
    fetch_to_height = negsuc 0;
    hash_at_height = λ _. none;
    block_with_hash = λ _. none;
    height_waiters = λ _. [];
    hash_waiters = λ _. [];
    expire_queue = [];
    cap = capacity;
    pending = [];
    next_chan = 0;
    height_chans = λ _. [];
    hash_chans = λ _. [];
  }

  -- SetFetchToHeight
  unfoldable pub set_fetch_to_height : ℤ → BlockGate Block → BlockGate Block
  set_fetch_to_height height g = record g { fetch_to_height = height }

  -- BestBlockHash returns its values also beside the error, which is set when the hash is missing.
  unfoldable pub best_block_hash : BlockGate Block → Hash × ℤ × Option GateError
  best_block_hash g = best_of g.height (g.hash_at_height g.height)

  -- The end of BestBlock and of Block: the error of a missing block replaces an earlier one.
  abbrev pub found_block : Option Block → Option GateError → Option Block × Option GateError
  found_block none e = (none, some no_block)
  found_block (some block) e = (some block, e)

  -- BestBlock
  unfoldable pub best_block : BlockGate Block → Option Block × Option GateError
  best_block g =
      let hash = g.hash_at_height g.height in
      found_block (g.block_with_hash (or_zero hash)) (hash_error hash)

  -- Block
  unfoldable pub block_of : Hash → BlockGate Block → Option Block × Option GateError
  block_of hash g = found_block (g.block_with_hash hash) none

  -- The part of rotateIn behind the test of the capacity.
  unfoldable pub drop_oldest : List Pair → BlockGate Block → BlockGate Block
  drop_oldest [] g = g
  drop_oldest ((height, hash) ∷ rest) g = record g {
    expire_queue = rest;
    block_with_hash =
        λ x. if hash == x && not (hash_in_queue rest hash) then none else g.block_with_hash x;
    hash_at_height = λ h.
        if beq_ℤ height h && not (height_in_queue rest height) then none else g.hash_at_height h;
  }

  -- rotateIn
  unfoldable pub rotate_in : ℤ → Hash → BlockGate Block → BlockGate Block
  unfolding drop_oldest
  rotate_in height hash g =
      let q = g.expire_queue ++ (height, hash) ∷ [] in
      let pushed = record g { expire_queue = q } in
      if ltb_ℤ g.cap (pos (length q)) then drop_oldest q pushed else pushed

  -- The writes of updateToBlock, once the node has given the block.
  unfoldable pub store_block : ℤ → Hash → Block → BlockGate Block → BlockGate Block
  unfolding rotate_in
  store_block height hash block g =
      let stored = rotate_in height hash (record g {
        height = height;
        hash_at_height = λ h. if beq_ℤ height h then some hash else g.hash_at_height h;
        block_with_hash = λ x. if hash == x then some block else g.block_with_hash x;
      }) in
      record stored { pending = stored.pending ++ signal_height height ∷ signal_hash hash ∷ [] }

  -- GetBlock of rpcclient.go
  abbrev pub block_found : Hash → Option Block → Option (Block × Hash)
  block_found hash none = none
  block_found hash (some block) = some (block, hash)

  abbrev pub get_block_with : Option Hash → Node Block → Option (Block × Hash)
  get_block_with none node = none
  get_block_with (some hash) node = block_found hash (node.block_at hash)

  unfoldable pub get_block : ℤ → Node Block → Option (Block × Hash)
  get_block height node = get_block_with (node.hash_at height) node

  unfoldable pub update_with : ℤ → Option (Block × Hash) → Method Block Block
  unfolding store_block
  update_with height none g = raise (get_block_failed height) g
  update_with height (some (block, hash)) g = pure block (store_block height hash block g)

  -- updateToBlock, which UpdateToBlock calls under the lock
  unfoldable pub update_to_block : Node Block → ℤ → Method Block Block
  unfolding update_with
  update_to_block node height g = update_with height (get_block height node) g

  -- UpdateToNextBlock
  unfoldable pub update_to_next_block : Node Block → Method Block Block
  unfolding update_to_block
  update_to_next_block node g = update_to_block node (g.height +ℤ pos 1) g

  -- UpdateToBestBlock
  unfoldable pub update_to_best : Node Block → Option (Hash × ℤ) → Method Block Block
  unfolding update_to_block
  update_to_best node none g = raise get_best_block_failed g
  update_to_best node (some (_, height)) g = update_to_block node height g

  unfoldable pub update_to_best_block : Node Block → Method Block Block
  unfolding update_to_best
  update_to_best_block node g = update_to_best node node.best g
