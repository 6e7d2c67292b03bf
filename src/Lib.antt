-- ===== src/Lib.antt =====
-- A verification library for hcData, the block explorer and data server for Hcd.
--
-- The parts that are modelled, and how they interact. StakeDatabase (v4/stakedb) follows the main chain.
-- For each block it appends a diff of the live tickets to its TicketPool, applies the diff to its cache
-- of ticket values, and stores the pool info of the block in a bounded cache. BlockGate (v4/rpcutils)
-- fetches blocks from the node for the collectors and the stake database, keeps the latest, and signals
-- those who wait for a height or a hash. The queue of v4/notification hands each connected block and each
-- reorganization of the node to the collectors and to the stake database, whose chain monitor then switches
-- branches. APICache (v4/api/types) keeps the blocks that the HTTP API serves.
--
-- - Base: shared types and lemmas. Base.Int has the signed integers over the native natural numbers,
--   Base.Exec the outcomes of a method (a value, an error, a panic) beside the state that it leaves,
--   Base.HashSet and Base.HashMap Go's maps by hash.
-- - StakeDb.TicketPool: v4/stakedb/ticketpool.go. The record TicketPool is the struct, one function per
--   method (advance, retreat, Pool as pool_at, Trim as trim, Append as append_diff and so on). Replay
--   has the abstract view, the tickets that are live after a sequence of diffs; Step, Walk and Trim
--   relate the methods to it; Disk and Persist are about the diffs on disk, with badger as the
--   interface DiffDb.
-- - StakeDb.PoolInfoCache: the cache of that name in v4/stakedb/stakedb.go, with the queue of the
--   package lane as the interface Lane.
-- - StakeDb.LiveTickets: applyDiff, undoDiff and PopulateLiveTicketCache of v4/stakedb/stakedb.go; the
--   node's answers are a parameter.
-- - StakeDb.Connect: ConnectBlock of v4/stakedb/stakedb.go over these three, and the tickets of a block
--   (v4/txhelpers/staketree.go). The stake node of hcd is the interface StakeNode.
-- - StakeDb.Disconnect: DisconnectBlock of v4/stakedb/stakedb.go, which trims the ticket pool on fuel: the
--   tip plus one, since each round lowers the tip.
-- - StakeDb.Reorg: DisconnectBlocks, Rewind and ConnectBlockHash of v4/stakedb/stakedb.go, and the reorganizations
--   of v4/stakedb/chainmonitor.go. Back and Forth are about the two loops, Switch about both. Rewind runs on
--   fuel: the height plus one, since each round that goes on has lowered the height.
-- - StakeDb.Handoff: BlockConnectedSync and BlockConnectedHandler of v4/stakedb/chainmonitor.go as goroutines
--   that a schedule interleaves, which also says whether ConnectBlockHash returns an error. Merged is about
--   which blocks are connected, Ordered about the order in which calls return, Progress about whether they do.
-- - Notification: superQueue, processBlock and signalReorg of v4/notification/ntfnhandlers.go, with a log of what
--   is sent. Calls and Followed are about the blocks that the handlers get, Chained about the reorganizations
--   that the monitors get.
-- - Rpc.BlockGate: v4/rpcutils/blockgate.go. Notify has the waiters and the goroutines that signal
--   them; Cache and Update are about the cached blocks, Waiters, Signal, Delivery and Late
--   about the channels.
-- - Rpc.Chains: CommonAncestor of v4/rpcutils/rpcclient.go. Links says what a result is, and Found when
--   an ancestor is found. Its loop counts its rounds up to maxAncestorChainLength, as the source does.
-- - ApiCache: the block cache of v4/api/types/apicache.go. Heap is what it uses of Go's container/heap, with
--   Heap.Kept about the blocks that the heap keeps; Queue is BlockPriorityQueue, and Store is APICache with
--   its map and its lock. Its loops run on fuel: the entry's index plus one upwards, the heap's size plus one
--   downwards. The clock's readings, NewHashFromStr and the string of a hash are parameters.
-- - Rpc.SideChain: SideChainFull and what it uses in v4/rpcutils/rpcclient.go. Reversed is about the reversal in
--   place, Complete about the walk, whose fuel is to be more than the number of blocks on the side chain.
-- - Addresses: which transactions involve an address (v4/txhelpers/txhelpers.go), and UnconfirmedTxnsForAddress of
--   v4/rpcutils/rpcclient.go. Involved and Spent are about one transaction, Scanned and Collected about the
--   mempool.
-- - Semver: v4/semver/semver.go, by which the RPC client decides whether it can talk to a node.
-- - StakeDb.Waiters: WaitForHeight and signalWaiters of v4/stakedb/stakedb.go as goroutines that a schedule
--   interleaves; Fresh is about the channels, Lost about a call that misses its block.
-- - StakeDb.Recover: NewStakeDatabase and LoadAndRecover of v4/stakedb/stakedb.go, from what Open finds. Lower and
--   Level are about the loops, Started about the database that is returned.
-- - Mempool: Monitor is TxHandler and CollectAndStore of v4/mempool/mempool.go, Reported about the tickets that it
--   counts; Collector is Collect of that file, Window about the fees that it gives; Cache is MempoolDataCache of
--   v4/mempool/mempoolcache.go. Floats are opaque, and sorting is a parameter.
--
-- Hashes are natural numbers, int64 and uint32 values integers without a bound: heights and tickets stay
-- far below it. A method that holds a lock is one step, and a goroutine that it starts is a task that
-- runs later. The loops of the ticket pool run on fuel: the tip and the cursor plus one, since each
-- round moves the cursor by one and stays within the diffs; SetCapacity takes the size of the queue plus
-- one, since each round takes an entry off it.
--
-- Not modelled: logging, the database files, the calls that only pass on to the node, SQL, HTTP and the
-- templates. Blocks and transactions of the node are parameters.
pub mod Base
pub mod StakeDb
pub mod Rpc
pub mod Semver
pub mod Mempool
pub mod Addresses
pub mod ApiCache
pub mod Notification
