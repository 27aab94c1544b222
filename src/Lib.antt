-- ===== src/Lib.antt =====
-- The MIT 6.5840 labs of this repository: MapReduce, and what the key/value and Raft labs rest
-- on.
--
-- Mr (Mr.antt) follows src/mr. Mr.Rpc has the RPC types of src/mr/rpc.go. Mr.Coordinator has the
-- coordinator of src/mr/coordinator.go: its state is the record `Coordinator`, AssignTask is
-- `assign_task`, NotifyComplete is `notify_complete`, Done is `done` and MakeCoordinator is
-- `make_coordinator`. Each handler holds the mutex for its whole body, so it is one function on
-- the state. Its children prove the laws of a table (Tables), the bookkeeping (Invariant), the
-- coordinator among crashing workers (System), the lease of a task (Lease), single calls
-- (Replies) and progress (Progress, Finish); Samples runs a small job.
--
-- Mr.Worker has src/mr/worker.go: ihash, writeIntermediate, handleMapTask and handleReduceTask,
-- on a map from file names to contents. encoding/json and sort.Slice are the interfaces `Format`
-- and `Sorter`, and the map and reduce functions are parameters. Grouping is about the loop of
-- the reduce phase, Buckets about the dispatch of entries, Names about file names, Written about
-- the files of one map task, Job about the two phases. Mr.Sequential has
-- src/main/mrsequential.go, and Mr.Sequential.Agreement compares the two programs; Mr.WordCount
-- has src/mrapps/wc.go. The loops over sorted entries run on fuel, one more than there are
-- entries, and every round takes at least one entry.
--
-- Fnv has the hash of hash/fnv that Go's standard library gives both src/mr and src/shardkv1.
--
-- Labrpc follows src/labrpc/labrpc.go: the tables of the simulated network, and `processReq` as
-- the stages of one request, whose steps are interleaved with any operation on the network; the
-- last look at the server and what is sent then are two steps, as the lock is given up in
-- between. Random numbers are arguments; a handler is the reply that it returns. Route is about
-- the tables, Frame about what an operation leaves alone, Delivery has the steps of a request,
-- Timers, Deleted and Replies are about them, Dispatch about the names of handlers.
--
-- Models follows src/models1/kv.go, the model that the linearizability checker runs: Versions is
-- about the orders of operations that it accepts, Partition about the histories of the keys.
--
-- RaftTest follows src/raft1/server.go and src/raft1/test.go, the harness of the Raft tests: the
-- appliers with `check_logs`, the snapshots, and the checks of leaders and terms. What Raft
-- itself answers is an argument, and encoding/gob below labgob is an interface, `Gob`.
-- Agreement, Applying and Committed are about the logs that the appliers accept, Snapshot about
-- making and reading snapshots, Leaders about `checkOneLeader`, a list of whose rounds takes the
-- place of its ten, Terms about `checkTerms`.
--
-- Shardcfg follows src/shardkv1/shardcfg/shardcfg.go, one function for each function and method.
-- Analyze is about the loads of the groups, Balance about Rebalance, Check about CheckConfig and
-- GidServers, Members about Join and Leave. Rebalance loops on fuel, one more than the square of
-- the number of shards: each move lowers the number of pairs of shards of one group.
--
-- Annotation follows src/tester1/annotation.go, whose global variables are the record `Globals`;
-- each method is a function on it, and a timestamp is an argument. Framework has the calls for
-- checkers and tests, Faults the flags of connected and crashed servers. Timeline and Tiling are
-- about what the finalized annotations of a tag are, Shown and Flags about the fault that is
-- being shown, Checker about the ends of a checker.
--
-- Groups follows src/tester1/group.go, srv.go and persister.go, on the network of Labrpc: the
-- state of a call is a group with the network, or with the persisters. Persistence has the
-- persisters, Operations the start and the end of servers, Names the names of servers, Making is
-- about the ends of a new group, Ends and Partitions are about who reaches whom after Partition,
-- Minority about MakePartition, Restarts about what a server finds when it starts again.
-- MakePartition runs its loop on the number of servers.
--
-- Clients follows src/tester1/clnts.go, the ends of the clerks, on the same network. Ends is
-- about one end, Reach about all the ends of a clerk, Commands about the calls that connect and
-- disconnect it.
--
-- KvTest follows src/kvtest1/kvtest.go and porcupine.go. What a clerk answers is an interface
-- over a state of its own, and the time is a part of that state. Rounds has the rounds of the
-- clients, Appends CheckAppends, Serving says what a clerk does whose server works, Puts that
-- the log is then what Models accepts, Json has gets and puts of encoded values, Retries is
-- about OnePut, and Tallies and Interleaved about the appends of several clients. A loop until
-- the time is over, or until a put succeeds, runs on fuel: PutAtLeastOnce needs one put more
-- than the version is behind, and OnePut two rounds.
--
-- Prelude has the shared names: tests on native numbers (Tests), lists (Lists), comparable types
-- and strings as bytes (Equality), the order of strings (Order), int (Int), Go maps as
-- association lists (Assoc), numerals (Decimal).
--
-- Not modelled: the RPC transport, sockets and HTTP of net/rpc; the names of temporary files,
-- which are renamed at once; files, signals, time limits and goroutines of the tests, and the
-- checker porcupine; src/tester1/config.go; the skeletons of the labs that have no code yet;
-- labgob, reflection and goroutines of labrpc; Copy, String and FromString of ShardConfig, which
-- copy or call encoding/json.
mod Prelude
pub mod Annotation
pub mod Clients
pub mod Fnv
pub mod Groups
pub mod KvTest
pub mod Labrpc
pub mod Models
pub mod Mr
pub mod RaftTest
pub mod Shardcfg
