-- ===== src/Lib.antt =====
-- Verification of the storage core of Nesso, a persistent message queue.
--
-- The program. A queue is a directory of log segments (src/storage/wal.rs) whose frames
-- (src/storage/record.rs) record what happens to tasks. The engine (src/storage/engine.rs) holds
-- the state of the tasks in memory: the ready ones in a queue of 256 buckets
-- (src/storage/priority_queue.rs), the leased ones in a table, the places of their records in two
-- indexes, and recent payloads in a cache (src/storage/payload_cache.rs). Every operation appends
-- to the log under one lock before it changes the tables. Durability is asked for apart, through
-- the group commit of src/storage/group_commit.rs, which gathers threads into batches with one
-- fsync each.
--
-- The files.
-- Base: shared helpers; Base/Words writes out the wrap-around of machine integers, Base/Bits the
-- bits of a word, Base/Bytes big-endian bytes, Base/Maps a HashMap as an association list without
-- duplicate keys, which Base/Keys carries through insertions and removals, Base/Sort the sorts,
-- and Base/Sorted what they give. Io: io::Result and the error kinds the source tells apart.
-- Record: Record::encode and Record::decode. Record/Frame says what decode accepts.
-- Task: TaskRef and LeaseInfo of the engine.
-- Queue: PriorityBucketQueue; Queue/Order is the order in which it serves, on a list.
-- Cache: PayloadCache.
-- Disk: the directory as std::fs shows it. Names point to inodes, so an open file outlives its
-- name.
-- Wal: Wal::open, rotate, append and iter_all; Wal/Scan the loops over the frames of a segment;
-- Wal/Reader WalReader, which Wal/Reader/Agrees compares with the iterator; Wal/Compaction the two
-- phases of compaction. Engine/Payloads follows a payload through compaction and out of the record
-- again.
-- Engine: EngineState and the operations, each of whose locked sections is one function;
-- Engine/Fallback the reads of pop_and_lease behind its lock, Engine/Expiration a round of the
-- expiration thread, Engine/Worker the thread itself and the calls that stop it, Engine/Caches the
-- caches as others see them, Engine/Recovery EngineState::recover and Engine::open_with_config,
-- Engine/Compact Engine::compact. Engine/Tasks says where a task is, Engine/Tasks/Rounds what a
-- whole expiration round leaves. Engine/Recovery/Log is what a log tells of the tasks, by the
-- last record of each; Engine/Recovery/Order, Indexing, Restoring, Requeue and Replay compare
-- both passes of recover with it, Ascending and Directory follow open_with_config from any
-- directory, Sound is about the logs that engines write, and Once about the leases restored.
-- Engine/Logged sets operations and log side by side: Steps and Failing compare an operation
-- with its record, Run is the relation of operations whose records are written, Rounds a whole
-- expiration round as such a run, Growth, NewSegment and Rotation follow the directory through
-- append, Payload, Keeping, Places, Live and Popping the payloads, and Restart, SameTasks and
-- Survival open it again. What other threads do between two locked sections is an argument,
-- `others`.
-- Server: the registry of src/server.rs and its request handlers; Cli: the argument loop of
-- src/main.rs. Engines know nothing of either. Server/Poll is the long poll of pop_handler, a loop
-- over a list of turns, each with what the clock, the system and other requests do in it;
-- Server/Waiting says when it ends; Server/Queues has the listing and the shutdown.
-- GroupCommit: the state of GroupCommit and the locked sections of sync; GroupCommit/Threads is
-- the step relation of any number of threads, Serial their order, Fresh which fsyncs a call has
-- seen begin, and Progress what a thread that waits can do next.
-- The Runs modules hold concrete runs.
--
-- How the state corresponds. Lists stand for Vec and VecDeque, and numbers for the integers, with
-- `% 2 ^ w` where a release build wraps around (usize has 64 bits). A handle of a file is the
-- number of its inode. A panic is `none`. What the operating system answers to one append is an
-- AppendIo. The clock is an argument. What base64 makes of a request is an argument of the
-- handler. The checksum of crc32fast is the parameter `crc32`, and the theorems that compute with
-- it assume only that it has 32 bits.
--
-- Fuel. The loops over the frames of a segment run on fuel, one round for each byte of the segment
-- and one more: a frame has at least 19 bytes, and Wal/Scan/Recovery carries the bound through the
-- loops. The three rounds of the fallback read are those of the source.
--
-- Not modelled: the runtime under src/server.rs and src/main.rs (axum, tokio, serde, base64), its
-- table of routes and the signals, and names of queues that are not one component of a path;
-- poisoned locks; errors of reading files and listing directories, and in Wal::open and iter_all
-- those of opening, truncating and syncing a file; segments under another name than the one written
-- for their number (nesso.7.wal); the overflow of offset and header size in read_at; that recover
-- reads the clock once for each lease (it is one value for the pass); the waits of GroupCommit on
-- its condition variable and notify_all (a wait is taken to end, so a lost wakeup is not seen);
-- what fsync does below its answer; the benchmark src/bin/bench.rs and the example examples/worker_pool.rs, which are
-- clients of the engine without logic of its own, and the tests.
pub mod Base
pub mod Io
pub mod Record
pub mod Task
pub mod Queue
pub mod Cache
pub mod Disk
pub mod Wal
pub mod Engine
pub mod GroupCommit
pub mod Server
pub mod Cli
