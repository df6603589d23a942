-- ===== src/Lib.antt =====
-- Beryl is a distributed file store: metadata servers keep the namespace and the identities of file
-- blocks in a replicated state machine, workers keep the blocks, and clients read and write them. This
-- library models the namespace and the replicated commands on it, how a file is written, and how a
-- read of it is planned.
--
-- The store of the state machine (Storage) holds inodes, names, mounts and markers of detached roots.
-- Each command reads it, checks, and writes one batch together with the applied position; a command
-- that fails deterministically becomes a rejection, any other failure stops the node (StateMachine).
--
-- A writer opens a session. The leader's registry of write sessions (Registry) reserves capacity and
-- excludes other writers of the inode, then a command of the state machine (Apply) raises the lease
-- epoch of the file; the opening becomes an active session. The session allocates blocks one at a
-- time: a pending step in the registry, a command that takes the next block index, an issued target.
-- A publication (SyncWrite or CommitFile) freezes the targets of the session in the registry while a
-- command merges the blocks into the file (Inode). A reader asks for the block locations of a file
-- and plans block reads from them (Planner).
--
-- Which file models what, by the paths of the repository:
--  - Types/Layout: beryl-types/src/layout.rs, with Laws on what is accepted; Types/Values: the
--    identities and records of ids.rs, fs.rs, lease.rs, location.rs, worker.rs, tier.rs beside it.
--  - MetadataError: beryl-metadata/src/error.rs.
--  - Inode: beryl-metadata/src/inode.rs, FileData::validate and FilePublication (start_index,
--    merged_blocks, matches_visible, resolve_commit). Below it, Identities and Coverage describe a
--    valid file, Merge and Publish what a publication does to it.
--  - Storage: the records of beryl-metadata/src/raft/storage/mod.rs and mount/mod.rs and the reads of
--    query.rs; Storage/Batches: the batches of transaction.rs.
--  - Namespace: beryl-metadata/src/raft/state_machine/namespace.rs, bootstrap and directories; Paths,
--    Create, Delete and Rename hold the other commands. Tree is the invariant of the namespace; below
--    it, Changes and Names treat single writes; Commands, Walks, Directories, Removals, Moves, Renames,
--    Files and Creates the commands; Growth and Replays the repetition of CreateFile, Histories what
--    has become of the inodes of an earlier store, Deletes the names that go, Cycles a rename of a
--    directory into itself.
--  - StateMachine: apply_committed of raft/state_machine/mod.rs for the commands on the namespace and
--    on files; Changes, Bootstrap and Invariant follow the invariant and earlier stores along
--    committed commands, Guarantees what the routing relies on, Fencing old writers and block
--    identities, Answers the commands on a file that cannot stop the node.
--  - Apply: beryl-metadata/src/raft/state_machine/write.rs, one function for each apply_ function;
--    Apply/Outcome: raft/response.rs; Apply/Command: the file commands of raft/command.rs and
--    their arms in apply_committed. Step, Publication and Files say what one command writes, Fencing
--    what a repeated commit finds.
--  - Registry: beryl-metadata/src/session_registry.rs. Registry has the types and the state; Activity
--    the expiry multisets of the ancestors; Entries, Creates and Retire the primitives under the
--    lock; Checks and SessionChecks the tests; Opening, Creating, Targets, Publishing and Lookup the
--    calls, Calls their common shape; WellFormed and Valid the invariant and its preservation, one
--    file per group of calls; Requests and Reachability the runs of calls; Presence, Exclusion and
--    Replay what the calls answer, and of WellFormed, Live, Tally and Completeness what a sweep takes.
--  - Planner: beryl-client/src/planner.rs and the ReadLayout of beryl-client/src/metadata/model.rs;
--    Tiling, Sources and Range describe the plans.
--  - Types/Watermark: raft_log_id.rs and group_watermark.rs of beryl-types; Refresh: the watermark cache
--    of beryl-client/src/runtime/refresh.rs, with Watermarks on what it holds.
--  - Examples: tests on concrete values.
--  - Prelude: integers with the bounds of u32 and u64 (Words), lists, maps with unique keys, counts and
--    indexes of their entries, Result with a third case for a panic, and calls that can panic.
--
-- Conventions. Unsigned integers are natural numbers; checked and saturating operations have the bounds
-- of u64 and u32, usize has 64 bits, and an addition that the source leaves unchecked is bounded by the
-- limits that the theorems prove or by values of memory size. Newtypes over an integer are the integer,
-- and a UUID its 128-bit value. A HashMap, BTreeMap or set is an association list with unique keys; the
-- order of a BTreeMap is computed where it is read. A call under the lock of the registry is one step
-- on its state, the clock is an argument, and the drop of an owner is a call of its own. The sweep of
-- expired entries runs on its own budget of 64, and the walks along a path follow its components, so no
-- other fuel is needed. A text is compared as such and measured by the bytes of its code points.
-- Message texts keep their constant part; the arguments of format! are left out. The histories of
-- stores (Reaches) are of the modelled commands: RegisterWorkerDescriptor and ReclaimDetachedRoots do
-- not occur in them.
--
-- Not modelled: failures and batches of RocksDB (a batch is written whole), the openraft library,
-- the encodings of keys and values, network input and output, metrics, the commands that register
-- workers and reclaim detached roots, placement, the path resolver of the services, the worker, and
-- of the client the retry logic and the cached routes, leaders and epochs.
pub mod Prelude
pub mod Types
pub mod MetadataError
pub mod Inode
pub mod Storage
pub mod Apply
pub mod Namespace
pub mod StateMachine
pub mod Registry
pub mod Planner
pub mod Refresh
pub mod Examples
