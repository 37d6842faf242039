-- ===== src/Lib.antt =====
-- QuarkDB is a key-value store that speaks the redis protocol and replicates its log of writes by the
-- raft algorithm. This library models the core of the replication, the layout of the keys in the
-- database, the commands of the state machine on them, and the parser of requests.
--
-- The parts and the files that model them (paths from the root of the repository):
-- - Base: tests on numbers, lists and byte strings, and the result type of code that may throw. An
--   exception of qdb_throw or of a failing qdb_assert ends the process; it is the value `thrown`.
-- - Raft/Types, Raft/Parsing, Raft/Members: src/Common.hh, src/raft/RaftCommon.hh, src/Utils.cc,
--   src/utils/ParseUtils.hh and src/raft/RaftMembers.hh. Servers, log entries, the requests and replies
--   between nodes, and the nodes and observers of a cluster with their text. Raft/Entries has the bytes
--   of a log entry; integers are copied as on a little-endian machine.
-- - Raft/Store: the database under the journal, an interface with two documented laws of rocksdb: a
--   batch is written in order and as a whole, and an iterator meets every key. `table_rocks` is one
--   database that meets them.
-- - Raft/Journal with Raft/Journal/Log: src/raft/RaftJournal.cc. The record holds the database and the
--   counters that the class caches; an operation returns the new record.
-- - Raft/State: src/raft/RaftState.cc, the term, vote, leader and role, over the journal. Raft/State/Steps
--   makes its operations a step relation, in which the journal also moves by itself.
-- - Raft/Dispatcher with Raft/Dispatcher/Voting: heartbeat, appendEntries and requestVote of
--   src/raft/RaftDispatcher.cc, over the state, the journal, the tracker of heartbeats of
--   src/raft/RaftTimeouts.cc and the last applied index of the state machine. A handler of the source is
--   several functions here, one per stage, composed in its order.
-- - Raft/VoteRegistry, Raft/CommitTracker, Raft/Lease: src/raft/RaftVoteRegistry.cc,
--   src/raft/RaftCommitTracker.cc and src/raft/RaftLease.cc. The last two share Raft/Registrations, their
--   two maps, and Raft/Quorum, sorted lists and majorities.
-- - Storage/KeyType, Storage/Locators, Storage/ReverseLocator: src/storage/KeyDescriptor.hh,
--   src/storage/KeyLocators.hh and src/storage/ReverseLocator.hh. A key is a list of bytes.
-- - Storage/BinaryInt, Storage/KeyDescriptor, Storage/Expiration: src/utils/IntToBinaryString.hh,
--   src/storage/KeyDescriptor.hh and src/storage/ExpirationEventIterator.cc. A 64-bit integer of a
--   descriptor is its bit pattern.
-- - Storage/DescriptorAccess: the getters and setters of src/storage/KeyDescriptor.hh, and Direction.
-- - StateMachine/Database: the database under the state machine and its write batch with an index, an
--   interface whose laws are the documented ones of rocksdb: what a put, a delete and a single delete do
--   to a read through the batch, and that writing a batch leaves in the database what was read through
--   it. `table_rocks` meets them.
-- - StateMachine/StagingArea: src/storage/StagingArea.hh, with its modes for bulk loads and for reads
--   alone. StateMachine/WriteOperation: the class WriteOperation of src/StateMachine.cc. The source
--   changes both in place; here an operation returns the new area, and the new operation where it
--   changes. `destroy` is the destructor, which ends the process if the operation is not finalized.
-- - StateMachine/Status, Hashes, Removal, Sets, Deques, Strings and LocalityHashes: the commands of
--   src/StateMachine.cc. A command returns the area, the status and its results. Sizes and indices are
--   bit patterns of 64 bits, with `plus64` and `minus64` for the arithmetic that wraps.
-- - StateMachine/ExpirationEventCache, Leases and Leases/Acquisition: src/storage/ExpirationEventCache.cc,
--   src/storage/LeaseInfo.hh and the leases and the clock of src/StateMachine.cc. Leases/Deadlines has
--   the order of the cache, Leases/Holding what an acquisition writes.
-- - StateMachine/Commit: commits, the last applied index, the macro CHAIN and the start of the state
--   machine.
-- - StateMachine/FieldMap: an association list, which says what a hash or a set is. StateMachine/Fields
--   and StateMachine/Refinement relate an area to such maps, to lists of items for deques, and to two
--   maps, hints and values, for locality hashes; and the commands to what they do on these.
-- - Protocol/Link, Protocol/BufferedReader, Protocol/RedisParser: src/Link.hh, src/BufferedReader.cc and
--   src/RedisParser.cc. A link is an interface: a receive gives the bytes of the other end in order, and
--   no more than were asked for. `pieces` is a link that meets the laws. A call of the parser gets the
--   reader, the state that the class keeps, the elements of the request so far and the link, and returns
--   them; a status is a signed integer, as in the source. RedisParser/Encoding has the bytes of a request
--   as a client sends them, which the source has no function for.
-- - Tests: a cluster of three nodes, some keys and descriptors, areas with hashes, sets,
--   deques and leases, and a link, on which the theorems are applied.
--
-- What the model leaves out: locks (each function is what runs under the lock), condition variables,
-- threads, log messages, the sync thread and errors of the database. Terms, indices and times are
-- natural numbers; the source uses signed 64-bit integers that it keeps from being negative, and that
-- do not reach 2^63. The journal's database keeps values decoded. Loops run over lists, for as many rounds
-- as the source's loop has indices left (`compare_loop`), or for as many turns as there are bytes
-- (`read_request`), of which each turn takes eight or more. The loop of advanceClock (`expire_loop`) has
-- as many turns as the cache has deadlines, each of which forgets one; that of dequeTrimFront
-- (`trim_loop`) has as many as there are items to remove. Of the state machine the commands that iterate
-- over the database (del, flushall, keys, scan, hgetall and the like), versioned hashes, hincrbyfloat,
-- hclone and bulk loads are left out. The loop of
-- readFromLink (`read_loop`) has one round more than there are bytes that the other end has yet to send,
-- of which each further round takes one; the rounds of the parser over a line (`read_line`) and of purge
-- are arguments, and running out of them throws. An int of the reader and the parser wraps at 32 bits
-- (`as_int`, `to_int32`), where the source's overflow is undefined. The replicator, the network below a link and
-- the dispatch of commands are not modelled.
pub mod Base
pub mod Raft
pub mod Protocol
pub mod Storage
pub mod StateMachine
pub mod Tests
