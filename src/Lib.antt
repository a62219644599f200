-- ===== src/Lib.antt =====
-- objy is a replicated object database. A node (src/crdt.js) gives every write a Lamport timestamp
-- (src/clock.js) and logs it as an operation with a sequence number; peers pull each other's logs from
-- a cursor, acknowledge what they have, and apply what they receive to their stores (src/store.js),
-- where the newest timestamp wins object by object. Logs are pruned once every peer that acknowledges has done so,
-- and a puller that asks for what is gone takes a snapshot. A shard map (src/shard-map.js) says which
-- shard an object belongs to and which peers hold it. Criteria (src/query.js) select objects, and
-- permissions (src/permissions.js) narrow them to what a user may see. Patches (src/patch.js) change parts of an object,
-- a memory guard (src/memory-guard.js) refuses writes while memory is short, a scheduler
-- (src/derived-state-scheduler.js) runs background jobs, a second one
-- (src/replication-scheduler.js) tells peers of new operations and pulls theirs, a local log
-- (src/local-wal.js) keeps what is not yet durable, and bulk data comes as batches of lines
-- (src/ndjson.js).
--
-- Files and the code they model:
--   Common: what all share. Text is a JavaScript string as a list of UTF-16 code units, Dict a Map with
--     string keys in insertion order; Lists and Tests are lists and Boolean tests over native numbers;
--     Fallible is what throwing code returns.
--     Decimal is how a number is written.
--   Value: JavaScript values without functions, which Patch, Query and Permissions read.
--   Clock, Clock/Order: src/clock.js. A missing timestamp is none.
--   Collection: the class Collection of src/store.js and ObjectRowStore.rebuild of src/object-store.js.
--     put_object, delete_object, ensure_meta, add_shard_rid and remove_shard_rid are _putObject,
--     _deleteObject, _ensureMeta, _addShardRid and _removeShardRid. Collection/Version is the abstract
--     view (the newest write of each id), Refine and Ordered relate the two, Batch is putObjects and
--     deleteObjects, Snapshot is applySnapshotObjects and rebuildCoreState.
--   Op: the operations of src/crdt.js as src/store.js reads them.
--   Store: the class Store of src/store.js. apply_ops is applyOps with its runs (flush is the closure of
--     that name). Store/Cells, Runs, Address, Newest and Converge hold the proofs.
--   Node: the class CRDTNode of src/crdt.js: log_op is _logOp, drop_ops is _discardOps, and the rest
--     keep their names. Node/Scopes is the scope keys and tests at the end of that file. Node/Log
--     has the events of a node; Node/Trim, Keys, Pull, Pages and Causal hold the proofs.
--     Node/Sync is syncPeer with the peer that localPeer makes; a session is both nodes. Node/Sync/Serving
--     and Progress hold its proofs.
--     Node/Peers is what a node knows of the peers of its shards.
--     Node/Write is _writeMany, _commitInsertMany and removeMany with their checks, Node/Stamps what
--     holds of them.
--   ShardMap: the class ShardMap and the hash of src/shard-map.js; ShardMap/Topology normalizes,
--     validates and finalizes a map, ShardMap/Publish is publishShardMap, and
--     ShardMap/Replace is ShardMap.replace. ShardMap/Hash, Sort, Routing
--     and Lifecycle hold the proofs.
--   Patch: src/patch.js; setPath and unsetPath are set_at and unset_at on a split path. Patch/Paths and
--     Patch/Apply hold the proofs.
--   Query: src/query.js. Query/Strings, Key, Compare and Operators are its helpers, Query/Match is
--     matchesQuery and matchesConstraint, Query/Controls the controls of a query, Query/Laws what
--     criteria mean.
--   Permissions: src/permissions.js; Permissions/Read and Closed hold the proofs.
--   MemoryGuard, MemoryGuard/Hysteresis: src/memory-guard.js.
--   Scheduler, Scheduler/Invariant: src/derived-state-scheduler.js. A job's promise is its entry in
--     the list of settled promises; what its function does comes with the event that ends it.
--   Ndjson, Ndjson/Batches: parseNdjsonBatches of src/ndjson.js.
--   Rows: the class ValueDirectory of src/object-store.js, and in Rows/Store its store and the class
--     ObjectRowStore; share is the part of store in which a value is shared. Rows/Candidates, Counted,
--     Same, Faithful and Lookup hold the proofs. Collection has the rows without the directory.
--   LocalWal: src/local-wal.js, on the text of the file. LocalWal/Lines and Replay hold the proofs.
--   Replication: src/replication-scheduler.js; drain_from is the loop of _drainPullQueue, and pull_ended
--     and hint_ended are what follows the awaits of _runPull and _sendHint. Replication/Pulls, Targets,
--     Hints and Changes hold the proofs; Replication/Committed joins the scheduler to the writes of a node.
--   Tests: the code on small inputs.
--
-- Numbers: sequence numbers, counters and bytes are natural numbers, and a subtraction that JavaScript
-- clamps by Math.max(0, ...) is the one that stops at 0. The hash keeps its 32 bits written out.
-- Percentages of the memory guard are in hundredths of a percent. The loops are recursive on the lists
-- that they run over; the decimal digits of a number take fuel, one more than the number, which is
-- enough since each step divides by ten, and syncPeer takes fuel, of which one more than the peer is
-- ahead of the cursor is shown to be enough.
--
-- Arguments of the model: the cells of an object (a type), the shard of an object as the node asks it,
-- the order of localeCompare and the random part of a topology id, the time and the memory used, and which peers have a method `hint`; for queries the
-- record `Js`: the numbers, regular expressions, dates, letter case and order of the language; for a sync
-- the handler of a truncated log; for the local log the lines of node:readline, which are taken to end at line feeds and carriage returns
-- only, and JSON.
--
-- Not modelled: field indexes, typed columns, vectors, compression and tiering of a collection, which are
-- derived from its objects; that shared values are one in memory; change listeners other than the one of the replication scheduler; syncs over the network
-- and the shipping of snapshots; criteria with a RegExp, a Date or a function, patterns that are not
-- regular expressions, NaN as the value of a field, and names that every object inherits; timers; references, persistence, HTTP, configuration and the user
-- interface. Names are taken to have no NUL character, which is the separator of the run keys of
-- applyOps. Object keys keep insertion order, also those that look like integers, and `__proto__` is not
-- the name of a property.
pub mod Common
pub mod Value
pub mod Clock
pub mod Collection
pub mod Op
pub mod Store
pub mod Node
pub mod ShardMap
pub mod Patch
pub mod Query
pub mod Permissions
pub mod MemoryGuard
pub mod Scheduler
pub mod Ndjson
pub mod Rows
pub mod LocalWal
pub mod Replication
pub mod Tests
