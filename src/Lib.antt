-- ===== src/Lib.antt =====
-- A model of rockskv, a distributed key-value store, and what is proved of it. A cluster has
-- metadata nodes, which keep the route table of 4096 partitions in etcd, storage nodes, which keep
-- the partitions in RocksDB and log every command, and compute nodes, which route requests.
--
-- - Prelude, Bytes, Crc: shared helpers; byte strings and big-endian numbers as Go's
--   encoding/binary writes them; the IEEE CRC-32 of Go's hash/crc32. Prelude/Dict is Go's map with
--   integer keys.
--
-- - Keys: the storage keys of pkg/storage/partition.go (MakePartitionKey, ParsePartitionKey,
--   ParsePartitionKeyEx, GetPartitionRange) and pkg/storage/field_storage.go (FieldKey.Encode,
--   DecodeFieldKey, GetFieldPrefix).
--
-- - CommandLog: pkg/storage/command_log.go. CommandLog.antt and CommandLog/Reader are the format
--   of an entry, CommandLog/Codec and CommandLog/Scan its properties; CommandLog/Log is the log
--   itself (Append, Sync, Close, rotation, recovery, NewCommandLog) and CommandLog/Log/Reads the
--   full scan.
--
-- - Ring: pkg/metadata/consistent_hash.go (AddNode, RemoveNode, GetNode, GetNodes, the binary
--   search).
--
-- - Routes: the types of pkg/metadata/store.go, the stored table of pkg/metadata/etcd.go and the
--   methods of pkg/metadata/router.go that change it; Routes/Init is InitCluster. The router uses
--   the ring of Ring to place partitions.
--
-- - Partitions: the partition manager of pkg/storage/partition.go. Partitions/Data has its reads
--   and writes, over the interface RocksDb with the laws IsStore, which stand for the RocksDB
--   library.
--
-- - Scheduler: pkg/metadata/migration_scheduler.go. Scheduler/Queue has the invariant of the
--   queue, Scheduler/Steps the operations as one type of steps; a migration ends in
--   CompleteMigration of Routes.
--
-- - Partitions/Transfer: ExportPartitionData, ImportPartitionData and ClearPartitionData of
--   pkg/storage/partition.go.
--
-- - Rocks: the RocksDB library behind pkg/storage/rocksdb.go as a parameter, an interface with the
--   laws of a store and of its iterators. Rocks/LogDb is a database in memory that has the laws of
--   a store, and by Rocks/Iterator those of its iterators.
--
-- - Fields: FieldBatch and AttributeGroup of pkg/storage/field_storage.go with their encodings;
--   Fields/Storage has the operations of FieldStorage and GroupedFieldStorage on a database.
--
-- - CommandLog/Log/Replay: ReadFrom with the index, and ReplayTo. Replication:
--   pkg/storage/command_log_replicator.go, which keeps a command log for each partition and sends
--   its entries to a replica; Replication/Read is what a batch holds, Replication/Resumed the
--   calls that the replica gets, Replication/Rounds the loop.
--
-- - Server: pkg/storage/server.go. A write goes through the lease, the partition manager and the
--   database, and then to the replicator; Server/Replicate has the other side, Server/Assignment
--   what a new route table does.
--
-- - Server/Transfer: ExportSST and IngestSST of pkg/storage/server.go. Failover:
--   pkg/metadata/failover.go, over the router of Routes.
--
-- - Migration: pkg/metadata/migration.go, the plan of a rebalance and the run of its items over
--   the router and the transfer.
--
-- - Shutdown: ShutdownNode of pkg/metadata/router.go, over the router and the scheduler;
--   Shutdown/Idle has its parts where the scheduler has no task. Migration/Plan has runs of the
--   items of a partition, Migration/Moved what they leave of it.
--
-- - Metadata: the handlers of pkg/metadata/server.go and the subscribers of
--   pkg/metadata/router.go; Metadata/Leader is pkg/metadata/leader.go and ha_server.go.
--
-- - Compute: pkg/compute/router.go, the routes that a compute node has. Compute/Handlers is
--   pkg/compute/server.go, whose calls go to storage nodes of Server and may be lost on the way;
--   Compute/Pool is pkg/compute/pool.go.
--
-- - Epochs: the fencing tokens on their way from the metadata server through a compute node to a
--   storage node.
--
-- - Client: pkg/client/client.go, and Client/Puts what it reads through a compute node. Sdk:
--   sdk/go/rockskv/client.go.
--
-- Bytes are numbers below 256 where a theorem needs it; machine integers keep their wrap-around as
-- a remainder. Decoders run over the list of the bytes that are left. A loop over a file takes the
-- length of the file as fuel: every entry takes at least 29 bytes. Digits of a number take the
-- number plus one as fuel, the binary search the length of the list; the chunks of a file take its
-- length, a search in the index of a log the number of sequence numbers to try.
--
-- etcd and files are not code of the repository: etcd is the record of what it holds, and whether
-- a call of it succeeds is an argument; file operations are taken to succeed, and a crash keeps
-- what was written to the files. A method that holds its lock to its end is one step. Methods that
-- make several calls of the router, which leave its lock free in between (handleNodeFailure,
-- ShutdownNode, executeMigration), take what the watch delivers between the calls as an argument;
-- other methods of the router that might run there are left out. Time stamps are arguments where
-- they are stored in the log or compared with a timeout, and left out elsewhere. RocksDB is the
-- parameter of Rocks, its files of sorted entries that of Server/Transfer, and a replica that of
-- Replication; each has a concrete instance in the tests. Goroutines are sequences of the calls
-- that they make. JSON forms are left out.
--
-- Not modelled: logging, metrics, gRPC servers, interceptors and generated code; the start and
-- stop of the servers; the parsing of URIs; the command line and the programs, which read flags
-- and call the rest; pkg/storage/replication.go, wal_replicator.go and migration.go, which no
-- program uses; the compaction of etcd. The election of a leader is the etcd library's: its
-- outcomes are steps.
pub mod Prelude
pub mod Bytes
pub mod Crc
pub mod Rocks
pub mod Keys
pub mod Fields
pub mod CommandLog
pub mod Replication
pub mod Partitions
pub mod Server
pub mod Ring
pub mod Routes
pub mod Failover
pub mod Scheduler
pub mod Migration
pub mod Shutdown
pub mod Metadata
pub mod Compute
pub mod Epochs
pub mod Client
pub mod Sdk
