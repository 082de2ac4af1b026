-- ===== src/Lib.antt =====
-- A model of flow-dps: the Flow data provisioning service, which follows the chain and the execution
-- state of a Flow network and indexes them by height in a Badger database.
--
-- The program. A state machine (service/mapper) goes through the blocks one height after another. It
-- takes the data of a block from a chain (service/chain/disk.go for a static protocol state,
-- service/tracker/consensus.go for a live one) and the trie updates from a feeder; for a live network
-- that is the execution tracker (service/tracker/execution.go), which reads block records from a
-- cloud streamer (service/cloud/gcp_streamer.go). Tries wait in a forest (ledger/forest/forest.go)
-- until the commitment of the block is reached; the registers changed by the block are then
-- collected and mapped to the index through a writer (service/index/writer.go), which puts the
-- operations of the storage library (service/storage) into transactions. A reader
-- (service/index/reader.go) answers from the index. A server (api/dps/server.go) answers from a
-- reader over gRPC, and its client (api/dps/index.go) is a reader again. The invoker
-- (service/invoker) runs scripts on what a reader gives. For a static state the trie updates come
-- from a write-ahead log through service/feeder, and the first trie from a checkpoint (ledger/wal,
-- ledger/forest/light_forest.go) through service/loader.
--
-- The files.
-- Base: shared names, tests, lists, Go maps as association lists (Base.Store), and `(value, error)`
-- with stateful calls (Base.Outcome).
-- Forest: Forest.Add, Has, Tree, Paths, Parent, Reset and Trees of ledger/forest/forest.go.
-- Mapper.Types: the state, the configuration and the interfaces of service/mapper; Mapper.Setup,
-- Mapper.Chain, Mapper.Collect and Mapper.Registers: the eight transitions of transitions.go;
-- Mapper.Machine: Run and Stop of fsm.go; Mapper.Pathings: pathsPayloads of pathings.go. The theorems
-- are in Mapper.Indexing, Indexing.Order, Edges, FirstOnce, Heights, Cycle, Growth, Collect.Walk and
-- Pathings.Laws.
-- Queue: models/dps/safe_deque.go. Streamer: NewGCPStreamer, OnBlockFinalized, Next, poll, download
-- and pullRecord of service/cloud/gcp_streamer.go; Streamer.Order has their interleavings.
-- Tracker.Execution: Update, Record, processNext and purge of service/tracker/execution.go.
-- Tracker.Consensus: service/tracker/consensus.go. Tracker.Catchup: CatchupBlocks of
-- service/initializer/catchup_blocks.go. Chain: service/chain/disk.go.
-- Trie: the nodes, UnsafeRead and read of ledger/trie/trie.go; Trie.Mutation: Mutate, with the queue of
-- groups as the recursion of each group on its height; Trie.Leaves: Leaves and Paths; Trie.Hashing:
-- RootHash and the computeHash of branch.go, extension.go and leaf.go. Trie.Lookup has the reference
-- for reads, bit by bit, and Trie.Hashing.Merkle the one for hashes, the complete binary tree; the
-- theorems are in Trie.Reads, Trie.Mutation.Updates, Trie.Leaves.Complete, Trie.Hashing.Canonical and
-- Trie.Orders.
-- Storage.Encoding: EncodeKey and the prefixes; Storage.Library, Saving and Retrieving: the
-- operations; Storage.Entries: what the keys stand for; Storage.Operations: the operations as data, with
-- the theorems in Storage.Operations.Kept. Index.Reader and Index.Writer: service/index.
-- Invoker: readRegister of service/invoker/read.go; Invoker.Calls: Key, Account and Script of
-- invoker.go; Invoker.Keys, Caching and Uncached: the calls with the cache and without it.
-- Index.Interface: the interface of readers. Api.Server: the handlers of api/dps/server.go; Api.Client:
-- the reader of api/dps/index.go; Api.Messages: the messages of api/dps/api.pb.go; Api.Validation: their
-- tags; Api.Convert: models/convert; Api.Connection: what the two sides stand on. The theorems are in
-- Api.Remote, Registers and Refusals.
-- Feeder: service/feeder; Feeder.Wal: Decode of ledger/wal/encoding.go; Feeder.Laws: its theorem.
-- Checkpoint: ReadCheckpoint of ledger/wal/checkpointer.go; Checkpoint.Light: light_node.go and
-- light_trie.go of ledger/trie; Checkpoint.Rebuild: RebuildTries of ledger/forest/light_forest.go,
-- FromLightNode, and Trie of service/loader/checkpoint.go; Checkpoint.Written: the bytes of a checkpoint.
-- Checkpoint.Flatten: FlattenForest of light_forest.go, ToLightNode and ToLightTrie. The theorems are
-- in Checkpoint.RoundTrip and Paths, by way of Checkpoint.Reading, and in Checkpoint.Flatten.RoundTrip.
-- Scenarios: runs on concrete inputs.
--
-- Numbers. A uint64 is a native number; where the source adds to a height the sum is taken modulo
-- 2 ^ 64. An identifier, a path or a commitment of 32 bytes is the number that its bytes spell, the
-- most significant first, so that the order of numbers is that of bytes.Compare.
--
-- Fuel. The loop of CollectRegisters follows parents in the forest, which the code does not keep from
-- being circular, so it runs on fuel: as many rounds as there are steps between the two commitments
-- are enough, and one more. The loop of CatchupBlocks has the finalized height plus two rounds. The
-- recursions of Update and Record are on the list of the answers that the stream will give. A path has
-- 256 bits, so the groups of Mutate go down from the height 256. Leaves takes as many rounds as the
-- trie has nodes. The loop of the feeder's Update is on the records that the log still has, and the
-- loops over the nodes and tries of a checkpoint count down from the numbers in its header.
--
-- Parameters. Badger, the codec, the tries, the protocol database, the bucket and the types of
-- flow-go are arguments: records of operations, with what Badger documents of reads after writes
-- and of iterators in reverse, and of the codec that it decodes what it encoded, as hypotheses of the
-- theorems that need it. The hash functions of the ledger packages are arguments of Trie.Hashing, and
-- the cache, the paths of registers and the index those of Invoker, with what is used of them as
-- hypotheses. A bit of a path is the digit of its number. The request validator, the gRPC connection
-- and flow-go's conversions are arguments of Api, and the decoders of flow-go those
-- of Feeder and Checkpoint, with the CRC-32 and the length of a buffered read.
--
-- Not modelled: logging, metrics, waiting times, the order in which Go ranges over a map beyond what
-- is said at the definitions, the cached hashes and the node iterator of the trie, IterateLedger and the
-- index loader, and the commands. The virtual machine is a parameter of Invoker.Calls: a program of
-- reads, each of which depends on the values before it.
mod Base
pub mod Api
pub mod Checkpoint
pub mod Feeder
pub mod Forest
pub mod Mapper
pub mod Queue
pub mod Streamer
pub mod Storage
pub mod Index
pub mod Tracker
pub mod Chain
pub mod Trie
pub mod Invoker
mod Scenarios
