-- ===== src/Lib.antt =====
-- The document store of embedding-store: an append-only log of records, the maps that index it, and the
-- replay that rebuilds the maps from the log, with the vector indexes beside it.
--
-- A store keeps one log, cut into segments. `insert` and `delete` in embedding-store/src/store.rs append
-- records to the active segment and then change three maps in memory: documents, splits and summaries.
-- On a restart embedding-store/src/replay.rs reads the records again and makes the maps from them.
--
-- Which file models which part:
--   Record and Record/   embedding-store/src/record.rs: `encode`, `decode`, `peek_len`, the kinds, the
--                        metadata and the vectors.
--   Segment and Segment/ embedding-store/src/segment.rs: the active segment. The file and the bytes still
--                        in the `BufWriter` are two lists, and a `Disk` decides what the operating system
--                        takes, cuts and syncs, and whether a file is renamed and its directory synced.
--   Maps and Maps/       embedding-store/src/maps.rs: the maps and `remove_doc`. A hash map is an
--                        association list (HashMap), read by key; only the bytes of a
--                        snapshot follow its order.
--   Replay and Replay/   embedding-store/src/replay.rs: `scan_segment`, `apply` and `commit_doc`.
--   Manifest             embedding-store/src/manifest.rs: the data and its sums.
--   Dto                  embedding-common/src/dtos: the documents.
--   Store and Store/     embedding-store/src/store.rs: Types the state, Validate `validate`, Write the
--                        append phase and `insert` up to its flush, Seal sealing, `insert` and `delete`,
--                        Opening and Open `open` and `snapshot_meta`.
--                        Appends, Logged, Document, Recovery and Durable follow what a phase writes and
--                        what its replay does; Reopen puts them together for the active segment, Whole,
--                        Sealing, Files, Rescanned, Steps and Reopened for all of them; History is a run of inserts and deletes, Rewound
--                        is about the errors of an insert. Read reads entities back.
--   Compact and Compact/ embedding-store/src/compact.rs: the sealed segments are rewritten into one. Copies
--                        and Documents follow the copy loops, Relocated, Keeping and Swapped what replaces the
--                        old segments, Reading what is read there, Stranded an error behind that.
--   Distance             embedding-store/src/vector_index.rs: `distance`.
--   VectorIndex          embedding-store/src/vector_index.rs: an index with its file. The crate usearch is
--                        the parameter `Usearch`.
--   Shard and Shard/     embedding-store/src/shard.rs: a store with its two indexes. Open reads the saved
--                        indexes back or rebuilds them; InStep, Snapshot, Trust, Mapped and Demote are
--                        about the files of the indexes, Loading and Answers about what a query loads;
--                        Search and its children are the searches, Compacting is `compact_if_needed`,
--                        and Overtaken what it leaves of the files.
--   Pool and Pool/       embedding-store/src/pool.rs: the shards under a memory budget. Victim, Recency
--                        and Budget are about which shard is demoted and when; Opening and its
--                        children are the threads that open shards, with the gates between them,
--                        and All is what is done to every loaded shard.
--   Query and Query/     embedding-server/src/api/query.rs: `keep_nearest`, which cuts the hits of
--                        several shards down to the nearest ones.
--   Snapshot, Snapshot/  embedding-store/src/meta_snapshot.rs: the writer, the reader, and `store` and
--                        `load` on the bytes of the file.
--   Crates               the functions of other crates that the store calls, as parameters with what it
--                        relies on: crc32fast, rmp_serde and half.
--   Errors               the errors, one constructor for each message.
--   Base and Base/       tests, lists, sorting, results, bytes, and the monad of the methods that
--                        change a state and may fail: an error keeps what was changed before it.
--   Examples/            concrete crates, a disk, a document and a store, and the theorems there.
--
-- An integer of a fixed width is a natural number, with the wrap written out where the source casts (the
-- `as u32` of a record's length); that a record fits its fields is the predicate `Fits`. An f32 is its bit
-- pattern, and a text the list of its bytes. The loop of `scan_segment` is a recursion on fuel, and the
-- length of the segment is fuel enough, since every record takes 22 bytes at least. The loop of
-- `enforce_budget` has fuel for two rounds for each shard and one more: a shard is demoted once and skipped
-- once at most.
--
-- Not modelled: the files' names, logging and the texts of errors. A file that is there can be read, and
-- a manifest that is there decodes. What other threads do between two locks of one method of the pool
-- is left out, `get_with` excepted. The arithmetic and the order of f32 are the parameter `Float`, in
-- Query the parameter `less`. That a document's splits and summaries name the document is a hypothesis
-- where it matters, since `validate` does not check it.
pub mod Base
pub mod HashMap
pub mod Record
pub mod Maps
pub mod Crates
pub mod Errors
pub mod Replay
pub mod Dto
pub mod Manifest
pub mod Segment
pub mod Store
pub mod VectorIndex
pub mod Compact
pub mod Distance
pub mod Shard
pub mod Pool
pub mod Query
pub mod Snapshot
pub mod Examples
