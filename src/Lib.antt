-- ===== src/Lib.antt =====
-- LightningDB: an embedded graph and vector database in Rust, with a server and clients.
--
-- The program. A query is parsed, bound, optimized and run by pull operators
-- (crates/lightning-core/src/parser, planner, optimizer, processor). The operators read columns and
-- adjacency indexes through pages that the buffer manager caches (storage). A transaction
-- (transaction/transaction_manager.rs) takes a snapshot timestamp; the rows that it writes are marked
-- in the row versions of their table, which refuse a conflicting write; a commit writes the log,
-- merges the pages, and then stamps the rows with its timestamp. Recovery replays the log. The
-- server (crates/lightning-server) puts tokens in front of this, and the client
-- (packages/lightning-rust) a circuit breaker.
--
-- The modules, and the files that they follow:
--   RowVersion      crates/lightning-core/src/storage/row_version.rs: which transaction is changing a
--                   row, and when rows were committed. The functions have the names of the methods of
--                   `RowVersion`; a shard's two maps are association lists. Children: Shards sees the
--                   shards as two maps over all rows; Batch and Mask take the operations on many
--                   rows; Vacuum, Conflicts; Run interleaves the operations of any transactions, and
--                   Isolation is about such runs.
--   Transactions    crates/lightning-core/src/transaction/transaction_manager.rs: begin, commit,
--                   rollback and drop over the counters, the active sets and the tables' row
--                   versions. Children: End and Queries hold the further operations; World is the
--                   manager with the transactions in use; Counts, Horizon, Watermark are about the
--                   active sets; Published, Publish, Effects, LogFailure and Aborted are about a commit.
--   PageState       crates/lightning-core/src/storage/page_state.rs: the word that packs a page's lock
--                   state, version and flags, bit by bit. Children: Layout and Fields turn the masks
--                   into four fields; Locking and Versions are about sequences of operations.
--   Operators       crates/lightning-core/src/processor/mod.rs (the trait `PhysicalOperator`), with
--                   LimitSkip for processor/operators/limit_skip.rs.
--   PageMerge       the same file, phase 1 of `commit`: the modifications of rows are grouped by page
--                   and merged on top of the latest committed pages. Children: Rows, Groups.
--   Wal             crates/lightning-core/src/storage/wal.rs, `replay` on records. Children: Recovery,
--                   Order, and Bytes for the log as bytes: its writer, the reader `WALRecordIter`
--                   (Reader, Records) and `replay` over bytes (Replay). Layout, Writer and RoundTrip
--                   relate what is written to what is read; Damage and the children of Replay are
--                   about cut and damaged logs.
--   Cdc             crates/lightning-core/src/cdc.rs: a poll of the log for change events. Child: Polls.
--   Compression     crates/lightning-core/src/storage/compression: the packing of bits (bitpacking.rs),
--                   with Fields, Writes, Reads and Packing about its bits; Codecs has a child for each
--                   codec (mod.rs, integer_bitpacking.rs, delta.rs, rle.rs, dict.rs), Algs is their
--                   interface and what a codec promises, Blocks, PackedCodecs, FrameCodec, Runs, RunCodec,
--                   DictIndex, DictReads and DictCodec fill it; Analyzer and Choice are analyzer.rs.
--   Column          crates/lightning-core/src/storage/column.rs: `optimize`, which compresses a column
--                   of nodes, and `get_plain_value`. Children: Blocks, Optimize, Reads.
--   Csr             crates/lightning-core/src/storage/index/csr.rs: the adjacency index, over the bytes of
--                   its two files. Reads, Base and Pending are about its reads and its iteration over
--                   neighbors; Build is `build`, with Sorting, Offsets (the table), Writes (what is
--                   read where it wrote) and Built; Compaction is the scan and `compact`, with
--                   Finishing (its loops have fuel for a round a byte, which is enough), Stale and
--                   Compacted (what the files keep past what is written) and Keeps.
--   HashIndex       crates/lightning-core/src/storage/index/hash_index.rs: the index of a column by
--                   hash, a file of buckets. Its pages are read as their link and their entries.
--                   Children: Values (the bytes of a key) with RoundTrip; Resize (the scan of all
--                   entries, and the doubling); Pairs, Keys and Searches say what the entries of a
--                   page stand for; Chains, Writes, Inserts and Deletes are about the linked pages of
--                   a bucket, Refusals about keys that are not stored; Represents and Updates see
--                   the index as rows of keys, Calls and Entries are about sequences of calls, Pages
--                   about the size of pages.
--   FreeSpace       crates/lightning-core/src/storage/free_space_manager.rs. Child: Queues.
--   TokenCache      crates/lightning-server/src/auth/cache.rs. Children: Bloom, Answers.
--   CircuitBreaker  packages/lightning-rust/src/circuit_breaker.rs. Children: Invariant, Outcomes,
--                   Probing.
--   Prelude         what the modules share: Tests (Boolean tests, case lemmas), Lists, Results (Rust's
--                   `Result`), HashMap, Groups (elements grouped by shard), Bits (binary digits, masks
--                   and shifts), Bytes (little-endian numbers, places of a buffer). The child Tests of a component holds runs of it.
--
-- How they meet. Transactions calls the operations of RowVersion itself: its state holds a table's
-- row versions as RowVersion has them. The operators know each other only by the interface of
-- Operators: a child is any step function on any state. Wal.Bytes.Replay hands the records that it
-- reads to the state of Wal, and Cdc polls by the reader of Wal.Bytes. Column compresses and reads by
-- the interface of Compression.Algs, for any codec that keeps its promise. PageMerge and the others
-- stand alone here, as the code between them is not modelled.
--
-- Conventions. A method that takes `&mut self`, or locks inside, is a function from the state to the
-- state and the answer. An operation is taken as atomic, and interleavings are sequences of operations.
-- (In the source, `is_visible` and the token cache's `check` and `rebuild` take their locks one after
-- the other.) The writer of the log appends at the file's end. An error is `err` of Result.
-- A hash map is an association list in which no key stands twice.
--
-- Machine integers. A u64 is a native number; where the code adds, the sum is taken `% 2 ^ 64`, and a
-- theorem that needs the absence of a wrap has the bound as a hypothesis. The page word keeps its
-- masks and shifts.
--
-- Fuel. `skip_next` pulls chunks until it finds a row to give: it needs one unit more than the chunks that
-- the child still has. `read_u64_batch` takes at least a byte in each round: it needs more units than
-- the last byte's number. The loop of `for_each_base_neighbor` handles the entries of one page in a
-- round: two units are enough within a page, and none are where an entry is cut by a page's end.
-- The reader of the log and `replay` over bytes need more units than the log has bytes after the cursor,
-- since a record takes a byte at least. A packed value of n bits is written and read in n rounds at
-- most; a block of n values has n runs at most, and a column of n values n blocks; a page is read in
-- fewer runs than it has bytes. The links of a bucket of the hash index lead to later pages, so that a
-- walk takes fewer rounds than the file has pages, and an insertion one more. Every other loop is structural.
--
-- Parameters. `order` is the iteration of a HashMap over the groups of a commit; `hash_item` is the SHA-256 of a token, cut into four words; `serialize` and
-- `deserialize` are bincode's; the clock's answers are arguments. The buffer manager, the log, the
-- catalog and the file system enter commit and save by their outcomes: whether a call succeeds. The
-- digest of the log's records is CRC-32C; `hash` is the standard library's DefaultHasher over a value;
-- the outcome of an fsync is an argument. Column and Analyzer
-- take the cast of a float to an integer and the estimate of distinct values, which is computed with
-- floating point numbers.
--
-- Not modelled. The undo of pages, the timestamps of merged pages and their flush, the buffer manager,
-- the scans and writes of columns, strings, the codec of floats, the opening, repair and archiving of
-- the log, the indexes of vectors and texts, the catalog, the language's front end (parser, binder,
-- planner, optimizer), the evaluation of expressions and the other operators, the memory API, the bindings,
-- the server's routes and its user store, and the transports of the clients. Of these, the parser,
-- the formats of Arrow, and the code that calls the operating system, sockets or cryptography rest on
-- libraries that are not in the repository. File contents reach Csr as a function from positions to
-- bytes, the pages all present, and its CRC-32C is a parameter.
pub mod Prelude
pub mod RowVersion
pub mod Transactions
pub mod PageState
pub mod Operators
pub mod CircuitBreaker
pub mod TokenCache
pub mod Wal
pub mod Cdc
pub mod PageMerge
pub mod Compression
pub mod Column
pub mod Csr
pub mod FreeSpace
pub mod HashIndex
