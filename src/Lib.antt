-- ===== src/Lib.antt =====
-- Verification of the Taiko MK1 sequencer and proposer (crates/driver, crates/primitives and parts of
-- crates/clients and crates/chainio).
--
-- The driver preconfirms L2 blocks while its operator is the sequencer and proposes them to L1 in
-- batches. A slot clock drives it. The lookahead reads the operators of the current and the next
-- epoch from the whitelist contract and keeps two windows of slots, for sequencing and for inclusion;
-- they decide the driver's status. Produced blocks go to the outstanding batch; a full batch goes to
-- the batch submitter, whose processor queues batches and posts one at a time through the poster,
-- which retries with rising fees until a deadline. A sync groups all soft blocks into batches by
-- their anchor, splits them by coinbase, moves them to a safe anchor and a valid time where they are
-- too old, and proposes them.
--
-- Files, and the code that they model:
--   Prelude       names and lemmas that all files share; Samples: data of the examples.
--   Slots         crates/primitives/src/lib.rs and time.rs: slots, epochs, timestamps. Children: Laws,
--                 Clock (the stream of ticks).
--   Window        the ring buffer Window of crates/driver/src/lookahead.rs. Children: Contains (what
--                 a query reads), Schedule (both calculate functions), End (end and is_new), Ranges (the
--                 merged ranges of the printer, with Merging and Shown).
--   Config        crates/driver/src/config.rs, child Clock; Status: crates/driver/src/status.rs.
--   Lookahead     Lookahead of crates/driver/src/lookahead.rs. Children: Laws (sync), Timing.
--   Fees          BlobTxFeesHints of crates/primitives/src/blob.rs. Child: Bounds.
--   Blob          the codec of crates/primitives/src/blob.rs. Children: Bytes (buffers and their panics),
--                 Bits, Reading, Groups (a description of a blob with no offsets), Encoding, Creation,
--                 Decoding, Rounds, RoundTrip, Sidecar (payloads of several blobs), Payload, Safety.
--   Batch         crates/primitives/src/taiko/batch.rs. Children: Adding, Sizes, Age, Splitting.
--   Blocks        crates/primitives/src/taiko/block.rs. Children: Contiguous, Outstanding.
--   BatchMap      crates/primitives/src/taiko/batch_map.rs. Children: Entries and Grouping (new),
--                 Coinbases, Reanchoring, Retimestamping.
--   Processor     crates/driver/src/batch_submitter/processor.rs and mod.rs. Children: Queue, Throttle.
--   Errors        crates/driver/src/batch_submitter/errors.rs.
--   Poster        crates/driver/src/batch_submitter/poster.rs. Children: Params, Fees, Retries,
--                 Posting (with Waiting).
--   Builder       crates/driver/src/block_builder/state.rs. Child: Waiting.
--   Syncer        crates/driver/src/sync/mod.rs. Child: Ranges.
--   Production    crates/driver/src/block_builder/mod.rs and crates/primitives/src/taiko/builder.rs.
--                 Child: Payloads.
--   Download      crates/driver/src/sync/soft_blocks.rs. Children: Conservation, Anchors, Delivery.
--   Signer        crates/primitives/src/taiko/deterministic_signer.rs. Children: Modular, Equation,
--                 Deterministic.
--   Inbox         crates/chainio/src/taiko/inbox.rs, around the calls. Child: ExtraData.
--   Anchor        crates/chainio/src/taiko/anchor.rs. Child: RoundTrip.
--   Preconf       crates/clients/src/taiko_preconf.rs. Children: Retries, Events (the websocket task).
--   Tasks         crates/primitives/src/task.rs. Child: Polling.
--   Driver        crates/driver/src/driver.rs and state.rs. Children: Reorgs, SlotTick, Proposals (the
--                 sync and its proposals), Sending and Handover (the L1 slot tick), Reposting (blocks
--                 that are posted again; child Order), Startup (with helpers.rs and
--                 crates/chainio/src/taiko/token.rs; children Checks, Syncing).
-- A Tests child holds examples. Definitions have the names of the functions that they model; a method
-- that changes its object returns the new object.
--
-- Numbers are natural numbers. Where the code uses u64 or u128 arithmetic that wraps, the remainder
-- is written out; saturating operations stop at the ends of the range. Sizes of data in memory do not
-- wrap. A byte is a number below 256. Loops over data recurse on the data; the rounds of a blob are
-- counted down from 1024, as in the code; splitting into chunks takes the length of its input as
-- fuel, one for each chunk at most; the retry loops count their attempts down as in the code, or
-- are given, like the poll loops and the loops of a sync, by the rounds that happen.
--
-- Parameters: the encoded length of a transaction, the estimate of the compressed size, the size of
-- compressed transactions, the KZG library, the hash function, the curve library and the ABI as
-- interfaces with their laws, and the replies of nodes, servers, contracts and clocks.
-- Not modelled: the RPC clients and contract bindings, the retry policy of the RPC transport, zlib, the
-- signals of the process, logs and metrics. The event loop only selects one of the modelled handlers.
pub mod Prelude
pub mod Slots
pub mod Window
pub mod Config
pub mod Status
pub mod Lookahead
pub mod Fees
pub mod Inbox
pub mod Batch
pub mod Blob
pub mod Blocks
pub mod BatchMap
pub mod Processor
pub mod Errors
pub mod Poster
pub mod Builder
pub mod Syncer
pub mod Download
pub mod Preconf
pub mod Anchor
pub mod Signer
pub mod Tasks
pub mod Production
pub mod Driver
pub mod Samples
