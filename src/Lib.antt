-- ===== src/Lib.antt =====
-- ph-reactor: the document store of a reactor node, and what makes two nodes agree.
--
-- A node keeps documents. A write is a signed action; a model turns the action into operations on
-- fields; the store checks the action, merges the operations, logs it and hands it to the sync layer,
-- and every other node does the same with what it is sent. The parts and their files:
--
-- * Doc (src/doc.rs): fields, vector clocks, operations. Doc/Clock is `VecClock`; Doc/Apply is
--   `apply_op`, whose mutable arguments are the record `Target`. Doc/Merge proves its convergence on
--   what a document shows (`View`), since maps are association lists whose order is of no meaning.
-- * Action (src/action.rs): the signed envelope. The record `Extern` holds the functions of other
--   crates (ed25519, SHA-256, `serde_json::to_vec`), and `Lawful` what their documentation promises.
-- * Model (src/model/): `Interface` is the trait as a record of functions, `Open` is `open@1`, `L1` is
--   the interpreter of JSON definitions, `Builtin` holds the definitions and `Registry` the lookup.
--   Named checks nest at most eight deep in the source, so the evaluator recurses on nine levels.
-- * Store (src/store.rs): `State` is `Inner` and `Entry`, with the docs directory as a record of maps
--   and a flag for whether writes succeed. `Admit` is steps 1 to 3d of `apply_action`, `Apply` the
--   rest, `Fold` the canonical order and `refold`, `Local` the local writes, `Read` what peers may
--   see, `Replay` the restart and `Verify` the audit. A function that may fail after it has changed
--   something returns the state beside its result.
-- * Blob (src/blob/mod.rs): chunks named by their hashes. Update (src/update/mod.rs): releases and the
--   order of versions; `Candidate` is `best_candidate` of src/settings/updates.rs over its offers.
-- * P2p (src/p2p/): `Codec` is the messages and their frames, `Invite` and `Cosign` the texts that
--   people carry, `Engine` the sync engine: its state, `Drives` (drives, join proofs, bans and
--   commands), `Publish` (gossip), `Serve` (requests), `Respond` (responses and pending models) and
--   `Tick`. What the engine hands to libp2p is a list of requests, dials, gossip and events, and what
--   libp2p and `hex` answer is the record `Net`. An instant is a number of milliseconds; a peer id is
--   its text. `Sync` asks a node repeatedly, each time with the clock that the capped answer left.
-- * Package (src/package/): manifests and their checks, `Trust`, and `Install` over a `Site`, which is
--   the store and two files. Model/Persist is src/model/persist.rs and Projection
--   is src/projection.rs. Processor is the filters and the specs of src/processor.rs.
-- * Json is `serde_json::Value`; Base holds maps, bytes, strings, results and Boolean tests.
-- * Tests has concrete inputs, with a toy signature scheme and an injective encoding of values.
--
-- A document id and a hash are the numbers that their bytes write. Counters and timestamps wrap at
-- 2 ^ 64 where the source adds to them. Strings are ordered by code points, which is the order of
-- their UTF-8 bytes. Loops recurse on the list they walk.
--
-- Not modelled: locks, the network, files beyond what the record of the disk holds, log lines that do
-- not parse, the text of errors (each is a constructor), libp2p's discovery, relay and hash-table events,
-- and the parts around the store: src/daemon.rs, the rest of src/settings/,
-- src/update/apply.rs, src/config.rs, src/query.rs, the reactions of src/processor.rs, src/tray/, views/.
mod Base
pub mod Json
pub mod Doc
pub mod Action
pub mod Model
pub mod Store
pub mod Blob
pub mod Update
pub mod P2p
pub mod Package
pub mod Projection
pub mod Processor
mod Tests
