-- ===== src/Lib.antt =====
-- The notarized snapshot archive: a service that accepts the state of a product passport, gives it
-- a sequence number and an instant, optionally anchors it in a transparency log, signs it, and
-- keeps it in an append-only journal with one document per snapshot.
--
-- The parts, the files that model them and their sources:
--   * Hex: src/hex.rs. `hex_encode`, `hex_decode`.
--   * Civil, Time: src/time.rs. The calendar (`days_from_civil`, `civil_from_days`), and
--     `Timestamp::parse` and its display. A timestamp is its seconds, an integer.
--   * Model: src/model.rs. Anchoring (outcomes of the anchoring hop), Record (`SnapshotRecord`, its
--     canonical bytes), Document (the served document), Seal (`seal`), Journal (the journal value
--     of a record), Rebuild (the bytes that a verifier rebuilds from a document).
--   * Store: src/store.rs. Files (the journal and the snapshot directory, and the answers of the
--     operating system), Opening (`open`, `replay`, `verify_snapshot_files`), Appending
--     (`append_snapshot`), Index (`get`, `list`), Audit (`audit_json`). An operation that changes
--     files returns its result and the files that it leaves behind, also when it fails. Lines has
--     the journal of given records; Writes the files after a write; Refines the abstract store, a
--     list of records; Listing what a listing has to hold. Heal, Tampered, Crash and Recovery are
--     about files that are missing, changed or torn. A file that cannot be opened for writing stays
--     as it was.
--   * Http: src/http.rs. Url, Query (`encode_query_component`), Chunked (`decode_chunked_body`),
--     Response (the head of a response), Request (`request`, `json_request`). A connection is a
--     parameter: the reads that follow the bytes that were written, or an error. A panic is a
--     value.
--   * LogAnchor: src/log_anchor.rs. The configuration of the log, and `anchor`.
--   * Keyring: src/keyring.rs. The notary's key, from the environment or from the development seed
--     (`from_env_map`), and its public view (View).
--   * Api: src/api.rs. Requests (the checks of a request), Responses (`build_response` and its
--     kin), Ingest (`create_snapshot`), Handlers (the other handlers), Discovery (the discovery
--     document), Config (`Config`, `AppState`; Contract says what each variable means), Start
--     (`run`, up to its socket), Router (a call of any handler, and sequences of calls). The ingest
--     holds the `mutations` lock from the reservation to the append, so it is one step from a store
--     to a store; the clock and the answer of the log are arguments.
--   * External: serde_json, unidpp_model and unidpp_signatif, as parameters; `Documented` states
--     what the archive relies on. Json: the values of serde_json that the source matches on. A
--     printed value is relied on to be read back only if its arrays and objects are nested at most
--     127 deep, as the parser's recursion limit is 128, and its numbers are u64, as floats are not
--     exact without the feature float_roundtrip. In the journal the receipt of the log stands two
--     levels deep, so that the theorems on restarts ask for receipts nested at most 125 deep and
--     with no other numbers (`IsReadable` of Model/Journal/Readable); the source does not check
--     this.
--   * Prelude, Result, Text: integers, lists, results, texts as UTF-8 bytes, decimal text, lines,
--     searches in texts, UTF-8 with replacements.
--   * Examples: a concrete External, a concrete log, and runs of the theorems.
--
-- Bounds and fuel: numbers of the source are u64 and stay below 2 ^ 64 where a text is read back;
-- the recursion is on the lists of bytes, lines, records and reads. Trimming is given the length of
-- the text as fuel, and every step takes a byte away. The decoding of a chunked body is given one
-- round more than there are bytes, and every round moves on. An addition of positions that
-- overflows a usize is a panic of the model. Sums of seconds are taken in the integers: an i64
-- holds them for every date of four digits of year.
--
-- Not modelled: the matching of paths by axum, the OpenAPI document, the listening socket, and
-- `TestServer` (src/api.rs); the clock, and the conversions of timestamps to and from unidpp_model
-- (src/time.rs); src/lib.rs and src/main.rs, which declare modules and start the server. The kind
-- of an error of the client is not kept, its text is. A path that cannot be tested for existence
-- and a file that is read in part are not distinguished from a missing one.
pub mod Prelude
pub mod Result
pub mod Text
pub mod Hex
pub mod Http
pub mod Civil
pub mod Time
pub mod Json
pub mod External
pub mod Model
pub mod Store
pub mod Keyring
pub mod LogAnchor
pub mod Api
pub mod Examples
