-- ===== src/Lib.antt =====
-- A model of the program's data path, and what is proved of it.
--
-- A receiver's lines reach the program as NMEA 0183 sentences. crates/nmea checks a line and reassembles
-- the sentences of a message; crates/ais de-armors the payload and decodes it, and encodes the messages
-- of sources that publish decoded data. worker buffers lines between its source and the ingest service,
-- which checks keys and publishes whole messages on subjects of the bus, and the pipeline drops the copies that several stations hear, decodes the others and publishes each on the
-- subject of its cell. The fan-out gives each client the messages of its boxes, and the snapshotter keeps the
-- fleet and serves it.
--
-- Base                shared names, lists and maps over native numbers, and `str::trim` (Base/Trim)
-- Ais/Bits            crates/ais/src/bits.rs: `Bits`, `from_payload` to `string`
-- Ais/BitsMut         crates/ais/src/encode.rs: `BitsMut`
-- Ais/Types           crates/ais/src/types.rs: the records and `Packet`
-- Ais/Fields, Ais/Reports, Ais/Decode
--                     crates/ais/src/decode.rs: the helpers, the records of each arm, the arms and `decode`
-- Ais/Encode          crates/ais/src/encode.rs: the encoders
-- Ais/Float           `f64` as a parameter; Ais/RoundTrip/Laws says what the round trips assume of it
-- Ais/Armor, Ais/BitList, Ais/RoundTrip
--                     proofs: armoring, bits as lists, and a module for each message; the lengths that
--                     messages need are in Ais/Decode/Lengths
-- Nmea/Number         Rust's readers and writers of small numbers
-- Nmea/Sentence       crates/nmea/src/lib.rs: `parse`
-- Nmea/Encode         crates/nmea/src/encode.rs: `to_sentences`
-- Nmea/Assembler      crates/nmea/src/assembler.rs: `Assembler`
-- Nmea/Delivery       proofs: sentences through the parser and the assembler
-- Radio               proofs: the encoder, the sentences, the assembler and the decoder together
-- Worker/Queue        worker/src/queue.rs: `LineQueue`
-- Worker/Backoff      worker/src/backoff.rs: `Backoff`
-- Worker/Finland      worker/src/finland.rs: `location_to_sentences` and `metadata_to_sentences`
-- Geo, Geo/Cover      crates/geo/src/lib.rs: `encode` and `BBox`, `cover`; Geo/Order says what is assumed of `f64`
-- Geo/Encode, Geo/Around, Geo/Covered
--                     proofs: the loop of `encode` by characters, and the cells of a cover
-- Feed                crates/feed/src/lib.rs: the raw envelope and `subjects`
-- Feed/Wire, Feed/Headers
--                     crates/feed/src/lib.rs: the stream message, `flatten_static_report`, the headers
-- Keys                crates/keys/src/lib.rs: `kind_of` and `Validator::validate`
-- Ingest              services/ingest/src/main.rs: `handle_line` and `producer_auth`
-- Pipeline/Dedupe     services/pipeline/src/dedupe.rs: `Window`
-- Pipeline/Enrichment, Pipeline/Handle
--                     services/pipeline/src/main.rs: the caches, `handle` and the loop around it
-- Fanout              services/fanout/src/main.rs: `ClientFilter` and the tiers
-- Fanout/Session      services/fanout/src/main.rs: `apply_subscription` and `client_session`
-- Fanout/Seed         services/fanout/src/seed.rs: the fleet that a client starts from, and `matches_seed`
-- Fanout/Sorted, Fanout/Shadows, Fanout/Heard
--                     proofs: the prefixes of a client and the subjects under them
-- Live                proofs: the pipeline and the fan-out together
-- Snapshotter         services/snapshotter/src/main.rs: `Vessel` and `consume`
-- Snapshotter/Warm    services/snapshotter/src/main.rs: `warm_from_history`
-- Snapshotter/Serve   services/snapshotter/src/main.rs: `snapshot_loop` and the handlers
-- Snapshotter/Fleet, Snapshotter/Warmed, Snapshotter/States, Snapshotter/Fresh, Snapshotter/Tokens
--                     proofs: the vessels, the states that the tasks reach, the answers, the internal token
-- Archiver            services/archiver/src/main.rs: the rows of a message, the buffer and `flush`
-- Archiver/Books, Archiver/Balance
--                     the numbers of rows that each round should leave; proofs: what becomes of the rows
-- Control/Tables      services/control/src/db.rs: the tables, with what a statement does to them
-- Control/Accounts, Control/Registry
--                     services/control/src/db.rs: the queries about users; about keys, stations, tiers and tokens
-- Control/Api, Control/Handlers
--                     services/control/src/api.rs and internal.rs: the handlers
-- Control/SignIn      services/control/src/auth.rs: OAuth, the mailed links; `current_user` of lib.rs
-- Control/Server      services/control/src/lib.rs: the requests that the router hands on
-- Control/Tables/Rows, Control/Accounts/Stable, Control/Handlers/Feeding
--                     proofs: the rows that a query finds, who signs in again, what feeding makes of a tier
-- Control/Server/Changes, Control/Server/Queries, Control/Server/Served, Control/Server/Kept
--                     proofs: a request is a sequence of statements that its caller may make
-- Control/Server/Revoked, Control/Server/Tokens, Control/Server/Roles, Control/Server/Bootstrap
--                     proofs: what holds however requests follow each other
-- Control/Session     services/control/src/session.rs: the signed cookie of a session
-- Control/Session/Expiry
--                     proofs: what a cookie is worth, and until when
-- Tests               concrete inputs
--
-- A `String` is the list of its bytes and an `Instant` a number. A state that a method changes is taken
-- and returned. A width is written out where Rust truncates, and a Rust panic is a result of its own
-- where input can reach it. Loops over a range, a text or a list are recursion on it; the loops with
-- fuel take the length of what they consume: `string_loop` a character of six bits a round,
-- `chunks_loop` a piece of the payload, `decimal_loop` a digit, `drain` a line of the queue. `encode_loop`
-- has five rounds for each character, one for a bit. `add`
-- indexes by the number of the fragment less one and would panic outside of the group; the model leaves
-- the parts alone there, and its theorems take sentences whose number is in range, as `parse` makes them.
--
-- `f64` is a parameter: the theorems that need arithmetic take the laws of `IsExact`, which say that the
-- scaled whole numbers of the protocol survive the division and the rounded product. The proofs on
-- cells take those of `IsOrdered`: the order of the degrees of the globe. The hasher of the
-- duplicates, the answers of the control plane, the clocks, `serde_json` with its values, the calendar,
-- the rounding to `f32`, the keyed hash of the sessions and the compression are parameters too. What the bus, a
-- socket and ClickHouse do with a message is part of an event; a session and the loops of the pipeline and the
-- archiver are runs over lists of events. The queue is modelled one call at a time.
--
-- Not modelled: sockets, NATS, HTTP, SQL and the text of JSON; the queries of the archiver, the pages,
-- the mail and the coverage grid of the control plane, and what the providers of a sign-in answer; the reconnecting loops of the worker and its other sources.
pub mod Base
pub mod Ais
pub mod Nmea
pub mod Radio
pub mod Worker
pub mod Geo
pub mod Feed
pub mod Keys
pub mod Ingest
pub mod Pipeline
pub mod Fanout
pub mod Live
pub mod Snapshotter
pub mod Archiver
pub mod Control
pub mod Tests
