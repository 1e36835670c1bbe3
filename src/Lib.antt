-- ===== src/Lib.antt =====
-- cultnet-rs: a library for nodes that exchange documents over framed TCP and over reliable
-- datagrams (RUDP). This library models its
-- transports, its messages, replication, snapshot queries, service identities, tokens, the deployment brake and schema discovery, and
-- proves what makes them correct.
--
-- The program's parts and the files that model them (paths from the repository's root):
--
-- * Framing (src/framing.rs). A stream of bytes is cut into frames, each behind its length in four
--   bytes. `encode_frame` and `LengthPrefixedMessageFramer` are Framing.encode_frame and
--   Framing.push; push's loop runs on as much fuel as the buffer has bytes, and each round takes
--   four or more, so the loop ends at its own test (Framing/Parse).
-- * RUDP packets (src/rudp.rs). Rudp/Packet has the packet, Rudp/Codec `encode_rudp_packet` and
--   `decode_rudp_packet`; the encoder's zeroed vector is written as the fields in the order of
--   their offsets.
-- * The RUDP session (src/rudp.rs). `CultNetRudpSession` is the record of Rudp/State, and a method on
--   `&mut self` is a function from the session to its result and the session that it leaves, also
--   after an error. Rudp/Acks has `remember_received`, `ack_state` and `apply_acknowledgements`;
--   Rudp/Create the packets, the reliable queue and the handshake; Rudp/Send `send_many`;
--   Rudp/Fragments `reassemble`; Rudp/Ordered `deliver_ordered` and `drain_ordered`; Rudp/Receive
--   `receive`; Rudp/Timers `check_timeout` and `due_resends`. `drain_ordered` runs on as much
--   fuel as frames wait, and each round takes one out. Rudp/Queue/Steps puts the methods together
--   as the steps of a state machine.
-- * The transport over a UDP socket (src/rudp.rs). Rudp/Socket and Rudp/Socket/Receive hold
--   `CultNetRudpSocketTransportConnection`, which calls the session and the codec; Rudp/Profile holds its profile
--   and the options of its channels; Rudp/Socket/Channels relates the two.
-- * Transports (src/transport.rs and the transport types of src/contracts.rs). Transport has the
--   profiles and the statistics, Transport/Reconnect the reconnect policy, Transport/TcpFramed a
--   connection that sends and reads frames on a byte stream.
-- * Messages (src/contracts.rs). Message has the messages and the records in them, and
--   Message/Validate `validate_message`. Message/Wire has the values of rmpv as an interface of constructors and
--   accessors, and the readers and writers of their parts; Message/Raw the raw messages of
--   cultnet.schema.v0; Message/Legacy those of gamecult.networking.v0; Message/Codec `parse_cultnet_message` and
--   `encode_cultnet_message_for_wire`, which choose between them.
-- * Replication (src/replication.rs). Replication has the document registry, Replication/Create the
--   messages that it makes of documents and of stored envelopes, Replication/Apply those that it applies to a
--   cache.
-- * Snapshot queries (src/snapshot_query.rs). Snapshot has the read-only policy and
--   `serve_read_only_raw_snapshot`, which asks the registry whether a schema is bound; Snapshot/Query has
--   the client's query. The records of the source are an argument.
-- * Service identity (src/service_identity.rs). Identity has the profiles and the checks of anchors,
--   Identity/Signing the bytes that are signed, signing and verification, Identity/Store the identity
--   that is opened from its store.
-- * The deployment brake (src/idunn_deployment_brake.rs). Brake has the record and its validation,
--   Brake/Evaluate its evaluation, which calls the verification of Identity/Signing.
-- * Tokens and secrets (src/security.rs). Security has the options, `encrypt_string`, `decrypt_string` and
--   the session tokens. A keyed hash takes a key of any length, so making a token does not fail.
-- * Schema discovery (src/schema_discovery.rs). Schema has the registry, its catalog and
--   `stable_stringify`, whose hash it advertises. The values of an object are written before the entries
--   are sorted; the digest of a text is an argument. Schema/Embedded has `schema_registration`.
--
-- Base holds what the parts share: tests and lists over the native numbers, `Outcome` for a value,
-- an error or a panic, `BTreeMap` as an association list in the order of its keys, big-endian
-- numbers, and strings as lists of their UTF-8 bytes.
--
-- Conventions. The clock is an argument. A `u32` sequence that is raised beyond its type panics, as
-- `checked_add(..).expect(..)` does and as the plain `+` does where overflow is checked; counters
-- of 64 bits are not cut. Widths of bytes and lengths on the wire are cut as the code cuts them. The
-- socket is an argument: what `send_to` returns, and the datagram that `recv_from` finds; the
-- connection keeps the datagrams that it has sent. A `BTreeSet` is a `BTreeMap` to the unit. Error
-- messages are names without their text.
--
-- Other packages are arguments: an operation of theirs is a function, and what the code relies on
-- is a record of laws that the theorems take (Value of Message/Wire for rmpv, IsBase64, IsCrypto, IsCipher, IsClock; a
-- CultCache of Replication/Apply has none). Message/Codec/Toy, Base/Base64/Letters and Identity/Toy
-- meet these laws with concrete functions. The messages of cultnet.schema.v0 that serde writes and reads are
-- modelled as calls of it, and nothing is supposed of what it gives.
--
-- Not modelled: the table of built-in schemas of src/schema_discovery.rs, which names data files, and provider health
-- (src/provider_health_contracts.rs); random nonces and the development
-- presets of the options; of service identity, enrolment and export, which write files, and the platform's protection of seeds; traces to stderr;
-- the pauses between fragments; the example program and the tests.
pub mod Base
pub mod Brake
pub mod Framing
pub mod Identity
pub mod Message
pub mod Replication
pub mod Rudp
pub mod Schema
pub mod Security
pub mod Snapshot
pub mod Transport
