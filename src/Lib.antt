-- ===== src/Lib.antt =====
-- furcate-mesh: a fabric of peers on a local network. Each peer gossips heartbeats and the models
-- that it has loaded, decides by itself whether to serve a request or to forward it, and
-- transfers files by the hash of their content.
--
-- The crates and their files here, with paths from the repository's root:
--
-- - crates/furcate-mesh-core/src/lib.rs: Core/PeerId (`PeerId`, its derived equality and order,
--   `to_hex`, `short`, `from_hex`), Core/Clock (`HybridLogicalClock`; Core/Clock/Causal has
--   several peers that call `bump_past` before each of their events, as its documentation asks of
--   them), Core/Config (`MeshConfig`), Core/Event (`MeshEvent`), Core/Extensions (`MeshError` and
--   the data types of crates/furcate-mesh-core/src/extensions.rs). Every other crate uses these
--   types.
-- - crates/furcate-mesh-core/src/wire.rs: Core/Wire, the hex and base64 codecs of fields on the
--   wire and the CBOR form of events. A serializer is what it does with a string and with "none",
--   a deserializer is what it answers when it is asked for a string.
-- - crates/furcate-mesh-routing/src/lib.rs: Routing. The router's table is an association list
--   from peers to their states, `record_announce` and `record_heartbeat` are functions on
--   routers, and `route` is a function of the router. Routing/History and Routing/Reached say
--   what the table is after a list of calls, Routing/Known what that is without the router's
--   operations, Routing/Decides which answer of `route` is right. Routing/Journey has a request
--   that is asked of one router after another, with the number of forwards so far, as the
--   documentation of `route` has it; the repository does not yet send requests;
--   Routing/SameTarget has two peers with a router each.
-- - crates/furcate-mesh-transfer/src/lib.rs: Transfer (`ChunkHeader`, `ChunkVerifier`),
--   Transfer/Disk (reading and writing files), Transfer/Serve (`root_hash`,
--   `stream_file_chunks`), Transfer/Service (`register`, `serve`), Transfer/Pull
--   (`pull_with_options`). The cache directory is an association list from file names to
--   contents. A pull gets, as an argument, what the disk and the network do at each of its steps;
--   it returns its result and the directory that it leaves. Transfer/Concurrent has several pulls
--   into one directory: each call of the file system is a step, a name stands for an inode, and a
--   write that `tokio::fs` has taken may still be under way after a pull has returned an error;
--   pulls of one digest share its temporary file (Transfer/Concurrent/Active, Apart and Overlap).
-- - crates/furcate-mesh-discovery/src/lib.rs: Discovery (`parse_seed`, `resolve_to_peer`),
--   Discovery/Run (`register_local`, `Discovery::run`). A run gets what mDNS and the consumer do
--   as an argument, and returns the peers it delivers, the services it registers and its result.
-- - crates/furcate-mesh-transport/src/lib.rs: Transport (`key_for` and the other keys,
--   `Transport::new`, `publish`, `subscribe`). A sample is a key with a payload; a subscription
--   turns a list of samples into the items of its stream. Transport/Wildcards has the key
--   expressions `SUB_ALL_HEARTBEATS`, `SUB_ALL_MODELS` and `SUB_ALL_AGENT_STATE`.
-- - crates/furcate-mesh-identity/src/lib.rs: Identity (`save`, `load`, `load_or_generate`, and
--   the checks of the two certificate verifiers), Identity/Tls (`certified_key_from` and the two
--   `build`s), Identity/Directory (`default_config_dir`). The state is the key file with its
--   mode; whether the crate is built for Unix is part of what is outside.
-- - crates/furcate-mesh-cli/src/main.rs: Cli (the commands, the directories and what the outside
--   does), Cli/Watch (the loops and tables of `peers_list` and `model_list`; Cli/Watch/Printed
--   writes the lines out), Cli/Peers (`peer_id`, `peer_up`, `peers_list`), Cli/Models
--   (`model_push`, `model_pull`, `model_list`), Cli/Run (`main`). A command is a function from
--   the key files and cache directories to what it prints, puts, answers and registers, and to
--   the directories that it leaves; it calls the functions of the other crates.
--
-- Parameters, for code outside the repository, each with the behaviour that is documented for it:
-- the `hex` crate (Core/Hex), the `base64` engines (Core/Base64), IEEE comparison of f64
-- (Core/Float), the parser of socket addresses (Discovery), the Zenoh configuration and the JSON
-- form of events (Transport), the matching of keys with key expressions (Transport/Matching),
-- Ed25519 keys with their file formats (Identity), rustls's keys and signatures (Identity/Tls),
-- environment variables (Identity/Directory), BLAKE3 with its streaming form and the JSON form of
-- a chunk header (Transfer), the errors of serde and ciborium (Core/Wire). The files of Tests
-- have a concrete instance of each, run the models on concrete inputs and apply the theorems
-- there.
--
-- Bounds: u32 and u64 stand in ℕ with their saturation written out, and IsClock says that they
-- fit. An `Instant` is a count of nanoseconds, and differences stop at zero. A string is the list
-- of its UTF-8 bytes, and bytes are numbers. The loops over a file recur on what is left to read,
-- so that they need no fuel: a read gives at least one byte before the end of the file. An
-- integer is printed with fuel for 20 digits, and a u64 has no more (value-decimal in
-- Prelude/Text/Decimal). A request is followed with fuel for its forwards, of which there are no
-- more than the greatest hop budget. A directory or file is known by its name: two names for one
-- directory are two directories, and a digest is a plain file name. The window of a listing is
-- the list of the items that come before a wait elapses or the stream ends. An async method that
-- holds the lock of the table to its end is one atomic step, and interleavings of tasks are the
-- orders of such steps.
--
-- Not modelled: the parsing of arguments, logging, the messages inside errors, the timeout of a
-- pull (the replies that arrive before the channel closes are an argument), changes of the cache
-- directory by anything but pulls. In Transfer/Pull a write that fails leaves the temporary file
-- as it was; in Transfer/Concurrent it may leave anything there. The discovery that a command
-- starts runs to its end, also where the command returns before it: what it registers is then the
-- most that it could register.
pub mod Prelude
pub mod Core
pub mod Routing
pub mod Transfer
pub mod Transport
pub mod Discovery
pub mod Identity
pub mod Cli
pub mod Tests
