-- ===== src/Lib.antt =====
-- A mesh node that speaks the Yggdrasil wire protocol: its message formats, the links to its peers,
-- the spanning tree that the nodes agree on, the Bloom filters and the paths by which nodes find each
-- other, the encrypted sessions between them, and the fixed-capacity table of its core.
--
-- The parts and how they interact. A link is a byte stream; `LinkSet` owns the live links and sends
-- frames over them. A frame is a length, a type byte and a payload, and the payload is a message of
-- the tree, of path finding or a traffic packet. The router answers the messages of the tree,
-- keeps what other nodes have announced, and chooses its parent by the roots that its neighbours
-- lead to. Lookups are multicast along the tree to the peers whose Bloom filters hold the transformed
-- key; the notify that answers one teaches a path, and packets go greedily to the peer that is
-- closest in the tree. Sessions seal what the packets carry. The table is the map of the
-- allocation-free core, and holds which peers are on the tree.
--
-- Which file models which part:
--   Prelude: lists, Boolean tests, bytes, masks, maps and sets over native numbers. `Prelude.Map`
--     is `HashMap` with a numeric key, each key once; `Prelude.Words` is u64 with its wrap-around.
--   Error: core/src/error.rs and src/error.rs; `Result` with do blocks for the question mark.
--   Crypto: ed25519_dalek as a record of operations and laws, which the definitions take as an
--     argument; `toy` is a scheme with these laws, for the examples.
--   Wire.Uvarint, Wire.PortPath, Wire.Frame: src/frame.rs, with `read_frame_from` and
--     `write_frame_to` of src/link.rs. `write_uvarint_at` is `write_uvarint` into a buffer.
--   Wire.Signed: `SigReq`, `SigRes` and `Announce` of src/tree.rs. `encode_req` is
--     `SigReq::encode`, `check_announce` is `Announce::check`, and so on.
--   Wire.Lookup: `PathLookup`, `NotifyInfo`, `PathNotify` and `PathBroken` of src/pathfind.rs.
--   Wire.Traffic: `Traffic` of src/traffic.rs.
--   Links: `LinkSet` of src/link.rs. `add_link`, `remove_link`, `no_links` and `write_peer` are
--     `add`, `remove`, `new` and `write_all`. A stream is any type with a write that takes bytes or
--     fails, and a read that gives the next frame or an error.
--   Tree.State: `TreeState` of src/tree.rs with src/peer.rs, `update`, `expire`, `handle_announce`.
--   Tree.Walks: `root_and_dists` and `ancestry`.
--   Tree.Messages: `new_req`, `send_req`, `handle_request`, `handle_response`, `use_response`,
--     `become_root`, `send_all_reqs`, `send_announces`.
--   Tree.Choice: `cost`, `link_cost` and `fix`; `choose` is its scan of the candidates.
--   Address: core/src/address.rs, whose functions src/address.rs repeats.
--   Bloom.Hash, Bloom.Filter: the Murmur3 hash and `BloomFilter` of src/bloom.rs. `take_words` and
--     `put_words` are the loops over the words of its codec.
--   Bloom.Routing: `BloomState` and the operations of a router on it. `fix_peer`, `advertise` and
--     `forward_all` are the loops of `bloom_fix`, `bloom_maintenance` and `multicast`;
--     `dropped_no_link` of the router is a field here.
--   Session.Boxes, Session.Init, Session.Keys: crypto_box and sha2 as a record of operations and laws,
--     `SessionInit` and `Session` of src/session.rs. `count_send` and `seal_traffic` are the halves
--     of `encrypt`; `read_header`, `case_of` and `open_body` are the steps of `decrypt`.
--   Session.Handlers: `SessionState` and the handlers of src/session.rs, with `next_init_seq` of the
--     router. `open_session`, `handle_session_init`, `handle_session_traffic` and `deliver` are arms of
--     `handle_session_bytes`. `Host` is the part of `Router` that they use; the network
--     (`net_send`) and the node protocol (`handle_proto`) are arguments, and so are the drawn keys.
--   Clock: `Instant` of core/src/clock.rs.
--   Proto: src/proto.rs. `Node` is the part of `Router` that answers requests; `concat_loop` is the loop
--     of `concat_keys`; `proto_send` (in Session.Handlers) and the
--     text of the answer about the node itself are arguments.
--   Route: `root_path_for`, `coords_dist` and `greedy_next` of src/pathfind.rs.
--   Paths: `PathState` and the handlers of src/pathfind.rs, with `handle_inbound_traffic` of
--     src/traffic.rs. `accept` is the part of `handle_notify` that takes a path in, `flush` the part
--     that sends what was held. `Net` is the part of `Router` that they use; `session_send` and
--     `handle_session_bytes` of src/session.rs are arguments.
--   Table: core/src/table.rs. `insert_loop` and the other loops are the probes; `place` and
--     `place_full` are the two ways an insertion ends; `InsertResult` is the result of `insert`.
--   Examples: the theorems at concrete inputs, and tests.
--
-- How state and effects are modelled. An operation takes the state and returns the state after it
-- with its result. Keys and signatures are the numbers that their bytes spell, the first byte the
-- highest, which keeps their order. Instants and durations are nanoseconds, and an operation that
-- asks a clock or a random generator takes the answer as an argument; an operation that asks a clock
-- twice takes one answer. The sum of an instant and a duration does not overflow. The bytes that a
-- key writes to a hasher are chosen by the standard library, so `Key` has them as a field. A panic
-- of `expect` in the encoders is an error, and so are that of an index in `handle_lookup` and that of a
-- frame whose length does not fit its five bytes. A key that is drawn at random is an argument.
--
-- Fuel and bounds. The varint writers and counters recurse on the accessibility of the number, which
-- loses seven bits a round; the reader makes ten rounds, a path takes 129, the probes of the table
-- take as many rounds as it has slots. `root_and_dists` has one round for each known key and one more,
-- `ancestry` has two more; `root_path_for` has one more. `handle_notify` has fuel for the notifies
-- that a notify leads to at the same node, and its callers give it one round. The other loops are over
-- lists.
--
-- What is not modelled: the expiry of sessions and the sending again by the router, the handshake,
-- the router's dispatch, the driver, the beacons of multicast, the views, the client, and the
-- transports (TLS, QUIC, WebSocket), which are sockets and libraries. The texts of addresses, logs and texts of errors are left out everywhere.
pub mod Prelude
pub mod Error
pub mod Crypto
pub mod Clock
pub mod Wire
pub mod Links
pub mod Tree
pub mod Address
pub mod Bloom
pub mod Session
pub mod Proto
pub mod Route
pub mod Paths
pub mod Table
mod Examples
