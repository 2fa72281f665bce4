-- ===== src/Tree.antt =====
-- src/tree.rs, with src/peer.rs: the spanning tree of a router, its announces and its choice of a
-- parent. A router has its signing key, a seed, and the public key of it. Times are nanoseconds, and
-- the time and the nonces that a function takes from the system are its arguments.
pub mod State
pub mod Walks
pub mod Messages
pub mod Choice
