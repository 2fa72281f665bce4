-- ===== src/Session.antt =====
-- src/session.rs: the encrypted sessions of a router. Keys are numbers of 256 bits, a key that the
-- source draws at random is an argument, and times are nanoseconds.
pub mod Boxes
pub mod Init
pub mod Keys
pub mod RoundTrip
pub mod Sequence
pub mod Replay
pub mod Aligned
pub mod Spent
pub mod Delivery
pub mod Stream
pub mod Opening
pub mod Handlers
