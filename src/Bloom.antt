-- ===== src/Bloom.antt =====
-- src/bloom.rs: the Bloom filters of the multicast, and what a router keeps of them.
pub mod Hash
pub mod Filter
pub mod Membership
pub mod Flags
pub mod Chunks
pub mod RoundTrip
pub mod Routing
pub mod Wide
pub mod Invariant
pub mod Coverage
pub mod Heard
