-- ===== src/Wire.antt =====
-- The wire formats: src/frame.rs, the stream framing of src/link.rs, and the message codecs of
-- src/tree.rs, src/pathfind.rs and src/traffic.rs.
pub mod Uvarint
pub mod PortPath
pub mod Frame
pub mod Fields
pub mod Signed
pub mod Lookup
pub mod Traffic
