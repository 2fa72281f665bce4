-- ===== src/Examples.antt =====
-- The theorems at concrete inputs, and tests of the definitions.
mod Bloom
mod Session
mod Proto
mod Route
mod Paths
mod Wire
mod Table
mod Links
mod Tree
