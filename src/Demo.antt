-- ===== src/Demo.antt =====
-- The example server of the repository's demo.
pub mod Text
pub mod Peers
pub mod Gm
pub mod Front
