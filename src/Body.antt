-- ===== src/Body.antt =====
-- core/packet.py: the body of a packet.
pub mod Table
pub mod Offsets
pub mod Tables
pub mod Typed
pub mod Slices
pub mod Inline
pub mod Regions
pub mod Extension
pub mod Words
pub mod Tiles
pub mod Sections
pub mod TensorBody
pub mod Contracts
