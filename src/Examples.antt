-- ===== src/Examples.antt =====
-- Concrete runs.
pub mod Tables
pub mod Packets
pub mod Wire
mod Console
mod Segments
mod Flow
mod Neighbors
