-- ===== src/Examples.antt =====
-- Tests, and the theorems at concrete inputs.
pub mod Wire
pub mod Frames
pub mod Tables
pub mod Codec
pub mod Paths
pub mod Links
pub mod Unpacked
pub mod Sequences
pub mod Indexes
pub mod Workers
pub mod Filetypes
mod Writers
