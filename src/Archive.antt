-- ===== src/Archive.antt =====
-- The archive format of src/zupt_format.c: header, footer, integrity trailer, block frames, and the
-- way from a frame to the bytes of a file.
pub mod Error
pub mod Header
pub mod Locate
pub mod Trailer
pub mod Cipher
pub mod Unpack
pub mod Sequence
pub mod Block
pub mod Destinations
pub mod Index
