-- ===== src/Parallel.antt =====
-- The parallel pipeline of src/zupt_parallel.c and src/zupt_parallel.h: its slots, the work on one
-- block, and the protocol of the slots.
mod Slots
pub mod Worker
pub mod Pipeline
pub mod Writer
pub use Slots.*
