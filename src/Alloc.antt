-- ===== src/Alloc.antt =====
-- A4/alloc.c: the allocator and its garbage collector.
pub mod Blocks
pub mod Tiles
pub mod Sweep
pub mod World
pub mod Scan
pub mod Kept
pub mod Marked
pub mod Marks
pub mod Roots
pub mod Collect
pub mod Frames
pub mod Closed
pub mod Endless
pub mod Passes
pub mod Find
pub mod Dump
pub mod Shown
mod Tests
