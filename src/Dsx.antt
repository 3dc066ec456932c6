-- ===== src/Dsx.antt =====
-- A1/P2/dsx20.c and A1/P2/dsx20_linear.c: the disassemblers of vmx20 object files.
pub mod Tables
pub mod Parse
pub mod Marks
pub mod Follow
pub mod Reach
pub mod Finish
pub mod Bounds
pub mod Object
pub mod Print
pub mod Listing
pub mod Linear
pub mod Agree
pub mod Same
pub mod Rows
pub mod Names
pub mod Linked
pub mod Tests
