-- ===== src/Linker.antt =====
-- A2/P1/linkx20.c: the linker of vmx20 object files.
pub mod Object
pub mod Output
pub mod Patch
pub mod Outcome
pub mod Sections
pub mod Image
pub mod Distinct
pub mod Resolve
pub mod Loads
pub mod Whole
mod Tests
