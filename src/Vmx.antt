-- ===== src/Vmx.antt =====
-- A2/P2/vmx20.c: the simulator of the vmx20 processor.
pub mod State
pub mod Decode
pub mod Memory
pub mod Execute
pub mod Load
pub mod Disassemble
pub mod Run
pub mod Stack
pub mod Effects
pub mod Ending
pub mod Schedules
pub mod Encode
pub mod Agreement
pub mod Legality
mod Tests
