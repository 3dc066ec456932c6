-- ===== src/Elf.antt =====
-- A1/P1/binary_info.c: what it prints of an ELF file.
pub mod File
pub mod Text
pub mod Dump
pub mod Symbols
pub mod Program
pub mod Headers
pub mod Accept
mod Tests
