-- ===== src/Vmx/State.antt =====
-- The constants and structs of A2/P2/vmx20.c and vmx20.h. Words are bit patterns below 2 ^ 32.
use unh_cs.Common.{ℕ, ◌/◌, List}

abbrev pub fp : ℕ
fp = 13

abbrev pub sp : ℕ
sp = 14

abbrev pub pc : ℕ
pc = 15

-- 0xfffff / sizeof(int32_t)
abbrev pub mem_size : ℕ
mem_size = 0xfffff / 4

-- `running` is the 1 that a core starts with; the others are the VMX20_ codes of vmx20.h.
pub data Status : Type 0 where
  running normal_termination initialize_failure file_not_found file_is_not_valid : Status
  file_contains_outsymbols divide_by_zero address_out_of_range illegal_instruction : Status

pub record Symbol : Type 0 where
  pub name : List ℕ
  pub address : ℕ

-- The mutexes and the trace flag only order or print what the other fields determine.
pub record Vm : Type 0 where
  pub memory : ℕ → ℕ
  pub entry_point : ℕ
  pub prog_end : ℕ
  pub num_processors : ℕ
  pub symbols : List Symbol

pub record Core : Type 0 where
  pub reg : ℕ → ℕ
  pub stack : ℕ
  pub status : Status
  pub pid : ℕ
