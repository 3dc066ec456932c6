-- ===== src/Dsx/Tables.antt =====
-- The opcodes of A1/P2/dsx20.h, and op_name and op_format of A1/P2/dsx20.c, which are switches over
-- the opcode byte, and of A1/P2/dsx20_linear.c.
use Prim.Native.String.{String}
use unh_cs.Common.{ℕ, List, [], ◌∷◌}
use unh_cs.Common.Fallible.{switch}
use unh_cs.Vmx.Decode.{
  Format, f_op, f_addr, f_reg, f_regconst, f_regaddr, f_regreg, f_regoff, f_regregaddr, f_invalid,
}

abbrev pub ins_halt : ℕ
ins_halt = 0x00

abbrev pub ins_load : ℕ
ins_load = 0x01

abbrev pub ins_store : ℕ
ins_store = 0x02

abbrev pub ins_ldimm : ℕ
ins_ldimm = 0x03

abbrev pub ins_ldaddr : ℕ
ins_ldaddr = 0x04

abbrev pub ins_ldind : ℕ
ins_ldind = 0x05

abbrev pub ins_stind : ℕ
ins_stind = 0x06

abbrev pub ins_addf : ℕ
ins_addf = 0x07

abbrev pub ins_subf : ℕ
ins_subf = 0x08

abbrev pub ins_divf : ℕ
ins_divf = 0x09

abbrev pub ins_mulf : ℕ
ins_mulf = 0x0a

abbrev pub ins_addi : ℕ
ins_addi = 0x0b

abbrev pub ins_subi : ℕ
ins_subi = 0x0c

abbrev pub ins_divi : ℕ
ins_divi = 0x0d

abbrev pub ins_muli : ℕ
ins_muli = 0x0e

abbrev pub ins_call : ℕ
ins_call = 0x0f

abbrev pub ins_ret : ℕ
ins_ret = 0x10

abbrev pub ins_blt : ℕ
ins_blt = 0x11

abbrev pub ins_bgt : ℕ
ins_bgt = 0x12

abbrev pub ins_beq : ℕ
ins_beq = 0x13

abbrev pub ins_jmp : ℕ
ins_jmp = 0x14

abbrev pub ins_cmpxchg : ℕ
ins_cmpxchg = 0x15

abbrev pub ins_getpid : ℕ
ins_getpid = 0x16

abbrev pub ins_getpn : ℕ
ins_getpn = 0x17

abbrev pub ins_push : ℕ
ins_push = 0x18

abbrev pub ins_pop : ℕ
ins_pop = 0x19

abbrev pub ins_nop : ℕ
ins_nop = 0x20

-- The case INS_INVALID has the result of the default in each of these.
unfoldable pub op_name : ℕ → String
op_name op =
    switch op
      ((ins_halt, "halt")
        ∷ (ins_load, "load")
        ∷ (ins_store, "store")
        ∷ (ins_ldimm, "ldimm")
        ∷ (ins_ldaddr, "ldaddr")
        ∷ (ins_ldind, "ldind")
        ∷ (ins_stind, "stind")
        ∷ (ins_addf, "addf")
        ∷ (ins_subf, "subf")
        ∷ (ins_divf, "divf")
        ∷ (ins_mulf, "mulf")
        ∷ (ins_addi, "addi")
        ∷ (ins_subi, "subi")
        ∷ (ins_divi, "divi")
        ∷ (ins_muli, "muli")
        ∷ (ins_call, "call")
        ∷ (ins_ret, "ret")
        ∷ (ins_blt, "blt")
        ∷ (ins_bgt, "bgt")
        ∷ (ins_beq, "beq")
        ∷ (ins_jmp, "jmp")
        ∷ (ins_cmpxchg, "cmpxchg")
        ∷ (ins_getpid, "getpid")
        ∷ (ins_getpn, "getpn")
        ∷ (ins_push, "push")
        ∷ (ins_pop, "pop")
        ∷ (ins_nop, "NOP")
        ∷ [])
      "unknown"

-- The cases of op_format.
abbrev pub format_cases : List (ℕ × Format)
format_cases =
    (ins_halt, f_op)
    ∷ (ins_load, f_regaddr)
    ∷ (ins_store, f_regaddr)
    ∷ (ins_ldimm, f_regconst)
    ∷ (ins_ldaddr, f_regaddr)
    ∷ (ins_ldind, f_regoff)
    ∷ (ins_stind, f_regoff)
    ∷ (ins_addf, f_regreg)
    ∷ (ins_subf, f_regreg)
    ∷ (ins_divf, f_regreg)
    ∷ (ins_mulf, f_regreg)
    ∷ (ins_addi, f_regreg)
    ∷ (ins_subi, f_regreg)
    ∷ (ins_divi, f_regreg)
    ∷ (ins_muli, f_regreg)
    ∷ (ins_call, f_addr)
    ∷ (ins_ret, f_op)
    ∷ (ins_blt, f_regregaddr)
    ∷ (ins_bgt, f_regregaddr)
    ∷ (ins_beq, f_regregaddr)
    ∷ (ins_jmp, f_addr)
    ∷ (ins_cmpxchg, f_regregaddr)
    ∷ (ins_getpid, f_reg)
    ∷ (ins_getpn, f_reg)
    ∷ (ins_push, f_reg)
    ∷ (ins_pop, f_reg)
    ∷ (ins_nop, f_op)
    ∷ []

unfoldable pub op_format : ℕ → Format
op_format op = switch op format_cases f_invalid

-- The earlier program has no case for NOP: there 0x20 is INS_INVALID.
unfoldable pub op_name_linear : ℕ → String
op_name_linear op =
    switch op
      ((ins_halt, "halt")
        ∷ (ins_load, "load")
        ∷ (ins_store, "store")
        ∷ (ins_ldimm, "ldimm")
        ∷ (ins_ldaddr, "ldaddr")
        ∷ (ins_ldind, "ldind")
        ∷ (ins_stind, "stind")
        ∷ (ins_addf, "addf")
        ∷ (ins_subf, "subf")
        ∷ (ins_divf, "divf")
        ∷ (ins_mulf, "mulf")
        ∷ (ins_addi, "addi")
        ∷ (ins_subi, "subi")
        ∷ (ins_divi, "divi")
        ∷ (ins_muli, "muli")
        ∷ (ins_call, "call")
        ∷ (ins_ret, "ret")
        ∷ (ins_blt, "blt")
        ∷ (ins_bgt, "bgt")
        ∷ (ins_beq, "beq")
        ∷ (ins_jmp, "jmp")
        ∷ (ins_cmpxchg, "cmpxchg")
        ∷ (ins_getpid, "getpid")
        ∷ (ins_getpn, "getpn")
        ∷ (ins_push, "push")
        ∷ (ins_pop, "pop")
        ∷ [])
      "unknown"

unfoldable pub op_format_linear : ℕ → Format
op_format_linear op =
    switch op
      ((ins_halt, f_op)
        ∷ (ins_load, f_regaddr)
        ∷ (ins_store, f_regaddr)
        ∷ (ins_ldimm, f_regconst)
        ∷ (ins_ldaddr, f_regaddr)
        ∷ (ins_ldind, f_regoff)
        ∷ (ins_stind, f_regoff)
        ∷ (ins_addf, f_regreg)
        ∷ (ins_subf, f_regreg)
        ∷ (ins_divf, f_regreg)
        ∷ (ins_mulf, f_regreg)
        ∷ (ins_addi, f_regreg)
        ∷ (ins_subi, f_regreg)
        ∷ (ins_divi, f_regreg)
        ∷ (ins_muli, f_regreg)
        ∷ (ins_call, f_addr)
        ∷ (ins_ret, f_op)
        ∷ (ins_blt, f_regregaddr)
        ∷ (ins_bgt, f_regregaddr)
        ∷ (ins_beq, f_regregaddr)
        ∷ (ins_jmp, f_addr)
        ∷ (ins_cmpxchg, f_regregaddr)
        ∷ (ins_getpid, f_reg)
        ∷ (ins_getpn, f_reg)
        ∷ (ins_push, f_reg)
        ∷ (ins_pop, f_reg)
        ∷ [])
      f_invalid
