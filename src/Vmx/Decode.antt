-- ===== src/Vmx/Decode.antt =====
-- The opcodes and formats of A2/P2/vmx20_macros.h, op_name and op_format of A2/P2/vmx20.c, and
-- the fields of an instruction word.
use Prim.Native.String.{String}
use unh_cs.Common.{ℕ, ◌+◌, ◌/◌, ◌%◌, ◌^◌, ◌==◌, if◌then◌else◌}
use unh_cs.Common.Word.{sar32}

pub data Op : Type 0 where
  halt load store ldimm ldaddr ldind stind : Op
  addf subf divf mulf addi subi divi muli : Op
  call ret blt bgt beq jmp cmpxchg getpid getpn push pop nop : Op
  invalid : Op

-- The cases of the switches over an opcode byte; what is no case is `default`.
unfoldable pub op_of_byte : ℕ → Op
op_of_byte b =
    if b == 0x00
    then halt
    else if b == 0x01
    then load
    else if b == 0x02
    then store
    else if b == 0x03
    then ldimm
    else if b == 0x04
    then ldaddr
    else if b == 0x05
    then ldind
    else if b == 0x06
    then stind
    else if b == 0x07
    then addf
    else if b == 0x08
    then subf
    else if b == 0x09
    then divf
    else if b == 0x0a
    then mulf
    else if b == 0x0b
    then addi
    else if b == 0x0c
    then subi
    else if b == 0x0d
    then divi
    else if b == 0x0e
    then muli
    else if b == 0x0f
    then call
    else if b == 0x10
    then ret
    else if b == 0x11
    then blt
    else if b == 0x12
    then bgt
    else if b == 0x13
    then beq
    else if b == 0x14
    then jmp
    else if b == 0x15
    then cmpxchg
    else if b == 0x16
    then getpid
    else if b == 0x17
    then getpn
    else if b == 0x18
    then push
    else if b == 0x19
    then pop
    else if b == 0x20
    then nop
    else invalid

pub data Format : Type 0 where
  f_op f_addr f_reg f_regconst f_regaddr f_regreg f_regoff f_regregaddr f_invalid : Format

unfoldable pub op_name : Op → String
op_name halt = "halt"
op_name load = "load"
op_name store = "store"
op_name ldimm = "ldimm"
op_name ldaddr = "ldaddr"
op_name ldind = "ldind"
op_name stind = "stind"
op_name addf = "addf"
op_name subf = "subf"
op_name divf = "divf"
op_name mulf = "mulf"
op_name addi = "addi"
op_name subi = "subi"
op_name divi = "divi"
op_name muli = "muli"
op_name call = "call"
op_name ret = "ret"
op_name blt = "blt"
op_name bgt = "bgt"
op_name beq = "beq"
op_name jmp = "jmp"
op_name cmpxchg = "cmpxchg"
op_name getpid = "getpid"
op_name getpn = "getpn"
op_name push = "push"
op_name pop = "pop"
op_name nop = "NOP"
op_name invalid = "unknown"

unfoldable pub op_format : Op → Format
op_format halt = f_op
op_format load = f_regaddr
op_format store = f_regaddr
op_format ldimm = f_regconst
op_format ldaddr = f_regaddr
op_format ldind = f_regoff
op_format stind = f_regoff
op_format addf = f_regreg
op_format subf = f_regreg
op_format divf = f_regreg
op_format mulf = f_regreg
op_format addi = f_regreg
op_format subi = f_regreg
op_format divi = f_regreg
op_format muli = f_regreg
op_format call = f_addr
op_format ret = f_op
op_format blt = f_regregaddr
op_format bgt = f_regregaddr
op_format beq = f_regregaddr
op_format jmp = f_addr
op_format cmpxchg = f_regregaddr
op_format getpid = f_reg
op_format getpn = f_reg
op_format push = f_reg
op_format pop = f_reg
op_format nop = f_op
op_format invalid = f_invalid

-- `word >> 8 & 0xf` and `word >> 12 & 0xf`
unfoldable pub reg1 : ℕ → ℕ
reg1 word = word / 2 ^ 8 % 16

unfoldable pub reg2 : ℕ → ℕ
reg2 word = word / 2 ^ 12 % 16

-- The macros over an `int32_t`; `x | 0xfff00000` keeps the low 20 bits and sets those above.
unfoldable pub extend_sign20 : ℕ → ℕ
unfolding sar32
extend_sign20 x = if sar32 x 19 == 0 then x else x % 2 ^ 20 + 0xfff0_0000

unfoldable pub extend_sign16 : ℕ → ℕ
unfolding sar32
extend_sign16 x = if sar32 x 15 == 0 then x else x % 2 ^ 16 + 0xffff_0000

-- `EXTENDSIGN20(word >> 12)`
unfoldable pub addr20 : ℕ → ℕ
unfolding extend_sign20 sar32
addr20 word = extend_sign20 (sar32 word 12)

-- `EXTENDSIGN16(word >> 16)`
unfoldable pub addr16 : ℕ → ℕ
unfolding extend_sign16 sar32
addr16 word = extend_sign16 (sar32 word 16)
