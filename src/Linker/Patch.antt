-- ===== src/Linker/Patch.antt =====
-- What the linker writes into an instruction is what the simulator of A2/P2/vmx20.c reads.
use unh_cs.Common.{ℕ, ◌+◌, ◌%◌, ◌^◌, ◌<◌, ◌≡◌, true, false, arith}
use unh_cs.Common.Word.{add32, sub32}
use unh_cs.Vmx.Decode.{reg1, reg2, addr20, addr16}
use unh_cs.Linker.Output.{is_addr20, is_addr16, rewrite_instr}

-- An instruction with a 20-bit displacement, at `pc` and with its definition below 2 ^ 19: rewritten,
-- it keeps its opcode and its register, and the address that it refers to, counted from the next
-- instruction as the simulator does, is the definition.
pub addr20-rewrite_instr :
    (definition pc instr : ℕ)
    → is_addr20 (instr % 256) ≡ true
    → definition < 2 ^ 19
    → pc < 2 ^ 19
    → let w = rewrite_instr (sub32 definition (pc + 1)) instr in
      (w % 256 ≡ instr % 256) × (reg1 w ≡ reg1 instr) × (add32 (add32 pc 1) (addr20 w) ≡ definition)
unfolding rewrite_instr add32 sub32 reg1 addr20
addr20-rewrite_instr definition pc instr is hd hp = rw is (ground arith, ground arith, ground arith)

-- An instruction with a 16-bit displacement, at `pc` and with its definition below 2 ^ 15:
-- rewritten, it keeps its opcode and both of its registers, and the address that it refers to is
-- the definition.
pub addr16-rewrite_instr :
    (definition pc instr : ℕ)
    → is_addr20 (instr % 256) ≡ false
    → is_addr16 (instr % 256) ≡ true
    → definition < 2 ^ 15
    → pc < 2 ^ 15
    → let w = rewrite_instr (sub32 definition (pc + 1)) instr in
      (w % 256 ≡ instr % 256)
      × (reg1 w ≡ reg1 instr)
      × (reg2 w ≡ reg2 instr)
      × (add32 (add32 pc 1) (addr16 w) ≡ definition)
unfolding rewrite_instr add32 sub32 reg1 reg2 addr16
addr16-rewrite_instr definition pc instr not20 is hd hp =
    rw (not20, is) (ground arith, ground arith, ground arith, ground arith)
