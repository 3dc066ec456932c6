-- ===== src/Vmx/Disassemble.antt =====
-- disassemble of A2/P2/vmx20.c. The text is kept as a name and its operands.
use Prim.Native.String.{String}
use unh_cs.Common.{ℕ, ◌%◌, Option, none, some, List, [], ◌∷◌, ltb, not, if◌then◌else◌}
use unh_cs.Common.Word.{add32}
use unh_cs.Vmx.State.{Vm, Status, address_out_of_range, illegal_instruction}
use unh_cs.Vmx.Memory.{get_word}
use unh_cs.Vmx.Decode

-- `reg n` is printed `rn`, `number w` as the `int32_t` w, `offset w n` as `w(rn)`.
pub data Operand : Type 0 where
  reg : ℕ → Operand
  number : ℕ → Operand
  offset : ℕ → ℕ → Operand

pub record Line : Type 0 where
  pub name : String
  pub operands : List Operand

-- `bad` is the result 0 with its error code; an opcode that is none is printed all the same.
pub data Disassembly : Type 0 where
  good : Line → Disassembly
  bad : Status → Option Line → Disassembly

unfoldable pub operands_of : Decode.Format → ℕ → ℕ → List Operand
operands_of Decode.f_op word address = []
operands_of Decode.f_addr word address = number (add32 (add32 (Decode.addr20 word) address) 1) ∷ []
operands_of Decode.f_reg word address = reg (Decode.reg1 word) ∷ []
operands_of Decode.f_regconst word address =
    reg (Decode.reg1 word) ∷ number (Decode.addr20 word) ∷ []
operands_of Decode.f_regaddr word address =
    reg (Decode.reg1 word) ∷ number (add32 (add32 (Decode.addr20 word) address) 1) ∷ []
operands_of Decode.f_regreg word address = reg (Decode.reg1 word) ∷ reg (Decode.reg2 word) ∷ []
operands_of Decode.f_regoff word address =
    reg (Decode.reg1 word) ∷ offset (Decode.addr16 word) (Decode.reg2 word) ∷ []
operands_of Decode.f_regregaddr word address =
    reg (Decode.reg1 word)
    ∷ reg (Decode.reg2 word)
    ∷ number (add32 (add32 (Decode.addr16 word) address) 1)
    ∷ []
operands_of Decode.f_invalid word address = []

abbrev pub line_of : Decode.Op → ℕ → ℕ → Line
line_of op word address = record {
  name = Decode.op_name op;
  operands = operands_of (Decode.op_format op) word address;
}

-- The end of the function, on the format of the opcode.
abbrev pub graded : Decode.Format → Line → Disassembly
graded Decode.f_invalid l = bad illegal_instruction (some l)
graded _ l = good l

unfoldable pub disassemble : Vm → ℕ → Disassembly
unfolding operands_of
disassemble vm address =
    if not (ltb address vm.prog_end)
    then bad address_out_of_range none
    else elim (get_word vm address) [
      | none ↦ bad address_out_of_range none
      | some word ↦
          let op = Decode.op_of_byte (word % 256) in
          graded (Decode.op_format op) (line_of op word address)
    ]
