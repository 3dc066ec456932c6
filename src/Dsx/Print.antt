-- ===== src/Dsx/Print.antt =====
-- print_code of A1/P2/dsx20.c. A line is kept as its address, its word, a name and the operands.
use Prim.Native.String.{String}
use unh_cs.Common.{
  ℕ, zero, suc, ◌+◌, ◌/◌, ◌%◌, ◌^◌, Bool, false, not, Option, none, some, List, [], ◌∷◌,
  if◌then◌else◌,
}
use unh_cs.Common.Word.{add32}
use unh_cs.Vmx.Decode.{
  Format, f_op, f_addr, f_reg, f_regconst, f_regaddr, f_regreg, f_regoff, f_regregaddr, f_invalid,
}
use unh_cs.Vmx.Disassemble.{Operand, reg, number, offset}
use unh_cs.Dsx.Tables.{op_name, op_format, ins_nop}
use unh_cs.Dsx.Parse.{extend_bit20, extend_int16, is_marked}
use unh_cs.Dsx.Object.{ObjectSymbol, is_outsymbol}

-- What is printed behind the name; `undefined_symbol` is "[undefined]".
pub data Printed : Type 0 where
  plain : Operand → Printed
  undefined_symbol : Printed

pub record Row : Type 0 where
  pub pc : ℕ
  pub word : ℕ
  pub name : String
  pub operands : List Printed

-- The fields of an instruction: `(cur >> 8) & 0xf` and `(cur >> 12) & 0xf`.
unfoldable pub first_reg : ℕ → Printed
first_reg cur = plain (reg (cur / 2 ^ 8 % 16))

unfoldable pub second_reg : ℕ → ℕ
second_reg cur = cur / 2 ^ 12 % 16

-- `addr+pc+1`, unless the linker has yet to write the address.
unfoldable pub reference : List ObjectSymbol → (pc addr : ℕ) → Printed
reference outsymbols pc addr =
    if not (is_outsymbol outsymbols pc)
    then plain (number (add32 (add32 addr pc) 1))
    else undefined_symbol

unfoldable pub print_operands : Format → List ObjectSymbol → (pc cur : ℕ) → List Printed
unfolding first_reg second_reg reference
print_operands f_op outsymbols pc cur = []
print_operands f_invalid outsymbols pc cur = []
print_operands f_addr outsymbols pc cur = reference outsymbols pc (extend_bit20 (cur / 2 ^ 12)) ∷ []
print_operands f_reg outsymbols pc cur = first_reg cur ∷ []
print_operands f_regconst outsymbols pc cur =
    first_reg cur ∷ plain (number (extend_bit20 (cur / 2 ^ 12 % 2 ^ 20))) ∷ []
print_operands f_regaddr outsymbols pc cur =
    first_reg cur ∷ reference outsymbols pc (extend_bit20 (cur / 2 ^ 12)) ∷ []
print_operands f_regreg outsymbols pc cur = first_reg cur ∷ plain (reg (second_reg cur)) ∷ []
print_operands f_regoff outsymbols pc cur =
    first_reg cur ∷ plain (offset (extend_int16 (cur / 2 ^ 16)) (second_reg cur)) ∷ []
print_operands f_regregaddr outsymbols pc cur =
    first_reg cur
    ∷ plain (reg (second_reg cur))
    ∷ reference outsymbols pc (extend_int16 (cur / 2 ^ 16))
    ∷ []

-- A word that is data is printed as a NOP.
unfoldable pub print_word : (is_data : Bool) → List ObjectSymbol → (pc cur : ℕ) → Row
unfolding print_operands
print_word is_data outsymbols pc cur =
    let op = if is_data then ins_nop else cur % 256 in
    record {
      pc = pc;
      word = cur;
      name = op_name op;
      operands = print_operands (op_format op) outsymbols pc cur;
    }

-- `data_arr && data_arr[pc] == D_DATA`
abbrev pub is_data_word : Option (List Bool) → ℕ → Bool
is_data_word none pc = false
is_data_word (some data_arr) pc = not (is_marked data_arr pc)

-- The loop with `count` rounds left; `none` is a read beyond the file.
unfoldable pub print_rows :
    (count pc : ℕ) → (ptr : List ℕ) → List ObjectSymbol → Option (List Bool) → Option (List Row)
unfolding print_word
print_rows zero pc ptr outsymbols data_arr = some []
print_rows (suc n) pc [] outsymbols data_arr = none
print_rows (suc n) pc (cur ∷ ptr) outsymbols data_arr =
    elim (print_rows n (pc + 1) ptr outsymbols data_arr) [
      | none ↦ none
      | some rows ↦ some (print_word (is_data_word data_arr pc) outsymbols pc cur ∷ rows)
    ]

unfoldable pub print_code :
    (ptr : List ℕ) → (count : ℕ) → List ObjectSymbol → Option (List Bool) → Option (List Row)
unfolding print_rows
print_code ptr count outsymbols data_arr = print_rows count 0 ptr outsymbols data_arr
