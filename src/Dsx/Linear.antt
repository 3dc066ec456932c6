-- ===== src/Dsx/Linear.antt =====
-- read_code and main of A1/P2/dsx20_linear.c, which reads its file and its symbols as A1/P2/dsx20.c
-- does.
use unh_cs.Common.{ℕ, zero, suc, ◌+◌, ◌*◌, ◌/◌, ◌%◌, ◌^◌, Option, none, some, List, [], ◌∷◌}
use unh_cs.Vmx.Load.{seek}
use unh_cs.Vmx.Decode.{
  Format, f_op, f_addr, f_reg, f_regconst, f_regaddr, f_regreg, f_regoff, f_regregaddr, f_invalid,
}
use unh_cs.Vmx.Disassemble.{reg, number, offset}
use unh_cs.Common.Fallible.{◌>>=◌}
use unh_cs.Dsx.Tables.{op_name_linear, op_format_linear}
use unh_cs.Dsx.Parse.{extend_bit20, extend_int16}
use unh_cs.Dsx.Object.{ObjectSymbol, read_file, read_insymbols, read_outsymbols, print_symbols}
use unh_cs.Dsx.Print.{Printed, plain, Row, first_reg, second_reg, reference}
use unh_cs.Dsx.Listing.{Listing, Outcome, usage, failed, undefined, listed, rounds}

-- The constant of ldimm is printed as the 20 bits it is.
unfoldable pub read_operands : Format → List ObjectSymbol → (pc cur : ℕ) → List Printed
unfolding first_reg second_reg reference
read_operands f_op outsymbols pc cur = []
read_operands f_invalid outsymbols pc cur = []
read_operands f_addr outsymbols pc cur = reference outsymbols pc (extend_bit20 (cur / 2 ^ 12)) ∷ []
read_operands f_reg outsymbols pc cur = first_reg cur ∷ []
read_operands f_regconst outsymbols pc cur =
    first_reg cur ∷ plain (number (cur / 2 ^ 12 % 2 ^ 20)) ∷ []
read_operands f_regaddr outsymbols pc cur =
    first_reg cur ∷ reference outsymbols pc (extend_bit20 (cur / 2 ^ 12)) ∷ []
read_operands f_regreg outsymbols pc cur = first_reg cur ∷ plain (reg (second_reg cur)) ∷ []
read_operands f_regoff outsymbols pc cur =
    first_reg cur ∷ plain (offset (extend_int16 (cur / 2 ^ 16)) (second_reg cur)) ∷ []
read_operands f_regregaddr outsymbols pc cur =
    first_reg cur
    ∷ plain (reg (second_reg cur))
    ∷ reference outsymbols pc (extend_int16 (cur / 2 ^ 16))
    ∷ []

unfoldable pub read_word : List ObjectSymbol → (pc cur : ℕ) → Row
unfolding read_operands
read_word outsymbols pc cur = record {
  pc = pc;
  word = cur;
  name = op_name_linear (cur % 256);
  operands = read_operands (op_format_linear (cur % 256)) outsymbols pc cur;
}

unfoldable pub read_rows : (count pc : ℕ) → (ptr : List ℕ) → List ObjectSymbol → Option (List Row)
unfolding read_word
read_rows zero pc ptr outsymbols = some []
read_rows (suc n) pc [] outsymbols = none
read_rows (suc n) pc (cur ∷ ptr) outsymbols = elim (read_rows n (pc + 1) ptr outsymbols) [
  | none ↦ none
  | some rows ↦ some (read_word outsymbols pc cur ∷ rows)
]

unfoldable pub read_code : (ptr : List ℕ) → (count : ℕ) → List ObjectSymbol → Option (List Row)
unfolding read_rows
read_code ptr count outsymbols = read_rows count 0 ptr outsymbols

unfoldable pub list_linear : (fbuf : List ℕ) → Option Listing
list_linear (insyms ∷ outsyms ∷ obj_len ∷ rest) =
    let fbuf = insyms ∷ outsyms ∷ obj_len ∷ rest in
    let insym_count = insyms / 5 in
    let outsym_count = outsyms / 5 in
    do
      insymbols ← read_insymbols fbuf insym_count
      outsymbols ← read_outsymbols fbuf (3 + insym_count * 5) outsym_count
      in_lines ← print_symbols insymbols
      out_lines ← print_symbols outsymbols
      rows ←
          read_code (seek (3 + insym_count * 5 + outsym_count * 5) fbuf) (rounds obj_len) outsymbols
      some (record { insymbols = in_lines; outsymbols = out_lines; obj_len = obj_len; rows = rows })
list_linear _ = none

unfoldable pub main_linear : (fopen : List ℕ → Option (List ℕ)) → (argv : List (List ℕ)) → Outcome
unfolding list_linear
main_linear fopen (filename ∷ []) = elim (read_file fopen filename) [
  | none ↦ failed
  | some fbuf ↦ elim (list_linear fbuf) [ none ↦ undefined | some l ↦ listed (some filename) l ]
]
main_linear fopen _ = usage
