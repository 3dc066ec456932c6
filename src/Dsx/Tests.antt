-- ===== src/Dsx/Tests.antt =====
-- Concrete inputs of the disassemblers in A1/P2, and their theorems at them.
use unh_cs.Common.{
  ℕ, zero, suc, ◌-◌, ◌^◌, ◌%◌, ◌<◌, ◌≡◌, ◌≢◌, ◌↔◌, refl, sym, Bool, true, false, not, none, some,
  List, [], ◌∷◌, map, length, get_elem?, arith, some_inj, none-some, true-false,
}
use mathlib.Core.Path.{subst}
use unh_cs.Common.Bytes.{word_of_bytes}
use unh_cs.Common.Word.{add32}
use unh_cs.Vmx.State.{Vm}
use unh_cs.Vmx.Decode
use unh_cs.Vmx.Memory.{get_word}
use unh_cs.Vmx.Load.{seek}
use unh_cs.Vmx.Disassemble.{Line, disassemble, good, reg, number}
use unh_cs.Linker.Output.{Entry, write_sections}
use unh_cs.Dsx.Tables.{op_format, op_format_linear}
use unh_cs.Dsx.Parse.{
  extend_bit20, no_target, target_of, is_branch, is_marked, parsed, out_of_bounds, unfinished,
  parse_code,
}
use unh_cs.Dsx.Reach.{Reached}
use unh_cs.Dsx.Bounds.{BranchesStay, parse_code-marks}
use unh_cs.Dsx.Finish.{parse_code-IsFinished}
use unh_cs.Dsx.Object.{read_file, print_symbols, is_outsymbol}
use unh_cs.Dsx.Print.{Row, print_word, plain}
use unh_cs.Dsx.Listing.{Listing, list_code, list_object, main}
use unh_cs.Dsx.Linear.{main_linear, read_word}
use unh_cs.Dsx.Agree.{print_word-disassemble}
use unh_cs.Dsx.Same.{IsAlike, object_code, headed, main_linear-main}
use unh_cs.Dsx.Rows.{AreRows, list_code-Reached}
use unh_cs.Dsx.Names.{IsName}
use unh_cs.Dsx.Linked.{symbols_of, write_sections-list_object}

-- `jmp 2`, a word of data, `beq r1, r2, 1` back to the data, and `halt`.
abbrev words : List ℕ
words = 0x0000_1014 ∷ 7 ∷ 0xfffe_2113 ∷ 0 ∷ []

words-parsed : parse_code words 4 ≡ parsed (true ∷ true ∷ true ∷ true ∷ false ∷ [])
unfolding parse_code op_format add32
words-parsed = refl

-- A branch beyond the code writes beyond the array.
branch_outside : parse_code (0x0000_5014 ∷ []) 1 ≡ out_of_bounds
unfolding parse_code op_format add32
branch_outside = refl

-- `jmp 2` over a word that stays data.
abbrev skipping : List ℕ
skipping = 0x0000_1014 ∷ 7 ∷ 0 ∷ []

skipping-parsed : parse_code skipping 3 ≡ parsed (true ∷ false ∷ true ∷ false ∷ [])
unfolding parse_code op_format add32
skipping-parsed = refl

skipping-stays :
    (p w : ℕ)
    → get_elem? skipping p ≡ some w
    → is_branch (w % 256) ≡ true
    → target_of (op_format (w % 256)) w p ≢ no_target
    → target_of (op_format (w % 256)) w p < 4
unfolding is_branch target_of op_format add32
skipping-stays zero w at br live =
    subst (λ v. target_of (op_format (v % 256)) v 0 < 4) (some_inj at) (omega arith)
skipping-stays (suc zero) w at br live =
    absurd (true-false (subst (λ v. true ≡ is_branch (v % 256)) (sym (some_inj at)) (sym br)))
skipping-stays (suc (suc zero)) w at br live =
    absurd (true-false (subst (λ v. true ≡ is_branch (v % 256)) (sym (some_inj at)) (sym br)))
skipping-stays (suc (suc (suc p))) w at br live = absurd (none-some at)

skipping-BranchesStay : BranchesStay skipping 3
skipping-BranchesStay = record {
  whole = omega arith;
  inside = λ p w _ _ at br live. skipping-stays p w at br live;
}

parse_code-marks_example :
    (d : List Bool) × (parse_code skipping 3 ≡ parsed d)
    × ((q : ℕ) → (is_marked d q ≡ true) ↔ Reached skipping 3 q)
parse_code-marks_example = parse_code-marks skipping 3 skipping-BranchesStay

parse_code-IsFinished_example : parse_code words 4 ≢ unfinished
parse_code-IsFinished_example = parse_code-IsFinished words 4

-- A symbol named "f".
abbrev f_entry : Entry
f_entry = record { name = b'f' ∷ []; address = 1 }

list_code-Reached_example :
    (l : Listing) × (list_code true skipping 3 [] [] ≡ some l)
    × (length l.rows ≡ 3)
    × ((q w : ℕ)
        → q < 3
        → get_elem? skipping q ≡ some w
        → (code : Bool) × (get_elem? l.rows q ≡ some (print_word (not code) [] q w))
          × ((code ≡ true) ↔ Reached skipping 3 q))
unfolding print_symbols
list_code-Reached_example =
    list_code-Reached skipping 3 [] [] (omega arith) skipping-BranchesStay refl refl

-- A machine whose word 0 is `ldimm r1, 2`.
abbrev machine : Vm
machine = record {
  memory = λ i. 0x2103;
  entry_point = 0;
  prog_end = 10;
  num_processors = 1;
  symbols = [];
}

abbrev ldimm_line : Line
ldimm_line = record { name = "ldimm"; operands = reg 1 ∷ number 2 ∷ [] }

machine-disassembled : disassemble machine 0 ≡ good ldimm_line
unfolding disassemble get_word Decode.op_format Decode.op_of_byte Decode.op_name Decode.reg1
    Decode.addr20
machine-disassembled = refl

print_word-disassemble_example :
    ((print_word false [] 0 0x2103).name ≡ ldimm_line.name)
    × ((print_word false [] 0 0x2103).operands ≡ map plain ldimm_line.operands)
unfolding is_outsymbol get_word
print_word-disassemble_example =
    print_word-disassemble machine [] 0 0x2103 refl (omega arith) refl machine-disassembled

f_entry-IsName : IsName (b'f' ∷ [])
f_entry-IsName = (omega arith, (((λ e. omega (arith, e)), omega arith), tt))

write_sections-list_object_example :
    (rows : List Row) × (list_object false
        (write_sections 5 2 true (f_entry ∷ []) (f_entry ∷ []) (0x14 ∷ 0 ∷ [])).words
      ≡ some (record {
        insymbols = (b'f' ∷ [], 1) ∷ [];
        outsymbols = (b'f' ∷ [], 1) ∷ [];
        obj_len = 2;
        rows = rows;
      }))
    × AreRows 2 0 (0x14 ∷ 0 ∷ []) (symbols_of (f_entry ∷ [])) none rows
write_sections-list_object_example =
    write_sections-list_object true (f_entry ∷ []) (f_entry ∷ []) (0x14 ∷ 0 ∷ [])
      (f_entry-IsName, tt) (f_entry-IsName, tt) (omega arith)

-- A file of three lengths and `halt`.
abbrev halt_file : List ℕ
halt_file = 0 ∷ 0 ∷ 0 ∷ 0 ∷ 0 ∷ 0 ∷ 0 ∷ 0 ∷ 1 ∷ 0 ∷ 0 ∷ 0 ∷ 0 ∷ 0 ∷ 0 ∷ 0 ∷ []

halt_file-read : read_file (λ name. some halt_file) (b'a' ∷ []) ≡ some (0 ∷ 0 ∷ 1 ∷ 0 ∷ [])
unfolding read_file word_of_bytes
halt_file-read = refl

halt_file-IsAlike : (i w : ℕ) → get_elem? (object_code (0 ∷ 0 ∷ 1 ∷ 0 ∷ [])) i ≡ some w → IsAlike w
unfolding object_code seek
halt_file-IsAlike zero w at =
    subst IsAlike (some_inj at) ((λ e. absurd (omega (arith, e))), λ e. omega arith)
halt_file-IsAlike (suc i) w at = absurd (none-some at)

main_linear-main_example :
    main_linear (λ name. some halt_file) ((b'a' ∷ []) ∷ [])
    ≡ headed (b'a' ∷ []) (main (λ name. some halt_file) ((b'a' ∷ []) ∷ []))
main_linear-main_example =
    main_linear-main (λ name. some halt_file) (b'a' ∷ []) (0 ∷ 0 ∷ 1 ∷ 0 ∷ []) halt_file-read
      halt_file-IsAlike

-- `ldimm r1, -1` is printed as -1 by the one and as 1048575 by the other.
negative_const :
    (print_word false [] 0 0xffff_f103).operands ≡ plain (reg 1) ∷ plain (number (2 ^ 32 - 1)) ∷ []
unfolding print_word op_format extend_bit20
negative_const = refl

negative_const_linear :
    (read_word [] 0 0xffff_f103).operands ≡ plain (reg 1) ∷ plain (number 1048575) ∷ []
unfolding read_word op_format_linear
negative_const_linear = refl
