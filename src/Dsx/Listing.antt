-- ===== src/Dsx/Listing.antt =====
-- main of A1/P2/dsx20.c.
use unh_cs.Common.{
  ℕ, ◌+◌, ◌-◌, ◌*◌, ◌/◌, Bool, true, false, not, ◌&&◌, Option, none, some, List, [], ◌∷◌, ltb, ◌==◌,
  if◌then◌else◌,
}
use unh_cs.Common.Word.{sign_bit}
use unh_cs.Vmx.Load.{seek}
use unh_cs.Common.Fallible.{◌>>=◌}
use unh_cs.Dsx.Parse.{parsed, out_of_bounds, unfinished, parse_code}
use unh_cs.Dsx.Object.{ObjectSymbol, read_file, read_insymbols, read_outsymbols, print_symbols}
use unh_cs.Dsx.Print.{Row, print_code}

-- What is printed: the lines of the two sections of symbols, the number of words and their lines.
pub record Listing : Type 0 where
  pub insymbols : List (List ℕ × ℕ)
  pub outsymbols : List (List ℕ × ℕ)
  pub obj_len : ℕ
  pub rows : List Row

-- `heading` is the name in a first line "Disassembling ". `usage` and `failed` are `exit (1)`, without a file name and without the file; `undefined` is an
-- access beyond a buffer.
pub data Outcome : Type 0 where
  usage : Outcome
  failed : Outcome
  undefined : Outcome
  listed : (heading : Option (List ℕ)) → Listing → Outcome

-- `data_arr`: the array of parse_code, or NULL. The array of a length that is negative as an `int`, or
-- of one that is the largest, cannot be allocated.
unfoldable pub marks_of :
    (is_recursive : Bool) → (ptr : List ℕ) → (obj_len : ℕ) → Option (Option (List Bool))
marks_of false ptr obj_len = some none
marks_of true ptr obj_len =
    if not (ltb obj_len (sign_bit - 1)) then none else elim (parse_code ptr obj_len) [
      | parsed d ↦ some (some d)
      | out_of_bounds ↦ none
      | unfinished ↦ none
    ]

-- The loop of print_code has no round for a length that is negative as an `int`.
abbrev pub rounds : ℕ → ℕ
rounds obj_len = if ltb obj_len sign_bit then obj_len else 0

-- The part behind the reading of the symbols, at the object code.
unfoldable pub list_code :
    (is_recursive : Bool)
    → (ptr : List ℕ) → (obj_len : ℕ) → (insymbols outsymbols : List ObjectSymbol) → Option Listing
unfolding marks_of
list_code is_recursive ptr obj_len insymbols outsymbols = do
  in_lines ← print_symbols insymbols
  out_lines ← print_symbols outsymbols
  data_arr ← marks_of is_recursive ptr obj_len
  rows ← print_code ptr (rounds obj_len) outsymbols data_arr
  some (record { insymbols = in_lines; outsymbols = out_lines; obj_len = obj_len; rows = rows })

unfoldable pub list_object : (is_recursive : Bool) → (fbuf : List ℕ) → Option Listing
unfolding list_code
list_object is_recursive (insyms ∷ outsyms ∷ obj_len ∷ rest) =
    let fbuf = insyms ∷ outsyms ∷ obj_len ∷ rest in
    let insym_count = insyms / 5 in
    let outsym_count = outsyms / 5 in
    do
      insymbols ← read_insymbols fbuf insym_count
      outsymbols ← read_outsymbols fbuf (3 + insym_count * 5) outsym_count
      list_code is_recursive (seek (3 + insym_count * 5 + outsym_count * 5) fbuf) obj_len insymbols
          outsymbols
list_object is_recursive _ = none

-- Whether an argument starts with "-r".
abbrev pub is_flag : List ℕ → Bool
is_flag (a ∷ b ∷ rest) = a == b'-' && b == b'r'
is_flag _ = false

unfoldable pub run :
    (fopen : List ℕ → Option (List ℕ)) → (is_recursive : Bool) → (filename : List ℕ) → Outcome
unfolding list_object
run fopen is_recursive filename = elim (read_file fopen filename) [
  | none ↦ failed
  | some fbuf ↦ elim (list_object is_recursive fbuf) [ none ↦ undefined | some l ↦ listed none l ]
]

-- The arguments are those behind the name of the program.
unfoldable pub main : (fopen : List ℕ → Option (List ℕ)) → (argv : List (List ℕ)) → Outcome
unfolding run
main fopen (filename ∷ []) = run fopen false filename
main fopen (flag ∷ filename ∷ []) = if is_flag flag then run fopen true filename else usage
main fopen _ = usage
