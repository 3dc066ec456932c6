-- ===== src/Dsx/Linked.antt =====
-- The output of A2/P1/linkx20.c read by A1/P2/dsx20.c.
use unh_cs.Common.{
  append_assoc, ℕ, zero, suc, ◌+◌, ◌*◌, ◌/◌, ◌<◌, ◌≡◌, refl, sym, ap, ◌∙◌, Bool, false, none, some,
  List, [], ◌∷◌, ◌++◌, length, All, arith, lt→ltb,
}
use unh_cs.Vmx.Load.{seek}
use unh_cs.Linker.Output.{Entry, word_at, entry_words, write_sections}
use unh_cs.Common.Word.{sign_bit}
use unh_cs.Common.Fallible.{bind_some}
use unh_cs.Dsx.Print.{Row, print_code}
use unh_cs.Dsx.Listing.{marks_of, rounds, list_code, list_object}
use unh_cs.Dsx.Rows.{AreRows, print_code-AreRows}
use unh_cs.Dsx.Names.{IsName, padded, c_string-padded}
use unh_cs.Dsx.Object.{ObjectSymbol, read_symbols, read_insymbols, read_outsymbols, print_symbols}

-- The symbols of a section as dsx20 reads them, and the lines it prints.
abbrev pub symbols_of : List Entry → List ObjectSymbol
symbols_of [] = []
symbols_of (e ∷ es) = record { name = padded e.name; address = e.address } ∷ symbols_of es

abbrev pub lines_of : List Entry → List (List ℕ × ℕ)
lines_of [] = []
lines_of (e ∷ es) = (e.name, e.address) ∷ lines_of es

read_symbols-entry_words :
    (es : List Entry) (rest : List ℕ)
    → read_symbols (length es) (entry_words es ++ rest) ≡ some (symbols_of es)
unfolding read_symbols entry_words padded
read_symbols-entry_words [] rest = refl
read_symbols-entry_words (e ∷ es) rest = rw (read_symbols-entry_words es rest) refl

five_more : (n : ℕ) → suc n * 5 ≡ suc (suc (suc (suc (suc (n * 5)))))
five_more n = omega arith

seek-entry_words :
    (es : List Entry) (rest : List ℕ) → seek (length es * 5) (entry_words es ++ rest) ≡ rest
unfolding seek entry_words
seek-entry_words [] rest = refl
seek-entry_words (e ∷ es) rest =
    ap
      (λ k. seek k (
        word_at e.name 0
        ∷ word_at e.name 4
        ∷ word_at e.name 8
        ∷ word_at e.name 12
        ∷ e.address
        ∷ (entry_words es ++ rest)))
      (five_more (length es))
    ∙ seek-entry_words es rest

print_symbols-symbols_of :
    (es : List Entry)
    → All (λ (e : Entry). IsName e.name) es
    → print_symbols (symbols_of es) ≡ some (lines_of es)
unfolding print_symbols
print_symbols-symbols_of [] ok = refl
print_symbols-symbols_of (e ∷ es) ok =
    rw (c_string-padded e.name ok.0, print_symbols, print_symbols-symbols_of es ok.1) refl

seek-end : (n : ℕ) → seek n [] ≡ []
unfolding seek
seek-end zero = refl
seek-end (suc n) = refl

more_steps : (a b : ℕ) → suc a + b ≡ suc (a + b)
more_steps a b = omega arith

seek-add : (a b : ℕ) (ws : List ℕ) → seek (a + b) ws ≡ seek b (seek a ws)
unfolding seek
seek-add zero b ws = ap (λ k. seek k ws) (omega arith)
seek-add (suc a) b [] = ap (λ k. seek k []) (more_steps a b) ∙ sym (seek-end b)
seek-add (suc a) b (w ∷ ws) = ap (λ k. seek k (w ∷ ws)) (more_steps a b) ∙ seek-add a b ws

fifth : (n : ℕ) → 5 * n / 5 ≡ n
fifth n = omega arith

behind_header : (n : ℕ) → 3 + 5 * n / 5 * 5 ≡ suc (suc (suc (n * 5)))
behind_header n = omega arith

-- The three places at which the file is read.
module _ (table outs : List Entry) (code : List ℕ) (i o c : ℕ) where
  written : List ℕ
  written = i ∷ o ∷ c ∷ (entry_words table ++ entry_words outs ++ code)

  insymbols_written : read_insymbols written (5 * length table / 5) ≡ some (symbols_of table)
  unfolding read_insymbols written seek
  insymbols_written =
      ap (λ k. read_symbols k (entry_words table ++ entry_words outs ++ code))
        (fifth (length table))
      ∙ ap (read_symbols (length table)) (append_assoc (entry_words table) (entry_words outs) code)
      ∙ read_symbols-entry_words table (entry_words outs ++ code)

  behind_table : seek (3 + 5 * length table / 5 * 5) written ≡ entry_words outs ++ code
  unfolding written seek
  behind_table =
      ap (λ k. seek k written) (behind_header (length table))
      ∙ ap (seek (length table * 5)) (append_assoc (entry_words table) (entry_words outs) code)
      ∙ seek-entry_words table (entry_words outs ++ code)

  outsymbols_written :
      read_outsymbols written (3 + 5 * length table / 5 * 5) (5 * length outs / 5)
      ≡ some (symbols_of outs)
  unfolding read_outsymbols written
  outsymbols_written =
      ap (λ k. read_symbols k (seek (3 + 5 * length table / 5 * 5) written)) (fifth (length outs))
      ∙ ap (read_symbols (length outs)) behind_table
      ∙ read_symbols-entry_words outs code

  code_written : seek (3 + 5 * length table / 5 * 5 + 5 * length outs / 5 * 5) written ≡ code
  unfolding written
  code_written =
      seek-add (3 + 5 * length table / 5 * 5) (5 * length outs / 5 * 5) written
      ∙ ap (seek (5 * length outs / 5 * 5)) behind_table
      ∙ ap (λ k. seek (k * 5) (entry_words outs ++ code)) (fifth (length outs))
      ∙ seek-entry_words outs code

rounds_of : (code : List ℕ) → length code < sign_bit → rounds (length code) ≡ length code
rounds_of code small = rw (lt→ltb (length code) sign_bit small) refl

listed_as :
    (code : List ℕ) (table outs : List Entry) {rows : List Row}
    → All (λ (e : Entry). IsName e.name) table
    → All (λ (e : Entry). IsName e.name) outs
    → length code < sign_bit
    → print_code code (length code) (symbols_of outs) none ≡ some rows
    → list_code false code (length code) (symbols_of table) (symbols_of outs)
      ≡ some (record {
        insymbols = lines_of table;
        outsymbols = lines_of outs;
        obj_len = length code;
        rows = rows;
      })
unfolding list_code marks_of
listed_as code table outs {rows} names_t names_o small e =
    bind_some (print_symbols (symbols_of table)) _ (print_symbols-symbols_of table names_t) (
      bind_some (print_symbols (symbols_of outs)) _ (print_symbols-symbols_of outs names_o) (
        bind_some (print_code code (rounds (length code)) (symbols_of outs) none) _
          (ap (λ n. print_code code n (symbols_of outs) none) (rounds_of code small) ∙ e) refl))

-- Where no name fills its 16 bytes, dsx20 reads the file of the linker as it was meant: the symbols of
-- the two sections by their names and addresses, and a line for each word of the code.
pub write_sections-list_object :
    (is_object : Bool) (table outs : List Entry) (code : List ℕ)
    → All (λ (e : Entry). IsName e.name) table
    → All (λ (e : Entry). IsName e.name) outs
    → length code < sign_bit
    → (rows : List Row) × (list_object false
          (write_sections (5 * length table) (length code) is_object table outs code).words
        ≡ some (record {
          insymbols = lines_of table;
          outsymbols = lines_of outs;
          obj_len = length code;
          rows = rows;
        }))
      × AreRows (length code) 0 code (symbols_of outs) none rows
unfolding list_object write_sections written
write_sections-list_object is_object table outs code names_t names_o small =
    let (rows, e, are) =
      print_code-AreRows code (length code) (symbols_of outs) none (omega arith) in
    let file : List ℕ = entry_words table ++ entry_words outs ++ code in
    let head : List ℕ = (5 * length table) ∷ (5 * length outs) ∷ length code ∷ file in
    (
      rows,
      bind_some (read_insymbols head (5 * length table / 5)) _
          (insymbols_written table outs code (5 * length table) (5 * length outs) (length code))
          (bind_some (read_outsymbols head (3 + 5 * length table / 5 * 5) (5 * length outs / 5)) _
            (outsymbols_written table outs code (5 * length table) (5 * length outs) (length code))
            (ap (λ ptr. list_code false ptr (length code) (symbols_of table) (symbols_of outs))
                (code_written table outs code (5 * length table) (5 * length outs) (length code))
              ∙ listed_as code table outs names_t names_o small e)),
      are,
    )
