-- ===== src/Dsx/Object.antt =====
-- The reading of an object file in A1/P2/dsx20.c: read_file, read_insymbols and read_outsymbols, and
-- the printing of the symbols.
use unh_cs.Common.{ℕ, zero, suc, Bool, false, ◌||◌, Option, none, some, List, [], ◌∷◌, ◌==◌}
use unh_cs.Common.Bytes.{bytes_of_words, word_of_bytes, c_string}
use unh_cs.Vmx.Load.{seek}

unfoldable pub words_of_bytes : List ℕ → List ℕ
words_of_bytes (a ∷ b ∷ c ∷ d ∷ rest) = word_of_bytes a b c d ∷ words_of_bytes rest
words_of_bytes _ = []

-- `fopen` gives the bytes of a file that can be read. `none` is `exit (1)`, and the result the whole
-- words of the file.
unfoldable pub read_file :
    (fopen : List ℕ → Option (List ℕ)) → (filename : List ℕ) → Option (List ℕ)
unfolding words_of_bytes
read_file fopen filename = elim (fopen filename) [
  | none ↦ none
  | some bytes ↦ elim bytes [ [] ↦ none | b ∷ bs ↦ some (words_of_bytes (b ∷ bs)) ]
]

-- The 16 bytes of a name, and an address.
pub record ObjectSymbol : Type 0 where
  pub name : List ℕ
  pub address : ℕ

-- The loop both functions have, at the words from `ptr` on; `none` is a read beyond the file.
unfoldable pub read_symbols : (count : ℕ) → (ptr : List ℕ) → Option (List ObjectSymbol)
read_symbols zero ptr = some []
read_symbols (suc n) (a ∷ b ∷ c ∷ d ∷ address ∷ rest) = elim (read_symbols n rest) [
  | none ↦ none
  | some symbols ↦
      some (record { name = bytes_of_words (a ∷ b ∷ c ∷ d ∷ []); address = address } ∷ symbols)
]
read_symbols (suc n) _ = none

unfoldable pub read_insymbols : (fbuf : List ℕ) → (count : ℕ) → Option (List ObjectSymbol)
unfolding read_symbols
read_insymbols fbuf count = read_symbols count (seek 3 fbuf)

unfoldable pub read_outsymbols : (fbuf : List ℕ) → (start count : ℕ) → Option (List ObjectSymbol)
unfolding read_symbols
read_outsymbols fbuf start count = read_symbols count (seek start fbuf)

-- A line "%s %d" for each symbol; `none` is a name without NUL, where `%s` reads beyond the 16 bytes.
unfoldable pub print_symbols : List ObjectSymbol → Option (List (List ℕ × ℕ))
print_symbols [] = some []
print_symbols (s ∷ ss) = elim (c_string s.name) [
  | none ↦ none
  | some name ↦ elim (print_symbols ss) [
    | none ↦ none
    | some lines ↦ some ((name, s.address) ∷ lines)
  ]
]

unfoldable pub is_outsymbol : List ObjectSymbol → (addr : ℕ) → Bool
is_outsymbol [] addr = false
is_outsymbol (s ∷ ss) addr = s.address == addr || is_outsymbol ss addr
