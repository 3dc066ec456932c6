-- ===== src/Elf/Program.antt =====
-- main of A1/P1/binary_info.c.
use unh_cs.Common.{ℕ, Bool, ◌||◌, Option, none, some, List, [], ◌∷◌, get_elem?, ◌==◌, if◌then◌else◌}
use unh_cs.Common.Bytes.{str_eq}
use unh_cs.Elf.File.{Class, elf32, elf64}
use unh_cs.Elf.Dump.{
  Report, printed, exits, ◌>>=◌, reading, HeaderText, print_header, string_dump, SectionRow,
  list_sect_headers,
}
use unh_cs.Elf.Symbols.{SymbolRow, symbol_dump, dynsym_dump}

-- OPT_H, OPT_SN, OPT_SEC, OPT_SYM and OPT_DYN
pub data Mode : Type 0 where
  opt_h opt_sn opt_sec opt_sym opt_dyn : Mode

unfoldable pub mode_of : (opt : List ℕ) → Option Mode
mode_of opt =
    if str_eq opt (b'-' ∷ b'h' ∷ [])
    then some opt_h
    else if str_eq opt (b'-' ∷ b's' ∷ b'n' ∷ [])
    then some opt_sn
    else if str_eq opt (b'-' ∷ b's' ∷ b'e' ∷ b'c' ∷ [])
    then some opt_sec
    else if str_eq opt (b'-' ∷ b's' ∷ b'y' ∷ b'm' ∷ [])
    then some opt_sym
    else if str_eq opt (b'-' ∷ b'd' ∷ b'y' ∷ b'n' ∷ [])
    then some opt_dyn
    else none

-- A byte of the identification; `exit (2)` if it is not as it must be.
unfoldable pub expect : (i : ℕ) → (ok : ℕ → Bool) → (fbuf : List ℕ) → Report ℕ
expect i ok fbuf = reading (get_elem? fbuf i) >>= λ b. if ok b then printed b else exits 2

-- The class of a file with the identification of ELF.
unfoldable pub identify : (fbuf : List ℕ) → Report Class
unfolding expect
identify fbuf = do
  m0 ← expect 0 (λ b. b == 0x7f) fbuf
  m1 ← expect 1 (λ b. b == b'E') fbuf
  m2 ← expect 2 (λ b. b == b'L') fbuf
  m3 ← expect 3 (λ b. b == b'F') fbuf
  class ← expect 4 (λ b. b == 1 || b == 2) fbuf
  encoding ← expect 5 (λ b. b == 1 || b == 2) fbuf
  version ← expect 6 (λ b. b == 1) fbuf
  printed (if class == 1 then elf32 else elf64)

-- What is printed behind the name of the file.
pub data Printout : Type 0 where
  header : HeaderText → Printout
  names : List ℕ → Printout
  sections : List SectionRow → Printout
  symbols : Option (List SymbolRow) → Printout

unfoldable pub report : Mode → Class → (fbuf : List ℕ) → Report Printout
unfolding print_header string_dump list_sect_headers symbol_dump dynsym_dump
report opt_h class fbuf = print_header class fbuf >>= λ h. printed (header h)
report opt_sn class fbuf = string_dump class fbuf >>= λ (offset, text). printed (names text)
report opt_sec class fbuf = string_dump class fbuf >>= λ (offset, text).
    list_sect_headers class fbuf offset >>= λ rows. printed (sections rows)
report opt_sym class fbuf = symbol_dump class fbuf >>= λ rows. printed (symbols rows)
report opt_dyn class fbuf = dynsym_dump class fbuf >>= λ rows. printed (symbols rows)

-- `fopen` gives the bytes of a file that can be read; `exit (1)` for any other and for an empty one.
unfoldable pub read_elf : (fopen : List ℕ → Option (List ℕ)) → (filename : List ℕ) → Report (List ℕ)
read_elf fopen filename = elim (fopen filename) [
  | none ↦ exits 1
  | some bytes ↦ elim bytes [ [] ↦ exits 1 | b ∷ bs ↦ printed (b ∷ bs) ]
]

-- What is printed behind the line for the file.
unfoldable pub dump_file :
    (fopen : List ℕ → Option (List ℕ)) → Mode → (filename : List ℕ) → Report Printout
unfolding read_elf identify report
dump_file fopen mode filename =
    read_elf fopen filename >>= λ fbuf. identify fbuf >>= λ class. report mode class fbuf

-- The name in the line "File: ", which is printed before the file is opened, and what follows. The
-- arguments are those behind the name of the program.
unfoldable pub binary_info :
    (fopen : List ℕ → Option (List ℕ)) → (argv : List (List ℕ)) → Option (List ℕ) × Report Printout
unfolding mode_of dump_file
binary_info fopen (opt ∷ filename ∷ []) = elim (mode_of opt) [
  | none ↦ (none, exits 1)
  | some mode ↦ (some filename, dump_file fopen mode filename)
]
binary_info fopen _ = (none, exits 1)
