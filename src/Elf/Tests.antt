-- ===== src/Elf/Tests.antt =====
-- Small files for A1/P1/binary_info.c, and the theorems at them.
use unh_cs.Common.{ℕ, zero, suc, ◌≡◌, refl, some, List, [], ◌∷◌, ◌++◌}
use unh_cs.Common.Bytes.{c_string, str_eq}
use unh_cs.Elf.File.{elf32, elf64}
use unh_cs.Elf.Text.{get_type_str}
use unh_cs.Elf.Dump.{printed, exits, HeaderText, SectionRow, section_rows}
use unh_cs.Elf.Symbols.{find_header}
use unh_cs.Elf.Headers.{section_rows-repeat}
use unh_cs.Elf.Program.{binary_info}

abbrev zeros : ℕ → List ℕ
zeros zero = []
zeros (suc n) = 0 ∷ zeros n

-- A section header of zeros and an empty name behind it.
abbrev null_row : ℕ → SectionRow
null_row i = record { index = i; name = []; type = "NULL"; addr = 0; offset = 0; size = 0 }

null_rows : section_rows 2 elf32 (zeros 41) 40 0 40 0 ≡ printed (null_row 0 ∷ null_row 1 ∷ [])
unfolding section_rows c_string get_type_str
null_rows = refl

section_rows-repeat_example : null_row 1 ≡ null_row 1
section_rows-repeat_example = section_rows-repeat 2 (zeros 41) 40 0 40 1 null_rows refl refl

-- Two section headers, the second of type SYMTAB.
abbrev two_headers : List ℕ
two_headers = zeros 44 ++ (2 ∷ zeros 35)

symtab_found : find_header 2 elf32 two_headers 2 0 ≡ printed (some 40)
unfolding find_header
symtab_found = refl

-- A header of a 64-bit file without sections.
abbrev elf_file : List ℕ
elf_file = 0x7f ∷ b'E' ∷ b'L' ∷ b'F' ∷ 2 ∷ 1 ∷ 1 ∷ zeros 57

abbrev elf_header : HeaderText
elf_header = record {
  magic = 0x7f ∷ b'E' ∷ b'L' ∷ b'F' ∷ 2 ∷ 1 ∷ 1 ∷ zeros 9;
  class = elf64;
  data_encoding = 1;
  file_type = "NONE (No file type)";
  entry = 0;
  phoff = 0;
  shoff = 0;
  flags = 0;
  ehsize = 0;
  phentsize = 0;
  phnum = 0;
  shentsize = 0;
  shnum = 0;
  shstrndx = 0;
}

not_elf :
    binary_info (λ name. some (0 ∷ [])) ((b'-' ∷ b'h' ∷ []) ∷ (b'a' ∷ []) ∷ [])
    ≡ (some (b'a' ∷ []), exits 2)
unfolding binary_info str_eq
not_elf = refl
