-- ===== src/Elf/File.antt =====
-- The structs of A1/P1/elf.h that A1/P1/binary_info.c reads, as the places of their fields in a file,
-- which is the list of its bytes. Fields are read as the machine has them, lowest byte first.
use unh_cs.Common.{ℕ, zero, suc, ◌+◌, ◌*◌, ◌^◌, Option, none, some, List, [], ◌∷◌, get_elem?}
use unh_cs.Common.Bytes.{c_string}

-- ELFCLASS32 and ELFCLASS64
pub data Class : Type 0 where
  elf32 elf64 : Class

-- The range of an offset of the class.
unfoldable pub offset_mod : Class → ℕ
offset_mod elf32 = 2 ^ 32
offset_mod elf64 = 2 ^ 64

-- A field: where it starts in its struct, and its size.
abbrev pub Field : Type 0
Field = ℕ × ℕ

-- Elf32_Ehdr and Elf64_Ehdr
pub record Ehdr : Type 0 where
  pub e_type : Field
  pub e_entry : Field
  pub e_phoff : Field
  pub e_shoff : Field
  pub e_flags : Field
  pub e_ehsize : Field
  pub e_phentsize : Field
  pub e_phnum : Field
  pub e_shentsize : Field
  pub e_shnum : Field
  pub e_shstrndx : Field

abbrev pub ehdr : Class → Ehdr
ehdr elf32 = record {
  e_type = (16, 2);
  e_entry = (24, 4);
  e_phoff = (28, 4);
  e_shoff = (32, 4);
  e_flags = (36, 4);
  e_ehsize = (40, 2);
  e_phentsize = (42, 2);
  e_phnum = (44, 2);
  e_shentsize = (46, 2);
  e_shnum = (48, 2);
  e_shstrndx = (50, 2);
}
ehdr elf64 = record {
  e_type = (16, 2);
  e_entry = (24, 8);
  e_phoff = (32, 8);
  e_shoff = (40, 8);
  e_flags = (48, 4);
  e_ehsize = (52, 2);
  e_phentsize = (54, 2);
  e_phnum = (56, 2);
  e_shentsize = (58, 2);
  e_shnum = (60, 2);
  e_shstrndx = (62, 2);
}

-- Elf32_Shdr and Elf64_Shdr
pub record Shdr : Type 0 where
  pub sh_name : Field
  pub sh_type : Field
  pub sh_addr : Field
  pub sh_offset : Field
  pub sh_size : Field
  pub sh_link : Field
  pub sh_entsize : Field
  pub bytes : ℕ

abbrev pub shdr : Class → Shdr
shdr elf32 = record {
  sh_name = (0, 4);
  sh_type = (4, 4);
  sh_addr = (12, 4);
  sh_offset = (16, 4);
  sh_size = (20, 4);
  sh_link = (24, 4);
  sh_entsize = (36, 4);
  bytes = 40;
}
shdr elf64 = record {
  sh_name = (0, 4);
  sh_type = (4, 4);
  sh_addr = (16, 8);
  sh_offset = (24, 8);
  sh_size = (32, 8);
  sh_link = (40, 4);
  sh_entsize = (56, 8);
  bytes = 64;
}

-- Elf32_Sym and Elf64_Sym
pub record ElfSym : Type 0 where
  pub st_name : Field
  pub st_value : Field
  pub st_size : Field
  pub st_info : Field
  pub st_other : Field
  pub st_shndx : Field

abbrev pub sym_of : Class → ElfSym
sym_of elf32 = record {
  st_name = (0, 4);
  st_value = (4, 4);
  st_size = (8, 4);
  st_info = (12, 1);
  st_other = (13, 1);
  st_shndx = (14, 2);
}
sym_of elf64 = record {
  st_name = (0, 4);
  st_value = (8, 8);
  st_size = (16, 8);
  st_info = (4, 1);
  st_other = (5, 1);
  st_shndx = (6, 2);
}

-- The number in the `size` bytes from a place on; `none` beyond the end of the file.
unfoldable pub read_le : (size at : ℕ) → List ℕ → Option ℕ
read_le zero at fbuf = some 0
read_le (suc n) at fbuf = elim (get_elem? fbuf at) [
  | none ↦ none
  | some b ↦ elim (read_le n (at + 1) fbuf) [ none ↦ none | some v ↦ some (b + 256 * v) ]
]

-- A field of the struct at a place.
unfoldable pub field : (fbuf : List ℕ) → (at : ℕ) → Field → Option ℕ
unfolding read_le
field fbuf at (offset, size) = read_le size (at + offset) fbuf

unfoldable pub bytes_behind : (at : ℕ) → List ℕ → List ℕ
bytes_behind zero bs = bs
bytes_behind (suc n) [] = []
bytes_behind (suc n) (b ∷ bs) = bytes_behind n bs

-- What `%s` prints; `none` without a NUL before the end of the file.
unfoldable pub text_at : (fbuf : List ℕ) → (at : ℕ) → Option (List ℕ)
unfolding bytes_behind
text_at fbuf at = c_string (bytes_behind at fbuf)
