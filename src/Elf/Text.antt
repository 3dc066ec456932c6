-- ===== src/Elf/Text.antt =====
-- The names that A1/P1/binary_info.c prints for numbers: get_type_str, st_type_text, st_bind_text,
-- st_other_text and the types of print_header.
use Prim.Native.String.{String}
use unh_cs.Common.{ℕ, ◌/◌, ◌%◌, Option, none, some, [], ◌∷◌}
use unh_cs.Common.Fallible.{switch}

unfoldable pub get_type_str : ℕ → String
get_type_str type =
    switch type
      ((0, "NULL")
        ∷ (1, "PROGBITS")
        ∷ (2, "SYMTAB")
        ∷ (3, "STRTAB")
        ∷ (4, "RELA")
        ∷ (5, "HASH")
        ∷ (6, "DYNAMIC")
        ∷ (7, "NOTE")
        ∷ (8, "NOBITS")
        ∷ (9, "REL")
        ∷ (10, "SHLIB")
        ∷ (11, "DYNSYM")
        ∷ (14, "INIT_ARRAY")
        ∷ (15, "FINI_ARRAY")
        ∷ (16, "PREINIT_ARRAY")
        ∷ (17, "GROUP")
        ∷ (18, "SHNDX")
        ∷ (0x6fff_fff5, "GNU_ATTRIBUTES")
        ∷ (0x6fff_fff6, "GNU_HASH")
        ∷ (0x6fff_fff7, "GNU_LIBLIST")
        ∷ (0x6fff_fff8, "CHECKSUM")
        ∷ (0x6fff_fffa, "MOVE")
        ∷ (0x6fff_fffb, "COMDAT")
        ∷ (0x6fff_fffc, "SYMINFO")
        ∷ (0x6fff_fffd, "VERDEF")
        ∷ (0x6fff_fffe, "VERNEED")
        ∷ (0x6fff_ffff, "VERSYM")
        ∷ [])
      "ILLEGAL_TYPE"

-- ELF32_ST_TYPE is `val & 0xf`.
unfoldable pub st_type_text : ℕ → String
st_type_text st_info =
    switch (st_info % 16)
      ((0, "NOTYPE ")
        ∷ (1, "OBJECT ")
        ∷ (2, "FUNC   ")
        ∷ (3, "SECTION")
        ∷ (4, "FILE   ")
        ∷ (5, "COMMON ")
        ∷ (6, "TLS    ")
        ∷ (10, "IFUNC  ")
        ∷ [])
      "ILLEGAL"

-- ELF32_ST_BIND is `(unsigned char) val >> 4`.
unfoldable pub st_bind_text : ℕ → String
st_bind_text st_info =
    switch (st_info % 256 / 16)
      ((0, "LOCAL ") ∷ (1, "GLOBAL") ∷ (2, "WEAK  ") ∷ (10, "UNIQUE") ∷ []) "ILLEGL"

-- ELF32_ST_VISIBILITY is `o & 0x03`.
unfoldable pub st_other_text : ℕ → String
st_other_text st_other =
    switch (st_other % 4)
      ((0, "DEFAULT") ∷ (1, "INTERNAL") ∷ (2, "HIDDEN ") ∷ (3, "PROTECTED") ∷ []) "ILLEGAL"

-- `none` is a type at which print_header stops.
unfoldable pub file_type_text : ℕ → Option String
file_type_text type =
    switch type
      ((0, some "NONE (No file type)")
        ∷ (1, some "REL (Relocatable file)")
        ∷ (2, some "EXEC (Executable file)")
        ∷ (3, some "DYN (Shared object file)")
        ∷ (4, some "CORE (Core file)")
        ∷ [])
      none
