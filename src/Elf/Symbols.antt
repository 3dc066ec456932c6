-- ===== src/Elf/Symbols.antt =====
-- symbol_dump and dynsym_dump of A1/P1/binary_info.c, which differ in the type of the table they look
-- for.
use Prim.Native.String.{String}
use unh_cs.Common.{
  ℕ, zero, suc, ◌+◌, ◌*◌, ◌/◌, ◌%◌, ◌^◌, Option, none, some, List, [], ◌∷◌, ltb, ◌==◌,
  if◌then◌else◌,
}
use unh_cs.Elf.File.{Class, offset_mod, ehdr, shdr, sym_of, field, text_at}
use unh_cs.Elf.Text.{st_type_text, st_bind_text, st_other_text}
use unh_cs.Elf.Dump.{Report, printed, undefined, ◌>>=◌, reading}

-- The column Ndx.
pub data SectionIndex : Type 0 where
  und abs : SectionIndex
  ndx : ℕ → SectionIndex

unfoldable pub section_index : ℕ → SectionIndex
section_index n = if n == 0 then und else if n == 0xfff1 then abs else ndx n

pub record SymbolRow : Type 0 where
  pub num : ℕ
  pub value : ℕ
  pub size : ℕ
  pub type : String
  pub bind : String
  pub visibility : String
  pub section : SectionIndex
  pub name : List ℕ

-- The first of `n` section headers with a type. The search goes on by the size of the struct.
unfoldable pub find_header : (n : ℕ) → Class → (fbuf : List ℕ) → (type at : ℕ) → Report (Option ℕ)
unfolding field
find_header zero class fbuf type at = printed none
find_header (suc n) class fbuf type at =
    let s = shdr class in
    reading (field fbuf at s.sh_type) >>= λ sh_type.
    let later = find_header n class fbuf type (at + s.bytes) in
    if sh_type == type then printed (some at) else later

unfoldable pub symbol_row : Class → (fbuf : List ℕ) → (strtab at i : ℕ) → Report SymbolRow
unfolding field text_at section_index
symbol_row class fbuf strtab at i =
    let s = sym_of class in
    do
      st_value ← reading (field fbuf at s.st_value)
      st_size ← reading (field fbuf at s.st_size)
      st_info ← reading (field fbuf at s.st_info)
      st_other ← reading (field fbuf at s.st_other)
      st_shndx ← reading (field fbuf at s.st_shndx)
      st_name ← reading (field fbuf at s.st_name)
      name ← reading (text_at fbuf (strtab + st_name))
      printed (record {
        num = i;
        value = st_value;
        size = st_size;
        type = st_type_text st_info;
        bind = st_bind_text st_info;
        visibility = st_other_text st_other;
        section = section_index st_shndx;
        name = name;
      })

-- `n` lines from the symbol number `i` on, which is at `at`.
unfoldable pub symbol_rows :
    (n : ℕ)
    → Class
    → (fbuf : List ℕ) → (strtab sh_offset sh_entsize i at : ℕ) → Report (List SymbolRow)
unfolding symbol_row offset_mod
symbol_rows zero class fbuf strtab sh_offset sh_entsize i at = printed []
symbol_rows (suc n) class fbuf strtab sh_offset sh_entsize i at =
    symbol_row class fbuf strtab at i >>= λ row.
    symbol_rows n class fbuf strtab sh_offset sh_entsize (i + 1)
      (sh_offset + i * sh_entsize % offset_mod class)
    >>= λ rows. printed (row ∷ rows)

-- The division, which stops the program for 0, and the conversion to `int`; a negative number of
-- entries has no line.
unfoldable pub entry_count : (sh_size sh_entsize : ℕ) → Report ℕ
entry_count sh_size sh_entsize =
    let entries = sh_size / sh_entsize % 2 ^ 32 in
    if sh_entsize == 0 then undefined else printed (if ltb entries (2 ^ 31) then entries else 0)

-- The lines of the table whose header is at `at`.
unfoldable pub dump_table :
    Class → (fbuf : List ℕ) → (e_shoff e_shentsize at : ℕ) → Report (List SymbolRow)
unfolding field symbol_rows entry_count
dump_table class fbuf e_shoff e_shentsize at =
    let s = shdr class in
    do
      sh_link ← reading (field fbuf at s.sh_link)
      let link_at = e_shoff + e_shentsize * sh_link
      strtab_offset ← reading (field fbuf link_at s.sh_offset)
      sh_size ← reading (field fbuf at s.sh_size)
      sh_entsize ← reading (field fbuf at s.sh_entsize)
      entries ← entry_count sh_size sh_entsize
      sh_offset ← reading (field fbuf at s.sh_offset)
      symbol_rows entries class fbuf strtab_offset sh_offset sh_entsize 1 sh_offset

-- `none` is the message that there is no table of the type.
unfoldable pub table_dump : Class → (fbuf : List ℕ) → (type : ℕ) → Report (Option (List SymbolRow))
unfolding find_header dump_table
table_dump class fbuf type =
    let h = ehdr class in
    do
      e_shoff ← reading (field fbuf 0 h.e_shoff)
      e_shnum ← reading (field fbuf 0 h.e_shnum)
      found ← find_header e_shnum class fbuf type e_shoff
      elim found [
        | none ↦ printed none
        | some at ↦ do
          e_shentsize ← reading (field fbuf 0 h.e_shentsize)
          rows ← dump_table class fbuf e_shoff e_shentsize at
          printed (some rows)
      ]

-- SHT_SYMTAB
unfoldable pub symbol_dump : Class → (fbuf : List ℕ) → Report (Option (List SymbolRow))
unfolding table_dump
symbol_dump class fbuf = table_dump class fbuf 2

-- SHT_DYNSYM
unfoldable pub dynsym_dump : Class → (fbuf : List ℕ) → Report (Option (List SymbolRow))
unfolding table_dump
dynsym_dump class fbuf = table_dump class fbuf 11
