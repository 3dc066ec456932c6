-- ===== src/Elf/Dump.antt =====
-- print_header, string_dump and list_sect_headers of A1/P1/binary_info.c. What is printed is kept as
-- its values.
use Prim.Native.String.{String}
use unh_cs.Common.{
  ℕ, zero, suc, ◌+◌, ◌-◌, ◌*◌, ◌%◌, ◌^◌, Option, none, some, List, [], ◌∷◌, get_elem?, ◌==◌,
  if◌then◌else◌,
}
use unh_cs.Elf.File.{Class, elf32, elf64, offset_mod, ehdr, shdr, field, text_at}
use unh_cs.Elf.Text.{file_type_text, get_type_str}

-- How a function ends: what it prints, `exit` with a code and nothing printed, `exit (3)` behind the
-- first lines of the header, or an access beyond the file.
pub data Report (A : Type 0) : Type 0 where
  printed : A → Report A
  exits : ℕ → Report A
  cut_header : (magic : List ℕ) → (class : Class) → (data_encoding : ℕ) → Report A
  undefined : Report A

abbrev pub ◌>>=◌ : {A B : Type 0} → Report A → (A → Report B) → Report B
printed a >>= k = k a
exits n >>= k = exits n
cut_header magic class data_encoding >>= k = cut_header magic class data_encoding
undefined >>= k = undefined

infixl 5 ◌>>=◌
-- A read of the file.
abbrev pub reading : {A : Type 0} → Option A → Report A
reading none = undefined
reading (some a) = printed a

-- `n` bytes of the file.
unfoldable pub take_bytes : (n at : ℕ) → List ℕ → Report (List ℕ)
take_bytes zero at fbuf = printed []
take_bytes (suc n) at fbuf =
    reading (get_elem? fbuf at) >>= λ b. take_bytes n (at + 1) fbuf >>= λ bs. printed (b ∷ bs)

-- The fields in the order in which they are printed.
pub record HeaderText : Type 0 where
  pub magic : List ℕ
  pub class : Class
  pub data_encoding : ℕ
  pub file_type : String
  pub entry : ℕ
  pub phoff : ℕ
  pub shoff : ℕ
  pub flags : ℕ
  pub ehsize : ℕ
  pub phentsize : ℕ
  pub phnum : ℕ
  pub shentsize : ℕ
  pub shnum : ℕ
  pub shstrndx : ℕ

-- `exit (3)` for a type that is none, behind the lines for the magic number, the class and the data.
abbrev pub known_type : List ℕ → Class → ℕ → Option String → Report String
known_type magic class data_encoding none = cut_header magic class data_encoding
known_type magic class data_encoding (some s) = printed s

unfoldable pub print_header : Class → (fbuf : List ℕ) → Report HeaderText
unfolding take_bytes field
print_header class fbuf =
    let h = ehdr class in
    do
      magic ← take_bytes 16 0 fbuf
      data_encoding ← reading (get_elem? fbuf 5)
      type ← reading (field fbuf 0 h.e_type)
      file_type ← known_type magic class data_encoding (file_type_text type)
      entry ← reading (field fbuf 0 h.e_entry)
      phoff ← reading (field fbuf 0 h.e_phoff)
      shoff ← reading (field fbuf 0 h.e_shoff)
      flags ← reading (field fbuf 0 h.e_flags)
      ehsize ← reading (field fbuf 0 h.e_ehsize)
      phentsize ← reading (field fbuf 0 h.e_phentsize)
      phnum ← reading (field fbuf 0 h.e_phnum)
      shentsize ← reading (field fbuf 0 h.e_shentsize)
      shnum ← reading (field fbuf 0 h.e_shnum)
      shstrndx ← reading (field fbuf 0 h.e_shstrndx)
      printed (record {
        magic = magic;
        class = class;
        data_encoding = data_encoding;
        file_type = file_type;
        entry = entry;
        phoff = phoff;
        shoff = shoff;
        flags = flags;
        ehsize = ehsize;
        phentsize = phentsize;
        phnum = phnum;
        shentsize = shentsize;
        shnum = shnum;
        shstrndx = shstrndx;
      })

-- A NUL of the table ends a line.
abbrev pub line_char : ℕ → ℕ
line_char b = if b == 0 then b'\n' else b

-- `n` characters of the table of names.
unfoldable pub dump_names : (n at : ℕ) → (fbuf : List ℕ) → Report (List ℕ)
dump_names zero at fbuf = printed []
dump_names (suc n) at fbuf = reading (get_elem? fbuf at) >>= λ b.
    dump_names n (at + 1) fbuf >>= λ text. printed (line_char b ∷ text)

-- section_name_table_offset, and the text behind the first byte of the table, which is printed or not.
unfoldable pub string_dump : Class → (fbuf : List ℕ) → Report (ℕ × List ℕ)
unfolding field offset_mod dump_names
string_dump class fbuf =
    let h = ehdr class in
    let s = shdr class in
    do
      e_shoff ← reading (field fbuf 0 h.e_shoff)
      e_shentsize ← reading (field fbuf 0 h.e_shentsize)
      e_shstrndx ← reading (field fbuf 0 h.e_shstrndx)
      let at = (e_shoff + e_shentsize * e_shstrndx) % offset_mod class
      sh_offset ← reading (field fbuf at s.sh_offset)
      tabsize ← reading (field fbuf at s.sh_size)
      text ← dump_names (tabsize - 1) (sh_offset + 1) fbuf
      printed (sh_offset, text)

pub record SectionRow : Type 0 where
  pub index : ℕ
  pub name : List ℕ
  pub type : String
  pub addr : ℕ
  pub offset : ℕ
  pub size : ℕ

-- The line for the section header at a place.
unfoldable pub section_row : Class → (fbuf : List ℕ) → (names at i : ℕ) → Report SectionRow
unfolding field text_at
section_row class fbuf names at i =
    let s = shdr class in
    do
      sh_name ← reading (field fbuf at s.sh_name)
      sh_type ← reading (field fbuf at s.sh_type)
      sh_addr ← reading (field fbuf at s.sh_addr)
      sh_offset ← reading (field fbuf at s.sh_offset)
      sh_size ← reading (field fbuf at s.sh_size)
      name ← reading (text_at fbuf (names + sh_name))
      printed (record {
        index = i;
        name = name;
        type = get_type_str sh_type;
        addr = sh_addr;
        offset = sh_offset;
        size = sh_size;
      })

-- Where the loop for a class looks for the header number `i`.
unfoldable pub header_at : Class → (e_shoff e_shentsize i : ℕ) → ℕ
header_at elf32 e_shoff e_shentsize i = e_shoff
header_at elf64 e_shoff e_shentsize i = e_shoff + e_shentsize * i

-- `n` lines from the header number `i` on.
unfoldable pub section_rows :
    (n : ℕ) → Class → (fbuf : List ℕ) → (names e_shoff e_shentsize i : ℕ) → Report (List SectionRow)
unfolding section_row header_at
section_rows zero class fbuf names e_shoff e_shentsize i = printed []
section_rows (suc n) class fbuf names e_shoff e_shentsize i =
    section_row class fbuf names (header_at class e_shoff e_shentsize i) i >>= λ row.
    section_rows n class fbuf names e_shoff e_shentsize (i + 1) >>= λ rows. printed (row ∷ rows)

-- `names` is section_name_table_offset; nothing is printed for the -1 it starts with.
unfoldable pub list_sect_headers : Class → (fbuf : List ℕ) → (names : ℕ) → Report (List SectionRow)
unfolding section_rows
list_sect_headers class fbuf names =
    let h = ehdr class in
    if names == 2 ^ 64 - 1 then printed [] else do
      e_shnum ← reading (field fbuf 0 h.e_shnum)
      e_shoff ← reading (field fbuf 0 h.e_shoff)
      e_shentsize ← reading (field fbuf 0 h.e_shentsize)
      section_rows e_shnum class fbuf names e_shoff e_shentsize 0
