-- ===== src/Elf/Accept.antt =====
-- Which files main of A1/P1/binary_info.c prints something of.
use unh_cs.Common.{ℕ, ◌≡◌, ◌≢◌, ◌⊎◌, Option, some, List, [], get_elem?}
use unh_cs.Elf.File.{Class, elf32, elf64}
use unh_cs.Elf.Dump.{printed}
use unh_cs.Elf.Program.{Mode, mode_of, Printout, report}

-- EI_CLASS and its value for a class.
abbrev class_byte : Class → ℕ
class_byte elf32 = 1
class_byte elf64 = 2

-- The identification of a file of a class: the magic number, the class, one of the two encodings and
-- the version.
pub record IsElf (fbuf : List ℕ) (class : Class) : Type 0 where
  pub magic0 : get_elem? fbuf 0 ≡ some 0x7f
  pub magic1 : get_elem? fbuf 1 ≡ some b'E'
  pub magic2 : get_elem? fbuf 2 ≡ some b'L'
  pub magic3 : get_elem? fbuf 3 ≡ some b'F'
  pub ei_class : get_elem? fbuf 4 ≡ some (class_byte class)
  pub ei_data : (get_elem? fbuf 5 ≡ some 1) ⊎ (get_elem? fbuf 5 ≡ some 2)
  pub ei_version : get_elem? fbuf 6 ≡ some 1

-- How a printed text has come about.
pub record Accepted (fopen : List ℕ → Option (List ℕ)) (opt filename : List ℕ) (p : Printout)
    : Type 0 where
  pub mode : Mode
  pub class : Class
  pub fbuf : List ℕ
  pub option : mode_of opt ≡ some mode
  pub file : fopen filename ≡ some fbuf
  pub nonempty : fbuf ≢ []
  pub ident : IsElf fbuf class
  pub text : report mode class fbuf ≡ printed p
