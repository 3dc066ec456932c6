-- ===== src/Vmx/Load.antt =====
-- initVm and loadExecutableFile of A2/P2/vmx20.c. A file is the list of its whole words.
use unh_cs.Common.{
  ℕ, zero, suc, ◌+◌, Bool, true, false, ◌||◌, Option, none, some, List, [], ◌∷◌, ltb, ◌==◌, not,
  if◌then◌else◌, length,
}
use unh_cs.Common.Word.{sign_bit}
use unh_cs.Common.Bytes.{bytes_of_words, c_string, str_eq}
use unh_cs.Vmx.State.{
  Vm, Symbol, mem_size, Status, normal_termination, initialize_failure, file_not_found,
  file_is_not_valid, file_contains_outsymbols,
}

-- The arguments are what `malloc` returns; nothing of the first block but the pointer to the
-- second is written, so the symbol table starts as whatever the block held.
unfoldable pub init_vm : Option Vm → Option (ℕ → ℕ) → Status × Option Vm
init_vm none memory = (initialize_failure, none)
init_vm (some vm) none = (initialize_failure, none)
init_vm (some vm) (some memory) = (normal_termination, some (record vm { memory = memory }))

-- `fread` of at most `n` words.
unfoldable pub read_words : ℕ → List ℕ → List ℕ
read_words zero ws = []
read_words (suc n) [] = []
read_words (suc n) (w ∷ ws) = w ∷ read_words n ws

-- What is left from a position on.
unfoldable pub seek : ℕ → List ℕ → List ℕ
seek zero ws = ws
seek (suc n) [] = []
seek (suc n) (w ∷ ws) = seek n ws

-- The words of a program over the start of the memory.
unfoldable pub overwrite : List ℕ → (ℕ → ℕ) → ℕ → ℕ
overwrite [] memory i = memory i
overwrite (w ∷ ws) memory zero = w
overwrite (w ∷ ws) memory (suc i) = overwrite ws (λ j. memory (suc j)) i

-- The result with the machine as it was left; `undefined` where C gives no meaning: a read or a
-- write out of the bounds of a buffer, or a negative length.
pub data Load : Type 0 where
  loaded : Vm → Load
  failed : Status → Vm → Load
  undefined : Load

-- "mainx20"
abbrev pub mainx20 : List ℕ
mainx20 = b'm' ∷ b'a' ∷ b'i' ∷ b'n' ∷ b'x' ∷ b'2' ∷ b'0' ∷ []

-- The loop over the insymbols. `strcpy` into the 16 bytes of a name wants its NUL among them.
unfoldable pub parse_symbols : List ℕ → Bool → Vm → Load
parse_symbols [] main_found vm = if main_found then loaded vm else failed file_is_not_valid vm
parse_symbols (a ∷ b ∷ c ∷ d ∷ address ∷ rest) main_found vm =
    elim (c_string (bytes_of_words (a ∷ b ∷ c ∷ d ∷ []))) [
      | none ↦ undefined
      | some name ↦
          let symbol : Symbol = record { name = name; address = address } in
          let vm' = record vm { symbols = symbol ∷ vm.symbols } in
          let as_main = parse_symbols rest true (record vm' { entry_point = address }) in
          let other = parse_symbols rest main_found vm' in
          if str_eq name mainx20
          then (if main_found then failed file_is_not_valid vm' else as_main)
          else other
    ]
parse_symbols _ main_found vm = undefined

load_sections : ℕ → ℕ → ℕ → List ℕ → Vm → Load
unfolding read_words seek overwrite parse_symbols
load_sections insym outsym code body vm =
    if not (outsym == 0)
    then failed file_contains_outsymbols vm
    else if not (ltb insym sign_bit) || not (ltb code sign_bit)
    then undefined
    else let symbuffer = read_words insym body in
      let program = read_words code (seek (insym + outsym) body) in
      let vm' = record vm { memory = overwrite program vm.memory; prog_end = length program } in
      if ltb mem_size (length program)
      then undefined
      else if not (length program == code)
      then failed file_is_not_valid vm'
      else if not (length symbuffer == insym)
      then undefined
      else parse_symbols symbuffer false vm'

-- `none` is a file that cannot be opened. A length that the file does not hold stays 0.
unfoldable pub load_executable_file : Option (List ℕ) → Vm → Load
unfolding load_sections
load_executable_file none vm = failed file_not_found vm
load_executable_file (some []) vm = load_sections 0 0 0 [] vm
load_executable_file (some (l0 ∷ [])) vm = load_sections l0 0 0 [] vm
load_executable_file (some (l0 ∷ l1 ∷ [])) vm = load_sections l0 l1 0 [] vm
load_executable_file (some (l0 ∷ l1 ∷ l2 ∷ body)) vm = load_sections l0 l1 l2 body vm
