-- ===== src/Linker/Loads.antt =====
-- The output of A2/P1/linkx20.c as loadExecutableFile of A2/P2/vmx20.c reads it.
pub mod Symbols
pub mod Table
use unh_cs.Common.{
  ℕ, zero, suc, ◌+◌, ◌*◌, ◌≤◌, ◌<◌, ◌≡◌, refl, sym, ap, ◌∙◌, Bool, true, false, not, ◌||◌, Option,
  none, some, List, [], ◌∷◌, ◌++◌, length, get_elem?, All, ltb, ◌==◌, if◌then◌else◌, Bool-cases,
  inl, inr, if_both, lt→ltb, le→ltb, eq_test, some_inj, none-some, length-append, arith,
}
use mathlib.Core.List.{append-nil}
use unh_cs.Common.Word.{sign_bit}
use unh_cs.Common.Bytes.{bytes_of_words, c_string, str_eq}
use unh_cs.Vmx.State.{Vm, Symbol, mem_size}
use unh_cs.Vmx.Load.{
  Load, loaded, mainx20, read_words, seek, overwrite, parse_symbols, load_executable_file,
}
use unh_cs.Linker.Output.{Entry, word_at, entry_words, write_sections}
use unh_cs.Linker.Sections.{length-entry_words}
use unh_cs.Dsx.Names.{IsName, padded, c_string-padded}
use unh_cs.Linker.Loads.Symbols.{
  mains, with_symbols, with_symbols-memory, with_symbols-prog_end, with_symbols-entry_point,
  parse_symbols-entry_words,
}

-- Reading back what was written one behind the other.
read_words-append : (xs ys : List ℕ) → read_words (length xs) (xs ++ ys) ≡ xs
unfolding read_words
read_words-append [] ys = refl
read_words-append (x ∷ xs) ys = ap (λ l. x ∷ l) (read_words-append xs ys)

read_words-all : (xs : List ℕ) → read_words (length xs) xs ≡ xs
unfolding read_words
read_words-all [] = refl
read_words-all (x ∷ xs) = ap (λ l. x ∷ l) (read_words-all xs)

pub seek-append : (xs ys : List ℕ) → seek (length xs) (xs ++ ys) ≡ ys
unfolding seek
seek-append [] ys = refl
seek-append (x ∷ xs) ys = seek-append xs ys

-- The words stand in the memory from 0 on.
pub Holds : List ℕ → (ℕ → ℕ) → Type 0
Holds [] memory = Unit
Holds (w ∷ ws) memory = (memory 0 ≡ w) × Holds ws (λ j. memory (suc j))

overwrite-Holds : (ws : List ℕ) (memory : ℕ → ℕ) → Holds ws (overwrite ws memory)
unfolding overwrite Holds
overwrite-Holds [] memory = tt
overwrite-Holds (w ∷ ws) memory = (refl, overwrite-Holds ws (λ j. memory (suc j)))

Holds_transfer : (ws : List ℕ) (f g : ℕ → ℕ) → ((i : ℕ) → g i ≡ f i) → Holds ws f → Holds ws g
unfolding Holds
Holds_transfer [] f g same h = tt
Holds_transfer (w ∷ ws) f g same h = (same 0 ∙ h.0, Holds_transfer ws _ _ (λ i. same (suc i)) h.1)

-- An executable with no outsymbols whose sections have the lengths its head gives.
load_sound :
    (insym code : ℕ) (body symbuffer program : List ℕ) (vm : Vm)
    → insym < sign_bit
    → code < sign_bit
    → read_words insym body ≡ symbuffer
    → read_words code (seek (insym + 0) body) ≡ program
    → length symbuffer ≡ insym
    → length program ≡ code
    → length program ≤ mem_size
    → load_executable_file (some (insym ∷ 0 ∷ code ∷ body)) vm
      ≡ parse_symbols symbuffer false
          (record vm { memory = overwrite program vm.memory; prog_end = length program })
unfolding load_executable_file
load_sound insym code body symbuffer program vm short small symbols_read program_read ls lp fits =
    rw
      (
        symbols_read,
        program_read,
        lt→ltb insym sign_bit short,
        lt→ltb code sign_bit small,
        le→ltb mem_size (length program) fits,
        eq_test (length program) code lp,
        eq_test (length symbuffer) insym ls,
      )
      refl

module _ (table : List Entry) (code : List ℕ) where
  symbols_read : read_words (5 * length table) (entry_words table ++ code) ≡ entry_words table
  symbols_read =
      ap (λ n. read_words n (entry_words table ++ code)) (sym (length-entry_words table))
      ∙ read_words-append (entry_words table) code

  -- The head and the sections of a file without outsymbols.
  written :
      (write_sections (5 * length table) (length code) false table [] code).words
      ≡ 5 * length table ∷ 0 ∷ length code ∷ (entry_words table ++ code)
  unfolding write_sections entry_words
  written =
      ap (λ ws. 5 * length table ∷ 0 ∷ length code ∷ (ws ++ code)) (append-nil (entry_words table))

  program_read :
      read_words (length code) (seek (5 * length table + 0) (entry_words table ++ code)) ≡ code
  program_read =
      ap (λ n. read_words (length code) (seek n (entry_words table ++ code)))
        (omega (arith, length-entry_words table))
      ∙ ap (read_words (length code)) (seek-append (entry_words table) code)
      ∙ read_words-all code

-- What the simulator has when it has loaded code that starts at `start`.
pub record IsLoaded (code : List ℕ) (start : ℕ) (vm : Vm) : Type 0 where
  pub program : Holds code vm.memory
  pub boundary : vm.prog_end ≡ length code
  pub entry : vm.entry_point ≡ start

-- An executable that the linker writes, from a table whose names leave room for a NUL and in which one
-- entry `e` alone is the entry point, and from code that fits the memory, is loaded: the code stands from
-- word 0 on up to `prog_end`, and the entry point is the address of `e`.
pub write_sections-IsLoaded :
    (table : List Entry) (code : List ℕ) (vm : Vm) (k : ℕ) (e : Entry)
    → All (λ (e : Entry). IsName e.name) table
    → mains table ≡ 1
    → get_elem? table k ≡ some e
    → str_eq e.name mainx20 ≡ true
    → 5 * length table < sign_bit
    → length code ≤ mem_size
    → (vm' : Vm) × (load_executable_file
          (some (write_sections (5 * length table) (length code) false table [] code).words)
          vm
        ≡ loaded vm')
      × IsLoaded code e.address vm'
write_sections-IsLoaded table code vm k e ok one at main short fits =
    let machine : Vm = record vm { memory = overwrite code vm.memory; prog_end = length code } in
    (
      with_symbols table machine,
      ap (λ ws. load_executable_file (some ws) vm) (written table code)
          ∙ load_sound (5 * length table) (length code) (entry_words table ++ code)
              (entry_words table) code vm short (omega (arith, fits)) (symbols_read table code)
              (program_read table code) (length-entry_words table) refl fits
          ∙ parse_symbols-entry_words table false machine ok (omega (arith, one)),
      record {
        program =
            Holds_transfer code _ _ (with_symbols-memory table machine)
              (overwrite-Holds code vm.memory);
        boundary = with_symbols-prog_end table machine;
        entry = with_symbols-entry_point table machine k e one at main;
      },
    )
