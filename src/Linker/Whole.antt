-- ===== src/Linker/Whole.antt =====
-- From the headers that generate_output_file of A2/P1/linkx20.c is given to the machine after
-- loadExecutableFile of A2/P2/vmx20.c.
use unh_cs.Common.{
  ℕ, suc, ◌+◌, ◌*◌, ◌≤◌, ◌<◌, ◌≡◌, refl, sym, ap, ◌∙◌, true, false, List, [], ◌∷◌, ◌++◌, length,
  get_elem?, some, All, ◌==◌, arith,
}
use mathlib.Core.List.{append-nil}
use mathlib.Core.Path.{subst}
use unh_cs.Common.Word.{sign_bit}
use unh_cs.Common.Bytes.{str_eq}
use unh_cs.Vmx.State.{Vm, mem_size}
use unh_cs.Vmx.Load.{Load, loaded, mainx20, load_executable_file, seek}
use unh_cs.Linker.Object.{Header}
use unh_cs.Linker.Output.{
  Entry, Output, linked, count_words, merge_files, entry_words, write_sections,
  generate_output_file,
}
use unh_cs.Linker.Outcome.{OnLinked, OnLinked-bind, OnLinked-if, OnLinked-both, OnLinked_result}
use unh_cs.Linker.Sections.{
  AllExtracted, Merged, Resolved, insym_count, merge_files-Merged, resolve_files-Resolved,
  insym_count-words, not_object, length-entry_words,
}
use unh_cs.Dsx.Names.{IsName}
use unh_cs.Linker.Distinct.{Distinct, merge_files-Distinct}
use unh_cs.Linker.Loads.{IsLoaded, write_sections-IsLoaded, seek-append}
use unh_cs.Linker.Loads.Symbols.{mains_lower}
use unh_cs.Linker.Loads.Table.{symbol_table, merge_files-symbol_table, mains_upper}

-- The machine when a file has been loaded, with the words from `from` on as its code.
abbrev Loads : (from start : ℕ) → Vm → Output → Type 0
Loads from start vm out =
    (vm' : Vm) × (load_executable_file (some out.words) vm ≡ loaded vm')
    × IsLoaded (seek from out.words) start vm'

nothing : {A : Type 0} (xs : List A) → length xs ≡ 0 → xs ≡ []
nothing [] e = refl
nothing (x ∷ xs) e = absurd (omega (arith, e))

three : (i : ℕ) → 3 + i ≡ suc (suc (suc i))
three i = omega arith

seek_code :
    (table : List Entry) (i c : ℕ) (code : List ℕ)
    → 5 * length table ≡ i
    → seek (3 + i) (write_sections i c false table [] code).words ≡ code
unfolding write_sections entry_words seek
seek_code table i c code e =
    let words : List ℕ = (write_sections i c false table [] code).words in
    ap (λ n. seek n words) (three i)
    ∙ ap (λ es. seek i (es ++ code)) (append-nil (entry_words table))
    ∙ ap (λ n. seek n (entry_words table ++ code)) (sym e ∙ sym (length-entry_words table))
    ∙ seek-append (entry_words table) code

write_sections-Loads :
    (table outs : List Entry) (code : List ℕ) (i c : ℕ) (vm : Vm) (k : ℕ) (e : Entry)
    → All (λ (x : Entry). IsName x.name) table
    → Distinct table
    → get_elem? table k ≡ some e
    → str_eq e.name mainx20 ≡ true
    → 5 * length table ≡ i
    → length code ≡ c
    → i < sign_bit
    → c ≤ mem_size
    → (write_sections i c false table outs code).is_object ≡ false
    → Loads (3 + i) e.address vm (write_sections i c false table outs code)
unfolding write_sections
write_sections-Loads table outs code i c vm k e ok distinct at main ei ec short fits executable =
    let (vm', runs, is_loaded) =
      write_sections-IsLoaded table code vm k e ok
        (omega (arith, mains_upper table distinct, mains_lower table k e at main)) at main
        (omega (arith, ei, short)) (omega (arith, ec, fits)) in
    let loading : ℕ → ℕ → Load =
      λ n m. load_executable_file (some (write_sections n m false table [] code).words) vm in
    let empty : outs ≡ [] = nothing outs (not_object false (length outs) executable) in
    subst (λ o. Loads (3 + i) e.address vm (write_sections i c false table o code)) (sym empty)
      (
        vm',
        ap (λ m. loading i m) (sym ec) ∙ ap (λ n. loading n (length code)) (sym ei) ∙ runs,
        subst (λ ws. IsLoaded ws e.address vm') (sym (seek_code table i c code ei)) is_loaded,
      )

-- The table and the code before the references are resolved.
abbrev Built : ℕ → ℕ → List Header → List Entry × List ℕ → Type 0
Built n c hs (table, code) =
    Merged n c (table, code) × ((table ≡ symbol_table 0 hs) × Distinct table)

merge_files-Built :
    (hs : List Header)
    → OnLinked
        (Built (insym_count hs) (count_words (λ h. h.code_count) hs) hs)
        (merge_files 0 hs [] [])
merge_files-Built hs =
    let n = insym_count hs in
    let c = count_words (λ h. h.code_count) hs in
    OnLinked-both (Merged n c) (λ (table, code). (table ≡ symbol_table 0 hs) × Distinct table) _
      (merge_files-Merged 0 hs [] [] n c (omega arith) (omega arith))
      (OnLinked-both (λ (table, code). table ≡ symbol_table 0 hs) (λ (table, code). Distinct table)
        _ (merge_files-symbol_table 0 hs [] []) (merge_files-Distinct 0 hs [] [] tt))

-- What the linker makes of headers with their symbols, if it is an executable, loads. The headers hold
-- as many insymbols as their lengths say, their names leave room for a NUL, the symbol `e` of the table
-- is the entry point, and the symbols and the code fit the file and the memory. Then
-- loadExecutableFile succeeds, the memory starts with the code section of the file, `prog_end` is its
-- length, and the entry point is the address of `e`.
pub generate_output_file-IsLoaded :
    (hs : List Header) (vm : Vm) (k : ℕ) (e : Entry) (out : Output)
    → AllExtracted hs
    → All (λ (x : Entry). IsName x.name) (symbol_table 0 hs)
    → get_elem? (symbol_table 0 hs) k ≡ some e
    → str_eq e.name mainx20 ≡ true
    → count_words (λ h. h.in_count) hs < sign_bit
    → count_words (λ h. h.code_count) hs ≤ mem_size
    → generate_output_file hs false ≡ linked out
    → out.is_object ≡ false
    → (vm' : Vm) × (load_executable_file (some out.words) vm ≡ loaded vm')
      × IsLoaded (seek (3 + count_words (λ h. h.in_count) hs) out.words) e.address vm'
unfolding generate_output_file
generate_output_file-IsLoaded hs vm k e out extracted ok at main short fits links executable =
    let n = insym_count hs in
    let i = count_words (λ h. h.in_count) hs in
    let c = count_words (λ h. h.code_count) hs in
    let Good : Output → Type 0 = λ o. o.is_object ≡ false → Loads (3 + i) e.address vm o in
    OnLinked_result Good (generate_output_file hs false) out links
      (OnLinked-if Good (c == 0) _ _ (λ _. tt)
        λ _.
          OnLinked-bind (Built n c hs) Good _ _ (merge_files-Built hs)
            λ (table, code) (sizes, (whole, distinct)).
              OnLinked-bind (Resolved c) Good _ _
                (resolve_files-Resolved table 0 hs [] code c sizes.1)
                λ (outs, code') ec.
                  write_sections-Loads table outs code' i c vm k e
                    (subst (All (λ (x : Entry). IsName x.name)) (sym whole) ok) distinct
                    (ap (λ t. get_elem? t k) whole ∙ at) main
                    (ap (λ m. 5 * m) sizes.0 ∙ insym_count-words hs extracted) ec short fits)
      executable
