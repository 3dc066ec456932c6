-- ===== src/Linker/Loads/Table.antt =====
-- The whole table of insymbols that the first loop of generate_output_file in A2/P1/linkx20.c builds.
use unh_cs.Common.{
  ℕ, ◌+◌, ◌%◌, ◌^◌, ◌≤◌, ◌≡◌, refl, sym, ap, ◌∙◌, inl, inr, true, false, List, [], ◌∷◌, ◌++◌,
  Bool-cases, append_assoc, true-false, arith,
}
use mathlib.Core.List.{append-nil}
use mathlib.Core.Path.{subst}
use unh_cs.Common.Bytes.{str_eq, str_eq_refl, eq_of_str_eq}
use unh_cs.Vmx.Load.{mainx20}
use unh_cs.Linker.Object.{Sym, Header}
use unh_cs.Linker.Output.{Entry, has_name, insert_insyms, code_of, merge_files}
use unh_cs.Linker.Outcome.{OnLinked, OnLinked-bind, OnLinked-if, anything}
use unh_cs.Linker.Distinct.{Distinct, or-left, or-right}
use unh_cs.Linker.Loads.Symbols.{mains, weight}

-- The insymbols of a file whose code goes to `pc_offset`.
unfoldable pub entries_at : (pc_offset : ℕ) → List Sym → List Entry
entries_at pc_offset [] = []
entries_at pc_offset (s ∷ ss) =
    record { name = s.name; address = (s.address + pc_offset) % 2 ^ 32 } ∷ entries_at pc_offset ss

-- The insymbols of all files, each file behind the code of those before it.
unfoldable pub symbol_table : (pc_offset : ℕ) → List Header → List Entry
unfolding entries_at
symbol_table pc_offset [] = []
symbol_table pc_offset (h ∷ hs) =
    entries_at pc_offset h.insyms ++ symbol_table (pc_offset + h.code_count) hs

insert_insyms-entries_at :
    (pc_offset : ℕ) (ss : List Sym) (table : List Entry)
    → OnLinked (λ t. t ≡ table ++ entries_at pc_offset ss) (insert_insyms pc_offset ss table)
unfolding insert_insyms entries_at
insert_insyms-entries_at pc_offset [] table = sym (append-nil table)
insert_insyms-entries_at pc_offset (s ∷ ss) table =
    let entry : Entry = record { name = s.name; address = (s.address + pc_offset) % 2 ^ 32 } in
    OnLinked-if _ (has_name s.name table) _ _ (λ _. tt)
      λ _.
        subst (λ t'. OnLinked (λ t. t ≡ t') (insert_insyms pc_offset ss (table ++ entry ∷ [])))
          (append_assoc table (entry ∷ []) (entries_at pc_offset ss))
          (insert_insyms-entries_at pc_offset ss (table ++ entry ∷ []))

pub merge_files-symbol_table :
    (pc_offset : ℕ) (hs : List Header) (table : List Entry) (code : List ℕ)
    → OnLinked
        (λ (table', code'). table' ≡ table ++ symbol_table pc_offset hs)
        (merge_files pc_offset hs table code)
unfolding merge_files symbol_table
merge_files-symbol_table pc_offset [] table code = sym (append-nil table)
merge_files-symbol_table pc_offset (h ∷ hs) table code =
    let later = symbol_table (pc_offset + h.code_count) hs in
    OnLinked-bind (λ t. t ≡ table ++ entries_at pc_offset h.insyms) _ _ _
      (insert_insyms-entries_at pc_offset h.insyms table)
      λ table' e.
        OnLinked-bind (λ _. Unit {0}) _ _ _ (anything (code_of h))
          λ file_code _.
            subst
              (λ t'.
                OnLinked (λ (t, c). t ≡ t')
                  (merge_files (pc_offset + h.code_count) hs table' (code ++ file_code)))
              (ap (λ t. t ++ later) e ∙ append_assoc table (entries_at pc_offset h.insyms) later)
              (merge_files-symbol_table (pc_offset + h.code_count) hs table' (code ++ file_code))

-- A name that is not in the table is not the name of an entry point there.
no_mains :
    (name : List ℕ) (es : List Entry)
    → str_eq name mainx20 ≡ true
    → has_name name es ≡ false
    → mains es ≡ 0
unfolding mains has_name
no_mains name [] main new = refl
no_mains name (x ∷ es) main new = elim (Bool-cases (str_eq x.name mainx20)) [
  | inl same ↦ absurd (
      true-false (
        sym (
          ap (λ n. str_eq n x.name)
            (eq_of_str_eq name mainx20 main ∙ sym (eq_of_str_eq x.name mainx20 same))
          ∙ str_eq_refl x.name)
        ∙ or-left (str_eq name x.name) (has_name name es) new))
  | inr other ↦ omega (
    arith,
    ap weight other,
    no_mains name es main (or-right (str_eq name x.name) (has_name name es) new),
  )
]

pub mains_upper : (es : List Entry) → Distinct es → mains es ≤ 1
unfolding mains
mains_upper [] d = omega arith
mains_upper (x ∷ es) d = elim (Bool-cases (str_eq x.name mainx20)) [
  | inl main ↦ omega (arith, ap weight main, no_mains x.name es main d.0)
  | inr other ↦ omega (arith, ap weight other, mains_upper es d.1)
]
