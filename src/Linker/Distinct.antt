-- ===== src/Linker/Distinct.antt =====
-- The table of insymbols of A2/P1/linkx20.c has no name twice.
use unh_cs.Common.{
  true-false, ℕ, ◌+◌, ◌%◌, ◌^◌, ◌≡◌, refl, sym, ◌∙◌, inl, inr, Bool, true, false, ◌||◌, List, [],
  ◌∷◌, ◌++◌, Bool-cases,
}
use mathlib.Core.Path.{subst}
use unh_cs.Common.Bytes.{str_eq, str_eq_refl, eq_of_str_eq}
use unh_cs.Linker.Object.{Sym, Header}
use unh_cs.Linker.Output.{Entry, has_name, insert_insyms, code_of, merge_files}
use unh_cs.Linker.Outcome.{OnLinked, OnLinked-bind, OnLinked-if, anything}

-- No name stands again behind its entry.
abbrev pub Distinct : List Entry → Type 0
Distinct [] = Unit
Distinct (e ∷ es) = (has_name e.name es ≡ false) × Distinct es

pub or-left : (a b : Bool) → (a || b) ≡ false → a ≡ false
or-left true b e = e
or-left false b e = refl

pub or-right : (a b : Bool) → (a || b) ≡ false → b ≡ false
or-right true b e = absurd (true-false e)
or-right false b e = e

str_eq_comm : (s t : List ℕ) → str_eq s t ≡ false → str_eq t s ≡ false
str_eq_comm s t e = elim (Bool-cases (str_eq t s)) [
  | inl same ↦ absurd (
      true-false (sym (subst (λ x. str_eq x t ≡ true) (eq_of_str_eq t s same) (str_eq_refl t)) ∙ e))
  | inr other ↦ other
]

has_name-snoc :
    (name : List ℕ) (es : List Entry) (x : Entry)
    → has_name name es ≡ false
    → str_eq name x.name ≡ false
    → has_name name (es ++ x ∷ []) ≡ false
unfolding has_name
has_name-snoc name [] x h e = rw e refl
has_name-snoc name (y ∷ es) x h e =
    rw (or-left (str_eq name y.name) (has_name name es) h)
      (has_name-snoc name es x (or-right (str_eq name y.name) (has_name name es) h) e)

Distinct-snoc :
    (es : List Entry) (x : Entry)
    → has_name x.name es ≡ false
    → Distinct es
    → Distinct (es ++ x ∷ [])
unfolding has_name
Distinct-snoc [] x h d = (refl, tt)
Distinct-snoc (y ∷ es) x h d = (
  has_name-snoc y.name es x d.0
      (str_eq_comm x.name y.name (or-left (str_eq x.name y.name) (has_name x.name es) h)),
  Distinct-snoc es x (or-right (str_eq x.name y.name) (has_name x.name es) h) d.1,
)

insert_insyms-Distinct :
    (pc_offset : ℕ) (ss : List Sym) (table : List Entry)
    → Distinct table
    → OnLinked Distinct (insert_insyms pc_offset ss table)
unfolding insert_insyms
insert_insyms-Distinct pc_offset [] table d = d
insert_insyms-Distinct pc_offset (s ∷ ss) table d =
    let entry : Entry = record { name = s.name; address = (s.address + pc_offset) % 2 ^ 32 } in
    OnLinked-if Distinct (has_name s.name table) _ _ (λ _. tt)
      λ new.
        insert_insyms-Distinct pc_offset ss (table ++ entry ∷ []) (Distinct-snoc table entry new d)

-- Files that are merged into a table without a name twice, if that succeeds, give such a table:
-- two definitions of a name never go into one output.
pub merge_files-Distinct :
    (pc_offset : ℕ) (hs : List Header) (table : List Entry) (code : List ℕ)
    → Distinct table
    → OnLinked (λ (table', code'). Distinct table') (merge_files pc_offset hs table code)
unfolding merge_files
merge_files-Distinct pc_offset [] table code d = d
merge_files-Distinct pc_offset (h ∷ hs) table code d =
    OnLinked-bind Distinct (λ (table', code'). Distinct table') _ _
      (insert_insyms-Distinct pc_offset h.insyms table d)
      λ table' d'.
        OnLinked-bind (λ _. Unit {0}) (λ (table', code'). Distinct table') _ _
          (anything (code_of h))
          λ file_code _.
            merge_files-Distinct (pc_offset + h.code_count) hs table' (code ++ file_code) d'
