-- ===== src/Linker/Sections.antt =====
-- The lengths that A2/P1/linkx20.c writes at the head of its output.
use unh_cs.Common.{
  none-some, ℕ, zero, suc, ◌+◌, ◌*◌, ◌%◌, ◌^◌, ◌≡◌, ◌⊎◌, lt→ltb, refl, sym, ap, ◌∙◌, inl, inr, Bool,
  true, false, ◌||◌, Option, none, some, List, [], ◌∷◌, ◌++◌, ltb, ◌==◌, length, get_elem?,
  length-append, length-set, Option-cases, some_inj, arith,
}
use unh_cs.Common.Bytes.{str_eq}
use unh_cs.Linker.Object.{Sym, Header}
use unh_cs.Linker.Outcome.{OnLinked, OnLinked-bind, OnLinked-if}
use unh_cs.Linker.Output.{
  Entry, linked, undefined, count_words, has_name, insert_insyms, copy_words, code_of, merge_files,
  patch, resolve, resolve_outsyms, resolve_files, entry_words, Output, write_sections,
  generate_output_file,
}

length-copy_words :
    (from count : ℕ) (ws : List ℕ) {r : List ℕ}
    → copy_words from count ws ≡ some r
    → length r ≡ count
unfolding copy_words
length-copy_words zero zero ws e = ap length (sym (some_inj e))
length-copy_words zero (suc n) [] e = absurd (none-some e)
length-copy_words zero (suc n) (w ∷ ws) e = elim (Option-cases (copy_words zero n ws)) [
  | inl stuck ↦ absurd (none-some (rw stuck at e))
  | inr (r, got) ↦
      ap length (sym (some_inj (rw got at e))) ∙ ap suc (length-copy_words zero n ws got)
]
length-copy_words (suc k) zero [] e = ap length (sym (some_inj e))
length-copy_words (suc k) (suc n) [] e = absurd (none-some e)
length-copy_words (suc k) n (w ∷ ws) e = length-copy_words k n ws e

abbrev IsLong : ℕ → List ℕ → Type 0
IsLong n ws = length ws ≡ n

code_of-IsLong : (h : Header) → OnLinked (IsLong h.code_count) (code_of h)
unfolding code_of
code_of-IsLong h = copied (copy_words (h.in_count + h.out_count) h.code_count h.body) refl
  where
    copied :
        (o : Option (List ℕ))
        → copy_words (h.in_count + h.out_count) h.code_count h.body ≡ o
        → OnLinked (IsLong h.code_count) (elim o [ none ↦ undefined | some code ↦ linked code ])
    copied none e = tt
    copied (some code) e = length-copy_words (h.in_count + h.out_count) h.code_count h.body e

-- The number of symbols of the files.
abbrev pub insym_count : List Header → ℕ
insym_count hs = count_words (λ h. length h.insyms) hs

insert_insyms-length :
    (pc_offset : ℕ) (ss : List Sym) (table : List Entry) (n : ℕ)
    → length table + length ss ≡ n
    → OnLinked (λ t. length t ≡ n) (insert_insyms pc_offset ss table)
unfolding insert_insyms
insert_insyms-length pc_offset [] table n e = omega (arith, e)
insert_insyms-length pc_offset (s ∷ ss) table n e =
    let entry : Entry = record { name = s.name; address = (s.address + pc_offset) % 2 ^ 32 } in
    OnLinked-if _ (has_name s.name table) _ _ (λ _. tt)
      λ _.
        insert_insyms-length pc_offset ss (table ++ entry ∷ []) n
          (omega (arith, length-append table (entry ∷ []), e))

-- The lengths of a table and of the code.
abbrev pub Merged : ℕ → ℕ → List Entry × List ℕ → Type 0
Merged n c (table, code) = (length table ≡ n) × (length code ≡ c)

pub merge_files-Merged :
    (pc_offset : ℕ) (hs : List Header) (table : List Entry) (code : List ℕ) (n c : ℕ)
    → length table + insym_count hs ≡ n
    → length code + count_words (λ h. h.code_count) hs ≡ c
    → OnLinked (Merged n c) (merge_files pc_offset hs table code)
unfolding merge_files
merge_files-Merged pc_offset [] table code n c en ec = (omega (arith, en), omega (arith, ec))
merge_files-Merged pc_offset (h ∷ hs) table code n c en ec =
    OnLinked-bind (λ t. length t ≡ length table + length h.insyms) (Merged n c) _ _
      (insert_insyms-length pc_offset h.insyms table (length table + length h.insyms) refl)
      λ table' et.
        OnLinked-bind (IsLong h.code_count) (Merged n c) _ _ (code_of-IsLong h) λ file_code ef.
          merge_files-Merged (pc_offset + h.code_count) hs table' (code ++ file_code) n c
            (omega (arith, et, en)) (omega (arith, length-append code file_code, ef, ec))

patch-IsLong :
    (definition pc : ℕ) (code : List ℕ) (c : ℕ)
    → IsLong c code
    → OnLinked (IsLong c) (patch definition pc code)
unfolding patch
patch-IsLong definition pc code c e = elim (Option-cases (get_elem? code pc)) [
  | inl beyond ↦ rw (beyond, OnLinked) tt
  | inr (instr, there) ↦ rw (there, OnLinked) (length-set code pc _ ∙ e)
]

resolve-IsLong :
    (table : List Entry) (name : List ℕ) (pc : ℕ) (defined : Bool) (code : List ℕ) (c : ℕ)
    → IsLong c code
    → OnLinked (λ (d, code'). IsLong c code') (resolve table name pc defined code)
unfolding resolve
resolve-IsLong [] name pc defined code c e = e
resolve-IsLong (x ∷ table) name pc defined code c e =
    OnLinked-if _ (str_eq name x.name) _ _
      (λ _.
        OnLinked-bind (IsLong c) _ _ _ (patch-IsLong x.address pc code c e)
          λ code' e'. resolve-IsLong table name pc true code' c e')
      (λ _. resolve-IsLong table name pc defined code c e)

abbrev pub Resolved : ℕ → List Entry × List ℕ → Type 0
Resolved c (outs, code) = IsLong c code

resolve_outsyms-Resolved :
    (table : List Entry) (pc_offset : ℕ) (ss : List Sym) (outs : List Entry) (code : List ℕ) (c : ℕ)
    → IsLong c code
    → OnLinked (Resolved c) (resolve_outsyms table pc_offset ss outs code)
unfolding resolve_outsyms
resolve_outsyms-Resolved table pc_offset [] outs code c e = e
resolve_outsyms-Resolved table pc_offset (s ∷ ss) outs code c e =
    OnLinked-bind (λ (d, code'). IsLong c code') (Resolved c) _ _
      (resolve-IsLong table s.name (pc_offset + s.address) s.defined code c e)
      λ (defined, code') e'. resolve_outsyms-Resolved table pc_offset ss _ code' c e'

pub resolve_files-Resolved :
    (table : List Entry) (pc_offset : ℕ) (hs : List Header) (outs : List Entry) (code : List ℕ)
    (c : ℕ)
    → IsLong c code
    → OnLinked (Resolved c) (resolve_files table pc_offset hs outs code)
unfolding resolve_files
resolve_files-Resolved table pc_offset [] outs code c e = e
resolve_files-Resolved table pc_offset (h ∷ hs) outs code c e =
    OnLinked-bind (Resolved c) (Resolved c) _ _
      (resolve_outsyms-Resolved table pc_offset h.outsyms outs code c e)
      λ (outs', code') e'.
        resolve_files-Resolved table (pc_offset + h.code_count) hs outs' code' c e'

pub length-entry_words : (es : List Entry) → length (entry_words es) ≡ 5 * length es
unfolding entry_words
length-entry_words [] = refl
length-entry_words (e ∷ es) = omega (arith, length-entry_words es)

-- The file holds the lengths of its three sections and the sections: a table of insymbols, the outsymbols
-- and the code; `bytes_written` is its size in bytes, and it is an object or has no outsymbols.
pub record IsImage (out : Output) : Type 0 where
  pub table : List Entry
  pub outs : List Entry
  pub code : List ℕ
  pub sections :
      out.words
      ≡ 5 * length table ∷ 5 * length outs ∷ length code ∷ entry_words table
        ++ entry_words outs
        ++ code
  pub size : out.bytes_written ≡ 4 * length out.words
  pub complete : (out.is_object ≡ true) ⊎ (outs ≡ [])

pub not_object : (b : Bool) (n : ℕ) → (b || ltb 0 n) ≡ false → n ≡ 0
not_object true n e = ground arith
not_object false n e = ground arith

object_or_nothing :
    (b : Bool) (outs : List Entry) → ((b || ltb 0 (length outs)) ≡ true) ⊎ (outs ≡ [])
object_or_nothing true outs = inl refl
object_or_nothing false [] = inr refl
object_or_nothing false (o ∷ outs) = inl (lt→ltb 0 (length (o ∷ outs)) (omega arith))

write_sections-IsImage :
    (i c : ℕ) (b : Bool) (table outs : List Entry) (code : List ℕ)
    → 5 * length table ≡ i
    → length code ≡ c
    → IsImage (write_sections i c b table outs code)
unfolding write_sections
write_sections-IsImage i c b table outs code ei ec = record {
  table = table;
  outs = outs;
  code = code;
  sections =
      ap (λ n. n ∷ 5 * length outs ∷ c ∷ entry_words table ++ entry_words outs ++ code) (sym ei)
      ∙ ap
          (λ n.
            5 * length table ∷ 5 * length outs ∷ n ∷ entry_words table ++ entry_words outs ++ code)
          (sym ec);
  size = omega (
    arith,
    length-append (entry_words table ++ entry_words outs) code,
    length-append (entry_words table) (entry_words outs),
    length-entry_words table,
    length-entry_words outs,
    ei,
    ec,
  );
  complete = object_or_nothing b outs;
}

-- Every header has as many insymbols as its length says.
abbrev pub IsExtracted : Header → Type 0
IsExtracted h = 5 * length h.insyms ≡ h.in_count

abbrev pub AllExtracted : List Header → Type 0
AllExtracted [] = Unit
AllExtracted (h ∷ hs) = IsExtracted h × AllExtracted hs

pub insym_count-words :
    (hs : List Header) → AllExtracted hs → 5 * insym_count hs ≡ count_words (λ h. h.in_count) hs
insym_count-words [] h = refl
insym_count-words (x ∷ hs) h = omega (arith, insym_count-words hs h.1, h.0)

pub generate_output_file-IsImage :
    (hs : List Header) (b : Bool) → AllExtracted hs → OnLinked IsImage (generate_output_file hs b)
unfolding generate_output_file
generate_output_file-IsImage hs b h =
    let n = insym_count hs in
    let c = count_words (λ x. x.code_count) hs in
    OnLinked-if IsImage (c == 0) _ _ (λ _. tt)
      λ _.
        OnLinked-bind (Merged n c) IsImage _ _
          (merge_files-Merged 0 hs [] [] n c (omega arith) (omega arith))
          λ (table, code) (et, ec).
            OnLinked-bind (Resolved c) IsImage _ _ (resolve_files-Resolved table 0 hs [] code c ec)
              λ (outs, code') ec'.
                write_sections-IsImage (count_words (λ x. x.in_count) hs) c b table outs code'
                  (ap (λ k. 5 * k) et ∙ insym_count-words hs h) ec'
