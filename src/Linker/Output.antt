-- ===== src/Linker/Output.antt =====
-- generate_output_file and main of A2/P1/linkx20.c. A section of symbols of the output is the list of
-- its entries, a name of at most 16 bytes and an address each.
use unh_cs.Common.{
  ℕ, zero, suc, ◌+◌, ◌*◌, ◌%◌, ◌^◌, Bool, true, false, not, ◌||◌, Option, none, some, List, [], ◌∷◌,
  ◌++◌, ltb, ◌==◌, if◌then◌else◌, length, set, get_elem?,
}
use unh_cs.Common.Word.{sub32}
use unh_cs.Common.Bytes.{word_of_bytes, str_eq}
use unh_cs.Linker.Object.{Sym, Header, read_files, extract_all}

pub record Entry : Type 0 where
  pub name : List ℕ
  pub address : ℕ

-- How a link ends: `exit (50)` without object code, `exit (1)` on a duplicate, a read or a write out of
-- bounds, or the file.
pub data Linked (A : Type 0) : Type 0 where
  linked : A → Linked A
  no_code : Linked A
  duplicate : List ℕ → Linked A
  undefined : Linked A

abbrev pub ◌>>=◌ : {A B : Type 0} → Linked A → (A → Linked B) → Linked B
linked a >>= k = k a
no_code >>= k = no_code
duplicate name >>= k = duplicate name
undefined >>= k = undefined

infixl 5 ◌>>=◌
abbrev pub count_words : (Header → ℕ) → List Header → ℕ
count_words f [] = 0
count_words f (h ∷ hs) = f h + count_words f hs

-- Whether the table built so far has the name.
unfoldable pub has_name : List ℕ → List Entry → Bool
has_name name [] = false
has_name name (e ∷ es) = str_eq name e.name || has_name name es

-- The insymbols of one file at the end of the table.
unfoldable pub insert_insyms : (pc_offset : ℕ) → List Sym → List Entry → Linked (List Entry)
insert_insyms pc_offset [] table = linked table
insert_insyms pc_offset (s ∷ ss) table =
    let entry : Entry = record { name = s.name; address = (s.address + pc_offset) % 2 ^ 32 } in
    let rest = insert_insyms pc_offset ss (table ++ entry ∷ []) in
    if has_name s.name table then duplicate s.name else rest

-- `memcpy` of a number of words from a position on; `none` beyond the end.
unfoldable pub copy_words : (from count : ℕ) → List ℕ → Option (List ℕ)
copy_words zero zero ws = some []
copy_words zero (suc n) [] = none
copy_words zero (suc n) (w ∷ ws) = elim (copy_words zero n ws) [
  | none ↦ none
  | some r ↦ some (w ∷ r)
]
copy_words (suc k) n [] = elim n [ zero ↦ some [] | suc _ ↦ none ]
copy_words (suc k) n (w ∷ ws) = copy_words k n ws

-- The code of a file behind its symbols.
unfoldable pub code_of : Header → Linked (List ℕ)
unfolding copy_words
code_of h = elim (copy_words (h.in_count + h.out_count) h.code_count h.body) [
  | none ↦ undefined
  | some code ↦ linked code
]

-- The first loop: the table of insymbols, and the code of the files one behind the other.
unfoldable pub merge_files :
    (pc_offset : ℕ) → List Header → List Entry → List ℕ → Linked (List Entry × List ℕ)
unfolding insert_insyms code_of
merge_files pc_offset [] table code = linked (table, code)
merge_files pc_offset (h ∷ hs) table code = do
  table' ← insert_insyms pc_offset h.insyms table
  file_code ← code_of h
  merge_files (pc_offset + h.code_count) hs table' (code ++ file_code)

unfoldable pub is_addr20 : ℕ → Bool
is_addr20 op = op == 0x0f || op == 0x14 || op == 0x01 || op == 0x02 || op == 0x04

unfoldable pub is_addr16 : ℕ → Bool
is_addr16 op = op == 0x11 || op == 0x12 || op == 0x13 || op == 0x15

-- The instruction with a new displacement in its top 20 or 16 bits.
unfoldable pub rewrite_instr : (new_addr instr : ℕ) → ℕ
unfolding is_addr20 is_addr16
rewrite_instr new_addr instr =
    if is_addr20 (instr % 256)
    then new_addr % 2 ^ 20 * 2 ^ 12 + instr % 2 ^ 12
    else if is_addr16 (instr % 256)
    then new_addr % 2 ^ 16 * 2 ^ 16 + instr % 2 ^ 16
    else instr

-- The instruction at `pc` made to refer to a definition.
unfoldable pub patch : (definition pc : ℕ) → List ℕ → Linked (List ℕ)
unfolding rewrite_instr
patch definition pc code = elim (get_elem? code pc) [
  | none ↦ undefined
  | some instr ↦ linked (set code pc (rewrite_instr (sub32 definition (pc + 1)) instr))
]

-- The search of the whole table, with whether the symbol has been defined.
unfoldable pub resolve :
    List Entry → (name : List ℕ) → (pc : ℕ) → Bool → List ℕ → Linked (Bool × List ℕ)
unfolding patch
resolve [] name pc defined code = linked (defined, code)
resolve (e ∷ es) name pc defined code =
    let skipped = resolve es name pc defined code in
    let matched = patch e.address pc code >>= λ code'. resolve es name pc true code' in
    if str_eq name e.name then matched else skipped

-- The outsymbols of one file; one that is not defined goes to the end of the outsymbols.
unfoldable pub resolve_outsyms :
    List Entry → (pc_offset : ℕ) → List Sym → List Entry → List ℕ → Linked (List Entry × List ℕ)
unfolding resolve
resolve_outsyms table pc_offset [] outs code = linked (outs, code)
resolve_outsyms table pc_offset (s ∷ ss) outs code =
    resolve table s.name (pc_offset + s.address) s.defined code >>= λ (defined, code').
    resolve_outsyms table pc_offset ss
      (if defined
        then outs
        else outs ++ record { name = s.name; address = (s.address + pc_offset) % 2 ^ 32 } ∷ [])
      code'

-- The second loop.
unfoldable pub resolve_files :
    List Entry → (pc_offset : ℕ) → List Header → List Entry → List ℕ → Linked (List Entry × List ℕ)
unfolding resolve_outsyms
resolve_files table pc_offset [] outs code = linked (outs, code)
resolve_files table pc_offset (h ∷ hs) outs code =
    resolve_outsyms table pc_offset h.outsyms outs code >>= λ (outs', code').
    resolve_files table (pc_offset + h.code_count) hs outs' code'

-- A name as four words, padded with NUL.
unfoldable pub byte_at : List ℕ → ℕ → ℕ
byte_at name i = elim (get_elem? name i) [ none ↦ 0 | some b ↦ b ]

unfoldable pub word_at : List ℕ → ℕ → ℕ
unfolding byte_at
word_at name i =
    word_of_bytes (byte_at name i) (byte_at name (i + 1)) (byte_at name (i + 2))
      (byte_at name (i + 3))

unfoldable pub entry_words : List Entry → List ℕ
unfolding word_at
entry_words [] = []
entry_words (e ∷ es) =
    word_at e.name 0
    ∷ word_at e.name 4
    ∷ word_at e.name 8
    ∷ word_at e.name 12
    ∷ e.address
    ∷ entry_words es

-- The words that are written, whether the file is an object, and the result.
pub record Output : Type 0 where
  pub words : List ℕ
  pub is_object : Bool
  pub bytes_written : ℕ

-- The three lengths and the sections. `insym_words` is the sum of the lengths in the files.
unfoldable pub write_sections :
    (insym_words object_words : ℕ) → Bool → List Entry → List Entry → List ℕ → Output
unfolding entry_words
write_sections insym_words object_words is_object table outs code = record {
  words =
      insym_words ∷ (5 * length outs) ∷ object_words ∷ entry_words table
      ++ entry_words outs
      ++ code;
  is_object = is_object || ltb 0 (length outs);
  bytes_written = 20 * length table + 4 * object_words + 20 * length outs + 12;
}

unfoldable pub generate_output_file : List Header → (is_object : Bool) → Linked Output
unfolding merge_files resolve_files write_sections
generate_output_file hs is_object =
    let insym_words = count_words (λ h. h.in_count) hs in
    let object_words = count_words (λ h. h.code_count) hs in
    if object_words == 0
    then no_code
    else merge_files 0 hs [] [] >>= λ (table, code).
        resolve_files table 0 hs [] code >>= λ (outs, code').
        linked (write_sections insym_words object_words is_object table outs code')

-- `main` on the files in the order of the command line.
unfoldable pub link : List (List ℕ) → Linked Output
unfolding generate_output_file
link files = elim (read_files files []) [
  | none ↦ undefined
  | some hs ↦ elim (extract_all hs) [
    | none ↦ undefined
    | some (found, hs') ↦ generate_output_file hs' (not found)
  ]
]
