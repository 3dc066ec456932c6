-- ===== src/Linker/Object.antt =====
-- The structs of A2/P1/linkx20.h, and extract_symbols and the loops of main of linkx20.c that read
-- the object files. A file is the list of its words.
use unh_cs.Common.{
  ℕ, ◌+◌, ◌%◌, Bool, true, false, not, ◌||◌, Option, none, some, List, [], ◌∷◌, ltb, ◌==◌,
  if◌then◌else◌,
}
use unh_cs.Common.Word.{sign_bit}
use unh_cs.Common.Bytes.{bytes_of_words, str_eq}

-- sym_t. A name is its bytes before the NUL; the flags are two fields.
pub record Sym : Type 0 where
  pub name : List ℕ
  pub address : ℕ
  pub outsym : Bool
  pub defined : Bool

-- fheader_t: the lengths of the three sections, and the words behind them.
pub record Header : Type 0 where
  pub in_count : ℕ
  pub out_count : ℕ
  pub code_count : ℕ
  pub body : List ℕ
  pub insyms : List Sym
  pub outsyms : List Sym

-- "mainx20"
abbrev pub mainx20 : List ℕ
mainx20 = b'm' ∷ b'a' ∷ b'i' ∷ b'n' ∷ b'x' ∷ b'2' ∷ b'0' ∷ []

-- `strncpy` of the 16 bytes of a name into a cleared buffer: the bytes before a NUL, or all of them.
unfoldable pub copied_name : List ℕ → List ℕ
copied_name [] = []
copied_name (b ∷ bs) = if b == 0 then [] else b ∷ copied_name bs

-- One round: a symbol is put in front of the insymbols or of the outsymbols, and the name of an
-- insymbol is compared with the entry point.
unfoldable pub add_symbol : ℕ → List ℕ → (address : ℕ) → (found : Bool) → Header → Bool × Header
add_symbol i name address found h =
    if ltb i h.in_count
    then (
      found || str_eq name mainx20,
      record h {
        insyms =
            record { name = name; address = address; outsym = false; defined = true } ∷ h.insyms;
      },
    )
    else (
      found,
      record h {
        outsyms =
            record { name = name; address = address; outsym = true; defined = false } ∷ h.outsyms;
      },
    )

-- The loop, at the words from `ptr` on. `none` is a read beyond the file.
unfoldable pub extract_loop :
    (ptr : List ℕ) → (i : ℕ) → (found : Bool) → Header → Option (Bool × Header)
unfolding add_symbol copied_name
extract_loop (a ∷ b ∷ c ∷ d ∷ address ∷ rest) i found h =
    let (found', h') =
      add_symbol i (copied_name (bytes_of_words (a ∷ b ∷ c ∷ d ∷ []))) address found h in
    let later = extract_loop rest (i + 5) found' h' in
    if ltb i (h.in_count + h.out_count) then later else some (found, h)
extract_loop _ i found h = if ltb i (h.in_count + h.out_count) then none else some (found, h)

-- `none` also for a length that is negative as an `int`, and for a section of symbols that does not
-- consist of whole symbols, whose last symbol would run into the next section.
unfoldable pub extract_symbols : Header → Option (Bool × Header)
unfolding extract_loop
extract_symbols h =
    if not (ltb h.in_count sign_bit)
      || not (ltb h.out_count sign_bit)
      || not (h.in_count % 5 == 0)
      || not (h.out_count % 5 == 0)
    then none
    else extract_loop h.body 0 false h

-- The header of a file in memory; `none` if it has not even the three lengths.
unfoldable pub header_of : List ℕ → Option Header
header_of (in_count ∷ out_count ∷ code_count ∷ body) = some (record {
  in_count = in_count;
  out_count = out_count;
  code_count = code_count;
  body = body;
  insyms = [];
  outsyms = [];
})
header_of _ = none

-- The list of headers: each file is put in front.
unfoldable pub read_files : List (List ℕ) → List Header → Option (List Header)
unfolding header_of
read_files [] hs = some hs
read_files (f ∷ fs) hs = elim (header_of f) [ none ↦ none | some h ↦ read_files fs (h ∷ hs) ]

-- The symbols of each file, and whether one of them defines the entry point.
unfoldable pub extract_all : List Header → Option (Bool × List Header)
unfolding extract_symbols
extract_all [] = some (false, [])
extract_all (h ∷ hs) = elim (extract_symbols h) [
  | none ↦ none
  | some (found, h') ↦ elim (extract_all hs) [
    | none ↦ none
    | some (others, hs') ↦ some (found || others, h' ∷ hs')
  ]
]
