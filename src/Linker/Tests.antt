-- ===== src/Linker/Tests.antt =====
-- Links of small object files, and the theorems on A2/P1/linkx20.c at concrete inputs.
use unh_cs.Common.{
  ℕ, ◌%◌, ◌≡◌, refl, true, false, some, List, [], ◌∷◌, set, get_elem?, All, arith, ◌≢◌, ◌<◌,
}
use unh_cs.Common.Word.{add32, sub32}
use unh_cs.Common.Bytes.{bytes_of_words, word_of_bytes, str_eq}
use unh_cs.Vmx.Decode.{addr20}
use unh_cs.Linker.Object.{read_files, extract_all, Header, mainx20}
use unh_cs.Linker.Output.{
  Entry, Linked, linked, no_code, duplicate, undefined, Output, has_name, merge_files, is_addr20,
  resolve, generate_output_file, link,
}
use unh_cs.Vmx.State.{Vm}
use unh_cs.Vmx.Load.{load_executable_file, loaded, seek}
use unh_cs.Linker.Loads.{IsLoaded}
use unh_cs.Linker.Loads.Table.{symbol_table}
use unh_cs.Linker.Whole.{generate_output_file-IsLoaded}
use unh_cs.Dsx.Names.{IsName}
use unh_cs.Linker.Outcome.{OnLinked}
use unh_cs.Linker.Distinct.{Distinct, merge_files-Distinct}
use unh_cs.Linker.Resolve.{find_entry, resolve-addr20}

-- "mainx20" at 0, which calls "f" at word 0; and "f" at word 0 of the second file.
abbrev main_file : List ℕ
main_file = 5 ∷ 5 ∷ 2 ∷ 0x6e69616d ∷ 0x303278 ∷ 0 ∷ 0 ∷ 0 ∷ 0x66 ∷ 0 ∷ 0 ∷ 0 ∷ 0 ∷ 0x0f ∷ 0 ∷ []

abbrev f_file : List ℕ
f_file = 5 ∷ 0 ∷ 1 ∷ 0x66 ∷ 0 ∷ 0 ∷ 0 ∷ 0 ∷ 0x10 ∷ []

abbrev code_at_end : Linked Output → List ℕ
code_at_end l = elim l [
  | linked out ↦ out.words
  | no_code ↦ []
  | duplicate name ↦ name
  | undefined ↦ []
]

-- The second file comes first in the output, and its code at 0.
link_files :
    code_at_end (link (main_file ∷ f_file ∷ []))
    ≡ 10 ∷ 0 ∷ 3 ∷ 0x66 ∷ 0 ∷ 0 ∷ 0 ∷ 0 ∷ 0x6e69616d ∷ 0x303278 ∷ 0 ∷ 0 ∷ 1 ∷ 0x10 ∷ 0xffffe00f ∷ 0
      ∷ []
unfolding link read_files extract_all has_name str_eq bytes_of_words word_of_bytes sub32
link_files = refl

abbrev f_name : List ℕ
f_name = 0x66 ∷ []

abbrev table : List Entry
table = record { name = f_name; address = 0 } ∷ record { name = mainx20; address = 1 } ∷ []

table-Distinct : Distinct table
unfolding has_name str_eq
table-Distinct = (refl, (refl, tt))

abbrev g_header : Header
g_header = record {
  in_count = 5;
  out_count = 0;
  code_count = 1;
  body = 0x67 ∷ 0 ∷ 0 ∷ 0 ∷ 0 ∷ 0x10 ∷ [];
  insyms = record { name = 0x67 ∷ []; address = 0; outsym = false; defined = true } ∷ [];
  outsyms = [];
}

merge_files-Distinct_example :
    OnLinked
      (λ (table', code'). Distinct table')
      (merge_files 3 (g_header ∷ []) table (1 ∷ 2 ∷ 3 ∷ []))
merge_files-Distinct_example =
    merge_files-Distinct 3 (g_header ∷ []) table (1 ∷ 2 ∷ 3 ∷ []) table-Distinct

resolve-addr20_example :
    (w : ℕ) × (resolve table f_name 1 false (0x10 ∷ 0x0f ∷ 0 ∷ [])
      ≡ linked (true, set (0x10 ∷ 0x0f ∷ 0 ∷ []) 1 w))
    × (get_elem? (set (0x10 ∷ 0x0f ∷ 0 ∷ []) 1 w) 1 ≡ some w)
    × (w % 256 ≡ 0x0f % 256)
    × (add32 (add32 1 1) (addr20 w) ≡ 0)
unfolding find_entry str_eq is_addr20
resolve-addr20_example =
    resolve-addr20 table f_name 0 1 0x0f false (0x10 ∷ 0x0f ∷ 0 ∷ []) table-Distinct refl refl refl
      (omega arith) (omega arith)

abbrev blank_machine : Vm
blank_machine = record {
  symbols = [];
  num_processors = 1;
  prog_end = 0;
  entry_point = 0;
  memory = λ i. 0;
}

letters : (bs : List ℕ) → All (λ b. (0 < b) × (b < 256)) bs → All (λ b. (b ≢ 0) × (b < 256)) bs
letters [] h = tt
letters (b ∷ bs) h = (((λ e. omega (arith, h.0.0, e)), h.0.1), letters bs h.1)

mainx20-IsName : IsName mainx20
mainx20-IsName = (
  omega arith,
  letters mainx20 (
    (omega arith, omega arith),
    (
      (omega arith, omega arith),
      (
        (omega arith, omega arith),
        (
          (omega arith, omega arith),
          (
            (omega arith, omega arith),
            ((omega arith, omega arith), ((omega arith, omega arith), tt)),
          ),
        ),
      ),
    ),
  ),
)

table-HasNames : All (λ (e : Entry). IsName e.name) table
table-HasNames =
    ((omega arith, letters f_name ((omega arith, omega arith), tt)), (mainx20-IsName, tt))

-- The headers of the two files, with their symbols.
abbrev headers : List Header
headers =
    record {
      in_count = 5;
      out_count = 0;
      code_count = 1;
      body = 0x66 ∷ 0 ∷ 0 ∷ 0 ∷ 0 ∷ 0x10 ∷ [];
      insyms = record { name = f_name; address = 0; outsym = false; defined = true } ∷ [];
      outsyms = [];
    }
    ∷ record {
      in_count = 5;
      out_count = 5;
      code_count = 2;
      body = 0x6e69616d ∷ 0x303278 ∷ 0 ∷ 0 ∷ 0 ∷ 0x66 ∷ 0 ∷ 0 ∷ 0 ∷ 0 ∷ 0x0f ∷ 0 ∷ [];
      insyms = record { name = mainx20; address = 0; outsym = false; defined = true } ∷ [];
      outsyms = record { name = f_name; address = 0; outsym = true; defined = false } ∷ [];
    }
    ∷ []

abbrev linked_headers : Output
linked_headers = record {
  words =
      10 ∷ 0 ∷ 3 ∷ 0x66 ∷ 0 ∷ 0 ∷ 0 ∷ 0 ∷ 0x6e69616d ∷ 0x303278 ∷ 0 ∷ 0 ∷ 1 ∷ 0x10 ∷ 0xffffe00f ∷ 0
      ∷ [];
  is_object = false;
  bytes_written = 64;
}

headers-linked : generate_output_file headers false ≡ linked linked_headers
unfolding generate_output_file has_name str_eq word_of_bytes sub32
headers-linked = refl

generate_output_file-IsLoaded_example :
    (vm' : Vm) × (load_executable_file (some linked_headers.words) blank_machine ≡ loaded vm')
    × IsLoaded (0x10 ∷ 0xffffe00f ∷ 0 ∷ []) 1 vm'
unfolding str_eq seek symbol_table
generate_output_file-IsLoaded_example =
    generate_output_file-IsLoaded headers blank_machine 1 (record { name = mainx20; address = 1 })
      linked_headers (refl, (refl, tt)) table-HasNames refl refl (omega arith) (omega arith)
      headers-linked refl
