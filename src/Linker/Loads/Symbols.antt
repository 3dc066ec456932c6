-- ===== src/Linker/Loads/Symbols.antt =====
-- A section of symbols of A2/P1/linkx20.c as loadExecutableFile of A2/P2/vmx20.c reads it.
use unh_cs.Common.{
  ℕ, zero, suc, ◌+◌, ◌≤◌, ◌≡◌, refl, sym, ap, ◌∙◌, Bool, true, false, some, List, [], ◌∷◌,
  get_elem?, All, Bool-cases, inl, inr, some_inj, none-some, arith,
}
use unh_cs.Common.Bytes.{bytes_of_words, c_string, str_eq}
use unh_cs.Vmx.State.{Vm}
use unh_cs.Vmx.Load.{loaded, mainx20, parse_symbols}
use unh_cs.Linker.Output.{Entry, word_at, entry_words}
use unh_cs.Dsx.Names.{IsName, padded, c_string-padded}

abbrev pub weight : Bool → ℕ
weight false = 0
weight true = 1

-- How many entries are the entry point.
unfoldable pub mains : List Entry → ℕ
mains [] = 0
mains (e ∷ es) = weight (str_eq e.name mainx20) + mains es

abbrev entry_of : Bool → ℕ → ℕ → ℕ
entry_of false address entry_point = entry_point
entry_of true address entry_point = address

-- The machine with one more symbol.
abbrev pushed : Entry → Vm → ℕ → Vm
pushed e vm entry_point = record vm {
  symbols = record { name = e.name; address = e.address } ∷ vm.symbols;
  entry_point = entry_point;
}

-- The machine with the symbols of a table, and the address of the entry point.
pub with_symbols : List Entry → Vm → Vm
with_symbols [] vm = vm
with_symbols (e ∷ es) vm =
    with_symbols es (pushed e vm (entry_of (str_eq e.name mainx20) e.address vm.entry_point))

parse_end : (vm : Vm) → parse_symbols [] true vm ≡ loaded vm
unfolding parse_symbols
parse_end vm = refl

text :
    (name : List ℕ)
    → IsName name
    → c_string
        (bytes_of_words (word_at name 0 ∷ word_at name 4 ∷ word_at name 8 ∷ word_at name 12 ∷ []))
      ≡ some name
unfolding padded
text name ok = c_string-padded name ok

-- One symbol that is not the entry point, and the first that is.
module _ (a b c d address : ℕ) (rest : List ℕ) (vm : Vm) (name : List ℕ)
    (text : c_string (bytes_of_words (a ∷ b ∷ c ∷ d ∷ [])) ≡ some name) where
  parse_other :
      (found : Bool)
      → str_eq name mainx20 ≡ false
      → parse_symbols (a ∷ b ∷ c ∷ d ∷ address ∷ rest) found vm
        ≡ parse_symbols rest found
            (record vm { symbols = record { name = name; address = address } ∷ vm.symbols })
  unfolding parse_symbols
  parse_other found other = rw (text, parse_symbols, other) refl

  parse_main :
      str_eq name mainx20 ≡ true
      → parse_symbols (a ∷ b ∷ c ∷ d ∷ address ∷ rest) false vm
        ≡ parse_symbols rest true (record vm {
          symbols = record { name = name; address = address } ∷ vm.symbols;
          entry_point = address;
        })
  unfolding parse_symbols
  parse_main main = rw (text, parse_symbols, main) refl

skip :
    (e : Entry) (es : List Entry) (found : Bool) (vm : Vm)
    → IsName e.name
    → str_eq e.name mainx20 ≡ false
    → parse_symbols (entry_words es) found (pushed e vm vm.entry_point)
      ≡ loaded (with_symbols es (pushed e vm vm.entry_point))
    → parse_symbols (entry_words (e ∷ es)) found vm ≡ loaded (with_symbols (e ∷ es) vm)
unfolding entry_words with_symbols
skip e es found vm ok other later =
    parse_other (word_at e.name 0) (word_at e.name 4) (word_at e.name 8) (word_at e.name 12)
      e.address (entry_words es) vm e.name (text e.name ok) found other
    ∙ later
    ∙ ap (λ k. loaded (with_symbols es (pushed e vm (entry_of k e.address vm.entry_point))))
        (sym other)

-- A section of symbols with the entry point in it, once or before, is read as it is meant.
pub parse_symbols-entry_words :
    (es : List Entry) (main_found : Bool) (vm : Vm)
    → All (λ (e : Entry). IsName e.name) es
    → weight main_found + mains es ≡ 1
    → parse_symbols (entry_words es) main_found vm ≡ loaded (with_symbols es vm)
unfolding entry_words with_symbols mains
parse_symbols-entry_words [] true vm ok one = parse_end vm
parse_symbols-entry_words [] false vm ok one = absurd (omega (arith, one))
parse_symbols-entry_words (e ∷ es) true vm ok one = elim (Bool-cases (str_eq e.name mainx20)) [
  | inr other ↦ skip e es true vm ok.0 other (
      parse_symbols-entry_words es true (pushed e vm vm.entry_point) ok.1
        (omega (arith, one, ap weight other)))
  | inl main ↦ absurd (omega (arith, one, ap weight main))
]
parse_symbols-entry_words (e ∷ es) false vm ok one = elim (Bool-cases (str_eq e.name mainx20)) [
  | inr other ↦ skip e es false vm ok.0 other (
      parse_symbols-entry_words es false (pushed e vm vm.entry_point) ok.1
        (omega (arith, one, ap weight other)))
  | inl main ↦
      parse_main (word_at e.name 0) (word_at e.name 4) (word_at e.name 8) (word_at e.name 12)
        e.address (entry_words es) vm e.name (text e.name ok.0) main
      ∙ parse_symbols-entry_words es true (pushed e vm e.address) ok.1
          (omega (arith, one, ap weight main))
      ∙ ap (λ k. loaded (with_symbols es (pushed e vm (entry_of k e.address vm.entry_point))))
          (sym main)
]

pub with_symbols-memory :
    (es : List Entry) (vm : Vm) (i : ℕ) → (with_symbols es vm).memory i ≡ vm.memory i
unfolding with_symbols
with_symbols-memory [] vm i = refl
with_symbols-memory (e ∷ es) vm i = with_symbols-memory es _ i

pub with_symbols-prog_end :
    (es : List Entry) (vm : Vm) → (with_symbols es vm).prog_end ≡ vm.prog_end
unfolding with_symbols
with_symbols-prog_end [] vm = refl
with_symbols-prog_end (e ∷ es) vm = with_symbols-prog_end es _

without_main :
    (es : List Entry) (vm : Vm) → mains es ≡ 0 → (with_symbols es vm).entry_point ≡ vm.entry_point
unfolding with_symbols mains
without_main [] vm n = refl
without_main (e ∷ es) vm n = elim (Bool-cases (str_eq e.name mainx20)) [
  | inl main ↦ absurd (omega (arith, n, ap weight main))
  | inr other ↦
      without_main es _ (omega (arith, n, ap weight other))
      ∙ ap (λ k. entry_of k e.address vm.entry_point) other
]

pub mains_lower :
    (es : List Entry) (k : ℕ) (e : Entry)
    → get_elem? es k ≡ some e
    → str_eq e.name mainx20 ≡ true
    → 1 ≤ mains es
unfolding mains
mains_lower [] k e at main = absurd (none-some at)
mains_lower (x ∷ es) zero e at main =
    omega (arith, ap weight (ap (λ (y : Entry). str_eq y.name mainx20) (some_inj at) ∙ main))
mains_lower (x ∷ es) (suc k) e at main = omega (arith, mains_lower es k e at main)

pub with_symbols-entry_point :
    (es : List Entry) (vm : Vm) (k : ℕ) (e : Entry)
    → mains es ≡ 1
    → get_elem? es k ≡ some e
    → str_eq e.name mainx20 ≡ true
    → (with_symbols es vm).entry_point ≡ e.address
unfolding with_symbols mains
with_symbols-entry_point [] vm k e one at main = absurd (none-some at)
with_symbols-entry_point (x ∷ es) vm zero e one at main =
    let same : x ≡ e = some_inj at in
    let is_main : str_eq x.name mainx20 ≡ true =
      ap (λ (y : Entry). str_eq y.name mainx20) same ∙ main in
    without_main es _ (omega (arith, one, ap weight is_main))
    ∙ ap (λ k. entry_of k x.address vm.entry_point) is_main
    ∙ ap (λ (y : Entry). y.address) same
with_symbols-entry_point (x ∷ es) vm (suc k) e one at main =
    elim (Bool-cases (str_eq x.name mainx20)) [
      | inr other ↦ with_symbols-entry_point es _ k e (omega (arith, one, ap weight other)) at main
      | inl first ↦ absurd (omega (arith, one, ap weight first, mains_lower es k e at main))
    ]
