-- ===== src/Dsx/Same.antt =====
-- A1/P2/dsx20_linear.c against A1/P2/dsx20.c without -r.
use unh_cs.Common.{
  ℕ, zero, suc, ◌+◌, ◌*◌, ◌/◌, ◌%◌, ◌^◌, ◌<◌, ◌≡◌, ◌≢◌, refl, sym, ap, ◌∙◌, Bool, true, false,
  Option, none, some, List, [], ◌∷◌, get_elem?, ◌==◌, ==_iff, eq_test, ne_test, Bool-cases, arith,
  ◌⊎◌, inl, inr, not, ◌&&◌, ◌||◌, true-false, false-true,
}
use unh_cs.Vmx.Load.{seek}
use unh_cs.Vmx.Decode.{
  Format, f_op, f_addr, f_reg, f_regconst, f_regaddr, f_regreg, f_regoff, f_regregaddr, f_invalid,
}
use unh_cs.Common.Fallible.{◌>>=◌, bind_ext, switch}
use unh_cs.Dsx.Follow.{and_true}
use unh_cs.Dsx.Tables.{
  op_name, op_format, op_name_linear, op_format_linear, format_cases, ins_nop, ins_ldimm,
}
use unh_cs.Dsx.Parse.{extend_bit20}
use unh_cs.Dsx.Object.{ObjectSymbol, read_file, read_insymbols, read_outsymbols, print_symbols}
use unh_cs.Dsx.Print.{Row, print_operands, print_word, print_rows, print_code}
use unh_cs.Dsx.Linear.{read_operands, read_word, read_rows, read_code, list_linear, main_linear}
use unh_cs.Dsx.Listing.{
  Listing, Outcome, usage, failed, undefined, listed, rounds, marks_of, list_code, list_object, run,
  main,
}

-- The words that both print alike: all but NOP, and a ldimm of a negative constant.
abbrev pub IsAlike : ℕ → Type 0
IsAlike w = (w % 256 ≢ ins_nop) × (w % 256 ≡ ins_ldimm → w < 2 ^ 31)

op_name_linear-op_name : (b : ℕ) → b ≢ ins_nop → op_name_linear b ≡ op_name b
unfolding op_name op_name_linear
op_name_linear-op_name b h = rw (ne_test b ins_nop h) refl

op_format_linear-op_format : (b : ℕ) → b ≢ ins_nop → op_format_linear b ≡ op_format b
unfolding op_format op_format_linear
op_format_linear-op_format b h = rw (ne_test b ins_nop h) refl

other_case : (k b c : ℕ) (p : Bool) → b ≢ k → (b == c) ≡ true → (c == k || not p) ≡ true → p ≡ false
other_case k b c p other hit here = ground arith

small_const : (w : ℕ) → w < 2 ^ 31 → extend_bit20 (w / 2 ^ 12 % 2 ^ 20) ≡ w / 2 ^ 12 % 2 ^ 20
unfolding extend_bit20
small_const w lt = ground arith

is_const : Format → Bool
is_const f_regconst = true
is_const _ = false

-- Whether only the case k has the property.
abbrev only_case : {A : Type 0} → ℕ → (A → Bool) → List (ℕ × A) → Bool
only_case k f [] = true
only_case k f ((c, a) ∷ cs) = (c == k || not (f a)) && only_case k f cs

switch-only_case :
    {A : Type 0} (k b : ℕ) (f : A → Bool) (cs : List (ℕ × A)) (d : A)
    → b ≢ k
    → f d ≡ false
    → only_case k f cs ≡ true
    → f (switch b cs d) ≡ false
switch-only_case k b f [] d other e all = e
switch-only_case k b f ((c, a) ∷ cs) d other e all =
    let (here, later) = and_true _ _ all in
    elim (Bool-cases (b == c)) [
      | inl hit ↦ rw hit (other_case k b c (f a) other hit here)
      | inr miss ↦ rw miss (switch-only_case k b f cs d other e later)
    ]

const-ins_ldimm : (b : ℕ) → b ≢ ins_ldimm → is_const (op_format b) ≡ false
unfolding op_format is_const
const-ins_ldimm b other =
    switch-only_case ins_ldimm b is_const format_cases f_invalid other refl refl

-- Behind the name.
read_operands-print_operands :
    (f : Format) (outs : List ObjectSymbol) (pc w : ℕ)
    → is_const f ≡ false ⊎ (w < 2 ^ 31)
    → read_operands f outs pc w ≡ print_operands f outs pc w
unfolding read_operands print_operands is_const
read_operands-print_operands f_op outs pc w h = refl
read_operands-print_operands f_addr outs pc w h = refl
read_operands-print_operands f_reg outs pc w h = refl
read_operands-print_operands f_regconst outs pc w (inl e) = absurd (true-false e)
read_operands-print_operands f_regconst outs pc w (inr lt) = rw (small_const w lt) refl
read_operands-print_operands f_regaddr outs pc w h = refl
read_operands-print_operands f_regreg outs pc w h = refl
read_operands-print_operands f_regoff outs pc w h = refl
read_operands-print_operands f_regregaddr outs pc w h = refl
read_operands-print_operands f_invalid outs pc w h = refl

const_or_small : (w : ℕ) → IsAlike w → (is_const (op_format (w % 256)) ≡ false) ⊎ (w < 2 ^ 31)
const_or_small w (_, small) = elim (Bool-cases (w % 256 == ins_ldimm)) [
  | inl here ↦ inr (small ((==_iff (w % 256) ins_ldimm).0 here))
  | inr other ↦ inl (const-ins_ldimm (w % 256) (λ e. false-true (sym other ∙ eq_test _ _ e)))
]

-- One line.
read_word-print_word :
    (outs : List ObjectSymbol) (pc w : ℕ)
    → IsAlike w
    → read_word outs pc w ≡ print_word false outs pc w
unfolding read_word print_word
read_word-print_word outs pc w alike =
    rw
      (
        op_name_linear-op_name (w % 256) alike.0,
        op_format_linear-op_format (w % 256) alike.0,
        read_operands-print_operands (op_format (w % 256)) outs pc w (const_or_small w alike),
      )
      refl

abbrev cons_row : Row → Option (List Row) → Option (List Row)
cons_row r none = none
cons_row r (some rows) = some (r ∷ rows)

read_rows-print_rows :
    (n pc : ℕ) (ptr : List ℕ) (outs : List ObjectSymbol)
    → ((i w : ℕ) → get_elem? ptr i ≡ some w → IsAlike w)
    → read_rows n pc ptr outs ≡ print_rows n pc ptr outs none
unfolding read_rows print_rows
read_rows-print_rows zero pc ptr outs alike = refl
read_rows-print_rows (suc n) pc [] outs alike = refl
read_rows-print_rows (suc n) pc (w ∷ ptr) outs alike =
    ap (λ (r : Row). cons_row r (read_rows n (pc + 1) ptr outs))
      (read_word-print_word outs pc w (alike 0 w refl))
    ∙ ap (cons_row (print_word false outs pc w))
        (read_rows-print_rows n (pc + 1) ptr outs (λ i. alike (suc i)))

-- Where the object code stands in a file.
unfoldable pub object_code : List ℕ → List ℕ
object_code (insyms ∷ outsyms ∷ rest) =
    seek (3 + insyms / 5 * 5 + outsyms / 5 * 5) (insyms ∷ outsyms ∷ rest)
object_code _ = []

list_linear-list_object :
    (fbuf : List ℕ)
    → ((i w : ℕ) → get_elem? (object_code fbuf) i ≡ some w → IsAlike w)
    → list_linear fbuf ≡ list_object false fbuf
unfolding list_linear list_object list_code marks_of read_code print_code object_code
list_linear-list_object [] alike = refl
list_linear-list_object (a ∷ []) alike = refl
list_linear-list_object (a ∷ b ∷ []) alike = refl
list_linear-list_object (a ∷ b ∷ c ∷ rest) alike =
    let fbuf = a ∷ b ∷ c ∷ rest in
    bind_ext (read_insymbols fbuf (a / 5)) (λ ins.
      bind_ext (read_outsymbols fbuf (3 + a / 5 * 5) (b / 5)) (λ outs.
        bind_ext (print_symbols ins) (λ in_lines. bind_ext (print_symbols outs) (λ out_lines.
          ap
            (λ (o : Option (List Row)). o >>= λ rows.
              some
                (record { insymbols = in_lines; outsymbols = out_lines; obj_len = c; rows = rows }))
            (read_rows-print_rows (rounds c) 0 (seek (3 + a / 5 * 5 + b / 5 * 5) (a ∷ b ∷ c ∷ rest))
              outs alike)))))

-- The first line that dsx20_linear.c prints, put in front of what is listed.
abbrev pub headed : List ℕ → Outcome → Outcome
headed filename usage = usage
headed filename failed = failed
headed filename undefined = undefined
headed filename (listed heading l) = listed (some filename) l

abbrev outcome_of : Option Listing → Outcome
outcome_of none = undefined
outcome_of (some l) = listed none l

headed-outcome_of :
    (filename : List ℕ) (o : Option Listing)
    → headed filename (outcome_of o)
      ≡ (elim o [ none ↦ undefined | some l ↦ listed (some filename) l ])
headed-outcome_of filename none = refl
headed-outcome_of filename (some l) = refl

-- When every word of the object code is printed alike, dsx20_linear.c prints what dsx20.c prints, behind
-- a first line with the name of the file.
pub main_linear-main :
    (fopen : List ℕ → Option (List ℕ)) (filename fbuf : List ℕ)
    → read_file fopen filename ≡ some fbuf
    → ((i w : ℕ) → get_elem? (object_code fbuf) i ≡ some w → IsAlike w)
    → main_linear fopen (filename ∷ []) ≡ headed filename (main fopen (filename ∷ []))
unfolding main_linear main run
main_linear-main fopen filename fbuf e alike =
    rw (e, main_linear, main, run, list_linear-list_object fbuf alike)
      (sym (headed-outcome_of filename (list_object false fbuf)))
