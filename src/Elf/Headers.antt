-- ===== src/Elf/Headers.antt =====
-- The section headers that A1/P1/binary_info.c lists and looks for.
use unh_cs.Common.{
  ℕ, zero, suc, ◌+◌, ◌*◌, ◌<◌, ◌≡◌, ◌≢◌, refl, sym, ap, ◌∙◌, false, Option, none, some, List, [],
  ◌∷◌, length, get_elem?, ◌==◌, Bool-cases, some_inj, none-some, ==_iff, eq_test, true-false, arith,
  inl, inr,
}
use mathlib.Core.Path.{subst}
use unh_cs.Elf.File.{Class, elf32, shdr, field, text_at}
use unh_cs.Elf.Dump.{
  Report, printed, exits, cut_header, undefined, ◌>>=◌, reading, SectionRow, section_row, header_at,
  section_rows,
}
use unh_cs.Elf.Symbols.{find_header}

-- A step before a result has a result.
pub bind-printed :
    {A B : Type 0} (r : Report A) (k : A → Report B) {b : B}
    → (r >>= k) ≡ printed b
    → (a : A) × (r ≡ printed a) × (k a ≡ printed b)
bind-printed (printed a) k e = (a, refl, e)
bind-printed (exits n) k e = cc
bind-printed (cut_header x c d) k e = cc
bind-printed undefined k e = cc

pub printed_inj : {A : Type 0} {a b : A} → printed a ≡ printed b → a ≡ b
printed_inj e = cc

-- Line number `k` is the line of the header number `i + k`, where the loop looks for it.
abbrev pub LineOf :
    (class : Class) (fbuf : List ℕ) (names e_shoff e_shentsize i : ℕ) (row : SectionRow) → Type 0
LineOf class fbuf names off ent i row =
    section_row class fbuf names (header_at class off ent i) i ≡ printed row

abbrev AreLines : (n : ℕ) (line : ℕ → SectionRow → Type 0) (i : ℕ) → List SectionRow → Type 0
AreLines n line i rows =
    (length rows ≡ n)
    × ((k : ℕ) (row : SectionRow) → get_elem? rows k ≡ some row → line (i + k) row)

nil-AreLines : (line : ℕ → SectionRow → Type 0) (i : ℕ) → AreLines 0 line i []
nil-AreLines line i = (refl, λ k row at. absurd (none-some at))

cons-AreLines :
    (n : ℕ) (line : ℕ → SectionRow → Type 0) (i : ℕ) (row : SectionRow) (rows : List SectionRow)
    → line i row
    → AreLines n line (i + 1) rows
    → AreLines (suc n) line i (row ∷ rows)
cons-AreLines n line i row rows first (long, each) = (ap suc long, found)
  where
    found : (k : ℕ) (r : SectionRow) → get_elem? (row ∷ rows) k ≡ some r → line (i + k) r
    found zero r at = subst (λ k. line k r) (omega arith) (subst (line i) (some_inj at) first)
    found (suc k) r at = subst (λ j. line j r) (omega arith) (each k r at)

-- A listing from the header number `i` on has `n` lines, each of the header of its number, at the
-- place where the loop of the class looks for it.
pub section_rows-LineOf :
    (n : ℕ) (class : Class) (fbuf : List ℕ) (names e_shoff e_shentsize i : ℕ)
    {rows : List SectionRow}
    → section_rows n class fbuf names e_shoff e_shentsize i ≡ printed rows
    → (length rows ≡ n)
      × ((k : ℕ) (row : SectionRow)
          → get_elem? rows k ≡ some row
          → LineOf class fbuf names e_shoff e_shentsize (i + k) row)
unfolding section_rows
section_rows-LineOf zero class fbuf names off ent i e =
    subst (AreLines 0 (LineOf class fbuf names off ent) i) (printed_inj e)
      (nil-AreLines (LineOf class fbuf names off ent) i)
section_rows-LineOf (suc n) class fbuf names off ent i e =
    let (row, first, e') =
      bind-printed (section_row class fbuf names (header_at class off ent i) i) _ e in
    let (rest, later, e'') = bind-printed (section_rows n class fbuf names off ent (i + 1)) _ e' in
    subst (AreLines (suc n) (LineOf class fbuf names off ent) i) (printed_inj e'') (
      cons-AreLines n (LineOf class fbuf names off ent) i row rest first
        (section_rows-LineOf n class fbuf names off ent (i + 1) later))

step-after :
    {A B C : Type 0} (m : Report A) (k : A → Report B) {l : A → Report C} (f : B → Report C)
    → ((a : A) → (k a >>= f) ≡ l a)
    → ((m >>= k) >>= f) ≡ (m >>= l)
step-after (printed a) k f h = h a
step-after (exits n) k f h = refl
step-after (cut_header x c d) k f h = refl
step-after undefined k f h = refl

-- The line of a header with another number.
abbrev renumber : (j : ℕ) → SectionRow → Report SectionRow
renumber j r = printed (record r { index = j })

section_row-renumber :
    (class : Class) (fbuf : List ℕ) (names at i j : ℕ)
    → (section_row class fbuf names at i >>= renumber j) ≡ section_row class fbuf names at j
unfolding section_row
section_row-renumber class fbuf names at i j =
    let s = shdr class in
    step-after (reading (field fbuf at s.sh_name)) _ (renumber j) (λ sh_name.
      step-after (reading (field fbuf at s.sh_type)) _ (renumber j) (λ sh_type.
        step-after (reading (field fbuf at s.sh_addr)) _ (renumber j) (λ sh_addr.
          step-after (reading (field fbuf at s.sh_offset)) _ (renumber j) (λ sh_offset.
            step-after (reading (field fbuf at s.sh_size)) _ (renumber j) (λ sh_size.
              step-after (reading (text_at fbuf (names + sh_name))) _ (renumber j)
                (λ name. refl))))))

-- Every line for a 32-bit file is that of its first section header, but for the number.
pub section_rows-repeat :
    (n : ℕ) (fbuf : List ℕ) (names e_shoff e_shentsize k : ℕ) {rows : List SectionRow}
    {first row : SectionRow}
    → section_rows n elf32 fbuf names e_shoff e_shentsize 0 ≡ printed rows
    → get_elem? rows 0 ≡ some first
    → get_elem? rows k ≡ some row
    → row ≡ record first { index = k }
unfolding header_at
section_rows-repeat n fbuf names off ent k {rows} {first} {row} e at0 at =
    let (_, each) = section_rows-LineOf n elf32 fbuf names off ent 0 e in
    let as_first : (section_row elf32 fbuf names off (0 + 0) >>= renumber (0 + k))
        ≡ printed (record first { index = 0 + k }) =
      ap (λ (r : Report SectionRow). r >>= renumber (0 + k)) (each 0 first at0) in
    printed_inj (
      sym (each k row at)
      ∙ sym (section_row-renumber elf32 fbuf names off (0 + 0) (0 + k))
      ∙ as_first)
    ∙ ap (λ i. record first { index = i }) (omega arith)

-- The section headers before the number `k` have other types.
abbrev pub NoneBefore : Class → (fbuf : List ℕ) → (type at k : ℕ) → Type 0
NoneBefore class fbuf type at k =
    (j t : ℕ)
    → j < k
    → field fbuf (at + (shdr class).bytes * j) (shdr class).sh_type ≡ some t
    → t ≢ type

NoneBefore-suc :
    (class : Class) (fbuf : List ℕ) (type at k t : ℕ)
    → field fbuf at (shdr class).sh_type ≡ some t
    → (t == type) ≡ false
    → NoneBefore class fbuf type (at + (shdr class).bytes) k
    → NoneBefore class fbuf type at (suc k)
NoneBefore-suc class fbuf type at k t here other later zero u lt e same =
    let stays : at + (shdr class).bytes * 0 ≡ at = omega arith in
    let equal : u ≡ t =
      some_inj (sym e ∙ ap (λ a. field fbuf a (shdr class).sh_type) stays ∙ here) in
    true-false (sym (eq_test t type (sym equal ∙ same)) ∙ other)
NoneBefore-suc class fbuf type at k t here other later (suc j) u lt e same =
    let moved : at + (shdr class).bytes + (shdr class).bytes * j ≡ at + (shdr class).bytes * suc j =
      omega arith in
    later j u (omega (arith, lt)) (ap (λ a. field fbuf a (shdr class).sh_type) moved ∙ e) same

-- What the search for a type finds among `n` section headers, one behind the other: the first with
-- the type, or nothing if none has it.
abbrev pub IsFirst : (n : ℕ) → Class → (fbuf : List ℕ) → (type at : ℕ) → Option ℕ → Type 0
IsFirst n class fbuf type at none = NoneBefore class fbuf type at n
IsFirst n class fbuf type at (some a) =
    (k : ℕ) × (k < n)
    × (a ≡ at + (shdr class).bytes * k)
    × (field fbuf a (shdr class).sh_type ≡ some type)
    × NoneBefore class fbuf type at k

IsFirst-suc :
    (n : ℕ) (class : Class) (fbuf : List ℕ) (type at t : ℕ) (found : Option ℕ)
    → field fbuf at (shdr class).sh_type ≡ some t
    → (t == type) ≡ false
    → IsFirst n class fbuf type (at + (shdr class).bytes) found
    → IsFirst (suc n) class fbuf type at found
IsFirst-suc n class fbuf type at t none here other h =
    NoneBefore-suc class fbuf type at n t here other h
IsFirst-suc n class fbuf type at t (some a) here other (k, lt, place, has, before) = (
  suc k,
  omega (arith, lt),
  place ∙ omega arith,
  has,
  NoneBefore-suc class fbuf type at k t here other before,
)

pub reading-some : {A : Type 0} (o : Option A) {a : A} → reading o ≡ printed a → o ≡ some a
reading-some none e = cc
reading-some (some b) e = ap some (printed_inj e)

-- A search for a section header that ends inside the file finds the first header with the type, or
-- nothing if none has it.
pub find_header-IsFirst :
    (n : ℕ) (class : Class) (fbuf : List ℕ) (type at : ℕ) {found : Option ℕ}
    → find_header n class fbuf type at ≡ printed found
    → IsFirst n class fbuf type at found
unfolding find_header
find_header-IsFirst zero class fbuf type at e =
    subst (IsFirst 0 class fbuf type at) (printed_inj e) (λ j t lt. absurd (omega (arith, lt)))
find_header-IsFirst (suc n) class fbuf type at {found} e =
    let (t, read, e') = bind-printed (reading (field fbuf at (shdr class).sh_type)) _ e in
    let here = reading-some (field fbuf at (shdr class).sh_type) read in
    elim (Bool-cases (t == type)) [
      | inl hit ↦ subst (IsFirst (suc n) class fbuf type at) (printed_inj (rw hit at e')) (
        0,
        omega arith,
        omega arith,
        here ∙ ap some ((==_iff t type).0 hit),
        λ j u lt. absurd (omega (arith, lt)),
      )
      | inr other ↦
          IsFirst-suc n class fbuf type at t found here other
            (find_header-IsFirst n class fbuf type (at + (shdr class).bytes) (rw other at e'))
    ]
