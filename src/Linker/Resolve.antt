-- ===== src/Linker/Resolve.antt =====
-- The resolution of an outsymbol in generate_output_file of A2/P1/linkx20.c.
use unh_cs.Common.{
  ℕ, zero, suc, ◌+◌, ◌%◌, ◌^◌, ◌<◌, ◌≡◌, refl, sym, ap, ◌∙◌, inl, inr, Bool, true, false, Option,
  none, some, List, [], ◌∷◌, set, get_elem?, length, get_elem?-set_self, Bool-cases, if◌then◌else◌,
  arith,
}
use mathlib.Core.Path.{subst}
use unh_cs.Common.Word.{add32, sub32}
use unh_cs.Common.Bytes.{str_eq, eq_of_str_eq}
use unh_cs.Vmx.Decode.{addr20}
use unh_cs.Linker.Output.{
  Entry, Linked, linked, no_code, duplicate, undefined, ◌>>=◌, has_name, is_addr20, rewrite_instr,
  patch, resolve,
}
use unh_cs.Linker.Patch.{addr20-rewrite_instr}
use unh_cs.Linker.Distinct.{Distinct, or-left, or-right}

-- The address of the first entry with a name.
unfoldable pub find_entry : List ℕ → List Entry → Option ℕ
find_entry name [] = none
find_entry name (e ∷ es) = if str_eq name e.name then some e.address else find_entry name es

resolve-missing :
    (table : List Entry) (name : List ℕ) (pc : ℕ) (defined : Bool) (code : List ℕ)
    → has_name name table ≡ false
    → resolve table name pc defined code ≡ linked (defined, code)
unfolding resolve has_name
resolve-missing [] name pc defined code h = refl
resolve-missing (e ∷ es) name pc defined code h =
    rw (or-left (str_eq name e.name) (has_name name es) h)
      (resolve-missing es name pc defined code (or-right (str_eq name e.name) (has_name name es) h))

-- What the search of the whole table makes of one match.
abbrev pub resolved_to : Option ℕ → (pc : ℕ) → Bool → List ℕ → Linked (Bool × List ℕ)
resolved_to none pc defined code = linked (defined, code)
resolved_to (some address) pc defined code = patch address pc code >>= λ code'. linked (true, code')

bind-cong :
    {A B : Type 0} (l : Linked A) (f g : A → Linked B)
    → ((a : A) → f a ≡ g a)
    → (l >>= f) ≡ (l >>= g)
bind-cong (linked a) f g h = h a
bind-cong no_code f g h = refl
bind-cong (duplicate name) f g h = refl
bind-cong undefined f g h = refl

-- In a table without a name twice the search, which goes on after a match, patches the instruction
-- once and with the first definition, or leaves code and symbol alone if there is none.
pub resolve-find_entry :
    (table : List Entry) (name : List ℕ) (pc : ℕ) (defined : Bool) (code : List ℕ)
    → Distinct table
    → resolve table name pc defined code ≡ resolved_to (find_entry name table) pc defined code
unfolding resolve find_entry
resolve-find_entry [] name pc defined code d = refl
resolve-find_entry (e ∷ es) name pc defined code d = elim (Bool-cases (str_eq name e.name)) [
  | inl match ↦
      let new : has_name name es ≡ false =
        subst (λ n. has_name n es ≡ false) (sym (eq_of_str_eq name e.name match)) d.0 in
      rw match
        (bind-cong (patch e.address pc code) _ _ λ code'. resolve-missing es name pc true code' new)
  | inr other ↦ rw other (resolve-find_entry es name pc defined code d.1)
]

patch-there :
    (definition pc instr : ℕ) (code : List ℕ)
    → get_elem? code pc ≡ some instr
    → patch definition pc code
      ≡ linked (set code pc (rewrite_instr (sub32 definition (pc + 1)) instr))
unfolding patch
patch-there definition pc instr code e = rw (e, patch) refl

below-length : (code : List ℕ) (pc : ℕ) {w : ℕ} → get_elem? code pc ≡ some w → pc < length code
below-length [] pc e = cc
below-length (x ∷ code) zero e = omega arith
below-length (x ∷ code) (suc pc) e = omega (arith, below-length code pc e)

-- An outsymbol with a definition in a table without a name twice, at an instruction with a 20-bit
-- displacement, with both addresses below 2 ^ 19: the symbol is then defined, and the instruction is
-- replaced by one with the same opcode at which the simulator reads the address of the definition.
pub resolve-addr20 :
    (table : List Entry) (name : List ℕ) (definition pc instr : ℕ) (defined : Bool) (code : List ℕ)
    → Distinct table
    → find_entry name table ≡ some definition
    → get_elem? code pc ≡ some instr
    → is_addr20 (instr % 256) ≡ true
    → definition < 2 ^ 19
    → pc < 2 ^ 19
    → (w : ℕ) × (resolve table name pc defined code ≡ linked (true, set code pc w))
      × (get_elem? (set code pc w) pc ≡ some w)
      × (w % 256 ≡ instr % 256)
      × (add32 (add32 pc 1) (addr20 w) ≡ definition)
resolve-addr20 table name definition pc instr defined code d found there is hd hp =
    let w = rewrite_instr (sub32 definition (pc + 1)) instr in
    let reads = addr20-rewrite_instr definition pc instr is hd hp in
    (
      w,
      resolve-find_entry table name pc defined code d
          ∙ ap (λ o. resolved_to o pc defined code) found
          ∙ ap (λ l. l >>= λ code'. linked (true, code'))
              (patch-there definition pc instr code there),
      get_elem?-set_self code pc w (below-length code pc there),
      reads.0,
      reads.2,
    )
