-- ===== src/Dsx/Agree.antt =====
-- A1/P2/dsx20.c against the disassembler of the machine, disassemble of A2/P2/vmx20.c: two programs
-- of the repository that read the same instructions.
use unh_cs.Common.{
  ℕ, ◌/◌, ◌%◌, ◌^◌, ◌≡◌, ◌≢◌, refl, sym, ap, ◌∙◌, false, Option, some, List, [], ◌∷◌, map, ltb,
  ◌==◌, inl, inr, Bool-cases, arith,
}
use unh_cs.Common.Word.{IsWord, sar32}
use unh_cs.Vmx.Decode
use unh_cs.Vmx.Disassemble.{graded, operands_of, disassemble, Line, line_of, good, bad}
use unh_cs.Vmx.State.{Vm, Status}
use unh_cs.Vmx.Memory.{get_word}
use unh_cs.Common.Fallible.{switch}
use unh_cs.Dsx.Tables.{op_name, op_format}
use unh_cs.Dsx.Parse.{extend_bit20, extend_int16}
use unh_cs.Dsx.Object.{ObjectSymbol, is_outsymbol}
use unh_cs.Dsx.Print.{plain, reference, first_reg, second_reg, print_operands, print_word}

-- A field with its sign, as the two programs compute it.
extend_bit20-addr20 : (w : ℕ) → IsWord w → extend_bit20 (w / 2 ^ 12) ≡ Decode.addr20 w
unfolding extend_bit20 Decode.addr20 Decode.extend_sign20 sar32
extend_bit20-addr20 w h = ground arith

extend_int16-addr16 : (w : ℕ) → IsWord w → extend_int16 (w / 2 ^ 16) ≡ Decode.addr16 w
unfolding extend_int16 Decode.addr16 Decode.extend_sign16 sar32
extend_int16-addr16 w h = ground arith

field20 : (w : ℕ) → IsWord w → w / 2 ^ 12 % 2 ^ 20 ≡ w / 2 ^ 12
field20 w h = omega (arith, h)

-- The cases of the switches of the machine.
abbrev cases : List (ℕ × Decode.Op)
cases =
    (0x00, Decode.halt)
    ∷ (0x01, Decode.load)
    ∷ (0x02, Decode.store)
    ∷ (0x03, Decode.ldimm)
    ∷ (0x04, Decode.ldaddr)
    ∷ (0x05, Decode.ldind)
    ∷ (0x06, Decode.stind)
    ∷ (0x07, Decode.addf)
    ∷ (0x08, Decode.subf)
    ∷ (0x09, Decode.divf)
    ∷ (0x0a, Decode.mulf)
    ∷ (0x0b, Decode.addi)
    ∷ (0x0c, Decode.subi)
    ∷ (0x0d, Decode.divi)
    ∷ (0x0e, Decode.muli)
    ∷ (0x0f, Decode.call)
    ∷ (0x10, Decode.ret)
    ∷ (0x11, Decode.blt)
    ∷ (0x12, Decode.bgt)
    ∷ (0x13, Decode.beq)
    ∷ (0x14, Decode.jmp)
    ∷ (0x15, Decode.cmpxchg)
    ∷ (0x16, Decode.getpid)
    ∷ (0x17, Decode.getpn)
    ∷ (0x18, Decode.push)
    ∷ (0x19, Decode.pop)
    ∷ (0x20, Decode.nop)
    ∷ []

op_of_byte-switch : (b : ℕ) → Decode.op_of_byte b ≡ switch b cases Decode.invalid
unfolding Decode.op_of_byte
op_of_byte-switch b = refl

abbrev on_results : {A B : Type 0} → (A → B) → List (ℕ × A) → List (ℕ × B)
on_results f [] = []
on_results f ((c, a) ∷ cs) = (c, f a) ∷ on_results f cs

switch-on_results :
    {A B : Type 0} (f : A → B) (b : ℕ) (cs : List (ℕ × A)) (d : A)
    → f (switch b cs d) ≡ switch b (on_results f cs) (f d)
switch-on_results f b [] d = refl
switch-on_results f b ((c, a) ∷ cs) d = elim (Bool-cases (b == c)) [
  | inl here ↦ rw here refl
  | inr later ↦ rw later (switch-on_results f b cs d)
]

op_format-op_of_byte : (b : ℕ) → op_format b ≡ Decode.op_format (Decode.op_of_byte b)
unfolding op_format Decode.op_format
op_format-op_of_byte b =
    sym (switch-on_results Decode.op_format b cases Decode.invalid)
    ∙ ap Decode.op_format (sym (op_of_byte-switch b))

op_name-op_of_byte : (b : ℕ) → op_name b ≡ Decode.op_name (Decode.op_of_byte b)
unfolding op_name Decode.op_name
op_name-op_of_byte b =
    sym (switch-on_results Decode.op_name b cases Decode.invalid)
    ∙ ap Decode.op_name (sym (op_of_byte-switch b))

-- A word with no symbol at its address has the operands that the machine prints.
print_operands-operands_of :
    (f : Decode.Format) (outsymbols : List ObjectSymbol) (pc w : ℕ)
    → IsWord w
    → is_outsymbol outsymbols pc ≡ false
    → print_operands f outsymbols pc w ≡ map plain (operands_of f w pc)
unfolding print_operands operands_of reference Decode.reg1 Decode.reg2 first_reg second_reg
print_operands-operands_of Decode.f_op outs pc w h known = refl
print_operands-operands_of Decode.f_addr outs pc w h known =
    rw (known, extend_bit20-addr20 w h) refl
print_operands-operands_of Decode.f_reg outs pc w h known = refl
print_operands-operands_of Decode.f_regconst outs pc w h known =
    rw (field20 w h, extend_bit20-addr20 w h) refl
print_operands-operands_of Decode.f_regaddr outs pc w h known =
    rw (known, extend_bit20-addr20 w h) refl
print_operands-operands_of Decode.f_regreg outs pc w h known = refl
print_operands-operands_of Decode.f_regoff outs pc w h known = rw (extend_int16-addr16 w h) refl
print_operands-operands_of Decode.f_regregaddr outs pc w h known =
    rw (known, extend_int16-addr16 w h) refl
print_operands-operands_of Decode.f_invalid outs pc w h known = refl

good_inj : {l l' : Line} → good l ≡ good l' → l ≡ l'
good_inj e = cc

bad-good : {s : Status} {o : Option Line} {l : Line} → bad s o ≢ good l
bad-good e = cc

graded-good : (f : Decode.Format) {l l' : Line} → graded f l ≡ good l' → l ≡ l'
graded-good Decode.f_op e = good_inj e
graded-good Decode.f_addr e = good_inj e
graded-good Decode.f_reg e = good_inj e
graded-good Decode.f_regconst e = good_inj e
graded-good Decode.f_regaddr e = good_inj e
graded-good Decode.f_regreg e = good_inj e
graded-good Decode.f_regoff e = good_inj e
graded-good Decode.f_regregaddr e = good_inj e
graded-good Decode.f_invalid e = absurd (bad-good e)

-- Where disassemble of the machine succeeds, at an address without an outsymbol, print_code prints
-- the name and the operands that it prints.
pub print_word-disassemble :
    (vm : Vm) (outsymbols : List ObjectSymbol) (address w : ℕ) {line : Line}
    → get_word vm address ≡ some w
    → IsWord w
    → is_outsymbol outsymbols address ≡ false
    → disassemble vm address ≡ good line
    → ((print_word false outsymbols address w).name ≡ line.name)
      × ((print_word false outsymbols address w).operands ≡ map plain line.operands)
unfolding disassemble print_word
print_word-disassemble vm outs address w {line} at h known e =
    elim (Bool-cases (ltb address vm.prog_end)) [
      | inr outside ↦ absurd (bad-good (rw outside at e))
      | inl inside ↦
          let op = Decode.op_of_byte (w % 256) in
          let same : line_of op w address ≡ line =
            graded-good (Decode.op_format op) (rw (inside, at) at e) in
          (
            op_name-op_of_byte (w % 256) ∙ ap (λ (l : Line). l.name) same,
            rw (op_format-op_of_byte (w % 256))
                  (print_operands-operands_of (Decode.op_format op) outs address w h known)
                ∙ ap (λ (l : Line). map plain l.operands) same,
          )
    ]
