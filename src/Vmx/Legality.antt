-- ===== src/Vmx/Legality.antt =====
-- The opcodes that disassemble refuses and those that executeInstruction refuses (A2/P2/vmx20.c).
use unh_cs.Common.{
  ℕ, ◌%◌, ◌<◌, ◌≡◌, refl, ◌≢◌, ◌↔◌, Option, none, some, arith, ◌==◌, inl, inr, Bool-cases, some_inj,
  ◌&&◌, ap, sym, ◌∙◌, lt→ltb,
}
use unh_cs.Common.Word.{add32, sign_bit}
use unh_cs.Vmx.State.{mem_size, pc, Status, running, illegal_instruction, Vm, Core}
use unh_cs.Vmx.Memory.{get_word}
use unh_cs.Vmx.Decode
use unh_cs.Vmx.Decode.{Op, op_of_byte, op_format}
use unh_cs.Vmx.Execute.{
  FloatUnit, Step, commit, exec_load, exec_ldimm, exec_store, exec_ldaddr, exec_ldind, exec_stind,
  exec_divf, exec_divi, exec_call, exec_ret, exec_blt, exec_bgt, exec_beq, exec_cmpxchg, exec_push,
  exec_pop, exec_op, execute_instruction,
}
use unh_cs.Vmx.Disassemble.{Line, good, bad, graded, line_of, disassemble}

abbrev OnSome : (Step → Type 0) → Option Step → Type 0
OnSome P none = Unit
OnSome P (some s) = P s

abbrev IsIllegal : Step → Type 0
IsIllegal s = s.core.status ≡ illegal_instruction

-- An opcode that the execution has a case of its own for, with its `break`.
abbrev pub IsPlain : Op → Type 0
IsPlain op = (op ≢ Decode.pop) × (op ≢ Decode.nop)

exec_op_legal :
    (f : FloatUnit) (op : Op) (word t : ℕ) (c : Core) (vm : Vm)
    → IsPlain op
    → op ≢ Decode.invalid
    → c.status ≡ running
    → OnSome (λ s. ¬ IsIllegal s) (exec_op f op word t c vm)
unfolding exec_op exec_load exec_ldimm exec_store exec_ldaddr exec_ldind exec_stind exec_divf
    exec_divi exec_call exec_ret exec_blt exec_bgt exec_beq exec_cmpxchg exec_push exec_pop
exec_op_legal f Decode.invalid word t c vm p v r = absurd (v refl)
exec_op_legal f Decode.pop word t c vm p v r = absurd (p.0 refl)
exec_op_legal f Decode.nop word t c vm p v r = absurd (p.1 refl)
exec_op_legal f Decode.divi word t c vm p v r = elim (Bool-cases (c.reg (Decode.reg2 word) == 0)) [
  | inl e ↦ rw e (ground arith)
  | inr e ↦
      rw e
        (elim (Bool-cases
          (c.reg (Decode.reg1 word) == sign_bit && c.reg (Decode.reg2 word) == 0xffff_ffff)) [
            | inl o ↦ rw o tt
            | inr o ↦ rw o (ground arith)
          ])
]
exec_op_legal f _ word t c vm p v r = ground arith

Op-discrete : Discrete Op
Op-discrete = hlevel

graded_good : (op : Op) (l : Line) → op ≢ Decode.invalid → graded (op_format op) l ≡ good l
unfolding op_format
graded_good Decode.invalid l h = absurd (h refl)
graded_good _ l h = refl

refused_format :
    (op : Op) (l : Line)
    → op ≡ Decode.invalid
    → graded (op_format op) l ≡ bad illegal_instruction (some l)
unfolding op_format
refused_format op l e = rw e

good_bad : {l : Line} {code : Status} {o : Option Line} → good l ≡ bad code o → ⊥
good_bad e = cc

commit-IsIllegal :
    (r : Option Step) (s : Step) → commit r ≡ some s → OnSome (λ x. ¬ IsIllegal x) r → ¬ IsIllegal s
commit-IsIllegal none s e h i = cc
commit-IsIllegal (some x) s e h i = h (ap (λ (y : Step). y.core.status) (some_inj e) ∙ i)

module _ (vm : Vm) (a : ℕ) (hm : a < mem_size) where
  disassemble_lem :
      a < vm.prog_end
      → let op = op_of_byte (vm.memory a % 256) in
        disassemble vm a ≡ graded (op_format op) (line_of op (vm.memory a) a)
  unfolding disassemble get_word
  disassemble_lem hp = rw (lt→ltb a vm.prog_end hp, lt→ltb a mem_size hm)

  execute_lem :
      (f : FloatUnit) (c : Core)
      → execute_instruction f a c vm
        ≡ commit
            (exec_op f (op_of_byte (vm.memory a % 256)) (vm.memory a) (add32 (c.reg pc) 1) c vm)
  unfolding execute_instruction
  execute_lem f c = rw (lt→ltb a mem_size hm)

-- For an instruction within the program and the memory, other than `pop` and `nop`, that a running
-- core carries out: it ends as illegal exactly if `disassemble` refuses its word as illegal.
pub illegal_iff :
    (f : FloatUnit) (a : ℕ) (c : Core) (vm : Vm) (s : Step)
    → a < vm.prog_end
    → a < mem_size
    → c.status ≡ running
    → IsPlain (op_of_byte (vm.memory a % 256))
    → execute_instruction f a c vm ≡ some s
    → (s.core.status ≡ illegal_instruction)
      ↔ ((l : Line) × (disassemble vm a ≡ bad illegal_instruction (some l)))
unfolding exec_op op_format
illegal_iff f a c vm s hp hm hr plain e = elim (Op-discrete op Decode.invalid) [
  | yes v ↦ (
    λ i. (line_of op (vm.memory a) a, refused v),
    λ d. ap (λ (y : Step). y.core.status) (sym (some_inj (rw v at ran))),
  )
  | no v ↦ (
    λ i. absurd (commit-IsIllegal _ s ran (exec_op_legal f op _ _ c vm plain v hr) i),
    λ d. absurd (good_bad (sym (accepted v) ∙ d.1)),
  )
]
  where
    op : Op
    op = op_of_byte (vm.memory a % 256)

    ran : commit (exec_op f op (vm.memory a) (add32 (c.reg pc) 1) c vm) ≡ some s
    ran = sym (execute_lem vm a hm f c) ∙ e

    refused :
        op ≡ Decode.invalid
        → disassemble vm a ≡ bad illegal_instruction (some (line_of op (vm.memory a) a))
    refused v = disassemble_lem vm a hm hp ∙ refused_format op _ v

    accepted : op ≢ Decode.invalid → disassemble vm a ≡ good (line_of op (vm.memory a) a)
    accepted v = disassemble_lem vm a hm hp ∙ graded_good op _ v
