-- ===== src/Vmx/Effects.antt =====
-- What every instruction of A2/P2/vmx20.c leaves alone, and the status that it stops with.
use unh_cs.Common.{
  ℕ, ◌%◌, ◌≡◌, refl, Bool, true, false, Option, none, some, arith, ltb, ◌==◌, if◌then◌else◌,
  Bool-cases, some_inj, inl, inr, ◌&&◌, ◌⊎◌,
}
use mathlib.Core.Path.{subst}
use unh_cs.Common.Word.{add32, sign_bit}
use unh_cs.Vmx.State.{
  mem_size, pc, Status, normal_termination, divide_by_zero, address_out_of_range,
  illegal_instruction, Vm, Core,
}
use unh_cs.Vmx.Memory.{put_word, write_word}
use unh_cs.Vmx.Decode
use unh_cs.Vmx.Decode.{reg1, reg2, addr16, addr20}
use unh_cs.Vmx.Execute.{
  FloatUnit, Step, next, stop, set_reg, commit, exec_load, exec_ldimm, exec_store, exec_ldaddr,
  exec_ldind, exec_stind, exec_divf, exec_divi, exec_call, exec_ret, exec_blt, exec_bgt, exec_beq,
  exec_cmpxchg, exec_push, exec_pop, exec_op, execute_word, execute_instruction,
}

-- The statuses that vmx20.h names for a core that has stopped.
pub data IsTerminal : Status → Type 0 where
  normal : IsTerminal normal_termination
  division : IsTerminal divide_by_zero
  range : IsTerminal address_out_of_range
  illegal : IsTerminal illegal_instruction

-- Against the core `c` and the machine `vm` before it: the step writes registers, the memory and
-- the status alone, and the status exactly if it stops the core.
pub record Effect (c : Core) (vm : Vm) (s : Step) : Type 0 where
  pub same_pid : s.core.pid ≡ c.pid
  pub same_stack : s.core.stack ≡ c.stack
  pub same_entry : s.vm.entry_point ≡ vm.entry_point
  pub same_end : s.vm.prog_end ≡ vm.prog_end
  pub same_number : s.vm.num_processors ≡ vm.num_processors
  pub same_symbols : s.vm.symbols ≡ vm.symbols
  pub graded :
      ((s.success ≡ true) × (s.core.status ≡ c.status))
      ⊎ ((s.success ≡ false) × IsTerminal s.core.status)

record SameVm (vm vm' : Vm) : Type 0 where
  entry : vm'.entry_point ≡ vm.entry_point
  end : vm'.prog_end ≡ vm.prog_end
  number : vm'.num_processors ≡ vm.num_processors
  symbols : vm'.symbols ≡ vm.symbols

SameVm-refl : (vm : Vm) → SameVm vm vm
SameVm-refl vm = record { entry = refl; end = refl; number = refl; symbols = refl }

write_word-SameVm : {vm v : Vm} (a w : ℕ) → SameVm vm v → SameVm vm (write_word v a w)
unfolding write_word put_word
write_word-SameVm a w h = ground arith

moved :
    {c : Core} {vm vm' : Vm} (t : ℕ) (r : ℕ → ℕ)
    → SameVm vm vm'
    → Effect c vm (next t (record c { reg = r }) vm')
moved t r h = record {
  same_pid = refl;
  same_stack = refl;
  same_entry = h.entry;
  same_end = h.end;
  same_number = h.number;
  same_symbols = h.symbols;
  graded = inl (refl, refl);
}

halted :
    {c : Core} {vm : Vm} {code : Status} (t : ℕ) (r : ℕ → ℕ)
    → IsTerminal code
    → Effect c vm (stop code t (record c { reg = r }) vm)
halted t r h = record {
  same_pid = refl;
  same_stack = refl;
  same_entry = refl;
  same_end = refl;
  same_number = refl;
  same_symbols = refl;
  graded = inr (refl, h);
}

-- A case that may stop the core instead, or that has two ways to go on.
either-Effect :
    {c : Core} {vm : Vm} (b : Bool) (s s' : Step)
    → Effect c vm s
    → Effect c vm s'
    → Effect c vm (if b then s else s')
either-Effect true s s' k k' = k
either-Effect false s s' k k' = k'

abbrev OnSome : (Step → Type 0) → Option Step → Type 0
OnSome P none = Unit
OnSome P (some s) = P s

module _ (word t : ℕ) (c : Core) (vm : Vm) where
  exec_call-Effect : Effect c vm (exec_call word t c vm)
  unfolding exec_call
  exec_call-Effect = either-Effect _ _ _ (halted t c.reg range) (
      moved _ _
        (write_word-SameVm _ 0 (write_word-SameVm _ _ (write_word-SameVm _ t (SameVm-refl vm)))))

  exec_ret-Effect : Effect c vm (exec_ret word t c vm)
  unfolding exec_ret
  exec_ret-Effect =
      either-Effect _ _ _ (halted t c.reg range)
        (moved _ _ (write_word-SameVm _ _ (SameVm-refl vm)))

  exec_ldind-Effect : Effect c vm (exec_ldind word t c vm)
  unfolding exec_ldind
  exec_ldind-Effect = either-Effect _ _ _ (halted t c.reg range) (moved t _ (SameVm-refl vm))

  exec_stind-Effect : Effect c vm (exec_stind word t c vm)
  unfolding exec_stind
  exec_stind-Effect =
      either-Effect _ _ _ (halted t c.reg range)
        (moved t c.reg (write_word-SameVm _ _ (SameVm-refl vm)))

  exec_divf-Effect : (f : FloatUnit) → Effect c vm (exec_divf f word t c vm)
  unfolding exec_divf
  exec_divf-Effect f = either-Effect _ _ _ (halted t c.reg division) (moved t _ (SameVm-refl vm))

  exec_divi-Effect : OnSome (Effect c vm) (exec_divi word t c vm)
  unfolding exec_divi
  exec_divi-Effect = elim (Bool-cases (c.reg (reg2 word) == 0)) [
    | inl e ↦ rw e (halted t c.reg division)
    | inr e ↦
        rw e
          (elim (Bool-cases (c.reg (reg1 word) == sign_bit && c.reg (reg2 word) == 0xffff_ffff)) [
            | inl o ↦ rw o tt
            | inr o ↦ rw o (moved t _ (SameVm-refl vm))
          ])
  ]

  branch-Effect :
      (b : Bool) → Effect c vm (if b then next (add32 t (addr16 word)) c vm else next t c vm)
  branch-Effect b =
      either-Effect b _ _ (moved _ c.reg (SameVm-refl vm)) (moved t c.reg (SameVm-refl vm))

  exec_cmpxchg-Effect : Effect c vm (exec_cmpxchg word t c vm)
  unfolding exec_cmpxchg
  exec_cmpxchg-Effect =
      either-Effect _ _ _ (moved t c.reg (write_word-SameVm _ _ (SameVm-refl vm)))
        (moved t _ (SameVm-refl vm))

  exec_push-Effect : Effect c vm (exec_push word t c vm)
  unfolding exec_push
  exec_push-Effect =
      either-Effect _ _ _ (halted t c.reg range)
        (moved t _ (write_word-SameVm _ _ (SameVm-refl vm)))

  exec_pop-Effect : Effect c vm (exec_pop word t c vm)
  unfolding exec_pop
  exec_pop-Effect = either-Effect _ _ _ (halted t c.reg range) (halted t _ illegal)

  write-Effect : (a w : ℕ) → Effect c vm (next t c (write_word vm a w))
  write-Effect a w = moved t c.reg (write_word-SameVm a w (SameVm-refl vm))

  reg-Effect : (v : ℕ) → Effect c vm (next t (set_reg c (reg1 word) v) vm)
  reg-Effect v = moved t _ (SameVm-refl vm)

exec_op-Effect :
    (f : FloatUnit) (op : Decode.Op) (word t : ℕ) (c : Core) (vm : Vm)
    → OnSome (Effect c vm) (exec_op f op word t c vm)
unfolding exec_op exec_load exec_store exec_ldimm exec_ldaddr exec_blt exec_bgt exec_beq
exec_op-Effect f Decode.halt word t c vm = halted t c.reg normal
exec_op-Effect f Decode.store word t c vm = write-Effect word t c vm _ _
exec_op-Effect f Decode.ldind word t c vm = exec_ldind-Effect word t c vm
exec_op-Effect f Decode.stind word t c vm = exec_stind-Effect word t c vm
exec_op-Effect f Decode.divf word t c vm = exec_divf-Effect word t c vm f
exec_op-Effect f Decode.divi word t c vm = exec_divi-Effect word t c vm
exec_op-Effect f Decode.call word t c vm = exec_call-Effect word t c vm
exec_op-Effect f Decode.ret word t c vm = exec_ret-Effect word t c vm
exec_op-Effect f Decode.blt word t c vm = branch-Effect word t c vm _
exec_op-Effect f Decode.bgt word t c vm = branch-Effect word t c vm _
exec_op-Effect f Decode.beq word t c vm = branch-Effect word t c vm _
exec_op-Effect f Decode.jmp word t c vm = moved _ c.reg (SameVm-refl vm)
exec_op-Effect f Decode.cmpxchg word t c vm = exec_cmpxchg-Effect word t c vm
exec_op-Effect f Decode.push word t c vm = exec_push-Effect word t c vm
exec_op-Effect f Decode.pop word t c vm = exec_pop-Effect word t c vm
exec_op-Effect f Decode.nop word t c vm = halted t c.reg illegal
exec_op-Effect f Decode.invalid word t c vm = halted t c.reg illegal
exec_op-Effect f _ word t c vm = reg-Effect word t c vm _

commit-Effect :
    (c : Core) (vm : Vm) (r : Option Step)
    → OnSome (Effect c vm) r
    → (s : Step) → commit r ≡ some s
    → Effect c vm s
commit-Effect c vm none k s e = cc
commit-Effect c vm (some r) k s e = subst (Effect c vm) (some_inj e) (record {
  same_pid = k.same_pid;
  same_stack = k.same_stack;
  same_entry = k.same_entry;
  same_end = k.same_end;
  same_number = k.same_number;
  same_symbols = k.same_symbols;
  graded = k.graded;
})

pub execute_word-Effect :
    (f : FloatUnit) (word : ℕ) (c : Core) (vm : Vm) (s : Step)
    → execute_word f word c vm ≡ some s
    → Effect c vm s
execute_word-Effect f word c vm s e =
    commit-Effect c vm _
      (exec_op-Effect f (Decode.op_of_byte (word % 256)) word (add32 (c.reg pc) 1) c vm) s e

-- Whatever its opcode, an instruction that has a result leaves the core's pid and stack base and
-- all of the machine but its memory as they were; either it succeeds with the status unchanged, or
-- it stops the core with one of the four termination statuses of vmx20.h.
pub execute_instruction-Effect :
    (f : FloatUnit) (instr_addr : ℕ) (c : Core) (vm : Vm) (s : Step)
    → execute_instruction f instr_addr c vm ≡ some s
    → Effect c vm s
unfolding execute_instruction
execute_instruction-Effect f instr_addr c vm s e = elim (Bool-cases (ltb instr_addr mem_size)) [
  | inl i ↦ execute_word-Effect f (vm.memory instr_addr) c vm s (rw i at e)
  | inr o ↦ absurd (ground arith)
]
