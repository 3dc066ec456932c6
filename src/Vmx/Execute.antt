-- ===== src/Vmx/Execute.antt =====
-- executeInstruction of A2/P2/vmx20.c, one function for each case of its switch. The memory lock
-- is held over each access, so that what a case does to the memory is one step of it.
use unh_cs.Common.{
  ℕ, ◌%◌, Bool, true, false, ◌&&◌, ◌||◌, Option, none, some, ltb, ◌==◌, not, if◌then◌else◌, update,
}
use unh_cs.Common.Word.{sign_bit, add32, sub32, mul32, div32, signed_lt, extend64, add64}
use unh_cs.Vmx.State.{
  fp, sp, pc, mem_size, Status, normal_termination, divide_by_zero, address_out_of_range,
  illegal_instruction, Vm, Core,
}
use unh_cs.Vmx.Memory.{read_into, write_word}
use unh_cs.Vmx.Decode

-- The `float` operations of the machine that the simulator runs on, on the bits of a register.
pub record FloatUnit : Type 0 where
  pub add : ℕ → ℕ → ℕ
  pub sub : ℕ → ℕ → ℕ
  pub mul : ℕ → ℕ → ℕ
  pub div : ℕ → ℕ → ℕ
  pub is_zero : ℕ → Bool

-- Where the switch leaves the locals `success` and `tPC`, the core and the machine.
pub record Step : Type 0 where
  pub success : Bool
  pub target : ℕ
  pub core : Core
  pub vm : Vm

abbrev pub next : ℕ → Core → Vm → Step
next target c vm = record { success = true; target = target; core = c; vm = vm }

abbrev pub stop : Status → ℕ → Core → Vm → Step
stop code target c vm = record {
  success = false;
  target = target;
  core = record c { status = code };
  vm = vm;
}

abbrev pub set_reg : Core → ℕ → ℕ → Core
set_reg c r v = record c { reg = update c.reg r v }

-- A case that reads its registers and writes the result of `f` into the first.
abbrev binary : (ℕ → ℕ → ℕ) → ℕ → ℕ → Core → Vm → Step
binary f word t c vm =
    let r1 = Decode.reg1 word in
    let r2 = Decode.reg2 word in next t (set_reg c r1 (f (c.reg r1) (c.reg r2))) vm

unfoldable pub exec_load : ℕ → ℕ → Core → Vm → Step
exec_load word t c vm =
    let r1 = Decode.reg1 word in
    next t (set_reg c r1 (read_into vm (add32 t (Decode.addr20 word)) (c.reg r1))) vm

unfoldable pub exec_store : ℕ → ℕ → Core → Vm → Step
exec_store word t c vm =
    next t c (write_word vm (add32 t (Decode.addr20 word)) (c.reg (Decode.reg1 word)))

unfoldable pub exec_ldimm : ℕ → ℕ → Core → Vm → Step
exec_ldimm word t c vm = next t (set_reg c (Decode.reg1 word) (Decode.addr20 word)) vm

unfoldable pub exec_ldaddr : ℕ → ℕ → Core → Vm → Step
exec_ldaddr word t c vm = next t (set_reg c (Decode.reg1 word) (add32 t (Decode.addr20 word))) vm

unfoldable pub exec_ldind : ℕ → ℕ → Core → Vm → Step
exec_ldind word t c vm =
    let r1 = Decode.reg1 word in
    let base = c.reg (Decode.reg2 word) in
    let addr = Decode.addr16 word in
    if not (ltb (add64 (extend64 base) (extend64 addr)) mem_size)
    then stop address_out_of_range t c vm
    else next t (set_reg c r1 (read_into vm (add32 base addr) (c.reg r1))) vm

-- The test adds the offset to the number of the register, not to its contents.
unfoldable pub exec_stind : ℕ → ℕ → Core → Vm → Step
exec_stind word t c vm =
    let r2 = Decode.reg2 word in
    let addr = Decode.addr16 word in
    if not (ltb (add64 r2 (extend64 addr)) mem_size)
    then stop address_out_of_range t c vm
    else next t c (write_word vm (add32 (c.reg r2) addr) (c.reg (Decode.reg1 word)))

unfoldable pub exec_divf : FloatUnit → ℕ → ℕ → Core → Vm → Step
exec_divf f word t c vm =
    if f.is_zero (c.reg (Decode.reg2 word))
    then stop divide_by_zero t c vm
    else binary f.div word t c vm

-- The quotient of the least `int32_t` by -1 is no `int32_t`: C leaves the result open.
unfoldable pub exec_divi : ℕ → ℕ → Core → Vm → Option Step
exec_divi word t c vm =
    let r1 = Decode.reg1 word in
    let r2 = Decode.reg2 word in
    if c.reg r2 == 0
    then some (stop divide_by_zero t c vm)
    else if c.reg r1 == sign_bit && c.reg r2 == 0xffff_ffff
    then none
    else some (binary div32 word t c vm)

-- Pushes the return address, the frame pointer and a zero for the result.
unfoldable pub exec_call : ℕ → ℕ → Core → Vm → Step
exec_call word t c vm =
    let s = c.reg sp in
    if ltb c.stack s || ltb (sub32 s 3) vm.prog_end
    then stop address_out_of_range t c vm
    else let s1 = sub32 s 1 in
      let vm1 = write_word vm s1 t in
      let s2 = sub32 s1 1 in
      let vm2 = write_word vm1 s2 (c.reg fp) in
      let s3 = sub32 s2 1 in
      next (add32 t (Decode.addr20 word)) (set_reg (set_reg c fp s2) sp s3) (write_word vm2 s3 0)

unfoldable pub exec_ret : ℕ → ℕ → Core → Vm → Step
exec_ret word t c vm =
    let s = c.reg sp in
    if ltb c.stack (add32 s 3) || ltb s vm.prog_end
    then stop address_out_of_range t c vm
    else let result = read_into vm s word in
      let s1 = add32 s 1 in
      let f = read_into vm s1 (c.reg fp) in
      let s2 = add32 s1 1 in
      let t' = read_into vm s2 t in
      let s3 = add32 s2 1 in
      next t' (set_reg (set_reg c fp f) sp s3) (write_word vm (sub32 f 1) result)

-- A conditional branch on the two registers.
abbrev branch : (ℕ → ℕ → Bool) → ℕ → ℕ → Core → Vm → Step
branch test word t c vm =
    if test (c.reg (Decode.reg1 word)) (c.reg (Decode.reg2 word))
    then next (add32 t (Decode.addr16 word)) c vm
    else next t c vm

unfoldable pub exec_blt : ℕ → ℕ → Core → Vm → Step
exec_blt = branch signed_lt

unfoldable pub exec_bgt : ℕ → ℕ → Core → Vm → Step
exec_bgt = branch (λ a b. signed_lt b a)

unfoldable pub exec_beq : ℕ → ℕ → Core → Vm → Step
exec_beq = branch (λ a b. a == b)

unfoldable pub exec_cmpxchg : ℕ → ℕ → Core → Vm → Step
exec_cmpxchg word t c vm =
    let r1 = Decode.reg1 word in
    let target = add32 t (Decode.addr16 word) in
    if c.reg r1 == read_into vm target 0
    then next t c (write_word vm target (c.reg (Decode.reg2 word)))
    else next t (set_reg c r1 (read_into vm target (c.reg r1))) vm

-- The test that `push` and `pop` share.
abbrev pub sp_out : Core → Vm → Bool
sp_out c vm = ltb c.stack (c.reg sp) || ltb (c.reg sp) vm.prog_end

unfoldable pub exec_push : ℕ → ℕ → Core → Vm → Step
exec_push word t c vm =
    if sp_out c vm
    then stop address_out_of_range t c vm
    else let c' = set_reg c sp (sub32 (c.reg sp) 1) in
      next t c' (write_word vm (c'.reg sp) (c'.reg (Decode.reg1 word)))

-- The case has no `break`: after the load it goes on with the `default` case.
unfoldable pub exec_pop : ℕ → ℕ → Core → Vm → Step
exec_pop word t c vm =
    if sp_out c vm
    then stop address_out_of_range t c vm
    else let r1 = Decode.reg1 word in
      let c' = set_reg c r1 (read_into vm (c.reg sp) (c.reg r1)) in
      stop illegal_instruction t (set_reg c' sp (add32 (c'.reg sp) 1)) vm

-- The switch, with `none` where C gives no meaning.
unfoldable pub exec_op : FloatUnit → Decode.Op → ℕ → ℕ → Core → Vm → Option Step
exec_op f Decode.halt word t c vm = some (stop normal_termination t c vm)
exec_op f Decode.load word t c vm = some (exec_load word t c vm)
exec_op f Decode.store word t c vm = some (exec_store word t c vm)
exec_op f Decode.ldimm word t c vm = some (exec_ldimm word t c vm)
exec_op f Decode.ldaddr word t c vm = some (exec_ldaddr word t c vm)
exec_op f Decode.ldind word t c vm = some (exec_ldind word t c vm)
exec_op f Decode.stind word t c vm = some (exec_stind word t c vm)
exec_op f Decode.addf word t c vm = some (binary f.add word t c vm)
exec_op f Decode.subf word t c vm = some (binary f.sub word t c vm)
exec_op f Decode.divf word t c vm = some (exec_divf f word t c vm)
exec_op f Decode.mulf word t c vm = some (binary f.mul word t c vm)
exec_op f Decode.addi word t c vm = some (binary add32 word t c vm)
exec_op f Decode.subi word t c vm = some (binary sub32 word t c vm)
exec_op f Decode.divi word t c vm = exec_divi word t c vm
exec_op f Decode.muli word t c vm = some (binary mul32 word t c vm)
exec_op f Decode.call word t c vm = some (exec_call word t c vm)
exec_op f Decode.ret word t c vm = some (exec_ret word t c vm)
exec_op f Decode.blt word t c vm = some (exec_blt word t c vm)
exec_op f Decode.bgt word t c vm = some (exec_bgt word t c vm)
exec_op f Decode.beq word t c vm = some (exec_beq word t c vm)
exec_op f Decode.jmp word t c vm = some (next (add32 t (Decode.addr20 word)) c vm)
exec_op f Decode.cmpxchg word t c vm = some (exec_cmpxchg word t c vm)
exec_op f Decode.getpid word t c vm = some (next t (set_reg c (Decode.reg1 word) c.pid) vm)
exec_op f Decode.getpn word t c vm =
    some (next t (set_reg c (Decode.reg1 word) vm.num_processors) vm)
exec_op f Decode.push word t c vm = some (exec_push word t c vm)
exec_op f Decode.pop word t c vm = some (exec_pop word t c vm)
exec_op f Decode.nop word t c vm = some (stop illegal_instruction t c vm)
exec_op f Decode.invalid word t c vm = some (stop illegal_instruction t c vm)

-- The end of the function: the program counter is stored whatever the case did.
abbrev pub commit : Option Step → Option Step
commit none = none
commit (some s) = some (record s { core = set_reg s.core pc s.target })

-- A fetch from beyond the memory is a read out of bounds.
-- The word at the address; `none` beyond the memory.
unfoldable pub fetch_word : (instr_addr : ℕ) → Vm → Option ℕ
fetch_word instr_addr vm =
    if not (ltb instr_addr mem_size) then none else some (vm.memory instr_addr)

-- What is done with the word that was fetched.
abbrev pub execute_word : FloatUnit → (word : ℕ) → Core → Vm → Option Step
execute_word f word c vm =
    commit (exec_op f (Decode.op_of_byte (word % 256)) word (add32 (c.reg pc) 1) c vm)

unfoldable pub execute_instruction : FloatUnit → ℕ → Core → Vm → Option Step
unfolding exec_op
execute_instruction f instr_addr c vm =
    if not (ltb instr_addr mem_size) then none else execute_word f (vm.memory instr_addr) c vm
