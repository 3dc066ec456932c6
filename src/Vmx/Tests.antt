-- ===== src/Vmx/Tests.antt =====
-- Runs of the simulator of A2/P2/vmx20.c, and its theorems at them.
use unh_cs.Common.{
  ℕ, ◌/◌, ◌^◌, ◌≡◌, refl, ◌≢◌, true, false, none, some, [], ◌∷◌, arith, ◌==◌, if◌then◌else◌, ◌<◌,
  ◌≤◌, ◌↔◌,
}
use unh_cs.Common.Word.{add32, sub32}
use unh_cs.Vmx.State.{Vm, Core, running, illegal_instruction, normal_termination, fp, sp, pc}
use unh_cs.Vmx.Memory.{write_word}
use unh_cs.Vmx.Decode
use unh_cs.Vmx.Decode.{op_of_byte, reg1, reg2, addr20, addr16}
use unh_cs.Vmx.Execute.{
  FloatUnit, Step, next, set_reg, exec_ldimm, exec_call, exec_ret, exec_ldind, exec_stind,
  fetch_word, execute_instruction,
}
use unh_cs.Vmx.Effects.{Effect, execute_instruction-Effect}
use unh_cs.Vmx.Run.{
  finished, run_loop, fetch_decode_execute, Machine, start, step_thread, run_schedule, enter,
  init_core,
}
use unh_cs.Vmx.Schedules.{execute-Consistent}
use unh_cs.Vmx.Stack.{HasRoom, ret-call}
use unh_cs.Vmx.Agreement.{exec_ldind_lem, exec_stind_unchecked}
use unh_cs.Vmx.Legality.{illegal_iff}
use unh_cs.Vmx.Disassemble.{Line, bad, disassemble}

abbrev no_floats : FloatUnit
no_floats = record {
  add = λ a b. 0;
  sub = λ a b. 0;
  mul = λ a b. 0;
  div = λ a b. 0;
  is_zero = λ a. a == 0;
}

-- A core at its first instruction, with an empty stack from word 100 down.
abbrev core : Core
core = record { reg = λ i. if i == sp then 100 else 0; stack = 100; status = running; pid = 0 }

-- Ten words of program: `ldimm r1, 2`, then `halt`.
abbrev machine : Vm
machine = record {
  memory = λ i. if i == 0 then 0x2103 else 0;
  entry_point = 0;
  prog_end = 10;
  num_processors = 1;
  symbols = [];
}

abbrev after_ldimm : Step
after_ldimm = record {
  success = true;
  target = 1;
  core = set_reg (set_reg core 1 2) pc 1;
  vm = machine;
}

ldimm_runs : execute_instruction no_floats 0 core machine ≡ some after_ldimm
unfolding execute_instruction exec_ldimm op_of_byte reg1 addr20 add32
ldimm_runs = refl

execute_instruction-Effect_example : Effect core machine after_ldimm
execute_instruction-Effect_example =
    execute_instruction-Effect no_floats 0 core machine after_ldimm ldimm_runs

abbrev halted : Core
halted = record (set_reg (set_reg (set_reg (set_reg core pc 0) 1 2) pc 1) pc 2) {
  status = normal_termination;
}

program_ends : fetch_decode_execute no_floats 5 core machine ≡ finished halted machine
unfolding fetch_decode_execute execute_instruction exec_ldimm op_of_byte reg1 addr20 add32
program_ends = refl

run_ends : run_loop no_floats 5 (enter core machine) machine ≡ finished halted machine
unfolding run_loop enter execute_instruction exec_ldimm op_of_byte reg1 addr20 add32
run_ends = refl

-- Two cores, of which the second runs to its end.
abbrev two_cores : Machine
two_cores = record {
  threads =
      record { core = enter (init_core 100 0) machine; active = true; fetched = none }
      ∷ record { core = enter (init_core 200 1) machine; active = true; fetched = none }
      ∷ [];
  vm = record machine { num_processors = 2 };
}

two_cores-start : start (100 ∷ 200 ∷ []) 2 machine ≡ some two_cores
unfolding start
two_cores-start = refl

abbrev second_done : Machine
second_done = record {
  threads =
      record { core = enter (init_core 100 0) machine; active = true; fetched = none }
      ∷ record {
        core =
            record (set_reg (set_reg (set_reg (enter (init_core 200 1) machine) 1 2) pc 1) pc 2) {
              status = normal_termination;
            };
        active = false;
        fetched = none;
      }
      ∷ [];
  vm = record machine { num_processors = 2 };
}

second_runs : run_schedule no_floats (1 ∷ 1 ∷ 1 ∷ 1 ∷ 1 ∷ 1 ∷ []) two_cores ≡ some second_done
unfolding run_schedule step_thread fetch_word enter init_core execute_instruction exec_ldimm
    op_of_byte reg1 addr20 add32
second_runs = refl

execute-Consistent_example : second_done.vm.prog_end ≡ machine.prog_end
execute-Consistent_example =
    (execute-Consistent no_floats (100 ∷ 200 ∷ []) 2 machine (1 ∷ 1 ∷ 1 ∷ 1 ∷ 1 ∷ 1 ∷ [])
      two_cores-start second_runs).2

abbrev second_steps : Machine
second_steps = record {
  threads =
      record { core = enter (init_core 100 0) machine; active = true; fetched = none }
      ∷ record {
        core = set_reg (set_reg (enter (init_core 200 1) machine) 1 2) pc 1;
        active = true;
        fetched = none;
      }
      ∷ [];
  vm = record machine { num_processors = 2 };
}

second_step : run_schedule no_floats (1 ∷ 1 ∷ []) two_cores ≡ some second_steps
unfolding run_schedule step_thread fetch_word enter init_core execute_instruction exec_ldimm
    op_of_byte reg1 addr20 add32
second_step = refl

core-HasRoom : HasRoom core machine
core-HasRoom = record { within = omega arith; above = omega arith; in_memory = omega arith }

-- A call from word 5 to word 8, and the return of the callee at once.
abbrev call_word : ℕ
call_word = 0x200f

call_stack : (exec_call call_word 6 core machine).core.stack ≡ 100
unfolding exec_call add32 sub32
call_stack = refl

call_end : (exec_call call_word 6 core machine).vm.prog_end ≡ 10
unfolding exec_call add32 sub32 write_word
call_end = refl

ret-call_example :
    exec_ret 0x10 9
      (exec_call call_word 6 core machine).core
      (exec_call call_word 6 core machine).vm
    ≡ next 6 (set_reg (set_reg (exec_call call_word 6 core machine).core fp 0) sp 100) (
        write_word
          (exec_call call_word 6 core machine).vm
          (sub32 0 1)
          ((exec_call call_word 6 core machine).vm.memory 97))
ret-call_example =
    ret-call call_word 6 0x10 9 core machine (exec_call call_word 6 core machine).core
      (exec_call call_word 6 core machine).vm core-HasRoom refl call_stack call_end refl refl

-- A stack that has grown down to the program.
abbrev full_core : Core
full_core = record core { reg = λ i. if i == sp then 10 else 7 }

push_reg1 : reg1 0x118 ≢ sp
unfolding reg1
push_reg1 e = absurd (omega arith)

-- ldind r1, 0(r0) and stind r1, 3(r2), where r2 points beyond the memory.
abbrev ldind_word : ℕ
ldind_word = 0x105

abbrev stind_word : ℕ
stind_word = 0x32106

addr16_ldind : addr16 ldind_word ≡ 0
unfolding addr16
addr16_ldind = refl

ldind_base : core.reg (reg2 ldind_word) ≡ 0
unfolding reg2
ldind_base = refl

exec_ldind_lem_example :
    exec_ldind ldind_word 4 core machine
    ≡ next 4
        (set_reg core
          (reg1 ldind_word)
          (machine.memory (add32 (core.reg (reg2 ldind_word)) (addr16 ldind_word))))
        machine
exec_ldind_lem_example =
    (exec_ldind_lem ldind_word 4 core machine (rw ldind_base (omega arith))
        (rw addr16_ldind (omega arith))).0
      (rw (ldind_base, addr16_ldind) (omega arith))

abbrev far_core : Core
far_core = record core { reg = λ i. 300000 }

reg2_stind : reg2 stind_word < 16
unfolding reg2
reg2_stind = omega arith

addr16_stind : addr16 stind_word < 2 ^ 15
unfolding addr16
addr16_stind = omega arith

far_store : 0xfffff / 4 ≤ add32 300000 (addr16 stind_word)
unfolding addr16 add32
far_store = omega arith

exec_stind_unchecked_example : exec_stind stind_word 4 far_core machine ≡ next 4 far_core machine
exec_stind_unchecked_example =
    (exec_stind_unchecked stind_word 4 far_core machine reg2_stind).0 addr16_stind far_store

abbrev after_halt : Step
after_halt = record {
  success = false;
  target = 1;
  core = record (set_reg core pc 1) { status = normal_termination };
  vm = machine;
}

halt_runs : execute_instruction no_floats 3 core machine ≡ some after_halt
unfolding execute_instruction op_of_byte add32
halt_runs = refl

halt_plain : (op_of_byte 0 ≢ Decode.pop) × (op_of_byte 0 ≢ Decode.nop)
unfolding op_of_byte
halt_plain = (λ e. cc, λ e. cc)

illegal_iff_example :
    (after_halt.core.status ≡ illegal_instruction)
    ↔ ((l : Line) × (disassemble machine 3 ≡ bad illegal_instruction (some l)))
illegal_iff_example =
    illegal_iff no_floats 3 core machine after_halt (omega arith) (omega arith) refl halt_plain
      halt_runs
