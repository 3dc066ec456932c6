-- ===== src/Vmx/Ending.antt =====
-- Runs of one core to their end: A2/P2/vmx20.c, fetchDecodeExecute.
use mathlib.Core.Path.{subst}
use unh_cs.Common.{
  ℕ, zero, suc, ◌≤◌, ◌≡◌, refl, Bool, true, false, Option, none, some, arith, ◌⊎◌, inl, inr, ◌∙◌,
  Bool-cases,
}
use unh_cs.Vmx.State.{pc, Vm, Core}
use unh_cs.Vmx.Execute.{FloatUnit, Step, execute_instruction}
use unh_cs.Vmx.Effects.{IsTerminal, Effect, execute_instruction-Effect}
use unh_cs.Vmx.Run.{Run, finished, run_loop, enter, fetch_decode_execute, and_then}

and_then_mono :
    (r : Option Step) (k k' : Core → Vm → Run) {c' : Core} {vm' : Vm}
    → ((c : Core) (vm : Vm) → k c vm ≡ finished c' vm' → k' c vm ≡ finished c' vm')
    → and_then r k ≡ finished c' vm'
    → and_then r k' ≡ finished c' vm'
and_then_mono none k k' h e = e
and_then_mono (some s) k k' h e = elim (Bool-cases s.success) [
  | inl more ↦ rw more (h s.core s.vm (rw more at e))
  | inr done ↦ rw done (rw done at e)
]

-- A run that ends within some fuel ends the same way within any greater fuel.
pub run_loop-more_fuel :
    (f : FloatUnit) (n m : ℕ) (c : Core) (vm : Vm) {c' : Core} {vm' : Vm}
    → n ≤ m
    → run_loop f n c vm ≡ finished c' vm'
    → run_loop f m c vm ≡ finished c' vm'
unfolding run_loop
run_loop-more_fuel f zero m c vm h e = cc
run_loop-more_fuel f (suc n) zero c vm h e = absurd (omega arith)
run_loop-more_fuel f (suc n) (suc m) c vm h e =
    and_then_mono (execute_instruction f (c.reg pc) c vm) (run_loop f n) (run_loop f m)
      (λ d v. run_loop-more_fuel f n m d v (omega arith)) e

-- The end of a run, against the core `c` that it started with.
abbrev Ends : Core → Core → Type 0
Ends c c' = IsTerminal c'.status × (c'.pid ≡ c.pid) × (c'.stack ≡ c.stack)

finished_inj : {c c' : Core} {vm vm' : Vm} → finished c vm ≡ finished c' vm' → (c ≡ c') × (vm ≡ vm')
finished_inj e = (cc, cc)

not_graded : {P Q : Type 0} {b : Bool} → ((b ≡ true) × P) ⊎ ((b ≡ false) × Q) → b ≡ false → Q
not_graded (inl (e, p)) e' = cc
not_graded (inr (e, q)) e' = q

and_then-Ends :
    (r : Option Step) (k : Core → Vm → Run) (c : Core) (vm : Vm) {c' : Core} {vm' : Vm}
    → ((s : Step) → r ≡ some s → Effect c vm s)
    → ((d : Core) (v : Vm) → k d v ≡ finished c' vm' → Ends d c')
    → and_then r k ≡ finished c' vm'
    → Ends c c'
and_then-Ends none k c vm eff h e = cc
and_then-Ends (some s) k c vm eff h e = elim (Bool-cases s.success) [
  | inl more ↦
      let rest = h s.core s.vm (rw more at e) in
      let x = eff s refl in (rest.0, rest.1 ∙ x.same_pid, rest.2 ∙ x.same_stack)
  | inr done ↦
      let x = eff s refl in
      let same = (finished_inj (rw done at e)).0 in
      subst (Ends c) same (not_graded x.graded done, x.same_pid, x.same_stack)
]

run_loop-Ends :
    (f : FloatUnit) (n : ℕ) (c : Core) (vm : Vm) {c' : Core} {vm' : Vm}
    → run_loop f n c vm ≡ finished c' vm'
    → Ends c c'
unfolding run_loop
run_loop-Ends f zero c vm e = cc
run_loop-Ends f (suc n) c vm e =
    and_then-Ends (execute_instruction f (c.reg pc) c vm) (run_loop f n) c vm
      (execute_instruction-Effect f (c.reg pc) c vm) (λ d v. run_loop-Ends f n d v) e

-- A core that runs to its end has one of the four termination statuses of vmx20.h, and the pid and
-- the stack base that it was given.
pub fetch_decode_execute-IsTerminal :
    (f : FloatUnit) (n : ℕ) (c : Core) (vm : Vm) {c' : Core} {vm' : Vm}
    → fetch_decode_execute f n c vm ≡ finished c' vm'
    → IsTerminal c'.status × (c'.pid ≡ c.pid) × (c'.stack ≡ c.stack)
unfolding fetch_decode_execute
fetch_decode_execute-IsTerminal f n c vm e = run_loop-Ends f n (enter c vm) vm e
