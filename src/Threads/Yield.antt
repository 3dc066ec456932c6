-- ===== src/Threads/Yield.antt =====
-- thread_yield and thread_self of A3/thread.c, for a library that is initialised.
use unh_cs.Common.{ℕ, none, some, List, [], ◌∷◌, ◌++◌, if◌then◌else◌}
use unh_cs.Threads.State.{Tcb, is_working, value, exited, fault, Call, pure, follow, load_tcb}

-- The calls of thread_yield, each of which takes one thread off the ready list; those that are not
-- ready to work are dropped. `old` is the current thread.
unfoldable pub yield_from : (old : ℕ) → Tcb → List ℕ → Call (Unit {0})
unfolding load_tcb
yield_from old t [] s =
    if is_working t.status then value tt (record s { ready_list = [] }) else exited
yield_from old t (next ∷ rest) s = elim (s.tcb next) [
  | none ↦ fault
  | some n ↦
      if is_working n.status
      then value tt (record s {
        current = next;
        ready_list = if is_working t.status then rest ++ old ∷ [] else rest;
      })
      else yield_from old t rest s
]

unfoldable pub thread_yield : Call (Unit {0})
unfolding yield_from load_tcb is_working
thread_yield s = follow (load_tcb s.current s) (λ t. yield_from s.current t s.ready_list)

unfoldable pub thread_self : Call ℕ
unfolding load_tcb
thread_self s = follow (load_tcb s.current s) (λ t. pure t.tid)
