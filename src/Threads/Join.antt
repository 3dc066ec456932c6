-- ===== src/Threads/Join.antt =====
-- detect_deadlock and thread_join of A3/thread.c.
use unh_cs.Common.{
  ℕ, zero, suc, Bool, true, false, Option, none, some, ◌==◌, not, ◌&&◌, ◌||◌, if◌then◌else◌,
}
use unh_cs.Threads.State.{
  System, Tcb, working, waiting, is_done, value, exited, fault, unfinished, Call, pure, ◌>>◌,
  follow, load_tcb, set_tcb,
}
use unh_cs.Threads.Table.{get_tcb_by_id}
use unh_cs.Threads.Yield.{thread_yield}

-- `p->observer`. The walkers below look at it only where `p` is a live TCB.
unfoldable pub observer_of : System → ℕ → Option ℕ
observer_of s p = elim (s.tcb p) [ none ↦ none | some t ↦ t.observer ]

-- `fast->observer->observer`, if the first is not NULL.
abbrev pub hop : (ℕ → Option ℕ) → Option ℕ → Option ℕ
hop obs none = none
hop obs (some p) = obs p

unfoldable pub tid_of : System → ℕ → ℕ
tid_of s p = elim (s.tcb p) [ none ↦ 0 | some t ↦ t.tid ]

-- A pointer that is not NULL and leads to no live TCB.
unfoldable pub is_dangling : System → Option ℕ → Bool
is_dangling s none = false
is_dangling s (some p) = elim (s.tcb p) [ none ↦ true | some t ↦ false ]

-- `slow && fast && slow->tid == fast->tid`
abbrev pub same_tid : (ℕ → ℕ) → Option ℕ → Option ℕ → Bool
same_tid tid none f = false
same_tid tid (some a) none = false
same_tid tid (some a) (some b) = tid a == tid b

-- `slow && fast`
abbrev pub both : Option ℕ → Option ℕ → Bool
both none f = false
both (some a) none = false
both (some a) (some b) = true

-- What the search comes to; `crashed` is a dereference of a pointer that dangles.
pub data Answer : Type 0 where
  answer : Bool → Answer
  crashed : Answer
  out_of_fuel : Answer

-- A round of the loop on `fast`, `slow` and `fast->observer`: whether `fast` dangles, whether a pointer
-- dangles that is followed behind the condition, whether the walkers have met, and the later rounds.
unfoldable pub meet_or :
    (fast slow observer : Option ℕ) → (bad_fast bad_step met : Bool) → Answer → Answer
meet_or fast none observer bad_fast bad_step met again = answer false
meet_or none (some a) observer bad_fast bad_step met again = answer false
meet_or (some f) (some a) observer true bad_step met again = crashed
meet_or (some f) (some a) none false bad_step met again = answer false
meet_or (some f) (some a) (some o) false true met again = crashed
meet_or (some f) (some a) (some o) false false met again = if met then answer true else again

-- The loop: `slow` goes by one observer a round, `fast` by two. The fuel bounds the rounds.
unfoldable pub chase :
    ℕ → (ℕ → Option ℕ) → (ℕ → ℕ) → (dangles : Option ℕ → Bool) → (slow fast : Option ℕ) → Answer
unfolding meet_or
chase zero obs tid dangles slow fast = out_of_fuel
chase (suc n) obs tid dangles slow fast =
    let slow' = hop obs slow in
    let fast' = hop obs (hop obs fast) in
    let bad_tid = both slow' fast' && (dangles slow' || dangles fast') in
    meet_or fast slow (hop obs fast) (dangles fast)
      (dangles slow || dangles (hop obs fast) || bad_tid) (same_tid tid slow' fast')
      (chase n obs tid dangles slow' fast')

unfoldable pub detect_deadlock : ℕ → System → Answer
unfolding chase observer_of tid_of is_dangling
detect_deadlock fuel s =
    chase fuel (observer_of s) (tid_of s) (is_dangling s) (some s.current) (some s.current)

-- The results 0, -1, -2 and -3.
pub data JoinResult : Type 0 where
  joined deadlock already_joined no_such_thread : JoinResult

-- The current thread made to wait for the target, and the target told so.
unfoldable pub enrol : ℕ → Tcb → ℕ → Tcb → System → System
enrol me t target u s =
    set_tcb target (some (record u { observer = some me }))
      (set_tcb me (some (record t { status = waiting })) s)

-- The last part of the call, on the answer of `detect_deadlock` in the state `s`.
unfoldable pub settle : Answer → ℕ → Tcb → ℕ → Tcb → Call JoinResult
settle out_of_fuel me t target u s = unfinished
settle crashed me t target u s = fault
settle (answer true) me t target u s = value deadlock (
    set_tcb target (some (record u { observer = none }))
      (set_tcb me (some (record t { status = working })) s))
settle (answer false) me t target u s = (thread_yield >> pure joined) s

unfoldable pub join_target : ℕ → ℕ → Tcb → ℕ → Tcb → Call JoinResult
unfolding enrol settle
join_target fuel me t target u s =
    if is_done u.status then (thread_yield >> pure joined) s else elim u.observer [
      | some _ ↦ value already_joined s
      | none ↦ let s' = enrol me t target u s in settle (detect_deadlock fuel s') me t target u s'
    ]

unfoldable pub thread_join : ℕ → ℕ → Call JoinResult
unfolding join_target load_tcb is_done
thread_join fuel thread_id s = follow (load_tcb s.current s) λ t s1.
    if t.tid == thread_id then value deadlock s1 else elim (get_tcb_by_id s1.table thread_id) [
      | none ↦ value no_such_thread s1
      | some target ↦ follow (load_tcb target s1) λ u s2.
          if not (u.tid == thread_id) then exited else join_target fuel s2.current t target u s2
    ]
