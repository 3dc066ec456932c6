-- ===== src/Threads/Refused.antt =====
-- thread_join of A3/thread.c when it refuses to wait: nothing has changed.
use unh_cs.Common.{
  ℕ, ◌≡◌, refl, sym, ap, ◌∙◌, fun_ext, inl, inr, true, false, Option, none, some, ◌==◌, update,
  Bool-cases, Option-cases, ==_iff,
}
use unh_cs.Threads.State.{
  System, Tcb, Outcome, working, waiting, is_done, value, exited, fault, unfinished, follow,
  set_tcb, load_tcb, pure,
}
use unh_cs.Threads.Table.{get_tcb_by_id}
use unh_cs.Threads.Yield.{thread_yield}
use unh_cs.Threads.Join.{
  Answer, answer, crashed, out_of_fuel, detect_deadlock, JoinResult, joined, deadlock,
  already_joined, no_such_thread, enrol, settle, join_target, thread_join,
}

same_state :
    {a b : JoinResult} {s s' : System}
    → ◌≡◌ {A = Outcome JoinResult} (value a s) (value b s')
    → s' ≡ s
same_state e = cc

-- Writing back what two cells held.
restored :
    {A : Type 0} (f : ℕ → A) (a b p : ℕ) (va vb x y : A)
    → f a ≡ va
    → f b ≡ vb
    → update (update (update (update f a x) b y) a va) b vb p ≡ f p
restored f a b p va vb x y ea eb = elim (Bool-cases (b == p)) [
  | inl hit ↦ rw hit (sym eb ∙ ap f ((==_iff b p).0 hit))
  | inr miss ↦ rw miss (elim (Bool-cases (a == p)) [
    | inl hit ↦ rw hit (sym ea ∙ ap f ((==_iff a p).0 hit))
    | inr off ↦ rw off refl
  ])
]

-- The two TCBs of a join, before and after.
undone :
    (me target : ℕ) (t u : Tcb) (s : System)
    → s.tcb me ≡ some t
    → s.tcb target ≡ some u
    → t.status ≡ working
    → u.observer ≡ none
    → set_tcb target
        (some (record u { observer = none }))
        (set_tcb me (some (record t { status = working })) (enrol me t target u s))
      ≡ s
unfolding enrol
undone me target t u s et eu wt ou =
    ap (λ (f : ℕ → Option Tcb). record s { tcb = f })
      (fun_ext λ p.
        restored s.tcb me target p (some (record t { status = working }))
          (some (record u { observer = none })) (some (record t { status = waiting }))
          (some (record u { observer = some me }))
          (et ∙ ap (λ w. some (record t { status = w })) wt)
          (eu ∙ ap (λ w. some (record u { observer = w })) ou))

not_deadlock :
    {s s' : System} → ◌≡◌ {A = Outcome JoinResult} (value joined s) (value deadlock s') → ⊥
not_deadlock e = cc

not_already :
    {s s' : System} → ◌≡◌ {A = Outcome JoinResult} (value already_joined s) (value deadlock s') → ⊥
not_already e = cc

not_missing :
    {s s' : System} → ◌≡◌ {A = Outcome JoinResult} (value no_such_thread s) (value deadlock s') → ⊥
not_missing e = cc

not_fault : {s' : System} → ◌≡◌ {A = Outcome JoinResult} fault (value deadlock s') → ⊥
not_fault e = cc

not_exited : {s' : System} → ◌≡◌ {A = Outcome JoinResult} exited (value deadlock s') → ⊥
not_exited e = cc

yielded :
    (o : Outcome (Unit {0})) {s' : System} → follow o (λ _. pure joined) ≡ value deadlock s' → ⊥
yielded (value a s) e = not_deadlock e
yielded exited e = cc
yielded fault e = cc
yielded unfinished e = cc

settle-deadlock :
    (found : Answer) (me target : ℕ) (t u : Tcb) (s : System) {s' : System}
    → s.tcb me ≡ some t
    → s.tcb target ≡ some u
    → t.status ≡ working
    → u.observer ≡ none
    → settle found me t target u (enrol me t target u s) ≡ value deadlock s'
    → s' ≡ s
unfolding settle
settle-deadlock out_of_fuel me target t u s et eu wt ou e = cc
settle-deadlock crashed me target t u s et eu wt ou e = cc
settle-deadlock (answer true) me target t u s et eu wt ou e =
    same_state e ∙ undone me target t u s et eu wt ou
settle-deadlock (answer false) me target t u s et eu wt ou e =
    absurd (yielded (thread_yield (enrol me t target u s)) e)

join_target-deadlock :
    (fuel me target : ℕ) (t u : Tcb) (s : System) {s' : System}
    → s.tcb me ≡ some t
    → s.tcb target ≡ some u
    → t.status ≡ working
    → join_target fuel me t target u s ≡ value deadlock s'
    → s' ≡ s
unfolding join_target
join_target-deadlock fuel me target t u s et eu wt e = elim (Bool-cases (is_done u.status)) [
  | inl ended ↦ absurd (yielded (thread_yield s) (rw ended at e))
  | inr going ↦ elim (Option-cases u.observer) [
    | inl free ↦
        settle-deadlock (detect_deadlock fuel (enrol me t target u s)) me target t u s et eu wt free
          (rw (going, free) at e)
    | inr (o, taken) ↦ absurd (not_already (rw (going, taken) at e))
  ]
]

-- A join that is answered "deadlock", by a thread that is working, leaves the whole system as it
-- was.
pub thread_join-deadlock :
    (fuel id : ℕ) (s : System) (t : Tcb) {s' : System}
    → s.tcb s.current ≡ some t
    → t.status ≡ working
    → thread_join fuel id s ≡ value deadlock s'
    → s' ≡ s
unfolding thread_join load_tcb
thread_join-deadlock fuel id s t et wt e = elim (Bool-cases (t.tid == id)) [
  | inl self ↦ same_state (rw (et, self) at e)
  | inr other ↦ elim (Option-cases (get_tcb_by_id s.table id)) [
    | inl missing ↦ absurd (not_missing (rw (et, other, missing) at e))
    | inr (target, found) ↦ elim (Option-cases (s.tcb target)) [
      | inl dead ↦ absurd (not_fault (rw (et, other, found, dead) at e))
      | inr (u, eu) ↦ elim (Bool-cases (u.tid == id)) [
        | inl right ↦
            join_target-deadlock fuel s.current target t u s et eu wt
              (rw (et, other, found, eu, right) at e)
        | inr wrong ↦ absurd (not_exited (rw (et, other, found, eu, wrong) at e))
      ]
    ]
  ]
]
