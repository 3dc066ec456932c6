-- ===== src/Vmx/Schedules.antt =====
-- Interleavings of several cores: A2/P2/vmx20.c, fetchDecodeExecute and execute.
use mathlib.Core.Path.{subst}
use unh_cs.Common.{
  ℕ, zero, suc, ◌≡◌, refl, ◌≢◌, true, false, Option, none, some, List, [], ◌∷◌, arith, ltb,
  if◌then◌else◌, ◌⊎◌, inl, inr, map, ◌∙◌, ap, sym, Bool-cases, Option-cases, some_inj, get_elem?,
  set, All, All-get, All-set, get_elem?-set_ne,
}
use unh_cs.Vmx.State.{pc, Vm, running}
use unh_cs.Vmx.Execute.{FloatUnit, Step, fetch_word, execute_word}
use unh_cs.Vmx.Effects.{IsTerminal, Effect, execute_word-Effect}
use unh_cs.Vmx.Run.{
  enter, fetch, act, turn, advance, init_core, Thread, Machine, max_processors, start_threads,
  start, step_thread, run_schedule,
}

abbrev Consistent : Thread → Type 0
Consistent th =
    ((th.active ≡ true) × (th.core.status ≡ running))
    ⊎ ((th.active ≡ false) × IsTerminal th.core.status)

-- Thread against its start: consistent, and with the same pid.
abbrev Kept : Machine → Machine → Type 0
Kept m m' =
    All Consistent m'.threads
    × (map (λ th. th.core.pid) m'.threads ≡ map (λ th. th.core.pid) m.threads)
    × (m'.vm.prog_end ≡ m.vm.prog_end)

map-set :
    (xs : List Thread) (i : ℕ) (x v : Thread)
    → get_elem? xs i ≡ some x
    → v.core.pid ≡ x.core.pid
    → map (λ th. th.core.pid) (set xs i v) ≡ map (λ th. th.core.pid) xs
map-set [] i x v e h = cc
map-set (y ∷ xs) zero x v e h = rw (h, some_inj e)
map-set (y ∷ xs) (suc i) x v e h = rw (map-set xs i x v e h)

advance-Kept :
    (m : Machine) (i : ℕ) (th : Thread) (r : Option Step) {m' : Machine}
    → All Consistent m.threads
    → get_elem? m.threads i ≡ some th
    → th.core.status ≡ running
    → ((s : Step) → r ≡ some s → Effect th.core m.vm s)
    → advance m.threads i r ≡ some m'
    → Kept m m'
advance-Kept m i th none h g st eff e = cc
advance-Kept m i th (some s) h g st eff e = subst (Kept m) (some_inj e) (
  All-set Consistent m.threads i _ h consistent,
  map-set m.threads i th _ g x.same_pid,
  x.same_end,
)
  where
    x : Effect th.core m.vm s
    x = eff s refl

    consistent : Consistent (record { core = s.core; active = s.success; fetched = none })
    consistent = elim x.graded [ inl (a, b) ↦ inl (a, b ∙ st) | inr p ↦ inr p ]

fetch-Kept :
    (m : Machine) (i : ℕ) (th : Thread) (r : Option ℕ) {m' : Machine}
    → All Consistent m.threads
    → get_elem? m.threads i ≡ some th
    → fetch i m th r ≡ some m'
    → Kept m m'
fetch-Kept m i th none h g e = cc
fetch-Kept m i th (some word) h g e = subst (Kept m) (some_inj e) (
  All-set Consistent m.threads i _ h (All-get Consistent m.threads i h g),
  map-set m.threads i th _ g refl,
  refl,
)

act-Kept :
    (f : FloatUnit) (m : Machine) (i : ℕ) (th : Thread) (fetched : Option ℕ) {m' : Machine}
    → All Consistent m.threads
    → get_elem? m.threads i ≡ some th
    → th.core.status ≡ running
    → act f i m th fetched ≡ some m'
    → Kept m m'
act-Kept f m i th none h g st e = fetch-Kept m i th (fetch_word (th.core.reg pc) m.vm) h g e
act-Kept f m i th (some word) h g st e =
    advance-Kept m i th (execute_word f word th.core m.vm) h g st
      (execute_word-Effect f word th.core m.vm) e

when_active :
    (f : FloatUnit) (i : ℕ) (m : Machine) (th : Thread) {m' : Machine}
    → th.active ≡ true
    → turn f i m (some th) ≡ some m'
    → act f i m th th.fetched ≡ some m'
when_active f i m th {m'} a e =
    subst (λ b. (if b then act f i m th th.fetched else some m) ≡ some m') a e

turn-Kept :
    (f : FloatUnit) (i : ℕ) (m : Machine) (o : Option Thread) {m' : Machine}
    → All Consistent m.threads
    → get_elem? m.threads i ≡ o
    → turn f i m o ≡ some m'
    → Kept m m'
turn-Kept f i m none h g e = subst (Kept m) (some_inj e) (h, refl, refl)
turn-Kept f i m (some th) h g e = elim (All-get Consistent m.threads i h g) [
  | inl (a, st) ↦ act-Kept f m i th th.fetched h g st (when_active f i m th a e)
  | inr (a, st) ↦ subst (Kept m) (some_inj (rw a at e)) (h, refl, refl)
]

run_schedule-Kept :
    (f : FloatUnit) (is : List ℕ) (m : Machine) {m' : Machine}
    → All Consistent m.threads
    → run_schedule f is m ≡ some m'
    → Kept m m'
unfolding run_schedule step_thread
run_schedule-Kept f [] m h e = subst (Kept m) (some_inj e) (h, refl, refl)
run_schedule-Kept f (i ∷ is) m h e = elim (Option-cases (step_thread f i m)) [
  | inl stuck ↦ absurd (ground arith)
  | inr (m1, e1) ↦
      let a = turn-Kept f i m (get_elem? m.threads i) h refl e1 in
      let b = run_schedule-Kept f is m1 a.0 (rw (e1, run_schedule) at e) in
      (b.0, b.1 ∙ a.1, b.2 ∙ a.2)
]

-- The pids that `execute` gives out, from the first on.
abbrev numbered : ℕ → List ℕ → List ℕ
numbered i [] = []
numbered i (s ∷ ss) = i ∷ numbered (suc i) ss

start_threads-Consistent :
    (i : ℕ) (sps : List ℕ) (vm : Vm)
    → All Consistent (start_threads i sps vm)
      × (map (λ th. th.core.pid) (start_threads i sps vm) ≡ numbered i sps)
unfolding start_threads enter init_core
start_threads-Consistent i [] vm = (tt, refl)
start_threads-Consistent i (s ∷ ss) vm =
    let rest = start_threads-Consistent (suc i) ss vm in
    ((inl (refl, refl), rest.0), ap (◌∷◌ i) rest.1)

-- However the fetches and the instructions of the cores are interleaved, core number i keeps the pid i, the
-- boundary of the program stays where it is, and a thread that has ended has stored one of the
-- four termination statuses, while one that has not still has the status 1 that it started with.
pub execute-Consistent :
    (f : FloatUnit) (sps : List ℕ) (n : ℕ) (vm : Vm) (is : List ℕ) {m m' : Machine}
    → start sps n vm ≡ some m
    → run_schedule f is m ≡ some m'
    → All Consistent m'.threads
      × (map (λ th. th.core.pid) m'.threads ≡ numbered 0 sps)
      × (m'.vm.prog_end ≡ vm.prog_end)
unfolding start
execute-Consistent f sps n vm is {m} e r = elim (Bool-cases (ltb max_processors n)) [
  | inl many ↦ absurd (ground arith)
  | inr few ↦
      let vm' : Vm = record vm { num_processors = n } in
      let same = some_inj (rw few at e) in
      let s = start_threads-Consistent 0 sps vm' in
      let k =
        run_schedule-Kept f is m (subst (λ (x : Machine). All Consistent x.threads) same s.0) r in
      (
        k.0,
        k.1 ∙ ap (λ (x : Machine). map (λ th. th.core.pid) x.threads) (sym same) ∙ s.1,
        k.2 ∙ ap (λ (x : Machine). x.vm.prog_end) (sym same),
      )
]

advance-other :
    (threads : List Thread) (i j : ℕ) (r : Option Step) {m' : Machine}
    → i ≢ j
    → advance threads i r ≡ some m'
    → get_elem? m'.threads j ≡ get_elem? threads j
advance-other threads i j none ne e = cc
advance-other threads i j (some s) ne e =
    subst (λ (x : Machine). get_elem? x.threads j ≡ get_elem? threads j) (some_inj e)
      (get_elem?-set_ne threads i j _ ne)

fetch-other :
    (i j : ℕ) (m : Machine) (th : Thread) (r : Option ℕ) {m' : Machine}
    → i ≢ j
    → fetch i m th r ≡ some m'
    → get_elem? m'.threads j ≡ get_elem? m.threads j
fetch-other i j m th none ne e = cc
fetch-other i j m th (some word) ne e =
    subst (λ (x : Machine). get_elem? x.threads j ≡ get_elem? m.threads j) (some_inj e)
      (get_elem?-set_ne m.threads i j _ ne)

act-other :
    (f : FloatUnit) (i j : ℕ) (m : Machine) (th : Thread) (fetched : Option ℕ) {m' : Machine}
    → i ≢ j
    → act f i m th fetched ≡ some m'
    → get_elem? m'.threads j ≡ get_elem? m.threads j
act-other f i j m th none ne e = fetch-other i j m th (fetch_word (th.core.reg pc) m.vm) ne e
act-other f i j m th (some word) ne e = advance-other m.threads i j _ ne e

turn-other :
    (f : FloatUnit) (i j : ℕ) (m : Machine) (o : Option Thread) {m' : Machine}
    → i ≢ j
    → turn f i m o ≡ some m'
    → get_elem? m'.threads j ≡ get_elem? m.threads j
turn-other f i j m none ne e = ap (λ (x : Machine). get_elem? x.threads j) (sym (some_inj e))
turn-other f i j m (some th) ne e = elim (Bool-cases th.active) [
  | inl a ↦ act-other f i j m th th.fetched ne (when_active f i m th a e)
  | inr a ↦ ap (λ (x : Machine). get_elem? x.threads j) (sym (some_inj (rw a at e)))
]

-- Cores share nothing but the machine: a step of one leaves the registers, the status and the
-- stack base of every other as they were.
pub step_thread-other :
    (f : FloatUnit) (i j : ℕ) (m : Machine) {m' : Machine}
    → i ≢ j
    → step_thread f i m ≡ some m'
    → get_elem? m'.threads j ≡ get_elem? m.threads j
unfolding step_thread
step_thread-other f i j m ne e = turn-other f i j m (get_elem? m.threads i) ne e
