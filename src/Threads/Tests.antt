-- ===== src/Threads/Tests.antt =====
-- Runs of the model of A3/thread.c and A3/thread_table.c, and the theorems at concrete systems.
use unh_cs.Common.{
  ℕ, ◌≡◌, refl, ◌≢◌, ◌⊎◌, ◌+◌, ◌-◌, true, false, Option, none, some, List, [], ◌∷◌, ltb,
  if◌then◌else◌, update, arith,
}
use unh_cs.Threads.State.{
  System, Tcb, Table, is_working, working, value, exited, fault, unfinished, set_tcb, follow,
  Outcome,
}
use unh_cs.Threads.Lifetime.{init, thread_create}
use unh_cs.Threads.Yield.{thread_yield}
use unh_cs.Threads.Table.{init_table, put_tcb, get_tcb_by_id, remove_tcb, removed, not_found}
use unh_cs.Threads.Order.{IsTable, get_tcb_by_id-put_tcb, remove_tcb-find}
use unh_cs.Threads.Join.{
  answer, is_dangling, observer_of, tid_of, detect_deadlock, enrol, thread_join,
}
use unh_cs.Threads.Chain.{Endless, walk}
use unh_cs.Threads.Deadlock.{
  waiters, detect_deadlock-Endless, detect_deadlock-ended, detect_deadlock-cycle,
}
use unh_cs.Threads.Refused.{thread_join-deadlock}
use unh_cs.Threads.Mutex.{thread_mutex_init, thread_mutex_lock, thread_mutex_unlock}
use unh_cs.Threads.Handoff.{thread_mutex_unlock-lock}
use unh_cs.Threads.History.{
  Block, Request, yield, create, mutex_init, mutex_lock, mutex_unlock, run_requests, boot,
}

abbrev tcb_with : ℕ → Option ℕ → Tcb
tcb_with tid observer = record {
  stack = true;
  tid = tid;
  status = working;
  observer = observer;
  handle = some tid;
}

abbrev two : Table
two = record {
  handles = record { id = 1; tcb = 11 } ∷ record { id = 0; tcb = 10 } ∷ [];
  max_id = 2;
  size = 2;
}

two-IsTable : IsTable two
two-IsTable = record { sorted = (omega arith, (omega arith, tt)); counted = refl }

abbrev bare : Tcb
bare = record { stack = true; tid = 9; status = working; observer = none; handle = none }

abbrev three : Table
three = record {
  handles =
      record { id = 2; tcb = 12 } ∷ record { id = 1; tcb = 11 } ∷ record { id = 0; tcb = 10 } ∷ [];
  max_id = 3;
  size = 3;
}

get_tcb_by_id-put_tcb_example :
    IsTable three
    × ◌≡◌ {A = ℕ} 2 2
    × (get_tcb_by_id three 2 ≡ some 12)
    × ((target : ℕ) → target ≢ 2 → get_tcb_by_id three target ≡ get_tcb_by_id two target)
unfolding put_tcb
get_tcb_by_id-put_tcb_example =
    get_tcb_by_id-put_tcb two 12 bare {t' = three} {tcb' = record bare { tid = 2; handle = some 2 }}
      two-IsTable refl

remove_tcb-find_example :
    ((remove_tcb (some two) (some (tcb_with 1 none)) ≡ not_found) × (get_tcb_by_id two 1 ≡ none))
    ⊎ ((t' : Table) × (remove_tcb (some two) (some (tcb_with 1 none))
          ≡ removed t' (record (tcb_with 1 none) { handle = none }))
        × IsTable t'
        × ((p : ℕ) × (get_tcb_by_id two 1 ≡ some p))
        × (get_tcb_by_id t' 1 ≡ none)
        × ((other : ℕ) → other ≢ 1 → get_tcb_by_id t' other ≡ get_tcb_by_id two other))
remove_tcb-find_example = remove_tcb-find two (tcb_with 1 none) 1 two-IsTable refl

abbrev system_of : (ℕ → Option ℕ) → System
system_of observers = record boot {
  ready = true;
  tcb = λ p. some (tcb_with p (observers p));
  table = record {
    handles = record { id = 1; tcb = 1 } ∷ record { id = 0; tcb = 0 } ∷ [];
    max_id = 2;
    size = 2;
  };
}

-- Threads 0 and 1 wait for each other.
abbrev ring : System
ring = system_of (λ p. some (1 - p))

detect_deadlock-Endless_example : Endless (observer_of ring) (some 0)
unfolding tid_of detect_deadlock
detect_deadlock-Endless_example = detect_deadlock-Endless 2 ring (λ i j a b ea eb e. e) refl

detect_deadlock-cycle_example : detect_deadlock 5 ring ≡ answer true
unfolding observer_of walk
detect_deadlock-cycle_example = detect_deadlock-cycle 5 2 ring (omega arith) (omega arith) refl

-- Thread 1 waits for thread 0, and thread 2 for thread 1.
abbrev line : System
line = system_of (λ p. if ltb p 2 then some (p + 1) else none)

all_live : (observers : ℕ → Option ℕ) (o : Option ℕ) → is_dangling (system_of observers) o ≡ false
unfolding is_dangling
all_live observers none = refl
all_live observers (some p) = refl

line-live : (k : ℕ) → is_dangling line (waiters line k) ≡ false
line-live k = all_live (λ p. if ltb p 2 then some (p + 1) else none) (waiters line k)

detect_deadlock-ended_example : detect_deadlock 4 line ≡ answer false
unfolding observer_of walk tid_of
detect_deadlock-ended_example =
    detect_deadlock-ended 4 3 line (λ i j a b ea eb e. e) line-live refl (omega arith)

-- Thread 1 waits for thread 0, which asks to join it.
abbrev closing : System
closing = system_of (λ p. if ltb p 1 then some 1 else none)

abbrev closed : System
closed = set_tcb 1 (some (tcb_with 1 none)) (
    set_tcb 0 (some (tcb_with 0 (some 1)))
      (enrol 0 (tcb_with 0 (some 1)) 1 (tcb_with 1 none) closing))

thread_join-deadlock_example : closed ≡ closing
unfolding thread_join enrol get_tcb_by_id detect_deadlock
thread_join-deadlock_example =
    thread_join-deadlock 4 1 closing (tcb_with 0 (some 1)) {s' = closed} refl refl refl

-- Thread 0 asks for the mutex at 7, which thread 1 owns.
abbrev contended : System
contended = record (system_of (λ p. none)) {
  ready_list = 1 ∷ 2 ∷ [];
  mutex = update (λ p. none) 7 (some (record { owner = some 1; q = []; locked = true }));
}

thread_mutex_unlock-lock_example :
    follow (thread_mutex_lock (some 7) contended) (λ _. thread_mutex_unlock (some 7))
    ≡ value 1 (record contended {
      current = 1;
      ready_list = 2 ∷ 0 ∷ [];
      mutex = update contended.mutex 7 (some (record { owner = some 0; q = []; locked = true }));
    })
unfolding is_working
thread_mutex_unlock-lock_example =
    thread_mutex_unlock-lock 7 1 (2 ∷ []) (record { owner = some 1; q = []; locked = true })
      (tcb_with 0 none) (tcb_with 1 none) contended refl refl refl (omega arith) refl refl
      (omega arith) refl refl refl refl

abbrev block : ℕ → Block
block p = record { address = p; contents = bare }

-- The main thread holds a mutex while the thread that it has created asks for it.
abbrev program : List (Block × Request)
program =
    (block 1, create (block 2))
    ∷ (block 1, mutex_init (some 7))
    ∷ (block 1, mutex_lock (some 7))
    ∷ (block 1, yield)
    ∷ (block 1, mutex_lock (some 7))
    ∷ (block 1, mutex_unlock (some 7))
    ∷ []

abbrev ready_of : Outcome (Unit {0}) → List ℕ
ready_of o = elim o [ value _ s ↦ s.ready_list | exited ↦ [] | fault ↦ [] | unfinished ↦ [] ]

run_program : ready_of (run_requests program boot) ≡ 2 ∷ []
unfolding run_requests init put_tcb thread_create thread_mutex_init thread_mutex_lock thread_yield
    init_table thread_mutex_unlock
run_program = refl
