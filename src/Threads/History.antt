-- ===== src/Threads/History.antt =====
-- Programs over the interface of A3/thread.h, one call after another, each with its
-- `if (!ready) init ()`. thread_mutex_lock and thread_mutex_unlock have it in thread_self, which they
-- call for a mutex that is not NULL, and for unlocking is locked.
use unh_cs.Common.{some, Bool, ℕ, refl, false, Option, none, List, [], ◌∷◌, if◌then◌else◌}
use unh_cs.Threads.State.{System, Tcb, value, Call, follow}
use unh_cs.Threads.Yield.{thread_yield, thread_self}
use unh_cs.Threads.Join.{thread_join}
use unh_cs.Threads.Mutex.{thread_mutex_init, thread_mutex_lock, thread_mutex_unlock}
use unh_cs.Threads.Cond.{thread_cond_init, thread_cond_wait, thread_cond_signal}
use unh_cs.Threads.Lifetime.{init, thread_create, thread_terminate, thread_cleanup}
use unh_cs.Threads.Holds.{Holds, Holds-follow, Holds-load_tcb, Holds-if}
use unh_cs.Threads.Sound.{
  IsSound, thread_yield-IsSound, thread_mutex_init-IsSound, thread_mutex_lock-IsSound,
  thread_mutex_unlock-IsSound,
}
use unh_cs.Threads.Kept.{
  thread_cond_init-IsSound, thread_cond_wait-IsSound, thread_cond_signal-IsSound,
  thread_join-IsSound,
}
use unh_cs.Threads.Ended.{
  init-IsSound, thread_create-IsSound, thread_terminate-IsSound, thread_cleanup-IsSound,
}

-- What `malloc` gives: an address, and what the block there holds.
pub record Block : Type 0 where
  pub address : ℕ
  pub contents : Tcb

-- A call, with the block for the TCB of a new thread, and the fuel of the search for a deadlock.
pub data Request : Type 0 where
  yield self terminate cleanup : Request
  create : Block → Request
  join : (fuel id : ℕ) → Request
  mutex_init mutex_lock mutex_unlock cond_init cond_signal : Option ℕ → Request
  cond_wait : Option ℕ → Option ℕ → Request

-- `if (!ready) init ();` before the rest of a call, with the block for the TCB of the main thread.
unfoldable pub started : {A : Type 0} → Block → Call A → Call A
started main c s =
    if s.ready then c s else follow (init main.address main.contents s) (λ _ s1. c s1)

-- The result of a call is dropped.
unfoldable pub drop : {A : Type 0} → Call A → Call (Unit {0})
drop c s = follow (c s) λ _ s1. value tt s1

-- Whether thread_mutex_unlock gets as far as thread_self.
unfoldable pub is_locked : Option ℕ → System → Bool
is_locked none s = false
is_locked (some p) s = elim (s.mutex p) [ none ↦ false | some m ↦ m.locked ]

unfoldable pub unlock_started : Block → Option ℕ → Call (Unit {0})
unfolding started drop is_locked
unlock_started main p s =
    if is_locked p s
    then started main (drop (thread_mutex_unlock p)) s
    else drop (thread_mutex_unlock p) s

unfoldable pub perform : Block → Request → Call (Unit {0})
unfolding started drop unlock_started
perform main yield = started main thread_yield
perform main self = started main (drop thread_self)
perform main terminate = thread_terminate
perform main cleanup = thread_cleanup
perform main (create b) = started main (drop (thread_create b.address b.contents))
perform main (join fuel id) = started main (drop (thread_join fuel id))
perform main (mutex_init p) = started main (drop (thread_mutex_init p))
perform main (mutex_lock none) = drop (thread_mutex_lock none)
perform main (mutex_lock (some p)) = started main (drop (thread_mutex_lock (some p)))
perform main (mutex_unlock p) = unlock_started main p
perform main (cond_init c) = started main (drop (thread_cond_init c))
perform main (cond_signal c) = drop (thread_cond_signal c)
perform main (cond_wait c p) = drop (thread_cond_wait c p)

-- Each request comes with the block that `init` would take.
unfoldable pub run_requests : List (Block × Request) → Call (Unit {0})
unfolding perform
run_requests [] s = value tt s
run_requests ((main, r) ∷ rs) s = follow (perform main r s) λ _ s1. run_requests rs s1

-- The static variables before the first call.
abbrev pub boot : System
boot = record {
  ready = false;
  current = 0;
  ready_list = [];
  table = record { handles = []; max_id = 0; size = 0 };
  next_to_destroy = none;
  mutexes = [];
  conds = [];
  tcb = λ _. none;
  mutex = λ _. none;
  cond = λ _. none;
}

started-IsSound :
    {A : Type 0} (main : Block) (c : Call A) (s : System)
    → ((s1 : System) → IsSound s1 → Holds IsSound (c s1))
    → IsSound s
    → Holds IsSound (started main c s)
unfolding started
started-IsSound main c s keeps h =
    Holds-if IsSound s.ready _ _ (λ _. keeps s h)
      λ _.
        Holds-follow IsSound _ _ (init-IsSound main.address main.contents s h)
          λ _ s1 h1. keeps s1 h1

drop-IsSound :
    {A : Type 0} (c : Call A) (s : System) → Holds IsSound (c s) → Holds IsSound (drop c s)
unfolding drop
drop-IsSound c s h = Holds-follow IsSound (c s) _ h λ _ s1 h1. h1

started-drop-IsSound :
    {A : Type 0} (main : Block) (c : Call A) (s : System)
    → ((s1 : System) → IsSound s1 → Holds IsSound (c s1))
    → IsSound s
    → Holds IsSound (started main (drop c) s)
started-drop-IsSound main c s keeps h =
    started-IsSound main (drop c) s (λ s1 h1. drop-IsSound c s1 (keeps s1 h1)) h

thread_self-IsSound : (s : System) → IsSound s → Holds IsSound (thread_self s)
unfolding thread_self
thread_self-IsSound s h = Holds-load_tcb IsSound s.current s _ λ t _. h

unlock_started-IsSound :
    (main : Block) (p : Option ℕ) (s : System) → IsSound s → Holds IsSound (unlock_started main p s)
unfolding unlock_started
unlock_started-IsSound main p s h =
    Holds-if IsSound (is_locked p s) _ _
      (λ _. started-drop-IsSound main (thread_mutex_unlock p) s (thread_mutex_unlock-IsSound p) h)
      (λ _. drop-IsSound (thread_mutex_unlock p) s (thread_mutex_unlock-IsSound p s h))

perform-IsSound :
    (main : Block) (r : Request) (s : System) → IsSound s → Holds IsSound (perform main r s)
unfolding perform
perform-IsSound main yield s h = started-IsSound main thread_yield s thread_yield-IsSound h
perform-IsSound main self s h = started-drop-IsSound main thread_self s thread_self-IsSound h
perform-IsSound main terminate s h = thread_terminate-IsSound s h
perform-IsSound main cleanup s h = thread_cleanup-IsSound s h
perform-IsSound main (create b) s h =
    started-drop-IsSound main (thread_create b.address b.contents) s
      (thread_create-IsSound b.address b.contents) h
perform-IsSound main (join fuel id) s h =
    started-drop-IsSound main (thread_join fuel id) s (thread_join-IsSound fuel id) h
perform-IsSound main (mutex_init p) s h =
    started-drop-IsSound main (thread_mutex_init p) s (thread_mutex_init-IsSound p) h
perform-IsSound main (mutex_lock none) s h =
    drop-IsSound (thread_mutex_lock none) s (thread_mutex_lock-IsSound none s h)
perform-IsSound main (mutex_lock (some p)) s h =
    started-drop-IsSound main (thread_mutex_lock (some p)) s (thread_mutex_lock-IsSound (some p)) h
perform-IsSound main (mutex_unlock p) s h = unlock_started-IsSound main p s h
perform-IsSound main (cond_init c) s h =
    started-drop-IsSound main (thread_cond_init c) s (thread_cond_init-IsSound c) h
perform-IsSound main (cond_signal c) s h =
    drop-IsSound (thread_cond_signal c) s (thread_cond_signal-IsSound c s h)
perform-IsSound main (cond_wait c p) s h =
    drop-IsSound (thread_cond_wait c p) s (thread_cond_wait-IsSound c p s h)

run-IsSound :
    (rs : List (Block × Request)) (s : System) → IsSound s → Holds IsSound (run_requests rs s)
unfolding run_requests
run-IsSound [] s h = h
run-IsSound ((main, r) ∷ rs) s h =
    Holds-follow IsSound _ _ (perform-IsSound main r s h) λ _ s1 h1. run-IsSound rs s1 h1

-- Whatever calls are made from the start of the program: in the state that they leave, if they
-- return, the queue of each free mutex is empty, each locked mutex has an owner, and the table of
-- threads is sorted by falling id with its size counted.
pub run_requests-IsSound : (rs : List (Block × Request)) → Holds IsSound (run_requests rs boot)
run_requests-IsSound rs =
    run-IsSound rs boot
      (record { mutexes = λ p m e. cc; table = record { sorted = tt; counted = refl } })
