-- ===== src/Threads/Mutex.antt =====
-- thread_mutex_init, thread_mutex_lock and thread_mutex_unlock of A3/thread.c. A pointer that is
-- NULL is `none`; the results are 0 and 1. A failed `init_queue` ends the program and is left out.
use unh_cs.Common.{
  ℕ, Bool, true, false, Option, none, some, List, [], ◌∷◌, ◌++◌, ◌==◌, not, if◌then◌else◌,
}
use unh_cs.Threads.State.{
  System, Tcb, Mutex, working, waiting, value, Call, pure, ◌>>◌, follow, load_tcb, load_mutex,
  set_tcb, set_mutex,
}
use unh_cs.Threads.Yield.{thread_yield}

unfoldable pub thread_mutex_init : Option ℕ → Call ℕ
thread_mutex_init none s = value 0 s
thread_mutex_init (some p) s =
    value 1 (record (set_mutex p (record { owner = none; q = []; locked = false }) s) {
      mutexes = s.mutexes ++ p ∷ [];
    })

-- `mutex->owner == tid`
abbrev pub owned_by : Mutex → ℕ → Bool
owned_by m tid = elim m.owner [ none ↦ false | some o ↦ o == tid ]

unfoldable pub acquire : ℕ → Mutex → ℕ → System → System
acquire p m tid s = set_mutex p (record m { locked = true; owner = some tid }) s

-- The current thread made to wait at the end of the queue of the mutex.
unfoldable pub wait_for : ℕ → Mutex → Tcb → System → System
wait_for p m t s =
    set_mutex p (record m { q = m.q ++ s.current ∷ [] })
      (set_tcb s.current (some (record t { status = waiting })) s)

unfoldable pub lock_mutex : ℕ → Mutex → Tcb → Call ℕ
unfolding acquire wait_for
lock_mutex p m t s =
    if not m.locked
    then value 1 (acquire p m t.tid s)
    else if owned_by m t.tid
    then value 0 s
    else (thread_yield >> pure 1) (wait_for p m t s)

unfoldable pub thread_mutex_lock : Option ℕ → Call ℕ
unfolding lock_mutex load_tcb load_mutex
thread_mutex_lock none s = value 0 s
thread_mutex_lock (some p) s =
    follow (load_mutex p s) λ m s1. follow (load_tcb s1.current s1) λ t s2. lock_mutex p m t s2

-- The mutex given to the first thread in its queue, or set free if there is none.
unfoldable pub pass_on : ℕ → Mutex → List ℕ → Call ℕ
unfolding load_tcb
pass_on p m [] s = value 1 (set_mutex p (record m { locked = false }) s)
pass_on p m (next ∷ rest) s = follow (load_tcb next s) λ n s1.
    value 1
      (record (set_mutex p (record m { owner = some n.tid; q = rest })
        (set_tcb next (some (record n { status = working })) s1)) {
          ready_list = s1.ready_list ++ next ∷ [];
        })

unfoldable pub unlock_mutex : ℕ → Mutex → Tcb → Call ℕ
unfolding pass_on
unlock_mutex p m t s = if not (owned_by m t.tid) then value 0 s else pass_on p m m.q s

unfoldable pub thread_mutex_unlock : Option ℕ → Call ℕ
unfolding unlock_mutex load_tcb load_mutex
thread_mutex_unlock none s = value 0 s
thread_mutex_unlock (some p) s = follow (load_mutex p s) λ m s1.
    if not m.locked
    then value 0 s1
    else follow (load_tcb s1.current s1) λ t s2. unlock_mutex p m t s2
