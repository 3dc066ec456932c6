-- ===== src/Threads/Cond.antt =====
-- thread_cond_init, thread_cond_wait and thread_cond_signal of A3/thread.c.
use unh_cs.Common.{ℕ, Option, none, some, List, [], ◌∷◌, ◌++◌, ◌==◌, not, if◌then◌else◌}
use unh_cs.Threads.State.{
  CondInfo, working, waiting, value, Call, pure, ◌>>◌, follow, load_tcb, load_mutex, load_cond,
  set_tcb, set_mutex, set_cond,
}
use unh_cs.Threads.Yield.{thread_yield}
use unh_cs.Threads.Mutex.{owned_by, acquire, thread_mutex_unlock}

unfoldable pub thread_cond_init : Option ℕ → Call ℕ
thread_cond_init none s = value 0 s
thread_cond_init (some p) s = value 1 (record (set_cond p [] s) { conds = s.conds ++ p ∷ [] })

-- The current thread made to wait at the end of the queue of the condition, and control given up.
unfoldable pub block_on : ℕ → ℕ → Call ℕ
unfolding load_tcb load_cond
block_on c p s = follow (load_tcb s.current s) λ t s1. follow (load_cond c s1) λ q s2.
    (thread_yield >> pure 1) (
      set_cond c (q ++ record { thread = s2.current; mutex = p } ∷ [])
        (set_tcb s2.current (some (record t { status = waiting })) s2))

unfoldable pub thread_cond_wait : Option ℕ → Option ℕ → Call ℕ
unfolding block_on load_tcb load_mutex
thread_cond_wait none mutex s = value 0 s
thread_cond_wait (some c) none s = value 0 s
thread_cond_wait (some c) (some p) s = follow (load_mutex p s) λ m s1.
    if not m.locked
    then value 0 s1
    else (follow (load_tcb s1.current s1) λ t s2.
        if not (owned_by m t.tid)
        then value 0 s2
        else (follow (thread_mutex_unlock (some p) s2)
            λ r s3. if r == 0 then value 0 s3 else block_on c p s3))

-- A thread that has been signalled contends for its mutex.
unfoldable pub contend : CondInfo → Call ℕ
unfolding acquire load_tcb load_mutex
contend info s = follow (load_mutex info.mutex s) λ m s1.
    if not m.locked
    then (follow (load_tcb info.thread s1) λ t s2.
        value 1
          (record (set_tcb info.thread (some (record t { status = working }))
            (acquire info.mutex m t.tid s2)) { ready_list = s2.ready_list ++ info.thread ∷ [] }))
    else value 1 (set_mutex info.mutex (record m { q = m.q ++ info.thread ∷ [] }) s1)

unfoldable pub signal_first : ℕ → List CondInfo → Call ℕ
unfolding contend
signal_first c [] s = value 1 s
signal_first c (info ∷ rest) s = contend info (set_cond c rest s)

unfoldable pub thread_cond_signal : Option ℕ → Call ℕ
unfolding signal_first load_cond
thread_cond_signal none s = value 0 s
thread_cond_signal (some c) s = follow (load_cond c s) λ q s1. signal_first c q s1
