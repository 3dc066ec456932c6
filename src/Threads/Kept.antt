-- ===== src/Threads/Kept.antt =====
-- The calls of A3/thread.c on conditions and joins keep the system sound.
use unh_cs.Common.{
  ℕ, refl, inl, inr, true, false, Option, none, some, List, [], ◌∷◌, ◌++◌, ◌==◌, not, Option-cases,
}
use unh_cs.Threads.State.{System, Tcb, CondInfo, is_done, set_cond}
use unh_cs.Threads.Join.{
  Answer, answer, crashed, out_of_fuel, detect_deadlock, enrol, settle, joined, join_target,
  thread_join,
}
use unh_cs.Threads.Table.{get_tcb_by_id}
use unh_cs.Threads.Mutex.{owned_by, thread_mutex_unlock}
use unh_cs.Threads.Cond.{
  thread_cond_init, block_on, thread_cond_wait, contend, signal_first, thread_cond_signal,
}
use unh_cs.Threads.Holds.{
  Holds, Holds-follow, Holds-load_tcb, Holds-load_mutex, Holds-load_cond, Holds-if,
}
use unh_cs.Threads.Sound.{
  IsSound, same-IsSound, set_mutex-IsSound, acquire-IsSound, queued-IsMutex, not-false,
  yielding-IsSound, thread_mutex_unlock-IsSound,
}

pub thread_cond_init-IsSound :
    (c : Option ℕ) (s : System) → IsSound s → Holds IsSound (thread_cond_init c s)
unfolding thread_cond_init
thread_cond_init-IsSound none s h = h
thread_cond_init-IsSound (some p) s h = same-IsSound h refl refl

block_on-IsSound : (c p : ℕ) (s : System) → IsSound s → Holds IsSound (block_on c p s)
unfolding block_on
block_on-IsSound c p s h =
    Holds-load_tcb IsSound s.current s _
      λ t _. Holds-load_cond IsSound c s _ λ q _. yielding-IsSound 1 _ (same-IsSound h refl refl)

pub thread_cond_wait-IsSound :
    (c p : Option ℕ) (s : System) → IsSound s → Holds IsSound (thread_cond_wait c p s)
unfolding thread_cond_wait
thread_cond_wait-IsSound none p s h = h
thread_cond_wait-IsSound (some c) none s h = h
thread_cond_wait-IsSound (some c) (some p) s h = Holds-load_mutex IsSound p s _ λ m _.
    Holds-if IsSound (not m.locked) _ _ (λ _. h)
      λ _. Holds-load_tcb IsSound s.current s _ λ t _.
        Holds-if IsSound (not (owned_by m t.tid)) _ _ (λ _. h)
          λ _.
            Holds-follow IsSound (thread_mutex_unlock (some p) s) _
              (thread_mutex_unlock-IsSound (some p) s h)
              λ r s1 h1. Holds-if IsSound (r == 0) _ _ (λ _. h1) (λ _. block_on-IsSound c p s1 h1)

contend-IsSound : (info : CondInfo) (s : System) → IsSound s → Holds IsSound (contend info s)
unfolding contend
contend-IsSound info s h = Holds-load_mutex IsSound info.mutex s _ λ m em.
    Holds-if IsSound (not m.locked) _ _
      (λ _.
        Holds-load_tcb IsSound info.thread s _
          λ t _. same-IsSound (acquire-IsSound info.mutex m t.tid s h) refl refl)
      (λ locked.
        set_mutex-IsSound info.mutex (record m { q = m.q ++ info.thread ∷ [] }) s
          (queued-IsMutex m (m.q ++ info.thread ∷ []) (not-false m.locked locked)
            (h.mutexes info.mutex m em))
          h)

signal_first-IsSound :
    (c : ℕ) (q : List CondInfo) (s : System) → IsSound s → Holds IsSound (signal_first c q s)
unfolding signal_first
signal_first-IsSound c [] s h = h
signal_first-IsSound c (info ∷ rest) s h =
    contend-IsSound info (set_cond c rest s) (same-IsSound h refl refl)

pub thread_cond_signal-IsSound :
    (c : Option ℕ) (s : System) → IsSound s → Holds IsSound (thread_cond_signal c s)
unfolding thread_cond_signal
thread_cond_signal-IsSound none s h = h
thread_cond_signal-IsSound (some c) s h =
    Holds-load_cond IsSound c s _ λ q _. signal_first-IsSound c q s h

settle-IsSound :
    (o : Answer) (me : ℕ) (t : Tcb) (target : ℕ) (u : Tcb) (s : System)
    → IsSound s
    → Holds IsSound (settle o me t target u s)
unfolding settle
settle-IsSound out_of_fuel me t target u s h = tt
settle-IsSound crashed me t target u s h = tt
settle-IsSound (answer true) me t target u s h = same-IsSound h refl refl
settle-IsSound (answer false) me t target u s h = yielding-IsSound joined s h

join_target-IsSound :
    (fuel me : ℕ) (t : Tcb) (target : ℕ) (u : Tcb) (s : System)
    → IsSound s
    → Holds IsSound (join_target fuel me t target u s)
unfolding join_target enrol
join_target-IsSound fuel me t target u s h =
    Holds-if IsSound (is_done u.status) _ _ (λ _. yielding-IsSound joined s h)
      λ _. elim (Option-cases u.observer) [
        | inl free ↦
            rw (Holds, free)
              (settle-IsSound (detect_deadlock fuel (enrol me t target u s)) me t target u
                (enrol me t target u s) (same-IsSound h refl refl))
        | inr (o, taken) ↦ rw (Holds, taken) h
      ]

pub thread_join-IsSound :
    (fuel id : ℕ) (s : System) → IsSound s → Holds IsSound (thread_join fuel id s)
unfolding thread_join
thread_join-IsSound fuel id s h = Holds-load_tcb IsSound s.current s _ λ t _.
    Holds-if IsSound (t.tid == id) _ _ (λ _. h)
      λ _. elim (Option-cases (get_tcb_by_id s.table id)) [
        | inl missing ↦ rw (Holds, missing) h
        | inr (target, found) ↦
            rw (Holds, found)
              (Holds-load_tcb IsSound target s _ λ u _.
                Holds-if IsSound (not (u.tid == id)) _ _ (λ _. tt)
                  (λ _. join_target-IsSound fuel s.current t target u s h))
      ]
