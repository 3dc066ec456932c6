-- ===== src/Threads/Sound.antt =====
-- What every call of A3/thread.c keeps: the queue of a free mutex is empty, a locked mutex has an
-- owner, and the table of threads is in order.
use unh_cs.Common.{
  true-false, some-none, ℕ, ◌≡◌, refl, sym, ◌∙◌, inl, inr, ◌≢◌, Bool, true, false, Option, none,
  some, List, [], ◌∷◌, ◌++◌, ◌==◌, not, update, Bool-cases, some_inj,
}
use mathlib.Core.Path.{subst}
use unh_cs.Threads.State.{
  System, Tcb, Mutex, waiting, is_working, pure, follow, set_tcb, set_mutex, load_tcb,
}
use unh_cs.Threads.Order.{IsTable}
use unh_cs.Threads.Yield.{yield_from, thread_yield}
use unh_cs.Threads.Mutex.{
  thread_mutex_init, acquire, owned_by, wait_for, lock_mutex, thread_mutex_lock, pass_on,
  unlock_mutex, thread_mutex_unlock,
}
use unh_cs.Threads.Holds.{
  Holds, Holds-follow, Holds-load_tcb, Holds-load_mutex, Holds-if, Holds-some,
}

pub record IsMutex (m : Mutex) : Type 0 where
  pub free : m.locked ≡ false → m.q ≡ []
  pub owned : m.locked ≡ true → m.owner ≢ none

pub record IsSound (s : System) : Type 0 where
  pub mutexes : (p : ℕ) (m : Mutex) → s.mutex p ≡ some m → IsMutex m
  pub table : IsTable s.table

update-IsMutex :
    (f : ℕ → Option Mutex) (p : ℕ) (m : Mutex)
    → IsMutex m
    → ((q : ℕ) (n : Mutex) → f q ≡ some n → IsMutex n)
    → (q : ℕ) (n : Mutex) → update f p (some m) q ≡ some n
    → IsMutex n
update-IsMutex f p m h hf q n e = elim (Bool-cases (p == q)) [
  | inl hit ↦ subst IsMutex (some_inj (rw hit at e)) h
  | inr miss ↦ hf q n (rw miss at e)
]

pub set_mutex-IsSound :
    (p : ℕ) (m : Mutex) (s : System) → IsMutex m → IsSound s → IsSound (set_mutex p m s)
set_mutex-IsSound p m s hm h = record {
  mutexes = update-IsMutex s.mutex p m hm h.mutexes;
  table = h.table;
}

-- A change that leaves the mutexes and the table alone.
pub same-IsSound :
    {s s' : System} → IsSound s → s'.mutex ≡ s.mutex → s'.table ≡ s.table → IsSound s'
same-IsSound {s} {s'} h em et = record {
  mutexes = subst (λ f. (p : ℕ) (m : Mutex) → f p ≡ some m → IsMutex m) (sym em) h.mutexes;
  table = subst IsTable (sym et) h.table;
}

pub yield_from-IsSound :
    (old : ℕ) (t : Tcb) (ready : List ℕ) (s : System)
    → IsSound s
    → Holds IsSound (yield_from old t ready s)
unfolding yield_from load_tcb
yield_from-IsSound old t [] s h =
    Holds-if IsSound (is_working t.status) _ _ (λ _. same-IsSound h refl refl) (λ _. tt)
yield_from-IsSound old t (next ∷ rest) s h = Holds-some IsSound (s.tcb next) _ λ n _.
    Holds-if IsSound (is_working n.status) _ _ (λ _. same-IsSound h refl refl)
      (λ _. yield_from-IsSound old t rest s h)

pub thread_yield-IsSound : (s : System) → IsSound s → Holds IsSound (thread_yield s)
unfolding thread_yield
thread_yield-IsSound s h =
    Holds-load_tcb IsSound s.current s _ λ t _. yield_from-IsSound s.current t s.ready_list s h

-- Giving up control at the end of a call.
pub yielding-IsSound :
    {A : Type 0} (a : A) (s : System)
    → IsSound s
    → Holds IsSound (follow (thread_yield s) (λ _. pure a))
yielding-IsSound a s h =
    Holds-follow IsSound (thread_yield s) (λ _. pure a) (thread_yield-IsSound s h) λ _ s1 h1. h1

pub thread_mutex_init-IsSound :
    (p : Option ℕ) (s : System) → IsSound s → Holds IsSound (thread_mutex_init p s)
unfolding thread_mutex_init
thread_mutex_init-IsSound none s h = h
thread_mutex_init-IsSound (some p) s h =
    same-IsSound
      (set_mutex-IsSound p (record { owner = none; q = []; locked = false }) s
        (record { free = λ _. refl; owned = λ e. absurd (true-false (sym e)) }) h)
      refl refl

pub acquire-IsSound :
    (p : ℕ) (m : Mutex) (tid : ℕ) (s : System) → IsSound s → IsSound (acquire p m tid s)
unfolding acquire
acquire-IsSound p m tid s h =
    set_mutex-IsSound p (record m { locked = true; owner = some tid }) s
      (record { free = λ e. absurd (true-false e); owned = λ _ e. some-none e }) h

-- A longer queue on a mutex that is locked.
pub queued-IsMutex :
    (m : Mutex) (q : List ℕ) → m.locked ≡ true → IsMutex m → IsMutex (record m { q = q })
queued-IsMutex m q locked h = record {
  free = λ e. absurd (true-false (sym locked ∙ e));
  owned = h.owned;
}

pub not-false : (b : Bool) → not b ≡ false → b ≡ true
not-false true e = refl
not-false false e = sym e

pub thread_mutex_lock-IsSound :
    (p : Option ℕ) (s : System) → IsSound s → Holds IsSound (thread_mutex_lock p s)
unfolding thread_mutex_lock lock_mutex wait_for
thread_mutex_lock-IsSound none s h = h
thread_mutex_lock-IsSound (some p) s h = Holds-load_mutex IsSound p s _ λ m em.
    Holds-load_tcb IsSound s.current s _ λ t et.
      Holds-if IsSound (not m.locked) _ _ (λ _. acquire-IsSound p m t.tid s h)
        λ locked.
          Holds-if IsSound (owned_by m t.tid) _ _ (λ _. h)
            λ _. yielding-IsSound 1 _ (
              set_mutex-IsSound p (record m { q = m.q ++ s.current ∷ [] })
                (set_tcb s.current (some (record t { status = waiting })) s)
                (queued-IsMutex m (m.q ++ s.current ∷ []) (not-false m.locked locked)
                  (h.mutexes p m em))
                (same-IsSound h refl refl))

pass_on-IsSound :
    (p : ℕ) (m : Mutex) (q : List ℕ) (s : System)
    → m.q ≡ q
    → m.locked ≡ true
    → IsSound s
    → Holds IsSound (pass_on p m q s)
unfolding pass_on
pass_on-IsSound p m [] s eq locked h =
    set_mutex-IsSound p (record m { locked = false }) s
      (record { free = λ _. eq; owned = λ e. absurd (true-false (sym e)) }) h
pass_on-IsSound p m (next ∷ rest) s eq locked h = Holds-load_tcb IsSound next s _ λ n en.
    same-IsSound
      (set_mutex-IsSound p (record m { owner = some n.tid; q = rest }) s
        (record { free = λ e. absurd (true-false (sym locked ∙ e)); owned = λ _ e. some-none e }) h)
      refl refl

pub thread_mutex_unlock-IsSound :
    (p : Option ℕ) (s : System) → IsSound s → Holds IsSound (thread_mutex_unlock p s)
unfolding thread_mutex_unlock unlock_mutex
thread_mutex_unlock-IsSound none s h = h
thread_mutex_unlock-IsSound (some p) s h = Holds-load_mutex IsSound p s _ λ m em.
    Holds-if IsSound (not m.locked) _ _ (λ _. h)
      λ locked. Holds-load_tcb IsSound s.current s _ λ t et.
        Holds-if IsSound (not (owned_by m t.tid)) _ _ (λ _. h)
          λ _. pass_on-IsSound p m m.q s refl (not-false m.locked locked) h
