-- ===== src/Threads/Handoff.antt =====
-- A mutex of A3/thread.c that goes from its owner to a thread that waits for it.
use unh_cs.Common.{
  ℕ, ◌≡◌, refl, sym, ap, ◌∙◌, fun_ext, ◌≢◌, inl, inr, Bool, true, false, Option, none, some, List,
  [], ◌∷◌, ◌++◌, ◌==◌, if◌then◌else◌, update, Bool-cases, update_self, update_other, eq_test,
  ne_test, ==_iff,
}
use unh_cs.Threads.State.{
  System, Tcb, Mutex, working, waiting, is_working, value, pure, follow, set_tcb, set_mutex,
  load_tcb, load_mutex,
}
use unh_cs.Threads.Yield.{yield_from, thread_yield}
use unh_cs.Threads.Mutex.{
  owned_by, wait_for, lock_mutex, thread_mutex_lock, pass_on, unlock_mutex, thread_mutex_unlock,
}

-- The owner unlocks, and another thread is the first to wait.
unlock_waited :
    (p next : ℕ) (rest : List ℕ) (m : Mutex) (t n : Tcb) (s : System)
    → s.mutex p ≡ some m
    → s.tcb s.current ≡ some t
    → s.tcb next ≡ some n
    → m.locked ≡ true
    → m.owner ≡ some t.tid
    → m.q ≡ next ∷ rest
    → thread_mutex_unlock (some p) s
      ≡ value 1
          (record (set_mutex p
            (record m { owner = some n.tid; q = rest })
            (set_tcb next (some (record n { status = working })) s)) {
              ready_list = s.ready_list ++ next ∷ [];
            })
unfolding thread_mutex_unlock unlock_mutex pass_on load_mutex load_tcb
unlock_waited p next rest m t n s em et en locked owner queue =
    rw (em, et, locked, owner, eq_test t.tid t.tid refl, queue, en) refl

-- Control goes to the next ready thread that is working; a thread that waits is not ready again.
yield_first :
    (old : ℕ) (t n : Tcb) (next : ℕ) (rest : List ℕ) (s : System)
    → s.tcb next ≡ some n
    → is_working t.status ≡ false
    → is_working n.status ≡ true
    → yield_from old t (next ∷ rest) s ≡ value tt (record s { current = next; ready_list = rest })
unfolding yield_from
yield_first old t n next rest s en waits works = rw (en, yield_from, works, waits) refl

yield_to :
    (t n : Tcb) (next : ℕ) (rest : List ℕ) (s : System)
    → s.tcb s.current ≡ some t
    → s.tcb next ≡ some n
    → is_working t.status ≡ false
    → is_working n.status ≡ true
    → s.ready_list ≡ next ∷ rest
    → thread_yield s ≡ value tt (record s { current = next; ready_list = rest })
unfolding thread_yield load_tcb
yield_to t n next rest s et en waits works ready = rw et (
    ap (λ q. yield_from s.current t q s) ready
    ∙ yield_first s.current t n next rest s en waits works)

lock_yields :
    (p : ℕ) (m : Mutex) (t : Tcb) (s : System)
    → s.mutex p ≡ some m
    → s.tcb s.current ≡ some t
    → m.locked ≡ true
    → owned_by m t.tid ≡ false
    → thread_mutex_lock (some p) s ≡ follow (thread_yield (wait_for p m t s)) (λ _. pure 1)
unfolding thread_mutex_lock lock_mutex load_mutex load_tcb
lock_yields p m t s em et locked owner = rw (em, et, locked, owner) refl

-- A thread asks for a mutex that another thread owns, and the next ready thread is working.
lock_waits :
    (p next : ℕ) (rest : List ℕ) (m : Mutex) (t n : Tcb) (s : System)
    → s.mutex p ≡ some m
    → s.tcb s.current ≡ some t
    → s.tcb next ≡ some n
    → s.current ≢ next
    → m.locked ≡ true
    → owned_by m t.tid ≡ false
    → is_working n.status ≡ true
    → s.ready_list ≡ next ∷ rest
    → thread_mutex_lock (some p) s
      ≡ value 1 (record (wait_for p m t s) { current = next; ready_list = rest })
unfolding wait_for is_working
lock_waits p next rest m t n s em et en ne locked owner works ready =
    lock_yields p m t s em et locked owner
    ∙ ap (λ o. follow o (λ _. pure 1))
        (yield_to (record t { status = waiting }) n next rest (wait_for p m t s)
          (update_self s.tcb s.current (some (record t { status = waiting })))
          (update_other s.tcb s.current (some (record t { status = waiting })) next ne ∙ en) refl
          works ready)

-- The second of two writes to a cell stays.
update_twice : {A : Type 0} (f : ℕ → A) (p : ℕ) (x y : A) → update (update f p x) p y ≡ update f p y
update_twice {A} f p x y = fun_ext λ q. twice (f q) (p == q)
  where
    twice : (z : A) (b : Bool) → (if b then y else (if b then x else z)) ≡ (if b then y else z)
    twice z true = refl
    twice z false = refl

-- Writing what the cell holds.
update_same : {A : Type 0} (f : ℕ → A) (p : ℕ) (x : A) → f p ≡ x → update f p x ≡ f
update_same f p x e = fun_ext λ q. elim (Bool-cases (p == q)) [
  | inl hit ↦ rw hit (sym e ∙ ap f ((==_iff p q).0 hit))
  | inr miss ↦ rw miss refl
]

-- A working thread asks for a mutex that another thread owns and that nobody waits for, and control
-- goes to the owner, the next ready thread, which unlocks the mutex: both calls succeed, and the
-- mutex, still locked, then belongs to the thread that asked, which is the last of the ready
-- threads; nothing else has changed but the current thread.
pub thread_mutex_unlock-lock :
    (p owner : ℕ) (rest : List ℕ) (m : Mutex) (t n : Tcb) (s : System)
    → s.mutex p ≡ some m
    → s.tcb s.current ≡ some t
    → s.tcb owner ≡ some n
    → s.current ≢ owner
    → m.locked ≡ true
    → m.owner ≡ some n.tid
    → n.tid ≢ t.tid
    → m.q ≡ []
    → t.status ≡ working
    → is_working n.status ≡ true
    → s.ready_list ≡ owner ∷ rest
    → follow (thread_mutex_lock (some p) s) (λ _. thread_mutex_unlock (some p))
      ≡ value 1 (record s {
        current = owner;
        ready_list = rest ++ s.current ∷ [];
        mutex = update s.mutex p (some (record m { owner = some t.tid }));
      })
unfolding wait_for
thread_mutex_unlock-lock p owner rest m t n s em et en ne locked own other empty wt works ready =
    let tw : Tcb = record t { status = waiting } in
    let mq : Mutex = record m { q = m.q ++ s.current ∷ [] } in
    let not_mine : owned_by m t.tid ≡ false =
      ap (λ o. elim o [ none ↦ false | some k ↦ k == t.tid ]) own ∙ ne_test n.tid t.tid other in
    let s1 : System = record (wait_for p m t s) { current = owner; ready_list = rest } in
    let result : (ℕ → Option Tcb) → (ℕ → Option Mutex) → System = λ f g. record s {
      current = owner;
      ready_list = rest ++ s.current ∷ [];
      tcb = f;
      mutex = g;
    } in
    ap (λ o. follow o (λ _. thread_mutex_unlock (some p)))
      (lock_waits p owner rest m t n s em et en ne locked not_mine works ready)
    ∙ unlock_waited p s.current [] mq n tw s1 (update_self s.mutex p (some mq))
        (update_other s.tcb s.current (some tw) owner ne ∙ en)
        (update_self s.tcb s.current (some tw)) locked own (ap (λ q. q ++ s.current ∷ []) empty)
    ∙ ap
        (λ f. value 1 (
          result f (
            update (update s.mutex p (some mq)) p
              (some (record mq { owner = some t.tid; q = [] })))))
        (update_twice s.tcb s.current (some tw) (some (record t { status = working }))
          ∙ update_same s.tcb s.current (some (record t { status = working }))
              (et ∙ ap (λ w. some (record t { status = w })) wt))
    ∙ ap (λ g. value 1 (result s.tcb g))
        (update_twice s.mutex p (some mq) (some (record mq { owner = some t.tid; q = [] }))
          ∙ ap (λ q. update s.mutex p (some (record m { owner = some t.tid; q = q }))) (sym empty))
