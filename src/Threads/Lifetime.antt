-- ===== src/Threads/Lifetime.antt =====
-- init, thread_create, destroy_thread, thread_terminate and thread_cleanup of A3/thread.c.
use unh_cs.Common.{
  ℕ, Bool, true, false, Option, none, some, List, [], ◌∷◌, ◌++◌, ◌-◌, ◌==◌, not, if◌then◌else◌,
  update,
}
use unh_cs.Threads.State.{
  Tcb, Handle, Table, working, done, value, fault, Call, follow, load_tcb, load_mutex, load_cond,
  set_tcb,
}
use unh_cs.Threads.Table.{init_table, put_tcb, removed, invalid_pointer, not_found, remove_tcb}
use unh_cs.Threads.Yield.{thread_yield}

-- The registers that thread_create sets are left to the context switch. `block` is what the block
-- from `malloc` at `fresh` holds: its fields `observer` and `handle` are not written.
unfoldable pub new_thread : ℕ → Tcb → Bool → Call Tcb
new_thread fresh block stack s =
    elim (put_tcb s.table fresh (record block { status = working; stack = stack })) [
      | none ↦ fault
      | some (table, t) ↦ value t (record (set_tcb fresh (some t) s) { table = table })
    ]

unfoldable pub init : ℕ → Tcb → Call (Unit {0})
unfolding new_thread
init fresh block s =
    follow
      (new_thread fresh block false
        (record s { ready_list = []; table = init_table; mutexes = []; conds = [] }))
      λ t s1. value tt (record s1 { current = fresh; ready = true })

unfoldable pub thread_create : ℕ → Tcb → Call ℕ
unfolding new_thread
thread_create fresh block s =
    follow (new_thread fresh block true s)
      λ t s1. value t.tid (record s1 { ready_list = s1.ready_list ++ fresh ∷ [] })

-- The table behind a call of remove_tcb whose result is ignored.
unfoldable pub table_without : Table → Tcb → Table
table_without table t = elim (remove_tcb (some table) (some t)) [
  | removed table' t' ↦ table'
  | invalid_pointer ↦ table
  | not_found ↦ table
]

unfoldable pub destroy_thread : Option ℕ → Call (Unit {0})
unfolding table_without load_tcb
destroy_thread none s = value tt s
destroy_thread (some p) s =
    follow (load_tcb p s)
      λ t s1. value tt (record (set_tcb p none s1) { table = table_without s1.table t })

-- The thread that waits for this one made ready.
unfoldable pub wake : Option ℕ → Call (Unit {0})
unfolding load_tcb
wake none s = value tt s
wake (some o) s = follow (load_tcb o s) λ w s1.
    value tt (record (set_tcb o (some (record w { status = working })) s1) {
      ready_list = s1.ready_list ++ o ∷ [];
    })

unfoldable pub thread_terminate : Call (Unit {0})
unfolding wake destroy_thread load_tcb
thread_terminate s = follow (load_tcb s.current s) λ t s1.
    follow (wake t.observer (set_tcb s1.current (some (record t { status = done })) s1)) λ _ s2.
      follow (load_tcb s2.current s2) λ t' s3.
        follow
          (destroy_thread s3.next_to_destroy
            (set_tcb s3.current (some (record t' { observer = none })) s3))
          λ _ s4. thread_yield (record s4 { next_to_destroy = some s4.current })

-- The loop over pop_tcb, which clears the handle of each TCB before it is destroyed.
unfoldable pub destroy_all : List Handle → Call (Unit {0})
unfolding destroy_thread load_tcb
destroy_all [] s = value tt s
destroy_all (h ∷ hs) s = follow (load_tcb h.tcb s) λ t s1.
    follow
      (destroy_thread (some h.tcb) (record (set_tcb h.tcb (some (record t { handle = none })) s1) {
        table = record s1.table { handles = hs; size = s1.table.size - 1 };
      }))
      λ _ s2. destroy_all hs s2

-- The queues of the mutexes are destroyed, and those of the conditions. A mutex or a condition without
-- its queue is an object that is not live any more, so that it cannot be used or destroyed again before
-- it is initialized.
unfoldable pub destroy_mutexes : List ℕ → Call (Unit {0})
unfolding load_mutex
destroy_mutexes [] s = value tt s
destroy_mutexes (p ∷ ps) s =
    follow (load_mutex p s)
      λ _ s1. destroy_mutexes ps (record s1 { mutex = update s1.mutex p none })

unfoldable pub destroy_conds : List ℕ → Call (Unit {0})
unfolding load_cond
destroy_conds [] s = value tt s
destroy_conds (p ∷ ps) s =
    follow (load_cond p s) λ _ s1. destroy_conds ps (record s1 { cond = update s1.cond p none })

unfoldable pub thread_cleanup : Call (Unit {0})
unfolding destroy_all destroy_mutexes destroy_conds load_tcb
thread_cleanup s =
    if not s.ready
    then value tt s
    else follow (load_tcb s.current s) λ t s1.
      if not (t.tid == 0)
      then value tt s1
      else follow (destroy_all s1.table.handles s1) λ _ s2.
        follow (destroy_mutexes s2.mutexes s2) λ _ s3.
          follow (destroy_conds s3.conds s3) λ _ s4.
            value tt (record s4 { ready_list = []; mutexes = []; conds = []; ready = false })
