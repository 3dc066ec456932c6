-- ===== src/Threads/Ended.antt =====
-- The calls of A3/thread.c that make and end threads keep the system sound.
use unh_cs.Common.{
  ℕ, ◌≡◌, refl, inl, inr, Bool, true, false, Option, none, some, List, [], ◌∷◌, ◌==◌, ◌-◌, not,
  Option-cases, Bool-cases, none-some, update, update_self, length, sym, ap, ◌∙◌, suc, arith,
}
use unh_cs.Threads.State.{System, Tcb, Handle, Table, working, value, follow, load_tcb, set_tcb}
use unh_cs.Threads.Table.{init_table, put_tcb}
use unh_cs.Threads.Order.{
  IsTable, get_tcb_by_id-put_tcb, remove_tcb-find, remove_tcb-bare, Below, Below-mono,
}
use mathlib.Core.Path.{subst}
use unh_cs.Threads.Lifetime.{
  new_thread, init, thread_create, table_without, destroy_thread, wake, thread_terminate,
  destroy_all, destroy_mutexes, destroy_conds, thread_cleanup,
}
use unh_cs.Threads.Holds.{
  Holds, Holds-follow, Holds-load_tcb, Holds-load_mutex, Holds-load_cond, Holds-if, Holds-some,
}
use unh_cs.Threads.Sound.{IsSound, same-IsSound, thread_yield-IsSound}

new_thread-IsSound :
    (fresh : ℕ) (block : Tcb) (stack : Bool) (s : System)
    → IsSound s
    → Holds IsSound (new_thread fresh block stack s)
unfolding new_thread
new_thread-IsSound fresh block stack s h =
    Holds-some IsSound (put_tcb s.table fresh (record block { status = working; stack = stack })) _
      λ put e. record {
        mutexes = h.mutexes;
        table =
            (get_tcb_by_id-put_tcb s.table fresh (record block { status = working; stack = stack })
              h.table e).0;
      }

pub init-IsSound :
    (fresh : ℕ) (block : Tcb) (s : System) → IsSound s → Holds IsSound (init fresh block s)
unfolding init init_table
init-IsSound fresh block s h =
    Holds-follow IsSound _ _
      (new_thread-IsSound fresh block false _
        (record { mutexes = h.mutexes; table = record { sorted = tt; counted = refl } }))
      λ t s1 h1. same-IsSound h1 refl refl

pub thread_create-IsSound :
    (fresh : ℕ) (block : Tcb) (s : System) → IsSound s → Holds IsSound (thread_create fresh block s)
unfolding thread_create
thread_create-IsSound fresh block s h =
    Holds-follow IsSound _ _ (new_thread-IsSound fresh block true s h)
      λ t s1 h1. same-IsSound h1 refl refl

table_without-bare : (table : Table) (t : Tcb) → t.handle ≡ none → table_without table t ≡ table
unfolding table_without
table_without-bare table t bare = rw (remove_tcb-bare table t bare, table_without) refl

table_without-IsTable : (table : Table) (t : Tcb) → IsTable table → IsTable (table_without table t)
unfolding table_without
table_without-IsTable table t h = elim (Option-cases t.handle) [
  | inl bare ↦ subst IsTable (sym (table_without-bare table t bare)) h
  | inr (target, has) ↦ elim (remove_tcb-find table t target h has) [
    | inl (missing, _) ↦ rw (missing, table_without) h
    | inr (table', gone, h', _, _, _) ↦ rw (gone, table_without) h'
  ]
]

pub destroy_thread-IsSound :
    (p : Option ℕ) (s : System) → IsSound s → Holds IsSound (destroy_thread p s)
unfolding destroy_thread
destroy_thread-IsSound none s h = h
destroy_thread-IsSound (some p) s h =
    Holds-load_tcb IsSound p s _
      λ t _. record { mutexes = h.mutexes; table = table_without-IsTable s.table t h.table }

wake-IsSound : (o : Option ℕ) (s : System) → IsSound s → Holds IsSound (wake o s)
unfolding wake
wake-IsSound none s h = h
wake-IsSound (some o) s h = Holds-load_tcb IsSound o s _ λ w _. same-IsSound h refl refl

pub thread_terminate-IsSound : (s : System) → IsSound s → Holds IsSound (thread_terminate s)
unfolding thread_terminate
thread_terminate-IsSound s h = Holds-load_tcb IsSound s.current s _ λ t _.
    Holds-follow IsSound _ _ (wake-IsSound t.observer _ (same-IsSound h refl refl)) λ _ s2 h2.
      Holds-load_tcb IsSound s2.current s2 _ λ t' _.
        Holds-follow IsSound _ _
          (destroy_thread-IsSound s2.next_to_destroy _ (same-IsSound h2 refl refl))
          λ _ s4 h4. thread_yield-IsSound _ (same-IsSound h4 refl refl)

-- Sound, with these handles in the table.
abbrev Left : List Handle → System → Type 0
Left hs s = IsSound s × (s.table.handles ≡ hs)

popped-IsTable :
    (t : Table) (x : Handle) (hs : List Handle)
    → IsTable t
    → t.handles ≡ x ∷ hs
    → IsTable (record t { handles = hs; size = t.size - 1 })
popped-IsTable t x hs h e =
    let below : Below t.max_id (x ∷ hs) = subst (Below t.max_id) e h.sorted in
    let counted : t.size ≡ suc (length hs) = h.counted ∙ ap length e in
    record {
      sorted = Below-mono x.id t.max_id hs (omega (arith, below.0)) below.1;
      counted = omega (arith, counted);
    }

destroyed :
    (p : ℕ) (t : Tcb) (s : System)
    → s.tcb p ≡ some t
    → t.handle ≡ none
    → destroy_thread (some p) s ≡ value tt (set_tcb p none s)
unfolding destroy_thread load_tcb
destroyed p t s e bare = rw (e, table_without-bare s.table t bare) refl

destroy_all-IsSound : (hs : List Handle) (s : System) → Left hs s → Holds IsSound (destroy_all hs s)
unfolding destroy_all
destroy_all-IsSound [] s h = h.0
destroy_all-IsSound (x ∷ hs) s h = Holds-load_tcb IsSound x.tcb s _ λ t _.
    let bare : Tcb = record t { handle = none } in
    let s1 : System = record (set_tcb x.tcb (some bare) s) {
      table = record s.table { handles = hs; size = s.table.size - 1 };
    } in
    subst (λ o. Holds IsSound (follow o (λ _ s2. destroy_all hs s2)))
      (sym (destroyed x.tcb bare s1 (update_self s.tcb x.tcb (some bare)) refl))
      (destroy_all-IsSound hs (set_tcb x.tcb none s1)
        (record { mutexes = h.0.mutexes; table = popped-IsTable s.table x hs h.0.table h.1 }, refl))

destroy_mutexes-IsSound :
    (ps : List ℕ) (s : System) → IsSound s → Holds IsSound (destroy_mutexes ps s)
unfolding destroy_mutexes
destroy_mutexes-IsSound [] s h = h
destroy_mutexes-IsSound (p ∷ ps) s h = Holds-load_mutex IsSound p s _ λ m _.
    destroy_mutexes-IsSound ps (record s { mutex = update s.mutex p none })
      (record {
        mutexes = λ q n e. elim (Bool-cases (p == q)) [
          | inl hit ↦ absurd (none-some (rw hit at e))
          | inr miss ↦ h.mutexes q n (rw miss at e)
        ];
        table = h.table;
      })

destroy_conds-IsSound : (ps : List ℕ) (s : System) → IsSound s → Holds IsSound (destroy_conds ps s)
unfolding destroy_conds
destroy_conds-IsSound [] s h = h
destroy_conds-IsSound (p ∷ ps) s h = Holds-load_cond IsSound p s _ λ c _.
    destroy_conds-IsSound ps (record s { cond = update s.cond p none }) (same-IsSound h refl refl)

pub thread_cleanup-IsSound : (s : System) → IsSound s → Holds IsSound (thread_cleanup s)
unfolding thread_cleanup
thread_cleanup-IsSound s h =
    Holds-if IsSound (not s.ready) _ _ (λ _. h)
      λ _. Holds-load_tcb IsSound s.current s _ λ t _.
        Holds-if IsSound (not (t.tid == 0)) _ _ (λ _. h)
          λ _. Holds-follow IsSound _ _ (destroy_all-IsSound s.table.handles s (h, refl)) λ _ s2 h2.
            Holds-follow IsSound _ _ (destroy_mutexes-IsSound s2.mutexes s2 h2) λ _ s3 h3.
              Holds-follow IsSound _ _ (destroy_conds-IsSound s3.conds s3 h3)
                λ _ s4 h4. same-IsSound h4 refl refl
