-- ===== src/Threads/Order.antt =====
-- The table of A3/thread_table.c stays sorted by falling id, so that the walk that stops early
-- finds what a search of the whole table finds.
use unh_cs.Common.{
  none-some, ℕ, suc, ◌+◌, ◌-◌, ◌≡◌, refl, ◌≢◌, ◌≤◌, ◌<◌, ◌⊎◌, inl, inr, Option, none, some, List,
  [], ◌∷◌, ◌==◌, ltb, if◌then◌else◌, arith, length, some_inj, Bool-cases, Option-cases, eq_test,
  ne_test, sym, ap, ◌∙◌,
}
use mathlib.Core.Path.{subst}
use unh_cs.Threads.State.{Tcb, Handle, Table}
use unh_cs.Threads.Table.{
  put_tcb, skip_above, found_at, get_tcb_by_id, unlink, removed, invalid_pointer, not_found,
  remove_tcb,
}

-- The ids fall strictly from one handle to the next, and all lie below the bound.
abbrev pub Below : ℕ → List Handle → Type 0
Below n [] = Unit
Below n (h ∷ hs) = (h.id < n) × Below h.id hs

pub record IsTable (t : Table) : Type 0 where
  pub sorted : Below t.max_id t.handles
  pub counted : t.size ≡ length t.handles

-- A search of the whole list.
pub find : ℕ → List Handle → Option ℕ
find target [] = none
find target (h ∷ hs) = if h.id == target then some h.tcb else find target hs

find_above : (n target : ℕ) (hs : List Handle) → Below n hs → n ≤ target → find target hs ≡ none
unfolding find
find_above n target [] b h = refl
find_above n target (x ∷ hs) b h = ground (arith, find_above x.id target hs b.1)

found_at-skip_above :
    (n target : ℕ) (hs : List Handle)
    → Below n hs
    → found_at target (skip_above target hs) ≡ find target hs
unfolding find found_at skip_above
found_at-skip_above n target [] b = refl
found_at-skip_above n target (x ∷ hs) b =
    ground (arith, found_at-skip_above x.id target hs b.1, find_above x.id target hs b.1)

-- In a sorted table the walk that stops at the first id that is not above the target finds what a
-- search of all handles finds.
pub get_tcb_by_id-find :
    (t : Table) (target : ℕ) → IsTable t → get_tcb_by_id t target ≡ find target t.handles
unfolding get_tcb_by_id
get_tcb_by_id-find t target h = found_at-skip_above t.max_id target t.handles h.sorted

abbrev put_table : Table → ℕ → Table
put_table t p = record {
  handles = record { id = t.max_id; tcb = p } ∷ t.handles;
  max_id = t.max_id + 1;
  size = t.size + 1;
}

abbrev Put : Table → ℕ → Table × Tcb → Type 0
Put t p (t', tcb') =
    IsTable t'
    × (tcb'.tid ≡ t.max_id)
    × (get_tcb_by_id t' t.max_id ≡ some p)
    × ((target : ℕ) → target ≢ t.max_id → get_tcb_by_id t' target ≡ get_tcb_by_id t target)

put_table-Put :
    (t : Table) (p : ℕ) (tcb : Tcb)
    → IsTable t
    → Put t p (put_table t p, record tcb { tid = t.max_id; handle = some t.max_id })
unfolding find
put_table-Put t p tcb h = (
  sorted,
  refl,
  get_tcb_by_id-find (put_table t p) t.max_id sorted ∙ rw (eq_test t.max_id t.max_id refl),
  λ target ne.
      get_tcb_by_id-find (put_table t p) target sorted
      ∙ rw (ne_test t.max_id target (λ e. ne (sym e))) (sym (get_tcb_by_id-find t target h)),
)
  where
    sorted : IsTable (put_table t p)
    sorted = record { sorted = (omega arith, h.sorted); counted = omega (arith, h.counted) }

pub Below-mono : (m n : ℕ) (hs : List Handle) → m ≤ n → Below m hs → Below n hs
Below-mono m n [] h b = tt
Below-mono m n (x ∷ hs) h b = (omega arith, b.1)

-- When a TCB is put into a table that is sorted and counted: it gets the next id, which finds it;
-- what was found under the other ids is found as before, and the table stays sorted and counted.
-- (A TCB with a handle has no result.)
pub get_tcb_by_id-put_tcb :
    (t : Table) (p : ℕ) (tcb : Tcb) {t' : Table} {tcb' : Tcb}
    → IsTable t
    → put_tcb t p tcb ≡ some (t', tcb')
    → IsTable t'
      × (tcb'.tid ≡ t.max_id)
      × (get_tcb_by_id t' t.max_id ≡ some p)
      × ((target : ℕ) → target ≢ t.max_id → get_tcb_by_id t' target ≡ get_tcb_by_id t target)
unfolding put_tcb
get_tcb_by_id-put_tcb t p tcb h e = elim (Option-cases tcb.handle) [
  | inl bare ↦ subst (Put t p) (some_inj (rw bare at e)) (put_table-Put t p tcb h)
  | inr (old, has) ↦ absurd (none-some (rw has at e))
]

-- What unlinking comes to: there is no such handle, or the list without it.
abbrev Unlinked : ℕ → ℕ → List Handle → Option (List Handle) → Type 0
Unlinked n target hs none = find target hs ≡ none
Unlinked n target hs (some rest) =
    Below n rest
    × (find target rest ≡ none)
    × (length hs ≡ suc (length rest))
    × ((other : ℕ) → other ≢ target → find other rest ≡ find other hs)
    × ((p : ℕ) × (find target hs ≡ some p))

Unlinked-cons :
    (n target : ℕ) (x : Handle) (hs : List Handle) (o : Option (List Handle))
    → x.id < n
    → x.id ≢ target
    → Unlinked x.id target hs o
    → Unlinked n target (x ∷ hs) (elim o [ none ↦ none | some rest ↦ some (x ∷ rest) ])
unfolding find
Unlinked-cons n target x hs none lt ne u = rw (ne_test x.id target ne) u
Unlinked-cons n target x hs (some rest) lt ne u = (
  (lt, u.0),
  rw (ne_test x.id target ne) u.1,
  ap suc u.2,
  λ other h. ground (arith, u.3 other h),
  (u.4.0, rw (ne_test x.id target ne) u.4.1),
)

unlink-Unlinked :
    (n target : ℕ) (hs : List Handle) → Below n hs → Unlinked n target hs (unlink target hs)
unfolding unlink find
unlink-Unlinked n target [] b = refl
unlink-Unlinked n target (x ∷ hs) b = elim (Bool-cases (ltb target x.id)) [
  | inl above ↦ rw above (
      Unlinked-cons n target x hs (unlink target hs) b.0 (ground arith)
        (unlink-Unlinked x.id target hs b.1))
  | inr below ↦ rw below (elim (Bool-cases (x.id == target)) [
    | inl hit ↦ rw hit (
      Below-mono x.id n hs (omega arith) b.1,
      find_above x.id target hs b.1 (ground arith),
      refl,
      λ other ne. ground arith,
      (x.tcb, rw hit refl),
    )
    | inr miss ↦ rw (miss, find, miss) (find_above x.id target hs b.1 (ground arith))
  ])
]

remove_none :
    (t : Table) (tcb : Tcb) (target : ℕ)
    → tcb.handle ≡ some target
    → unlink target t.handles ≡ none
    → remove_tcb (some t) (some tcb) ≡ not_found
unfolding remove_tcb
remove_none t tcb target e eq = rw (e, eq)

-- A TCB without a handle is in no table.
pub remove_tcb-bare :
    (t : Table) (tcb : Tcb) → tcb.handle ≡ none → remove_tcb (some t) (some tcb) ≡ invalid_pointer
unfolding remove_tcb
remove_tcb-bare t tcb e = rw e refl

remove_some :
    (t : Table) (tcb : Tcb) (target : ℕ) (rest : List Handle)
    → tcb.handle ≡ some target
    → unlink target t.handles ≡ some rest
    → remove_tcb (some t) (some tcb)
      ≡ removed (record t { handles = rest; size = t.size - 1 }) (record tcb { handle = none })
unfolding remove_tcb
remove_some t tcb target rest e eq = rw (e, eq)

-- Removing a TCB by its handle, from a table that is sorted and counted, takes its id and no other
-- out of the table, in which it was, and which stays sorted and counted, and clears the handle; or the
-- id is not in the table, and the answer is "not found".
pub remove_tcb-find :
    (t : Table) (tcb : Tcb) (target : ℕ)
    → IsTable t
    → tcb.handle ≡ some target
    → ((remove_tcb (some t) (some tcb) ≡ not_found) × (get_tcb_by_id t target ≡ none))
      ⊎ ((t' : Table) × (remove_tcb (some t) (some tcb) ≡ removed t' (record tcb { handle = none }))
          × IsTable t'
          × ((p : ℕ) × (get_tcb_by_id t target ≡ some p))
          × (get_tcb_by_id t' target ≡ none)
          × ((other : ℕ) → other ≢ target → get_tcb_by_id t' other ≡ get_tcb_by_id t other))
remove_tcb-find t tcb target h e =
    removal (unlink target t.handles) refl (unlink-Unlinked t.max_id target t.handles h.sorted)
  where
    removal :
        (o : Option (List Handle))
        → unlink target t.handles ≡ o
        → Unlinked t.max_id target t.handles o
        → ((remove_tcb (some t) (some tcb) ≡ not_found) × (get_tcb_by_id t target ≡ none))
          ⊎ ((t' : Table) × (remove_tcb (some t) (some tcb)
                ≡ removed t' (record tcb { handle = none }))
              × IsTable t'
              × ((p : ℕ) × (get_tcb_by_id t target ≡ some p))
              × (get_tcb_by_id t' target ≡ none)
              × ((other : ℕ) → other ≢ target → get_tcb_by_id t' other ≡ get_tcb_by_id t other))
    removal none eq u = inl (remove_none t tcb target e eq, get_tcb_by_id-find t target h ∙ u)
    removal (some rest) eq u =
        let t' : Table = record t { handles = rest; size = t.size - 1 } in
        let h' : IsTable t' = record { sorted = u.0; counted = omega (arith, u.2, h.counted) } in
        inr (
          t',
          remove_some t tcb target rest e eq,
          h',
          (u.4.0, get_tcb_by_id-find t target h ∙ u.4.1),
          get_tcb_by_id-find t' target h' ∙ u.1,
          λ other ne.
              get_tcb_by_id-find t' other h' ∙ u.3 other ne ∙ sym (get_tcb_by_id-find t other h),
        )
