-- ===== src/Threads/Table.antt =====
-- A3/thread_table.c: the table of threads, newest first. A failed `malloc` ends the program there;
-- it is left out.
use unh_cs.Common.{ℕ, ◌+◌, ◌-◌, Option, none, some, List, [], ◌∷◌, ◌==◌, ltb, not, if◌then◌else◌}
use unh_cs.Threads.State.{Tcb, Handle, Table}

unfoldable pub init_table : Table
init_table = record { handles = []; max_id = 0; size = 0 }

-- The table, and the TCB with its id and its handle. `none` for the table is a TCB that has a
-- handle already: the code frees that handle, and it stays linked in its table.
unfoldable pub put_tcb : Table → ℕ → Tcb → Option (Table × Tcb)
put_tcb table p tcb = elim tcb.handle [
  | none ↦ some (
    record {
      handles = record { id = table.max_id; tcb = p } ∷ table.handles;
      max_id = table.max_id + 1;
      size = table.size + 1;
    },
    record tcb { tid = table.max_id; handle = some table.max_id },
  )
  | some _ ↦ none
]

-- The walk past the handles whose id is above the target.
unfoldable pub skip_above : ℕ → List Handle → List Handle
skip_above target [] = []
skip_above target (h ∷ hs) = if ltb target h.id then skip_above target hs else h ∷ hs

-- The test behind the walk.
unfoldable pub found_at : ℕ → List Handle → Option ℕ
found_at target [] = none
found_at target (h ∷ hs) = if h.id == target then some h.tcb else none

unfoldable pub get_tcb_by_id : Table → ℕ → Option ℕ
unfolding skip_above found_at
get_tcb_by_id table target_id = found_at target_id (skip_above target_id table.handles)

-- The arguments are NULL if they are `none`.
unfoldable pub get_tcb : Option Table → Option Tcb → Option ℕ
get_tcb none tcb = none
get_tcb (some table) none = none
get_tcb (some table) (some tcb) = elim tcb.handle [ none ↦ none | some id ↦ get_tcb_by_id table id ]

pop_handle : List Handle → Table → Option ℕ × Table
pop_handle [] table = (none, table)
pop_handle (h ∷ hs) table = (some h.tcb, record table { handles = hs; size = table.size - 1 })

-- The TCB that is popped, whose handle becomes NULL.
unfoldable pub pop_tcb : Table → Option ℕ × Table
unfolding pop_handle
pop_tcb table = pop_handle table.handles table

-- The list less the handle behind the walk, if it is the target.
unfoldable pub unlink : ℕ → List Handle → Option (List Handle)
unlink target [] = none
unlink target (h ∷ hs) =
    if ltb target h.id
    then elim (unlink target hs) [ none ↦ none | some rest ↦ some (h ∷ rest) ]
    else if not (h.id == target)
    then none
    else some hs

pub data Removal : Type 0 where
  removed : Table → Tcb → Removal
  invalid_pointer : Removal
  not_found : Removal

-- The results 0, -1 and -2.
unfoldable pub remove_tcb : Option Table → Option Tcb → Removal
unfolding unlink
remove_tcb none tcb = invalid_pointer
remove_tcb (some table) none = invalid_pointer
remove_tcb (some table) (some tcb) = elim tcb.handle [
  | none ↦ invalid_pointer
  | some target ↦ elim (unlink target table.handles) [
    | none ↦ not_found
    | some rest ↦
        removed (record table { handles = rest; size = table.size - 1 })
          (record tcb { handle = none })
  ]
]

-- The TCBs whose handles are freed, in order.
unfoldable pub destroy_table : List Handle → List ℕ
destroy_table [] = []
destroy_table (h ∷ hs) = h.tcb ∷ destroy_table hs
