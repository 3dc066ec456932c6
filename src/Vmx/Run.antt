-- ===== src/Vmx/Run.antt =====
-- fetchDecodeExecute and execute of A2/P2/vmx20.c. The cores are threads: a schedule is the list
-- of the cores in the order of their steps. An instruction is two steps: the fetch of its word, which
-- holds no lock, and what is done with the word, where each access to the memory holds the lock.
use unh_cs.Common.{
  ℕ, zero, suc, Bool, true, Option, none, some, List, [], ◌∷◌, ltb, if◌then◌else◌, update,
  get_elem?, set, map,
}
use unh_cs.Vmx.State.{Vm, Core, Status, running, sp, pc}
use unh_cs.Vmx.Execute.{FloatUnit, Step, fetch_word, execute_word, execute_instruction}

pub data Run : Type 0 where
  finished : Core → Vm → Run
  undefined : Run
  out_of_fuel : Run

-- What the loop does with the result of an instruction; `k` is the rest of the loop.
abbrev pub and_then : Option Step → (Core → Vm → Run) → Run
and_then none k = undefined
and_then (some s) k = if s.success then k s.core s.vm else finished s.core s.vm

-- `while (executeInstruction(cpu, cpu->reg[PC], &cpu->status) == 1)`
unfoldable pub run_loop : FloatUnit → ℕ → Core → Vm → Run
run_loop f zero c vm = out_of_fuel
run_loop f (suc n) c vm = and_then (execute_instruction f (c.reg pc) c vm) (run_loop f n)

unfoldable pub enter : Core → Vm → Core
enter c vm = record c { reg = update c.reg pc vm.entry_point; status = running }

unfoldable pub fetch_decode_execute : FloatUnit → ℕ → Core → Vm → Run
unfolding run_loop enter
fetch_decode_execute f fuel c vm = run_loop f fuel (enter c vm) vm

-- A core that `execute` makes: its registers are those of the machine, all 0, but for SP.
unfoldable pub init_core : ℕ → ℕ → Core
init_core initial_sp i = record {
  reg = update (λ _. 0) sp initial_sp;
  stack = initial_sp;
  status = running;
  pid = i;
}

-- A thread: its core, whether its loop still runs, and the word that it has fetched, if it has.
pub record Thread : Type 0 where
  pub core : Core
  pub active : Bool
  pub fetched : Option ℕ

pub record Machine : Type 0 where
  pub threads : List Thread
  pub vm : Vm

abbrev pub max_processors : ℕ
max_processors = 16

unfoldable pub start_threads : ℕ → List ℕ → Vm → List Thread
unfolding init_core enter
start_threads i [] vm = []
start_threads i (s ∷ ss) vm =
    record { core = enter (init_core s i) vm; active = true; fetched = none }
    ∷ start_threads (suc i) ss vm

-- `none` is the result 0, for too many processors; `sps` holds their initial stack pointers.
unfoldable pub start : List ℕ → ℕ → Vm → Option Machine
unfolding start_threads
start sps num_processors vm =
    if ltb max_processors num_processors
    then none
    else let vm' = record vm { num_processors = num_processors } in
      some (record { threads = start_threads 0 sps vm'; vm = vm' })

-- The machine with what thread `i` made of it.
abbrev pub advance : List Thread → ℕ → Option Step → Option Machine
advance threads i none = none
advance threads i (some s) = some (record {
  threads = set threads i (record { core = s.core; active = s.success; fetched = none });
  vm = s.vm;
})

-- The machine with the word that thread `i` has fetched.
abbrev pub fetch : ℕ → Machine → Thread → Option ℕ → Option Machine
fetch i m th none = none
fetch i m th (some word) =
    some (record m { threads = set m.threads i (record th { fetched = some word }) })

-- The next step of a thread whose loop runs.
abbrev pub act : FloatUnit → ℕ → Machine → Thread → Option ℕ → Option Machine
act f i m th none = fetch i m th (fetch_word (th.core.reg pc) m.vm)
act f i m th (some word) = advance m.threads i (execute_word f word th.core m.vm)

-- A step of a thread; nothing if there is none or its loop has ended.
abbrev pub turn : FloatUnit → ℕ → Machine → Option Thread → Option Machine
turn f i m none = some m
turn f i m (some th) = if th.active then act f i m th th.fetched else some m

unfoldable pub step_thread : FloatUnit → ℕ → Machine → Option Machine
step_thread f i m = turn f i m (get_elem? m.threads i)

unfoldable pub run_schedule : FloatUnit → List ℕ → Machine → Option Machine
run_schedule f [] m = some m
run_schedule f (i ∷ is) m = elim (step_thread f i m) [
  | none ↦ none
  | some m' ↦ run_schedule f is m'
]

-- What `execute` stores into `terminationStatus` once every thread is joined.
unfoldable pub termination_status : Machine → List Status
termination_status m = map (λ th. th.core.status) m.threads
