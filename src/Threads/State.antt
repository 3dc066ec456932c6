-- ===== src/Threads/State.antt =====
-- The structs of A3/thread.h, A3/thread_table.h and A3/thread.c. Addresses are numbers; NULL is
-- `none`. A queue of A3/queue.c is the list of what it holds, first to last.
use unh_cs.Common.{ℕ, Bool, Option, none, some, List, update}

-- enum Status
pub data Status : Type 0 where
  working waiting done : Status

unfoldable pub is_working : Status → Bool
is_working working = Bool.true
is_working waiting = Bool.false
is_working done = Bool.false

unfoldable pub is_done : Status → Bool
is_done working = Bool.false
is_done waiting = Bool.false
is_done done = Bool.true

-- tcb_t. The saved registers are left to the context switch, in assembly. `handle` is the id of the
-- handle that the TCB points to, since a handle is only followed for its id; `stack` says whether
-- there is a stack to free.
pub record Tcb : Type 0 where
  pub stack : Bool
  pub tid : ℕ
  pub status : Status
  pub observer : Option ℕ
  pub handle : Option ℕ

-- thandle_t
pub record Handle : Type 0 where
  pub id : ℕ
  pub tcb : ℕ

-- struct TABLE: the handles from the head on.
pub record Table : Type 0 where
  pub handles : List Handle
  pub max_id : ℕ
  pub size : ℕ

-- thread_mutex_t; the owner -1 is `none`.
pub record Mutex : Type 0 where
  pub owner : Option ℕ
  pub q : List ℕ
  pub locked : Bool

-- struct COND_INFO: a waiting thread, and the mutex that it released.
pub record CondInfo : Type 0 where
  pub thread : ℕ
  pub mutex : ℕ

-- The static variables of thread.c, and the objects that they lead to by their addresses; an
-- address of no live object gives `none`.
pub record System : Type 0 where
  pub ready : Bool
  pub current : ℕ
  pub ready_list : List ℕ
  pub table : Table
  pub next_to_destroy : Option ℕ
  pub mutexes : List ℕ
  pub conds : List ℕ
  pub tcb : ℕ → Option Tcb
  pub mutex : ℕ → Option Mutex
  pub cond : ℕ → Option (List CondInfo)

-- What a call comes to. `value` returns, now or when control is given back to the caller; the
-- system then has the thread that runs next. `exited` is `exit (-1)`, and `fault` a dereference of
-- NULL or of an object that is not live, and `unfinished` a loop that has used up its fuel.
pub data Outcome (A : Type 0) : Type 0 where
  value : A → System → Outcome A
  exited : Outcome A
  fault : Outcome A
  unfinished : Outcome A

abbrev pub Call : Type 0 → Type 0
Call A = System → Outcome A

abbrev pub pure : {A : Type 0} → A → Call A
pure a s = value a s

abbrev pub follow : {A B : Type 0} → Outcome A → (A → Call B) → Outcome B
follow (value a s) k = k a s
follow exited k = exited
follow fault k = fault
follow unfinished k = unfinished

infixl 5 ◌>>=◌ ◌>>◌
abbrev pub ◌>>=◌ : {A B : Type 0} → Call A → (A → Call B) → Call B
◌>>=◌ c k s = follow (c s) k

abbrev pub ◌>>◌ : {B : Type 0} → Call (Unit {0}) → Call B → Call B
c >> k = c >>= λ _. k

abbrev pub live : {A : Type 0} → Option A → System → Outcome A
live none s = fault
live (some a) s = value a s

-- `*p` of each kind, and a write through a pointer.
unfoldable pub load_tcb : ℕ → Call Tcb
load_tcb p s = live (s.tcb p) s

unfoldable pub load_mutex : ℕ → Call Mutex
load_mutex p s = live (s.mutex p) s

unfoldable pub load_cond : ℕ → Call (List CondInfo)
load_cond p s = live (s.cond p) s

abbrev pub set_tcb : ℕ → Option Tcb → System → System
set_tcb p t s = record s { tcb = update s.tcb p t }

abbrev pub set_mutex : ℕ → Mutex → System → System
set_mutex p m s = record s { mutex = update s.mutex p (some m) }

abbrev pub set_cond : ℕ → List CondInfo → System → System
set_cond p c s = record s { cond = update s.cond p (some c) }

-- The rest of a call in a changed state.
abbrev pub modify : (System → System) → Call (Unit {0})
modify f s = value tt (f s)
