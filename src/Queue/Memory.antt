-- ===== src/Queue/Memory.antt =====
-- The items of A3/queue.c at their addresses, and computations that read and write them.
use unh_cs.Common.{ℕ, Option, none, some, ◌==◌, if◌then◌else◌, update}

-- qitem_t; `data` and `next` are addresses, and 0 is NULL.
pub record Item : Type 0 where
  pub content : ℕ
  pub next : ℕ

abbrev pub item : ℕ → ℕ → Item
item content next = record { content = content; next = next }

-- `none` is an address that holds no item, or one that has been freed.
abbrev pub Memory : Type 0
Memory = ℕ → Option Item

pub data Outcome (A : Type 0) : Type 0 where
  value : A → Memory → Outcome A
  fault : Outcome A
  unfinished : Outcome A

abbrev pub Run : Type 0 → Type 0
Run A = Memory → Outcome A

abbrev pub pure : {A : Type 0} → A → Run A
pure a m = value a m

abbrev pub chain_run : {A B : Type 0} → Outcome A → (A → Run B) → Outcome B
chain_run (value a m) k = k a m
chain_run fault k = fault
chain_run unfinished k = unfinished

infixl 5 ◌>>=◌ ◌>>◌
abbrev pub ◌>>=◌ : {A B : Type 0} → Run A → (A → Run B) → Run B
◌>>=◌ r k m = chain_run (r m) k

abbrev pub ◌>>◌ : {B : Type 0} → Run (Unit {0}) → Run B → Run B
r >> k = r >>= λ _. k

-- What a dereference finds at an address: nothing at NULL or where no item lives.
unfoldable pub deref : Memory → ℕ → Option Item
deref m p = if p == 0 then none else m p

unfoldable pub load : ℕ → Run Item
load p m = elim (deref m p) [ none ↦ fault | some i ↦ value i m ]

-- `p->next = q`
unfoldable pub set_next : ℕ → ℕ → Run (Unit {0})
set_next p q m = elim (deref m p) [
  | none ↦ fault
  | some i ↦ value tt (update m p (some (item i.content q)))
]

unfoldable pub free : ℕ → Run (Unit {0})
free p m = elim (deref m p) [ none ↦ fault | some i ↦ value tt (update m p none) ]

-- `malloc` of an item at the given address, with both of its fields written; `malloc` returns
-- NULL by giving the address 0.
unfoldable pub new_item : ℕ → ℕ → ℕ → Run (Unit {0})
new_item p content next m =
    if p == 0 then fault else value tt (update m p (some (item content next)))
