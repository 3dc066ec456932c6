-- ===== src/Queue/Ops.antt =====
-- The functions of A3/queue.c. A handle is `none` if it is NULL. `fresh` is what `malloc` returns,
-- and 0 if it fails. A loop over the items runs on fuel.
use unh_cs.Common.{ℕ, zero, suc, Bool, false, Option, none, some, ◌==◌, not, if◌then◌else◌, ◌||◌}
use unh_cs.Queue.Memory.{Run, unfinished, pure, ◌>>=◌, ◌>>◌, load, set_next, free, new_item}

-- struct Queue
pub record Queue : Type 0 where
  pub front : ℕ
  pub back : ℕ

-- The result, with the queue if it is made.
unfoldable pub init_queue : ℕ → ℕ × Option Queue
init_queue fresh = if fresh == 0 then (1, none) else (0, some (record { front = 0; back = 0 }))

unfoldable pub queue_not_empty : Option Queue → Bool
queue_not_empty none = false
queue_not_empty (some q) = not (q.front == 0)

unfoldable pub queue_push : ℕ → Queue → ℕ → Run Queue
queue_push fresh q content = do
  new_item fresh content 0
  if not (q.back == 0)
      then (do set_next q.back fresh; pure (record q { back = fresh }))
      else pure (record { front = fresh; back = fresh })

-- The address of the first item, and not its data.
unfoldable pub queue_peek : Option Queue → ℕ
queue_peek none = 0
queue_peek (some q) = q.front

-- The data of the first item, 0 if there is none.
unfoldable pub queue_pop : Queue → Run (ℕ × Queue)
queue_pop q = if q.front == 0 then pure (0, q) else do
  i ← load q.front
  free q.front
  pure (i.content, record { front = i.next; back = if i.next == 0 then 0 else q.back })

unfoldable pub iterator : Queue → ℕ
iterator q = q.front

-- The data at the iterator, and the iterator moved on.
unfoldable pub next : ℕ → Run (ℕ × ℕ)
next i = if i == 0 then pure (0, 0) else do x ← load i; pure (x.content, x.next)

-- Unlinks and frees `cur`, whose predecessor is `prev`. The field `back` is left as it is.
unfoldable pub unlink : Queue → (prev cur after : ℕ) → Run (ℕ × Queue)
unlink q prev cur after =
    if cur == q.front
    then (do free cur; pure (0, record q { front = after }))
    else (do set_next prev after; free cur; pure (0, q))

unfoldable pub remove_loop : ℕ → ℕ → Queue → (prev cur : ℕ) → Run (ℕ × Queue)
remove_loop content zero q prev cur = λ m. unfinished
remove_loop content (suc n) q prev cur = if cur == 0 then pure (1, q) else do
  i ← load cur
  if i.content == content then unlink q prev cur i.next else remove_loop content n q cur i.next

unfoldable pub queue_remove : ℕ → Option Queue → ℕ → Run (ℕ × Option Queue)
queue_remove fuel none content = pure (1, none)
queue_remove fuel (some q) content =
    if content == 0 || q.front == 0
    then pure (1, some q)
    else (do (r, q') ← remove_loop content fuel q q.front q.front; pure (r, some q'))

unfoldable pub destroy_loop : ℕ → ℕ → Run (Unit {0})
destroy_loop zero p = λ m. unfinished
destroy_loop (suc n) p = if p == 0 then pure tt else do i ← load p; free p; destroy_loop n i.next

-- What the struct at the handle is then: `none`, since it is freed at the end, or there was none.
unfoldable pub destroy_queue : ℕ → Option Queue → Run (Option Queue)
destroy_queue fuel none = pure none
destroy_queue fuel (some q) = do destroy_loop fuel q.front; pure none
