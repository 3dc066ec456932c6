-- ===== src/Queue/Tests.antt =====
-- Small queues of A3/queue.c, and the theorems at them.
use unh_cs.Common.{ℕ, ◌≡◌, refl, false, none, some, List, [], ◌∷◌, arith, ◌==◌, if◌then◌else◌}
use unh_cs.Queue.Memory.{Memory, item, fault, deref, load, free, new_item, set_next}
use unh_cs.Queue.Ops.{Queue, queue_push, queue_pop, queue_remove, destroy_queue}
use unh_cs.Queue.Chain.{Cells, has, IsQueue}
use unh_cs.Queue.Fifo.{Ends}
use unh_cs.Queue.History.{Call, push, pop, run_calls, fifo, IsFresh, run_calls-fifo}
use unh_cs.Queue.Walk.{holds}
use unh_cs.Queue.Remove.{OnQueue, Removed, queue_remove-Removed, push-queue_remove}
use unh_cs.Queue.Destroy.{destroy_queue-frees}

-- Items with the data 7 and 8 at the addresses 10 and 20.
abbrev memory : Memory
memory a = if a == 10 then some (item 7 20) else if a == 20 then some (item 8 0) else none

abbrev cells : Cells
cells = (10, 7) ∷ (20, 8) ∷ []

abbrev queue : Queue
queue = record { front = 10; back = 20 }

queue-IsQueue : IsQueue memory queue cells
queue-IsQueue = record {
  chain = ((λ e. cc), refl, refl, ((λ e. cc), refl, refl, tt));
  at_front = refl;
  at_back = refl;
}

abbrev calls : List Call
calls = pop ∷ push 10 9 ∷ pop ∷ pop ∷ pop ∷ []

calls-fifo : fifo calls (7 ∷ 8 ∷ []) ≡ 7 ∷ 8 ∷ 9 ∷ 0 ∷ []
unfolding fifo
calls-fifo = refl

-- The item at 10 is freed by the first pop, and `malloc` returns its address again.
calls-IsFresh : IsFresh calls queue memory
unfolding queue_pop queue_push load deref free new_item set_next
calls-IsFresh = ((λ e. cc), refl, tt)

run_calls-fifo_example : Ends (λ rs _. rs ≡ fifo calls (7 ∷ 8 ∷ [])) (run_calls calls queue memory)
run_calls-fifo_example = run_calls-fifo calls memory queue cells queue-IsQueue calls-IsFresh

queue_remove-Removed_example :
    Ends
      (λ (r, o) m'. OnQueue (λ q'. Removed memory 8 cells queue r q' m') o)
      (queue_remove 3 (some queue) 8 memory)
queue_remove-Removed_example =
    queue_remove-Removed 3 memory queue 8 cells queue-IsQueue (λ e. cc) (omega arith)

first_seven : holds 8 ((10, 7) ∷ []) ≡ false
unfolding holds
first_seven = refl

push-queue_remove_example :
    Ends
      (λ (r, o) m'. OnQueue (λ q'. queue_push 30 q' 9 m' ≡ fault) o)
      (queue_remove 3 (some queue) 8 memory)
push-queue_remove_example =
    push-queue_remove 3 memory queue 8 20 ((10, 7) ∷ []) 30 9 queue-IsQueue first_seven (λ e. cc)
      (omega arith) (λ e. cc)

destroy_queue-frees_example :
    Ends
      (λ left m'. (left ≡ none) × ((a : ℕ) → m' a ≡ (if has a cells then none else memory a)))
      (destroy_queue 3 (some queue) memory)
destroy_queue-frees_example = destroy_queue-frees 3 memory queue cells queue-IsQueue (omega arith)
