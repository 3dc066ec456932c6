-- ===== src/Queue/Destroy.antt =====
-- destroy_queue of A3/queue.c.
use unh_cs.Common.{
  ℕ, zero, suc, ◌≡◌, refl, ◌<◌, none, some, [], ◌∷◌, arith, if◌then◌else◌, update, update_other,
  ne_test, length,
}
use unh_cs.Queue.Memory.{Memory, item}
use unh_cs.Queue.Ops.{Queue, destroy_loop, destroy_queue}
use unh_cs.Queue.Chain.{Cells, has, head_ptr, IsChain, IsQueue, IsChain-frame, ne_of_has}
use unh_cs.Queue.Fifo.{Ends, Ends-bind, Ends-mono, load_lem, free_lem}

destroy_loop-frees :
    (n : ℕ) (m : Memory) (xs : Cells)
    → IsChain m xs
    → length xs < n
    → Ends
        (λ _ m'. (a : ℕ) → m' a ≡ (if has a xs then none else m a))
        (destroy_loop n (head_ptr xs) m)
unfolding destroy_loop
destroy_loop-frees zero m xs ch fuel = absurd (omega arith)
destroy_loop-frees (suc n) m [] ch fuel = λ a. refl
destroy_loop-frees (suc n) m ((p, d) ∷ xs) ch fuel =
    rw
      (
        ne_test p 0 ch.0,
        load_lem m p (item d (head_ptr xs)) ch.0 ch.1,
        free_lem m p (item d (head_ptr xs)) ch.0 ch.1,
      )
      (Ends-mono _ _ (destroy_loop n (head_ptr xs) (update m p none))
        (destroy_loop-frees n _ xs
          (IsChain-frame m _ xs ch.3 λ k g. update_other m p none k (ne_of_has k p xs g ch.2))
          (omega arith))
        λ _ m' f a. ground (arith, f a))

-- On a queue whose chain is sound, with fuel beyond its length, `destroy_queue` ends without a fault,
-- and has freed the struct of the queue and each of its items, and no other item.
pub destroy_queue-frees :
    (n : ℕ) (m : Memory) (q : Queue) (xs : Cells)
    → IsQueue m q xs
    → length xs < n
    → Ends
        (λ left m'. (left ≡ none) × ((a : ℕ) → m' a ≡ (if has a xs then none else m a)))
        (destroy_queue n (some q) m)
unfolding destroy_queue
destroy_queue-frees n m q xs h fuel = rw h.at_front (
    Ends-bind (λ _ m'. (a : ℕ) → m' a ≡ (if has a xs then none else m a)) _
      (destroy_loop n (head_ptr xs) m) _ (destroy_loop-frees n m xs h.chain fuel)
      (λ u m' f. (refl, f)))
