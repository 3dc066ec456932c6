-- ===== src/Queue/History.antt =====
-- Histories of pushes and pops of A3/queue.c against a first-in-first-out list.
use unh_cs.Common.{ℕ, ◌≡◌, refl, ◌≢◌, none, List, [], ◌∷◌, ◌++◌, ap, ◌∙◌}
use mathlib.Core.Path.{ap₂}
use unh_cs.Queue.Memory.{Memory, Run, Outcome, value, fault, unfinished, pure, ◌>>=◌}
use unh_cs.Queue.Ops.{Queue, queue_push, queue_pop}
use unh_cs.Queue.Chain.{Cells, IsQueue, contents}
use unh_cs.Queue.Fifo.{Ends, Ends-bind, Ends-mono, Pushed, Popped, push-Pushed, pop-Popped, pop-nil}

-- A history of a queue: pushes, each with the address that `malloc` returns, and pops.
pub data Call : Type 0 where
  push : (fresh content : ℕ) → Call
  pop : Call

-- The data that the pops return.
pub run_calls : List Call → Queue → Run (List ℕ)
run_calls [] q = pure []
run_calls (push fresh content ∷ cs) q = do q' ← queue_push fresh q content; run_calls cs q'
run_calls (pop ∷ cs) q = do (r, q') ← queue_pop q; rs ← run_calls cs q'; pure (r ∷ rs)

-- The same history of a list: in at the end, out at the front, 0 for a pop of the empty list.
unfoldable pub fifo : List Call → List ℕ → List ℕ
fifo [] xs = []
fifo (push fresh content ∷ cs) xs = fifo cs (xs ++ content ∷ [])
fifo (pop ∷ cs) [] = 0 ∷ fifo cs []
fifo (pop ∷ cs) (x ∷ xs) = x ∷ fifo cs xs

-- A property of what a call leaves, if it leaves anything.
abbrev pub After : {A : Type 0} → (A → Memory → Type 0) → Outcome A → Type 0
After P (value a m) = P a m
After P fault = Unit
After P unfinished = Unit

-- At each push `malloc` returns an address that is not NULL and that no item has then; it may be that
-- of an item that has been freed.
abbrev pub IsFresh : List Call → Queue → Memory → Type 0
IsFresh [] q m = Unit
IsFresh (push fresh content ∷ cs) q m =
    (fresh ≢ 0)
    × (m fresh ≡ none)
    × After (λ q' m'. IsFresh cs q' m') (queue_push fresh q content m)
IsFresh (pop ∷ cs) q m = After (λ (r, q') m'. IsFresh cs q' m') (queue_pop q m)

Ends-After :
    {A : Type 0} (P Q : A → Memory → Type 0) (r : Outcome A)
    → Ends P r
    → After Q r
    → Ends (λ a m. P a m × Q a m) r
Ends-After P Q (value a m) p q = (p, q)
Ends-After P Q fault p q = p
Ends-After P Q unfinished p q = p

contents-append : (xs : Cells) (p d : ℕ) → contents (xs ++ (p, d) ∷ []) ≡ contents xs ++ d ∷ []
contents-append [] p d = refl
contents-append (x ∷ xs) p d = ap (◌∷◌ x.1) (contents-append xs p d)

-- On a queue whose chain is sound, when `malloc` returns at each push an address that is not NULL and
-- not that of an item that is live then: whatever the order of pushes and pops, none of them faults,
-- and the pops return what those of a first-in-first-out list return.
pub run_calls-fifo :
    (cs : List Call) (m : Memory) (q : Queue) (xs : Cells)
    → IsQueue m q xs
    → IsFresh cs q m
    → Ends (λ rs _. rs ≡ fifo cs (contents xs)) (run_calls cs q m)
unfolding run_calls fifo
run_calls-fifo [] m q xs h f = refl
run_calls-fifo (push a d ∷ cs) m q xs h f =
    Ends-bind _ _ (queue_push a q d m) _
      (Ends-After (Pushed m xs a d) (λ q' m'. IsFresh cs q' m') (queue_push a q d m)
        (push-Pushed m q xs a d h f.0 f.1) f.2)
      λ q' m' (p, fresh).
        Ends-mono _ _ (run_calls cs q' m') (run_calls-fifo cs m' q' _ p.0 fresh)
          (λ rs _ e. e ∙ ap (fifo cs) (contents-append xs a d))
run_calls-fifo (pop ∷ cs) m q [] h f = rw (pop-nil m q h) (
    Ends-bind (λ rs _. rs ≡ fifo cs []) _ (run_calls cs q m) _
      (run_calls-fifo cs m q [] h (rw (pop-nil m q h) at f)) λ rs m' e. ap (◌∷◌ 0) e)
run_calls-fifo (pop ∷ cs) m q ((p, d) ∷ xs) h f =
    Ends-bind _ _ (queue_pop q m) _
      (Ends-After (Popped m p d xs) (λ (r, q') m'. IsFresh cs q' m') (queue_pop q m)
        (pop-Popped m q p d xs h) f)
      λ (r, q') m' ((got, is, freed), fresh).
        Ends-bind (λ rs _. rs ≡ fifo cs (contents xs)) _ (run_calls cs q' m') _
          (run_calls-fifo cs m' q' xs is fresh) λ rs _ e. ap₂ ◌∷◌ got e
