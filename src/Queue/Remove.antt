-- ===== src/Queue/Remove.antt =====
-- queue_remove of A3/queue.c.
use unh_cs.Common.{
  ℕ, zero, suc, ◌≡◌, refl, ◌≢◌, ◌<◌, true, false, Option, none, some, [], ◌∷◌, ◌++◌, arith, ◌==◌,
  if◌then◌else◌, update, sym, ◌∙◌, inl, inr, Bool-cases, update_other, eq_test, ne_test, length,
}
use mathlib.Core.Path.{subst}
use unh_cs.Queue.Memory.{Memory, item, value, fault, set_next, new_item, deref}
use unh_cs.Queue.Ops.{Queue, queue_push, queue_remove, remove_loop, unlink}
use unh_cs.Queue.Chain.{
  Cells, has, head_ptr, IsChain, IsQueue, IsChain-frame, last_ptr-append, ne_of_has,
}
use unh_cs.Queue.Fifo.{Ends, Ends-bind, Ends-mono, load_lem, free_lem}
use unh_cs.Queue.Walk.{holds, without, Walked, remove_loop-Walked}

-- What `queue_remove` leaves: the queue of the remaining items, but with the pointer to the last
-- item as it was.
pub record Removed (m : Memory) (c : ℕ) (xs : Cells) (q : Queue) (r : ℕ) (q' : Queue) (m' : Memory)
    : Type 0 where
  pub result : r ≡ (if holds c xs then 0 else 1)
  pub chain : IsChain m' (without c xs)
  pub at_front : q'.front ≡ head_ptr (without c xs)
  pub back_kept : q'.back ≡ q.back
  pub freed : (a : ℕ) → has a xs ≡ true → has a (without c xs) ≡ false → m' a ≡ none
  pub outside : (a : ℕ) → has a xs ≡ false → m' a ≡ m a

unlink_front :
    (m : Memory) (q : Queue) (p d : ℕ) (xs : Cells)
    → IsQueue m q ((p, d) ∷ xs)
    → unlink q p p (head_ptr xs) m ≡ value (0, record q { front = head_ptr xs }) (update m p none)
unfolding unlink
unlink_front m q p d xs h =
    rw (eq_test p q.front (sym h.at_front), free_lem m p (item d (head_ptr xs)) h.chain.0 h.chain.1)

Removed-front :
    (m : Memory) (c p d : ℕ) (xs : Cells) (q : Queue)
    → IsQueue m q ((p, d) ∷ xs)
    → (d == c) ≡ true
    → Removed m c ((p, d) ∷ xs) q 0 (record q { front = head_ptr xs }) (update m p none)
unfolding holds without
Removed-front m c p d xs q h hit = record {
  result = rw hit;
  chain = rw hit (
      IsChain-frame m _ xs h.chain.3 λ k g. update_other m p none k (ne_of_has k p xs g h.chain.2));
  at_front = rw hit;
  back_kept = refl;
  freed = λ k g e. ground arith;
  outside = λ k g. ground arith;
}

Removed-Walked :
    (m : Memory) (c p d : ℕ) (xs : Cells) (q : Queue) (r : ℕ) (q' : Queue) (m' : Memory)
    → IsQueue m q ((p, d) ∷ xs)
    → (d == c) ≡ false
    → Walked m c p d xs q r q' m'
    → Removed m c ((p, d) ∷ xs) q r q' m'
unfolding holds without
Removed-Walked m c p d xs q r q' m' h miss w = record {
  result = rw miss w.result;
  chain = rw miss w.chain;
  at_front = rw (miss, w.same_queue) h.at_front;
  back_kept = rw w.same_queue;
  freed = λ k g e. ground (arith, w.freed k);
  outside = w.outside;
}

abbrev pub OnQueue : (Queue → Type 0) → Option Queue → Type 0
OnQueue P none = ⊥
OnQueue P (some q) = P q

abbrev Result : Memory → ℕ → Cells → Queue → ℕ × Option Queue → Memory → Type 0
Result m c xs q (r, o) m' = OnQueue (λ q'. Removed m c xs q r q' m') o

-- The same with the front written out, which a match on the items computes.
remove_cells :
    (n : ℕ) (m : Memory) (back c : ℕ) (xs : Cells)
    → let q : Queue = record { front = head_ptr xs; back = back } in
      IsQueue m q xs → c ≢ 0 → length xs < n → Ends (Result m c xs q) (queue_remove n (some q) c m)
unfolding queue_remove remove_loop holds without
remove_cells zero m back c xs h nc fuel = absurd (omega arith)
remove_cells (suc n) m back c [] h nc fuel = rw (ne_test c 0 nc) (record {
  result = refl;
  chain = tt;
  at_front = refl;
  back_kept = refl;
  freed = λ a k. cc;
  outside = λ a k. refl;
})
remove_cells (suc n) m back c ((p, d) ∷ xs) h nc fuel =
    rw
      (
        ne_test c 0 nc,
        ne_test p 0 h.chain.0,
        load_lem m p (item d (head_ptr xs)) h.chain.0 h.chain.1,
      )
      (elim (Bool-cases (d == c)) [
        | inl hit ↦ rw (hit, unlink_front m q p d xs h) (Removed-front m c p d xs q h hit)
        | inr miss ↦ rw miss (
            Ends-bind (λ (r, q') m'. Walked m c p d xs q r q' m') _
              (remove_loop c n q p (head_ptr xs) m) _
              (remove_loop-Walked n m c q p d xs h.chain h.chain.2 (omega arith))
              λ (r, q') m' w. Removed-Walked m c p d xs q r q' m' h miss w)
      ])
  where
    q : Queue
    q = record { front = p; back = back }

-- With fuel beyond its length, `queue_remove` of data other than NULL ends without a fault: it
-- returns 0 and frees the first item with the data alone, or returns 1 if there is none; the front
-- and the links are those of the remaining items. The field `back` does not change.
pub queue_remove-Removed :
    (n : ℕ) (m : Memory) (q : Queue) (c : ℕ) (xs : Cells)
    → IsQueue m q xs
    → c ≢ 0
    → length xs < n
    → Ends (λ (r, o) m'. OnQueue (λ q'. Removed m c xs q r q' m') o) (queue_remove n (some q) c m)
queue_remove-Removed n m q c xs h nc fuel =
    subst (λ (x : Queue). IsQueue m x xs → Ends (Result m c xs x) (queue_remove n (some x) c m))
      (λ i. record { front = sym h.at_front i; back = q.back })
      (λ k. remove_cells n m q.back c xs k nc fuel) h

has_last : (xs : Cells) (p c : ℕ) → has p (xs ++ (p, c) ∷ []) ≡ true
has_last [] p c = ground arith
has_last ((a, b) ∷ xs) p c = ground (arith, has_last xs p c)

without_last : (c p : ℕ) (xs : Cells) → holds c xs ≡ false → without c (xs ++ (p, c) ∷ []) ≡ xs
unfolding holds without
without_last c p [] h = rw (eq_test c c refl)
without_last c p ((a, b) ∷ xs) h = ground (arith, without_last c p xs)

-- The last address of a chain is not NULL and occurs once.
last_new :
    (m : Memory) (xs : Cells) (p c : ℕ)
    → IsChain m (xs ++ (p, c) ∷ [])
    → (p ≢ 0) × (has p xs ≡ false)
last_new m [] p c ch = (ch.0, refl)
last_new m ((a, b) ∷ xs) p c ch =
    let rest = last_new m xs p c ch.3 in (rest.0, ground (arith, has_last xs p c, rest.1, ch.2))

dangling_push :
    (m' : Memory) (q' : Queue) (p fresh content : ℕ)
    → q'.back ≡ p
    → m' p ≡ none
    → p ≢ 0
    → fresh ≢ p
    → queue_push fresh q' content m' ≡ fault
unfolding queue_push new_item set_next deref
dangling_push m' q' p fresh content e gone np nf = ground arith

-- When the data is found in the last item alone, `queue_remove` leaves `back` at the item that it
-- frees, and the next push writes through it: a use after free, unless `malloc` hands out that very
-- address again.
pub push-queue_remove :
    (n : ℕ) (m : Memory) (q : Queue) (c p : ℕ) (xs : Cells) (fresh content : ℕ)
    → IsQueue m q (xs ++ (p, c) ∷ [])
    → holds c xs ≡ false
    → c ≢ 0
    → length (xs ++ (p, c) ∷ []) < n
    → fresh ≢ p
    → Ends
        (λ (r, o) m'. OnQueue (λ q'. queue_push fresh q' content m' ≡ fault) o)
        (queue_remove n (some q) c m)
push-queue_remove n m q c p xs fresh content h first nc fuel nf =
    Ends-mono _ _ (queue_remove n (some q) c m) (queue_remove-Removed n m q c _ h nc fuel)
      (λ (r, o) m' k. faults r o m' k)
  where
    gone : has p (without c (xs ++ (p, c) ∷ [])) ≡ false
    gone = rw (without_last c p xs first) (last_new m xs p c h.chain).1

    faults :
        (r : ℕ) (o : Option Queue) (m' : Memory)
        → OnQueue (λ q'. Removed m c (xs ++ (p, c) ∷ []) q r q' m') o
        → OnQueue (λ q'. queue_push fresh q' content m' ≡ fault) o
    faults r none m' k = k
    faults r (some q') m' w =
        dangling_push m' q' p fresh content (w.back_kept ∙ h.at_back ∙ last_ptr-append xs p c)
          (w.freed p (has_last xs p c) gone) (last_new m xs p c h.chain).0 nf
