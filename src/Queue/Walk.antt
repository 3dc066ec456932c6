-- ===== src/Queue/Walk.antt =====
-- The walk of queue_remove of A3/queue.c behind the first item.
use unh_cs.Common.{
  ℕ, zero, suc, ◌≡◌, refl, ◌≢◌, ◌<◌, Bool, true, false, ◌||◌, none, some, [], ◌∷◌, arith, ◌==◌,
  if◌then◌else◌, update, sym, ◌∙◌, inl, inr, Bool-cases, update_self, update_other, ne_test, length,
}
use unh_cs.Queue.Memory.{Memory, item, value}
use unh_cs.Queue.Ops.{Queue, remove_loop, unlink}
use unh_cs.Queue.Chain.{Cells, has, head_ptr, IsChain, IsChain-frame, has_head, ne_of_has}
use unh_cs.Queue.Fifo.{Ends, Ends-mono, load_lem, set_next_lem, free_lem}

-- Whether some item holds the data, and the items without the first that does.
unfoldable pub holds : ℕ → Cells → Bool
holds c [] = false
holds c ((p, d) ∷ xs) = (d == c) || holds c xs

unfoldable pub without : ℕ → Cells → Cells
without c [] = []
without c ((p, d) ∷ xs) = if d == c then xs else (p, d) ∷ without c xs

-- `gone` is an address that the removal has freed.
abbrev pub Freed : ℕ → Cells → Memory → Type 0
Freed c xs m' = (a : ℕ) → has a xs ≡ true → has a (without c xs) ≡ false → m' a ≡ none

has-without : (c a : ℕ) (xs : Cells) → has a xs ≡ false → has a (without c xs) ≡ false
unfolding without
has-without c a [] h = refl
has-without c a ((p, d) ∷ xs) h = ground (arith, has-without c a xs)

-- Behind the walk from an item at `p` that is not to be removed.
pub record Walked (m : Memory) (c p d : ℕ) (xs : Cells) (q : Queue) (r : ℕ) (q' : Queue)
    (m' : Memory) : Type 0 where
  pub result : r ≡ (if holds c xs then 0 else 1)
  pub same_queue : q' ≡ q
  pub chain : IsChain m' ((p, d) ∷ without c xs)
  pub freed : Freed c xs m'
  pub outside : (a : ℕ) → has a ((p, d) ∷ xs) ≡ false → m' a ≡ m a

abbrev unlinked : Memory → (p d a after : ℕ) → Memory
unlinked m p d a after = update (update m p (some (item d after))) a none

unlink_lem :
    (m : Memory) (q : Queue) (p d a b : ℕ) (xs : Cells)
    → IsChain m ((p, d) ∷ (a, b) ∷ xs)
    → a ≢ q.front
    → unlink q p a (head_ptr xs) m ≡ value (0, q) (unlinked m p d a (head_ptr xs))
unfolding unlink
unlink_lem m q p d a b xs ch nf = rw (
  ne_test a q.front nf,
  set_next_lem m p (item d a) ch.0 ch.1 (head_ptr xs),
  free_lem (update m p (some (item d (head_ptr xs)))) a (item b (head_ptr xs)) ch.3.0 at_cur,
)
  where
    at_cur : update m p (some (item d (head_ptr xs))) a ≡ some (item b (head_ptr xs))
    at_cur = update_other m p _ a (ne_of_has a p ((a, b) ∷ xs) (has_head a b xs) ch.2) ∙ ch.3.1

unlink-Walked :
    (m : Memory) (c : ℕ) (q : Queue) (p d a b : ℕ) (xs : Cells)
    → IsChain m ((p, d) ∷ (a, b) ∷ xs)
    → a ≢ q.front
    → (b == c) ≡ true
    → Ends (λ (r, q') m'. Walked m c p d ((a, b) ∷ xs) q r q' m') (unlink q p a (head_ptr xs) m)
unfolding holds without
unlink-Walked m c q p d a b xs ch nf hit = rw (unlink_lem m q p d a b xs ch nf) (record {
  result = rw hit;
  same_queue = refl;
  chain = rw hit (
    ch.0,
    update_other (update m p _) a none p (λ e. ne_pa (sym e)) ∙ update_self m p _,
    ground arith,
    IsChain-frame m _ xs ch.3.3 λ k h.
        update_other (update m p _) a none k (ne_of_has k a xs h ch.3.2)
        ∙ update_other m p _ k (ne_of_has k p xs h (ground arith)),
  );
  freed = λ k h g. ground arith;
  outside = λ k h. ground arith;
})
  where
    ne_pa : p ≢ a
    ne_pa = ne_of_has a p ((a, b) ∷ xs) (has_head a b xs) ch.2

Walked-cons :
    (m : Memory) (c p d a b : ℕ) (xs : Cells) (q : Queue) (r : ℕ) (q' : Queue) (m' : Memory)
    → IsChain m ((p, d) ∷ (a, b) ∷ xs)
    → (b == c) ≡ false
    → Walked m c a b xs q r q' m'
    → Walked m c p d ((a, b) ∷ xs) q r q' m'
unfolding holds without
Walked-cons m c p d a b xs q r q' m' ch miss w = record {
  result = rw miss w.result;
  same_queue = w.same_queue;
  chain = rw miss (ch.0, w.outside p ch.2 ∙ ch.1, ground (arith, has-without c p xs), w.chain);
  freed = λ k h g. ground (arith, w.freed k);
  outside = λ k h. w.outside k (ground arith);
}

pub remove_loop-Walked :
    (n : ℕ) (m : Memory) (c : ℕ) (q : Queue) (p d : ℕ) (xs : Cells)
    → IsChain m ((p, d) ∷ xs)
    → has q.front xs ≡ false
    → length xs < n
    → Ends (λ (r, q') m'. Walked m c p d xs q r q' m') (remove_loop c n q p (head_ptr xs) m)
unfolding remove_loop holds without
remove_loop-Walked zero m c q p d xs ch nf fuel = absurd (omega arith)
remove_loop-Walked (suc n) m c q p d [] ch nf fuel = record {
  result = refl;
  same_queue = refl;
  chain = ch;
  freed = λ a k. cc;
  outside = λ a k. refl;
}
remove_loop-Walked (suc n) m c q p d ((a, b) ∷ xs) ch nf fuel =
    rw (ne_test a 0 ch.3.0, load_lem m a (item b (head_ptr xs)) ch.3.0 ch.3.1)
      (elim (Bool-cases (b == c)) [
        | inl hit ↦ rw hit (unlink-Walked m c q p d a b xs ch (ground arith) hit)
        | inr miss ↦ rw miss (
            Ends-mono _ _ (remove_loop c n q a (head_ptr xs) m)
              (remove_loop-Walked n m c q a b xs ch.3 (ground arith) (omega arith))
              (λ (r, q') m' w. Walked-cons m c p d a b xs q r q' m' ch miss w))
      ])
