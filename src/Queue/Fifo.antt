-- ===== src/Queue/Fifo.antt =====
-- push and pop of A3/queue.c are those of a first-in-first-out list.
use unh_cs.Common.{
  ℕ, ◌≡◌, refl, ◌≢◌, false, none, some, [], ◌∷◌, ◌++◌, arith, ◌==◌, if◌then◌else◌, update, sym, ◌∙◌,
  update_self, update_other, eq_test, ne_test,
}
use unh_cs.Queue.Memory.{
  Memory, Item, item, Outcome, value, fault, unfinished, Run, chain_run, deref, load, set_next,
  free, new_item,
}
use unh_cs.Queue.Ops.{Queue, queue_push, queue_pop, next}
use unh_cs.Queue.Chain.{
  Cells, has, head_ptr, last_ptr, last_data, IsChain, IsQueue, IsChain-frame, last_ptr-ne_zero,
  has-last_ptr, last_item, last_ptr-append, IsChain-extend, ne_of_has,
}

-- A computation ends without a fault, in a state of which `P` holds.
abbrev pub Ends : {A : Type 0} → (A → Memory → Type 0) → Outcome A → Type 0
Ends P (value a m) = P a m
Ends P fault = ⊥
Ends P unfinished = ⊥

pub deref_lem : (m : Memory) (p : ℕ) (i : Item) → p ≢ 0 → m p ≡ some i → deref m p ≡ some i
unfolding deref
deref_lem m p i ne e = ground arith

module _ (m : Memory) (p : ℕ) (i : Item) (ne : p ≢ 0) (e : m p ≡ some i) where
  pub load_lem : load p m ≡ value i m
  unfolding load
  load_lem = rw (deref_lem m p i ne e, load)

  pub set_next_lem : (q : ℕ) → set_next p q m ≡ value tt (update m p (some (item i.content q)))
  unfolding set_next
  set_next_lem q = rw (deref_lem m p i ne e, set_next)

  pub free_lem : free p m ≡ value tt (update m p none)
  unfolding free
  free_lem = rw (deref_lem m p i ne e, free)

pub unused_not-has :
    (m : Memory) (a : ℕ) (xs : Cells) → IsChain m xs → m a ≡ none → has a xs ≡ false
unused_not-has m a [] c h = refl
unused_not-has m a ((p, d) ∷ xs) c h = ground (arith, unused_not-has m a xs c.3)

-- Behind a push the memory differs at the new item and at the last one alone.
abbrev pub Pushed : Memory → Cells → ℕ → ℕ → Queue → Memory → Type 0
Pushed m xs fresh content q m' =
    IsQueue m' q (xs ++ (fresh, content) ∷ [])
    × ((a : ℕ) → has a xs ≡ false → a ≢ fresh → m' a ≡ m a)

-- Given an address that is not NULL and not in use, a push on a queue whose chain is sound ends
-- without a fault with a queue that has one more item at its end, and writes to nothing but the
-- new item and the items of the queue.
pub push-Pushed :
    (m : Memory) (q : Queue) (xs : Cells) (fresh content : ℕ)
    → IsQueue m q xs
    → fresh ≢ 0
    → m fresh ≡ none
    → Ends (Pushed m xs fresh content) (queue_push fresh q content m)
unfolding queue_push new_item
push-Pushed m q [] fresh content h ne unused =
    rw (ne_test fresh 0 ne, eq_test q.back 0 h.at_back)
      (
        record { chain = (ne, ground arith, refl, tt); at_front = refl; at_back = refl },
        λ a o n. ground arith,
      )
push-Pushed m q (x ∷ xs) fresh content h ne unused =
    let last = last_ptr (x ∷ xs) in
    let out = unused_not-has m fresh (x ∷ xs) h.chain unused in
    let m1 : Memory = update m fresh (some (item content 0)) in
    let ne_last = last_ptr-ne_zero m x xs h.chain in
    let ne_fresh : last ≢ fresh =
      λ e. ne_of_has last fresh (x ∷ xs) (has-last_ptr x xs) out (sym e) in
    let at_last : m1 last ≡ some (item (last_data (x ∷ xs)) 0) =
      update_other m fresh _ last (λ e. ne_fresh (sym e)) ∙ last_item m x xs h.chain in
    rw
      (
        ne_test fresh 0 ne,
        h.at_back,
        ne_test last 0 ne_last,
        set_next_lem m1 last _ ne_last at_last fresh,
      )
      (
        record {
          chain =
              IsChain-extend m _ x xs fresh content h.chain ne out
                (λ a k l.
                  update_other m1 last _ a (λ e. l (sym e))
                  ∙ update_other m fresh _ a (ne_of_has a fresh (x ∷ xs) k out))
                (update_self m1 last _)
                (update_other m1 last _ fresh ne_fresh ∙ update_self m fresh _);
          at_front = h.at_front;
          at_back = sym (last_ptr-append (x ∷ xs) fresh content);
        },
        λ a o n.
            update_other m1 last _ a (λ e. ne_of_has last a (x ∷ xs) (has-last_ptr x xs) o (sym e))
            ∙ update_other m fresh _ a (λ e. n (sym e)),
      )

abbrev pub Popped : Memory → ℕ → ℕ → Cells → ℕ × Queue → Memory → Type 0
Popped m p content xs (r, q) m' = (r ≡ content) × IsQueue m' q xs × (m' ≡ update m p none)

popped_back :
    (m : Memory) (p content : ℕ) (xs : Cells) (back : ℕ)
    → IsChain m ((p, content) ∷ xs)
    → back ≡ last_ptr ((p, content) ∷ xs)
    → (if head_ptr xs == 0 then 0 else back) ≡ last_ptr xs
popped_back m p content [] back c e = refl
popped_back m p content ((a, d) ∷ xs) back c e = rw (ne_test a 0 c.3.0) e

-- A pop of a queue with items, whose chain is sound, returns the data of the first, frees it
-- alone, and leaves a queue of the rest.
pub pop-Popped :
    (m : Memory) (q : Queue) (p content : ℕ) (xs : Cells)
    → IsQueue m q ((p, content) ∷ xs)
    → Ends (Popped m p content xs) (queue_pop q m)
unfolding queue_pop
pop-Popped m q p content xs h =
    rw
      (
        h.at_front,
        ne_test p 0 h.chain.0,
        load_lem m p (item content (head_ptr xs)) h.chain.0 h.chain.1,
        free_lem m p (item content (head_ptr xs)) h.chain.0 h.chain.1,
      )
      (
        refl,
        record {
          chain = IsChain-frame m _ xs h.chain.3 (λ a k. ground arith);
          at_front = refl;
          at_back = popped_back m p content xs q.back h.chain h.at_back;
        },
        refl,
      )

pub pop-nil : (m : Memory) (q : Queue) → IsQueue m q [] → queue_pop q m ≡ value (0, q) m
unfolding queue_pop
pop-nil m q h = rw (eq_test q.front 0 h.at_front)

module _ {A B : Type 0} where
  pub Ends-bind :
      (P : A → Memory → Type 0) (Q : B → Memory → Type 0) (r : Outcome A) (k : A → Run B)
      → Ends P r
      → ((a : A) (m : Memory) → P a m → Ends Q (k a m))
      → Ends Q (chain_run r k)
  Ends-bind P Q (value a m) k p next = next a m p
  Ends-bind P Q fault k p next = absurd p
  Ends-bind P Q unfinished k p next = absurd p

pub Ends-mono :
    {A : Type 0} (P Q : A → Memory → Type 0) (r : Outcome A)
    → Ends P r
    → ((a : A) (m : Memory) → P a m → Q a m)
    → Ends Q r
Ends-mono P Q (value a m) p weaken = weaken a m p
Ends-mono P Q fault p weaken = p
Ends-mono P Q unfinished p weaken = p
