-- ===== src/Threads/Chain.antt =====
-- The chains of observers of A3/thread.c: where they end, and that those that come back do not.
use unh_cs.Common.{
  false-true, some-none, ℕ, zero, suc, ◌+◌, ◌-◌, ◌≡◌, refl, ◌≢◌, ◌≤◌, ◌<◌, ◌⊎◌, inl, inr, true,
  Option, none, some, arith, ==_iff, sym, ap, ◌∙◌,
}
use unh_cs.Threads.Join.{hop, same_tid}

le_or_lt : (a b : ℕ) → (a ≤ b) ⊎ (b < a)
le_or_lt a b = omega arith

-- The n-th observer on the chain from `o`.
unfoldable pub walk : (ℕ → Option ℕ) → ℕ → Option ℕ → Option ℕ
walk obs zero o = o
walk obs (suc n) o = walk obs n (hop obs o)

module _ (obs : ℕ → Option ℕ) where
  walk-none : (n : ℕ) → walk obs n none ≡ none
  unfolding walk
  walk-none zero = refl
  walk-none (suc n) = walk-none n

  pub hop-walk : (n : ℕ) (o : Option ℕ) → hop obs (walk obs n o) ≡ walk obs n (hop obs o)
  unfolding walk
  hop-walk zero o = refl
  hop-walk (suc n) o = hop-walk n (hop obs o)

  pub walk-add : (m n r : ℕ) (o : Option ℕ) → m + n ≡ r → walk obs r o ≡ walk obs n (walk obs m o)
  unfolding walk
  walk-add zero n r o e = let q : r ≡ n = omega arith in ap (λ (k : ℕ). walk obs k o) q
  walk-add (suc m) n zero o e = absurd (omega arith)
  walk-add (suc m) n (suc r) o e = walk-add m n r (hop obs o) (omega arith)

  -- Once ended, a chain has ended for good.
  pub walk-ended : (m n : ℕ) (o : Option ℕ) → m ≤ n → walk obs m o ≡ none → walk obs n o ≡ none
  walk-ended m n o h e =
      walk-add m (n - m) n o (omega arith) ∙ ap (walk obs (n - m)) e ∙ walk-none (n - m)

-- The chain from `o` goes on for ever.
abbrev pub Endless : (ℕ → Option ℕ) → Option ℕ → Type 0
Endless obs o = (n : ℕ) → walk obs n o ≢ none

-- A chain that comes back to its start never ends.
pub returns-Endless :
    (obs : ℕ → Option ℕ) (k : ℕ) (o : Option ℕ)
    → 1 ≤ k
    → walk obs k o ≡ o
    → o ≢ none
    → Endless obs o
returns-Endless obs k o pos e live n = below (suc n) n (omega arith)
  where
    below : (b n : ℕ) → n < b → walk obs n o ≢ none
    below zero n h ended = elim h [ ]
    below (suc b) n h ended = elim (le_or_lt k n) [
      | inl le ↦
          below b (n - k) (omega arith)
            (ap (walk obs (n - k)) (sym e) ∙ sym (walk-add obs k (n - k) n o (omega arith)) ∙ ended)
      | inr lt ↦ live (sym e ∙ walk-ended obs n k o (omega arith) ended)
    ]

-- The TCBs on the chain are told apart by their ids.
abbrev pub Distinct : (ℕ → Option ℕ) → (ℕ → ℕ) → Option ℕ → Type 0
Distinct obs tid o =
    (i j a b : ℕ) → walk obs i o ≡ some a → walk obs j o ≡ some b → tid a ≡ tid b → a ≡ b

module _ (obs : ℕ → Option ℕ) (tid : ℕ → ℕ) (o : Option ℕ) where
  -- Two positions k and k + k that hold the same id.
  pub meet-Endless :
      (k d : ℕ)
      → Distinct obs tid o
      → 1 ≤ k
      → d ≡ k + k
      → same_tid tid (walk obs k o) (walk obs d o) ≡ true
      → Endless obs o
  meet-Endless k d inj pos e same = meeting (walk obs k o) (walk obs d o) refl refl same
    where
      meeting :
          (x y : Option ℕ)
          → walk obs k o ≡ x
          → walk obs d o ≡ y
          → same_tid tid x y ≡ true
          → Endless obs o
      meeting none y ex ey t = absurd (false-true t)
      meeting (some a) none ex ey t = absurd (false-true t)
      meeting (some a) (some b) ex ey t =
          let eq : a ≡ b = inj k d a b ex ey ((==_iff (tid a) (tid b)).0 t) in
          let back : walk obs k (some a) ≡ some a =
            ap (walk obs k) (sym ex)
            ∙ sym (walk-add obs k k d o (omega arith))
            ∙ ey
            ∙ ap some (sym eq) in
          λ n ended.
            returns-Endless obs k (some a) pos back (λ z. some-none z) n
              (ap (walk obs n) (sym ex)
                ∙ sym (walk-add obs k n (k + n) o refl)
                ∙ walk-ended obs n (k + n) o (omega arith) ended)
