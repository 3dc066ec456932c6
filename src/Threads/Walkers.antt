-- ===== src/Threads/Walkers.antt =====
-- The loop of detect_deadlock of A3/thread.c: the rounds of its two walkers along any chain of observers.
use unh_cs.Common.{
  false-true, some-none, ℕ, zero, suc, ◌+◌, ◌≡◌, refl, ◌≢◌, ◌≤◌, ◌<◌, ◌⊎◌, inl, inr, Bool, true,
  false, Option, none, some, ◌||◌, ◌&&◌, true-false, arith, sym, ap, ◌∙◌,
}
use unh_cs.Threads.Join.{Answer, answer, crashed, hop, same_tid, both, meet_or, chase}
use unh_cs.Threads.Chain.{walk, hop-walk, walk-ended, Endless, Distinct, meet-Endless}

answer_inj : {a b : Bool} → answer a ≡ answer b → a ≡ b
answer_inj e = cc

crashed-answer : {a : Bool} → ◌≢◌ {A = Answer} crashed (answer a)
crashed-answer e = cc

-- A round that answers "deadlock" has met, or a later one has.
meet_or-true :
    (f x y : Option ℕ) (bad worse met : Bool) (again : Answer)
    → meet_or f x y bad worse met again ≡ answer true
    → (met ≡ true) ⊎ (again ≡ answer true)
unfolding meet_or
meet_or-true f none y bad worse met again e = absurd (false-true (answer_inj e))
meet_or-true none (some a) y bad worse met again e = absurd (false-true (answer_inj e))
meet_or-true (some f) (some a) y true worse met again e = absurd (crashed-answer e)
meet_or-true (some f) (some a) none false worse met again e = absurd (false-true (answer_inj e))
meet_or-true (some f) (some a) (some o) false true met again e = absurd (crashed-answer e)
meet_or-true (some f) (some a) (some o) false false true again e = inl refl
meet_or-true (some f) (some a) (some o) false false false again e = inr e

meet_or-met :
    (f x y : Option ℕ) (bad worse met : Bool) (again : Answer)
    → f ≢ none
    → x ≢ none
    → y ≢ none
    → bad ≡ false
    → worse ≡ false
    → (met ≡ true) ⊎ (again ≡ answer true)
    → meet_or f x y bad worse met again ≡ answer true
unfolding meet_or
meet_or-met f none y bad worse met again hf hx hy b w h = absurd (hx refl)
meet_or-met none (some a) y bad worse met again hf hx hy b w h = absurd (hf refl)
meet_or-met (some f) (some a) y true worse met again hf hx hy b w h = absurd (true-false b)
meet_or-met (some f) (some a) none false worse met again hf hx hy b w h = absurd (hy refl)
meet_or-met (some f) (some a) (some o) false true met again hf hx hy b w h = absurd (true-false w)
meet_or-met (some f) (some a) (some o) false false true again hf hx hy b w h = refl
meet_or-met (some f) (some a) (some o) false false false again hf hx hy b w (inl e) =
    absurd (false-true e)
meet_or-met (some f) (some a) (some o) false false false again hf hx hy b w (inr e) = e

-- A round that ends the search, or goes on with it.
meet_or-false :
    (f x y : Option ℕ) (bad worse met : Bool) (again : Answer)
    → bad ≡ false
    → worse ≡ false
    → meet_or f x y bad worse met again ≢ answer true
    → (y ≢ none → again ≡ answer false)
    → meet_or f x y bad worse met again ≡ answer false
unfolding meet_or
meet_or-false f none y bad worse met again b w h k = refl
meet_or-false none (some a) y bad worse met again b w h k = refl
meet_or-false (some f) (some a) y true worse met again b w h k = absurd (true-false b)
meet_or-false (some f) (some a) none false worse met again b w h k = refl
meet_or-false (some f) (some a) (some o) false true met again b w h k = absurd (true-false w)
meet_or-false (some f) (some a) (some o) false false true again b w h k = absurd (h refl)
meet_or-false (some f) (some a) (some o) false false false again b w h k = k (λ z. some-none z)

-- No pointer of a round dangles.
sound_step :
    (a b c d e : Bool)
    → a ≡ false
    → b ≡ false
    → c ≡ false
    → d ≡ false
    → (a || b || (e && (c || d))) ≡ false
sound_step a b c d e ea eb ec ed = ground (arith, ea, eb, ec, ed)

eq_or_lt : (a b : ℕ) → a ≤ b → (a ≡ b) ⊎ (a < b)
eq_or_lt a b h = omega arith

-- The loop follows the chain from `o`: at round k, `slow` is k steps along and `fast` k + k.
module _ (obs : ℕ → Option ℕ) (tid : ℕ → ℕ) (dangles : Option ℕ → Bool) where
  pub next_slow :
      (k : ℕ) (o slow : Option ℕ) → walk obs k o ≡ slow → walk obs (suc k) o ≡ hop obs slow
  unfolding walk
  next_slow k o slow e = sym (hop-walk obs k o) ∙ ap (hop obs) e

  pub chase-Endless :
      (n k d : ℕ) (o slow fast : Option ℕ)
      → Distinct obs tid o
      → d ≡ k + k
      → walk obs k o ≡ slow
      → walk obs d o ≡ fast
      → chase n obs tid dangles slow fast ≡ answer true
      → Endless obs o
  unfolding chase
  chase-Endless zero k d o slow fast inj ed es ef e = cc
  chase-Endless (suc n) k d o slow fast inj ed es ef e =
      let es' = next_slow k o slow es in
      let ef' = next_slow (suc d) o (hop obs fast) (next_slow d o fast ef) in
      elim (meet_or-true fast slow (hop obs fast) (dangles fast) _
        (same_tid tid (hop obs slow) (hop obs (hop obs fast)))
        (chase n obs tid dangles (hop obs slow) (hop obs (hop obs fast))) e) [
          | inl same ↦
              meet-Endless obs tid o (suc k) (suc (suc d)) inj (omega arith) (omega arith)
                (rw (es', ef') same)
          | inr later ↦
              chase-Endless n (suc k) (suc (suc d)) o (hop obs slow) (hop obs (hop obs fast)) inj
                (omega arith) es' ef' later
        ]

  -- No pointer on the chain dangles.
  abbrev pub IsLive : Option ℕ → Type 0
  IsLive o = (k : ℕ) → dangles (walk obs k o) ≡ false

  live_at : (k : ℕ) (o x : Option ℕ) → IsLive o → walk obs k o ≡ x → dangles x ≡ false
  live_at k o x live e = ap dangles (sym e) ∙ live k

  -- The pointers that a round at the place k follows.
  live_step :
      (k d : ℕ) (o slow fast : Option ℕ)
      → IsLive o
      → walk obs k o ≡ slow
      → walk obs d o ≡ fast
      → (dangles slow
          || dangles (hop obs fast)
          || (both (hop obs slow) (hop obs (hop obs fast))
              && (dangles (hop obs slow) || dangles (hop obs (hop obs fast)))))
        ≡ false
  live_step k d o slow fast live es ef =
      let ef1 = next_slow d o fast ef in
      sound_step (dangles slow) (dangles (hop obs fast)) (dangles (hop obs slow))
        (dangles (hop obs (hop obs fast))) (both (hop obs slow) (hop obs (hop obs fast)))
        (live_at k o slow live es) (live_at (suc d) o (hop obs fast) live ef1)
        (live_at (suc k) o (hop obs slow) live (next_slow k o slow es))
        (live_at (suc (suc d)) o (hop obs (hop obs fast)) live
          (next_slow (suc d) o (hop obs fast) ef1))

  -- A meeting at round c is found within c rounds, if the chain does not end.
  pub chase-meets :
      (n k d c r : ℕ) (o slow fast : Option ℕ)
      → d ≡ k + k
      → r ≡ c + c
      → k < c
      → c ≤ n + k
      → walk obs k o ≡ slow
      → walk obs d o ≡ fast
      → Endless obs o
      → IsLive o
      → same_tid tid (walk obs c o) (walk obs r o) ≡ true
      → chase n obs tid dangles slow fast ≡ answer true
  unfolding chase
  chase-meets zero k d c r o slow fast ed er lt le es ef going live met = absurd (omega arith)
  chase-meets (suc n) k d c r o slow fast ed er lt le es ef going live met =
      let es' = next_slow k o slow es in
      let ef1 = next_slow d o fast ef in
      let ef' = next_slow (suc d) o (hop obs fast) ef1 in
      meet_or-met fast slow (hop obs fast) (dangles fast) _
        (same_tid tid (hop obs slow) (hop obs (hop obs fast)))
        (chase n obs tid dangles (hop obs slow) (hop obs (hop obs fast))) (λ z. going d (ef ∙ z))
        (λ z. going k (es ∙ z)) (λ z. going (suc d) (ef1 ∙ z)) (live_at d o fast live ef)
        (live_step k d o slow fast live es ef)
        (elim (eq_or_lt (suc k) c lt) [
          | inl last ↦
              let twice : suc (suc d) ≡ r = omega arith in
              inl (rw (sym es', sym ef', last, twice) met)
          | inr more ↦ inr (
              chase-meets n (suc k) (suc (suc d)) c r o (hop obs slow) (hop obs (hop obs fast))
                (omega arith) er more (omega arith) es' ef' going live met)
        ])

  -- A chain that ends within m observers is answered within m + 1 rounds.
  pub chase-ended :
      (n k d m : ℕ) (o slow fast : Option ℕ)
      → Distinct obs tid o
      → d ≡ k + k
      → k ≤ m
      → m < n + k
      → walk obs k o ≡ slow
      → walk obs d o ≡ fast
      → walk obs m o ≡ none
      → IsLive o
      → chase n obs tid dangles slow fast ≡ answer false
  unfolding chase
  chase-ended zero k d m o slow fast inj ed le lt es ef ended live = absurd (omega arith)
  chase-ended (suc n) k d m o slow fast inj ed le lt es ef ended live =
      let es' = next_slow k o slow es in
      let ef1 = next_slow d o fast ef in
      let ef' = next_slow (suc d) o (hop obs fast) ef1 in
      meet_or-false fast slow (hop obs fast) (dangles fast) _
        (same_tid tid (hop obs slow) (hop obs (hop obs fast)))
        (chase n obs tid dangles (hop obs slow) (hop obs (hop obs fast))) (live_at d o fast live ef)
        (live_step k d o slow fast live es ef)
        (λ e. chase-Endless (suc n) k d o slow fast inj ed es ef e m ended)
        (λ more. elim (eq_or_lt k m le) [
          | inl last ↦ absurd (more (sym ef1 ∙ walk-ended obs m (suc d) o (omega arith) ended))
          | inr before ↦
              chase-ended n (suc k) (suc (suc d)) m o (hop obs slow) (hop obs (hop obs fast)) inj
                (omega arith) before (omega arith) es' ef' ended live
        ])
