-- ===== src/Threads/Deadlock.antt =====
-- detect_deadlock of A3/thread.c: the two walkers meet exactly if the chain of observers never ends.
use unh_cs.Common.{
  false-true, some-none, ℕ, suc, ◌+◌, ◌≡◌, refl, ◌≤◌, ◌<◌, inl, inr, true, false, Option, none,
  some, Bool-cases, Option-cases, arith, eq_test, ap, ◌∙◌,
}
use unh_cs.Threads.State.{System}
use unh_cs.Threads.Join.{answer, hop, detect_deadlock, observer_of, tid_of, is_dangling}
use unh_cs.Threads.Chain.{walk, walk-add, Endless, returns-Endless, Distinct}
use unh_cs.Threads.Walkers.{next_slow, chase-Endless, chase-meets, chase-ended}

-- The chain of observers from the current thread.
abbrev pub waiters : System → ℕ → Option ℕ
waiters s n = walk (observer_of s) n (some s.current)

-- A pointer that dangles has no observer.
dangling-observer_of :
    (s : System) (x : Option ℕ) → is_dangling s x ≡ true → hop (observer_of s) x ≡ none
unfolding is_dangling observer_of
dangling-observer_of s none e = refl
dangling-observer_of s (some p) e = elim (Option-cases (s.tcb p)) [
  | inl dead ↦ rw (dead, observer_of) refl
  | inr (t, there) ↦ absurd (false-true (rw (there, is_dangling) at e))
]

Endless-IsLive :
    (s : System)
    → Endless (observer_of s) (some s.current)
    → (k : ℕ) → is_dangling s (waiters s k) ≡ false
Endless-IsLive s going k = elim (Bool-cases (is_dangling s (waiters s k))) [
  | inr fine ↦ fine
  | inl bad ↦ absurd (
      going (suc k) (
        next_slow (observer_of s) (tid_of s) (is_dangling s) k (some s.current) _ refl
        ∙ dangling-observer_of s (waiters s k) bad))
]

-- The answer "deadlock" is given only if the chain of observers from the current thread never ends,
-- when the TCBs on the chain have different ids.
pub detect_deadlock-Endless :
    (fuel : ℕ) (s : System)
    → Distinct (observer_of s) (tid_of s) (some s.current)
    → detect_deadlock fuel s ≡ answer true
    → Endless (observer_of s) (some s.current)
unfolding detect_deadlock walk
detect_deadlock-Endless fuel s inj e =
    chase-Endless (observer_of s) (tid_of s) (is_dangling s) fuel 0 0 (some s.current)
      (some s.current) (some s.current) inj refl refl refl e

-- A chain of observers that ends within m steps, and on which each pointer leads to a live TCB, is
-- answered "no deadlock" within m + 1 rounds, when the TCBs on the chain have different ids.
pub detect_deadlock-ended :
    (fuel m : ℕ) (s : System)
    → Distinct (observer_of s) (tid_of s) (some s.current)
    → ((k : ℕ) → is_dangling s (waiters s k) ≡ false)
    → waiters s m ≡ none
    → m < fuel
    → detect_deadlock fuel s ≡ answer false
unfolding detect_deadlock walk
detect_deadlock-ended fuel m s inj live ended lt =
    chase-ended (observer_of s) (tid_of s) (is_dangling s) fuel 0 0 m (some s.current)
      (some s.current) (some s.current) inj refl (omega arith) (omega arith) refl refl ended live

-- A chain of observers that leads back to the current thread after c steps, c at least 1, is answered
-- "deadlock" within c rounds.
pub detect_deadlock-cycle :
    (fuel c : ℕ) (s : System)
    → 1 ≤ c
    → c ≤ fuel
    → waiters s c ≡ some s.current
    → detect_deadlock fuel s ≡ answer true
unfolding detect_deadlock walk
detect_deadlock-cycle fuel c s pos le cycle =
    let o : Option ℕ = some s.current in
    let going = returns-Endless (observer_of s) c o pos cycle (λ z. some-none z) in
    let twice : waiters s (c + c) ≡ o =
      walk-add (observer_of s) c c (c + c) o refl ∙ ap (walk (observer_of s) c) cycle ∙ cycle in
    chase-meets (observer_of s) (tid_of s) (is_dangling s) fuel 0 0 c (c + c) o o o refl refl
      (omega arith) (omega arith) refl refl going (Endless-IsLive s going)
      (rw (cycle, twice) (eq_test (tid_of s s.current) (tid_of s s.current) refl))
