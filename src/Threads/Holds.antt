-- ===== src/Threads/Holds.antt =====
-- A predicate on the state that a call of A3/thread.c leaves behind, if it returns.
use unh_cs.Common.{ℕ, ◌≡◌, refl, Bool, true, false, Option, none, some, List, if◌then◌else◌}
use unh_cs.Threads.State.{
  System, Tcb, Mutex, CondInfo, Outcome, value, exited, fault, unfinished, Call, follow, live,
  load_tcb, load_mutex, load_cond,
}

module _ {A : Type 0} (P : System → Type 0) where
  abbrev pub Holds : Outcome A → Type 0
  Holds (value a s) = P s
  Holds exited = Unit
  Holds fault = Unit
  Holds unfinished = Unit

module _ {A B : Type 0} (P : System → Type 0) where
  pub Holds-follow :
      (o : Outcome A) (k : A → Call B)
      → Holds P o
      → ((a : A) (s : System) → P s → Holds P (k a s))
      → Holds P (follow o k)
  Holds-follow (value a s) k h f = f a s h
  Holds-follow exited k h f = tt
  Holds-follow fault k h f = tt
  Holds-follow unfinished k h f = tt

  Holds-live :
      (o : Option A) (k : A → Call B) (s : System)
      → ((a : A) → o ≡ some a → Holds P (k a s))
      → Holds P (follow (live o s) k)
  Holds-live none k s f = tt
  Holds-live (some a) k s f = f a refl

module _ {B : Type 0} (P : System → Type 0) where
  pub Holds-load_tcb :
      (p : ℕ) (s : System) (k : Tcb → Call B)
      → ((t : Tcb) → s.tcb p ≡ some t → Holds P (k t s))
      → Holds P (follow (load_tcb p s) k)
  unfolding load_tcb
  Holds-load_tcb p s k f = Holds-live P (s.tcb p) k s f

  pub Holds-load_mutex :
      (p : ℕ) (s : System) (k : Mutex → Call B)
      → ((m : Mutex) → s.mutex p ≡ some m → Holds P (k m s))
      → Holds P (follow (load_mutex p s) k)
  unfolding load_mutex
  Holds-load_mutex p s k f = Holds-live P (s.mutex p) k s f

  pub Holds-load_cond :
      (p : ℕ) (s : System) (k : List CondInfo → Call B)
      → ((c : List CondInfo) → s.cond p ≡ some c → Holds P (k c s))
      → Holds P (follow (load_cond p s) k)
  unfolding load_cond
  Holds-load_cond p s k f = Holds-live P (s.cond p) k s f

  pub Holds-if :
      (b : Bool) (x y : Outcome B)
      → (b ≡ true → Holds P x)
      → (b ≡ false → Holds P y)
      → Holds P (if b then x else y)
  Holds-if true x y f g = f refl
  Holds-if false x y f g = g refl

module _ {A B : Type 0} (P : System → Type 0) where
  -- A dereference written as a test for NULL.
  pub Holds-some :
      (o : Option A) (k : A → Outcome B)
      → ((a : A) → o ≡ some a → Holds P (k a))
      → Holds P (elim o [ none ↦ fault | some a ↦ k a ])
  Holds-some none k f = tt
  Holds-some (some a) k f = f a refl
