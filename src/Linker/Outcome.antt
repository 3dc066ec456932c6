-- ===== src/Linker/Outcome.antt =====
-- A property of what a link by A2/P1/linkx20.c comes to, if it comes to something.
use unh_cs.Common.{◌≡◌, refl, Bool, true, false, if◌then◌else◌}
use mathlib.Core.Path.{subst}
use unh_cs.Linker.Output.{Linked, linked, no_code, duplicate, undefined, ◌>>=◌}

module _ {A : Type 0} (P : A → Type 0) where
  abbrev pub OnLinked : Linked A → Type 0
  OnLinked (linked a) = P a
  OnLinked no_code = Unit
  OnLinked (duplicate name) = Unit
  OnLinked undefined = Unit

  pub OnLinked_result : (l : Linked A) (a : A) → l ≡ linked a → OnLinked l → P a
  OnLinked_result l a e h = subst (λ x. OnLinked x) e h

module _ {A B : Type 0} (P : A → Type 0) (Q : B → Type 0) where
  pub OnLinked-bind :
      (l : Linked A) (k : A → Linked B)
      → OnLinked P l
      → ((a : A) → P a → OnLinked Q (k a))
      → OnLinked Q (l >>= k)
  OnLinked-bind (linked a) k h f = f a h
  OnLinked-bind no_code k h f = tt
  OnLinked-bind (duplicate name) k h f = tt
  OnLinked-bind undefined k h f = tt

module _ {A : Type 0} (P Q : A → Type 0) where
  pub OnLinked-both : (l : Linked A) → OnLinked P l → OnLinked Q l → OnLinked (λ a. P a × Q a) l
  OnLinked-both (linked a) p q = (p, q)
  OnLinked-both no_code p q = tt
  OnLinked-both (duplicate name) p q = tt
  OnLinked-both undefined p q = tt

pub OnLinked-if :
    {A : Type 0} (P : A → Type 0) (b : Bool) (x y : Linked A)
    → (b ≡ true → OnLinked P x)
    → (b ≡ false → OnLinked P y)
    → OnLinked P (if b then x else y)
OnLinked-if P true x y f g = f refl
OnLinked-if P false x y f g = g refl

pub anything : {A : Type 0} (l : Linked A) → OnLinked (λ _. Unit {0}) l
anything (linked a) = tt
anything no_code = tt
anything (duplicate name) = tt
anything undefined = tt
