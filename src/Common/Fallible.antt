-- ===== src/Common/Fallible.antt =====
-- Steps that may fail, as Option, and the C switch.
use Prim.Native.Nat.{ℕ}
use mathlib.Core.Path.{◌≡◌, refl, ap, ◌∙◌}
use mathlib.Core.List.{List, [], ◌∷◌}
use mathlib.Core.Option.{Option, none, some}
use unh_cs.Common.Tests.{◌==◌, if◌then◌else◌}

-- What follows a step that may fail.
abbrev pub ◌>>=◌ : {A B : Type 0} → Option A → (A → Option B) → Option B
none >>= k = none
some a >>= k = k a

infixl 5 ◌>>=◌
pub bind_ext :
    {A B : Type 0} (o : Option A) {k l : A → Option B}
    → ((a : A) → k a ≡ l a)
    → (o >>= k) ≡ (o >>= l)
bind_ext none h = refl
bind_ext (some a) h = h a

pub bind_some :
    {A B : Type 0} (o : Option A) {a : A} (k : A → Option B) {r : Option B}
    → o ≡ some a
    → k a ≡ r
    → (o >>= k) ≡ r
bind_some o k e f = ap (λ x. x >>= k) e ∙ f

-- A switch: the first case with the value, or the default.
abbrev pub switch {ℓ} : {A : Type ℓ} → ℕ → List (ℕ × A) → A → A
switch b [] d = d
switch b ((c, a) ∷ cs) d = if b == c then a else switch b cs d
