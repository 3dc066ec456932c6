-- ===== src/Dsx/Marks.antt =====
-- The array of marks of parse_code in A1/P2/dsx20.c.
use unh_cs.Common.{
  ℕ, zero, suc, ◌≤◌, ◌<◌, ◌≡◌, ◌⊎◌, inl, inr, refl, ap, Bool, true, false, List, [], ◌∷◌, length,
  get_elem?-set_self, arith,
}
use unh_cs.Dsx.Parse.{is_marked, mark, blank}

-- How many entries have no mark.
pub unmarked : List Bool → ℕ
unmarked [] = 0
unmarked (true ∷ d) = unmarked d
unmarked (false ∷ d) = suc (unmarked d)

pub marked-lt : (d : List Bool) (i : ℕ) → is_marked d i ≡ true → i < length d
marked-lt [] i h = cc
marked-lt (b ∷ d) zero h = omega arith
marked-lt (b ∷ d) (suc i) h = omega (arith, marked-lt d i h)

pub marked-mark_self : (d : List Bool) (i : ℕ) → i < length d → is_marked (mark d i) i ≡ true
marked-mark_self d i h = rw (get_elem?-set_self d i true h, is_marked) refl

pub marked-mark_mono :
    (d : List Bool) (i j : ℕ) → is_marked d j ≡ true → is_marked (mark d i) j ≡ true
marked-mark_mono [] i j h = h
marked-mark_mono (b ∷ d) zero zero h = refl
marked-mark_mono (b ∷ d) zero (suc j) h = h
marked-mark_mono (b ∷ d) (suc i) zero h = h
marked-mark_mono (b ∷ d) (suc i) (suc j) h = marked-mark_mono d i j h

pub marked-mark_inv :
    (d : List Bool) (i j : ℕ) → is_marked (mark d i) j ≡ true → (i ≡ j) ⊎ (is_marked d j ≡ true)
marked-mark_inv [] i j h = inr h
marked-mark_inv (b ∷ d) zero zero h = inl refl
marked-mark_inv (b ∷ d) zero (suc j) h = inr h
marked-mark_inv (b ∷ d) (suc i) zero h = inr h
marked-mark_inv (b ∷ d) (suc i) (suc j) h = elim (marked-mark_inv d i j h) [
  | inl e ↦ inl (ap suc e)
  | inr m ↦ inr m
]

pub unmarked-mark_le : (d : List Bool) (i : ℕ) → unmarked (mark d i) ≤ unmarked d
unfolding unmarked
unmarked-mark_le [] i = omega arith
unmarked-mark_le (true ∷ d) zero = omega arith
unmarked-mark_le (false ∷ d) zero = omega arith
unmarked-mark_le (true ∷ d) (suc i) = unmarked-mark_le d i
unmarked-mark_le (false ∷ d) (suc i) = omega (arith, unmarked-mark_le d i)

pub unmarked-mark_lt :
    (d : List Bool) (i : ℕ)
    → i < length d
    → is_marked d i ≡ false
    → unmarked (mark d i) < unmarked d
unfolding unmarked
unmarked-mark_lt [] i lt h = absurd (omega arith)
unmarked-mark_lt (true ∷ d) zero lt h = cc
unmarked-mark_lt (false ∷ d) zero lt h = omega arith
unmarked-mark_lt (true ∷ d) (suc i) lt h = unmarked-mark_lt d i (omega arith) h
unmarked-mark_lt (false ∷ d) (suc i) lt h = omega (arith, unmarked-mark_lt d i (omega arith) h)

pub length-blank : (n : ℕ) → length (blank n) ≡ n
length-blank zero = refl
length-blank (suc n) = ap suc (length-blank n)

unmarked-blank : (n : ℕ) → unmarked (blank n) ≡ n
unfolding unmarked
unmarked-blank zero = refl
unmarked-blank (suc n) = ap suc (unmarked-blank n)

pub marked-blank : (n i : ℕ) → is_marked (blank n) i ≡ false
marked-blank zero i = refl
marked-blank (suc n) zero = refl
marked-blank (suc n) (suc i) = marked-blank n i

pub unmarked-start : (n : ℕ) → unmarked (mark (blank (suc n)) 0) ≡ n
unfolding unmarked
unmarked-start n = unmarked-blank n
