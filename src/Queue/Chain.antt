-- ===== src/Queue/Chain.antt =====
-- The list that the items of A3/queue.c stand for: address and data of each, first to last.
use unh_cs.Common.{
  true-false, ℕ, ◌≡◌, refl, ◌≢◌, Bool, true, false, ◌||◌, some, List, [], ◌∷◌, ◌++◌, arith, ◌==◌,
  map, sym, ap, ◌∙◌,
}
use unh_cs.Queue.Memory.{Memory, item}
use unh_cs.Queue.Ops.{Queue}

abbrev pub Cells : Type 0
Cells = List (ℕ × ℕ)

abbrev pub has : ℕ → Cells → Bool
has a [] = false
has a ((p, d) ∷ xs) = (p == a) || has a xs

abbrev pub head_ptr : Cells → ℕ
head_ptr [] = 0
head_ptr ((p, d) ∷ xs) = p

abbrev pub last_ptr : Cells → ℕ
last_ptr [] = 0
last_ptr ((p, d) ∷ []) = p
last_ptr ((p, d) ∷ x ∷ xs) = last_ptr (x ∷ xs)

abbrev pub last_data : Cells → ℕ
last_data [] = 0
last_data ((p, d) ∷ []) = d
last_data ((p, d) ∷ x ∷ xs) = last_data (x ∷ xs)

-- The items are at distinct addresses, none of them NULL, and each points to the one behind it.
abbrev pub IsChain : Memory → Cells → Type 0
IsChain m [] = Unit
IsChain m ((p, d) ∷ xs) =
    (p ≢ 0) × (m p ≡ some (item d (head_ptr xs))) × (has p xs ≡ false) × IsChain m xs

-- The fields of the queue point to the first and to the last item.
pub record IsQueue (m : Memory) (q : Queue) (xs : Cells) : Type 0 where
  pub chain : IsChain m xs
  pub at_front : q.front ≡ head_ptr xs
  pub at_back : q.back ≡ last_ptr xs

-- What the queue holds, in order.
abbrev pub contents : Cells → List ℕ
contents = map (λ x. x.1)

-- A chain survives any change away from its own addresses.
pub IsChain-frame :
    (m m' : Memory) (xs : Cells)
    → IsChain m xs
    → ((a : ℕ) → has a xs ≡ true → m' a ≡ m a)
    → IsChain m' xs
IsChain-frame m m' [] c h = tt
IsChain-frame m m' ((p, d) ∷ xs) c h =
    (c.0, ground (arith, h p), c.2, IsChain-frame m m' xs c.3 (λ a k. h a (ground arith)))

pub has-append : (a : ℕ) (xs ys : Cells) → has a (xs ++ ys) ≡ (has a xs || has a ys)
has-append a [] ys = refl
has-append a ((p, d) ∷ xs) ys = ground (arith, has-append a xs ys)

pub last_ptr-ne_zero :
    (m : Memory) (x : ℕ × ℕ) (xs : Cells) → IsChain m (x ∷ xs) → last_ptr (x ∷ xs) ≢ 0
last_ptr-ne_zero m (p, d) [] c = c.0
last_ptr-ne_zero m (p, d) (y ∷ xs) c = last_ptr-ne_zero m y xs c.3

pub has-last_ptr : (x : ℕ × ℕ) (xs : Cells) → has (last_ptr (x ∷ xs)) (x ∷ xs) ≡ true
has-last_ptr (p, d) [] = ground arith
has-last_ptr (p, d) (y ∷ xs) = ground (arith, has-last_ptr y xs)

pub last_item :
    (m : Memory) (x : ℕ × ℕ) (xs : Cells)
    → IsChain m (x ∷ xs)
    → m (last_ptr (x ∷ xs)) ≡ some (item (last_data (x ∷ xs)) 0)
last_item m (p, d) [] c = c.1
last_item m (p, d) (y ∷ xs) c = last_item m y xs c.3

pub last_ptr-append : (xs : Cells) (p d : ℕ) → last_ptr (xs ++ (p, d) ∷ []) ≡ p
last_ptr-append [] p d = refl
last_ptr-append (x ∷ []) p d = refl
last_ptr-append (x ∷ y ∷ xs) p d = last_ptr-append (y ∷ xs) p d

pub has_head : (a b : ℕ) (xs : Cells) → has a ((a, b) ∷ xs) ≡ true
has_head a b xs = ground arith

pub ne_last_ptr : (a : ℕ) (y : ℕ × ℕ) (xs : Cells) → has a (y ∷ xs) ≡ false → a ≢ last_ptr (y ∷ xs)
ne_last_ptr a y xs h e =
    true-false (sym (has-last_ptr y xs) ∙ ap (λ (p : ℕ). has p (y ∷ xs)) (sym e) ∙ h)

pub ne_of_has : (a b : ℕ) (xs : Cells) → has a xs ≡ true → has b xs ≡ false → b ≢ a
ne_of_has a b xs h k e = true-false (sym h ∙ ap (λ (p : ℕ). has p xs) (sym e) ∙ k)

-- The last item pointed on to a new one behind it.
pub IsChain-extend :
    (m m' : Memory) (x : ℕ × ℕ) (xs : Cells) (p d : ℕ)
    → IsChain m (x ∷ xs)
    → p ≢ 0
    → has p (x ∷ xs) ≡ false
    → ((a : ℕ) → has a (x ∷ xs) ≡ true → a ≢ last_ptr (x ∷ xs) → m' a ≡ m a)
    → m' (last_ptr (x ∷ xs)) ≡ some (item (last_data (x ∷ xs)) p)
    → m' p ≡ some (item d 0)
    → IsChain m' ((x ∷ xs) ++ (p, d) ∷ [])
IsChain-extend m m' (a, b) [] p d c ne new same at_last at_new =
    (c.0, at_last, ground arith, (ne, at_new, refl, tt))
IsChain-extend m m' (a, b) (y ∷ xs) p d c ne new same at_last at_new = (
  c.0,
  same a (has_head a b (y ∷ xs)) (ne_last_ptr a y xs c.2) ∙ c.1,
  ground (arith, has-append a (y ∷ xs) ((p, d) ∷ [])),
  IsChain-extend m m' y xs p d c.3 ne (ground arith) (λ a' h l. same a' (ground arith) l) at_last
      at_new,
)
