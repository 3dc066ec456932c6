-- ===== src/Alloc/Kept.antt =====
-- The first step of markAndSweep in A4/alloc.c sets marks, of allocated blocks only, and changes
-- nothing else of the heap.
use unh_cs.Common.{
  ℕ, ◌+◌, ◌*◌, ◌≤◌, ◌≡◌, ◌⊎◌, inl, inr, refl, sym, ap, ◌∙◌, true, false, not, ◌||◌, some, List, [],
  ◌∷◌, ltb, ◌==◌, Bool-cases, if_both, true-false, some_inj, none-some, ==_iff, eq_test, arith,
}
use mathlib.Core.Path.{subst}
use unh_cs.Alloc.Blocks.{Block, block_size, heap_of, block_before, get_block}
use unh_cs.Alloc.Tiles.{Tiled}
use unh_cs.Alloc.Scan.{Marking, done, overwrote, null_block, exited, unfinished, ◌>>=◌, set_mark}

-- A predicate on a result, if there is one.
abbrev pub OnDone : {A : Type 0} → (A → Type 0) → Marking A → Type 0
OnDone P (done a) = P a
OnDone P (overwrote r) = Unit
OnDone P null_block = Unit
OnDone P exited = Unit
OnDone P unfinished = Unit

pub OnDone-bind :
    {A B : Type 0} (P : A → Type 0) (Q : B → Type 0) (m : Marking A) (k : A → Marking B)
    → OnDone P m
    → ((a : A) → P a → OnDone Q (k a))
    → OnDone Q (m >>= k)
OnDone-bind P Q (done a) k h f = f a h
OnDone-bind P Q (overwrote r) k h f = tt
OnDone-bind P Q null_block k h f = tt
OnDone-bind P Q exited k h f = tt
OnDone-bind P Q unfinished k h f = tt

pub both-OnDone :
    {A : Type 0} (P Q : A → Type 0) (m : Marking A)
    → OnDone P m
    → OnDone Q m
    → OnDone (λ x. P x × Q x) m
both-OnDone P Q (done x) p q = (p, q)
both-OnDone P Q (overwrote r) p q = tt
both-OnDone P Q null_block p q = tt
both-OnDone P Q exited p q = tt
both-OnDone P Q unfinished p q = tt

-- The heaps differ in marks only, none is taken away, and only allocated blocks got one.
abbrev pub OnlyMarks : List Block → List Block → Type 0
OnlyMarks [] [] = Unit
OnlyMarks [] (c ∷ cs) = ⊥
OnlyMarks (b ∷ bs) [] = ⊥
OnlyMarks (b ∷ bs) (c ∷ cs) =
    (c ≡ record b { mark = c.mark })
    × (b.mark ≡ true → c.mark ≡ true)
    × (c.mark ≡ true → (b.mark ≡ true) ⊎ (b.alloc ≡ true))
    × OnlyMarks bs cs

pub OnlyMarks-refl : (bs : List Block) → OnlyMarks bs bs
OnlyMarks-refl [] = tt
OnlyMarks-refl (b ∷ bs) = (refl, (λ m. m), (λ m. inl m), OnlyMarks-refl bs)

pub OnlyMarks-trans : (bs cs ds : List Block) → OnlyMarks bs cs → OnlyMarks cs ds → OnlyMarks bs ds
OnlyMarks-trans [] [] ds h g = g
OnlyMarks-trans [] (c ∷ cs) ds h g = absurd h
OnlyMarks-trans (b ∷ bs) [] ds h g = absurd h
OnlyMarks-trans (b ∷ bs) (c ∷ cs) [] h g = absurd g
OnlyMarks-trans (b ∷ bs) (c ∷ cs) (d ∷ ds) (e, keep, new, rest) (e', keep', new', rest') = (
  e' ∙ ap (λ (x : Block). record x { mark = d.mark }) e,
  (λ m. keep' (keep m)),
  (λ m. elim (new' m) [
    | inl marked ↦ new marked
    | inr live ↦ inr (sym (ap (λ (x : Block). x.alloc) e) ∙ live)
  ]),
  OnlyMarks-trans bs cs ds rest rest',
)

pub OnlyMarks-Tiled : (a e : ℕ) (bs cs : List Block) → OnlyMarks bs cs → Tiled a e bs → Tiled a e cs
OnlyMarks-Tiled a e [] [] h t = t
OnlyMarks-Tiled a e [] (c ∷ cs) h t = absurd h
OnlyMarks-Tiled a e (b ∷ bs) [] h t = absurd h
OnlyMarks-Tiled a e (b ∷ bs) (c ∷ cs) (same, _, _, rest) t = (
  ap (λ (x : Block). x.address) same ∙ t.0,
  subst (λ n. Tiled (a + block_size + n) e cs) (sym (ap (λ (x : Block). x.size) same))
      (OnlyMarks-Tiled (a + block_size + b.size) e bs cs rest t.1),
)

-- A block of a heap.
abbrev pub IsIn : Block → List Block → Type 0
IsIn b [] = ⊥
IsIn b (x ∷ xs) = (x ≡ b) ⊎ IsIn b xs

pub block_before-IsIn :
    (ptr : ℕ) (prev : Block) (bs : List Block) {b : Block}
    → block_before ptr prev bs ≡ some b
    → (prev ≡ b) ⊎ IsIn b bs
unfolding block_before
block_before-IsIn ptr prev [] e = absurd (none-some e)
block_before-IsIn ptr prev (x ∷ bs) e = elim (Bool-cases (ltb (8 * x.address) ptr)) [
  | inl before ↦ inr (block_before-IsIn ptr x bs (rw before at e))
  | inr here ↦ inl (some_inj (rw here at e))
]

pub get_block-IsIn :
    (ptr total : ℕ) (bs : List Block) {b : Block}
    → get_block ptr (heap_of bs total) ≡ some b
    → IsIn b bs
unfolding get_block
get_block-IsIn ptr total [] e = absurd (none-some e)
get_block-IsIn ptr total (x ∷ bs) e =
    elim (Bool-cases (ltb ptr (8 * x.address) || not (ltb ptr (8 * (x.address + total))))) [
      | inl out ↦ absurd (none-some (rw out at e))
      | inr within ↦ elim (block_before-IsIn ptr x (x ∷ bs) (rw within at e)) [
        | inl same ↦ inl same
        | inr later ↦ later
      ]
    ]

pub IsIn-address :
    (a e : ℕ) (bs : List Block) (b : Block) → Tiled a e bs → IsIn b bs → a ≤ b.address
IsIn-address a e [] b t h = absurd h
IsIn-address a e (x ∷ bs) b t (inl same) = omega (arith, t.0, ap (λ (y : Block). y.address) same)
IsIn-address a e (x ∷ bs) b t (inr h) =
    omega (arith, IsIn-address (a + block_size + x.size) e bs b t.1 h)

-- Setting the mark of an allocated block sets that mark only.
pub set_mark-OnlyMarks :
    (a e : ℕ) (bs : List Block) (b : Block)
    → Tiled a e bs
    → IsIn b bs
    → b.alloc ≡ true
    → OnlyMarks bs (set_mark b.address bs)
unfolding set_mark
set_mark-OnlyMarks a e [] b t h live = tt
set_mark-OnlyMarks a e (x ∷ bs) b t h live =
    if_both (OnlyMarks (x ∷ bs)) (x.address == b.address) _ _
      (λ here. (refl, (λ _. refl), (λ _. inr (same_block here h)), OnlyMarks-refl bs))
      (λ other. (
        refl,
        (λ m. m),
        (λ m. inl m),
        set_mark-OnlyMarks (a + block_size + x.size) e bs b t.1 (elsewhere other h) live,
      ))
  where
    same_block : (x.address == b.address) ≡ true → (x ≡ b) ⊎ IsIn b bs → x.alloc ≡ true
    same_block here (inl same) = ap (λ (y : Block). y.alloc) same ∙ live
    same_block here (inr later) = absurd (
        omega (
          arith,
          t.0,
          (==_iff x.address b.address).0 here,
          IsIn-address (a + block_size + x.size) e bs b t.1 later,
        ))

    elsewhere : (x.address == b.address) ≡ false → (x ≡ b) ⊎ IsIn b bs → IsIn b bs
    elsewhere other (inl same) = absurd (
        true-false (sym (eq_test x.address b.address (ap (λ (y : Block). y.address) same)) ∙ other))
    elsewhere other (inr later) = later

pub OnDone_result :
    {A : Type 0} (P : A → Type 0) (m : Marking A) (a : A) → m ≡ done a → OnDone P m → P a
OnDone_result P m a e h = subst (OnDone P) e h
