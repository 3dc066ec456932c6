-- ===== src/Alloc/Sweep.antt =====
-- The second step of markAndSweep of A4/alloc.c, which frees the blocks without a mark and joins free
-- blocks that are neighbours.
use unh_cs.Common.{
  ℕ, ◌+◌, ◌^◌, ◌<◌, ◌≡◌, refl, sym, ap, ◌∙◌, true, false, Option, none, some, List, [], ◌∷◌,
  if◌then◌else◌, if_both, true-false, arith,
}
use mathlib.Core.Path.{subst}
use unh_cs.Alloc.Blocks.{Block, block_size, coalesce, release, put_back, Swept, sweep}
use unh_cs.Alloc.Tiles.{Tiled, Tiled-le}

coalesce-Tiled :
    (a e : ℕ) (p b : Block) (bs : List Block)
    → e < 2 ^ 62
    → Tiled a e (p ∷ b ∷ bs)
    → Tiled a e (coalesce p b ∷ bs)
unfolding coalesce
coalesce-Tiled a e p b bs he t =
    let le = Tiled-le (a + block_size + p.size + block_size + b.size) e bs t.1.1 in
    (t.0, subst (λ k. Tiled k e bs) (omega (arith, le)) t.1.1)

release-Tiled :
    (a e : ℕ) (b : Block) (bs : List Block) → Tiled a e (b ∷ bs) → Tiled a e (release b ∷ bs)
unfolding release
release-Tiled a e b bs t = t

-- Sweeping a heap whose blocks lie one behind the other, below the address 2 ^ 62, leaves such a
-- heap in the same place; a free block before the first is the first of the heap.
pub sweep-Tiled :
    (a e : ℕ) (prev : Option Block) (bs : List Block)
    → e < 2 ^ 62
    → Tiled a e (put_back prev bs)
    → Tiled a e (sweep prev bs).blocks
unfolding sweep
sweep-Tiled a e none [] he t = t
sweep-Tiled a e (some p) [] he t = t
sweep-Tiled a e none (b ∷ bs) he t =
    if_both (λ (s : Swept). Tiled a e s.blocks) b.mark _ _
      (λ _. (t.0, sweep-Tiled (a + block_size + b.size) e none bs he t.1))
      (λ _. sweep-Tiled a e (some (release b)) bs he (release-Tiled a e b bs t))
sweep-Tiled a e (some p) (b ∷ bs) he t =
    if_both (λ (s : Swept). Tiled a e s.blocks) b.mark _ _
      (λ _. (
        t.0,
        (t.1.0, sweep-Tiled (a + block_size + p.size + block_size + b.size) e none bs he t.1.1),
      ))
      (λ _. sweep-Tiled a e (some (coalesce p b)) bs he (coalesce-Tiled a e p b bs he t))

-- The blocks that are allocated.
unfoldable pub allocated : List Block → List Block
allocated [] = []
allocated (b ∷ bs) = if b.alloc then b ∷ allocated bs else allocated bs

-- The blocks with a mark, which is cleared.
unfoldable pub survivors : List Block → List Block
survivors [] = []
survivors (b ∷ bs) = if b.mark then record b { mark = false } ∷ survivors bs else survivors bs

-- Only allocated blocks have marks.
abbrev pub IsMarked : List Block → Type 0
IsMarked [] = Unit
IsMarked (b ∷ bs) = (b.mark ≡ true → b.alloc ≡ true) × IsMarked bs

-- The free block before is free.
abbrev pub IsFree : Option Block → Type 0
IsFree none = Unit
IsFree (some p) = p.alloc ≡ false

release-free : (b : Block) → (release b).alloc ≡ false
unfolding release
release-free b = refl

coalesce-free : (p b : Block) → p.alloc ≡ false → (coalesce p b).alloc ≡ false
unfolding coalesce
coalesce-free p b f = f

marked-cons :
    (b : Block) (bs : List Block)
    → b.mark ≡ true
    → survivors (b ∷ bs) ≡ record b { mark = false } ∷ survivors bs
unfolding survivors
marked-cons b bs e =
    if_both (λ l. l ≡ record b { mark = false } ∷ survivors bs) b.mark _ _ (λ _. refl)
      (λ f. absurd (true-false (sym e ∙ f)))

unmarked-cons : (b : Block) (bs : List Block) → b.mark ≡ false → survivors (b ∷ bs) ≡ survivors bs
unfolding survivors
unmarked-cons b bs e =
    if_both (λ l. l ≡ survivors bs) b.mark _ _ (λ f. absurd (true-false (sym f ∙ e))) (λ _. refl)

allocated-cons :
    (b : Block) (bs : List Block) → b.alloc ≡ true → allocated (b ∷ bs) ≡ b ∷ allocated bs
unfolding allocated
allocated-cons b bs e =
    if_both (λ l. l ≡ b ∷ allocated bs) b.alloc _ _ (λ _. refl)
      (λ f. absurd (true-false (sym e ∙ f)))

free-cons : (b : Block) (bs : List Block) → b.alloc ≡ false → allocated (b ∷ bs) ≡ allocated bs
unfolding allocated
free-cons b bs e =
    if_both (λ l. l ≡ allocated bs) b.alloc _ _ (λ f. absurd (true-false (sym f ∙ e))) (λ _. refl)

-- The blocks that are allocated after the sweep are those that had a mark, in their order and with
-- nothing changed but the mark, if only allocated blocks had one and the block before is free.
pub sweep-survivors :
    (prev : Option Block) (bs : List Block)
    → IsFree prev
    → IsMarked bs
    → allocated (sweep prev bs).blocks ≡ survivors bs
unfolding sweep allocated survivors
sweep-survivors none [] f m = refl
sweep-survivors (some p) [] f m = free-cons p [] f
sweep-survivors none (b ∷ bs) f m =
    if_both (λ (s : Swept). allocated s.blocks ≡ survivors (b ∷ bs)) b.mark _ _
      (λ marked.
        allocated-cons (record b { mark = false }) (sweep none bs).blocks (m.0 marked)
        ∙ ap (λ l. record b { mark = false } ∷ l) (sweep-survivors none bs tt m.1)
        ∙ sym (marked-cons b bs marked))
      (λ unmarked.
        sweep-survivors (some (release b)) bs (release-free b) m.1
        ∙ sym (unmarked-cons b bs unmarked))
sweep-survivors (some p) (b ∷ bs) f m =
    if_both (λ (s : Swept). allocated s.blocks ≡ survivors (b ∷ bs)) b.mark _ _
      (λ marked.
        free-cons p (record b { mark = false } ∷ (sweep none bs).blocks) f
        ∙ allocated-cons (record b { mark = false }) (sweep none bs).blocks (m.0 marked)
        ∙ ap (λ l. record b { mark = false } ∷ l) (sweep-survivors none bs tt m.1)
        ∙ sym (marked-cons b bs marked))
      (λ unmarked.
        sweep-survivors (some (coalesce p b)) bs (coalesce-free p b f) m.1
        ∙ sym (unmarked-cons b bs unmarked))
