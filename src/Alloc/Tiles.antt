-- ===== src/Alloc/Tiles.antt =====
-- The blocks of A4/alloc.c tile the heap: each starts where the one before ends.
use unh_cs.Common.{
  ℕ, ◌+◌, ◌-◌, ◌%◌, ◌^◌, ◌≤◌, ◌<◌, ◌≡◌, inl, inr, refl, sym, ap, true, false, none, some, List, [],
  ◌∷◌, ◌++◌, ltb, Bool-cases, lt→ltb, le→ltb, some_inj, none-some, arith,
}
use mathlib.Core.Path.{subst}
use unh_cs.Alloc.Blocks.{
  Block, block_size, sub64, make_block, is_next, next_block_of_size, split, placed, overrun,
  allocate_first,
}

-- The blocks lie from the address `a` to the address `e`, one behind the other.
abbrev pub Tiled : ℕ → ℕ → List Block → Type 0
Tiled a e [] = a ≡ e
Tiled a e (b ∷ bs) = (b.address ≡ a) × Tiled (a + block_size + b.size) e bs

pub Tiled-le : (a e : ℕ) (bs : List Block) → Tiled a e bs → a ≤ e
Tiled-le a e [] t = omega (arith, t)
Tiled-le a e (b ∷ bs) t = omega (arith, Tiled-le (a + block_size + b.size) e bs t.1)

-- A block that is big enough splits into blocks on the same place.
split-Tiled :
    (size finalizer a e : ℕ) (b : Block) (bs : List Block)
    → e < 2 ^ 62
    → size ≤ b.size
    → Tiled a e (b ∷ bs)
    → Tiled a e (split size finalizer b ++ bs)
unfolding split sub64 make_block
split-Tiled size finalizer a e b bs he hs t =
    let le = Tiled-le (a + block_size + b.size) e bs t.1 in
    let left : (b.size + 2 ^ 64 - size) % 2 ^ 64 ≡ b.size - size = omega (arith, le, he, hs) in
    elim (Bool-cases (ltb (b.size - size) (block_size + 1))) [
      | inl tight ↦ rw (left, tight) (t.0, subst (λ k. Tiled k e bs) (ground (arith, le)) t.1)
      | inr roomy ↦
          rw (left, roomy)
            (t.0, (ground (arith, le, t.0), subst (λ k. Tiled k e bs) (ground (arith, le)) t.1))
    ]

-- In a heap whose blocks lie one behind the other, below the address 2 ^ 62: if the first block
-- that passes the test is as large as the size asked for, the allocation succeeds, returns the
-- address behind the header of that block, and leaves blocks that lie one behind the other in the
-- same place.
pub allocate_first-Tiled :
    (size finalizer a e : ℕ) (bs : List Block) {b : Block}
    → e < 2 ^ 62
    → next_block_of_size size bs ≡ some b
    → size ≤ b.size
    → Tiled a e bs
    → (bs' : List Block) × (allocate_first size finalizer bs ≡ placed (b.address + block_size) bs')
      × Tiled a e bs'
unfolding next_block_of_size allocate_first
allocate_first-Tiled size finalizer a e [] he found fits t = absurd (none-some found)
allocate_first-Tiled size finalizer a e (x ∷ bs) {b} he found fits t =
    elim (Bool-cases (is_next size x)) [
      | inl here ↦
          let same : x ≡ b = some_inj (rw here at found) in
          (
            split size finalizer x ++ bs,
            rw (here, le→ltb x.size size (subst (λ y. size ≤ y.size) (sym same) fits))
                (ap (λ (y : Block). placed (y.address + block_size) (split size finalizer x ++ bs))
                  same),
            split-Tiled size finalizer a e x bs he (subst (λ y. size ≤ y.size) (sym same) fits) t,
          )
      | inr on ↦
          let later =
            allocate_first-Tiled size finalizer (a + block_size + x.size) e bs he (rw on at found)
              fits t.1 in
          (x ∷ later.0, rw (on, later.1) refl, (t.0, later.2))
    ]

too_small :
    (size finalizer a e : ℕ) (b : Block) (bs : List Block)
    → e < 2 ^ 62
    → is_next size b ≡ true
    → b.size < size
    → size < 2 ^ 62
    → Tiled a e (b ∷ bs)
    → ¬ Tiled a e (split size finalizer b ++ bs)
unfolding split sub64 make_block is_next
too_small size finalizer a e b bs he passes short hs t =
    let le = Tiled-le (a + block_size + b.size) e bs t.1 in
    let room : ltb ((b.size + 2 ^ 64 - size) % 2 ^ 64) (block_size + 1) ≡ false =
      ground (arith, le) in
    rw room (λ t'. let far = Tiled-le _ e bs t'.1.1 in ground (arith, le, far, passes))

-- In a heap whose blocks lie one behind the other, below the address 2 ^ 62: if the first block
-- that passes the test of nextBlockOfSize is smaller than the size asked for, itself below 2 ^ 62,
-- the allocation takes it as well, overruns it, and the blocks that it writes headers for do not lie
-- one behind the other in the place of the heap.
pub allocate_first-overrun :
    (size finalizer a e : ℕ) (bs : List Block) {b : Block}
    → e < 2 ^ 62
    → next_block_of_size size bs ≡ some b
    → b.size < size
    → size < 2 ^ 62
    → Tiled a e bs
    → (bs' : List Block) × (allocate_first size finalizer bs ≡ overrun (b.address + block_size) bs')
      × (¬ Tiled a e bs')
unfolding next_block_of_size allocate_first
allocate_first-overrun size finalizer a e [] he found short hs t = absurd (none-some found)
allocate_first-overrun size finalizer a e (x ∷ bs) {b} he found short hs t =
    elim (Bool-cases (is_next size x)) [
      | inl here ↦
          let same : x ≡ b = some_inj (rw here at found) in
          (
            split size finalizer x ++ bs,
            rw (here, lt→ltb x.size size (subst (λ y. y.size < size) (sym same) short))
                (ap (λ (y : Block). overrun (y.address + block_size) (split size finalizer x ++ bs))
                  same),
            too_small size finalizer a e x bs he here (subst (λ y. y.size < size) (sym same) short)
                hs t,
          )
      | inr on ↦
          let later =
            allocate_first-overrun size finalizer (a + block_size + x.size) e bs he (rw on at found)
              short hs t.1 in
          (x ∷ later.0, rw (on, later.1) refl, λ t'. later.2 t'.1)
    ]

-- In a heap whose blocks lie one behind the other, below the address 2 ^ 62, no block is found for
-- a size below that of a header, three words: the size less that of a header wraps around.
pub next_block_of_size-small :
    (size a e : ℕ) (bs : List Block)
    → e < 2 ^ 62
    → size < block_size
    → Tiled a e bs
    → next_block_of_size size bs ≡ none
unfolding next_block_of_size is_next sub64
next_block_of_size-small size a e [] he hs t = refl
next_block_of_size-small size a e (x ∷ bs) he hs t =
    let le = Tiled-le (a + block_size + x.size) e bs t.1 in
    let small : ltb x.size ((size + 2 ^ 64 - block_size) % 2 ^ 64) ≡ true = ground (arith, le) in
    rw small (next_block_of_size-small size (a + block_size + x.size) e bs he hs t.1)
