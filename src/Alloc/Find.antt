-- ===== src/Alloc/Find.antt =====
-- getBlock of A4/alloc.c, which looks for the block that a pointer leads into.
use unh_cs.Common.{
  ℕ, ◌+◌, ◌*◌, ◌≤◌, ◌<◌, ◌≡◌, refl, ◌∙◌, none, some, List, [], ◌∷◌, ◌++◌, lt→ltb, le→ltb, arith,
}
use unh_cs.Alloc.Blocks.{Block, heap_of, block_size, block_before, get_block}
use unh_cs.Alloc.Tiles.{Tiled, Tiled-le}

pub address-le :
    (a e : ℕ) (pre : List Block) (b : Block) (post : List Block)
    → Tiled a e (pre ++ b ∷ post)
    → a ≤ b.address
address-le a e [] b post t = omega (arith, t.0)
address-le a e (x ∷ pre) b post t =
    omega (arith, address-le (a + block_size + x.size) e pre b post t.1)

end-lt :
    (a e : ℕ) (pre : List Block) (b c : Block) (post : List Block)
    → Tiled a e (pre ++ b ∷ c ∷ post)
    → b.address + block_size + b.size < e
end-lt a e [] b c post t =
    omega (arith, t.0, Tiled-le (a + block_size + b.size + block_size + c.size) e post t.1.1)
end-lt a e (x ∷ pre) b c post t = end-lt (a + block_size + x.size) e pre b c post t.1

inside :
    (ptr a e : ℕ) (prev : Block) (pre : List Block) (b c : Block) (post : List Block)
    → Tiled a e (pre ++ b ∷ c ∷ post)
    → 8 * b.address < ptr
    → ptr ≤ 8 * (b.address + block_size + b.size)
    → block_before ptr prev (pre ++ b ∷ c ∷ post) ≡ some b
unfolding block_before
inside ptr a e prev [] b c post t lo hi =
    rw (lt→ltb (8 * b.address) ptr lo, le→ltb (8 * c.address) ptr (omega (arith, t.0, t.1.0, hi)))
      refl
inside ptr a e prev (x ∷ pre) b c post t lo hi =
    let le = address-le (a + block_size + x.size) e pre b (c ∷ post) t.1 in
    rw (lt→ltb (8 * x.address) ptr (omega (arith, t.0, le, lo)))
      (inside ptr (a + block_size + x.size) e x pre b c post t.1 lo hi)

beyond :
    (ptr a e : ℕ) (prev : Block) (pre : List Block) (b : Block)
    → Tiled a e (pre ++ b ∷ [])
    → 8 * b.address < ptr
    → block_before ptr prev (pre ++ b ∷ []) ≡ none
unfolding block_before
beyond ptr a e prev [] b t lo = rw (lt→ltb (8 * b.address) ptr lo) refl
beyond ptr a e prev (x ∷ pre) b t lo =
    let le = address-le (a + block_size + x.size) e pre b [] t.1 in
    rw (lt→ltb (8 * x.address) ptr (omega (arith, t.0, le, lo)))
      (beyond ptr (a + block_size + x.size) e x pre b t.1 lo)

within :
    (ptr total : ℕ) (x : Block) (bs : List Block)
    → 8 * x.address ≤ ptr
    → ptr < 8 * (x.address + total)
    → get_block ptr (heap_of (x ∷ bs) total) ≡ block_before ptr x (x ∷ bs)
unfolding get_block
within ptr total x bs lo hi =
    rw (le→ltb ptr (8 * x.address) lo, lt→ltb ptr (8 * (x.address + total)) hi) refl

-- In a heap of `total` words whose blocks lie one behind the other, a pointer behind the first word of
-- a block that is not the last, up to the end of that block, leads to that block.
pub get_block-inside :
    (ptr a total : ℕ) (pre : List Block) (b c : Block) (post : List Block)
    → Tiled a (a + total) (pre ++ b ∷ c ∷ post)
    → 8 * b.address < ptr
    → ptr ≤ 8 * (b.address + block_size + b.size)
    → get_block ptr (heap_of (pre ++ b ∷ c ∷ post) total) ≡ some b
get_block-inside ptr a total [] b c post t lo hi =
    let le = end-lt a (a + total) [] b c post t in
    within ptr total b (c ∷ post) (omega (arith, lo)) (omega (arith, t.0, hi, le))
    ∙ inside ptr a (a + total) b [] b c post t lo hi
get_block-inside ptr a total (x ∷ pre) b c post t lo hi =
    let le = address-le (a + block_size + x.size) (a + total) pre b (c ∷ post) t.1 in
    let out = end-lt a (a + total) (x ∷ pre) b c post t in
    within ptr total x (pre ++ b ∷ c ∷ post) (omega (arith, t.0, le, lo))
      (omega (arith, t.0, hi, out))
    ∙ inside ptr a (a + total) x (x ∷ pre) b c post t lo hi

-- In a heap of `total` words whose blocks lie one behind the other, a pointer into the last block,
-- behind its first word, leads to no block.
pub get_block-last :
    (ptr a total : ℕ) (pre : List Block) (b : Block)
    → Tiled a (a + total) (pre ++ b ∷ [])
    → 8 * b.address < ptr
    → ptr < 8 * (a + total)
    → get_block ptr (heap_of (pre ++ b ∷ []) total) ≡ none
get_block-last ptr a total [] b t lo hi =
    within ptr total b [] (omega (arith, lo)) (omega (arith, t.0, hi))
    ∙ beyond ptr a (a + total) b [] b t lo
get_block-last ptr a total (x ∷ pre) b t lo hi =
    let le = address-le (a + block_size + x.size) (a + total) pre b [] t.1 in
    within ptr total x (pre ++ b ∷ []) (omega (arith, t.0, le, lo)) (omega (arith, t.0, hi))
    ∙ beyond ptr a (a + total) x (x ∷ pre) b t lo
