-- ===== src/Alloc/Endless.antt =====
-- Two words that the first step of markAndSweep in A4/alloc.c does not cope with.
use unh_cs.Common.{
  ℕ, zero, suc, ◌+◌, ◌*◌, ◌<◌, ◌≡◌, ◌≢◌, refl, true, false, some, List, [], ◌∷◌, ◌++◌, lt→ltb,
  le→ltb, ne_test, arith,
}
use unh_cs.Alloc.Blocks.{Block, block_size, heap_of, get_block}
use unh_cs.Alloc.Tiles.{Tiled}
use unh_cs.Alloc.Find.{get_block-last, address-le}
use unh_cs.Alloc.World.{World, in_heap_range, load_long}
use unh_cs.Alloc.Scan.{unfinished, null_block, chase_root, chase_heap}

-- A word of the heap that holds its own address, in a block that has its mark, is followed for ever.
pub chase_heap-Endless :
    (fuel : ℕ) (w : World) (total word : ℕ) (b : Block) (bs : List Block)
    → word ≢ 0
    → in_heap_range bs total word ≡ true
    → get_block word (heap_of bs total) ≡ some b
    → b.mark ≡ true
    → load_long w bs word ≡ word
    → chase_heap fuel w total word bs ≡ unfinished
unfolding chase_heap
chase_heap-Endless zero w total word b bs nonzero inside block m own = refl
chase_heap-Endless (suc n) w total word b bs nonzero inside block m own =
    rw (ne_test word 0 nonzero, inside, block, m, own)
      (chase_heap-Endless n w total word b bs nonzero inside block m own)

in_heap-last :
    (word a total : ℕ) (pre : List Block) (b : Block)
    → Tiled a (a + total) (pre ++ b ∷ [])
    → 8 * b.address < word
    → word < 8 * (a + total)
    → in_heap_range (pre ++ b ∷ []) total word ≡ true
unfolding in_heap_range
in_heap-last word a total [] b t lo hi =
    rw
      (
        le→ltb word (8 * b.address) (omega (arith, lo)),
        lt→ltb word (8 * (b.address + total)) (omega (arith, t.0, hi)),
      )
      refl
in_heap-last word a total (x ∷ pre) b t lo hi =
    let le = address-le (a + block_size + x.size) (a + total) pre b [] t.1 in
    rw
      (
        le→ltb word (8 * x.address) (omega (arith, t.0, le, lo)),
        lt→ltb word (8 * (x.address + total)) (omega (arith, t.0, hi)),
      )
      refl

-- In a heap of `total` words whose blocks lie one behind the other, a word of the globals or of the
-- stack that points into the last block, behind its first word, makes markAndSweep dereference the
-- NULL of getBlock.
pub chase_root-null_block :
    (n : ℕ) (w : World) (word a total : ℕ) (pre : List Block) (b : Block)
    → Tiled a (a + total) (pre ++ b ∷ [])
    → 8 * b.address < word
    → word < 8 * (a + total)
    → chase_root (suc n) w total false word (pre ++ b ∷ []) ≡ null_block
unfolding chase_root
chase_root-null_block n w word a total pre b t lo hi =
    rw
      (
        ne_test word 0 (λ h. omega (arith, h, lo)),
        in_heap-last word a total pre b t lo hi,
        get_block-last word a total pre b t lo hi,
      )
      refl
