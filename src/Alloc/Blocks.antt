-- ===== src/Alloc/Blocks.antt =====
-- The blocks of A4/alloc.c: memInitialize, nextBlockOfSize, the split of memAllocate, getBlock, and the
-- second step of markAndSweep. The heap is the list of its blocks along `next`; addresses are
-- counted in words. A `long` is 64 bits.
use unh_cs.Common.{
  ℕ, ◌+◌, ◌-◌, ◌*◌, ◌/◌, ◌%◌, ◌^◌, Bool, true, false, not, ◌&&◌, ◌||◌, Option, none, some, List, [],
  ◌∷◌, ◌++◌, ltb, ◌==◌, if◌then◌else◌, ◌≡◌, refl, ◌⊎◌, inl, inr,
}

-- block_t: the two bits and the size of `info`, its address, and the finalizer, 0 being NULL.
pub record Block : Type 0 where
  pub address : ℕ
  pub alloc : Bool
  pub mark : Bool
  pub size : ℕ
  pub finalizer : ℕ

-- BLOCK_SIZE
abbrev pub block_size : ℕ
block_size = 3

-- `size & SIZE_MASK`
abbrev pub masked : ℕ → ℕ
masked size = size % 2 ^ 62

-- Subtraction of `unsigned long`.
unfoldable pub sub64 : ℕ → ℕ → ℕ
sub64 a b = (a + 2 ^ 64 - b) % 2 ^ 64

-- `info` made by infoMake, in a block at an address.
unfoldable pub make_block : (address : ℕ) → (alloc mark : Bool) → (size finalizer : ℕ) → Block
make_block address alloc mark size finalizer = record {
  address = address;
  alloc = alloc;
  mark = mark;
  size = masked size;
  finalizer = finalizer;
}

-- The states 0, -1 and 1 of `initialized`, the last with the heap and its size.
pub data Heap : Type 0 where
  uninitialized failed_heap : Heap
  heap_of : List Block → (total : ℕ) → Heap

-- The first argument is what `calloc` returns, in words, and `none` if it fails.
unfoldable pub mem_initialize : Option ℕ → (size : ℕ) → Heap → ℕ × Heap
unfolding make_block sub64
mem_initialize memory size uninitialized =
    if size == 0 || ltb (2 ^ 62 - 1) size
    then (0, failed_heap)
    else let total = size * 6 % 2 ^ 64 / 5 in
      elim memory [
        | none ↦ (0, failed_heap)
        | some address ↦
            (1, heap_of (make_block address false false (sub64 total block_size) 0 ∷ []) total)
      ]
mem_initialize memory size failed_heap = (0, failed_heap)
mem_initialize memory size (heap_of blocks total) = (0, heap_of blocks total)

-- The test of nextBlockOfSize on one block.
unfoldable pub is_next : (size : ℕ) → Block → Bool
unfolding sub64
is_next size b = not (ltb b.size (sub64 size block_size)) && not b.alloc

unfoldable pub next_block_of_size : (size : ℕ) → List Block → Option Block
unfolding is_next
next_block_of_size size [] = none
next_block_of_size size (b ∷ bs) = if is_next size b then some b else next_block_of_size size bs

-- The headers that are written: that of the block with the size asked for, and that of the rest, if the
-- size of the block less the size asked for leaves room for more than a header, or that of the block
-- with all of its size. For a block that is too small the difference wraps around, and the second header
-- stands on what lies behind the block.
unfoldable pub split : (size finalizer : ℕ) → Block → List Block
unfolding sub64 make_block
split size finalizer b =
    let left = sub64 b.size size in
    if not (ltb left (block_size + 1))
    then make_block b.address true false size finalizer
      ∷ make_block (b.address + block_size + size) false false (sub64 left block_size) 0
      ∷ []
    else make_block b.address true false b.size finalizer ∷ []

-- What an allocation comes to: no block is found; the address behind the header of the block that is
-- taken, and the heap; or that address and the blocks that the headers are written for, when the block
-- is too small, so that a header overwrites what lies behind it and the heap is no such list any more.
pub data Placement : Type 0 where
  no_block : Placement
  placed : ℕ → List Block → Placement
  overrun : ℕ → List Block → Placement

-- Behind a block that is passed over.
abbrev pub behind : Block → Placement → Placement
behind b no_block = no_block
behind b (placed p bs) = placed p (b ∷ bs)
behind b (overrun p bs) = overrun p (b ∷ bs)

-- An allocation from the block that nextBlockOfSize finds.
unfoldable pub allocate_first : (size finalizer : ℕ) → List Block → Placement
unfolding is_next split
allocate_first size finalizer [] = no_block
allocate_first size finalizer (b ∷ bs) =
    let bs' = split size finalizer b ++ bs in
    let later = allocate_first size finalizer bs in
    if is_next size b
    then (if ltb b.size size
        then overrun (b.address + block_size) bs'
        else placed (b.address + block_size) bs')
    else behind b later

pub Placement-cases :
    (r : Placement)
    → (r ≡ no_block)
      ⊎ (((p : ℕ) × (bs : List Block) × (r ≡ placed p bs))
          ⊎ ((p : ℕ) × (bs : List Block) × (r ≡ overrun p bs)))
Placement-cases no_block = inl refl
Placement-cases (placed p bs) = inr (inl (p, bs, refl))
Placement-cases (overrun p bs) = inr (inr (p, bs, refl))

-- The loop of getBlock, with the block before. `ptr` is a byte address; the heap is aligned.
unfoldable pub block_before : (ptr : ℕ) → Block → List Block → Option Block
block_before ptr prev [] = none
block_before ptr prev (b ∷ bs) =
    if ltb (8 * b.address) ptr then block_before ptr b bs else some prev

unfoldable pub get_block : (ptr : ℕ) → Heap → Option Block
unfolding block_before
get_block ptr uninitialized = none
get_block ptr failed_heap = none
get_block ptr (heap_of [] total) = none
get_block ptr (heap_of (b ∷ bs) total) =
    if ltb ptr (8 * b.address) || not (ltb ptr (8 * (b.address + total)))
    then none
    else block_before ptr b (b ∷ bs)

-- The second step of markAndSweep: the heap, the words freed, and the finalizers called, in order.
pub record Swept : Type 0 where
  pub blocks : List Block
  pub freed : ℕ
  pub finalized : List ℕ

-- The block before the rest, if there is one.
abbrev pub put_back : Option Block → List Block → List Block
put_back none bs = bs
put_back (some p) bs = p ∷ bs

-- The words of a block that is freed here, and its finalizer.
abbrev pub words_of : Block → ℕ
words_of b = if b.alloc then b.size else 0

abbrev pub finalizer_of : Block → List ℕ → List ℕ
finalizer_of b fs = if b.alloc && not (b.finalizer == 0) then b.finalizer ∷ fs else fs

-- A free block that takes in the next one.
unfoldable pub coalesce : Block → Block → Block
coalesce p b = record p { size = masked (p.size + block_size + b.size) }

-- The allocation bit cleared.
unfoldable pub release : Block → Block
release b = record b { alloc = false }

-- The loop; `prev` is the free block that the next free one is joined to.
unfoldable pub sweep : (prev : Option Block) → List Block → Swept
unfolding coalesce release
sweep prev [] = record { blocks = put_back prev []; freed = 0; finalized = [] }
sweep none (b ∷ bs) =
    let kept = sweep none bs in
    let rest = sweep (some (release b)) bs in
    if b.mark
    then record kept { blocks = record b { mark = false } ∷ kept.blocks }
    else record rest { freed = words_of b + rest.freed; finalized = finalizer_of b rest.finalized }
sweep (some p) (b ∷ bs) =
    let kept = sweep none bs in
    let rest = sweep (some (coalesce p b)) bs in
    if b.mark
    then record kept { blocks = p ∷ record b { mark = false } ∷ kept.blocks }
    else record rest {
      freed = words_of b + block_size + rest.freed;
      finalized = finalizer_of b rest.finalized;
    }
