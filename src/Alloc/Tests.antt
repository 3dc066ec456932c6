-- ===== src/Alloc/Tests.antt =====
-- The theorems on A4/alloc.c at a small heap.
use unh_cs.Common.{
  ℕ, ◌≡◌, ◌==◌, if◌then◌else◌, inl, true-false, sym, refl, Bool, true, false, none, some, List, [],
  ◌∷◌, arith,
}
use unh_cs.Alloc.Blocks.{
  Block, heap_of, next_block_of_size, placed, overrun, allocate_first, get_block, sub64, sweep,
  mem_initialize, uninitialized,
}
use unh_cs.Alloc.Tiles.{Tiled, allocate_first-Tiled, allocate_first-overrun}
use unh_cs.Alloc.World.{World, load_long, in_heap_range}
use unh_cs.Alloc.Scan.{
  done, null_block, unfinished, chase_root, chase_heap, mark_step, mark_and_sweep, mem_allocate,
}
use unh_cs.Alloc.Kept.{OnDone, IsIn}
use unh_cs.Alloc.Collect.{IsRoot, StillIn, mem_allocate-StillIn}
use unh_cs.Alloc.Dump.{DumpLine, shown, skipped, blank, star, block_rows, block_words}
use unh_cs.Alloc.Shown.{located, expand, block_rows-words}
use unh_cs.Alloc.Closed.{mark_and_sweep-heap}
use unh_cs.Alloc.Frames.{IsFrameRoot, mark_and_sweep-frame}
use unh_cs.Alloc.Endless.{chase_heap-Endless, chase_root-null_block}
use unh_cs.Alloc.Sweep.{IsMarked, allocated, survivors, sweep-survivors}

abbrev block_at : ℕ → Bool → Bool → ℕ → Block
block_at address alloc mark size = record {
  address = address;
  alloc = alloc;
  mark = mark;
  size = size;
  finalizer = 0;
}

-- 30 words from the address 100: an allocated block that is in use, one that is not, and a free one.
abbrev used : Block
used = block_at 100 true true 5

abbrev unused : Block
unused = block_at 108 true false 6

abbrev rest : Block
rest = block_at 117 false false 10

abbrev blocks : List Block
blocks = used ∷ unused ∷ rest ∷ []

blocks-Tiled : Tiled 100 130 blocks
blocks-Tiled = (refl, (refl, (refl, refl)))

allocate_first-Tiled_example :
    (bs' : List Block) × (allocate_first 4 0 blocks ≡ placed 120 bs') × Tiled 100 130 bs'
unfolding next_block_of_size sub64
allocate_first-Tiled_example =
    allocate_first-Tiled 4 0 100 130 blocks {b = rest} (omega arith) refl (omega arith) blocks-Tiled

allocate_first-overrun_example :
    (bs' : List Block) × (allocate_first 12 0 blocks ≡ overrun 120 bs') × (¬ Tiled 100 130 bs')
unfolding next_block_of_size sub64
allocate_first-overrun_example =
    allocate_first-overrun 12 0 100 130 blocks {b = rest} (omega arith) refl (omega arith)
      (omega arith) blocks-Tiled

sweep-survivors_example : allocated (sweep none blocks).blocks ≡ survivors blocks
sweep-survivors_example =
    sweep-survivors none blocks tt ((λ _. refl), ((λ _. refl), ((λ e. e), tt)))

-- The heap of 12 words that is made for 10.
init_ten :
    mem_initialize (some 100) 10 uninitialized ≡ (1, heap_of (block_at 100 false false 9 ∷ []) 12)
unfolding mem_initialize
init_ten = refl

-- Two globals: a pointer to the data of the second block, and the variable `heap`.
abbrev world : World
world = record {
  data_start = 0;
  data_end = 16;
  stack_top = 0;
  frame_bottom = 0;
  heap_variable = 8;
  byte = λ i.
      if i == 0
      then 0x78
      else if i == 1
      then 3
      else if i == 8
      then 0x20
      else if i == 9
      then 3
      else 0;
}

-- The heap before a collection.
abbrev bare : List Block
bare = block_at 100 true false 5 ∷ unused ∷ rest ∷ []

bare-Tiled : Tiled 100 130 bare
bare-Tiled = (refl, (refl, (refl, refl)))

-- Both blocks get marks: the first one by the variable `heap`.
bare-marked : mark_step 5 world 30 bare ≡ done (used ∷ block_at 108 true true 6 ∷ rest ∷ [])
unfolding mark_step get_block
bare-marked = refl

bare-IsMarked : IsMarked bare
bare-IsMarked = ((λ _. refl), ((λ _. refl), ((λ e. absurd (true-false (sym e))), tt)))

-- The first word of the first block, which points into the second; no global does.
abbrev in_heap : World
in_heap = record world {
  data_end = 0;
  byte = λ i. if i == 824 then 0x78 else if i == 825 then 3 else 0;
}

-- The second block gets a mark, and the first one none.
abbrev heap_marked : List Block
heap_marked = block_at 100 true false 5 ∷ block_at 108 true true 6 ∷ rest ∷ []

in_heap-marked : mark_step 5 in_heap 30 bare ≡ done heap_marked
unfolding mark_step get_block
in_heap-marked = refl

mark_and_sweep-heap_example :
    (mark_and_sweep 5 in_heap 30 bare ≡ done (sweep none heap_marked))
    × Tiled 100 130 (sweep none heap_marked).blocks
    × (allocated (sweep none heap_marked).blocks ≡ survivors heap_marked)
    × IsIn unused (sweep none heap_marked).blocks
unfolding load_long in_heap_range get_block
mark_and_sweep-heap_example =
    mark_and_sweep-heap 5 in_heap 30 100 130 bare heap_marked (block_at 100 true false 5)
      (block_at 108 true true 6) 0 888 (omega arith) bare-Tiled bare-IsMarked in_heap-marked
      (inl refl) (omega arith) refl
      (record { nonzero = λ h. omega (arith, h); in_heap = refl; block = refl; live = refl })

-- The one word of a frame at 16, which points into the second block.
abbrev on_stack : World
on_stack = record world {
  data_end = 0;
  stack_top = 16;
  frame_bottom = 24;
  byte = λ i. if i == 16 then 0x78 else if i == 17 then 3 else 0;
}

on_stack-IsFrameRoot : IsFrameRoot on_stack 30 100 130 0 888 unused bare
unfolding load_long in_heap_range get_block
on_stack-IsFrameRoot = record {
  tiled = bare-Tiled;
  marks = bare-IsMarked;
  frame = omega arith;
  aligned = refl;
  number = omega arith;
  apart = inl (omega arith);
  read = refl;
  other = λ h. omega (arith, h);
  refers = record { nonzero = λ h. omega (arith, h); in_heap = refl; block = refl; live = refl };
}

frame_marked : mark_step 5 on_stack 30 bare ≡ done heap_marked
unfolding mark_step get_block
frame_marked = refl

mark_and_sweep-frame_example :
    (mark_and_sweep 5 on_stack 30 bare ≡ done (sweep none heap_marked))
    × IsIn unused (sweep none heap_marked).blocks
mark_and_sweep-frame_example =
    mark_and_sweep-frame 5 on_stack 30 100 130 0 888 unused bare heap_marked on_stack-IsFrameRoot
      frame_marked

bare-IsRoot : IsRoot world 30 100 130 0 888 unused bare
unfolding load_long in_heap_range get_block
bare-IsRoot = record {
  tiled = bare-Tiled;
  marks = bare-IsMarked;
  number = omega arith;
  apart = inl (omega arith);
  read = refl;
  other = λ h. omega (arith, h);
  refers = record { nonzero = λ h. omega (arith, h); in_heap = refl; block = refl; live = refl };
}

mem_allocate-StillIn_example :
    OnDone (StillIn 30 unused) (mem_allocate 5 world false 25 0 (heap_of bare 30))
mem_allocate-StillIn_example =
    mem_allocate-StillIn 5 world false 25 0 30 100 130 0 888 unused bare bare-IsRoot refl

-- A word of the first block with its own address, 824.
abbrev looping : World
looping = record world { byte = λ i. if i == 824 then 0x38 else if i == 825 then 3 else 0 }

chase_heap-Endless_example : chase_heap 50 looping 30 824 blocks ≡ unfinished
unfolding load_long in_heap_range get_block
chase_heap-Endless_example =
    chase_heap-Endless 50 looping 30 824 used blocks (λ h. omega (arith, h)) refl refl refl refl

chase_root-null_block_example : chase_root 100 world 30 false 968 blocks ≡ null_block
chase_root-null_block_example =
    chase_root-null_block 99 world 968 100 30 (used ∷ unused ∷ []) rest blocks-Tiled (omega arith)
      (omega arith)

-- The six words of the second block: a 7, four zeros, and the address of the first.
abbrev with_words : World
with_words = record world {
  byte = λ i. if i == 888 then 7 else if i == 928 then 0x20 else if i == 929 then 3 else 0;
}

abbrev unused_rows : List DumpLine
unused_rows =
    shown 888 7 blank ∷ shown 896 0 blank ∷ skipped 2 ∷ shown 920 0 blank ∷ shown 928 800 star ∷ []

unused-rows : block_rows with_words 30 bare unused ≡ unused_rows
unfolding block_rows get_block load_long
unused-rows = refl

block_rows-words_example :
    expand 888 (block_rows with_words 30 bare unused)
    ≡ located 888 (block_words with_words bare unused)
block_rows-words_example = block_rows-words with_words 30 bare unused
