-- ===== src/Alloc/Dump.antt =====
-- memDump of A4/alloc.c: what it prints of the globals, the stack frames, the registers and the blocks.
use unh_cs.Common.{
  ℕ, zero, suc, ◌+◌, ◌-◌, ◌*◌, ◌/◌, ◌%◌, Bool, false, not, ◌||◌, Option, none, some, List, [], ◌∷◌,
  ◌++◌, ltb, ◌==◌, if◌then◌else◌,
}
use unh_cs.Alloc.Blocks.{Block, block_size, Heap, uninitialized, failed_heap, heap_of, get_block}
use unh_cs.Alloc.World.{World, load_long}

unfoldable pub points_to_allocated_data : (ptr : ℕ) → Heap → Bool
unfolding get_block
points_to_allocated_data ptr h = elim (get_block ptr h) [ none ↦ false | some b ↦ b.alloc ]

-- What stands behind a word: " * <- block_t *heap", " *" or nothing.
pub data Label : Type 0 where
  heap_label star blank : Label

-- A line for one word, or the one for a number of words that are left out.
pub data DumpLine : Type 0 where
  shown : (address value : ℕ) (label : Label) → DumpLine
  skipped : (words : ℕ) → DumpLine

unfoldable pub label_of : (points : ℕ → Bool) → (value : ℕ) → Label
label_of points value = if points value then star else blank

-- `n` words from an address on.
unfoldable pub words_at : World → List Block → (n addr : ℕ) → List ℕ
words_at w bs zero addr = []
words_at w bs (suc n) addr = load_long w bs addr ∷ words_at w bs n (addr + 8)

-- A line for every word.
unfoldable pub word_rows : (label : ℕ → Label) → (addr : ℕ) → List ℕ → List DumpLine
word_rows label addr [] = []
word_rows label addr (v ∷ vs) = shown addr v (label v) ∷ word_rows label (addr + 8) vs

-- The value of the variable `heap`.
abbrev pub heap_value : List Block → ℕ
heap_value [] = 0
heap_value (b ∷ bs) = 8 * b.address

unfoldable pub global_rows : World → (total : ℕ) → List Block → List DumpLine
unfolding word_rows words_at label_of points_to_allocated_data
global_rows w total bs =
    let label : ℕ → Label = λ v.
      if v == heap_value bs
      then heap_label
      else label_of (λ p. points_to_allocated_data p (heap_of bs total)) v in
    word_rows label w.data_start (words_at w bs ((w.data_end - w.data_start) / 8) w.data_start)

-- The line at the head of a frame, and its words if it is a frame.
pub record Frame : Type 0 where
  pub number : ℕ
  pub top : ℕ
  pub bottom : ℕ
  pub rows : Option (List DumpLine)

-- The loop, with how many frames it still shows.
unfoldable pub frame_rows :
    (left : ℕ) → World → (total : ℕ) → List Block → (number top bottom : ℕ) → List Frame
unfolding word_rows words_at label_of points_to_allocated_data
frame_rows zero w total bs number top bottom =
    record { number = number; top = top; bottom = bottom; rows = none } ∷ []
frame_rows (suc left) w total bs number top bottom =
    let label = label_of (λ p. points_to_allocated_data p (heap_of bs total)) in
    let rows = word_rows label top (words_at w bs ((bottom - top) / 8 + 1) top) in
    let later = frame_rows left w total bs (number + 1) bottom (load_long w bs bottom) in
    if not (ltb top bottom) || bottom == 0 || not (bottom % 8 == 0)
    then record { number = number; top = top; bottom = bottom; rows = none } ∷ []
    else record { number = number; top = top; bottom = bottom; rows = some rows } ∷ later

-- How many words are 0 before the first that is not, and what is left there.
unfoldable pub zero_count : List ℕ → ℕ
zero_count [] = 0
zero_count (v ∷ vs) = if v == 0 then suc (zero_count vs) else 0

unfoldable pub after_zeros : List ℕ → List ℕ
after_zeros [] = []
after_zeros (v ∷ vs) = if v == 0 then after_zeros vs else v ∷ vs

-- The lines for a cluster of zeros: the first and the last, and how many are between them.
unfoldable pub zero_rows : (addr count : ℕ) → List DumpLine
zero_rows addr count =
    if count == 1
    then shown addr 0 blank ∷ []
    else shown addr 0 blank
      ∷ ((if ltb 2 count then skipped (count - 2) ∷ [] else [])
          ++ shown (addr + 8 * (count - 1)) 0 blank ∷ [])

-- The loop over the words of a block. A round takes at least one word.
unfoldable pub cluster_rows : (fuel : ℕ) → (points : ℕ → Bool) → (addr : ℕ) → List ℕ → List DumpLine
unfolding zero_count after_zeros zero_rows label_of
cluster_rows zero points addr vs = []
cluster_rows (suc n) points addr [] = []
cluster_rows (suc n) points addr (v ∷ vs) =
    let count = suc (zero_count vs) in
    let behind = cluster_rows n points (addr + 8 * count) (after_zeros vs) in
    let next = cluster_rows n points (addr + 8) vs in
    if v == 0 then zero_rows addr count ++ behind else shown addr v (label_of points v) ∷ next

-- A block; its finalizer and its words only if it is allocated.
pub record BlockDump : Type 0 where
  pub number : ℕ
  pub size : ℕ
  pub contents : Option (ℕ × List DumpLine)

-- The words behind the header of a block, and the lines for them.
abbrev pub block_words : World → List Block → Block → List ℕ
block_words w bs b = words_at w bs b.size (8 * (b.address + block_size))

unfoldable pub block_rows : World → (total : ℕ) → List Block → Block → List DumpLine
unfolding cluster_rows words_at points_to_allocated_data
block_rows w total bs b =
    cluster_rows b.size (λ p. points_to_allocated_data p (heap_of bs total))
      (8 * (b.address + block_size)) (words_at w bs b.size (8 * (b.address + block_size)))

unfoldable pub dump_blocks :
    World → (total : ℕ) → List Block → (number : ℕ) → List Block → List BlockDump
unfolding block_rows
dump_blocks w total bs number [] = []
dump_blocks w total bs number (b ∷ rest) =
    record {
      number = number;
      size = b.size;
      contents = if b.alloc then some (b.finalizer, block_rows w total bs b) else none;
    }
    ∷ dump_blocks w total bs (number + 1) rest

pub record Dump : Type 0 where
  pub globals : List DumpLine
  pub frames : List Frame
  pub rbx : ℕ
  pub rsi : ℕ
  pub rdi : ℕ
  pub blocks : List BlockDump

-- Nothing is printed before the heap is initialized.
unfoldable pub mem_dump : World → (rbx rsi rdi : ℕ) → Heap → Option Dump
unfolding global_rows frame_rows dump_blocks
mem_dump w rbx rsi rdi uninitialized = none
mem_dump w rbx rsi rdi failed_heap = none
mem_dump w rbx rsi rdi (heap_of bs total) = some (record {
  globals = global_rows w total bs;
  frames = frame_rows 128 w total bs 1 w.stack_top w.frame_bottom;
  rbx = rbx;
  rsi = rsi;
  rdi = rdi;
  blocks = dump_blocks w total bs 1 bs;
})
