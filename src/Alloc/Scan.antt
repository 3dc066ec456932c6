-- ===== src/Alloc/Scan.antt =====
-- The first step of markAndSweep in A4/alloc.c, which marks the blocks in use, markAndSweep and
-- memAllocate.
use unh_cs.Common.{
  ℕ, zero, suc, ◌+◌, ◌-◌, ◌*◌, ◌/◌, ◌%◌, ◌^◌, Bool, true, false, not, ◌&&◌, ◌||◌, Option, none,
  some, List, [], ◌∷◌, ltb, ◌==◌, if◌then◌else◌, length,
}
use unh_cs.Alloc.World.{World, in_global_range, in_stack_range, in_heap_range, load_long}
use unh_cs.Alloc.Blocks.{
  Block, block_size, Heap, uninitialized, failed_heap, heap_of, get_block, Swept, sweep, no_block,
  placed, overrun, allocate_first,
}

-- `overwrote` is a return of memAllocate, with its result, that has written a header behind the block
-- that it took. `null_block` is a dereference of the NULL that getBlock returns, `exited` is `exit (-1)`, and
-- `unfinished` a loop out of fuel.
pub data Marking (A : Type 0) : Type 0 where
  done : A → Marking A
  overwrote : (result : ℕ) → Marking A
  null_block exited unfinished : Marking A

abbrev pub ◌>>=◌ : {A B : Type 0} → Marking A → (A → Marking B) → Marking B
done a >>= k = k a
overwrote p >>= k = overwrote p
null_block >>= k = null_block
exited >>= k = exited
unfinished >>= k = unfinished

infixl 5 ◌>>=◌
-- `info |= MARK_BIT` on the block at an address.
unfoldable pub set_mark : ℕ → List Block → List Block
set_mark a [] = []
set_mark a (b ∷ bs) = if b.address == a then record b { mark = true } ∷ bs else b ∷ set_mark a bs

-- The block is allocated and has no mark yet.
abbrev pub is_fresh : Block → Bool
is_fresh b = not b.mark && b.alloc

-- Where a word that is no reference to a fresh block leads: a word that leads nowhere is kept.
unfoldable pub next_word : World → (total : ℕ) → List Block → (word : ℕ) → ℕ
unfolding in_global_range in_stack_range in_heap_range load_long
next_word w total bs word =
    if in_heap_range bs total word || in_global_range w word || in_stack_range w word
    then load_long w bs word
    else word

-- The loop for a word of the globals or of the stack, with the iterations left. `is_variable` is the
-- test for the variable `heap`.
unfoldable pub chase_root :
    (iterations_left : ℕ)
    → World
    → (total : ℕ) → (is_variable : Bool) → (word : ℕ) → List Block
    → Marking (List Block)
unfolding next_word set_mark
chase_root zero w total is_variable word bs = done bs
chase_root (suc n) w total is_variable word bs =
    let later = chase_root n w total is_variable (next_word w total bs word) bs in
    if word == 0
    then done bs
    else if not (in_heap_range bs total word)
    then later
    else if is_variable
    then done bs
    else elim (get_block word (heap_of bs total)) [
      | none ↦ null_block
      | some b ↦ if is_fresh b then done (set_mark b.address bs) else later
    ]

-- `n` words from an address on.
unfoldable pub scan_words :
    World
    → (total : ℕ) → (is_variable : (addr word : ℕ) → Bool) → (n addr : ℕ) → List Block
    → Marking (List Block)
unfolding chase_root load_long
scan_words w total is_variable zero addr bs = done bs
scan_words w total is_variable (suc n) addr bs =
    let word = load_long w bs addr in
    chase_root 100 w total (is_variable addr word) word bs >>= λ bs'.
    scan_words w total is_variable n (addr + 8) bs'

unfoldable pub scan_globals : World → (total : ℕ) → List Block → Marking (List Block)
unfolding scan_words
scan_globals w total bs =
    scan_words w total (λ addr word. word == w.heap_variable) ((w.data_end - w.data_start) / 8)
      w.data_start bs

-- The frames of the stack. Each bottom is above the one before.
unfoldable pub scan_frames :
    (fuel : ℕ) → World → (total : ℕ) → (top bottom : ℕ) → List Block → Marking (List Block)
unfolding scan_words load_long
scan_frames zero w total top bottom bs = unfinished
scan_frames (suc n) w total top bottom bs =
    if not (ltb top bottom) || bottom == 0 || not (bottom % 8 == 0)
    then done bs
    else scan_words w total (λ addr word. addr == w.heap_variable) ((bottom - top) / 8 + 1) top bs
      >>= λ bs'. scan_frames n w total bottom (load_long w bs' bottom) bs'

-- The loop for a word of the heap, with no limit, and whether it has marked a block.
unfoldable pub chase_heap :
    (fuel : ℕ) → World → (total : ℕ) → (word : ℕ) → List Block → Marking (Bool × List Block)
unfolding in_global_range in_stack_range in_heap_range load_long set_mark
chase_heap zero w total word bs = unfinished
chase_heap (suc n) w total word bs =
    let later = chase_heap n w total (load_long w bs word) bs in
    if word == 0
    then done (false, bs)
    else if in_heap_range bs total word
    then elim (get_block word (heap_of bs total)) [
      | none ↦ exited
      | some b ↦ if is_fresh b then done (true, set_mark b.address bs) else later
    ]
    else if in_global_range w word || in_stack_range w word
    then later
    else done (false, bs)

-- The `n` words of a block from an address on.
unfoldable pub scan_block :
    (fuel : ℕ)
    → World
    → (total : ℕ) → (n addr : ℕ) → (marked_any : Bool) → List Block
    → Marking (Bool × List Block)
unfolding chase_heap load_long
scan_block fuel w total zero addr marked_any bs = done (marked_any, bs)
scan_block fuel w total (suc n) addr marked_any bs =
    chase_heap fuel w total (load_long w bs addr) bs >>= λ (marked, bs').
    scan_block fuel w total n (addr + 8) (marked_any || marked) bs'

-- One pass over the blocks of the heap, allocated or not, marked or not.
unfoldable pub scan_heap :
    (fuel : ℕ)
    → World
    → (total : ℕ) → (heap : List Block) → (marked_any : Bool) → List Block
    → Marking (Bool × List Block)
unfolding scan_block
scan_heap fuel w total [] marked_any bs = done (marked_any, bs)
scan_heap fuel w total (b ∷ heap) marked_any bs =
    scan_block fuel w total b.size (8 * (b.address + block_size)) marked_any bs >>= λ (marked, bs').
    scan_heap fuel w total heap marked bs'

-- Passes until one marks nothing.
unfoldable pub scan_passes :
    (passes fuel : ℕ) → World → (total : ℕ) → List Block → Marking (List Block)
unfolding scan_heap
scan_passes zero fuel w total bs = unfinished
scan_passes (suc n) fuel w total bs = scan_heap fuel w total bs false bs >>= λ (marked_any, bs').
    let again = scan_passes n fuel w total bs' in if marked_any then again else done bs'

-- `fuel` bounds the frames of the stack and the loop for a word of the heap.
unfoldable pub mark_step : (fuel : ℕ) → World → (total : ℕ) → List Block → Marking (List Block)
unfolding scan_globals scan_frames scan_passes
mark_step fuel w total bs = scan_globals w total bs >>= λ bs'.
    scan_frames fuel w total w.stack_top w.frame_bottom bs' >>= λ bs''.
    scan_passes (length bs + 1) fuel w total bs''

unfoldable pub mark_and_sweep : (fuel : ℕ) → World → (total : ℕ) → List Block → Marking Swept
unfolding mark_step
mark_and_sweep fuel w total bs = mark_step fuel w total bs >>= λ marked. done (sweep none marked)

-- The result of memAllocate, the heap, and the finalizers that were called.
pub record Allocation : Type 0 where
  pub result : Option ℕ
  pub heap : Heap
  pub finalized : List ℕ

-- The search for a block, in a heap that has been swept or not.
unfoldable pub allocate_or_null :
    (size finalize total : ℕ) → List Block → List ℕ → Marking Allocation
allocate_or_null size finalize total bs finalized = elim (allocate_first size finalize bs) [
  | no_block ↦ done (record { result = none; heap = heap_of bs total; finalized = finalized })
  | placed p bs' ↦
      done (record { result = some (8 * p); heap = heap_of bs' total; finalized = finalized })
  | overrun p bs' ↦ overwrote (8 * p)
]

-- `in_finalize_call` is the variable; markAndSweep returns an `int`.
unfoldable pub mem_allocate :
    (fuel : ℕ) → World → (in_finalize_call : Bool) → (size finalize : ℕ) → Heap → Marking Allocation
unfolding mark_and_sweep allocate_or_null
mem_allocate fuel w in_finalize_call size finalize uninitialized =
    done (record { result = none; heap = uninitialized; finalized = [] })
mem_allocate fuel w in_finalize_call size finalize failed_heap =
    done (record { result = none; heap = failed_heap; finalized = [] })
mem_allocate fuel w in_finalize_call size finalize (heap_of bs total) =
    if in_finalize_call then exited else elim (allocate_first size finalize bs) [
      | placed p bs' ↦
          done (record { result = some (8 * p); heap = heap_of bs' total; finalized = [] })
      | overrun p bs' ↦ overwrote (8 * p)
      | no_block ↦ mark_and_sweep fuel w total bs >>= λ s.
          if s.freed % 2 ^ 32 == 0
          then done
              (record { result = none; heap = heap_of s.blocks total; finalized = s.finalized })
          else allocate_or_null size finalize total s.blocks s.finalized
    ]
