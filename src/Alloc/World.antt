-- ===== src/Alloc/World.antt =====
-- The memory that markAndSweep in A4/alloc.c reads, and the tests for its ranges.
use unh_cs.Common.{
  ℕ, zero, suc, ◌+◌, ◌*◌, ◌/◌, ◌%◌, ◌^◌, Bool, false, not, ◌&&◌, Option, none, some, List, [], ◌∷◌,
  ltb, ◌==◌, if◌then◌else◌,
}
use unh_cs.Alloc.Blocks.{Block}

-- What there is beside the heap: the range of the globals, the two ends of the stack frame, the
-- address of the variable `heap`, and the bytes of the memory, those of the headers aside.
pub record World : Type 0 where
  pub data_start : ℕ
  pub data_end : ℕ
  pub stack_top : ℕ
  pub frame_bottom : ℕ
  pub heap_variable : ℕ
  pub byte : ℕ → ℕ

unfoldable pub in_global_range : World → (addr : ℕ) → Bool
in_global_range w addr = not (ltb addr w.data_start) && ltb addr w.data_end

unfoldable pub in_stack_range : World → (addr : ℕ) → Bool
in_stack_range w addr = ltb addr w.frame_bottom && not (ltb addr w.stack_top)

unfoldable pub in_heap_range : List Block → (total addr : ℕ) → Bool
in_heap_range [] total addr = false
in_heap_range (b ∷ bs) total addr =
    not (ltb addr (8 * b.address)) && ltb addr (8 * (b.address + total))

-- The three words of a header: `info`, `next` and `finalizer`.
unfoldable pub info_of : Block → ℕ
info_of b = (if b.alloc then 2 ^ 63 else 0) + (if b.mark then 2 ^ 62 else 0) + b.size

unfoldable pub next_of : List Block → ℕ
next_of [] = 0
next_of (b ∷ bs) = 8 * b.address

unfoldable pub header_word : List Block → (i : ℕ) → Option ℕ
unfolding info_of next_of
header_word [] i = none
header_word (b ∷ bs) i =
    if i == b.address
    then some (info_of b)
    else if i == b.address + 1
    then some (next_of bs)
    else if i == b.address + 2
    then some b.finalizer
    else header_word bs i

unfoldable pub heap_byte : World → List Block → (addr : ℕ) → ℕ
unfolding header_word
heap_byte w bs addr = elim (header_word bs (addr / 8)) [
  | none ↦ w.byte addr
  | some word ↦ word / 2 ^ (8 * (addr % 8)) % 256
]

-- The `long` in the `n` bytes from an address on.
unfoldable pub long_of : (n : ℕ) → World → List Block → (addr : ℕ) → ℕ
unfolding heap_byte
long_of zero w bs addr = 0
long_of (suc n) w bs addr = heap_byte w bs addr + 256 * long_of n w bs (addr + 1)

unfoldable pub load_long : World → List Block → (addr : ℕ) → ℕ
unfolding long_of
load_long w bs addr = long_of 8 w bs addr
