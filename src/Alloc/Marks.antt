-- ===== src/Alloc/Marks.antt =====
-- Blocks of A4/alloc.c with a mark: setting marks keeps them, and finds them where they were.
use unh_cs.Common.{
  ℕ, zero, suc, ◌+◌, ◌*◌, ◌/◌, ◌≤◌, ◌<◌, ◌≡◌, ◌⊎◌, inl, inr, refl, sym, ap, ◌∙◌, Bool, true, not,
  ◌&&◌, ◌||◌, none, some, List, [], ◌∷◌, ltb, ◌==◌, Bool-cases, if_both, true-false, some_inj,
  none-some, ==_iff, eq_test, ne_test, arith,
}
use unh_cs.Alloc.Blocks.{Block, block_size, heap_of, block_before, get_block}
use unh_cs.Alloc.Tiles.{Tiled, Tiled-le}
use unh_cs.Alloc.World.{World, in_heap_range, header_word, heap_byte, long_of, load_long}
use unh_cs.Alloc.Scan.{set_mark}
use unh_cs.Alloc.Kept.{OnlyMarks, IsIn, IsIn-address}

-- A block with the mark set.
abbrev pub marked : Block → Block
marked b = record b { mark = true }

abbrev pub HasMark : Block → List Block → Type 0
HasMark b bs = IsIn (marked b) bs

pub HasMark-OnlyMarks :
    (b : Block) (bs cs : List Block) → OnlyMarks bs cs → HasMark b bs → HasMark b cs
HasMark-OnlyMarks b [] cs h i = absurd i
HasMark-OnlyMarks b (x ∷ bs) [] h i = absurd h
HasMark-OnlyMarks b (x ∷ bs) (c ∷ cs) (same, keep, _, rest) (inl e) =
    inl (same ∙ ap (λ m. record x { mark = m }) (keep (ap (λ (y : Block). y.mark) e)) ∙ ap marked e)
HasMark-OnlyMarks b (x ∷ bs) (c ∷ cs) (_, _, _, rest) (inr i) =
    inr (HasMark-OnlyMarks b bs cs rest i)

-- The mark of a block that is there can be set.
pub set_mark-HasMark :
    (a e : ℕ) (bs : List Block) (b : Block)
    → Tiled a e bs
    → IsIn b bs
    → HasMark b (set_mark b.address bs)
unfolding set_mark
set_mark-HasMark a e [] b t h = absurd h
set_mark-HasMark a e (x ∷ bs) b t (inl same) =
    if_both (HasMark b) (x.address == b.address) _ _ (λ _. inl (ap marked same))
      (λ other. absurd (
        true-false
          (sym (eq_test x.address b.address (ap (λ (y : Block). y.address) same)) ∙ other)))
set_mark-HasMark a e (x ∷ bs) b t (inr later) =
    if_both (HasMark b) (x.address == b.address) _ _
      (λ here. absurd (
        omega (
          arith,
          t.0,
          (==_iff x.address b.address).0 here,
          IsIn-address (a + block_size + x.size) e bs b t.1 later,
        )))
      (λ _. inr (set_mark-HasMark (a + block_size + x.size) e bs b t.1 later))

same_test :
    (c x : Block) (ptr : ℕ) {m : Bool} {r : Bool}
    → c ≡ record x { mark = m }
    → ltb (8 * x.address) ptr ≡ r
    → ltb (8 * c.address) ptr ≡ r
same_test c x ptr same e = ap (λ (y : Block). ltb (8 * y.address) ptr) same ∙ e

-- getBlock looks at addresses only.
block_before-OnlyMarks :
    (ptr : ℕ) (p q : Block) (bs cs : List Block) {b : Block}
    → marked q ≡ marked p
    → OnlyMarks bs cs
    → block_before ptr p bs ≡ some b
    → (c : Block) × (block_before ptr q cs ≡ some c) × (marked c ≡ marked b)
unfolding block_before
block_before-OnlyMarks ptr p q [] cs eq h e = absurd (none-some e)
block_before-OnlyMarks ptr p q (x ∷ bs) [] eq h e = absurd h
block_before-OnlyMarks ptr p q (x ∷ bs) (c ∷ cs) eq (same, _, _, rest) e =
    elim (Bool-cases (ltb (8 * x.address) ptr)) [
      | inl before ↦
          let (d, found, like) =
            block_before-OnlyMarks ptr x c bs cs (ap marked same) rest (rw before at e) in
          (d, rw (same_test c x ptr same before) found, like)
      | inr here ↦
          (q, rw (same_test c x ptr same here) refl, eq ∙ ap marked (some_inj (rw here at e)))
    ]

pub get_block-OnlyMarks :
    (ptr total : ℕ) (bs cs : List Block) {b : Block}
    → OnlyMarks bs cs
    → get_block ptr (heap_of bs total) ≡ some b
    → (c : Block) × (get_block ptr (heap_of cs total) ≡ some c) × (marked c ≡ marked b)
unfolding get_block
get_block-OnlyMarks ptr total [] cs h e = absurd (none-some e)
get_block-OnlyMarks ptr total (x ∷ bs) [] h e = absurd h
get_block-OnlyMarks ptr total (x ∷ bs) (c ∷ cs) h e =
    elim (Bool-cases (ltb ptr (8 * x.address) || not (ltb ptr (8 * (x.address + total))))) [
      | inl out ↦ absurd (none-some (rw out at e))
      | inr within ↦
          let outside =
            ap (λ (y : Block). ltb ptr (8 * y.address) || not (ltb ptr (8 * (y.address + total))))
              h.0
            ∙ within in
          let (d, found, like) =
            block_before-OnlyMarks ptr x c (x ∷ bs) (c ∷ cs) (ap marked h.0) h (rw within at e) in
          (d, rw outside found, like)
    ]

pub in_heap_range-OnlyMarks :
    (bs cs : List Block) (total addr : ℕ)
    → OnlyMarks bs cs
    → in_heap_range cs total addr ≡ in_heap_range bs total addr
unfolding in_heap_range
in_heap_range-OnlyMarks [] [] total addr h = refl
in_heap_range-OnlyMarks [] (c ∷ cs) total addr h = absurd h
in_heap_range-OnlyMarks (b ∷ bs) [] total addr h = absurd h
in_heap_range-OnlyMarks (b ∷ bs) (c ∷ cs) total addr h =
    ap (λ (y : Block). not (ltb addr (8 * y.address)) && ltb addr (8 * (y.address + total))) h.0

-- Outside of the heap no word is part of a header.
header_word-outside :
    (a e i : ℕ) (bs : List Block) → Tiled a e bs → (i < a) ⊎ (e ≤ i) → header_word bs i ≡ none
unfolding header_word
header_word-outside a e i [] t out = refl
header_word-outside a e i (b ∷ bs) t out =
    let le = Tiled-le (a + block_size + b.size) e bs t.1 in
    rw
      (
        ne_test i b.address (λ h. omega (arith, h, t.0, out, le)),
        ne_test i (b.address + 1) (λ h. omega (arith, h, t.0, out, le)),
        ne_test i (b.address + 2) (λ h. omega (arith, h, t.0, out, le)),
      )
      (header_word-outside (a + block_size + b.size) e i bs t.1
        (further (a + block_size + b.size) out))
  where
    further : (k : ℕ) → (i < a) ⊎ (e ≤ i) → (i < a + block_size + b.size) ⊎ (e ≤ i)
    further k (inl lt) = inl (omega (arith, lt))
    further k (inr ge) = inr ge

heap_byte-outside :
    (w : World) (a e addr : ℕ) (bs : List Block)
    → Tiled a e bs
    → (addr < 8 * a) ⊎ (8 * e ≤ addr)
    → heap_byte w bs addr ≡ w.byte addr
unfolding heap_byte
heap_byte-outside w a e addr bs t out =
    rw (header_word-outside a e (addr / 8) bs t (word_outside out), heap_byte) refl
  where
    word_outside : (addr < 8 * a) ⊎ (8 * e ≤ addr) → (addr / 8 < a) ⊎ (e ≤ addr / 8)
    word_outside (inl lt) = inl (omega (arith, lt))
    word_outside (inr ge) = inr (omega (arith, ge))

long_of-outside :
    (n : ℕ) (w : World) (a e addr : ℕ) (bs cs : List Block)
    → Tiled a e bs
    → Tiled a e cs
    → (addr + n ≤ 8 * a) ⊎ (8 * e ≤ addr)
    → long_of n w cs addr ≡ long_of n w bs addr
unfolding long_of
long_of-outside zero w a e addr bs cs t u out = refl
long_of-outside (suc n) w a e addr bs cs t u out =
    rw
      (
        heap_byte-outside w a e addr bs t (first_byte out),
        heap_byte-outside w a e addr cs u (first_byte out),
        long_of-outside n w a e (addr + 1) bs cs t u (other_bytes out),
      )
      refl
  where
    first_byte : (addr + suc n ≤ 8 * a) ⊎ (8 * e ≤ addr) → (addr < 8 * a) ⊎ (8 * e ≤ addr)
    first_byte (inl le) = inl (omega (arith, le))
    first_byte (inr ge) = inr ge

    other_bytes :
        (addr + suc n ≤ 8 * a) ⊎ (8 * e ≤ addr) → (addr + 1 + n ≤ 8 * a) ⊎ (8 * e ≤ addr + 1)
    other_bytes (inl le) = inl (omega (arith, le))
    other_bytes (inr ge) = inr (omega (arith, ge))

-- A word outside of the heap is read alike, whatever the blocks are.
pub load_long-outside :
    (w : World) (a e addr : ℕ) (bs cs : List Block)
    → Tiled a e bs
    → Tiled a e cs
    → (addr + 8 ≤ 8 * a) ⊎ (8 * e ≤ addr)
    → load_long w cs addr ≡ load_long w bs addr
unfolding load_long
load_long-outside w a e addr bs cs t u out = long_of-outside 8 w a e addr bs cs t u out
