-- ===== src/Alloc/Shown.antt =====
-- What the listing of a block by memDump of A4/alloc.c says of its words.
use unh_cs.Common.{
  ℕ, zero, suc, ◌+◌, ◌-◌, ◌*◌, ◌≤◌, ◌≡◌, refl, sym, ap, ◌∙◌, inl, inr, Bool, List, [], ◌∷◌, ◌++◌,
  ◌==◌, length, Bool-cases, ==_iff, append_assoc, ne_test, lt→ltb, arith,
}
use unh_cs.Alloc.Blocks.{Block, block_size}
use unh_cs.Alloc.World.{World}
use unh_cs.Alloc.Dump.{
  DumpLine, shown, skipped, blank, words_at, zero_count, after_zeros, zero_rows, cluster_rows,
  block_rows, block_words,
}

-- Words with their addresses, from an address on.
pub located : (addr : ℕ) → List ℕ → List (ℕ × ℕ)
located addr [] = []
located addr (v ∷ vs) = (addr, v) ∷ located (addr + 8) vs

zeros_at : (count addr : ℕ) → List (ℕ × ℕ)
zeros_at zero addr = []
zeros_at (suc n) addr = (addr, 0) ∷ zeros_at n (addr + 8)

-- A listing read back: words that are left out are 0 and stand behind the word of the line before.
pub expand : (addr : ℕ) → List DumpLine → List (ℕ × ℕ)
unfolding zeros_at
expand addr [] = []
expand addr (shown address value label ∷ rows) = (address, value) ∷ expand (address + 8) rows
expand addr (skipped words ∷ rows) = zeros_at words addr ++ expand (addr + 8 * words) rows

move : (addr n : ℕ) → addr + 8 + 8 * n ≡ addr + 8 * suc n
move addr n = omega arith

located-zeros :
    (addr : ℕ) (vs : List ℕ)
    → located addr vs
      ≡ zeros_at (zero_count vs) addr ++ located (addr + 8 * zero_count vs) (after_zeros vs)
unfolding located zeros_at zero_count after_zeros
located-zeros addr [] = refl
located-zeros addr (v ∷ vs) = elim (Bool-cases (v == 0)) [
  | inr other ↦ rw other (ap (λ a. (a, v) ∷ located (a + 8) vs) (omega arith))
  | inl null ↦ rw null (
      ap (λ x. (addr, x) ∷ located (addr + 8) vs) ((==_iff v 0).0 null)
      ∙ ap (λ l. (addr, 0) ∷ l) (located-zeros (addr + 8) vs)
      ∙ ap (λ a. (addr, 0) ∷ (zeros_at (zero_count vs) (addr + 8) ++ located a (after_zeros vs)))
          (move addr (zero_count vs)))
]

zeros_at-last : (n addr : ℕ) → zeros_at (suc n) addr ≡ zeros_at n addr ++ (addr + 8 * n, 0) ∷ []
unfolding zeros_at
zeros_at-last zero addr = ap (λ a. (a, 0) ∷ []) (omega arith)
zeros_at-last (suc n) addr =
    ap (λ l. (addr, 0) ∷ l)
      (zeros_at-last n (addr + 8) ∙ ap (λ a. zeros_at n (addr + 8) ++ (a, 0) ∷ []) (move addr n))

many_rows :
    (addr n : ℕ)
    → zero_rows addr (suc (suc (suc n)))
      ≡ shown addr 0 blank ∷ skipped (suc n) ∷ shown (addr + 8 * suc (suc n)) 0 blank ∷ []
unfolding zero_rows
many_rows addr n =
    rw
      (
        ne_test (suc (suc (suc n))) 1 (λ e. omega (arith, e)),
        lt→ltb 2 (suc (suc (suc n))) (omega arith),
      )
      (ap
          (λ k.
            shown addr 0 blank
            ∷ skipped k
            ∷ shown (addr + 8 * (suc (suc (suc n)) - 1)) 0 blank
            ∷ [])
          (omega arith)
        ∙ ap (λ k. shown addr 0 blank ∷ skipped (suc n) ∷ shown (addr + 8 * k) 0 blank ∷ [])
            (omega arith))

expand-zero_rows :
    (addr count : ℕ) (rows : List DumpLine)
    → expand addr (zero_rows addr (suc count) ++ rows)
      ≡ zeros_at (suc count) addr ++ expand (addr + 8 * suc count) rows
unfolding expand zeros_at zero_rows
expand-zero_rows addr zero rows = refl
expand-zero_rows addr (suc zero) rows =
    ap (λ a. (addr, 0) ∷ (addr + 8, 0) ∷ expand a rows) (omega arith)
expand-zero_rows addr (suc (suc n)) rows =
    let first : List (ℕ × ℕ) = zeros_at (suc n) (addr + 8) in
    let behind = expand (addr + 8 * suc (suc (suc n))) rows in
    ap (λ l. expand addr (l ++ rows)) (many_rows addr n)
    ∙ ap (λ a. (addr, 0) ∷ (first ++ (addr + 8 * suc (suc n), 0) ∷ expand a rows)) (omega arith)
    ∙ ap (λ a. (addr, 0) ∷ (first ++ (a, 0) ∷ behind)) (sym (move addr (suc n)))
    ∙ ap (λ l. (addr, 0) ∷ l)
        (sym (append_assoc first ((addr + 8 + 8 * suc n, 0) ∷ []) behind)
          ∙ ap (λ l. l ++ behind) (sym (zeros_at-last (suc n) (addr + 8))))

length-after_zeros : (vs : List ℕ) → length (after_zeros vs) ≤ length vs
unfolding after_zeros
length-after_zeros [] = omega arith
length-after_zeros (v ∷ vs) = elim (Bool-cases (v == 0)) [
  | inl null ↦ rw null (omega (arith, length-after_zeros vs))
  | inr other ↦ rw other (omega arith)
]

expand-cluster_rows :
    (fuel : ℕ) (points : ℕ → Bool) (addr : ℕ) (vs : List ℕ)
    → length vs ≤ fuel
    → expand addr (cluster_rows fuel points addr vs) ≡ located addr vs
unfolding expand cluster_rows located zeros_at
expand-cluster_rows zero points addr [] enough = refl
expand-cluster_rows zero points addr (v ∷ vs) enough = absurd (omega (arith, enough))
expand-cluster_rows (suc n) points addr [] enough = refl
expand-cluster_rows (suc n) points addr (v ∷ vs) enough = elim (Bool-cases (v == 0)) [
  | inr other ↦
      rw other (
        ap (λ l. (addr, v) ∷ l)
          (expand-cluster_rows n points (addr + 8) vs (omega (arith, enough))))
  | inl null ↦ rw null (
      expand-zero_rows addr (zero_count vs)
        (cluster_rows n points (addr + 8 * suc (zero_count vs)) (after_zeros vs))
      ∙ ap (λ l. (addr, 0) ∷ (zeros_at (zero_count vs) (addr + 8) ++ l))
          (expand-cluster_rows n points (addr + 8 * suc (zero_count vs)) (after_zeros vs)
            (omega (arith, length-after_zeros vs, enough)))
      ∙ ap (λ a. (addr, 0) ∷ (zeros_at (zero_count vs) (addr + 8) ++ located a (after_zeros vs)))
          (sym (move addr (zero_count vs)))
      ∙ ap (λ l. (addr, 0) ∷ l) (sym (located-zeros (addr + 8) vs))
      ∙ ap (λ x. (addr, x) ∷ located (addr + 8) vs) (sym ((==_iff v 0).0 null)))
]

length-words_at : (w : World) (bs : List Block) (n addr : ℕ) → length (words_at w bs n addr) ≡ n
unfolding words_at
length-words_at w bs zero addr = refl
length-words_at w bs (suc n) addr = ap suc (length-words_at w bs n (addr + 8))

-- From the lines that memDump prints for a block every word of the block can be read back, at its
-- address, those that are left out between two zeros included.
pub block_rows-words :
    (w : World) (total : ℕ) (bs : List Block) (b : Block)
    → expand (8 * (b.address + block_size)) (block_rows w total bs b)
      ≡ located (8 * (b.address + block_size)) (block_words w bs b)
unfolding block_rows
block_rows-words w total bs b =
    expand-cluster_rows b.size _ (8 * (b.address + block_size)) (block_words w bs b)
      (omega (arith, length-words_at w bs b.size (8 * (b.address + block_size))))
