-- ===== src/Alloc/Passes.antt =====
-- The passes over the heap in markAndSweep of A4/alloc.c: one for each block and one more are enough,
-- since each pass but the last marks a block.
use unh_cs.Common.{
  ℕ, zero, suc, ◌+◌, ◌*◌, ◌≤◌, ◌<◌, ◌≡◌, ◌≢◌, ◌⊎◌, inl, inr, refl, sym, ap, ◌∙◌, Bool, true, false,
  ◌||◌, List, [], ◌∷◌, ◌==◌, if◌then◌else◌, length, Option-cases, if_both, true-false, ==_iff,
  eq_test, arith,
}
use unh_cs.Alloc.Blocks.{Block, block_size, heap_of, get_block}
use unh_cs.Alloc.Tiles.{Tiled}
use unh_cs.Alloc.World.{World, in_global_range, in_stack_range, in_heap_range, load_long}
use unh_cs.Alloc.Scan.{
  Marking, done, overwrote, null_block, exited, unfinished, ◌>>=◌, set_mark, is_fresh, chase_heap,
  scan_block, scan_heap, scan_passes,
}
use unh_cs.Alloc.Kept.{
  OnDone, OnDone-bind, both-OnDone, OnlyMarks, OnlyMarks-refl, OnlyMarks-trans, OnlyMarks-Tiled,
  IsIn, IsIn-address, get_block-IsIn,
}
use unh_cs.Alloc.Marked.{heap_in, chase_heap-OnlyMarks, scan_block-OnlyMarks, scan_heap-OnlyMarks}

abbrev weight : Bool → ℕ
weight false = 0
weight true = 1

weight_le : (b : Bool) → weight b ≤ 1
weight_le false = omega arith
weight_le true = omega arith

-- The allocated blocks without a mark.
count_fresh : List Block → ℕ
count_fresh [] = 0
count_fresh (b ∷ bs) = weight (is_fresh b) + count_fresh bs

count_fresh-length : (bs : List Block) → count_fresh bs ≤ length bs
unfolding count_fresh
count_fresh-length [] = omega arith
count_fresh-length (b ∷ bs) = omega (arith, count_fresh-length bs, weight_le (is_fresh b))

weight_one : (b : Block) → is_fresh b ≡ true → weight (is_fresh b) ≡ 1
weight_one b h = ap weight h

set_mark-count_fresh :
    (a e : ℕ) (bs : List Block) (b : Block)
    → Tiled a e bs
    → IsIn b bs
    → is_fresh b ≡ true
    → suc (count_fresh (set_mark b.address bs)) ≡ count_fresh bs
unfolding set_mark count_fresh
set_mark-count_fresh a e [] b t h fresh = absurd h
set_mark-count_fresh a e (x ∷ bs) b t (inl same) fresh =
    if_both (λ l. suc (count_fresh l) ≡ count_fresh (x ∷ bs)) (x.address == b.address) _ _
      (λ _. omega (arith, weight_one x (ap (λ (y : Block). is_fresh y) same ∙ fresh)))
      (λ other. absurd (
        true-false
          (sym (eq_test x.address b.address (ap (λ (y : Block). y.address) same)) ∙ other)))
set_mark-count_fresh a e (x ∷ bs) b t (inr later) fresh =
    if_both (λ l. suc (count_fresh l) ≡ count_fresh (x ∷ bs)) (x.address == b.address) _ _
      (λ here. absurd (
        omega (
          arith,
          t.0,
          (==_iff x.address b.address).0 here,
          IsIn-address (a + block_size + x.size) e bs b t.1 later,
        )))
      (λ _. omega (arith, set_mark-count_fresh (a + block_size + x.size) e bs b t.1 later fresh))

-- Fewer blocks are fresh if one was marked.
abbrev Fewer : (bs : List Block) → (marked_any : Bool) → Bool × List Block → Type 0
Fewer bs marked_any (m, cs) =
    (count_fresh cs ≤ count_fresh bs)
    × (m ≡ true → (marked_any ≡ true) ⊎ (count_fresh cs < count_fresh bs))

same-Fewer : (bs : List Block) (any : Bool) → Fewer bs any (any, bs)
same-Fewer bs any = (omega arith, λ m. inl m)

then-Fewer :
    (bs cs ds : List Block) (any m n : Bool)
    → Fewer bs any (m, cs)
    → Fewer cs m (n, ds)
    → Fewer bs any (n, ds)
then-Fewer bs cs ds any m n (le, why) (le', why') = (
  omega (arith, le, le'),
  λ h. elim (why' h) [
    | inl earlier ↦ elim (why earlier) [ inl old ↦ inl old | inr lt ↦ inr (omega (arith, lt, le')) ]
    | inr lt ↦ inr (omega (arith, lt, le))
  ],
)

add-Fewer :
    (bs cs : List Block) (any m : Bool) → Fewer bs false (m, cs) → Fewer bs any (any || m, cs)
add-Fewer bs cs true m (le, why) = (le, λ _. inl refl)
add-Fewer bs cs false m (le, why) = (le, why)

step-Fewer :
    (bs : List Block) (any : Bool) (r : Marking (Bool × List Block))
    (k : Bool × List Block → Marking (Bool × List Block))
    → OnDone (λ x. OnlyMarks bs (heap_in x)) r
    → OnDone (Fewer bs any) r
    → ((m : Bool) (cs : List Block) → OnlyMarks bs cs → OnDone (Fewer cs m) (k (m, cs)))
    → OnDone (Fewer bs any) (r >>= k)
step-Fewer bs any r k h f next =
    OnDone-bind (λ x. OnlyMarks bs (heap_in x) × Fewer bs any x) (Fewer bs any) r k
      (both-OnDone _ _ r h f)
      (λ (m, cs) (marks, first). behind m cs first (k (m, cs)) (next m cs marks))
  where
    behind :
        (m : Bool) (cs : List Block)
        → Fewer bs any (m, cs)
        → (x : Marking (Bool × List Block)) → OnDone (Fewer cs m) x
        → OnDone (Fewer bs any) x
    behind m cs first (done (n, ds)) g = then-Fewer bs cs ds any m n first g
    behind m cs first (overwrote r) g = tt
    behind m cs first null_block g = tt
    behind m cs first exited g = tt
    behind m cs first unfinished g = tt

done-unfinished : {A : Type 0} {x : A} → done x ≢ unfinished
done-unfinished e = cc

overwrote-unfinished : {r : ℕ} → ◌≢◌ {A = Marking (List Block)} (overwrote r) unfinished
overwrote-unfinished e = cc

null_block-unfinished : ◌≢◌ {A = Marking (List Block)} null_block unfinished
null_block-unfinished e = cc

exited-unfinished : ◌≢◌ {A = Marking (List Block)} exited unfinished
exited-unfinished e = cc

module _ (w : World) (total a e : ℕ) where
  chase_heap-Fewer :
      (n word : ℕ) (bs : List Block)
      → Tiled a e bs
      → OnDone (Fewer bs false) (chase_heap n w total word bs)
  unfolding chase_heap
  chase_heap-Fewer zero word bs t = tt
  chase_heap-Fewer (suc n) word bs t =
      let later = chase_heap-Fewer n (load_long w bs word) bs t in
      if_both (OnDone (Fewer bs false)) (word == 0) _ _ (λ _. same-Fewer bs false)
        (λ _.
          if_both (OnDone (Fewer bs false)) (in_heap_range bs total word) _ _
            (λ _. elim (Option-cases (get_block word (heap_of bs total))) [
              | inl missing ↦ rw (missing, OnDone) tt
              | inr (b, found) ↦
                  rw (found, OnDone)
                    (if_both (OnDone (Fewer bs false)) (is_fresh b) _ _
                      (λ fresh.
                        let one =
                          set_mark-count_fresh a e bs b t (get_block-IsIn word total bs found)
                            fresh in
                        (omega (arith, one), λ _. inr (omega (arith, one))))
                      (λ _. later))
            ])
            (λ _.
              if_both (OnDone (Fewer bs false)) (in_global_range w word || in_stack_range w word) _
                _ (λ _. later) (λ _. same-Fewer bs false)))

  scan_block-Fewer :
      (fuel n addr : ℕ) (any : Bool) (bs : List Block)
      → Tiled a e bs
      → OnDone (Fewer bs any) (scan_block fuel w total n addr any bs)
  unfolding scan_block
  scan_block-Fewer fuel zero addr any bs t = same-Fewer bs any
  scan_block-Fewer fuel (suc n) addr any bs t =
      OnDone-bind (λ x. OnlyMarks bs (heap_in x) × Fewer bs false x) (Fewer bs any)
        (chase_heap fuel w total (load_long w bs addr) bs) _
        (both-OnDone _ _ (chase_heap fuel w total (load_long w bs addr) bs)
          (chase_heap-OnlyMarks w total a e fuel (load_long w bs addr) bs t)
          (chase_heap-Fewer fuel (load_long w bs addr) bs t))
        (λ (m, cs) (h, f).
          step-Fewer bs any (done (any || m, cs))
            (λ x. scan_block fuel w total n (addr + 8) x.0 x.1) h (add-Fewer bs cs any m f)
            (λ m' cs' h'.
              scan_block-Fewer fuel n (addr + 8) m' cs' (OnlyMarks-Tiled a e bs cs' h' t)))

  scan_heap-Fewer :
      (fuel : ℕ) (heap : List Block) (any : Bool) (bs : List Block)
      → Tiled a e bs
      → OnDone (Fewer bs any) (scan_heap fuel w total heap any bs)
  unfolding scan_heap
  scan_heap-Fewer fuel [] any bs t = same-Fewer bs any
  scan_heap-Fewer fuel (b ∷ heap) any bs t =
      step-Fewer bs any (scan_block fuel w total b.size (8 * (b.address + block_size)) any bs) _
        (scan_block-OnlyMarks w total a e fuel b.size (8 * (b.address + block_size)) any bs t)
        (scan_block-Fewer fuel b.size (8 * (b.address + block_size)) any bs t)
        (λ m cs h. scan_heap-Fewer fuel heap m cs (OnlyMarks-Tiled a e bs cs h t))

  -- Each pass comes to an end, from whatever marks.
  abbrev pub PassesEnd : (fuel : ℕ) → List Block → Type 0
  PassesEnd fuel bs =
      (cs : List Block) → OnlyMarks bs cs → scan_heap fuel w total cs false cs ≢ unfinished

  passes-IsFinished :
      (n fuel : ℕ) (bs : List Block)
      → Tiled a e bs
      → count_fresh bs < n
      → PassesEnd fuel bs
      → scan_passes n fuel w total bs ≢ unfinished
  unfolding scan_passes
  passes-IsFinished zero fuel bs t lt ends u = omega (arith, lt)
  passes-IsFinished (suc n) fuel bs t lt ends u =
      after
        (λ cs h less.
          passes-IsFinished n fuel cs (OnlyMarks-Tiled a e bs cs h t) (omega (arith, less, lt))
            (λ ds g. ends ds (OnlyMarks-trans bs cs ds h g)))
        (scan_heap fuel w total bs false bs) (ends bs (OnlyMarks-refl bs))
        (scan_heap-OnlyMarks w total a e fuel bs false bs t) (scan_heap-Fewer fuel bs false bs t) u
    where
      after :
          ((cs : List Block)
            → OnlyMarks bs cs
            → count_fresh cs < count_fresh bs
            → scan_passes n fuel w total cs ≢ unfinished)
          → (r : Marking (Bool × List Block)) → r ≢ unfinished
          → OnDone (λ x. OnlyMarks bs (heap_in x)) r
          → OnDone (Fewer bs false) r
          → (r >>= λ (m, cs).
              let again = scan_passes n fuel w total cs in if m then again else done cs)
            ≢ unfinished
      after next (done (true, cs)) ended h f v = elim (f.1 refl) [
        | inl e ↦ true-false (sym e)
        | inr less ↦ next cs h less v
      ]
      after next (done (false, cs)) ended h f v = done-unfinished v
      after next (overwrote r) ended h f v = overwrote-unfinished v
      after next null_block ended h f v = null_block-unfinished v
      after next exited ended h f v = exited-unfinished v
      after next unfinished ended h f v = ended refl

  -- If each pass comes to an end, one pass for each block and one more are enough.
  pub scan_passes-IsFinished :
      (fuel : ℕ) (bs : List Block)
      → Tiled a e bs
      → PassesEnd fuel bs
      → scan_passes (length bs + 1) fuel w total bs ≢ unfinished
  scan_passes-IsFinished fuel bs t ends =
      passes-IsFinished (length bs + 1) fuel bs t (omega (arith, count_fresh-length bs)) ends
