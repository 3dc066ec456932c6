-- ===== src/Alloc/Closed.antt =====
-- The heap keeps blocks alive in A4/alloc.c: what a word of any block points into survives markAndSweep.
use unh_cs.Common.{
  ℕ, zero, suc, ◌+◌, ◌*◌, ◌<◌, ◌≡◌, inl, inr, refl, sym, ap, ◌∙◌, Bool, true, false, ◌||◌, none,
  List, [], ◌∷◌, ◌==◌, Option-cases, some_inj, ==_iff, length, ◌^◌, if_both, true-false, arith,
}
use mathlib.Core.Path.{subst}
use unh_cs.Alloc.Blocks.{Block, block_size, heap_of, get_block, sweep}
use unh_cs.Alloc.Tiles.{Tiled}
use unh_cs.Alloc.World.{World, load_long, in_heap_range, in_global_range, in_stack_range}
use unh_cs.Alloc.Scan.{
  Marking, done, overwrote, null_block, exited, unfinished, ◌>>=◌, is_fresh, chase_heap, scan_block,
  scan_heap, scan_passes, scan_globals, scan_frames, mark_step, mark_and_sweep,
}
use unh_cs.Alloc.Kept.{
  OnDone_result, OnDone, OnDone-bind, OnlyMarks, OnlyMarks-Tiled, IsIn, get_block-IsIn,
}
use unh_cs.Alloc.Sweep.{sweep-Tiled, allocated, survivors, IsMarked, sweep-survivors}
use unh_cs.Alloc.Marked.{mark_step-OnlyMarks}
use unh_cs.Alloc.Collect.{OnlyMarks-IsMarked, unmarked, survivors-IsIn, IsIn-allocated}
use unh_cs.Alloc.Roots.{RefersTo, already-HasMark}

-- A search that says it has marked nothing has changed nothing, was told that nothing was marked
-- before, and `P` holds.
abbrev Quiet : (marked_any : Bool) → List Block → Type 0 → Bool × List Block → Type 0
Quiet marked_any bs P (marked, cs) = marked ≡ false → (marked_any ≡ false) × (cs ≡ bs) × P

OnDone-mono :
    {A : Type 0} (P Q : A → Type 0) (m : Marking A)
    → ((a : A) → P a → Q a)
    → OnDone P m
    → OnDone Q m
OnDone-mono P Q (done a) f h = f a h
OnDone-mono P Q (overwrote r) f h = tt
OnDone-mono P Q null_block f h = tt
OnDone-mono P Q exited f h = tt
OnDone-mono P Q unfinished f h = tt

OnDone-self : {A : Type 0} (m : Marking A) → OnDone (λ a. m ≡ done a) m
OnDone-self (done a) = refl
OnDone-self (overwrote r) = tt
OnDone-self null_block = tt
OnDone-self exited = tt
OnDone-self unfinished = tt

stale-marked : (b : Block) → is_fresh b ≡ false → b.alloc ≡ true → b.mark ≡ true
stale-marked b h live = ground (arith, h, live)

or-false : (a b : Bool) → (a || b) ≡ false → (a ≡ false) × (b ≡ false)
or-false true b e = absurd (true-false e)
or-false false b e = (refl, e)

module _ (w : World) (total : ℕ) where
  -- The block that a word refers to has its mark.
  abbrev pub IsMarkedBy : (word : ℕ) → List Block → Type 0
  IsMarkedBy word bs = (b : Block) → RefersTo total word b bs → b.mark ≡ true

  -- So it is for `n` words from an address on.
  abbrev pub AreMarkedBy : (n addr : ℕ) → List Block → Type 0
  AreMarkedBy n addr bs =
      (j word : ℕ) → j < n → load_long w bs (addr + 8 * j) ≡ word → IsMarkedBy word bs

  -- And for every word of every block.
  abbrev pub Closed : List Block → Type 0
  Closed bs = (x : Block) → IsIn x bs → AreMarkedBy x.size (8 * (x.address + block_size)) bs

  chase_heap-Quiet :
      (n word : ℕ) (bs : List Block)
      → OnDone (Quiet false bs (IsMarkedBy word bs)) (chase_heap n w total word bs)
  unfolding chase_heap
  chase_heap-Quiet zero word bs = tt
  chase_heap-Quiet (suc n) word bs =
      let Good : Marking (Bool × List Block) → Type 0 =
        OnDone (Quiet false bs (IsMarkedBy word bs)) in
      let later =
        OnDone-mono _ (Quiet false bs (Unit {0})) (chase_heap n w total (load_long w bs word) bs)
          (λ r q e. (refl, (q e).1, tt)) (chase_heap-Quiet n (load_long w bs word) bs) in
      let go_on : IsMarkedBy word bs → Good (chase_heap n w total (load_long w bs word) bs) =
        λ known.
          OnDone-mono (Quiet false bs (Unit {0})) _ (chase_heap n w total (load_long w bs word) bs)
            (λ r q e. (refl, (q e).1, known)) later in
      if_both Good (word == 0) _ _
        (λ null _. (refl, refl, λ b r. absurd (r.nonzero ((==_iff word 0).0 null))))
        (λ _.
          if_both Good (in_heap_range bs total word) _ _
            (λ _. elim (Option-cases (get_block word (heap_of bs total))) [
              | inl missing ↦ rw (missing, OnDone) tt
              | inr (b, found) ↦
                  rw (found, OnDone)
                    (if_both Good (is_fresh b) _ _ (λ _ h. absurd (true-false h))
                      (λ stale. go_on (λ c r.
                        let same : b ≡ c = some_inj (sym found ∙ r.block) in
                        subst (λ (y : Block). y.mark ≡ true) same
                          (stale-marked b stale (ap (λ (y : Block). y.alloc) same ∙ r.live)))))
            ])
            (λ out.
              let known : IsMarkedBy word bs = λ b r. absurd (true-false (sym r.in_heap ∙ out)) in
              if_both Good (in_global_range w word || in_stack_range w word) _ _ (λ _. go_on known)
                (λ _ _. (refl, refl, known))))

  scan_block-Quiet :
      (fuel n addr : ℕ) (any : Bool) (bs : List Block)
      → OnDone (Quiet any bs (AreMarkedBy n addr bs)) (scan_block fuel w total n addr any bs)
  unfolding scan_block
  scan_block-Quiet fuel zero addr any bs = λ e. (e, refl, λ j word lt. absurd (omega (arith, lt)))
  scan_block-Quiet fuel (suc n) addr any bs =
      OnDone-bind (Quiet false bs (IsMarkedBy (load_long w bs addr) bs)) _
        (chase_heap fuel w total (load_long w bs addr) bs) _
        (chase_heap-Quiet fuel (load_long w bs addr) bs)
        (λ (m, cs) q.
          OnDone-mono (Quiet (any || m) cs (AreMarkedBy n (addr + 8) cs)) _
            (scan_block fuel w total n (addr + 8) (any || m) cs)
            (λ r later e.
              let (quiet, same, marked) = later e in
              let (before, now) = or-false any m quiet in
              let (_, kept, first) = q now in
              (before, same ∙ kept, each first (subst (AreMarkedBy n (addr + 8)) kept marked)))
            (scan_block-Quiet fuel n (addr + 8) (any || m) cs))
    where
      each :
          IsMarkedBy (load_long w bs addr) bs
          → AreMarkedBy n (addr + 8) bs
          → AreMarkedBy (suc n) addr bs
      each first others zero word lt read =
          subst (λ x. IsMarkedBy x bs) (ap (load_long w bs) (omega arith) ∙ read) first
      each first others (suc j) word lt read =
          others j word (omega (arith, lt)) (ap (load_long w bs) (omega arith) ∙ read)

  scan_heap-Quiet :
      (fuel : ℕ) (heap : List Block) (any : Bool) (bs : List Block)
      → OnDone
          (Quiet any bs
            ((x : Block) → IsIn x heap → AreMarkedBy x.size (8 * (x.address + block_size)) bs))
          (scan_heap fuel w total heap any bs)
  unfolding scan_heap
  scan_heap-Quiet fuel [] any bs = λ e. (e, refl, λ x none_in. absurd none_in)
  scan_heap-Quiet fuel (b ∷ heap) any bs =
      let addr = 8 * (b.address + block_size) in
      OnDone-bind (Quiet any bs (AreMarkedBy b.size addr bs)) _
        (scan_block fuel w total b.size addr any bs) _ (scan_block-Quiet fuel b.size addr any bs)
        (λ (m, cs) q.
          OnDone-mono
            (Quiet m cs
              ((x : Block) → IsIn x heap → AreMarkedBy x.size (8 * (x.address + block_size)) cs))
            _ (scan_heap fuel w total heap m cs)
            (λ r later e.
              let (quiet, same, others) = later e in
              let (before, kept, first) = q quiet in
              (
                before,
                same ∙ kept,
                λ x i. elim i [
                  | inl here ↦
                      subst (λ (y : Block). AreMarkedBy y.size (8 * (y.address + block_size)) bs)
                        here first
                  | inr there ↦
                      subst (AreMarkedBy x.size (8 * (x.address + block_size))) kept
                        (others x there)
                ],
              ))
            (scan_heap-Quiet fuel heap m cs))

  scan_passes-Closed :
      (n fuel : ℕ) (bs : List Block) → OnDone Closed (scan_passes n fuel w total bs)
  unfolding scan_passes
  scan_passes-Closed zero fuel bs = tt
  scan_passes-Closed (suc n) fuel bs =
      OnDone-bind
        (Quiet false bs
          ((x : Block) → IsIn x bs → AreMarkedBy x.size (8 * (x.address + block_size)) bs))
        Closed (scan_heap fuel w total bs false bs) _ (scan_heap-Quiet fuel bs false bs)
        (λ (m, cs) q.
          if_both (OnDone Closed) m _ _ (λ _. scan_passes-Closed n fuel cs)
            (λ quiet. let (_, same, marked) = q quiet in subst Closed (sym same) marked))

anything : {A : Type 0} (m : Marking A) → OnDone (λ _. Unit {0}) m
anything m = OnDone-mono (λ a. m ≡ done a) (λ _. Unit {0}) m (λ a e. tt) (OnDone-self m)

mark_step-Closed :
    (fuel : ℕ) (w : World) (total : ℕ) (bs : List Block)
    → OnDone (Closed w total) (mark_step fuel w total bs)
unfolding mark_step
mark_step-Closed fuel w total bs =
    OnDone-bind (λ _. Unit {0}) (Closed w total) (scan_globals w total bs) _
      (anything (scan_globals w total bs))
      (λ cs _.
        OnDone-bind (λ _. Unit {0}) (Closed w total)
          (scan_frames fuel w total w.stack_top w.frame_bottom cs) _
          (anything (scan_frames fuel w total w.stack_top w.frame_bottom cs))
          (λ ds _. scan_passes-Closed w total (length bs + 1) fuel ds))

-- When the first step of markAndSweep ends with the heap `cs`: markAndSweep returns, the blocks lie one
-- behind the other in the same place, those that are allocated are the ones with a mark in `cs`, and
-- among them, with nothing changed but its mark cleared, is the allocated block `b` that a word of some
-- block `x` of the heap refers to. Only allocated blocks have marks before.
pub mark_and_sweep-heap :
    (fuel : ℕ) (w : World) (total a e : ℕ) (bs cs : List Block) (x b : Block) (j word : ℕ)
    → e < 2 ^ 62
    → Tiled a e bs
    → IsMarked bs
    → mark_step fuel w total bs ≡ done cs
    → IsIn x cs
    → j < x.size
    → load_long w cs (8 * (x.address + block_size) + 8 * j) ≡ word
    → RefersTo total word b cs
    → (mark_and_sweep fuel w total bs ≡ done (sweep none cs))
      × Tiled a e (sweep none cs).blocks
      × (allocated (sweep none cs).blocks ≡ survivors cs)
      × IsIn (unmarked b) (sweep none cs).blocks
unfolding mark_and_sweep
mark_and_sweep-heap fuel w total a e bs cs x b j word small t m stepped x_in lt read r =
    let h = OnDone_result (OnlyMarks bs) _ cs stepped (mark_step-OnlyMarks w total a e fuel bs t) in
    let closed = OnDone_result (Closed w total) _ cs stepped (mark_step-Closed fuel w total bs) in
    let kept = sweep-survivors none cs tt (OnlyMarks-IsMarked bs cs h m) in
    (
      ap (λ o. o >>= λ ds. done (sweep none ds)) stepped,
      sweep-Tiled a e none cs small (OnlyMarks-Tiled a e bs cs h t),
      kept,
      IsIn-allocated (unmarked b) (sweep none cs).blocks (
          subst (IsIn (unmarked b)) (sym kept) (
            survivors-IsIn b cs (
              already-HasMark b cs (closed x x_in j word lt read b r)
                (get_block-IsIn word total cs r.block)))),
    )
