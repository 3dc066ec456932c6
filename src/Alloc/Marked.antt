-- ===== src/Alloc/Marked.antt =====
-- The scans of markAndSweep in A4/alloc.c set marks only: of the globals, of the stack and of the
-- heap.
use unh_cs.Common.{
  ℕ, zero, suc, ◌+◌, ◌-◌, ◌*◌, ◌/◌, ◌%◌, ◌≡◌, Bool, true, false, not, ◌||◌, List, [], ◌∷◌, ltb,
  ◌==◌, length, Option-cases, if_both, inl, inr, arith,
}
use unh_cs.Alloc.Blocks.{Block, block_size, heap_of, get_block}
use unh_cs.Alloc.Tiles.{Tiled}
use unh_cs.Alloc.World.{World, in_global_range, in_stack_range, in_heap_range, load_long}
use unh_cs.Alloc.Scan.{
  Marking, done, overwrote, null_block, exited, unfinished, ◌>>=◌, is_fresh, next_word, chase_root,
  scan_words, scan_globals, scan_frames, chase_heap, scan_block, scan_heap, scan_passes, mark_step,
}
use unh_cs.Alloc.Kept.{
  OnDone, OnDone-bind, OnlyMarks, OnlyMarks-refl, OnlyMarks-trans, OnlyMarks-Tiled, get_block-IsIn,
  set_mark-OnlyMarks,
}

-- One step after another, on results that hold a heap.
step-OnlyMarks :
    {A B : Type 0} (f : A → List Block) (g : B → List Block) (bs : List Block) (m : Marking A)
    (k : A → Marking B)
    → OnDone (λ a. OnlyMarks bs (f a)) m
    → ((a : A) → OnlyMarks bs (f a) → OnDone (λ b. OnlyMarks (f a) (g b)) (k a))
    → OnDone (λ b. OnlyMarks bs (g b)) (m >>= k)
step-OnlyMarks {A} {B} f g bs m k h next =
    OnDone-bind (λ a. OnlyMarks bs (f a)) (λ b. OnlyMarks bs (g b)) m k h
      (λ a marks. later a marks (k a) (next a marks))
  where
    later :
        (a : A)
        → OnlyMarks bs (f a)
        → (r : Marking B) → OnDone (λ b. OnlyMarks (f a) (g b)) r
        → OnDone (λ b. OnlyMarks bs (g b)) r
    later a marks (done b) h' = OnlyMarks-trans bs (f a) (g b) marks h'
    later a marks (overwrote r) h' = tt
    later a marks null_block h' = tt
    later a marks exited h' = tt
    later a marks unfinished h' = tt

pub fresh-alloc : (b : Block) → is_fresh b ≡ true → b.alloc ≡ true
fresh-alloc b h = ground (arith, h)

abbrev keep_heap : List Block → List Block
keep_heap bs = bs

abbrev pub heap_in : Bool × List Block → List Block
heap_in (marked, bs) = bs

module _ (w : World) (total a e : ℕ) where
  pub chase_root-OnlyMarks :
      (n : ℕ) (is_variable : Bool) (word : ℕ) (bs : List Block)
      → Tiled a e bs
      → OnDone (OnlyMarks bs) (chase_root n w total is_variable word bs)
  unfolding chase_root
  chase_root-OnlyMarks zero v word bs t = OnlyMarks-refl bs
  chase_root-OnlyMarks (suc n) v word bs t =
      let later = chase_root-OnlyMarks n v (next_word w total bs word) bs t in
      if_both (OnDone (OnlyMarks bs)) (word == 0) _ _ (λ _. OnlyMarks-refl bs)
        (λ _.
          if_both (OnDone (OnlyMarks bs)) (not (in_heap_range bs total word)) _ _ (λ _. later)
            (λ _.
              if_both (OnDone (OnlyMarks bs)) v _ _ (λ _. OnlyMarks-refl bs)
                (λ _. elim (Option-cases (get_block word (heap_of bs total))) [
                  | inl missing ↦ rw (missing, OnDone) tt
                  | inr (b, found) ↦
                      rw (found, OnDone)
                        (if_both (OnDone (OnlyMarks bs)) (is_fresh b) _ _
                          (λ fresh.
                            set_mark-OnlyMarks a e bs b t (get_block-IsIn word total bs found)
                              (fresh-alloc b fresh))
                          (λ _. later))
                ])))

  pub scan_words-OnlyMarks :
      (is_variable : (addr word : ℕ) → Bool) (n addr : ℕ) (bs : List Block)
      → Tiled a e bs
      → OnDone (OnlyMarks bs) (scan_words w total is_variable n addr bs)
  unfolding scan_words
  scan_words-OnlyMarks v zero addr bs t = OnlyMarks-refl bs
  scan_words-OnlyMarks v (suc n) addr bs t =
      let word = load_long w bs addr in
      step-OnlyMarks keep_heap keep_heap bs (chase_root 100 w total (v addr word) word bs) _
        (chase_root-OnlyMarks 100 (v addr word) word bs t)
        (λ cs h. scan_words-OnlyMarks v n (addr + 8) cs (OnlyMarks-Tiled a e bs cs h t))

  pub scan_frames-OnlyMarks :
      (n top bottom : ℕ) (bs : List Block)
      → Tiled a e bs
      → OnDone (OnlyMarks bs) (scan_frames n w total top bottom bs)
  unfolding scan_frames
  scan_frames-OnlyMarks zero top bottom bs t = tt
  scan_frames-OnlyMarks (suc n) top bottom bs t =
      if_both (OnDone (OnlyMarks bs)) (not (ltb top bottom) || bottom == 0 || not (bottom % 8 == 0))
        _ _ (λ _. OnlyMarks-refl bs)
        (λ _.
          step-OnlyMarks keep_heap keep_heap bs
            (scan_words w total (λ addr word. addr == w.heap_variable) ((bottom - top) / 8 + 1) top
              bs)
            _
            (scan_words-OnlyMarks (λ addr word. addr == w.heap_variable) ((bottom - top) / 8 + 1)
              top bs t)
            (λ cs h.
              scan_frames-OnlyMarks n bottom (load_long w cs bottom) cs
                (OnlyMarks-Tiled a e bs cs h t)))

  pub chase_heap-OnlyMarks :
      (n word : ℕ) (bs : List Block)
      → Tiled a e bs
      → OnDone (λ r. OnlyMarks bs (heap_in r)) (chase_heap n w total word bs)
  unfolding chase_heap
  chase_heap-OnlyMarks zero word bs t = tt
  chase_heap-OnlyMarks (suc n) word bs t =
      let Good : Marking (Bool × List Block) → Type 0 = OnDone (λ r. OnlyMarks bs (heap_in r)) in
      let later = chase_heap-OnlyMarks n (load_long w bs word) bs t in
      if_both Good (word == 0) _ _ (λ _. OnlyMarks-refl bs)
        (λ _.
          if_both Good (in_heap_range bs total word) _ _
            (λ _. elim (Option-cases (get_block word (heap_of bs total))) [
              | inl missing ↦ rw (missing, OnDone) tt
              | inr (b, found) ↦
                  rw (found, OnDone)
                    (if_both Good (is_fresh b) _ _
                      (λ fresh.
                        set_mark-OnlyMarks a e bs b t (get_block-IsIn word total bs found)
                          (fresh-alloc b fresh))
                      (λ _. later))
            ])
            (λ _.
              if_both Good (in_global_range w word || in_stack_range w word) _ _ (λ _. later)
                (λ _. OnlyMarks-refl bs)))

  pub scan_block-OnlyMarks :
      (fuel n addr : ℕ) (marked_any : Bool) (bs : List Block)
      → Tiled a e bs
      → OnDone (λ r. OnlyMarks bs (heap_in r)) (scan_block fuel w total n addr marked_any bs)
  unfolding scan_block
  scan_block-OnlyMarks fuel zero addr any bs t = OnlyMarks-refl bs
  scan_block-OnlyMarks fuel (suc n) addr any bs t =
      step-OnlyMarks heap_in heap_in bs (chase_heap fuel w total (load_long w bs addr) bs) _
        (chase_heap-OnlyMarks fuel (load_long w bs addr) bs t)
        (λ (marked, cs) h.
          scan_block-OnlyMarks fuel n (addr + 8) (any || marked) cs (OnlyMarks-Tiled a e bs cs h t))

  pub scan_heap-OnlyMarks :
      (fuel : ℕ) (heap : List Block) (marked_any : Bool) (bs : List Block)
      → Tiled a e bs
      → OnDone (λ r. OnlyMarks bs (heap_in r)) (scan_heap fuel w total heap marked_any bs)
  unfolding scan_heap
  scan_heap-OnlyMarks fuel [] any bs t = OnlyMarks-refl bs
  scan_heap-OnlyMarks fuel (b ∷ heap) any bs t =
      step-OnlyMarks heap_in heap_in bs
        (scan_block fuel w total b.size (8 * (b.address + block_size)) any bs) _
        (scan_block-OnlyMarks fuel b.size (8 * (b.address + block_size)) any bs t)
        (λ (marked, cs) h. scan_heap-OnlyMarks fuel heap marked cs (OnlyMarks-Tiled a e bs cs h t))

  pub scan_passes-OnlyMarks :
      (n fuel : ℕ) (bs : List Block)
      → Tiled a e bs
      → OnDone (OnlyMarks bs) (scan_passes n fuel w total bs)
  unfolding scan_passes
  scan_passes-OnlyMarks zero fuel bs t = tt
  scan_passes-OnlyMarks (suc n) fuel bs t =
      step-OnlyMarks heap_in keep_heap bs (scan_heap fuel w total bs false bs) _
        (scan_heap-OnlyMarks fuel bs false bs t)
        (λ (marked, cs) h.
          if_both (OnDone (OnlyMarks cs)) marked _ _
            (λ _. scan_passes-OnlyMarks n fuel cs (OnlyMarks-Tiled a e bs cs h t))
            (λ _. OnlyMarks-refl cs))

  pub scan_globals-OnlyMarks :
      (bs : List Block) → Tiled a e bs → OnDone (OnlyMarks bs) (scan_globals w total bs)
  unfolding scan_globals
  scan_globals-OnlyMarks bs t =
      scan_words-OnlyMarks (λ addr word. word == w.heap_variable) ((w.data_end - w.data_start) / 8)
        w.data_start bs t

  -- Behind the globals.
  pub scans-OnlyMarks :
      (fuel passes : ℕ) (bs : List Block)
      → Tiled a e bs
      → OnDone (OnlyMarks bs) (
          scan_frames fuel w total w.stack_top w.frame_bottom bs >>= λ cs.
          scan_passes passes fuel w total cs)
  scans-OnlyMarks fuel passes bs t =
      step-OnlyMarks keep_heap keep_heap bs (scan_frames fuel w total w.stack_top w.frame_bottom bs)
        (λ cs. scan_passes passes fuel w total cs)
        (scan_frames-OnlyMarks fuel w.stack_top w.frame_bottom bs t)
        (λ cs h. scan_passes-OnlyMarks passes fuel cs (OnlyMarks-Tiled a e bs cs h t))

  -- The whole step sets marks of allocated blocks and changes nothing else.
  pub mark_step-OnlyMarks :
      (fuel : ℕ) (bs : List Block)
      → Tiled a e bs
      → OnDone (OnlyMarks bs) (mark_step fuel w total bs)
  unfolding mark_step
  mark_step-OnlyMarks fuel bs t =
      step-OnlyMarks keep_heap keep_heap bs (scan_globals w total bs)
        (λ cs. scan_frames fuel w total w.stack_top w.frame_bottom cs >>= λ ds.
          scan_passes (length bs + 1) fuel w total ds)
        (scan_globals-OnlyMarks bs t)
        (λ cs h. scans-OnlyMarks fuel (length bs + 1) cs (OnlyMarks-Tiled a e bs cs h t))
