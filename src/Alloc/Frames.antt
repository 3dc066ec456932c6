-- ===== src/Alloc/Frames.antt =====
-- The stack keeps blocks alive in A4/alloc.c: what a word of the current frame points into survives
-- markAndSweep.
use unh_cs.Common.{
  ℕ, zero, suc, ◌+◌, ◌-◌, ◌*◌, ◌/◌, ◌%◌, ◌≤◌, ◌<◌, ◌≡◌, ◌≢◌, ◌⊎◌, inl, inr, ◌∙◌, Bool, List, ◌==◌,
  length, ne_test, lt→ltb, eq_test, arith, ap, none,
}
use mathlib.Core.Path.{subst}
use unh_cs.Alloc.Blocks.{Block}
use unh_cs.Alloc.Tiles.{Tiled}
use unh_cs.Alloc.Sweep.{IsMarked}
use unh_cs.Alloc.World.{World, load_long}
use unh_cs.Alloc.Scan.{
  Marking, done, ◌>>=◌, scan_words, scan_globals, scan_frames, scan_passes, mark_step,
  mark_and_sweep,
}
use unh_cs.Alloc.Blocks.{Swept, sweep}
use unh_cs.Alloc.Kept.{
  OnDone_result, OnDone, OnDone-bind, both-OnDone, OnlyMarks, OnlyMarks-Tiled, IsIn,
}
use unh_cs.Alloc.Marked.{
  scan_words-OnlyMarks, scan_globals-OnlyMarks, scan_frames-OnlyMarks, scan_passes-OnlyMarks,
}
use unh_cs.Alloc.Marks.{marked, HasMark, load_long-outside}
use unh_cs.Alloc.Roots.{RefersTo, RefersTo-OnlyMarks, more-HasMark, scan_words-HasMark}
use unh_cs.Alloc.Collect.{OnlyMarks-IsMarked, unmarked, mark_and_sweep-HasMark}

-- A heap whose blocks lie one behind the other between the words `a` and `e`, apart from the current
-- frame, a frame that markAndSweep searches, and the word number `i` of the frame, which refers to the
-- block `b` and does not stand at the address of the variable `heap`.
pub record IsFrameRoot (w : World) (total a e i word : ℕ) (b : Block) (bs : List Block)
    : Type 0 where
  pub tiled : Tiled a e bs
  pub marks : IsMarked bs
  pub frame : w.stack_top < w.frame_bottom
  pub aligned : w.frame_bottom % 8 ≡ 0
  pub number : i < (w.frame_bottom - w.stack_top) / 8 + 1
  pub apart : (w.frame_bottom + 8 ≤ 8 * a) ⊎ (8 * e ≤ w.stack_top)
  pub read : load_long w bs (w.stack_top + 8 * i) ≡ word
  pub other : w.stack_top + 8 * i ≢ w.heap_variable
  pub refers : RefersTo total word b bs

module _ (w : World) (total a e i word : ℕ) where
  -- The rest of the frames and the passes over the heap keep the mark.
  frame-HasMark :
      (fuel : ℕ) (b : Block) (bs : List Block)
      → IsFrameRoot w total a e i word b bs
      → OnDone (HasMark b) (scan_frames fuel w total w.stack_top w.frame_bottom bs)
  unfolding scan_frames
  frame-HasMark zero b bs r = tt
  frame-HasMark (suc n) b bs r =
      let count = (w.frame_bottom - w.stack_top) / 8 + 1 in
      let v : ℕ → ℕ → Bool = λ addr x. addr == w.heap_variable in
      let scanned : Marking (List Block) = scan_words w total v count w.stack_top bs in
      rw
        (
          lt→ltb w.stack_top w.frame_bottom r.frame,
          ne_test w.frame_bottom 0 (λ z. omega (arith, z, r.frame)),
          eq_test (w.frame_bottom % 8) 0 r.aligned,
        )
        (OnDone-bind (λ cs. HasMark b cs × OnlyMarks bs cs) (HasMark b) scanned _
          (both-OnDone (HasMark b) (OnlyMarks bs) scanned
            (scan_words-HasMark w total a e v count i w.stack_top word b bs r.tiled r.number
              (outside r.apart) r.read (ne_test (w.stack_top + 8 * i) w.heap_variable r.other)
              r.refers)
            (scan_words-OnlyMarks w total a e v count w.stack_top bs r.tiled))
          (λ cs (m, h). more-HasMark b cs _ m (
            scan_frames-OnlyMarks w total a e n w.frame_bottom (load_long w cs w.frame_bottom) cs
              (OnlyMarks-Tiled a e bs cs h r.tiled))))
    where
      outside :
          (w.frame_bottom + 8 ≤ 8 * a) ⊎ (8 * e ≤ w.stack_top)
          → (w.stack_top + 8 * ((w.frame_bottom - w.stack_top) / 8 + 1) ≤ 8 * a)
            ⊎ (8 * e ≤ w.stack_top)
      outside (inl le) = inl (omega (arith, le, r.frame))
      outside (inr ge) = inr ge

-- A root of the frame is one after some marks are set, of the same block but for its mark.
IsFrameRoot-OnlyMarks :
    {w : World} {total a e i word : ℕ} {b : Block} (bs cs : List Block)
    → OnlyMarks bs cs
    → IsFrameRoot w total a e i word b bs
    → (c : Block) × IsFrameRoot w total a e i word c cs × (marked c ≡ marked b)
IsFrameRoot-OnlyMarks {w} {total} {a} {e} {i} {word} bs cs h r =
    let (c, refers, like) = RefersTo-OnlyMarks bs cs h r.refers in
    let t = OnlyMarks-Tiled a e bs cs h r.tiled in
    (
      c,
      record {
        tiled = t;
        marks = OnlyMarks-IsMarked bs cs h r.marks;
        frame = r.frame;
        aligned = r.aligned;
        number = r.number;
        apart = r.apart;
        read =
            load_long-outside w a e (w.stack_top + 8 * i) bs cs r.tiled t (beside r.apart) ∙ r.read;
        other = r.other;
        refers = refers;
      },
      like,
    )
  where
    beside :
        (w.frame_bottom + 8 ≤ 8 * a) ⊎ (8 * e ≤ w.stack_top)
        → (w.stack_top + 8 * i + 8 ≤ 8 * a) ⊎ (8 * e ≤ w.stack_top + 8 * i)
    beside (inl le) = inl (omega (arith, le, r.frame, r.number))
    beside (inr ge) = inr (omega (arith, ge))

frame_step-HasMark :
    (fuel passes : ℕ) (w : World) (total a e i word : ℕ) (b : Block) (bs : List Block)
    → IsFrameRoot w total a e i word b bs
    → OnDone (HasMark b) (
        scan_frames fuel w total w.stack_top w.frame_bottom bs >>= λ cs.
        scan_passes passes fuel w total cs)
frame_step-HasMark fuel passes w total a e i word b bs r =
    let framed : Marking (List Block) = scan_frames fuel w total w.stack_top w.frame_bottom bs in
    OnDone-bind (λ cs. HasMark b cs × OnlyMarks bs cs) (HasMark b) framed
      (λ cs. scan_passes passes fuel w total cs)
      (both-OnDone (HasMark b) (OnlyMarks bs) framed (frame-HasMark w total a e i word fuel b bs r)
        (scan_frames-OnlyMarks w total a e fuel w.stack_top w.frame_bottom bs r.tiled))
      (λ cs (m, h).
        more-HasMark b cs _ m
          (scan_passes-OnlyMarks w total a e passes fuel cs (OnlyMarks-Tiled a e bs cs h r.tiled)))

mark_step-frame :
    (fuel : ℕ) (w : World) (total a e i word : ℕ) (b : Block) (bs : List Block)
    → IsFrameRoot w total a e i word b bs
    → OnDone (HasMark b) (mark_step fuel w total bs)
unfolding mark_step
mark_step-frame fuel w total a e i word b bs r =
    OnDone-bind (OnlyMarks bs) (HasMark b) (scan_globals w total bs) _
      (scan_globals-OnlyMarks w total a e bs r.tiled)
      (λ cs h.
        let (c, root, like) = IsFrameRoot-OnlyMarks bs cs h r in
        subst
          (λ x.
            OnDone (λ ds. IsIn x ds)
              (scan_frames fuel w total w.stack_top w.frame_bottom cs >>= λ ds.
                scan_passes (length bs + 1) fuel w total ds))
          like (frame_step-HasMark fuel (length bs + 1) w total a e i word c cs root))

-- When the first step of markAndSweep ends with the heap `cs`: markAndSweep returns, and an allocated
-- block that a word of the current stack frame refers to is there in the heap that it leaves, with
-- nothing changed but its mark cleared.
pub mark_and_sweep-frame :
    (fuel : ℕ) (w : World) (total a e i word : ℕ) (b : Block) (bs cs : List Block)
    → IsFrameRoot w total a e i word b bs
    → mark_step fuel w total bs ≡ done cs
    → (mark_and_sweep fuel w total bs ≡ done (sweep none cs))
      × IsIn (unmarked b) (sweep none cs).blocks
unfolding mark_and_sweep
mark_and_sweep-frame fuel w total a e i word b bs cs r stepped =
    let returned = ap (λ o. o >>= λ ds. done (sweep none ds)) stepped in
    (
      returned,
      OnDone_result (λ (s : Swept). IsIn (unmarked b) s.blocks) _ _ returned
          (mark_and_sweep-HasMark fuel w total a e b bs r.tiled r.marks
            (mark_step-frame fuel w total a e i word b bs r)),
    )
