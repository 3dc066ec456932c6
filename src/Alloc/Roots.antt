-- ===== src/Alloc/Roots.antt =====
-- The globals keep blocks alive in A4/alloc.c: what a global points into is marked, survives
-- markAndSweep and every call of memAllocate.
use unh_cs.Common.{
  ℕ, zero, suc, ◌+◌, ◌-◌, ◌*◌, ◌/◌, ◌≤◌, ◌<◌, ◌≡◌, ◌≢◌, ◌⊎◌, inl, inr, sym, ap, ◌∙◌, Bool, true,
  false, some, List, ◌==◌, length, if_both, ne_test, arith,
}
use mathlib.Core.Path.{subst}
use unh_cs.Alloc.Blocks.{Block, heap_of, get_block}
use unh_cs.Alloc.Tiles.{Tiled}
use unh_cs.Alloc.World.{World, in_heap_range, load_long}
use unh_cs.Alloc.Scan.{
  Marking, done, overwrote, null_block, exited, unfinished, is_fresh, next_word, chase_root,
  scan_words, scan_globals, mark_step,
}
use unh_cs.Alloc.Kept.{
  OnDone, OnDone-bind, both-OnDone, OnlyMarks, OnlyMarks-Tiled, IsIn, get_block-IsIn,
}
use unh_cs.Alloc.Marked.{chase_root-OnlyMarks, scan_words-OnlyMarks, scans-OnlyMarks}
use unh_cs.Alloc.Marks.{
  marked, HasMark, HasMark-OnlyMarks, set_mark-HasMark, get_block-OnlyMarks,
  in_heap_range-OnlyMarks, load_long-outside,
}

-- A word that leads into the allocated block `b`.
pub record RefersTo (total word : ℕ) (b : Block) (bs : List Block) : Type 0 where
  pub nonzero : word ≢ 0
  pub in_heap : in_heap_range bs total word ≡ true
  pub block : get_block word (heap_of bs total) ≡ some b
  pub live : b.alloc ≡ true

-- A reference is one after some marks are set, to the same block but for its mark.
pub RefersTo-OnlyMarks :
    {total word : ℕ} {b : Block} (bs cs : List Block)
    → OnlyMarks bs cs
    → RefersTo total word b bs
    → (c : Block) × RefersTo total word c cs × (marked c ≡ marked b)
RefersTo-OnlyMarks {total} {word} bs cs h r =
    let (c, found, like) = get_block-OnlyMarks word total bs cs h r.block in
    (
      c,
      record {
        nonzero = r.nonzero;
        in_heap = in_heap_range-OnlyMarks bs cs total word h ∙ r.in_heap;
        block = found;
        live = ap (λ (y : Block). y.alloc) like ∙ r.live;
      },
      like,
    )

-- More marks do not take one away.
pub more-HasMark :
    (b : Block) (bs : List Block) (m : Marking (List Block))
    → HasMark b bs
    → OnDone (OnlyMarks bs) m
    → OnDone (HasMark b) m
more-HasMark b bs (done cs) i h = HasMark-OnlyMarks b bs cs h i
more-HasMark b bs (overwrote r) i h = tt
more-HasMark b bs null_block i h = tt
more-HasMark b bs exited i h = tt
more-HasMark b bs unfinished i h = tt

has_mark : (b : Block) → is_fresh b ≡ false → b.alloc ≡ true → b.mark ≡ true
has_mark b h live = ground (arith, h, live)

pub already-HasMark : (b : Block) (bs : List Block) → b.mark ≡ true → IsIn b bs → HasMark b bs
already-HasMark b bs m i = subst (λ x. IsIn x bs) (ap (λ k. record b { mark = k }) m) i

module _ (w : World) (total a e : ℕ) where
  -- A root that refers to a block marks it.
  chase_root-HasMark :
      (n word : ℕ) (b : Block) (bs : List Block)
      → Tiled a e bs
      → RefersTo total word b bs
      → OnDone (HasMark b) (chase_root (suc n) w total false word bs)
  unfolding chase_root
  chase_root-HasMark n word b bs t r =
      let there = get_block-IsIn word total bs r.block in
      rw (ne_test word 0 r.nonzero, r.in_heap, r.block)
        (if_both (OnDone (HasMark b)) (is_fresh b) _ _ (λ _. set_mark-HasMark a e bs b t there)
          (λ stale.
            more-HasMark b bs _ (already-HasMark b bs (has_mark b stale r.live) there)
              (chase_root-OnlyMarks w total a e n false (next_word w total bs word) bs t)))

  read_root :
      (n : ℕ) (is_variable : Bool) (x word : ℕ) (b : Block) (bs : List Block)
      → Tiled a e bs
      → x ≡ word
      → is_variable ≡ false
      → RefersTo total word b bs
      → OnDone (HasMark b) (chase_root (suc n) w total is_variable x bs)
  read_root n v x word b bs t here other r =
      subst (λ y. OnDone (HasMark b) (chase_root (suc n) w total v y bs)) (sym here)
        (subst (λ k. OnDone (HasMark b) (chase_root (suc n) w total k word bs)) (sym other)
          (chase_root-HasMark n word b bs t r))

  -- The scan reaches the word.
  pub scan_words-HasMark :
      (is_variable : (addr word : ℕ) → Bool) (n i addr word : ℕ) (b : Block) (bs : List Block)
      → Tiled a e bs
      → i < n
      → (addr + 8 * n ≤ 8 * a) ⊎ (8 * e ≤ addr)
      → load_long w bs (addr + 8 * i) ≡ word
      → is_variable (addr + 8 * i) word ≡ false
      → RefersTo total word b bs
      → OnDone (HasMark b) (scan_words w total is_variable n addr bs)
  unfolding scan_words
  scan_words-HasMark v zero i addr word b bs t lt out read other r = absurd (omega (arith, lt))
  scan_words-HasMark v (suc n) zero addr word b bs t lt out read other r =
      let here : load_long w bs addr ≡ word = ap (load_long w bs) (omega arith) ∙ read in
      let test : v addr word ≡ false = ap (λ k. v k word) (omega arith) ∙ other in
      let chased : Marking (List Block) =
        chase_root 100 w total (v addr (load_long w bs addr)) (load_long w bs addr) bs in
      OnDone-bind (λ cs. HasMark b cs × OnlyMarks bs cs) (HasMark b) chased _
        (both-OnDone (HasMark b) (OnlyMarks bs) chased
          (read_root 99 (v addr (load_long w bs addr)) (load_long w bs addr) word b bs t here
            (ap (v addr) here ∙ test) r)
          (chase_root-OnlyMarks w total a e 100 (v addr (load_long w bs addr)) (load_long w bs addr)
            bs t))
        (λ cs (m, h).
          more-HasMark b cs (scan_words w total v n (addr + 8) cs) m
            (scan_words-OnlyMarks w total a e v n (addr + 8) cs (OnlyMarks-Tiled a e bs cs h t)))
  scan_words-HasMark v (suc n) (suc i) addr word b bs t lt out read other r =
      let word0 = load_long w bs addr in
      let next : addr + 8 * suc i ≡ addr + 8 + 8 * i = omega arith in
      OnDone-bind (OnlyMarks bs) (HasMark b) (chase_root 100 w total (v addr word0) word0 bs) _
        (chase_root-OnlyMarks w total a e 100 (v addr word0) word0 bs t)
        (λ cs h.
          let (c, r', like) = RefersTo-OnlyMarks bs cs h r in
          let u = OnlyMarks-Tiled a e bs cs h t in
          subst (λ x. OnDone (λ ds. IsIn x ds) (scan_words w total v n (addr + 8) cs)) like
            (scan_words-HasMark v n i (addr + 8) word c cs u (omega (arith, lt)) (further n out)
              (load_long-outside w a e (addr + 8 + 8 * i) bs cs t u
                  (beside n i (omega (arith, lt)) out)
                ∙ ap (load_long w bs) (sym next)
                ∙ read)
              (ap (λ k. v k word) (sym next) ∙ other) r'))
    where
      further :
          (n : ℕ)
          → (addr + 8 * suc n ≤ 8 * a) ⊎ (8 * e ≤ addr)
          → (addr + 8 + 8 * n ≤ 8 * a) ⊎ (8 * e ≤ addr + 8)
      further n (inl le) = inl (omega (arith, le))
      further n (inr ge) = inr (omega (arith, ge))

      beside :
          (n i : ℕ)
          → i < n
          → (addr + 8 * suc n ≤ 8 * a) ⊎ (8 * e ≤ addr)
          → (addr + 8 + 8 * i + 8 ≤ 8 * a) ⊎ (8 * e ≤ addr + 8 + 8 * i)
      beside n i lt' (inl le) = inl (omega (arith, le, lt'))
      beside n i lt' (inr ge) = inr (omega (arith, ge))

  -- A block that the global number `i` refers to is marked.
  pub mark_step-HasMark :
      (fuel i word : ℕ) (b : Block) (bs : List Block)
      → Tiled a e bs
      → i < (w.data_end - w.data_start) / 8
      → (w.data_end ≤ 8 * a) ⊎ (8 * e ≤ w.data_start)
      → load_long w bs (w.data_start + 8 * i) ≡ word
      → word ≢ w.heap_variable
      → RefersTo total word b bs
      → OnDone (HasMark b) (mark_step fuel w total bs)
  unfolding mark_step scan_globals
  mark_step-HasMark fuel i word b bs t lt out read other r =
      let n = (w.data_end - w.data_start) / 8 in
      let v : ℕ → ℕ → Bool = λ addr x. x == w.heap_variable in
      let scanned : Marking (List Block) = scan_words w total v n w.data_start bs in
      OnDone-bind (λ cs. HasMark b cs × OnlyMarks bs cs) (HasMark b) scanned _
        (both-OnDone (HasMark b) (OnlyMarks bs) scanned
          (scan_words-HasMark v n i w.data_start word b bs t lt (globals_outside lt out) read
            (ne_test word w.heap_variable other) r)
          (scan_words-OnlyMarks w total a e v n w.data_start bs t))
        (λ cs (m, h).
          more-HasMark b cs _ m
            (scans-OnlyMarks w total a e fuel (length bs + 1) cs (OnlyMarks-Tiled a e bs cs h t)))
    where
      globals_outside :
          i < (w.data_end - w.data_start) / 8
          → (w.data_end ≤ 8 * a) ⊎ (8 * e ≤ w.data_start)
          → (w.data_start + 8 * ((w.data_end - w.data_start) / 8) ≤ 8 * a) ⊎ (8 * e ≤ w.data_start)
      globals_outside lt' (inl le) = inl (omega (arith, le, lt'))
      globals_outside lt' (inr ge) = inr ge
