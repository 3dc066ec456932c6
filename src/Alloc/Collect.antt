-- ===== src/Alloc/Collect.antt =====
-- markAndSweep and memAllocate of A4/alloc.c as a whole.
use unh_cs.Common.{
  ℕ, ◌+◌, ◌-◌, ◌*◌, ◌/◌, ◌%◌, ◌^◌, ◌≤◌, ◌<◌, ◌≡◌, ◌≢◌, ◌⊎◌, inl, inr, refl, sym, ap, ◌∙◌, Bool,
  true, false, none, some, List, [], ◌∷◌, ◌++◌, ◌==◌, ltb, if_both, true-false, arith,
}
use mathlib.Core.Path.{subst}
use unh_cs.Alloc.Blocks.{
  Block, heap_of, is_next, split, Placement, no_block, placed, overrun, behind, Placement-cases,
  allocate_first, Swept, sweep,
}
use unh_cs.Alloc.Tiles.{Tiled}
use unh_cs.Alloc.Sweep.{allocated, survivors, IsMarked, sweep-survivors}
use unh_cs.Alloc.World.{World, load_long}
use unh_cs.Alloc.Scan.{
  done, overwrote, mark_step, mark_and_sweep, Allocation, allocate_or_null, mem_allocate,
}
use unh_cs.Alloc.Kept.{OnDone, OnDone-bind, both-OnDone, OnlyMarks, IsIn, get_block-IsIn}
use unh_cs.Alloc.Marked.{mark_step-OnlyMarks}
use unh_cs.Alloc.Marks.{HasMark}
use unh_cs.Alloc.Roots.{RefersTo, mark_step-HasMark}

pub OnlyMarks-IsMarked : (bs cs : List Block) → OnlyMarks bs cs → IsMarked bs → IsMarked cs
OnlyMarks-IsMarked [] [] h m = tt
OnlyMarks-IsMarked [] (c ∷ cs) h m = absurd h
OnlyMarks-IsMarked (b ∷ bs) [] h m = absurd h
OnlyMarks-IsMarked (b ∷ bs) (c ∷ cs) (same, _, new, rest) m = (
  (λ k. ap (λ (y : Block). y.alloc) same ∙ elim (new k) [ inl old ↦ m.0 old | inr live ↦ live ]),
  OnlyMarks-IsMarked bs cs rest m.1,
)

-- A block without its mark.
abbrev pub unmarked : Block → Block
unmarked b = record b { mark = false }

pub survivors-IsIn : (b : Block) (bs : List Block) → HasMark b bs → IsIn (unmarked b) (survivors bs)
unfolding survivors
survivors-IsIn b [] h = h
survivors-IsIn b (x ∷ bs) h =
    if_both (IsIn (unmarked b)) x.mark _ _
      (λ _. elim h [
        | inl same ↦ inl (ap unmarked same)
        | inr later ↦ inr (survivors-IsIn b bs later)
      ])
      (λ bare. elim h [
        | inl same ↦ absurd (true-false (sym (ap (λ (y : Block). y.mark) same) ∙ bare))
        | inr later ↦ survivors-IsIn b bs later
      ])

pub IsIn-allocated : (b : Block) (bs : List Block) → IsIn b (allocated bs) → IsIn b bs
unfolding allocated
IsIn-allocated b [] h = h
IsIn-allocated b (x ∷ bs) h =
    if_both (λ l. IsIn b l → IsIn b (x ∷ bs)) x.alloc (x ∷ allocated bs) (allocated bs)
      (λ _ i. elim i [ inl same ↦ inl same | inr later ↦ inr (IsIn-allocated b bs later) ])
      (λ _ i. inr (IsIn-allocated b bs i)) h

IsIn-behind : (b : Block) (xs bs : List Block) → IsIn b bs → IsIn b (xs ++ bs)
IsIn-behind b [] bs h = h
IsIn-behind b (x ∷ xs) bs h = inr (IsIn-behind b xs bs h)

is_next-free : (size : ℕ) (b : Block) → is_next size b ≡ true → b.alloc ≡ false
unfolding is_next
is_next-free size b h = ground (arith, h)

-- A predicate on the heap of an allocation that found a block and did not overrun it.
abbrev OnPlaced : (List Block → Type 0) → Placement → Type 0
OnPlaced P no_block = Unit
OnPlaced P (placed p bs) = P bs
OnPlaced P (overrun p bs) = Unit

behind-IsIn :
    (b x : Block) (bs : List Block) (r : Placement)
    → (x ≡ b) ⊎ OnPlaced (IsIn b) r
    → OnPlaced (IsIn b) (behind x r)
behind-IsIn b x bs no_block h = tt
behind-IsIn b x bs (placed p cs) h = h
behind-IsIn b x bs (overrun p cs) h = tt

-- An allocated block is not what memAllocate takes.
allocate_first-IsIn :
    (size finalize : ℕ) (b : Block) (bs : List Block)
    → b.alloc ≡ true
    → IsIn b bs
    → OnPlaced (IsIn b) (allocate_first size finalize bs)
unfolding allocate_first
allocate_first-IsIn size finalize b [] live h = absurd h
allocate_first-IsIn size finalize b (x ∷ bs) live h =
    if_both (OnPlaced (IsIn b)) (is_next size x) _ _
      (λ taken.
        if_both (OnPlaced (IsIn b)) (ltb x.size size) _ _ (λ _. tt)
          (λ _. elim h [
            | inl same ↦ absurd (
                true-false
                  (sym live ∙ sym (ap (λ (y : Block). y.alloc) same) ∙ is_next-free size x taken))
            | inr later ↦ IsIn-behind b (split size finalize x) bs later
          ]))
      (λ _. behind-IsIn b x bs (allocate_first size finalize bs) (elim h [
        | inl same ↦ inl same
        | inr later ↦ inr (allocate_first-IsIn size finalize b bs live later)
      ]))

-- A heap that a global is looked for in: its blocks lie one behind the other between the words `a`
-- and `e`, apart from the globals, and the global number `i` refers to the block `b` and is not the
-- address of the variable `heap`.
pub record IsRoot (w : World) (total a e i word : ℕ) (b : Block) (bs : List Block) : Type 0 where
  pub tiled : Tiled a e bs
  pub marks : IsMarked bs
  pub number : i < (w.data_end - w.data_start) / 8
  pub apart : (w.data_end ≤ 8 * a) ⊎ (8 * e ≤ w.data_start)
  pub read : load_long w bs (w.data_start + 8 * i) ≡ word
  pub other : word ≢ w.heap_variable
  pub refers : RefersTo total word b bs

-- A block that gets its mark survives.
pub mark_and_sweep-HasMark :
    (fuel : ℕ) (w : World) (total a e : ℕ) (b : Block) (bs : List Block)
    → Tiled a e bs
    → IsMarked bs
    → OnDone (HasMark b) (mark_step fuel w total bs)
    → OnDone (λ (s : Swept). IsIn (unmarked b) s.blocks) (mark_and_sweep fuel w total bs)
unfolding mark_and_sweep
mark_and_sweep-HasMark fuel w total a e b bs t marks has =
    OnDone-bind (λ cs. HasMark b cs × OnlyMarks bs cs) _ (mark_step fuel w total bs)
      (λ cs. done (sweep none cs))
      (both-OnDone (HasMark b) (OnlyMarks bs) (mark_step fuel w total bs) has
        (mark_step-OnlyMarks w total a e fuel bs t))
      (λ cs (m, h). IsIn-allocated (unmarked b) (sweep none cs).blocks (
        subst (IsIn (unmarked b))
          (sym (sweep-survivors none cs tt (OnlyMarks-IsMarked bs cs h marks)))
          (survivors-IsIn b cs m)))

mark_and_sweep-IsIn :
    (fuel : ℕ) (w : World) (total a e i word : ℕ) (b : Block) (bs : List Block)
    → IsRoot w total a e i word b bs
    → OnDone (λ (s : Swept). IsIn (unmarked b) s.blocks) (mark_and_sweep fuel w total bs)
mark_and_sweep-IsIn fuel w total a e i word b bs r =
    mark_and_sweep-HasMark fuel w total a e b bs r.tiled r.marks (
      mark_step-HasMark w total a e fuel i word b bs r.tiled r.number r.apart r.read r.other
        r.refers)

-- The heap of an allocation has the block.
abbrev pub StillIn : (total : ℕ) → Block → Allocation → Type 0
StillIn total b r = (bs : List Block) × (r.heap ≡ heap_of bs total) × IsIn b bs

allocate_or_null-StillIn :
    (size finalize total : ℕ) (b : Block) (bs : List Block) (finalized : List ℕ)
    → b.alloc ≡ true
    → IsIn b bs
    → OnDone (StillIn total b) (allocate_or_null size finalize total bs finalized)
unfolding allocate_or_null
allocate_or_null-StillIn size finalize total b bs finalized live h =
    found (allocate_first size finalize bs) (allocate_first-IsIn size finalize b bs live h)
  where
    found :
        (r : Placement)
        → OnPlaced (IsIn b) r
        → OnDone (StillIn total b) (elim r [
          | no_block ↦
              done (record { result = none; heap = heap_of bs total; finalized = finalized })
          | placed p bs' ↦
              done
                (record { result = some (8 * p); heap = heap_of bs' total; finalized = finalized })
          | overrun p bs' ↦ overwrote (8 * p)
        ])
    found no_block k = (bs, refl, h)
    found (placed p bs') k = (bs', refl, k)
    found (overrun p bs') k = tt

-- An allocated block that a global points into, with no mark left over, is there and unchanged after
-- every call of memAllocate that returns without having overrun the block that it took: it is neither
-- freed nor handed out again.
pub mem_allocate-StillIn :
    (fuel : ℕ) (w : World) (in_finalize_call : Bool) (size finalize total a e i word : ℕ)
    (b : Block) (bs : List Block)
    → IsRoot w total a e i word b bs
    → b.mark ≡ false
    → OnDone
        (StillIn total b)
        (mem_allocate fuel w in_finalize_call size finalize (heap_of bs total))
unfolding mem_allocate
mem_allocate-StillIn fuel w flag size finalize total a e i word b bs r bare =
    if_both (OnDone (StillIn total b)) flag _ _ (λ _. tt)
      (λ _. elim (Placement-cases (allocate_first size finalize bs)) [
        | inr (inl (p, bs', found)) ↦
            rw (found, OnDone)
              (
                bs',
                refl,
                subst (OnPlaced (IsIn b)) found (
                    allocate_first-IsIn size finalize b bs r.refers.live
                      (get_block-IsIn word total bs r.refers.block)),
              )
        | inr (inr (p, bs', found)) ↦ rw (found, OnDone) tt
        | inl stuck ↦
            rw (stuck, OnDone)
              (OnDone-bind (λ (s : Swept). IsIn (unmarked b) s.blocks) (StillIn total b)
                (mark_and_sweep fuel w total bs) _
                (mark_and_sweep-IsIn fuel w total a e i word b bs r)
                (λ s kept.
                  let same : IsIn b s.blocks =
                    subst (λ x. IsIn x s.blocks) (ap (λ m. record b { mark = m }) (sym bare))
                      kept in
                  if_both (OnDone (StillIn total b)) (s.freed % 2 ^ 32 == 0) _ _
                    (λ _. (s.blocks, refl, same))
                    (λ _.
                      allocate_or_null-StillIn size finalize total b s.blocks s.finalized
                        r.refers.live same)))
      ])
