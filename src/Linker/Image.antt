-- ===== src/Linker/Image.antt =====
-- From the object files of A2/P1/linkx20.c to the lengths of its output.
use unh_cs.Common.{ℕ, ◌*◌, ◌%◌, ◌≤◌, ◌⊎◌, ◌≡◌, Bool, Option, none, some, List, [], ◌∷◌, length}
use unh_cs.Linker.Object.{Header}
use unh_cs.Linker.Sections.{IsExtracted}

-- What has been read at the word i: as many insymbols as belong before it.
abbrev Reading : ℕ → Header → Type 0
Reading i h =
    (i % 5 ≡ 0)
    × (h.in_count % 5 ≡ 0)
    × (((i ≤ h.in_count) × (5 * length h.insyms ≡ i))
        ⊎ ((h.in_count ≤ i) × (5 * length h.insyms ≡ h.in_count)))

abbrev OnSome : {A : Type 0} → (A → Type 0) → Option A → Type 0
OnSome P none = Unit
OnSome P (some a) = P a

-- The answer for one file.
abbrev Extracted : Bool × Header → Type 0
Extracted (found, h) = IsExtracted h

abbrev AllFresh : List Header → Type 0
AllFresh [] = Unit
AllFresh (h ∷ hs) = (h.insyms ≡ []) × AllFresh hs
