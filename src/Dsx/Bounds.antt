-- ===== src/Dsx/Bounds.antt =====
-- parse_code of A1/P2/dsx20.c stays inside its two arrays when the branches of the code do.
use unh_cs.Common.{
  ℕ, zero, suc, ◌+◌, ◌*◌, ◌%◌, ◌≤◌, ◌<◌, ◌≡◌, ◌≢◌, ◌↔◌, inl, inr, refl, Bool, true, not, ◌&&◌, none,
  some, List, [], ◌∷◌, ltb, ◌==◌, length, get_elem?, Bool-cases, Option-cases, arith, ltb→lt,
  lt→ltb, some-none,
}
use unh_cs.Dsx.Tables.{op_format}
use unh_cs.Dsx.Parse.{
  no_target, target_of, is_branch, is_marked, mark, blank, follow_word, Parse, parsed,
  out_of_bounds, unfinished, parse_loop, parse_code,
}
use unh_cs.Dsx.Follow.{follow_word-Followed, is_live, and_true}
use unh_cs.Dsx.Reach.{
  Reached, Traced, start-Traced, skip-Traced, follow-Traced, instruction, room, parse_code-Reached,
}
use unh_cs.Dsx.Finish.{parse_code-IsFinished}

-- The object code has all its words, and what a reached branch leads to is one of them or the end.
pub record BranchesStay (ptr : List ℕ) (count : ℕ) : Type 0 where
  pub whole : count ≤ length ptr
  pub inside :
      (p w : ℕ)
      → Reached ptr count p
      → p < count
      → get_elem? ptr p ≡ some w
      → is_branch (w % 256) ≡ true
      → target_of (op_format (w % 256)) w p ≢ no_target
      → target_of (op_format (w % 256)) w p < count + 1

get_elem?-inside : {A : Type 0} (xs : List A) (i : ℕ) → i < length xs → get_elem? xs i ≢ none
get_elem?-inside [] i lt e = omega (arith, lt)
get_elem?-inside (x ∷ xs) zero lt e = some-none e
get_elem?-inside (x ∷ xs) (suc i) lt e = get_elem?-inside xs i (omega (arith, lt)) e

-- With its target in the array, following a word succeeds.
follow_word-inside :
    (cur pc : ℕ) (d : List Bool)
    → (is_branch (cur % 256) ≡ true
        → target_of (op_format (cur % 256)) cur pc ≢ no_target
        → target_of (op_format (cur % 256)) cur pc < length d)
    → follow_word cur pc d ≢ none
unfolding follow_word
follow_word-inside cur pc d inside e =
    let target = target_of (op_format (cur % 256)) cur pc in
    elim (Bool-cases (is_branch (cur % 256) && not (target == no_target))) [
      | inl jumps ↦
          let (br, alive) = and_true _ _ jumps in
          some-none (rw (jumps, lt→ltb target (length d) (inside br (is_live target alive))) at e)
      | inr stays ↦ some-none (rw stays at e)
    ]

parsed-out_of_bounds : {d : List Bool} → parsed d ≢ out_of_bounds
parsed-out_of_bounds e = cc

unfinished-out_of_bounds : unfinished ≢ out_of_bounds
unfinished-out_of_bounds e = cc

loop-InBounds :
    (n : ℕ) (ptr : List ℕ) (count pc : ℕ) (d : List Bool)
    → BranchesStay ptr count
    → Traced ptr count pc d
    → parse_loop n ptr count pc d ≢ out_of_bounds
unfolding parse_loop
loop-InBounds zero ptr count pc d ok t e = unfinished-out_of_bounds e
loop-InBounds (suc n) ptr count pc d ok t e = elim (Bool-cases (ltb pc count)) [
  | inr past ↦ parsed-out_of_bounds (rw past at e)
  | inl in_code ↦ elim (Option-cases (get_elem? ptr pc)) [
    | inl beyond ↦ get_elem?-inside ptr pc (omega (arith, ok.whole, ltb→lt pc count in_code)) beyond
    | inr (cur, word) ↦ elim (Bool-cases (is_marked d pc)) [
      | inr data_word ↦
          loop-InBounds n ptr count (pc + 1) d ok (skip-Traced data_word t)
            (rw (in_code, word, instruction pc d t.first_marked, data_word) at e)
      | inl here ↦ elim (Option-cases (follow_word cur pc d)) [
        | inl beyond ↦
            follow_word-inside cur pc d
              (λ br live.
                let lt =
                  ok.inside pc cur (t.sound pc here) (ltb→lt pc count in_code) word br live in
                omega (arith, lt, t.long))
              beyond
        | inr ((pc', marks), followed) ↦
            loop-InBounds n ptr count pc' marks ok
              (follow-Traced (ltb→lt pc count in_code) word here
                (follow_word-Followed cur pc d (room t in_code) here followed) t)
              (rw (in_code, word, instruction pc d t.first_marked, here, followed) at e)
      ]
    ]
  ]
]

parse_code-InBounds :
    (ptr : List ℕ) (count : ℕ) → BranchesStay ptr count → parse_code ptr count ≢ out_of_bounds
unfolding parse_code
parse_code-InBounds ptr count ok e =
    loop-InBounds ((count + 1) * (count + 1) + 1) ptr count 0 (mark (blank (suc count)) 0) ok
      (start-Traced ptr count) e

has_result : (r : Parse) → r ≢ unfinished → r ≢ out_of_bounds → (d : List Bool) × (r ≡ parsed d)
has_result (parsed d) _ _ = (d, refl)
has_result out_of_bounds _ n = absurd (n refl)
has_result unfinished n _ = absurd (n refl)

-- When the object code has all its words and every reached branch leads to one of them or to the
-- end, parse_code comes to an end inside its arrays, and its result marks exactly the words that the
-- code reaches.
pub parse_code-marks :
    (ptr : List ℕ) (count : ℕ)
    → BranchesStay ptr count
    → (d : List Bool) × (parse_code ptr count ≡ parsed d)
      × ((q : ℕ) → (is_marked d q ≡ true) ↔ Reached ptr count q)
parse_code-marks ptr count ok =
    let (d, e) =
      has_result (parse_code ptr count) (parse_code-IsFinished ptr count)
        (parse_code-InBounds ptr count ok) in
    (d, e, λ q. parse_code-Reached ptr count q e)
