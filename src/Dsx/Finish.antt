-- ===== src/Dsx/Finish.antt =====
-- The fuel of parse_code in A1/P2/dsx20.c is enough, although its loop goes back.
use unh_cs.Common.{
  ℕ, zero, suc, ◌+◌, ◌*◌, ◌-◌, ◌≤◌, ◌<◌, ◌≢◌, inl, inr, Bool, List, ltb, get_elem?, Bool-cases,
  Option-cases, arith, ltb→lt,
}
use unh_cs.Dsx.Parse.{
  is_marked, mark, blank, follow_word, parsed, out_of_bounds, unfinished, parse_loop, parse_code,
}
use unh_cs.Dsx.Marks.{unmarked, unmarked-start}
use unh_cs.Dsx.Follow.{Followed, follow_word-Followed}
use unh_cs.Dsx.Reach.{Traced, start-Traced, skip-Traced, follow-Traced, instruction, room}

-- A round marks one more word, or goes on by one word.
measure : (count pc : ℕ) → List Bool → ℕ
measure count pc d = unmarked d * (count + 1) + (count - pc)

mul_le : (m a b : ℕ) → a ≤ b → a * m ≤ b * m
mul_le m zero b le = omega arith
mul_le m (suc a) zero le = absurd (omega (arith, le))
mul_le m (suc a) (suc b) le = omega (arith, mul_le m a b (omega (arith, le)))

mul_lt : (m a b : ℕ) → a < b → a * m + m ≤ b * m
mul_lt m a b lt = omega (arith, mul_le m (suc a) b lt)

follow-measure :
    {cur count pc pc' : ℕ} {d d' : List Bool}
    → pc < count
    → Followed cur pc d pc' d'
    → measure count pc' d' < measure count pc d
unfolding measure
follow-measure {count = count} {d = d} {d' = d'} lt f = elim f.progress [
  | inl (on, le) ↦ omega (arith, lt, on, mul_le (count + 1) (unmarked d') (unmarked d) le)
  | inr (back, fewer) ↦ omega (arith, lt, back, mul_lt (count + 1) (unmarked d') (unmarked d) fewer)
]

unfinished-parsed : {d : List Bool} → parsed d ≢ unfinished
unfinished-parsed e = cc

unfinished-out_of_bounds : out_of_bounds ≢ unfinished
unfinished-out_of_bounds e = cc

skip_less :
    (n count pc : ℕ) (d : List Bool)
    → pc < count
    → measure count pc d < suc n
    → measure count (pc + 1) d < n
unfolding measure
skip_less n count pc d in_code lt = omega (arith, in_code, lt)

loop-IsFinished :
    (n : ℕ) (ptr : List ℕ) (count pc : ℕ) (d : List Bool)
    → Traced ptr count pc d
    → measure count pc d < n
    → parse_loop n ptr count pc d ≢ unfinished
unfolding parse_loop
loop-IsFinished zero ptr count pc d t lt e = absurd (omega (arith, lt))
loop-IsFinished (suc n) ptr count pc d t lt e = elim (Bool-cases (ltb pc count)) [
  | inr past ↦ unfinished-parsed (rw past at e)
  | inl in_code ↦ elim (Option-cases (get_elem? ptr pc)) [
    | inl beyond ↦ unfinished-out_of_bounds (rw (in_code, beyond) at e)
    | inr (cur, word) ↦ elim (Bool-cases (is_marked d pc)) [
      | inr data_word ↦
          loop-IsFinished n ptr count (pc + 1) d (skip-Traced data_word t)
            (skip_less n count pc d (ltb→lt pc count in_code) lt)
            (rw (in_code, word, instruction pc d t.first_marked, data_word) at e)
      | inl here ↦ elim (Option-cases (follow_word cur pc d)) [
        | inl beyond ↦
            unfinished-out_of_bounds
              (rw (in_code, word, instruction pc d t.first_marked, here, beyond) at e)
        | inr ((pc', marks), followed) ↦
            let f = follow_word-Followed cur pc d (room t in_code) here followed in
            loop-IsFinished n ptr count pc' marks
              (follow-Traced (ltb→lt pc count in_code) word here f t)
              (omega (arith, lt, follow-measure (ltb→lt pc count in_code) f))
              (rw (in_code, word, instruction pc d t.first_marked, here, followed) at e)
      ]
    ]
  ]
]

start-measure :
    (count : ℕ) → measure count 0 (mark (blank (suc count)) 0) < (count + 1) * (count + 1) + 1
unfolding measure
start-measure count = rw (unmarked-start count, measure) (omega arith)

-- parse_code comes to an end for every object code: the marks, or an access out of bounds.
pub parse_code-IsFinished : (ptr : List ℕ) (count : ℕ) → parse_code ptr count ≢ unfinished
unfolding parse_code
parse_code-IsFinished ptr count e =
    loop-IsFinished ((count + 1) * (count + 1) + 1) ptr count 0 (mark (blank (suc count)) 0)
      (start-Traced ptr count) (start-measure count) e
