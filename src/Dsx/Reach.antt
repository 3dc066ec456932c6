-- ===== src/Dsx/Reach.antt =====
-- What the loop of parse_code in A1/P2/dsx20.c marks: the words that the code reaches.
use unh_cs.Common.{
  ℕ, zero, suc, ◌+◌, ◌*◌, ◌≤◌, ◌<◌, ◌≡◌, ◌≢◌, ◌⊎◌, ◌↔◌, inl, inr, refl, sym, ap, ◌∙◌, Bool, true,
  false, ◌||◌, some, List, ltb, ◌==◌, length, get_elem?, length-set, Bool-cases, Option-cases,
  ne_test, some_inj, true-false, ltb→lt, arith,
}
use mathlib.Core.Path.{subst}
use unh_cs.Dsx.Parse.{
  is_marked, mark, blank, follow_word, parsed, out_of_bounds, parse_loop, parse_code,
}
use unh_cs.Dsx.Marks.{marked-mark_inv, length-blank, marked-blank}
use unh_cs.Dsx.Follow.{Flow, Followed, follow_word-Followed}

-- The code reaches its first word, and from a word it reaches, those where it may go on.
pub data Reached (ptr : List ℕ) (count : ℕ) : ℕ → Type 0 where
  first : Reached ptr count 0
  next :
      {p w t : ℕ}
      → Reached ptr count p
      → p < count
      → get_elem? ptr p ≡ some w
      → Flow w p t
      → Reached ptr count t

-- The marks at the head of the loop.
pub record Traced (ptr : List ℕ) (count pc : ℕ) (d : List Bool) : Type 0 where
  pub long : length d ≡ count + 1
  pub first_marked : is_marked d 0 ≡ true
  pub sound : (j : ℕ) → is_marked d j ≡ true → Reached ptr count j
  pub closed :
      (q w t : ℕ)
      → q < pc
      → q < count
      → is_marked d q ≡ true
      → get_elem? ptr q ≡ some w
      → Flow w q t
      → is_marked d t ≡ true

pub start-Traced : (ptr : List ℕ) (count : ℕ) → Traced ptr count 0 (mark (blank (suc count)) 0)
start-Traced ptr count = record {
  long = length-set (blank (suc count)) 0 true ∙ length-blank (suc count) ∙ omega arith;
  first_marked = refl;
  sound = λ j h. elim (marked-mark_inv (blank (suc count)) 0 j h) [
    | inl e ↦ subst (Reached ptr count) e first
    | inr m ↦ absurd (true-false (sym m ∙ marked-blank (suc count) j))
  ];
  closed = λ q w t lt _ _ _ _. absurd (omega (arith, lt));
}

below_suc : (q pc : ℕ) → q < pc + 1 → (q ≡ pc) ⊎ (q < pc)
below_suc q pc lt = omega (arith, lt)

-- A word that is no instruction is left alone.
pub skip-Traced :
    {ptr : List ℕ} {count pc : ℕ} {d : List Bool}
    → is_marked d pc ≡ false
    → Traced ptr count pc d
    → Traced ptr count (pc + 1) d
skip-Traced {pc = pc} {d = d} data_word t = record {
  long = t.long;
  first_marked = t.first_marked;
  sound = t.sound;
  closed = λ q w k lt in_code m at f. elim (below_suc q pc lt) [
    | inl same ↦
        absurd (true-false (sym m ∙ subst (λ i. is_marked d i ≡ false) (sym same) data_word))
    | inr earlier ↦ t.closed q w k earlier in_code m at f
  ];
}

before :
    {q pc pc' u u' : ℕ}
    → q < pc'
    → ((pc' ≡ pc + 1) × (u' ≤ u)) ⊎ ((pc' < pc) × (u' < u))
    → q < pc + 1
before lt p = omega (arith, lt, p)

same-Flow : {a a' b b' k : ℕ} → a ≡ a' → b ≡ b' → Flow a b k → Flow a' b' k
same-Flow {a' = a'} {b = b} {k = k} e f flow =
    subst (λ i. Flow a' i k) f (subst (λ i. Flow i b k) e flow)

pub follow-Traced :
    {ptr : List ℕ} {count pc cur pc' : ℕ} {d d' : List Bool}
    → pc < count
    → get_elem? ptr pc ≡ some cur
    → is_marked d pc ≡ true
    → Followed cur pc d pc' d'
    → Traced ptr count pc d
    → Traced ptr count pc' d'
follow-Traced {ptr} {pc = pc} {cur = cur} {pc' = pc'} {d = d} {d' = d'} in_code word here f t =
    record {
      long = f.long ∙ t.long;
      first_marked = f.mono 0 t.first_marked;
      sound = λ j h. elim (f.sound j h) [
        | inl m ↦ t.sound j m
        | inr flow ↦ next (t.sound pc here) in_code word flow
      ];
      closed = λ q w k lt in_code' m at flow.
          let old : is_marked d q ≡ true = f.old q lt m in
          elim (below_suc q pc (before lt f.progress)) [
            | inl same ↦
                let same_word : w ≡ cur = some_inj (sym at ∙ ap (get_elem? ptr) same ∙ word) in
                f.complete k (same-Flow same_word same flow)
            | inr earlier ↦ f.mono k (t.closed q w k earlier in_code' old at flow)
          ];
    }

out_of_bounds-parsed : {d : List Bool} → out_of_bounds ≢ parsed d
out_of_bounds-parsed e = cc

parsed_inj : {d d' : List Bool} → parsed d ≡ parsed d' → d ≡ d'
parsed_inj e = cc

-- The test `pc == 0` adds nothing.
pub instruction :
    (pc : ℕ) (d : List Bool) → is_marked d 0 ≡ true → (pc == 0 || is_marked d pc) ≡ is_marked d pc
instruction zero d m = sym m
instruction (suc pc) d m = rw (ne_test (suc pc) 0 (omega arith)) refl

end-Traced :
    {ptr : List ℕ} {count pc : ℕ} {d : List Bool}
    → Traced ptr count pc d
    → count ≤ pc
    → Traced ptr count count d
end-Traced t le = record {
  long = t.long;
  first_marked = t.first_marked;
  sound = t.sound;
  closed = λ q w k lt in_code m at f. t.closed q w k (omega (arith, lt, le)) in_code m at f;
}

past_end : {pc count : ℕ} → ltb pc count ≡ false → count ≤ pc
past_end h = ground arith

pub room :
    {ptr : List ℕ} {count pc : ℕ} {d : List Bool}
    → Traced ptr count pc d
    → ltb pc count ≡ true
    → pc + 1 < length d
room {count = count} {pc = pc} t lt = omega (arith, t.long, ltb→lt pc count lt)

pub reached-marked :
    {ptr : List ℕ} {count q : ℕ} {d : List Bool}
    → Traced ptr count count d
    → Reached ptr count q
    → is_marked d q ≡ true
reached-marked t first = t.first_marked
reached-marked t (next {p} {w} {t = k} r lt at f) = t.closed p w k lt lt (reached-marked t r) at f

pub loop-Traced :
    (n : ℕ) (ptr : List ℕ) (count pc : ℕ) (d : List Bool) {d' : List Bool}
    → Traced ptr count pc d
    → parse_loop n ptr count pc d ≡ parsed d'
    → Traced ptr count count d'
unfolding parse_loop
loop-Traced zero ptr count pc d t e = cc
loop-Traced (suc n) ptr count pc d {d'} t e = elim (Bool-cases (ltb pc count)) [
  | inr past ↦
      subst (Traced ptr count count) (parsed_inj (rw past at e)) (end-Traced t (past_end past))
  | inl in_code ↦ elim (Option-cases (get_elem? ptr pc)) [
    | inl beyond ↦ absurd (out_of_bounds-parsed (rw (in_code, beyond) at e))
    | inr (cur, word) ↦ elim (Bool-cases (is_marked d pc)) [
      | inr data_word ↦
          loop-Traced n ptr count (pc + 1) d (skip-Traced data_word t)
            (rw (in_code, word, instruction pc d t.first_marked, data_word) at e)
      | inl here ↦ elim (Option-cases (follow_word cur pc d)) [
        | inl beyond ↦ absurd (
            out_of_bounds-parsed
              (rw (in_code, word, instruction pc d t.first_marked, here, beyond) at e))
        | inr ((pc', marks), followed) ↦
            loop-Traced n ptr count pc' marks
              (follow-Traced (ltb→lt pc count in_code) word here
                (follow_word-Followed cur pc d (room t in_code) here followed) t)
              (rw (in_code, word, instruction pc d t.first_marked, here, followed) at e)
      ]
    ]
  ]
]

-- A result of parse_code marks exactly the words that the code reaches.
pub parse_code-Reached :
    (ptr : List ℕ) (count : ℕ) {d : List Bool} (q : ℕ)
    → parse_code ptr count ≡ parsed d
    → (is_marked d q ≡ true) ↔ Reached ptr count q
unfolding parse_code
parse_code-Reached ptr count {d} q e =
    let t =
      loop-Traced ((count + 1) * (count + 1) + 1) ptr count 0 (mark (blank (suc count)) 0)
        (start-Traced ptr count) e in
    (t.sound q, reached-marked t)
