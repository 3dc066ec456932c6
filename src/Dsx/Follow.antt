-- ===== src/Dsx/Follow.antt =====
-- One instruction of parse_code in A1/P2/dsx20.c: where the code goes on from it, and what is marked.
use unh_cs.Common.{
  ℕ, ◌+◌, ◌%◌, ◌≤◌, ◌<◌, ◌≡◌, ◌≢◌, ◌⊎◌, inl, inr, refl, sym, ◌∙◌, Bool, true, false, not, ◌&&◌,
  some, List, ltb, ◌==◌, length, length-set, Bool-cases, some_inj, none-some, true-false, if_both,
  arith, ltb→lt,
}
use mathlib.Core.Path.{subst}
use unh_cs.Dsx.Tables.{op_format}
use unh_cs.Dsx.Parse.{
  no_target, target_of, falls_through, is_branch, is_marked, mark, mark_next, go_to, follow_word,
}
use unh_cs.Dsx.Marks.{
  unmarked, marked-mark_self, marked-mark_mono, marked-mark_inv, unmarked-mark_le, unmarked-mark_lt,
}

-- The code may go on from the word `cur` at `pc` to the word at `t`: the next one, or the target of a
-- branch.
abbrev pub Flow : (cur pc t : ℕ) → Type 0
Flow cur pc t =
    ((falls_through (cur % 256) ≡ true) × (pc + 1 ≡ t))
    ⊎ ((is_branch (cur % 256) ≡ true)
        × (target_of (op_format (cur % 256)) cur pc ≢ no_target)
        × (target_of (op_format (cur % 256)) cur pc ≡ t))

-- What following the word at `pc` does to the marks, and where it goes on.
pub record Followed (cur pc : ℕ) (d : List Bool) (pc' : ℕ) (d' : List Bool) : Type 0 where
  pub long : length d' ≡ length d
  pub mono : (j : ℕ) → is_marked d j ≡ true → is_marked d' j ≡ true
  pub sound : (j : ℕ) → is_marked d' j ≡ true → (is_marked d j ≡ true) ⊎ Flow cur pc j
  pub complete : (j : ℕ) → Flow cur pc j → is_marked d' j ≡ true
  pub old : (j : ℕ) → j < pc' → is_marked d' j ≡ true → is_marked d j ≡ true
  pub progress :
      ((pc' ≡ pc + 1) × (unmarked d' ≤ unmarked d)) ⊎ ((pc' < pc) × (unmarked d' < unmarked d))

-- The marks behind the first of the two writes.
record Next (cur pc : ℕ) (d d' : List Bool) : Type 0 where
  long : length d' ≡ length d
  mono : (j : ℕ) → is_marked d j ≡ true → is_marked d' j ≡ true
  sound :
      (j : ℕ)
      → is_marked d' j ≡ true
      → (is_marked d j ≡ true) ⊎ ((falls_through (cur % 256) ≡ true) × (pc + 1 ≡ j))
  complete : falls_through (cur % 256) ≡ true → is_marked d' (pc + 1) ≡ true
  fewer : unmarked d' ≤ unmarked d

mark_next-Next :
    (cur pc : ℕ) (d : List Bool) → pc + 1 < length d → Next cur pc d (mark_next (cur % 256) pc d)
unfolding mark_next
mark_next-Next cur pc d lt =
    if_both (Next cur pc d) (falls_through (cur % 256)) (mark d (pc + 1)) d
      (λ falls. record {
        long = length-set d (pc + 1) true;
        mono = marked-mark_mono d (pc + 1);
        sound =
            λ j h. elim (marked-mark_inv d (pc + 1) j h) [ inl e ↦ inr (falls, e) | inr m ↦ inl m ];
        complete = λ _. marked-mark_self d (pc + 1) lt;
        fewer = unmarked-mark_le d (pc + 1);
      })
      (λ stops. record {
        long = refl;
        mono = λ j h. h;
        sound = λ j h. inl h;
        complete = λ falls. absurd (true-false (sym falls ∙ stops));
        fewer = omega arith;
      })

not_next :
    (pc j : ℕ) (d : List Bool) (P : Type 0)
    → j < pc + 1
    → (is_marked d j ≡ true) ⊎ (P × (pc + 1 ≡ j))
    → is_marked d j ≡ true
not_next pc j d P lt (inl m) = m
not_next pc j d P lt (inr (p, e)) = absurd (omega (arith, e))

-- Without a branch only the next word is new.
stay-Followed :
    (cur pc : ℕ) (d d' : List Bool)
    → Next cur pc d d'
    → ((j : ℕ) → Flow cur pc j → (falls_through (cur % 256) ≡ true) × (pc + 1 ≡ j))
    → Followed cur pc d (pc + 1) d'
stay-Followed cur pc d d' n only = record {
  long = n.long;
  mono = n.mono;
  sound = λ j h. elim (n.sound j h) [ inl m ↦ inl m | inr f ↦ inr (inl f) ];
  complete =
      λ j f. let (falls, e) = only j f in subst (λ k. is_marked d' k ≡ true) e (n.complete falls);
  old = λ j lt h. not_next pc j d _ lt (n.sound j h);
  progress = inl (refl, n.fewer);
}

-- A branch to a target in the array.
module _ (cur pc t : ℕ) (d d' : List Bool) (n : Next cur pc d d')
    (branch : is_branch (cur % 256) ≡ true)
    (live : target_of (op_format (cur % 256)) cur pc ≢ no_target)
    (target : target_of (op_format (cur % 256)) cur pc ≡ t) (inside : t < length d)
    (here : is_marked d pc ≡ true) where
  jump_sound : (j : ℕ) → is_marked (mark d' t) j ≡ true → (is_marked d j ≡ true) ⊎ Flow cur pc j
  jump_sound j h = elim (marked-mark_inv d' t j h) [
    | inl e ↦ inr (inr (branch, live, target ∙ e))
    | inr m ↦ elim (n.sound j m) [ inl k ↦ inl k | inr f ↦ inr (inl f) ]
  ]

  jump_complete : (j : ℕ) → Flow cur pc j → is_marked (mark d' t) j ≡ true
  jump_complete j (inl (falls, e)) =
      marked-mark_mono d' t j (subst (λ k. is_marked d' k ≡ true) e (n.complete falls))
  jump_complete j (inr (_, _, e)) =
      subst (λ k. is_marked (mark d' t) k ≡ true) (sym target ∙ e)
        (marked-mark_self d' t (omega (arith, n.long)))

  new_below : (k j : ℕ) → j < pc + 1 → is_marked d' k ≡ true → k ≡ j → is_marked d j ≡ true
  new_below k j lt h e = not_next pc j d _ lt (n.sound j (subst (λ i. is_marked d' i ≡ true) e h))

  -- A jump back to a word without a mark.
  back-Followed : t < pc → is_marked d' t ≡ false → Followed cur pc d t (mark d' t)
  back-Followed lt fresh = record {
    long = length-set d' t true ∙ n.long;
    mono = λ j h. marked-mark_mono d' t j (n.mono j h);
    sound = jump_sound;
    complete = jump_complete;
    old = λ j lt' h. elim (marked-mark_inv d' t j h) [
      | inl e ↦ absurd (omega (arith, e))
      | inr m ↦ new_below j j (omega arith) m refl
    ];
    progress =
        inr (lt, omega (arith, n.fewer, unmarked-mark_lt d' t (omega (arith, n.long)) fresh));
  }

  -- Any other jump.
  on-Followed : (pc ≤ t) ⊎ (is_marked d' t ≡ true) → Followed cur pc d (pc + 1) (mark d' t)
  on-Followed known = record {
    long = length-set d' t true ∙ n.long;
    mono = λ j h. marked-mark_mono d' t j (n.mono j h);
    sound = jump_sound;
    complete = jump_complete;
    old = λ j lt h. elim (marked-mark_inv d' t j h) [
      | inl e ↦ elim known [
        | inl le ↦
            let same : pc ≡ j = omega (arith, e) in subst (λ i. is_marked d i ≡ true) same here
        | inr m ↦ new_below t j lt m e
      ]
      | inr m ↦ new_below j j lt m refl
    ];
    progress = inl (refl, omega (arith, n.fewer, unmarked-mark_le d' t));
  }

  jump-Followed : Followed cur pc d (go_to t pc d').0 (go_to t pc d').1
  unfolding go_to
  jump-Followed = elim (Bool-cases (ltb t pc)) [
    | inr ahead ↦ rw ahead (on-Followed (inl (ground arith)))
    | inl behind ↦ elim (Bool-cases (is_marked d' t)) [
      | inl known ↦ rw (behind, known) (on-Followed (inr known))
      | inr fresh ↦ rw (behind, fresh) (back-Followed (ltb→lt t pc behind) fresh)
    ]
  ]

pub and_true : (a b : Bool) → (a && b) ≡ true → (a ≡ true) × (b ≡ true)
and_true true b h = (refl, h)
and_true false b h = cc

not_both : (a b : Bool) → (a && b) ≡ false → a ≡ true → b ≡ true → ⊥
not_both true true h ha hb = cc
not_both true false h ha hb = cc
not_both false b h ha hb = cc

pub is_live : (t : ℕ) → not (t == no_target) ≡ true → t ≢ no_target
is_live t h = ground arith

live_test : (t : ℕ) → t ≢ no_target → not (t == no_target) ≡ true
live_test t h = ground arith

-- Whatever an instruction is, if its target lies in the array: the next `pc` is the next word, or a
-- smaller one with one more mark, and the new marks are those of the words where the code goes on.
pub follow_word-Followed :
    (cur pc : ℕ) (d : List Bool) {pc' : ℕ} {d' : List Bool}
    → pc + 1 < length d
    → is_marked d pc ≡ true
    → follow_word cur pc d ≡ some (pc', d')
    → Followed cur pc d pc' d'
unfolding follow_word
follow_word-Followed cur pc d {pc'} {d'} lt here e =
    let target = target_of (op_format (cur % 256)) cur pc in
    let next = mark_next-Next cur pc d lt in
    elim (Bool-cases (is_branch (cur % 256) && not (target == no_target))) [
      | inl jumps ↦ elim (Bool-cases (ltb target (length d))) [
        | inl inside ↦
            let (br, alive) = and_true _ _ jumps in
            subst (λ (r : ℕ × List Bool). Followed cur pc d r.0 r.1)
              (some_inj (rw (jumps, inside) at e))
              (jump-Followed cur pc target d (mark_next (cur % 256) pc d) next br
                (is_live target alive) refl (ltb→lt target (length d) inside) here)
        | inr outside ↦ absurd (none-some (rw (jumps, outside) at e))
      ]
      | inr stays ↦
          subst (λ (r : ℕ × List Bool). Followed cur pc d r.0 r.1) (some_inj (rw stays at e))
            (stay-Followed cur pc d (mark_next (cur % 256) pc d) next (λ j f. elim f [
              | inl g ↦ g
              | inr (b, l, _) ↦ absurd (not_both _ _ stays b (live_test target l))
            ]))
    ]
