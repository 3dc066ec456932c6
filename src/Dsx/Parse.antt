-- ===== src/Dsx/Parse.antt =====
-- parse_code of A1/P2/dsx20.c: which words of the object code are instructions, found by following
-- the code from its first word.
use unh_cs.Common.{
  ℕ, zero, suc, ◌+◌, ◌-◌, ◌*◌, ◌/◌, ◌%◌, ◌^◌, Bool, true, false, not, ◌&&◌, ◌||◌, Option, none,
  some, List, [], ◌∷◌, ltb, ◌==◌, if◌then◌else◌, length, get_elem?, set,
}
use unh_cs.Common.Word.{add32}
use unh_cs.Vmx.Decode.{Format, f_addr, f_regaddr, f_regregaddr}
use unh_cs.Dsx.Tables.{op_format, ins_halt, ins_ret, ins_jmp, ins_beq, ins_blt, ins_bgt, ins_call}

-- The macro EXTENDBIT20, and the conversion of the upper half of a word to `int16_t`.
unfoldable pub extend_bit20 : ℕ → ℕ
extend_bit20 x = if x / 2 ^ 19 % 2 == 1 then x % 2 ^ 20 + 0xfff0_0000 else x

unfoldable pub extend_int16 : ℕ → ℕ
extend_int16 x = if ltb x (2 ^ 15) then x else x + 0xffff_0000

-- The `int32_t` -1.
abbrev pub no_target : ℕ
no_target = 2 ^ 32 - 1

-- Where an instruction with an address leads, as an `int32_t`. An address of 0 is taken for one that
-- the linker has yet to write.
unfoldable pub target_of : Format → (cur pc : ℕ) → ℕ
unfolding extend_bit20 extend_int16
target_of f_addr cur pc =
    if cur / 2 ^ 12 == 0 then no_target else add32 (add32 (extend_bit20 (cur / 2 ^ 12)) pc) 1
target_of f_regaddr cur pc =
    if cur / 2 ^ 12 == 0 then no_target else add32 (add32 (extend_bit20 (cur / 2 ^ 12)) pc) 1
target_of f_regregaddr cur pc =
    if cur / 2 ^ 16 == 0 then no_target else add32 (add32 (extend_int16 (cur / 2 ^ 16)) pc) 1
target_of _ cur pc = no_target

-- Only these guarantee no instruction behind them.
unfoldable pub falls_through : ℕ → Bool
falls_through op = not (op == ins_jmp || op == ins_halt || op == ins_ret)

unfoldable pub is_branch : ℕ → Bool
is_branch op = op == ins_jmp || op == ins_beq || op == ins_blt || op == ins_bgt || op == ins_call

-- `data[pc] == D_INS`, and the write of D_INS, which is `true`.
abbrev pub is_marked : List Bool → ℕ → Bool
is_marked d i = elim (get_elem? d i) [ none ↦ false | some b ↦ b ]

abbrev pub mark : List Bool → ℕ → List Bool
mark d i = set d i true

unfoldable pub mark_next : (op pc : ℕ) → List Bool → List Bool
unfolding falls_through
mark_next op pc d = if falls_through op then mark d (pc + 1) else d

-- The next value of `pc`, and the array, behind a branch to a target in the array.
unfoldable pub go_to : (target pc : ℕ) → List Bool → ℕ × List Bool
go_to target pc d =
    (if ltb target pc && not (is_marked d target) then target else pc + 1, mark d target)

-- One instruction. `none` is a target out of the bounds of the array.
unfoldable pub follow_word : (cur pc : ℕ) → List Bool → Option (ℕ × List Bool)
unfolding mark_next is_branch go_to target_of
follow_word cur pc d =
    let op = cur % 256 in
    let target = target_of (op_format op) cur pc in
    let d' = mark_next op pc d in
    if is_branch op && not (target == no_target)
    then (if ltb target (length d) then some (go_to target pc d') else none)
    else some (pc + 1, d')

-- `out_of_bounds` is a read or a write beyond a buffer, and `unfinished` a loop out of fuel.
pub data Parse : Type 0 where
  parsed : List Bool → Parse
  out_of_bounds : Parse
  unfinished : Parse

unfoldable pub parse_loop : (fuel : ℕ) → (ptr : List ℕ) → (count pc : ℕ) → List Bool → Parse
unfolding follow_word
parse_loop zero ptr count pc d = unfinished
parse_loop (suc n) ptr count pc d =
    let skipped = parse_loop n ptr count (pc + 1) d in
    let followed : Option (ℕ × List Bool) → Parse =
      λ o. elim o [ none ↦ out_of_bounds | some (pc', d') ↦ parse_loop n ptr count pc' d' ] in
    if not (ltb pc count) then parsed d else elim (get_elem? ptr pc) [
      | none ↦ out_of_bounds
      | some cur ↦ if pc == 0 || is_marked d pc then followed (follow_word cur pc d) else skipped
    ]

abbrev pub blank : ℕ → List Bool
blank zero = []
blank (suc n) = false ∷ blank n

-- The words from `start` on are `ptr`. Each round goes on by one word or marks one more word, which
-- bounds the fuel.
unfoldable pub parse_code : (ptr : List ℕ) → (count : ℕ) → Parse
unfolding parse_loop
parse_code ptr count =
    parse_loop ((count + 1) * (count + 1) + 1) ptr count 0 (mark (blank (suc count)) 0)
