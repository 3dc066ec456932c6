-- ===== src/Common/Word.antt =====
-- 32-bit words as bit patterns: a number below 2 ^ 32 stands for a `uint32_t`, and for the
-- `int32_t` with the same bits. Arithmetic that overflows an `int32_t` wraps.
use Prim.Native.Nat.{ℕ, ◌+◌, ◌-◌, ◌*◌, ◌/◌, ◌%◌, ◌^◌, ◌<◌}
use mathlib.Core.Bool.{Bool}
use native.Mathlib.Omega.{arith}
use unh_cs.Common.Tests.{ltb, if◌then◌else◌}

abbrev pub word_mod : ℕ
word_mod = 2 ^ 32

abbrev pub sign_bit : ℕ
sign_bit = 2 ^ 31

abbrev pub IsWord : ℕ → Type 0
IsWord w = w < 2 ^ 32

unfoldable pub add32 : ℕ → ℕ → ℕ
add32 a b = (a + b) % word_mod

unfoldable pub sub32 : ℕ → ℕ → ℕ
sub32 a b = (a + word_mod - b % word_mod) % word_mod

unfoldable pub mul32 : ℕ → ℕ → ℕ
mul32 a b = a * b % word_mod

unfoldable pub neg32 : ℕ → ℕ
neg32 a = (word_mod - a % word_mod) % word_mod

-- The absolute value of the `int32_t` with these bits.
unfoldable pub abs32 : ℕ → ℕ
unfolding neg32
abs32 a = if ltb a sign_bit then a else neg32 a

-- Division of `int32_t`, which truncates towards zero.
unfoldable pub div32 : ℕ → ℕ → ℕ
unfolding neg32 abs32
div32 a b =
    if ltb a sign_bit
    then (if ltb b sign_bit then a / b else neg32 (a / abs32 b))
    else if ltb b sign_bit
    then neg32 (abs32 a / b)
    else abs32 a / abs32 b

-- `a < b` of `int32_t`: flipping the sign bit turns the signed order into the unsigned one.
unfoldable pub signed_lt : ℕ → ℕ → Bool
signed_lt a b = ltb ((a + sign_bit) % word_mod) ((b + sign_bit) % word_mod)

-- `a >> k` of an `int32_t` shifts in copies of the sign bit.
unfoldable pub sar32 : ℕ → ℕ → ℕ
sar32 a k = if ltb a sign_bit then a / 2 ^ k else word_mod - 2 ^ (32 - k) + a / 2 ^ k

-- An `int32_t` converted to `uint64_t`.
unfoldable pub extend64 : ℕ → ℕ
extend64 a = if ltb a sign_bit then a else a + (2 ^ 64 - 2 ^ 32)

unfoldable pub add64 : ℕ → ℕ → ℕ
add64 a b = (a + b) % 2 ^ 64

module _ (a b : ℕ) where
  pub add32-lt : IsWord (add32 a b)
  unfolding add32
  add32-lt = omega arith

  pub sub32-lt : IsWord (sub32 a b)
  unfolding sub32
  sub32-lt = omega arith

  pub mul32-lt : IsWord (mul32 a b)
  unfolding mul32
  mul32-lt = omega arith
