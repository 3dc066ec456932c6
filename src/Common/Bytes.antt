-- ===== src/Common/Bytes.antt =====
-- Bytes, the words that hold them, and C strings.
use Prim.Native.Nat.{ℕ, ◌+◌, ◌*◌, ◌/◌, ◌%◌, ◌<◌}
use mathlib.Core.Path.{◌≡◌, refl}
use mathlib.Core.Bool.{Bool, true, false, ◌&&◌}
use mathlib.Core.List.{List, [], ◌∷◌, ◌++◌}
use mathlib.Core.Option.{Option, none, some}
use native.Mathlib.Omega.{arith}
use unh_cs.Common.Tests.{◌==◌, if◌then◌else◌}

-- The four bytes of a word in memory, lowest first.
unfoldable pub bytes_of_word : ℕ → List ℕ
bytes_of_word w = (w % 256) ∷ (w / 256 % 256) ∷ (w / 65536 % 256) ∷ (w / 16777216 % 256) ∷ []

unfoldable pub bytes_of_words : List ℕ → List ℕ
unfolding bytes_of_word
bytes_of_words [] = []
bytes_of_words (w ∷ ws) = bytes_of_word w ++ bytes_of_words ws

unfoldable pub word_of_bytes : ℕ → ℕ → ℕ → ℕ → ℕ
word_of_bytes a b c d = a + 256 * b + 65536 * c + 16777216 * d

pub bytes_of_word-word_of_bytes :
    (a b c d : ℕ)
    → a < 256
    → b < 256
    → c < 256
    → d < 256
    → bytes_of_word (word_of_bytes a b c d) ≡ a ∷ b ∷ c ∷ d ∷ []
unfolding bytes_of_word word_of_bytes
bytes_of_word-word_of_bytes a b c d ha hb hc hd = ground arith

-- The bytes before the first NUL; `none` if there is none.
unfoldable pub c_string : List ℕ → Option (List ℕ)
c_string [] = none
c_string (b ∷ bs) =
    if b == 0 then some [] else elim (c_string bs) [ none ↦ none | some s ↦ some (b ∷ s) ]

-- `strcmp (s, t) == 0`
unfoldable pub str_eq : List ℕ → List ℕ → Bool
str_eq [] [] = true
str_eq [] (b ∷ bs) = false
str_eq (a ∷ as') [] = false
str_eq (a ∷ as') (b ∷ bs) = a == b && str_eq as' bs

pub str_eq_refl : (s : List ℕ) → str_eq s s ≡ true
unfolding str_eq
str_eq_refl [] = refl
str_eq_refl (a ∷ s) = ground (arith, str_eq_refl s)

pub eq_of_str_eq : (s t : List ℕ) → str_eq s t ≡ true → s ≡ t
unfolding str_eq
eq_of_str_eq [] [] h = refl
eq_of_str_eq [] (b ∷ t) h = ground arith
eq_of_str_eq (a ∷ s) [] h = ground arith
eq_of_str_eq (a ∷ s) (b ∷ t) h = ground (arith, eq_of_str_eq s t)
