-- ===== src/Dsx/Names.antt =====
-- The names in the output of A2/P1/linkx20.c: 16 bytes with a NUL behind the name.
use unh_cs.Common.{
  ℕ, zero, suc, ◌+◌, ◌<◌, ◌≡◌, ◌≢◌, refl, ap, ◌∙◌, some, List, [], ◌∷◌, ◌++◌, length, get_elem?,
  All, All-get, Option-cases, inl, inr, ne_test, arith,
}
use unh_cs.Common.Bytes.{bytes_of_word, bytes_of_words, bytes_of_word-word_of_bytes, c_string}
use unh_cs.Linker.Output.{byte_at, word_at}

-- A name that leaves room for its NUL in the 16 bytes of a symbol.
abbrev pub IsName : List ℕ → Type 0
IsName name = (length name < 16) × All (λ b. (b ≢ 0) × (b < 256)) name

-- The 16 bytes of a name in a file.
unfoldable pub padded : List ℕ → List ℕ
padded name =
    bytes_of_words (word_at name 0 ∷ word_at name 4 ∷ word_at name 8 ∷ word_at name 12 ∷ [])

byte_at-lt : (name : List ℕ) (i : ℕ) → All (λ b. (b ≢ 0) × (b < 256)) name → byte_at name i < 256
unfolding byte_at
byte_at-lt name i all = elim (Option-cases (get_elem? name i)) [
  | inl beyond ↦ rw (beyond, byte_at) (omega arith)
  | inr (b, there) ↦ rw (there, byte_at) (All-get (λ c. (c ≢ 0) × (c < 256)) name i all there).1
]

bytes_of_word-word_at :
    (name : List ℕ) (i : ℕ)
    → All (λ b. (b ≢ 0) × (b < 256)) name
    → bytes_of_word (word_at name i)
      ≡ byte_at name i ∷ byte_at name (i + 1) ∷ byte_at name (i + 2) ∷ byte_at name (i + 3) ∷ []
unfolding word_at
bytes_of_word-word_at name i all =
    bytes_of_word-word_of_bytes (byte_at name i) (byte_at name (i + 1)) (byte_at name (i + 2))
      (byte_at name (i + 3)) (byte_at-lt name i all) (byte_at-lt name (i + 1) all)
      (byte_at-lt name (i + 2) all) (byte_at-lt name (i + 3) all)

-- `n` bytes from `i` on.
bytes_from : (n i : ℕ) → List ℕ → List ℕ
bytes_from zero i name = []
bytes_from (suc n) i name = byte_at name i ∷ bytes_from n (suc i) name

bytes_from-later :
    (n i b : ℕ) (name : List ℕ) → bytes_from n (suc i) (b ∷ name) ≡ bytes_from n i name
unfolding bytes_from byte_at
bytes_from-later zero i b name = refl
bytes_from-later (suc n) i b name =
    ap (λ bs. byte_at name i ∷ bs) (bytes_from-later n (suc i) b name)

four :
    {a b c d a' b' c' d' : List ℕ}
    → a ≡ a'
    → b ≡ b'
    → c ≡ c'
    → d ≡ d'
    → a ++ b ++ c ++ d ++ [] ≡ a' ++ b' ++ c' ++ d' ++ []
four ea eb ec ed = cc

c_string-bytes_from :
    (n : ℕ) (name : List ℕ)
    → length name < n
    → All (λ b. (b ≢ 0) × (b < 256)) name
    → c_string (bytes_from n 0 name) ≡ some name
unfolding bytes_from c_string byte_at
c_string-bytes_from zero name lt all = absurd (omega (arith, lt))
c_string-bytes_from (suc n) [] lt all = refl
c_string-bytes_from (suc n) (b ∷ bs) lt all =
    rw
      (
        ne_test b 0 all.0.0,
        bytes_from-later n 0 b bs,
        c_string-bytes_from n bs (omega (arith, lt)) all.1,
      )
      refl

padded-bytes_from :
    (name : List ℕ) → All (λ b. (b ≢ 0) × (b < 256)) name → padded name ≡ bytes_from 16 0 name
unfolding padded bytes_of_words bytes_from
padded-bytes_from name all =
    four (bytes_of_word-word_at name 0 all) (bytes_of_word-word_at name 4 all)
      (bytes_of_word-word_at name 8 all) (bytes_of_word-word_at name 12 all)

pub c_string-padded : (name : List ℕ) → IsName name → c_string (padded name) ≡ some name
c_string-padded name ok =
    ap c_string (padded-bytes_from name ok.1) ∙ c_string-bytes_from 16 name ok.0 ok.1
