-- ===== src/Vmx/Memory.antt =====
-- getWord, putWord and getAddress of A2/P2/vmx20.c.
use unh_cs.Common.Bytes.{str_eq}
use unh_cs.Common.{
  ℕ, Option, none, some, List, [], ◌∷◌, ltb, if◌then◌else◌, update, not, ◌<◌, ◌≡◌, ◌≢◌, arith,
}
use unh_cs.Vmx.State.{Vm, Symbol, mem_size}

-- `none` is the result 0: nothing is stored through the pointer.
unfoldable pub get_word : Vm → ℕ → Option ℕ
get_word vm addr = if not (ltb addr mem_size) then none else some (vm.memory addr)

unfoldable pub put_word : Vm → ℕ → ℕ → Option Vm
put_word vm addr word =
    if not (ltb addr mem_size)
    then none
    else some (record vm { memory = update vm.memory addr word })

-- What `*outWord` holds after a call of `getWord` whose result is ignored.
unfoldable pub read_into : Vm → ℕ → ℕ → ℕ
unfolding get_word
read_into vm addr old = elim (get_word vm addr) [ none ↦ old | some w ↦ w ]

-- The machine after a call of `putWord` whose result is ignored.
unfoldable pub write_word : Vm → ℕ → ℕ → Vm
unfolding put_word
write_word vm addr word = elim (put_word vm addr word) [ none ↦ vm | some vm' ↦ vm' ]

find_symbol : List ℕ → List Symbol → Option ℕ
find_symbol label [] = none
find_symbol label (cur ∷ rest) =
    if str_eq cur.name label then some cur.address else find_symbol label rest

unfoldable pub get_address : Vm → List ℕ → Option ℕ
unfolding find_symbol
get_address vm label = find_symbol label vm.symbols

-- A read and a write within the memory, and what a write leaves alone.
pub write_word_lem :
    (vm : Vm) (a w : ℕ)
    → a < mem_size
    → write_word vm a w ≡ record vm { memory = update vm.memory a w }
unfolding write_word put_word
write_word_lem vm a w h = ground arith

pub write_word_other : (vm : Vm) (a w i : ℕ) → a ≢ i → (write_word vm a w).memory i ≡ vm.memory i
unfolding write_word put_word
write_word_other vm a w i h = ground arith

pub read_into_lem : (vm : Vm) (a old : ℕ) → a < mem_size → read_into vm a old ≡ vm.memory a
unfolding read_into get_word
read_into_lem vm a old h = ground arith
