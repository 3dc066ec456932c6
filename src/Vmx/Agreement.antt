-- ===== src/Vmx/Agreement.antt =====
-- disassemble against executeInstruction, and the two indirect accesses against each other
-- (A2/P2/vmx20.c).
use unh_cs.Common.{
  ℕ, ◌+◌, ◌^◌, ◌≤◌, ◌<◌, ◌≡◌, ◌↔◌, true, arith, ltb, if◌then◌else◌, inl, inr, Bool-cases,
}
use unh_cs.Common.Word.{IsWord, add32, add64, extend64, sign_bit}
use unh_cs.Vmx.State.{mem_size, address_out_of_range, Vm, Core}
use unh_cs.Vmx.Memory.{put_word, read_into, read_into_lem, write_word}
use unh_cs.Vmx.Decode.{reg1, reg2, addr16}
use unh_cs.Vmx.Execute.{next, stop, set_reg, exec_ldind, exec_stind}

-- The value of an `int32_t`, plus 2 ^ 32.
abbrev lifted : ℕ → ℕ
lifted w = if ltb w sign_bit then w + 2 ^ 32 else w

-- The sum of two `int32_t`, as an integer, is the index of a word of the memory.
abbrev pub InMemory : ℕ → ℕ → Type 0
InMemory base addr =
    (2 ^ 33 ≤ lifted base + lifted addr) × (lifted base + lifted addr < 2 ^ 33 + mem_size)

InMemory-iff :
    (base addr : ℕ)
    → IsWord base
    → IsWord addr
    → (ltb (add64 (extend64 base) (extend64 addr)) mem_size ≡ true) ↔ InMemory base addr
unfolding add64 extend64
InMemory-iff base addr hb ha = ground arith

add32-InMemory : (base addr : ℕ) → InMemory base addr → add32 base addr < mem_size
unfolding add32
add32-InMemory base addr h = ground arith

-- `ldind` loads the word at the register's contents plus the offset if that sum, as an integer, is
-- the index of a word of the memory, and otherwise stops the core and changes nothing else.
pub exec_ldind_lem :
    (word t : ℕ) (c : Core) (vm : Vm)
    → IsWord (c.reg (reg2 word))
    → IsWord (addr16 word)
    → (InMemory (c.reg (reg2 word)) (addr16 word)
        → exec_ldind word t c vm
          ≡ next t (set_reg c (reg1 word) (vm.memory (add32 (c.reg (reg2 word)) (addr16 word)))) vm)
      × (¬ InMemory (c.reg (reg2 word)) (addr16 word)
          → exec_ldind word t c vm ≡ stop address_out_of_range t c vm)
unfolding exec_ldind
exec_ldind_lem word t c vm hb ha = (
  λ h. rw ((InMemory-iff base addr hb ha).1 h, loaded h),
  λ h. elim (Bool-cases (ltb (add64 (extend64 base) (extend64 addr)) mem_size)) [
    | inl e ↦ absurd (h ((InMemory-iff base addr hb ha).0 e))
    | inr e ↦ rw e
  ],
)
  where
    base : ℕ
    base = c.reg (reg2 word)

    addr : ℕ
    addr = addr16 word

    loaded :
        InMemory base addr
        → read_into vm (add32 base addr) (c.reg (reg1 word)) ≡ vm.memory (add32 base addr)
    loaded h = read_into_lem vm (add32 base addr) _ (add32-InMemory base addr h)

-- `stind` tests the number of the register, not its contents. With an offset that is not negative
-- a store beyond the memory is dropped without an error, and with one that takes the number of the
-- register below 0 a store within the memory stops the core.
pub exec_stind_unchecked :
    (word t : ℕ) (c : Core) (vm : Vm)
    → reg2 word < 16
    → (addr16 word < 2 ^ 15
        → mem_size ≤ add32 (c.reg (reg2 word)) (addr16 word)
        → exec_stind word t c vm ≡ next t c vm)
      × (2 ^ 31 ≤ addr16 word
          → reg2 word + addr16 word < 2 ^ 32
          → exec_stind word t c vm ≡ stop address_out_of_range t c vm)
unfolding exec_stind write_word put_word add64 extend64
exec_stind_unchecked word t c vm hr = (λ h hm. ground arith, λ h hm. ground arith)
