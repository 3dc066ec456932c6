-- ===== src/Vmx/Encode.antt =====
-- The layout of an instruction word: A2/P2/vmx20_macros.h and the field extraction of vmx20.c,
-- against the word that an assembler puts together.
use unh_cs.Common.{ℕ, ◌+◌, ◌-◌, ◌*◌, ◌%◌, ◌^◌, ◌≤◌, ◌<◌, ◌≡◌, arith, ◌⊎◌}
use unh_cs.Vmx.Decode.{reg1, reg2, addr20, addr16}

-- op reg,addr: the opcode, a register, and the low 20 bits of an `int32_t`.
pub encode20 : ℕ → ℕ → ℕ → ℕ
encode20 op r addr = op + 2 ^ 8 * r + 2 ^ 12 * (addr % 2 ^ 20)

-- op reg,reg,addr: the opcode, two registers, and the low 16 bits.
pub encode16 : ℕ → ℕ → ℕ → ℕ → ℕ
encode16 op r s addr = op + 2 ^ 8 * r + 2 ^ 12 * s + 2 ^ 16 * (addr % 2 ^ 16)

-- The bit pattern of an `int32_t` between -2 ^ k and 2 ^ k - 1.
abbrev pub IsSigned : ℕ → ℕ → Type 0
IsSigned k w = (w < 2 ^ k) ⊎ ((2 ^ 32 - 2 ^ k ≤ w) × (w < 2 ^ 32))

-- Every displacement of 20 bits with its sign is read back from the word, with the opcode and the
-- register.
pub fields-encode20 :
    (op r addr : ℕ)
    → op < 256
    → r < 16
    → IsSigned 19 addr
    → (encode20 op r addr % 256 ≡ op)
      × (reg1 (encode20 op r addr) ≡ r)
      × (addr20 (encode20 op r addr) ≡ addr)
unfolding encode20 reg1 addr20
fields-encode20 op r addr ho hr ha = (omega arith, omega arith, ground arith)

-- So is every displacement of 16 bits, with the opcode and both registers.
pub fields-encode16 :
    (op r s addr : ℕ)
    → op < 256
    → r < 16
    → s < 16
    → IsSigned 15 addr
    → (encode16 op r s addr % 256 ≡ op)
      × (reg1 (encode16 op r s addr) ≡ r)
      × (reg2 (encode16 op r s addr) ≡ s)
      × (addr16 (encode16 op r s addr) ≡ addr)
unfolding encode16 reg1 reg2 addr16
fields-encode16 op r s addr ho hr hs ha = (omega arith, omega arith, omega arith, ground arith)
