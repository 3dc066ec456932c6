-- ===== src/Vmx/Stack.antt =====
-- The calling convention of A2/P2/vmx20.c: what `call`, `ret`, `push` and `pop` do to the stack.
use unh_cs.Common.{ℕ, ◌+◌, ◌-◌, ◌≤◌, ◌<◌, ◌≡◌, refl, true, arith, ◌⊎◌, ◌≢◌, update, le→ltb, ◌∙◌}
use unh_cs.Common.Word.{IsWord, add32, sub32}
use unh_cs.Vmx.State.{mem_size, fp, sp, address_out_of_range, Vm, Core}
use unh_cs.Vmx.Memory.{put_word, write_word, write_word_lem, write_word_other, read_into_lem}
use unh_cs.Vmx.Decode.{addr20, reg1}
use unh_cs.Vmx.Execute.{next, stop, set_reg, exec_call, exec_ret, exec_push}

-- There is room for the three words of a frame between the program and the stack pointer.
pub record HasRoom (c : Core) (vm : Vm) : Type 0 where
  pub within : c.reg sp ≤ c.stack
  pub above : vm.prog_end + 3 ≤ c.reg sp
  pub in_memory : c.reg sp ≤ mem_size

sub32_lem : (a b : ℕ) → b ≤ a → IsWord a → sub32 a b ≡ a - b
unfolding sub32
sub32_lem a b h w = omega arith

-- The core and the machine behind a call.
abbrev call_core : Core → Core
call_core c = set_reg (set_reg c fp (c.reg sp - 2)) sp (c.reg sp - 3)

abbrev frame : ℕ → ℕ → ℕ → (ℕ → ℕ) → ℕ → ℕ
frame s t f m = update (update (update m (s - 1) t) (s - 2) f) (s - 3) 0

pred32 : (s k : ℕ) → k < s → IsWord s → sub32 (s - k) 1 ≡ s - (k + 1)
pred32 s k h w = sub32_lem (s - k) 1 (omega arith) (omega arith) ∙ omega arith

exec_call_lem :
    (word t : ℕ) (c : Core) (vm : Vm)
    → HasRoom c vm
    → exec_call word t c vm
      ≡ next
          (add32 t (addr20 word))
          (call_core c)
          (record vm { memory = frame (c.reg sp) t (c.reg fp) vm.memory })
unfolding exec_call
exec_call_lem word t c vm h =
    rw
      (
        sub32_lem (c.reg sp) 3 (omega arith) (omega arith),
        sub32_lem (c.reg sp) 1 (omega arith) (omega arith),
        pred32 (c.reg sp) 1 (omega arith) (omega arith),
        pred32 (c.reg sp) 2 (omega arith) (omega arith),
        le→ltb c.stack (c.reg sp) h.within,
        le→ltb (c.reg sp - 3) vm.prog_end (omega arith),
        write_word_lem vm (c.reg sp - 1) t (omega arith),
        write_word_lem _ (c.reg sp - 2) (c.reg fp) (omega arith),
        write_word_lem _ (c.reg sp - 3) 0 (omega arith),
      )
      refl

-- The words of the frame that `call` pushes.
frame_words :
    (s t f : ℕ) (m : ℕ → ℕ)
    → 3 ≤ s
    → (frame s t f m (s - 1) ≡ t) × (frame s t f m (s - 2) ≡ f) × (frame s t f m (s - 3) ≡ 0)
frame_words s t f m h = (ground arith, ground arith, ground arith)

add32_lem : (a b r : ℕ) → a + b ≡ r → IsWord r → add32 a b ≡ r
unfolding add32
add32_lem a b r e w = omega arith

exec_ret_lem :
    (word t s : ℕ) (c : Core) (vm : Vm)
    → c.reg sp + 3 ≡ s
    → s ≤ c.stack
    → vm.prog_end ≤ c.reg sp
    → s ≤ mem_size
    → exec_ret word t c vm
      ≡ next
          (vm.memory (s - 1))
          (set_reg (set_reg c fp (vm.memory (s - 2))) sp s)
          (write_word vm (sub32 (vm.memory (s - 2)) 1) (vm.memory (s - 3)))
unfolding exec_ret
exec_ret_lem word t s c vm e hs hp hm =
    rw
      (
        add32_lem (c.reg sp) 3 s (omega arith) (omega arith),
        add32_lem (c.reg sp) 1 (s - 2) (omega arith) (omega arith),
        add32_lem (s - 2) 1 (s - 1) (omega arith) (omega arith),
        add32_lem (s - 1) 1 s (omega arith) (omega arith),
        le→ltb c.stack s hs,
        le→ltb (c.reg sp) vm.prog_end hp,
        read_into_lem vm (s - 2) (c.reg fp) (omega arith),
        read_into_lem vm (s - 1) t (omega arith),
        at_sp,
        read_into_lem vm (s - 3) word (omega arith),
      )
      refl
  where
    at_sp : c.reg sp ≡ s - 3
    at_sp = omega arith

-- A callee that leaves the stack pointer where it found it and the two words of its frame as they
-- were pushed (it may have stored its result over the zero) returns to the word behind the call,
-- with the caller's frame pointer and stack pointer, and the callee's result is stored at the
-- caller's frame pointer less one. There must be room for a frame at the call.
pub ret-call :
    (word t word' t' : ℕ) (c : Core) (vm : Vm) (c' : Core) (vm' : Vm)
    → HasRoom c vm
    → c'.reg sp ≡ (exec_call word t c vm).core.reg sp
    → c'.stack ≡ c.stack
    → vm'.prog_end ≡ vm.prog_end
    → vm'.memory (c.reg sp - 1) ≡ (exec_call word t c vm).vm.memory (c.reg sp - 1)
    → vm'.memory (c.reg sp - 2) ≡ (exec_call word t c vm).vm.memory (c.reg sp - 2)
    → exec_ret word' t' c' vm'
      ≡ next t
          (set_reg (set_reg c' fp (c.reg fp)) sp (c.reg sp))
          (write_word vm' (sub32 (c.reg fp) 1) (vm'.memory (c.reg sp - 3)))
ret-call word t word' t' c vm c' vm' h es ek ep e1 e2 =
    exec_ret_lem word' t' (c.reg sp) c' vm' (omega (arith, at_top)) (rw ek h.within)
      (omega (arith, at_top)) h.in_memory
    ∙ rw (return_word, saved_fp)
  where
    at_top : c'.reg sp ≡ c.reg sp - 3
    at_top = es ∙ rw (exec_call_lem word t c vm h)

    return_word : vm'.memory (c.reg sp - 1) ≡ t
    return_word =
        e1
        ∙ rw (exec_call_lem word t c vm h)
            (frame_words (c.reg sp) t (c.reg fp) vm.memory (omega arith)).0

    saved_fp : vm'.memory (c.reg sp - 2) ≡ c.reg fp
    saved_fp =
        e2
        ∙ rw (exec_call_lem word t c vm h)
            (frame_words (c.reg sp) t (c.reg fp) vm.memory (omega arith)).1

-- A call either stops the core with the memory as it was, or writes only to the three words below
-- the stack pointer, which lie above the program, if the stack pointer is at least 3.
pub exec_call_writes :
    (word t : ℕ) (c : Core) (vm : Vm) (i : ℕ)
    → IsWord (c.reg sp)
    → 3 ≤ c.reg sp
    → (exec_call word t c vm ≡ stop address_out_of_range t c vm)
      ⊎ ((vm.prog_end + 3 ≤ c.reg sp)
          × ((i < c.reg sp - 3) ⊎ (c.reg sp ≤ i)
              → (exec_call word t c vm).vm.memory i ≡ vm.memory i))
unfolding exec_call
exec_call_writes word t c vm i hw h = ground (
  arith,
  sub32_lem (c.reg sp) 3,
  sub32_lem (c.reg sp) 1,
  pred32 (c.reg sp) 1,
  pred32 (c.reg sp) 2,
  write_word_other vm (c.reg sp - 1) t i,
  write_word_other (write_word vm (c.reg sp - 1) t) (c.reg sp - 2) (c.reg fp) i,
  write_word_other (write_word (write_word vm (c.reg sp - 1) t) (c.reg sp - 2) (c.reg fp))
      (c.reg sp - 3) 0 i,
)

-- The check of `push` is made before the stack pointer goes down: at the end of the program it
-- passes, and the last word of the program is overwritten.
pub push_overwrites_program :
    (word t : ℕ) (c : Core) (vm : Vm)
    → c.reg sp ≡ vm.prog_end
    → 1 ≤ vm.prog_end
    → vm.prog_end ≤ mem_size
    → vm.prog_end ≤ c.stack
    → reg1 word ≢ sp
    → ((exec_push word t c vm).success ≡ true)
      × ((exec_push word t c vm).vm.memory (vm.prog_end - 1) ≡ c.reg (reg1 word))
unfolding exec_push write_word put_word
push_overwrites_program word t c vm e h hm hs r = ground (arith, sub32_lem (c.reg sp) 1)
