-- ===== src/Port/Msp430/Interrupt.antt =====
-- An interrupt of the MSP430 saves the interrupted code and gives it back.
use rados.Base.{
  ℕ, ◌+◌, ◌-◌, ◌%◌, ◌^◌, ◌≤◌, ◌<◌, ◌≡◌, ◌∙◌, ap, inl, inr, false, arith, ◌==◌, if◌then◌else◌,
  Bool-cases,
}
use rados.Port.Words.{put_words, HoldsWords, put_words_out, put_words-HoldsWords, HoldsWords-same}
use rados.Port.Msp430.{Cpu, bis_gie, bic_gie, bic_power, arch_contextstore_i, arch_contextrestore_i}
use rados.Port.Msp430.Frame.{from_top, pushm_lem}
use rados.Port.Msp430.Switch.{Resumed, return_once, return_twice}

-- The CPU `m1` after `arch_contextstore_i` in `m`, at whose stack pointer the hardware has put the
-- status, and the return address above it.
pub record Stored (m m1 : Cpu) : Type 0 where
  pub sp : m1.sp ≡ m.sp - 24
  pub ram : m1.ram ≡ put_words (m.sp - 2) (from_top m.regs 15 12) m.ram
  pub isr_nesting : m1.isr_nesting ≡ (m.isr_nesting + 1) % 2 ^ 16
  pub ctx :
      m1.ctx m.task_current ≡ (if m1.isr_nesting == 1 then m.sp - 24 else m.ctx m.task_current)

pub arch_contextstore_i-Stored :
    (m : Cpu) → 26 ≤ m.sp → m.sp < 2 ^ 16 → Stored m (arch_contextstore_i m)
unfolding arch_contextstore_i
arch_contextstore_i-Stored m room small =
    let m1 = record m { isr_nesting = (m.isr_nesting + 1) % 2 ^ 16 } in
    rw (pushm_lem 12 15 m1 (omega arith) small) (record {
      sp = ground arith;
      ram = ground arith;
      isr_nesting = ground arith;
      ctx = ground arith;
    })

-- What the interrupt leaves of the frame: `m1` is the CPU after the entry and `m'` before the return.
-- Other tasks may have run in between.
pub record FrameKept (m m1 m' : Cpu) : Type 0 where
  pub same_task : m'.task_current ≡ m.task_current
  pub nesting : m'.isr_nesting ≡ m1.isr_nesting
  pub ctx : m'.ctx m.task_current ≡ m1.ctx m.task_current
  -- Inside another interrupt the stack pointer is where the entry left it.
  pub nested_sp : (m.isr_nesting == 0) ≡ false → m'.sp ≡ m1.sp
  pub ram : (a : ℕ) → m1.sp ≤ a → a ≤ m.sp + 2 → m'.ram a ≡ m1.ram a

-- The status with which the interrupted code goes on: a task has its low power bits cleared.
abbrev pub status_back : ℕ → ℕ → ℕ
status_back nesting sr = if nesting == 0 then bis_gie (bic_power sr) else bis_gie sr

module _ (m m' : Cpu) (room : 26 ≤ m.sp) (small : m.sp + 4 < 2 ^ 16)
    (depth : m.isr_nesting < 2 ^ 16 - 1) (kept : FrameKept m (arch_contextstore_i m) m') where
  stored : Stored m (arch_contextstore_i m)
  stored = arch_contextstore_i-Stored m room (omega arith)

  -- The frame is still there, and what the hardware pushed.
  same :
      (a : ℕ)
      → m.sp - 24 ≤ a
      → a ≤ m.sp + 2
      → m'.ram a ≡ put_words (m.sp - 2) (from_top m.regs 15 12) m.ram a
  same a lo hi = kept.ram a (omega (arith, stored.sp)) hi ∙ ap (λ (ram : ℕ → ℕ). ram a) stored.ram

  frame : HoldsWords m'.ram (m.sp - 2) (from_top m.regs 15 12)
  frame =
      HoldsWords-same (put_words (m.sp - 2) (from_top m.regs 15 12) m.ram) m'.ram (m.sp - 2)
        (from_top m.regs 15 12) (omega arith) (λ a lo hi. same a (omega arith) (omega arith))
        (put_words-HoldsWords (m.sp - 2) (from_top m.regs 15 12) m.ram (omega arith))

  above : (a : ℕ) → m.sp ≤ a → a ≤ m.sp + 2 → m'.ram a ≡ m.ram a
  above a lo hi =
      same a (omega arith) hi
      ∙ put_words_out (m.sp - 2) (from_top m.regs 15 12) m.ram a (omega arith) (inr (omega arith))

  -- On the MSP430, with 26 bytes of stack and less than 2^16 - 1 nested interrupts: where the frame
  -- that `arch_contextstore_i` wrote, the saved stack pointer, the nesting counter and the current
  -- task are as it left them, `arch_contextrestore_i` gives the interrupted code R4 to R15, its
  -- stack pointer, its return address and its status with GIE set, also for an interrupt inside
  -- another; a task has the low power bits of its status cleared.
  pub arch_contextrestore_i-Resumed :
      Resumed m.regs
        (status_back m.isr_nesting (m.ram m.sp))
        (m.ram (m.sp + 2))
        (m.sp + 4)
        (arch_contextrestore_i m')
  unfolding arch_contextrestore_i
  arch_contextrestore_i-Resumed =
      let n : (m'.isr_nesting + (2 ^ 16 - 1)) % 2 ^ 16 ≡ m.isr_nesting =
        omega (arith, kept.nesting, stored.isr_nesting) in
      let m1 = record m' { isr_nesting = m.isr_nesting; sr = bic_gie m'.sr } in
      let a1 = above m.sp (omega arith) (omega arith) in
      let a2 = above (m.sp + 2) (omega arith) (omega arith) in
      elim (Bool-cases (m.isr_nesting == 0)) [
        | inl outer ↦
            let p : m'.ctx m'.task_current ≡ m.sp - 24 =
              ground (arith, kept.same_task, kept.ctx, stored.ctx, stored.isr_nesting) in
            let m0 = record m1 { sp = m.sp - 24 } in
            let back =
              return_twice m.regs m.sp m0 (omega arith) (omega arith) frame bic_power bis_gie in
            rw (n, outer, p) (rw (a1, a2) at back)
        | inr inner ↦
            let p : m'.sp ≡ m.sp - 24 = kept.nested_sp inner ∙ stored.sp in
            let m0 = record m1 { port = 0x80; sp = m.sp - 24 } in
            let back = return_once m.regs m.sp m0 (omega arith) (omega arith) frame bis_gie in
            rw (n, inner, p) (rw (a1, a2) at back)
      ]
