-- ===== src/Port/Avr/Start.antt =====
-- A task that `arch_task_init` of arch/avr/arch_port.c prepared starts in `arch_task_start`.
use rados.Base.{
  ℕ, ◌+◌, ◌-◌, ◌*◌, ◌/◌, ◌%◌, ◌^◌, ◌≤◌, ◌<◌, ◌≡◌, refl, ◌∙◌, List, ◌∷◌, ◌++◌, arith, replicate,
}
use rados.Kernel.{Kernel, task_entry}
use rados.Tasks.{task_frame, arch_task_init}
use rados.Port.Stack.{push_down-Holds, Holds-same}
use rados.Port.Avr.{Cpu, isr_pushes}
use rados.Port.Avr.Frame.{loaded, restore_regs-Restored}
use rados.Port.Avr.Switch.{GivesCpu, GivesCpu-restore_regs}

-- The CPU in which the new task starts, with its whole stack before it: `proc` and `param` are the
-- arguments of `arch_task_start` by the calling convention, and r1 is 0 as compiled code expects.
pub record Started (start top proc param : ℕ) (m : Cpu) : Type 0 where
  pub pc : m.pc ≡ start
  pub sp : m.sp ≡ top
  pub interrupts_on : m.sreg ≡ 2 ^ 7
  pub first_argument : m.regs 25 * 2 ^ 8 + m.regs 24 ≡ proc
  pub second_argument : m.regs 23 * 2 ^ 8 + m.regs 22 ≡ param
  pub zero_register : m.regs 1 ≡ 0

-- The frame without the return address, r16 and SREG.
frame_rest : ℕ → ℕ → ℕ → List ℕ
frame_rest top proc param =
    (top - 2) % 256
    ∷ (top - 2) / 256 % 256
    ∷ (replicate 16 0
        ++ replicate 5 0
        ++ param % 256 ∷ param / 256 % 256 ∷ proc % 256 ∷ proc / 256 % 256 ∷ replicate 4 0)

module _ (start t stack stack_size proc param : ℕ) (k : Kernel) (room : 36 ≤ stack + stack_size)
    (small : stack + stack_size ≤ 2 ^ 16) (code : start < 2 ^ 16) (proc_small : proc < 2 ^ 16)
    (param_small : param < 2 ^ 16) where
  abbrev top : ℕ
  top = stack + stack_size - 1

  -- On the AVR, for 16 bit addresses and a stack of enough room: where the frame and the context
  -- that `arch_task_init` wrote are kept, the first switch or return to the task starts
  -- `arch_task_start` with the whole stack before it, interrupts on, `proc` and `param` in its
  -- argument registers and 0 in r1.
  pub GivesCpu-arch_task_init :
      (m : Cpu) {r : Cpu}
      → task_entry (m.ctx t) ≡ ((arch_task_init start t stack stack_size proc param k).tasks t).ctx
      → ((a : ℕ)
          → top - 35 < a
          → a ≤ top
          → m.ram a ≡ (arch_task_init start t stack stack_size proc param k).memory a)
      → GivesCpu t (top - 35) top m r
      → Started start top proc param r
  unfolding arch_task_init task_frame frame_rest loaded isr_pushes
  GivesCpu-arch_task_init m ctx kept gives =
      let (m0, e, sp, same) = GivesCpu-restore_regs gives in
      let at : m.ctx t ≡ top - 35 = ground (arith, ctx) in
      let h =
        Holds-same _ m0.ram top (task_frame start top proc param) (omega arith)
          (λ a l h. same a (omega arith) h ∙ kept a (omega arith) h)
          (push_down-Holds top (task_frame start top proc param) k.memory (omega arith)) in
      let back =
        restore_regs-Restored m0 top (start % 256) (start / 256 % 256) 0 128
          (frame_rest top proc param) refl (omega (arith, sp, at)) (omega arith) (omega arith) h in
      rw e (record {
        pc = back.pc ∙ omega arith;
        sp = back.sp;
        interrupts_on = back.sreg;
        first_argument = omega (arith, back.regs 24, back.regs 25);
        second_argument = omega (arith, back.regs 22, back.regs 23);
        zero_register = omega (arith, back.regs 1);
      })
