-- ===== src/Port/Msp430/Start.antt =====
-- A task that `arch_task_init` of arch/msp430/arch_port.c prepared starts in `arch_task_start`.
use rados.Base.{
  ℕ, ◌+◌, ◌-◌, ◌%◌, ◌^◌, ◌≤◌, ◌<◌, ◌≡◌, refl, ◌∙◌, ap, subst, Bool, true, false, arith, update,
  if◌then◌else◌, length,
}
use rados.Kernel.{Kernel, task_entry}
use rados.Kernel.Run.{ok, halted}
use rados.Port.Words.{HoldsWords, put_words_out, put_words-HoldsWords, HoldsWords-same}
use rados.Port.Msp430.{
  Cpu, gie, bis_gie, bic_power, popm, on_top, return_from, switch_out, arch_context_switch,
  arch_contextrestore_i, checked_assert, arch_task_init, task_frame, init_stack, set_ctx, bic_gie,
}
use rados.Port.Msp430.Frame.{from_top}
use rados.Port.Msp430.Switch.{Resumed, GivesCpu, return_once, return_twice, switch_out-Left, status}

-- What gets the CPU pops the frame that stands from `lo` on.
record Pops (lo hi : ℕ) (m : Cpu) (isr : Bool) (r : Cpu) : Type 0 where
  m0 : Cpu
  sp : m0.sp ≡ lo
  ram : (a : ℕ) → lo ≤ a → a < hi → m0.ram a ≡ m.ram a
  pops : r ≡ (
      if isr
      then return_from (on_top bis_gie (on_top bic_power (popm 12 15 m0)))
      else return_from (on_top bic_power (popm 12 15 m0)))

GivesCpu-Pops :
    {t lo hi : ℕ} {m r : Cpu} {isr : Bool}
    → GivesCpu t lo hi m isr r
    → m.ctx t ≡ lo
    → Pops lo hi m isr r
unfolding arch_context_switch arch_contextrestore_i
GivesCpu-Pops {t} {lo} {hi} {m} (GivesCpu.switches other room small apart) at =
    let s = switch_out-Left m room small in
    let m1 = switch_out m in
    record {
      m0 = record m1 { task_current = t; sp = m1.ctx t };
      sp = rw s.ctx (ground (arith, at));
      ram = λ a l h.
          ap (λ (ram : ℕ → ℕ). ram a) s.ram
          ∙ put_words_out (m.sp - 2) _ m.ram a (omega arith) (ground arith);
      pops = refl;
    }
GivesCpu-Pops {t} {lo} {hi} {m} (GivesCpu.returns now outer) at = record {
  m0 = record m { isr_nesting = 0; sr = bic_gie m.sr; sp = m.ctx t };
  sp = at;
  ram = λ a l h. refl;
  pops = rw (outer, now) refl;
}

-- The registers of a new task: the arguments of `arch_task_start` are in R15 and R14.
abbrev pub first_regs : ℕ → ℕ → ℕ → ℕ
first_regs proc param = update (update (λ i. 0) 15 proc) 14 param

-- Either way back.
chosen :
    {saved : ℕ → ℕ} {pc sp : ℕ}
    → (m0 : Cpu) (isr : Bool)
    → Resumed saved (bic_power gie) pc sp (return_from (on_top bic_power (popm 12 15 m0)))
    → Resumed saved
        (bis_gie (bic_power gie))
        pc
        sp
        (return_from (on_top bis_gie (on_top bic_power (popm 12 15 m0))))
    → Resumed saved (status isr gie) pc sp (
        if isr
        then return_from (on_top bis_gie (on_top bic_power (popm 12 15 m0)))
        else return_from (on_top bic_power (popm 12 15 m0)))
chosen m0 true once twice = twice
chosen m0 false once twice = once

module _ (start t stack stack_size proc param : ℕ) (k : Kernel) (room : 30 ≤ stack + stack_size)
    (small : stack + stack_size < 2 ^ 16) where
  abbrev prepared : Kernel
  prepared =
      set_ctx t ((stack + stack_size - 28) % 2 ^ 16)
        (init_stack start stack stack_size proc param k)

  GivesCpu-init_stack :
      (m : Cpu) {isr : Bool} {r : Cpu}
      → task_entry (m.ctx t) ≡ (prepared.tasks t).ctx
      → ((a : ℕ)
          → stack + stack_size - 28 ≤ a
          → a < stack + stack_size
          → m.ram a ≡ prepared.memory a)
      → GivesCpu t (stack + stack_size - 28) (stack + stack_size) m isr r
      → Resumed
          (first_regs (proc % 2 ^ 16) (param % 2 ^ 16))
          (status isr gie)
          (start % 2 ^ 16)
          (stack + stack_size)
          r
  unfolding init_stack set_ctx task_frame
  GivesCpu-init_stack m {isr} {r} ctx kept gives =
      let at : m.ctx t ≡ stack + stack_size - 28 = ground (arith, ctx) in
      let p = GivesCpu-Pops gives at in
      let top = stack + stack_size - 2 in
      let size : length (task_frame start proc param) ≡ 14 = refl in
      let h : HoldsWords p.m0.ram top (task_frame start proc param) =
        HoldsWords-same _ p.m0.ram top (task_frame start proc param) (omega arith)
          (λ a l u. p.ram a (omega arith) (omega arith) ∙ kept a (omega arith) (omega arith))
          (put_words-HoldsWords top (task_frame start proc param) k.memory (omega arith)) in
      let saved = first_regs (proc % 2 ^ 16) (param % 2 ^ 16) in
      let regs : HoldsWords p.m0.ram (stack + stack_size - 4 - 2) (from_top saved 15 12) =
        subst (λ (a : ℕ). HoldsWords p.m0.ram a (from_top saved 15 12))
          (let e : top - 2 - 2 ≡ stack + stack_size - 4 - 2 = omega arith in e) h.1.1 in
      let a1 : p.m0.ram (stack + stack_size - 4) ≡ gie =
        rw (let e : stack + stack_size - 4 ≡ top - 2 = omega arith in e) h.1.0 in
      let a2 : p.m0.ram (stack + stack_size - 4 + 2) ≡ start % 2 ^ 16 =
        rw (let e : stack + stack_size - 4 + 2 ≡ top = omega arith in e) h.0 in
      let a3 : stack + stack_size - 4 + 4 ≡ stack + stack_size = omega arith in
      let below : p.m0.sp + 24 ≡ stack + stack_size - 4 = omega (arith, p.sp) in
      let once =
        return_once saved (stack + stack_size - 4) p.m0 below (omega arith) regs bic_power in
      let twice =
        return_twice saved (stack + stack_size - 4) p.m0 below (omega arith) regs bic_power
          bis_gie in
      rw p.pops (chosen p.m0 isr (rw (a1, a2, a3) at once) (rw (a1, a2, a3) at twice))

  -- On the MSP430, for a stack at an even address, of even size, with at least 30 bytes below its
  -- top and its top below 2^16: in a build with OS_CONFIG_APICHECK, which source/os_config.h
  -- defines, `arch_task_init` halts at its first assertion, which never holds. In a build without
  -- it it returns, and where the frame and the stack pointer that it wrote are kept, the first
  -- switch or return to the task starts `arch_task_start` with the whole stack before it, `proc` in
  -- R15, `param` in R14, 0 in R4 to R13 and interrupts on, each address cut to 16 bits.
  pub arch_task_init-Resumed :
      stack % 2 ≡ 0
      → stack_size % 2 ≡ 0
      → (m : Cpu) {isr : Bool} {r : Cpu} → task_entry (m.ctx t) ≡ (prepared.tasks t).ctx
      → ((a : ℕ)
          → stack + stack_size - 28 ≤ a
          → a < stack + stack_size
          → m.ram a ≡ prepared.memory a)
      → GivesCpu t (stack + stack_size - 28) (stack + stack_size) m isr r
      → (arch_task_init true start t stack stack_size proc param k
          ≡ halted (record k { dint = true; sched_lock = 1 }))
        × (arch_task_init false start t stack stack_size proc param k ≡ ok tt prepared)
        × Resumed
            (first_regs (proc % 2 ^ 16) (param % 2 ^ 16))
            (status isr gie)
            (start % 2 ^ 16)
            (stack + stack_size)
            r
  unfolding arch_task_init checked_assert
  arch_task_init-Resumed even even_size m ctx kept gives =
      (refl, refl, GivesCpu-init_stack m ctx kept gives)
