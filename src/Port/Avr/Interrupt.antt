-- ===== src/Port/Avr/Interrupt.antt =====
-- An interrupt saves the interrupted code and gives it back unchanged.
use rados.Base.{
  ℕ, ◌+◌, ◌-◌, ◌*◌, ◌%◌, ◌^◌, ◌≤◌, ◌<◌, ◌≡◌, refl, ◌∙◌, true, false, List, ◌∷◌, map, arith, length,
  update, ◌==◌, ◌||◌, if◌then◌else◌, mem, every, every-at, inl, inr, ap, Bool-cases,
}
use rados.Tasks.{push_down}
use rados.Port.Stack.{Holds, push_down-Holds, push_down_out, Holds-same}
use rados.Port.Avr.{
  Cpu, push, pushes, set_reg, isr_pushes, load_frame_pointer, store_ctx, arch_contextstore_i,
  arch_contextrestore_i, restore_regs,
}
use rados.Port.Avr.Frame.{
  pushes_lem, length-map, loaded, loaded-map, length-isr_pushes, restore_regs-Restored,
}

-- SREG with the I bit set: interrupts were on, or the interrupt would not have come.
abbrev pub enabled : ℕ → ℕ
enabled sreg = sreg % 2 ^ 7 + 2 ^ 7

-- The bytes that the interrupt entry writes, from the top down.
abbrev pub isr_frame : Cpu → List ℕ
isr_frame m = m.regs 16 ∷ enabled m.sreg ∷ map m.regs isr_pushes

-- The CPU `m1` after `arch_contextstore_i` in `m`.
pub record Stored (m m1 : Cpu) : Type 0 where
  pub sp : m1.sp ≡ m.sp - 33
  pub ram : m1.ram ≡ push_down m.sp (isr_frame m) m.ram
  pub isr_nesting : m1.isr_nesting ≡ (m.isr_nesting + 1) % 2 ^ 8
  pub task_current : m1.task_current ≡ m.task_current
  pub ctx :
      (t : ℕ)
      → m1.ctx t ≡ (
          if m1.isr_nesting == 1
          then (if t == m.task_current then m.sp - 33 else m.ctx t)
          else m.ctx t)

not_16 : (regs : ℕ → ℕ) (v : ℕ) → map (update regs 16 v) isr_pushes ≡ map regs isr_pushes
unfolding isr_pushes
not_16 regs v = refl

module _ (m : Cpu) (room : 33 ≤ m.sp) (small : m.sp < 2 ^ 16) where
  pushed : pushes isr_pushes (push 16 (set_reg 16 (enabled m.sreg) (push 16 m))) ≡ record m {
    regs = update m.regs 16 (enabled m.sreg);
    ram = push_down m.sp (isr_frame m) m.ram;
    sp = m.sp - 33;
  }
  unfolding push set_reg push_down
  pushed =
      let e1 : (m.sp + (2 ^ 16 - 1)) % 2 ^ 16 ≡ m.sp - 1 = omega arith in
      let e2 : (m.sp - 1 + (2 ^ 16 - 1)) % 2 ^ 16 ≡ m.sp - 2 = omega arith in
      let e3 : m.sp - 2 - 31 ≡ m.sp - 33 = omega arith in
      let e4 : m.sp - 1 - 1 ≡ m.sp - 2 = omega arith in
      let m2 = record m {
        regs = update m.regs 16 (enabled m.sreg);
        ram = update (update m.ram m.sp (m.regs 16)) (m.sp - 1) (enabled m.sreg);
        sp = m.sp - 2;
      } in
      rw
        (
          e1,
          e2,
          pushes_lem isr_pushes m2 (omega (arith, length-isr_pushes)) (omega arith),
          not_16,
          length-isr_pushes,
          e3,
          ← e4,
        )
        refl

  pub arch_contextstore_i-Stored : Stored m (arch_contextstore_i m)
  unfolding arch_contextstore_i push set_reg load_frame_pointer store_ctx
  arch_contextstore_i-Stored = rw pushed (record {
    sp = ground arith;
    ram = ground arith;
    isr_nesting = ground arith;
    task_current = ground arith;
    ctx = λ t. ground arith;
  })

-- What an interrupt leaves of the frame at whose end it was: `m1` is the CPU after the entry and `m'`
-- before the return. Other tasks may have run in between.
pub record FrameKept (m m1 m' : Cpu) : Type 0 where
  pub same_task : m'.task_current ≡ m.task_current
  pub nesting : m'.isr_nesting ≡ m1.isr_nesting
  pub ctx : m'.ctx m.task_current ≡ m1.ctx m.task_current
  -- Inside another interrupt the stack pointer is where the entry left it.
  pub nested_sp : (m.isr_nesting == 0) ≡ false → m'.sp ≡ m1.sp
  pub ram : (a : ℕ) → m1.sp < a → a ≤ m.sp + 2 → m'.ram a ≡ m1.ram a

-- The interrupted code goes on in `m'` as it was in `m`.
pub record GoesOn (m m' : Cpu) : Type 0 where
  pub regs : (i : ℕ) → i < 32 → m'.regs i ≡ m.regs i
  pub sreg : m'.sreg ≡ enabled m.sreg
  pub sp : m'.sp ≡ m.sp + 2
  pub pc : m'.pc ≡ m.ram (m.sp + 1) * 2 ^ 8 + m.ram (m.sp + 2)
  pub isr_nesting : m'.isr_nesting ≡ m.isr_nesting

saved_all : every (λ i. i == 16 || mem i isr_pushes) 32 ≡ true
unfolding every isr_pushes
saved_all = refl

covers :
    (regs saved : ℕ → ℕ) (i : ℕ)
    → i < 32
    → (if i == 16 then saved 16 else loaded isr_pushes (map saved isr_pushes) regs i) ≡ saved i
covers regs saved i h = ground (
  arith,
  every-at (λ i. i == 16 || mem i isr_pushes) 32 i h saved_all,
  loaded-map isr_pushes saved regs i,
)

module _ (m m' : Cpu) (room : 33 ≤ m.sp) (small : m.sp + 2 < 2 ^ 16)
    (depth : m.isr_nesting < 2 ^ 8 - 1) (kept : FrameKept m (arch_contextstore_i m) m') where
  abbrev returning : Cpu
  returning = record m' { isr_nesting = m.isr_nesting; sreg = m'.sreg % 2 ^ 7; sp = m.sp - 33 }

  to_returning : arch_contextrestore_i m' ≡ restore_regs returning
  unfolding arch_contextrestore_i
  to_returning =
      let s = arch_contextstore_i-Stored m room (omega arith) in
      let n : (m'.isr_nesting + (2 ^ 8 - 1)) % 2 ^ 8 ≡ m.isr_nesting =
        omega (arith, kept.nesting, s.isr_nesting) in
      elim (Bool-cases (m.isr_nesting == 0)) [
        | inl outer ↦
            let p : m'.ctx m'.task_current ≡ m.sp - 33 =
              ground (arith, kept.same_task, kept.ctx, s.ctx m.task_current, s.isr_nesting) in
            rw (n, outer, p) refl
        | inr inner ↦
            let p : m'.sp ≡ m.sp - 33 = kept.nested_sp inner ∙ s.sp in rw (n, inner, p) refl
      ]

  frame : Holds m'.ram m.sp (isr_frame m)
  frame =
      let s = arch_contextstore_i-Stored m room (omega arith) in
      let size : length (isr_frame m) ≡ 33 =
        omega (arith, length-map m.regs isr_pushes, length-isr_pushes) in
      Holds-same (push_down m.sp (isr_frame m) m.ram) m'.ram m.sp (isr_frame m) (omega arith)
        (λ a lo hi.
          kept.ram a (omega (arith, s.sp)) (omega arith) ∙ ap (λ (ram : ℕ → ℕ). ram a) s.ram)
        (push_down-Holds m.sp (isr_frame m) m.ram (omega arith))

  above : (a : ℕ) → m.sp < a → a ≤ m.sp + 2 → m'.ram a ≡ m.ram a
  above a lo hi =
      let s = arch_contextstore_i-Stored m room (omega arith) in
      let size : length (isr_frame m) ≡ 33 =
        omega (arith, length-map m.regs isr_pushes, length-isr_pushes) in
      kept.ram a (omega (arith, s.sp)) hi
      ∙ (ap (λ (ram : ℕ → ℕ). ram a) s.ram
          ∙ push_down_out m.sp (isr_frame m) m.ram a (omega arith) (inr lo))

  -- On the AVR, with 33 bytes of stack and less than 255 nested interrupts: where the frame that
  -- `arch_contextstore_i` wrote, the saved stack pointer, the nesting counter and the current task
  -- are as it left them, `arch_contextrestore_i` gives the interrupted code all 32 registers, its
  -- stack pointer, its return address, its SREG with interrupts on, and the counter before the
  -- interrupt, also for an interrupt inside another.
  pub arch_contextrestore_i-arch_contextstore_i : GoesOn m (arch_contextrestore_i m')
  arch_contextrestore_i-arch_contextstore_i =
      let top : m.sp + 2 - 1 ≡ m.sp + 1 = omega arith in
      let next : m.sp + 1 - 1 ≡ m.sp = omega arith in
      let r =
        restore_regs-Restored returning (m.sp + 2) (m.ram (m.sp + 2)) (m.ram (m.sp + 1)) (m.regs 16)
          (enabled m.sreg) (map m.regs isr_pushes)
          (length-map m.regs isr_pushes ∙ length-isr_pushes) (omega arith) small (omega arith)
          (rw (top, next)
            (
              above (m.sp + 2) (omega arith) (omega arith),
              (above (m.sp + 1) (omega arith) (omega arith), frame),
            )) in
      rw to_returning (record {
        regs = λ i h. r.regs i ∙ covers m'.regs m.regs i h;
        sreg = r.sreg;
        sp = r.sp;
        pc = r.pc;
        isr_nesting = r.isr_nesting;
      })
