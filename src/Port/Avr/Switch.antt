-- ===== src/Port/Avr/Switch.antt =====
-- A task that calls `arch_context_switch` goes on later behind its call.
use rados.Base.{
  ℕ, ◌+◌, ◌-◌, ◌*◌, ◌/◌, ◌%◌, ◌^◌, ◌≤◌, ◌<◌, ◌≡◌, refl, ◌∙◌, ap, ◌⊎◌, inr, true, false, List, [],
  ◌∷◌, ◌++◌, map, arith, length, length-append, update, ◌==◌, if◌then◌else◌, mem,
}
use rados.Tasks.{push_down}
use rados.Port.Stack.{
  Holds, push_down-Holds, push_down_out, Holds-same, Holds-append, bytes_at, bytes_at-Holds,
}
use rados.Port.Avr.{
  Cpu, push, pushes, set_reg, isr_pushes, switch_pushes, load_frame_pointer, store_ctx, skip_frame,
  switch_out, arch_context_switch, arch_contextrestore_i, restore_regs,
}
use rados.Port.Avr.Frame.{pushes_lem, loaded, loaded-append, length-map, restore_regs-Restored}

-- The bytes that a task in `arch_context_switch` leaves: SREG is a dummy with the I bit clear.
abbrev pub switch_frame : Cpu → List ℕ
switch_frame m = m.regs 16 ∷ 0 ∷ map m.regs switch_pushes

not_16 : (regs : ℕ → ℕ) (v : ℕ) → map (update regs 16 v) switch_pushes ≡ map regs switch_pushes
unfolding switch_pushes
not_16 regs v = refl

length-switch_pushes : length switch_pushes ≡ 19
unfolding switch_pushes
length-switch_pushes = refl

-- The CPU `m1` after the first half of `arch_context_switch` in `m`.
pub record Left (m m1 : Cpu) : Type 0 where
  pub ram : m1.ram ≡ push_down m.sp (switch_frame m) m.ram
  pub ctx : m1.ctx ≡ update m.ctx m.task_current ((m.sp + 2 ^ 16 - 33) % 2 ^ 16)

module _ (m : Cpu) (room : 21 ≤ m.sp) (small : m.sp < 2 ^ 16) where
  pushed : pushes switch_pushes (push 16 (set_reg 16 0 (push 16 m))) ≡ record m {
    regs = update m.regs 16 0;
    ram = push_down m.sp (switch_frame m) m.ram;
    sp = m.sp - 21;
  }
  unfolding push set_reg push_down
  pushed =
      let e1 : (m.sp + (2 ^ 16 - 1)) % 2 ^ 16 ≡ m.sp - 1 = omega arith in
      let e2 : (m.sp - 1 + (2 ^ 16 - 1)) % 2 ^ 16 ≡ m.sp - 2 = omega arith in
      let e3 : m.sp - 2 - 19 ≡ m.sp - 21 = omega arith in
      let e4 : m.sp - 1 - 1 ≡ m.sp - 2 = omega arith in
      let m2 = record m {
        regs = update m.regs 16 0;
        ram = update (update m.ram m.sp (m.regs 16)) (m.sp - 1) 0;
        sp = m.sp - 2;
      } in
      rw
        (
          e1,
          e2,
          pushes_lem switch_pushes m2 (omega (arith, length-switch_pushes)) (omega arith),
          not_16,
          length-switch_pushes,
          e3,
          ← e4,
        )
        refl

  pub switch_out-Left : Left m (switch_out m)
  unfolding switch_out push set_reg load_frame_pointer store_ctx skip_frame
  switch_out-Left = rw pushed (record {
    ram = refl;
    ctx = ap (update m.ctx m.task_current) (
        let e : ((m.sp - 21) / 2 ^ 8 * 2 ^ 8 + (m.sp - 21) % 2 ^ 8 + 2 ^ 16 - 12)
                % 2 ^ 16
                / 2 ^ 8
                * 2 ^ 8
              + ((m.sp - 21) / 2 ^ 8 * 2 ^ 8 + (m.sp - 21) % 2 ^ 8 + 2 ^ 16 - 12) % 2 ^ 16 % 2 ^ 8
            ≡ (m.sp + 2 ^ 16 - 33) % 2 ^ 16 =
          omega arith in
        e);
  })

-- The two ways in which task `t`, whose frame lies above `lo` and up to `hi`, gets the CPU: another
-- task, which has its stack elsewhere, switches to it, or the outermost interrupt returns to it.
pub data GivesCpu (t lo hi : ℕ) (m : Cpu) : Cpu → Type 0 where
  switches :
      (m.task_current == t) ≡ false
      → 21 ≤ m.sp
      → m.sp < 2 ^ 16
      → (m.sp ≤ lo) ⊎ (hi ≤ m.sp - 21)
      → GivesCpu t lo hi m (arch_context_switch t m)
  returns : m.task_current ≡ t → m.isr_nesting ≡ 1 → GivesCpu t lo hi m (arch_contextrestore_i m)

size : (m : Cpu) → length (switch_frame m) ≡ 21
size m = omega (arith, length-map m.regs switch_pushes, length-switch_pushes)

-- In both, the registers are restored from the frame.
pub GivesCpu-restore_regs :
    {t lo hi : ℕ} {m r : Cpu}
    → GivesCpu t lo hi m r
    → (m0 : Cpu) × (r ≡ restore_regs m0)
      × (m0.sp ≡ m.ctx t)
      × ((a : ℕ) → lo < a → a ≤ hi → m0.ram a ≡ m.ram a)
unfolding arch_context_switch arch_contextrestore_i
GivesCpu-restore_regs {t} {lo} {hi} {m} (switches other room small apart) =
    let s = switch_out-Left m room small in
    let m1 = switch_out m in
    (
      record m1 { task_current = t; sp = m1.ctx t },
      refl,
      ground (arith, ap (λ (ctx : ℕ → ℕ). ctx t) s.ctx),
      λ a l h.
          ap (λ (ram : ℕ → ℕ). ram a) s.ram
          ∙ push_down_out m.sp (switch_frame m) m.ram a (omega (arith, size m))
              (ground (arith, size m)),
    )
GivesCpu-restore_regs {t} {lo} {hi} {m} (returns now outer) = (
  record m { isr_nesting = 0; sreg = m.sreg % 2 ^ 7; sp = m.ctx t },
  rw (outer, now) refl,
  refl,
  λ a l h. refl,
)

-- The task that called `arch_context_switch` in `m` has come back from it in `m'`.
pub record Resumed (m m' : Cpu) : Type 0 where
  pub regs : (i : ℕ) → mem i (16 ∷ switch_pushes) ≡ true → m'.regs i ≡ m.regs i
  -- Interrupts are off, as they were.
  pub sreg : m'.sreg ≡ 0
  pub sp : m'.sp ≡ m.sp + 2
  pub pc : m'.pc ≡ m.ram (m.sp + 1) * 2 ^ 8 + m.ram (m.sp + 2)

isr_only : List ℕ
isr_only = 18 ∷ 19 ∷ 20 ∷ 21 ∷ 22 ∷ 23 ∷ 24 ∷ 25 ∷ 26 ∷ 27 ∷ 30 ∷ 31 ∷ []

behind : isr_pushes ≡ switch_pushes ++ isr_only
unfolding isr_pushes switch_pushes isr_only
behind = refl

covers :
    (regs saved : ℕ → ℕ) (cs : List ℕ) (i : ℕ)
    → mem i (16 ∷ switch_pushes) ≡ true
    → (if i == 16 then saved 16 else loaded isr_pushes (map saved switch_pushes ++ cs) regs i)
      ≡ saved i
covers regs saved cs i h =
    rw behind (ground (arith, loaded-append switch_pushes isr_only saved cs regs i))

module _ (m : Cpu) (room : 33 ≤ m.sp) (small : m.sp + 2 < 2 ^ 16) where
  frame :
      (ram : ℕ → ℕ)
      → ((a : ℕ) → m.sp - 33 < a → a ≤ m.sp + 2 → ram a ≡ (switch_out m).ram a)
      → Holds ram m.sp (switch_frame m ++ bytes_at ram (m.sp - 21) 12)
        × (ram (m.sp + 1) ≡ m.ram (m.sp + 1))
        × (ram (m.sp + 2) ≡ m.ram (m.sp + 2))
  frame ram kept =
      let s = switch_out-Left m (omega arith) (omega arith) in
      let same = λ (a : ℕ) (l : m.sp - 33 < a) (h : a ≤ m.sp + 2).
        kept a l h ∙ ap (λ (ram : ℕ → ℕ). ram a) s.ram in
      let out = λ (a : ℕ) (l : m.sp < a) (h : a ≤ m.sp + 2).
        same a (omega arith) h
        ∙ push_down_out m.sp (switch_frame m) m.ram a (omega (arith, size m)) (inr l) in
      (
        Holds-append ram m.sp (switch_frame m) _
            (Holds-same (push_down m.sp (switch_frame m) m.ram) ram m.sp (switch_frame m)
              (omega (arith, size m)) (λ a l h. same a (omega (arith, size m)) (omega arith))
              (push_down-Holds m.sp (switch_frame m) m.ram (omega (arith, size m))))
            (rw (size m) (bytes_at-Holds ram (m.sp - 21) 12).0),
        out (m.sp + 1) (omega arith) (omega arith),
        out (m.sp + 2) (omega arith) (omega arith),
      )

  -- On the AVR, with 33 bytes of stack: a task that called `arch_context_switch`, and whose frame
  -- and saved stack pointer are kept, goes on behind the call with interrupts off, its stack
  -- pointer and every register that the call saves, whether another task switches to it or the
  -- outermost interrupt returns to it.
  pub GivesCpu-arch_context_switch :
      (m' : Cpu) {r : Cpu}
      → m'.ctx m.task_current ≡ (switch_out m).ctx m.task_current
      → ((a : ℕ) → m.sp - 33 < a → a ≤ m.sp + 2 → m'.ram a ≡ (switch_out m).ram a)
      → GivesCpu m.task_current (m.sp - 33) (m.sp + 2) m' r
      → Resumed m r
  GivesCpu-arch_context_switch m' ctx kept gives =
      let s = switch_out-Left m (omega arith) (omega arith) in
      let (m0, e, sp, same) = GivesCpu-restore_regs gives in
      let (h, h1, h2) = frame m0.ram (λ a l h. same a l h ∙ kept a l h) in
      let rest = bytes_at m0.ram (m.sp - 21) 12 in
      let start : m0.sp ≡ m.sp - 33 =
        let c : (switch_out m).ctx m.task_current ≡ (m.sp + 2 ^ 16 - 33) % 2 ^ 16 =
          rw s.ctx (ground arith) in
        omega (arith, sp, ctx, c) in
      let top : m.sp + 2 - 1 ≡ m.sp + 1 = omega arith in
      let next : m.sp + 1 - 1 ≡ m.sp = omega arith in
      let back =
        restore_regs-Restored m0 (m.sp + 2) (m.ram (m.sp + 2)) (m.ram (m.sp + 1)) (m.regs 16) 0
          (map m.regs switch_pushes ++ rest)
          (omega (
            arith,
            length-append (map m.regs switch_pushes) rest,
            length-map m.regs switch_pushes,
            length-switch_pushes,
            (bytes_at-Holds m0.ram (m.sp - 21) 12).1,
          ))
          (omega arith) small (omega arith) (rw (top, next) (h2, (h1, h))) in
      rw e (record {
        regs = λ i a. back.regs i ∙ covers m0.regs m.regs rest i a;
        sreg = back.sreg;
        sp = back.sp;
        pc = back.pc;
      })
