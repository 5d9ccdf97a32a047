-- ===== src/Port/Msp430/Switch.antt =====
-- How a task of the MSP430 goes on behind its `arch_context_switch`, and behind an interrupt.
use rados.Base.{
  ℕ, ◌+◌, ◌-◌, ◌%◌, ◌^◌, ◌≤◌, ◌<◌, ◌≡◌, refl, ◌∙◌, ap, ◌⊎◌, inr, Bool, true, false, List, ◌∷◌,
  arith, update, ◌==◌, if◌then◌else◌,
}
use rados.Port.Words.{put_words, HoldsWords, put_words_out, put_words-HoldsWords, HoldsWords-same}
use rados.Port.Msp430.{
  Cpu, bis_gie, bic_gie, bic_power, push, popm, on_top, return_from, arch_contextrestore_i,
  switch_out, arch_context_switch,
}
use rados.Port.Msp430.Frame.{from_top, pushm_lem, Popped, popm-Popped}

-- The CPU `m'` in which a task goes on: R4 to R15 are the saved ones.
pub record Resumed (saved : ℕ → ℕ) (flags ret top : ℕ) (m' : Cpu) : Type 0 where
  pub regs : (i : ℕ) → 4 ≤ i → i ≤ 15 → m'.regs i ≡ saved i
  pub sr : m'.sr ≡ flags
  pub pc : m'.pc ≡ ret
  pub sp : m'.sp ≡ top

-- The end that all ways share: `m0` has the registers below `top`, where the status stands.
module _ (saved : ℕ → ℕ) (top : ℕ) (m0 : Cpu) (below : m0.sp + 24 ≡ top) (small : top + 4 < 2 ^ 16)
    (frame : HoldsWords m0.ram (top - 2) (from_top saved 15 12)) where
  popped : Popped 12 15 top saved m0 (popm 12 15 m0)
  popped = popm-Popped 12 15 top saved m0 (omega arith) below (omega arith) frame

  pub return_once :
      (f : ℕ → ℕ)
      → Resumed saved
          (f (m0.ram top))
          (m0.ram (top + 2))
          (top + 4)
          (return_from (on_top f (popm 12 15 m0)))
  unfolding return_from on_top
  return_once f =
      let p = popped in
      let e2 : (top + 2) % 2 ^ 16 ≡ top + 2 = omega arith in
      let e4 : (top + 4) % 2 ^ 16 ≡ top + 4 = omega arith in
      record {
        regs = λ i lo hi. ground (arith, p.regs i);
        sr = rw (p.sp, p.ram) (ground arith);
        pc = rw (p.sp, p.ram, e2) (ground arith);
        sp = rw (p.sp, e4) refl;
      }

  pub return_twice :
      (f g : ℕ → ℕ)
      → Resumed saved
          (g (f (m0.ram top)))
          (m0.ram (top + 2))
          (top + 4)
          (return_from (on_top g (on_top f (popm 12 15 m0))))
  unfolding return_from on_top
  return_twice f g =
      let p = popped in
      let e2 : (top + 2) % 2 ^ 16 ≡ top + 2 = omega arith in
      let e4 : (top + 4) % 2 ^ 16 ≡ top + 4 = omega arith in
      record {
        regs = λ i lo hi. ground (arith, p.regs i);
        sr = rw (p.sp, p.ram) (ground arith);
        pc = rw (p.sp, p.ram, e2) (ground arith);
        sp = rw (p.sp, e4) refl;
      }

-- The words that a task in `arch_context_switch` leaves.
abbrev pub switch_frame : Cpu → List ℕ
switch_frame m = m.sr ∷ from_top m.regs 15 12

pub record Left (m m1 : Cpu) : Type 0 where
  pub ram : m1.ram ≡ put_words (m.sp - 2) (switch_frame m) m.ram
  pub ctx : m1.ctx ≡ update m.ctx m.task_current (m.sp - 26)

pub switch_out-Left : (m : Cpu) → 28 ≤ m.sp → m.sp < 2 ^ 16 → Left m (switch_out m)
unfolding switch_out push put_words
switch_out-Left m room small =
    let e1 : (m.sp + (2 ^ 16 - 2)) % 2 ^ 16 ≡ m.sp - 2 = omega arith in
    let e2 : m.sp - 2 - 24 ≡ m.sp - 26 = omega arith in
    let m1 = record m { ram = update m.ram (m.sp - 2) m.sr; sp = m.sp - 2 } in
    rw (e1, pushm_lem 12 15 m1 (omega arith) (omega arith), e2) (record { ram = refl; ctx = refl })

-- The two ways in which task `t`, whose frame lies from `lo` to below `hi`, gets the CPU; the flag
-- tells the return of an interrupt from a switch by another task, which has its stack elsewhere.
pub data GivesCpu (t lo hi : ℕ) (m : Cpu) : Bool → Cpu → Type 0 where
  switches :
      (m.task_current == t) ≡ false
      → 28 ≤ m.sp
      → m.sp < 2 ^ 16
      → (m.sp ≤ lo) ⊎ (hi ≤ m.sp - 26)
      → GivesCpu t lo hi m false (arch_context_switch t m)
  returns :
      m.task_current ≡ t → m.isr_nesting ≡ 1 → GivesCpu t lo hi m true (arch_contextrestore_i m)

-- The status that a task goes on with.
abbrev pub status : Bool → ℕ → ℕ
status isr sr = if isr then bis_gie (bic_power sr) else bic_power sr

module _ (m : Cpu) (room : 28 ≤ m.sp) (small : m.sp + 2 < 2 ^ 16) where
  frame :
      (ram : ℕ → ℕ)
      → ((a : ℕ) → m.sp - 26 ≤ a → a < m.sp + 2 → ram a ≡ (switch_out m).ram a)
      → HoldsWords ram (m.sp - 2) (switch_frame m) × (ram m.sp ≡ m.ram m.sp)
  frame ram kept =
      let s = switch_out-Left m room (omega arith) in
      let same = λ (a : ℕ) (l : m.sp - 26 ≤ a) (h : a < m.sp + 2).
        kept a l h ∙ ap (λ (ram : ℕ → ℕ). ram a) s.ram in
      (
        HoldsWords-same (put_words (m.sp - 2) (switch_frame m) m.ram) ram (m.sp - 2)
            (switch_frame m) (omega arith) (λ a l h. same a (omega arith) (omega arith))
            (put_words-HoldsWords (m.sp - 2) (switch_frame m) m.ram (omega arith)),
        same m.sp (omega arith) (omega arith)
            ∙ put_words_out (m.sp - 2) (switch_frame m) m.ram m.sp (omega arith)
                (inr (omega arith)),
      )

  -- The memory and the stack pointer from which the registers are popped.
  popped_back :
      (m0 : Cpu)
      → m0.sp ≡ m.sp - 26
      → ((a : ℕ) → m.sp - 26 ≤ a → a < m.sp + 2 → m0.ram a ≡ (switch_out m).ram a)
      → Resumed m.regs
          (bic_power m.sr)
          (m.ram m.sp)
          (m.sp + 2)
          (return_from (on_top bic_power (popm 12 15 m0)))
        × Resumed m.regs
            (bis_gie (bic_power m.sr))
            (m.ram m.sp)
            (m.sp + 2)
            (return_from (on_top bis_gie (on_top bic_power (popm 12 15 m0))))
  popped_back m0 sp kept =
      let (h, ret) = frame m0.ram kept in
      let a1 : m0.ram (m.sp - 2) ≡ m.sr = h.0 in
      let a2 : m0.ram (m.sp - 2 + 2) ≡ m.ram m.sp =
        rw (let e : m.sp - 2 + 2 ≡ m.sp = omega arith in e) ret in
      let e4 : m.sp - 2 + 4 ≡ m.sp + 2 = omega arith in
      let once = return_once m.regs (m.sp - 2) m0 (omega (arith, sp)) (omega arith) h.1 bic_power in
      let twice =
        return_twice m.regs (m.sp - 2) m0 (omega (arith, sp)) (omega arith) h.1 bic_power bis_gie in
      (rw (a1, a2, e4) at once, rw (a1, a2, e4) at twice)

  -- On the MSP430, with 28 bytes of stack: a task that called `arch_context_switch`, and whose
  -- frame and saved stack pointer are kept, goes on behind the call with R4 to R15 and the stack
  -- pointer that it had. Where another task switches to it its status is the saved one without the
  -- low power bits; where the outermost interrupt returns to it the status also has GIE set, even
  -- where the task had interrupts off.
  pub arch_context_switch-Resumed :
      (m' : Cpu) {isr : Bool} {r : Cpu}
      → m'.ctx m.task_current ≡ (switch_out m).ctx m.task_current
      → ((a : ℕ) → m.sp - 26 ≤ a → a < m.sp + 2 → m'.ram a ≡ (switch_out m).ram a)
      → GivesCpu m.task_current (m.sp - 26) (m.sp + 2) m' isr r
      → Resumed m.regs (status isr m.sr) (m.ram m.sp) (m.sp + 2) r
  unfolding arch_context_switch arch_contextrestore_i
  arch_context_switch-Resumed m' ctx kept (switches other room' small' apart) =
      let s = switch_out-Left m room (omega arith) in
      let s' = switch_out-Left m' room' small' in
      let m1 = switch_out m' in
      let c : (switch_out m).ctx m.task_current ≡ m.sp - 26 = rw s.ctx (ground arith) in
      let c' : m1.ctx m.task_current ≡ m'.ctx m.task_current = rw s'.ctx (ground arith) in
      (popped_back (record m1 { task_current = m.task_current; sp = m1.ctx m.task_current })
        (c' ∙ (ctx ∙ c))
        (λ a l h.
          ap (λ (ram : ℕ → ℕ). ram a) s'.ram
          ∙ (put_words_out (m'.sp - 2) (switch_frame m') m'.ram a (omega arith) (ground arith)
              ∙ kept a l h))).0
  arch_context_switch-Resumed m' ctx kept (returns now outer) =
      let s = switch_out-Left m room (omega arith) in
      let c : (switch_out m).ctx m.task_current ≡ m.sp - 26 = rw s.ctx (ground arith) in
      rw (outer, now)
        (popped_back
          (record m' {
            isr_nesting = 0;
            sr = bic_gie m'.sr;
            sp = m'.ctx m.task_current;
            task_current = m.task_current;
          })
          (ctx ∙ c) kept).1
