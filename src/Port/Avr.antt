-- ===== src/Port/Avr.antt =====
-- The assembly of the AVR port: `arch_contextstore_i` and `arch_contextrestore_i` of
-- arch/avr/arch_port.h and `arch_context_switch` of arch/avr/arch_port.c, instruction by instruction,
-- for a CPU without RAMPZ and with a 16 bit program counter.
pub mod Frame
pub mod Interrupt
pub mod Switch
pub mod Start
use rados.Base.{
  ℕ, ◌+◌, ◌-◌, ◌*◌, ◌/◌, ◌%◌, ◌^◌, Bool, List, [], ◌∷◌, ◌==◌, leb, if◌then◌else◌, update,
}

-- The registers, and the variables that the assembly touches. `ctx` is `ctx.sp` of each task.
pub record Cpu : Type 0 where
  pub regs : ℕ → ℕ
  pub sreg : ℕ
  pub sp : ℕ
  pub pc : ℕ
  pub ram : ℕ → ℕ
  pub isr_nesting : ℕ
  pub task_current : ℕ
  pub ctx : ℕ → ℕ

-- A push writes and then decrements, a pop increments and then reads.
unfoldable pub push : ℕ → Cpu → Cpu
push r m = record m { ram = update m.ram m.sp (m.regs r); sp = (m.sp + (2 ^ 16 - 1)) % 2 ^ 16 }

unfoldable pub pop : ℕ → Cpu → Cpu
pop r m = let sp = (m.sp + 1) % 2 ^ 16 in record m { regs = update m.regs r (m.ram sp); sp = sp }

unfoldable pub pushes : List ℕ → Cpu → Cpu
unfolding push
pushes [] m = m
pushes (r ∷ rs) m = pushes rs (push r m)

unfoldable pub pops : List ℕ → Cpu → Cpu
unfolding pop
pops [] m = m
pops (r ∷ rs) m = pops rs (pop r m)

unfoldable pub set_reg : ℕ → ℕ → Cpu → Cpu
set_reg r v m = record m { regs = update m.regs r v }

-- `ret`: the high byte of the address stands below the low byte.
unfoldable pub return_from : Cpu → Cpu
return_from m = record m {
  pc = m.ram ((m.sp + 1) % 2 ^ 16) * 2 ^ 8 + m.ram ((m.sp + 2) % 2 ^ 16);
  sp = (m.sp + 2) % 2 ^ 16;
}

-- The registers that `arch_context_switch` saves behind r16 and SREG, and those that only an
-- interrupt saves.
unfoldable pub switch_pushes : List ℕ
switch_pushes =
    28 ∷ 29 ∷ 0 ∷ 1 ∷ 2 ∷ 3 ∷ 4 ∷ 5 ∷ 6 ∷ 7 ∷ 8 ∷ 9 ∷ 10 ∷ 11 ∷ 12 ∷ 13 ∷ 14 ∷ 15 ∷ 17 ∷ []

unfoldable pub isr_pushes : List ℕ
isr_pushes =
    28 ∷ 29 ∷ 0 ∷ 1 ∷ 2 ∷ 3 ∷ 4 ∷ 5 ∷ 6 ∷ 7 ∷ 8 ∷ 9 ∷ 10 ∷ 11 ∷ 12 ∷ 13 ∷ 14 ∷ 15 ∷ 17 ∷ 18 ∷ 19
    ∷ 20 ∷ 21 ∷ 22 ∷ 23 ∷ 24 ∷ 25 ∷ 26 ∷ 27 ∷ 30 ∷ 31 ∷ []

unfoldable pub restore_pops : List ℕ
restore_pops =
    31 ∷ 30 ∷ 27 ∷ 26 ∷ 25 ∷ 24 ∷ 23 ∷ 22 ∷ 21 ∷ 20 ∷ 19 ∷ 18 ∷ 17 ∷ 15 ∷ 14 ∷ 13 ∷ 12 ∷ 11 ∷ 10 ∷ 9
    ∷ 8 ∷ 7 ∷ 6 ∷ 5 ∷ 4 ∷ 3 ∷ 2 ∷ 1 ∷ 0 ∷ 29 ∷ 28 ∷ []

-- The end that both ways of restoring share, from `pop r31` on. With the I bit set in the saved SREG
-- the return is by `reti`, which sets it again.
unfoldable pub restore_regs : Cpu → Cpu
restore_regs m =
    let m1 = pop 16 (pops restore_pops m) in
    let flags = m1.regs 16 in
    if leb (2 ^ 7) flags
    then record (return_from (pop 16 (record m1 { sreg = flags % 2 ^ 7 }))) {
      sreg = flags % 2 ^ 7 + 2 ^ 7;
    }
    else return_from (pop 16 (record m1 { sreg = flags }))

-- `in r28, __SP_L__` and `in r29, __SP_H__`.
unfoldable pub load_frame_pointer : Cpu → Cpu
unfolding set_reg
load_frame_pointer m = set_reg 29 (m.sp / 2 ^ 8) (set_reg 28 (m.sp % 2 ^ 8) m)

-- `st Z, r28` and `std Z+1, r29`, with the address of the current task in Z.
unfoldable pub store_ctx : Cpu → Cpu
unfolding set_reg
store_ctx m =
    let z = set_reg 31 (m.task_current / 2 ^ 8) (set_reg 30 (m.task_current % 2 ^ 8) m) in
    record z { ctx = update m.ctx m.task_current (m.regs 29 * 2 ^ 8 + m.regs 28) }

unfoldable pub arch_contextstore_i : Cpu → Cpu
arch_contextstore_i m =
    let m1 = push 16 m in
    let m2 = push 16 (set_reg 16 (m1.sreg % 2 ^ 7 + 2 ^ 7) m1) in
    let m3 = pushes isr_pushes m2 in
    let nesting = (m3.isr_nesting + 1) % 2 ^ 8 in
    let m4 = record (set_reg 16 nesting m3) { isr_nesting = nesting } in
    let m5 = set_reg 1 0 (load_frame_pointer m4) in if nesting == 1 then store_ctx m5 else m5

unfoldable pub arch_contextrestore_i : Cpu → Cpu
arch_contextrestore_i m =
    let nesting = (m.isr_nesting + (2 ^ 8 - 1)) % 2 ^ 8 in
    let m1 = record m { isr_nesting = nesting; sreg = m.sreg % 2 ^ 7 } in
    restore_regs (if nesting == 0 then record m1 { sp = m.ctx m.task_current } else m1)

-- `sbiw r28, 12` on the register pair Y.
unfoldable pub skip_frame : ℕ → Cpu → Cpu
unfolding set_reg
skip_frame n m =
    let y = (m.regs 29 * 2 ^ 8 + m.regs 28 + 2 ^ 16 - n) % 2 ^ 16 in
    set_reg 29 (y / 2 ^ 8) (set_reg 28 (y % 2 ^ 8) m)

-- The first half of `arch_context_switch`: what the task that gives the CPU away leaves.
unfoldable pub switch_out : Cpu → Cpu
switch_out m =
    let m1 = push 16 m in
    let m2 = push 16 (set_reg 16 0 m1) in
    store_ctx (skip_frame 12 (load_frame_pointer (pushes switch_pushes m2)))

unfoldable pub arch_context_switch : ℕ → Cpu → Cpu
arch_context_switch new_task m =
    let m1 = switch_out m in
    restore_regs (record m1 { task_current = new_task; sp = m1.ctx new_task })
