-- ===== src/Port/Msp430.antt =====
-- The MSP430 port: `arch_contextstore_i` and `arch_contextrestore_i` of arch/msp430/arch_port.h,
-- the critical sections there, `arch_context_switch` and `arch_task_init` of arch/msp430/arch_port.c.
pub mod Frame
pub mod Switch
pub mod Interrupt
pub mod Start
use rados.Base.{
  ℕ, zero, suc, ◌+◌, ◌-◌, ◌*◌, ◌/◌, ◌%◌, ◌^◌, Bool, false, not, List, [], ◌∷◌, ◌==◌, ◌||◌,
  if◌then◌else◌, update,
}
use rados.Kernel.{Kernel, Context, task_entry}
use rados.Kernel.Run.{M, ◌>>=◌, ◌>>◌, modify, os_assert, set_task}
use rados.Port.Words.{put_words}

-- R1 is the stack pointer and R2 the status register. `ctx` is `ctx.sp` of each task, and `port` the
-- byte at 0x0a20.
pub record Cpu : Type 0 where
  pub regs : ℕ → ℕ
  pub sr : ℕ
  pub sp : ℕ
  pub pc : ℕ
  pub ram : ℕ → ℕ
  pub isr_nesting : ℕ
  pub task_current : ℕ
  pub ctx : ℕ → ℕ
  pub port : ℕ

-- `GIE`, bit 3 of the status register; `SCG1 + SCG0 + OSCOFF + CPUOFF`, its bits 4 to 7.
abbrev pub gie : ℕ
gie = 8

abbrev pub bis_gie : ℕ → ℕ
bis_gie sr = sr / 16 * 16 + gie + sr % 8

abbrev pub bic_gie : ℕ → ℕ
bic_gie sr = sr / 16 * 16 + sr % 8

abbrev pub bic_power : ℕ → ℕ
bic_power sr = sr / 2 ^ 8 * 2 ^ 8 + sr % 16

-- `dint` and `eint`, and the macros of critical sections: the whole status is saved and written back.
unfoldable pub arch_dint : Cpu → Cpu
arch_dint m = record m { sr = bic_gie m.sr }

unfoldable pub arch_eint : Cpu → Cpu
arch_eint m = record m { sr = bis_gie m.sr }

unfoldable pub arch_is_dint : Cpu → Bool
arch_is_dint m = not (m.sr / 8 % 2 == 1)

unfoldable pub arch_critical_enter : Cpu → ℕ × Cpu
arch_critical_enter m = (m.sr, arch_dint m)

unfoldable pub arch_critical_exit : ℕ → Cpu → Cpu
arch_critical_exit critical_state m = record m { sr = critical_state }

-- A push decrements and then writes, a pop reads and then increments.
unfoldable pub push : ℕ → Cpu → Cpu
push v m = let sp = (m.sp + (2 ^ 16 - 2)) % 2 ^ 16 in record m { ram = update m.ram sp v; sp = sp }

-- `pushm n,r`: R`r` first, and `n` registers downwards.
unfoldable pub pushm : ℕ → ℕ → Cpu → Cpu
unfolding push
pushm zero r m = m
pushm (suc n) r m = pushm n (r - 1) (push (m.regs r) m)

-- `popm n,r`: R`r` last.
unfoldable pub popm : ℕ → ℕ → Cpu → Cpu
popm zero r m = m
popm (suc n) r m =
    let m1 = popm n (r - 1) m in
    record m1 { regs = update m1.regs r (m1.ram m1.sp); sp = (m1.sp + 2) % 2 ^ 16 }

-- An operation on the word at the top of the stack.
unfoldable pub on_top : (ℕ → ℕ) → Cpu → Cpu
on_top f m = record m { ram = update m.ram m.sp (f (m.ram m.sp)) }

-- `reti`, and `pop r2` with `ret`, take the status and then the return address.
unfoldable pub return_from : Cpu → Cpu
return_from m = record m {
  sr = m.ram m.sp;
  pc = m.ram ((m.sp + 2) % 2 ^ 16);
  sp = (m.sp + 4) % 2 ^ 16;
}

unfoldable pub arch_contextstore_i : Cpu → Cpu
arch_contextstore_i m =
    let nesting = (m.isr_nesting + 1) % 2 ^ 16 in
    let m1 = pushm 12 15 (record m { isr_nesting = nesting }) in
    if nesting == 1
    then record m1 {
      regs = update m1.regs 15 m1.task_current;
      ctx = update m1.ctx m1.task_current m1.sp;
    }
    else m1

unfoldable pub arch_contextrestore_i : Cpu → Cpu
arch_contextrestore_i m =
    let nesting = (m.isr_nesting + (2 ^ 16 - 1)) % 2 ^ 16 in
    let m1 = record m { isr_nesting = nesting; sr = bic_gie m.sr } in
    let m2 =
      if nesting == 0
      then on_top bic_power (popm 12 15 (record m1 { sp = m1.ctx m1.task_current }))
      else popm 12 15 (record m1 { port = 0x80 }) in
    return_from (on_top bis_gie m2)

unfoldable pub switch_out : Cpu → Cpu
switch_out m =
    let m1 = pushm 12 15 (push m.sr m) in
    record m1 { regs = update m1.regs 4 m1.task_current; ctx = update m1.ctx m1.task_current m1.sp }

unfoldable pub arch_context_switch : ℕ → Cpu → Cpu
arch_context_switch new_task m =
    let m1 = switch_out m in
    return_from
      (on_top bic_power (popm 12 15 (record m1 { task_current = new_task; sp = m1.ctx new_task })))

-- The words of the frame from the top down, with the casts to `uint16_t`; `start` is the address of
-- `arch_task_start`.
unfoldable pub task_frame : ℕ → ℕ → ℕ → List ℕ
task_frame start proc param =
    start % 2 ^ 16
    ∷ gie
    ∷ proc % 2 ^ 16
    ∷ param % 2 ^ 16
    ∷ 0
    ∷ 0
    ∷ 0
    ∷ 0
    ∷ 0
    ∷ 0
    ∷ 0
    ∷ 0
    ∷ 0
    ∷ 0
    ∷ []

-- The writes of `arch_task_init` behind its assertions, to a memory of words.
unfoldable pub init_stack : ℕ → ℕ → ℕ → ℕ → ℕ → Kernel → Kernel
init_stack start stack_param stack_size proc param k = record k {
  memory = put_words (stack_param + stack_size - 2) (task_frame start proc param) k.memory;
}

unfoldable pub set_ctx : ℕ → ℕ → Kernel → Kernel
set_ctx t sp k = set_task t (record (k.tasks t) { ctx = task_entry sp }) k

-- OS_ASSERT, which does nothing in a build without OS_CONFIG_APICHECK.
unfoldable pub checked_assert : Bool → Bool → M (Unit {0})
checked_assert apicheck condition = os_assert (not apicheck || condition)

-- The first assertion negates a string literal, which is not NULL.
unfoldable pub arch_task_init : Bool → ℕ → ℕ → ℕ → ℕ → ℕ → ℕ → M (Unit {0})
arch_task_init apicheck start t stack_param stack_size proc param = do
  checked_assert apicheck false
  checked_assert apicheck (stack_param % 2 ^ 16 % 2 == 0)
  modify (init_stack start stack_param stack_size proc param)
  modify (set_ctx t ((stack_param + stack_size - 28) % 2 ^ 16))
