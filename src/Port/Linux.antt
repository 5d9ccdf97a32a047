-- ===== src/Port/Linux.antt =====
-- The Linux port: the macros of arch/linux/arch_port.h and the functions of arch/linux/arch_port.c.
-- The C library and the signals of Linux are the record `Library`, an argument of the code that calls
-- them.
pub mod Signals
pub mod Atomic
pub mod Masks
pub mod Switch
pub mod Handler
pub mod Start
pub mod Fls
use rados.Base.{
  ℕ, ◌+◌, ◌-◌, ◌*◌, ◌%◌, ◌^◌, Bool, true, false, not, Option, none, some, ◌==◌, ◌||◌, ltb, leb,
  if◌then◌else◌, update,
}
use rados.Port.Linux.Signals.{
  Sigset, Stack, Ucontext, Process, Library, sig_block, sig_unblock, sig_setmask, sigusr1,
}

-- The places of `gregs` that the port names: `REG_RBP`, `REG_RSP` and `REG_RIP`.
abbrev pub reg_rbp : ℕ
reg_rbp = 10

abbrev pub reg_rsp : ℕ
reg_rsp = 15

abbrev pub reg_rip : ℕ
reg_rip = 16

-- The parts that every way back copies into the context of the signal: the stack, 18 registers of 8
-- bytes, and `__fpregs_mem`, which the kernel does not read. The signal mask is copied apart.
unfoldable pub copy_context : Ucontext → Ucontext → Ucontext
copy_context from uc = record uc {
  uc_stack = from.uc_stack;
  gregs = λ i. if ltb i 18 then from.gregs i else uc.gregs i;
  fpregs_mem = from.fpregs_mem;
}

unfoldable pub copy_sigmask : Ucontext → Ucontext → Ucontext
copy_sigmask from uc = record uc { uc_sigmask = from.uc_sigmask }

-- The handler of SIGUSR1 changes the context that the kernel gave it.
unfoldable pub arch_sig_switch : Process → Ucontext → Ucontext
arch_sig_switch m uc = let from = m.ctx m.task_current in copy_sigmask from (copy_context from uc)

-- `isr_nesting` is an `int` of 32 bits, and compared with its sign.
unfoldable pub arch_contextstore_i : Ucontext → Process → Process
arch_contextstore_i uc m =
    let nesting = (m.isr_nesting + 1) % 2 ^ 32 in
    let m1 = record m { isr_nesting = nesting } in
    if leb nesting 1 || leb (2 ^ 31) nesting
    then record m1 { ctx = update m1.ctx m1.task_current uc }
    else m1

-- A failed assertion and `arch_halt` end the program: `none`.
abbrev pub check : Bool → Option (Unit {0})
check true = some tt
check false = none

-- A context that a call which failed leaves as it was.
abbrev pub or_else : Ucontext → Option Ucontext → Ucontext
or_else old none = old
or_else old (some uc) = uc

infixl 5 ◌>>=◌ ◌>>◌
abbrev pub ◌>>=◌ : {A B : Type 0} → Option A → (A → Option B) → Option B
none >>= f = none
some a >>= f = f a

abbrev pub ◌>>◌ : {A B : Type 0} → Option A → Option B → Option B
m >> n = m >>= λ _. n

module _ (L : Library) where
  -- `sigprocmask` where its result is not looked at: it fails without effect.
  unfoldable pub change_mask : ℕ → Sigset → Process → Process
  change_mask how set m = elim (L.sigprocmask how set m.sigmask) [
    | none ↦ m
    | some mask ↦ record m { sigmask = mask }
  ]

  -- With the variable that takes the old mask, `_critical_state`.
  unfoldable pub arch_critical_enter : Sigset → Process → Sigset × Process
  unfolding change_mask
  arch_critical_enter critical_state m = elim (L.sigprocmask sig_block m.crit_signals m.sigmask) [
    | none ↦ (critical_state, m)
    | some mask ↦ (L.stored m.sigmask critical_state, record m { sigmask = mask })
  ]

  unfoldable pub arch_critical_exit : Sigset → Process → Process
  arch_critical_exit critical_state m = change_mask sig_setmask critical_state m

  unfoldable pub arch_dint : Process → Process
  arch_dint m = change_mask sig_block m.crit_signals m

  unfoldable pub arch_eint : Process → Process
  arch_eint m = change_mask sig_unblock m.crit_signals m

  -- A call of `sigprocmask` without a new set gives the mask only.
  unfoldable pub arch_is_dint : Sigset → Process → Option Bool
  arch_is_dint current_mask m = do
    current_mask ← L.sigfillset current_mask
    some (L.same_bytes (L.stored m.sigmask current_mask) m.crit_signals)

  -- `prev_sigmask` is a variable that was not written yet.
  unfoldable pub arch_os_init : Sigset → Process → Option Process
  arch_os_init prev_sigmask m = do
    filled ← L.sigfillset m.crit_signals
    set ← L.sigdelset filled sigusr1
    tried ← L.sigprocmask sig_setmask set m.sigmask
    let prev_sigmask = L.stored m.sigmask prev_sigmask
    let crit_signals = L.stored tried set
    restored ← L.sigprocmask sig_setmask prev_sigmask tried
    some (record m {
      sigmask = restored;
      crit_signals = crit_signals;
      switch_mask = some crit_signals;
    })

  unfoldable pub arch_contextrestore_i : Ucontext → Process → Ucontext × Process
  arch_contextrestore_i uc m =
      let m1 = arch_dint m in
      let m2 = record m1 { isr_nesting = (m1.isr_nesting + (2 ^ 32 - 1)) % 2 ^ 32 } in
      let from = m2.ctx m2.task_current in
      let uc1 = if m2.isr_nesting == 0 then copy_context from uc else uc in
      (copy_sigmask from uc1, m2)

  -- The context of the current task is saved: `return_address` is `__builtin_return_address(0)` and
  -- `frame_address` is `__builtin_frame_address(1)`.
  unfoldable pub switch_out : ℕ → ℕ → Process → Process
  switch_out return_address frame_address m =
      let t = m.task_current in
      let uc = or_else (m.ctx t) (L.getcontext m) in
      let gregs = update uc.gregs reg_rip return_address in
      let gregs = update gregs reg_rsp ((gregs reg_rsp + 0x20) % 2 ^ 64) in
      let gregs = update gregs reg_rbp frame_address in
      record m { ctx = update m.ctx t (record uc { gregs = gregs }) }

  -- A signal that is not blocked is handled before `raise` returns, and the process goes on from what
  -- the handler left of the context. Without the handler, or with the signal blocked, the switch does
  -- not happen: `none`.
  unfoldable pub raise_sigusr1 : Process → Option Process
  raise_sigusr1 m = elim m.switch_mask [
    | none ↦ none
    | some mask ↦
        if m.sigmask sigusr1 then none else some (L.sigreturn (arch_sig_switch m (L.delivered m)) m)
  ]

  unfoldable pub arch_context_switch : ℕ → ℕ → ℕ → Process → Option Process
  arch_context_switch return_address frame_address new_task m =
      raise_sigusr1 (record (switch_out return_address frame_address m) { task_current = new_task })

  -- `start` is the address of `arch_task_start`.
  unfoldable pub arch_task_init : ℕ → ℕ → ℕ → ℕ → ℕ → ℕ → Process → Option Process
  arch_task_init start t stack_param stack_size proc param m = do
    check (stack_param % 8 == 0)
    uc ← L.getcontext m
    let uc = record uc {
      uc_stack = record { ss_sp = stack_param; ss_size = stack_size };
      uc_link = 0;
    }
    some (record m { ctx = update m.ctx t (L.makecontext uc start proc param) })
