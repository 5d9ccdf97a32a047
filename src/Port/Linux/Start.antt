-- ===== src/Port/Linux/Start.antt =====
-- A task that `arch_task_init` of arch/linux/arch_port.c prepared starts in `arch_task_start`.
use rados.Base.{ℕ, ◌+◌, ◌%◌, ◌≤◌, ◌≡◌, refl, ◌∙◌, Bool, some, arith, ◌&&◌, update}
use rados.Port.Linux.Signals.{Ucontext, Process, Library, Documented}
use rados.Port.Linux.{reg_rip, reg_rsp, arch_task_init}
use rados.Port.Linux.Switch.{GivesCpu, GivesCpu-RunsContext}

module _ (L : Library) (blockable : ℕ → Bool) (d : Documented L blockable) where
  -- The process `r` in which a task starts on its own stack, with the arguments of `arch_task_start`
  -- in RDI and RSI, and the signal mask with which its creator ran.
  pub record Started (start stack stack_size proc param : ℕ) (m r : Process) : Type 0 where
    pub rip : r.gregs reg_rip ≡ start
    pub first_argument : r.gregs 8 ≡ proc
    pub second_argument : r.gregs 9 ≡ param
    pub sp_low : stack ≤ r.gregs reg_rsp
    pub sp_high : r.gregs reg_rsp ≤ stack + stack_size
    pub sigmask : (i : ℕ) → r.sigmask i ≡ (blockable i && m.sigmask i)

  module _ (start t stack stack_size proc param : ℕ) (m : Process) (aligned : stack % 8 ≡ 0) where
    -- The context that is made, which the call stores.
    made :
        (from : Ucontext) × (arch_task_init L start t stack stack_size proc param m
          ≡ some (record m { ctx = update m.ctx t from }))
        × (from.gregs 16 ≡ start)
        × (from.gregs 8 ≡ proc)
        × (from.gregs 9 ≡ param)
        × (stack ≤ from.gregs 15)
        × (from.gregs 15 ≤ stack + stack_size)
        × ((i : ℕ) → from.uc_sigmask i ≡ m.sigmask i)
    unfolding arch_task_init
    made =
        let (uc, e, kept, mask) = d.getcontext m in
        let uc1 = record uc {
          uc_stack = record { ss_sp = stack; ss_size = stack_size };
          uc_link = 0;
        } in
        let (entry, first, second, low, high, same) = d.makecontext uc1 start proc param in
        (
          L.makecontext uc1 start proc param,
          rw (aligned, e) refl,
          entry,
          first,
          second,
          low,
          high,
          λ i. same i ∙ mask i,
        )

    -- On Linux, for an aligned stack: where the context that `arch_task_init` stored is kept, the
    -- first switch or return to the task starts `arch_task_start` on its own stack with `proc` and
    -- `param` as its arguments and the signal mask that its creator had.
    pub arch_task_init-Started :
        (m1 m' : Process) {r : Process}
        → arch_task_init L start t stack stack_size proc param m ≡ some m1
        → m'.ctx t ≡ m1.ctx t
        → GivesCpu L t m' r
        → Started start stack stack_size proc param m r
    arch_task_init-Started m1 m' {r} runs saved gives =
        let (from, e, entry, first, second, low, high, same) = made in
        let stored : m1 ≡ record m { ctx = update m.ctx t from } = ground (arith, runs, e) in
        let ran = GivesCpu-RunsContext L blockable d gives in
        let is : m'.ctx t ≡ from = ground (arith, saved, stored) in
        record {
          rip = ground (arith, ran.gregs reg_rip, is, entry);
          first_argument = ground (arith, ran.gregs 8, is, first);
          second_argument = ground (arith, ran.gregs 9, is, second);
          sp_low = ground (arith, ran.gregs reg_rsp, is, low);
          sp_high = ground (arith, ran.gregs reg_rsp, is, high);
          sigmask = λ i. ground (arith, ran.sigmask i, is, same i);
        }
