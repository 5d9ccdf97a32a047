-- ===== src/Port/Linux/Handler.antt =====
-- A signal handler of the Linux port between `arch_contextstore_i` and `arch_contextrestore_i`.
use rados.Base.{
  ℕ, ◌+◌, ◌-◌, ◌%◌, ◌^◌, ◌<◌, ◌≡◌, ◌∙◌, subst, sym, Bool, arith, ◌==◌, ◌&&◌, if◌then◌else◌,
}
use rados.Port.Linux.Signals.{Ucontext, Process, Library, Documented, IsMask}
use rados.Port.Linux.{copy_context, copy_sigmask, arch_contextstore_i, arch_contextrestore_i}
use rados.Port.Linux.Switch.{arch_contextrestore_i_lem}

module _ (L : Library) (blockable : ℕ → Bool) (d : Documented L blockable) where
  -- The process before the return of the handler that was entered in `m`, where no other task has
  -- got the CPU and the variables are as the entry left them.
  pub record IsKept (m m' : Process) : Type 0 where
    pub nesting : m'.isr_nesting ≡ (arch_contextstore_i (L.delivered m) m).isr_nesting
    pub task_current : m'.task_current ≡ m.task_current
    pub ctx : m'.ctx m.task_current ≡ (arch_contextstore_i (L.delivered m) m).ctx m.task_current

  -- The process `r` in which the interrupted code of `m` goes on.
  pub record GoesOn (m r : Process) : Type 0 where
    pub gregs : (i : ℕ) → i < 18 → r.gregs i ≡ m.gregs i
    pub isr_nesting : r.isr_nesting ≡ m.isr_nesting
    pub task_current : r.task_current ≡ m.task_current
    -- A handler inside another one leaves that with the mask saved for the task.
    pub sigmask :
        (i : ℕ)
        → r.sigmask i ≡ (
            if m.isr_nesting == 0
            then m.sigmask i
            else blockable i && (m.ctx m.task_current).uc_sigmask i)

  module _ (m m' : Process) (is_mask : IsMask blockable m.sigmask)
      (depth : m.isr_nesting < 2 ^ 31 - 1) (kept : IsKept m m') where
    abbrev uc : Ucontext
    uc = L.delivered m

    nesting_back : (m'.isr_nesting + (2 ^ 32 - 1)) % 2 ^ 32 ≡ m.isr_nesting
    unfolding arch_contextstore_i
    nesting_back = ground (arith, kept.nesting)

    saved : m'.ctx m'.task_current ≡ (if m.isr_nesting == 0 then uc else m.ctx m.task_current)
    unfolding arch_contextstore_i
    saved = ground (arith, kept.ctx, kept.task_current)

    -- The context that the handler returns to, and the process in which it returns.
    left :
        (from : Ucontext) (new : ℕ → Bool)
        → from ≡ (if m.isr_nesting == 0 then uc else m.ctx m.task_current)
        → GoesOn m (
            L.sigreturn
              (copy_sigmask from (if m.isr_nesting == 0 then copy_context from uc else uc))
              (record m' { sigmask = new; isr_nesting = m.isr_nesting }))
    unfolding copy_sigmask copy_context
    left from new is =
        let u = copy_sigmask from (if m.isr_nesting == 0 then copy_context from uc else uc) in
        let m2 = record m' { sigmask = new; isr_nesting = m.isr_nesting } in
        let (current, nesting, ctx, crit) = d.returned_rest u m2 in
        record {
          gregs = λ i h. ground (arith, d.returned_gregs u m2 i h, d.delivered_gregs m i, is);
          isr_nesting = nesting;
          task_current = current ∙ kept.task_current;
          sigmask = λ i.
              ground (arith, d.returned_sigmask u m2 i, d.delivered_sigmask m i, is, is_mask i);
        }

    -- On Linux, with less than 2^31 - 1 nested handlers: where the nesting counter, the current
    -- task and its context are as `arch_contextstore_i` left them, the return of the handler gives
    -- the interrupted code its 18 integer registers and the counter before the signal. A task also
    -- gets its signal mask back; a handler that was interrupted goes on with the signal mask saved
    -- for the task, not with its own.
    pub arch_contextrestore_i-GoesOn :
        GoesOn m (L.sigreturn (arch_contextrestore_i L uc m').0 (arch_contextrestore_i L uc m').1)
    arch_contextrestore_i-GoesOn =
        let (new, e) = arch_contextrestore_i_lem L blockable d uc m' in
        let h = left (m'.ctx m'.task_current) new saved in
        rw e (
          subst
            (λ (n : ℕ). GoesOn m (
              L.sigreturn
                (copy_sigmask (m'.ctx m'.task_current)
                  (if n == 0 then copy_context (m'.ctx m'.task_current) uc else uc))
                (record m' { sigmask = new; isr_nesting = n })))
            (sym nesting_back) h)
