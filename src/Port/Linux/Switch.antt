-- ===== src/Port/Linux/Switch.antt =====
-- How a task of the Linux port goes on behind its `arch_context_switch`, and behind a signal.
use rados.Base.{
  ℕ, ◌+◌, ◌-◌, ◌%◌, ◌^◌, ◌<◌, ◌≡◌, refl, ◌∙◌, Bool, true, false, some, arith, ◌==◌, ◌||◌, ◌&&◌, ltb,
  leb, if◌then◌else◌, update, Option-cases, Bool-cases, inl, inr,
}
use rados.Port.Linux.Signals.{Ucontext, Process, Library, Documented, sigusr1, IsMask}
use rados.Port.Linux.{
  reg_rip, reg_rsp, reg_rbp, copy_context, copy_sigmask, arch_sig_switch, arch_contextrestore_i,
  arch_dint, change_mask, switch_out, raise_sigusr1, arch_context_switch,
}

module _ (L : Library) where
  -- The two ways in which task `t` gets the CPU: a switch by another task, and the return of the
  -- outermost handler from the context `uc`, which is that of the interrupted task.
  pub data GivesCpu (t : ℕ) (m : Process) : Process → Type 0 where
    switches :
        {r : Process}
        → (return_address frame_address : ℕ) → (m.task_current == t) ≡ false
        → arch_context_switch L return_address frame_address t m ≡ some r
        → GivesCpu t m r
    returns :
        (uc : Ucontext)
        → m.task_current ≡ t
        → m.isr_nesting ≡ 1
        → GivesCpu t m
            (L.sigreturn (arch_contextrestore_i L uc m).0 (arch_contextrestore_i L uc m).1)

  module _ (blockable : ℕ → Bool) (d : Documented L blockable) where
    -- The process `r` runs task `t` with the integer registers and the mask of the context `from`.
    pub record RunsContext (t : ℕ) (from : Ucontext) (r : Process) : Type 0 where
      pub gregs : (i : ℕ) → i < 18 → r.gregs i ≡ from.gregs i
      pub sigmask : (i : ℕ) → r.sigmask i ≡ (blockable i && from.uc_sigmask i)
      pub task_current : r.task_current ≡ t

    copied :
        (t : ℕ) (from uc : Ucontext) (m : Process)
        → m.task_current ≡ t
        → RunsContext t from (L.sigreturn (copy_sigmask from (copy_context from uc)) m)
    unfolding copy_sigmask copy_context
    copied t from uc m now =
        let uc1 = copy_sigmask from (copy_context from uc) in
        let (current, nesting, ctx, crit) = d.returned_rest uc1 m in
        record {
          gregs = λ i h. ground (arith, d.returned_gregs uc1 m i);
          sigmask = λ i. d.returned_sigmask uc1 m i;
          task_current = current ∙ now;
        }

    -- The context of another task is as it was.
    switch_out-other :
        (return_address frame_address t : ℕ) (m : Process)
        → (m.task_current == t) ≡ false
        → (switch_out L return_address frame_address m).ctx t ≡ m.ctx t
    unfolding switch_out
    switch_out-other return_address frame_address t m other = ground arith

    raised :
        (m r : Process)
        → raise_sigusr1 L m ≡ some r
        → r ≡ L.sigreturn (arch_sig_switch m (L.delivered m)) m
    unfolding raise_sigusr1
    raised m r e = elim (Option-cases m.switch_mask) [
      | inl away ↦ absurd (cc (rw (raise_sigusr1, away) at e))
      | inr (mask, there) ↦ elim (Bool-cases (m.sigmask sigusr1)) [
        | inl held ↦ absurd (cc (rw (raise_sigusr1, there, held) at e))
        | inr free ↦ ground (arith, rw (raise_sigusr1, there, free) at e)
      ]
    ]

    arch_dint_lem :
        (m : Process)
        → (new : ℕ → Bool) × (arch_dint L m ≡ record m { sigmask = new })
          × ((i : ℕ) → new i ≡ (blockable i && (m.sigmask i || m.crit_signals i)))
    unfolding arch_dint change_mask
    arch_dint_lem m =
        let (new, e, b) = d.block m.crit_signals m.sigmask in
        (new, rw (arch_dint, change_mask, e) refl, b)

    -- What the return of a handler leaves, inside another handler or not.
    pub arch_contextrestore_i_lem :
        (uc : Ucontext) (m : Process)
        → let from = m.ctx m.task_current in
          let nesting = (m.isr_nesting + (2 ^ 32 - 1)) % 2 ^ 32 in
          (new : ℕ → Bool) × (arch_contextrestore_i L uc m ≡ (
            copy_sigmask from (if nesting == 0 then copy_context from uc else uc),
            record m { sigmask = new; isr_nesting = nesting },
          ))
    unfolding arch_contextrestore_i
    arch_contextrestore_i_lem uc m =
        let (new, e, b) = arch_dint_lem m in (new, rw (arch_contextrestore_i, e) refl)

    outermost :
        (t : ℕ) (uc : Ucontext) (m : Process) (new : ℕ → Bool)
        → m.task_current ≡ t
        → m.isr_nesting ≡ 1
        → let from = m.ctx m.task_current in
          let nesting = (m.isr_nesting + (2 ^ 32 - 1)) % 2 ^ 32 in
          RunsContext t (m.ctx t) (
            L.sigreturn
              (copy_sigmask from (if nesting == 0 then copy_context from uc else uc))
              (record m { sigmask = new; isr_nesting = nesting }))
    outermost t uc m new now outer =
        rw (outer, now)
          (copied t (m.ctx t) uc (record m { sigmask = new; isr_nesting = 0; task_current = t })
            refl)

    pub GivesCpu-RunsContext : {t : ℕ} {m r : Process} → GivesCpu t m r → RunsContext t (m.ctx t) r
    unfolding arch_context_switch arch_sig_switch
    GivesCpu-RunsContext {t} {m} {r} (switches return_address frame_address other e) =
        let m1 = record (switch_out L return_address frame_address m) { task_current = t } in
        let same = switch_out-other return_address frame_address t m other in
        rw (raised m1 r e, ← same) (copied t (m1.ctx t) (L.delivered m1) m1 refl)
    GivesCpu-RunsContext {t} {m} (returns uc now outer) =
        let (new, e) = arch_contextrestore_i_lem uc m in rw e (outermost t uc m new now outer)

    -- The process in which a task goes on behind its call of `arch_context_switch`.
    pub record Resumed (return_address frame_address : ℕ) (m r : Process) : Type 0 where
      pub rip : r.gregs reg_rip ≡ return_address
      pub rbp : r.gregs reg_rbp ≡ frame_address
      pub rsp : r.gregs reg_rsp ≡ (m.gregs reg_rsp + 0x20) % 2 ^ 64
      -- R12 to R15 and RBX.
      pub kept : (i : ℕ) → ((leb 4 i && ltb i 8) || i == 11) ≡ true → r.gregs i ≡ m.gregs i
      pub sigmask : (i : ℕ) → r.sigmask i ≡ m.sigmask i
      pub task_current : r.task_current ≡ m.task_current

    -- On Linux, with a C library that does what is documented: a task that called
    -- `arch_context_switch`, and whose saved context is kept, goes on behind the call, at its
    -- return address, with the frame pointer of its caller, its stack pointer plus 0x20, R12 to
    -- R15, RBX and the signal mask that it had, whether another task switches to it or the
    -- outermost handler returns to it.
    pub switch_out-Resumed :
        (return_address frame_address : ℕ) (m m' : Process) {r : Process}
        → IsMask blockable m.sigmask
        → m'.ctx m.task_current ≡ (switch_out L return_address frame_address m).ctx m.task_current
        → GivesCpu m.task_current m' r
        → Resumed return_address frame_address m r
    unfolding switch_out
    switch_out-Resumed return_address frame_address m m' {r} is_mask saved gives =
        let (uc, e, kept, mask) = d.getcontext m in
        let ran = GivesCpu-RunsContext gives in
        let from = (switch_out L return_address frame_address m).ctx m.task_current in
        let at : (i : ℕ) → i < 18 → r.gregs i ≡ from.gregs i =
          λ i h. rw (← saved) (ran.gregs i h) in
        let is : from ≡ record uc {
          gregs =
              update
                (update (update uc.gregs reg_rip return_address) reg_rsp
                  ((uc.gregs reg_rsp + 0x20) % 2 ^ 64))
                reg_rbp frame_address;
        } =
          rw (switch_out, e) (ground arith) in
        record {
          rip = ground (arith, at reg_rip, is);
          rbp = ground (arith, at reg_rbp, is);
          rsp = ground (arith, at reg_rsp, is, kept reg_rsp refl);
          kept = λ i h. ground (arith, at i, is, kept i);
          sigmask = λ i. ground (arith, ran.sigmask i, saved, is, mask i, is_mask i);
          task_current = ran.task_current;
        }
