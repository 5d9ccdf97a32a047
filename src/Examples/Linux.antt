-- ===== src/Examples/Linux.antt =====
-- The Linux port on a C library.
use rados.Base.{ap, sym, subst, ◌+◌, refl, true, false, Option, none, some, arith}
use rados.Port.Linux.Signals.{Ucontext, Process, IsMask}
use rados.Port.Linux.{
  arch_os_init, arch_critical_enter, switch_out, arch_context_switch, raise_sigusr1, arch_task_init,
  arch_sig_switch, copy_context, copy_sigmask, arch_contextstore_i, arch_contextrestore_i,
}
use rados.Port.Linux.Masks.{
  IsPrepared, IsSection, arch_os_init-IsPrepared, IsSection-arch_critical_enter,
}
use rados.Port.Linux.Switch.{GivesCpu, Resumed, switch_out-Resumed}
use rados.Port.Linux.Start.{Started, arch_task_init-Started}
use rados.Port.Linux.Handler.{GoesOn, arch_contextrestore_i-GoesOn}
use rados.Examples.Libc.{blockable, libc, libc-Documented}

abbrev no_context : Ucontext
no_context = record {
  uc_stack = record { ss_sp = 0; ss_size = 0 };
  uc_link = 0;
  gregs = λ i. 0;
  fpregs_mem = 0;
  uc_sigmask = λ i. false;
}

-- Task 1 runs.
abbrev booted : Process
booted = record {
  gregs = λ i. i + 7;
  sigmask = λ i. false;
  task_current = 1;
  isr_nesting = 0;
  ctx = λ t. no_context;
  crit_signals = λ i. false;
  switch_mask = none;
}

booted-IsMask : IsMask blockable booted.sigmask
booted-IsMask i h = absurd (cc)

abbrev or_booted : Option Process → Process
or_booted none = booted
or_booted (some m) = m

abbrev process : Process
process = or_booted (arch_os_init libc (λ i. true) booted)

process-IsPrepared : IsPrepared libc blockable libc-Documented process
process-IsPrepared =
    let (m, e, p, same) =
      arch_os_init-IsPrepared libc blockable libc-Documented (λ i. true) booted booted-IsMask in
    subst (IsPrepared libc blockable libc-Documented) (ap or_booted (sym e)) p

IsSection-arch_critical_enter_example :
    let entered = arch_critical_enter libc (λ i. true) process in
    IsSection libc blockable libc-Documented process entered.0 entered.1
unfolding arch_os_init
IsSection-arch_critical_enter_example =
    IsSection-arch_critical_enter libc blockable libc-Documented process process-IsPrepared
      (λ i h. absurd (ground arith)) refl (λ i. true)

-- Task 1 switches to task 2, which switches back.
abbrev away : Process
away = or_booted (arch_context_switch libc 700 800 2 process)

switch_out-Resumed_example :
    Resumed libc blockable libc-Documented 700 800 process
      (or_booted (arch_context_switch libc 900 950 1 away))
unfolding arch_os_init switch_out arch_context_switch raise_sigusr1 arch_sig_switch copy_context
    copy_sigmask
switch_out-Resumed_example =
    switch_out-Resumed libc blockable libc-Documented 700 800 process away
      (λ i h. absurd (ground arith)) refl (GivesCpu.switches 900 950 refl refl)

-- A signal, and one inside its handler.
abbrev handling : Process
handling = arch_contextstore_i (libc.delivered process) process

arch_contextrestore_i-GoesOn_example : GoesOn libc blockable libc-Documented process (
    libc.sigreturn
      (arch_contextrestore_i libc (libc.delivered process) handling).0
      (arch_contextrestore_i libc (libc.delivered process) handling).1)
unfolding arch_os_init arch_contextstore_i
arch_contextrestore_i-GoesOn_example =
    arch_contextrestore_i-GoesOn libc blockable libc-Documented process handling
      (λ i h. absurd (ground arith)) (omega arith)
      (record { nesting = refl; task_current = refl; ctx = refl })

-- Task 2 is new, and gets the CPU from task 1.
abbrev prepared : Process
prepared = or_booted (arch_task_init libc 700 2 4096 2048 800 900 process)

arch_task_init-Started_example :
    Started libc blockable libc-Documented 700 4096 2048 800 900 process
      (or_booted (arch_context_switch libc 900 950 2 prepared))
unfolding arch_os_init arch_task_init switch_out arch_context_switch raise_sigusr1 arch_sig_switch
    copy_context copy_sigmask
arch_task_init-Started_example =
    arch_task_init-Started libc blockable libc-Documented 700 2 4096 2048 800 900 process refl
      prepared prepared refl refl (GivesCpu.switches 900 950 refl refl)
