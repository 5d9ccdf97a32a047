-- ===== src/Examples/Ports.antt =====
-- The ports: an interrupt and switches of tasks 1 and 2 on the AVR and the MSP430, and a counter in
-- memory.
use rados.Base.{true, false, ◌+◌, ◌≡◌, refl, inl, inr, arith}
use rados.Kernel.{Kernel}
use rados.Kernel.Run.{ok, halted, ◌>>◌}
use rados.Tasks.{arch_task_init}
use rados.Port.Avr.{
  Cpu, set_reg, switch_out, arch_contextstore_i, arch_contextrestore_i, arch_context_switch,
}
use rados.Port.Avr.Interrupt.{
  FrameKept, GoesOn, arch_contextstore_i-Stored, arch_contextrestore_i-arch_contextstore_i,
}
use rados.Port.Avr.Switch.{GivesCpu, Resumed, GivesCpu-arch_context_switch}
use rados.Port.Avr.Start.{Started, GivesCpu-arch_task_init}
use rados.Port.Msp430
use rados.Port.Msp430.Switch.{status, arch_context_switch-Resumed}
use rados.Port.Msp430.Switch
use rados.Port.Msp430.Interrupt.{arch_contextrestore_i-Resumed}
use rados.Port.Msp430.Start.{first_regs, arch_task_init-Resumed}
use rados.Port.Atomic.{os_atomic_inc_load, os_atomic_dec_load}
use rados.Port.Atomic.Cells.{AreBytes}
use rados.Port.Atomic.Laws.{os_atomic_dec_load-os_atomic_inc_load}
use rados.Examples.Kernels.{unqueued}

-- Task 1 runs, 100 bytes below the top of its stack.
abbrev running : Cpu
running = record {
  regs = λ i. i + 7;
  sreg = 130;
  sp = 500;
  pc = 9;
  ram = λ a. 11;
  isr_nesting = 0;
  task_current = 1;
  ctx = λ t. 300;
}

-- The interrupt, after code that changed a register.
abbrev handled : Cpu
handled = set_reg 5 99 (arch_contextstore_i running)

handled-FrameKept : FrameKept running (arch_contextstore_i running) handled
unfolding set_reg
handled-FrameKept = record {
  same_task = (arch_contextstore_i-Stored running (omega arith) (omega arith)).task_current;
  nesting = refl;
  ctx = refl;
  nested_sp = λ e. refl;
  ram = λ a lo hi. refl;
}

arch_contextrestore_i-arch_contextstore_i_example : GoesOn running (arch_contextrestore_i handled)
arch_contextrestore_i-arch_contextstore_i_example =
    arch_contextrestore_i-arch_contextstore_i running handled (omega arith) (omega arith)
      (omega arith) handled-FrameKept

-- Task 2 runs on another stack, after task 1 switched to it.
abbrev second : Cpu
second = record (switch_out running) { task_current = 2; sp = 300 }

GivesCpu-arch_context_switch_example : Resumed running (arch_context_switch 1 second)
unfolding switch_out
GivesCpu-arch_context_switch_example =
    GivesCpu-arch_context_switch running (omega arith) (omega arith) second refl (λ a l h. refl)
      (GivesCpu.switches refl (omega arith) (omega arith) (inl (omega arith)))

-- Task 1 of `arch_task_init`, to which an interrupt returns.
abbrev prepared : Kernel
prepared = arch_task_init 700 1 200 200 800 900 unqueued

abbrev first : Cpu
first = record running { ram = prepared.memory; isr_nesting = 1; ctx = λ t. 364 }

GivesCpu-arch_task_init_example : Started 700 399 800 900 (arch_contextrestore_i first)
unfolding arch_task_init
GivesCpu-arch_task_init_example =
    GivesCpu-arch_task_init 700 1 200 200 800 900 unqueued (omega arith) (omega arith) (omega arith)
      (omega arith) (omega arith) first refl (λ a l h. refl) (GivesCpu.returns refl refl)

-- The same on the MSP430, where task 1 was switched out with interrupts off.
abbrev word_cpu : Msp430.Cpu
word_cpu = record {
  regs = λ i. i + 7;
  sr = 0;
  sp = 500;
  pc = 9;
  ram = λ a. 11;
  isr_nesting = 0;
  task_current = 1;
  ctx = λ t. 300;
  port = 0;
}

abbrev in_isr : Msp430.Cpu
in_isr = record (Msp430.switch_out word_cpu) { isr_nesting = 1 }

arch_context_switch-Resumed_example :
    Switch.Resumed word_cpu.regs 8 11 502 (Msp430.arch_contextrestore_i in_isr)
unfolding Msp430.switch_out Msp430.pushm
arch_context_switch-Resumed_example =
    arch_context_switch-Resumed word_cpu (omega arith) (omega arith) in_isr refl (λ a l h. refl)
      (Switch.GivesCpu.returns refl refl)

-- An interrupt of the MSP430, and one inside it.
abbrev in_handler : Msp430.Cpu
in_handler = Msp430.arch_contextstore_i word_cpu

arch_contextrestore_i-Resumed_example :
    Switch.Resumed word_cpu.regs 11 11 504 (Msp430.arch_contextrestore_i in_handler)
unfolding Msp430.arch_contextstore_i Msp430.pushm
arch_contextrestore_i-Resumed_example =
    arch_contextrestore_i-Resumed word_cpu in_handler (omega arith) (omega arith) (omega arith)
      (record {
        same_task = refl;
        nesting = refl;
        ctx = refl;
        nested_sp = λ e. refl;
        ram = λ a l h. refl;
      })

-- A new task of the MSP430, to which an interrupt returns.
abbrev word_prepared : Kernel
word_prepared = Msp430.set_ctx 1 372 (Msp430.init_stack 700 200 200 800 900 unqueued)

abbrev word_first : Msp430.Cpu
word_first = record word_cpu { ram = word_prepared.memory; isr_nesting = 1; ctx = λ t. 372 }

arch_task_init-Resumed_example :
    (Msp430.arch_task_init true 700 1 200 200 800 900 unqueued
      ≡ halted (record unqueued { dint = true; sched_lock = 1 }))
    × (Msp430.arch_task_init false 700 1 200 200 800 900 unqueued ≡ ok tt word_prepared)
    × Switch.Resumed (first_regs 800 900) 8 700 400 (Msp430.arch_contextrestore_i word_first)
unfolding Msp430.init_stack Msp430.set_ctx
arch_task_init-Resumed_example =
    arch_task_init-Resumed 700 1 200 200 800 900 unqueued (omega arith) (omega arith) refl refl
      word_first refl (λ a l h. refl) (Switch.GivesCpu.returns refl refl)

-- A counter that overflows.
abbrev full : Kernel
full = record unqueued { memory = λ a. 255 }

full-AreBytes : AreBytes full
full-AreBytes a = omega arith

os_atomic_dec_load-os_atomic_inc_load_example :
    (os_atomic_inc_load 2 40 >> os_atomic_dec_load 2 40) full ≡ ok 65535 full
os_atomic_dec_load-os_atomic_inc_load_example =
    os_atomic_dec_load-os_atomic_inc_load 2 40 (inr refl) full full-AreBytes
