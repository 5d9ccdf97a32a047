-- ===== src/Lib.antt =====
-- RadOS, a preemptive real-time kernel for small controllers: a model of its scheduler, its timers, its
-- blocking objects, the lists and bit masks they stand on, and its ports to AVR, MSP430 and Linux.
--
-- The parts, from the bottom up:
--
--   * Ring (source/list.h): circular lists with a header, as a heap of links (`Links`), one function for
--     each function of the file. Ring.Seg says which list a ring stands for, Ring.Insert, Ring.Remove
--     and Ring.Prio what each function does to it.
--   * Bitmask (arch/avr/arch_port.h, arch/avr/arch_port.c): `arch_bitmask_set`, `arch_bitmask_clear` and
--     the table of `arch_bitmask_fls`, on 8 bits. The MSP430 port has the same text.
--   * Kernel: the structures of source/os_sched.h, os_timer.h, os_sem.h and os_mtx.h and the globals of
--     all modules as one record `Kernel`. Objects have addresses, numbers; a task queue is the ready
--     queue or the field of an object, and its address is computed from the object's. Kernel.Run is the
--     monad of kernel code. A failed OS_ASSERT is `halted`, a use of NULL or of a list that was never
--     initialised is `fault`, and a context switch is `switched`: the code that called it goes on later,
--     from the `Context` that it left in its task.
--   * TaskQueue (source/os_sched.c): the queue with a bucket for each priority and a mask of the buckets in
--     use. A bucket is a list, which the theorems on rings justify. TaskQueue.Valid is the invariant.
--     TaskQueue.Arrival and TaskQueue.Serve compare a queue with the plain list of arrivals.
--   * Sched (source/os_sched.c, source/os_private.h): `os_schedule`, the states of tasks, the scheduler
--     lock, `os_yield`, `os_init`, `os_start`. Sched.Valid is the invariant of the kernel.
--   * Timer (source/os_timer.c): the sorted list of timers, which are created, destroyed, counted down and
--     called. What a timer's function does is a parameter. Timer.Valid is the invariant of the list, Timer.Stop
--     about a timer that is destroyed; Timer.Quiet, Step, Trigger, Restart, Fire and Tick follow the two
--     loops of `timer_trigger` up to the tick.
--   * Block (source/os_sched.c, source/os_private.h): what the blocking objects share, which is to suspend
--     the current task (Block.Switch), to guard it by a timer (Block.Guard), to wake a task (Block.Wake,
--     Block.Ready) and to wake all (Block.Drain).
--   * Sem, Waitqueue, Mtx (source/os_sem.c, source/os_waitqueue.c, source/os_mtx.c): the objects.
--     Mtx.Handover is about the way of a mutex from `os_mtx_unlock` to the task that waits for it.
--   * Tasks (source/os_sched.c, arch/avr/arch_port.c): creation, join and exit of tasks, the stack frame of
--     a new task, how a task that is given the CPU goes on, and how an interrupt enters and leaves.
--     Tasks.Create is about a new task, Tasks.Resume about the way from a signal to the return of the wait,
--     Tasks.JoinWait, Join and JoinExit about `os_task_join` and the end of the task that it joins.
--   * Port.Avr (arch/avr/arch_port.h, arch/avr/arch_port.c): the assembly of `arch_contextstore_i`,
--     `arch_contextrestore_i` and `arch_context_switch`, instruction by instruction, on a record of the
--     registers, the memory and the variables that it touches. Port.Avr.Frame is about the saved registers,
--     Interrupt, Switch and Start about the three ways of saving a task and coming back to it.
--   * Port.Msp430 (arch/msp430/arch_port.h, arch/msp430/arch_port.c): the same for the MSP430, and its
--     `arch_task_init`. Port.Stack and Port.Words are about bytes and words on a stack.
--   * Port.Linux (arch/linux/arch_port.h, arch/linux/arch_port.c): tasks as contexts of the C library, and
--     interrupts as signals. What the port calls is the record `Library` of Port.Linux.Signals, and
--     `Documented` the laws that its documentation gives; Examples.Libc is a library that meets them.
--     Port.Linux.Masks is about critical sections, Switch, Handler and Start about the ways of a task, Fls
--     about `arch_bitmask_fls`, Atomic has the atomic accesses.
--   * Port.Atomic (arch/avr/arch_port.h, arch/msp430/arch_port.h): the atomic accesses.
--   * System: the steps of a whole kernel. `Step` has the calls of the running task and of interrupts, each
--     where it meets its assertions, the tick with the kernel's timeout functions and functions of the
--     program, and a task that goes on where it was switched out; `Reach` is what steps lead to from
--     `os_init`. System.Keeps has the rules for code that keeps the invariant of the kernel, Tick, Resume
--     and Calls apply them. System.Steady has the rules for code that leaves the mutexes alone, wherever it
--     leads; its child modules go through the whole kernel by them. System.Timeout is about a wait whose time
--     is over, from the tick to the return of the wait. System.Owners is about the owners of
--     mutexes: From has the rules for code that changes them, Locks goes through source/os_mtx.c, and Reach
--     has the kernels in which memory that is still in use is not set up anew.
--   * Examples: the theorems at concrete kernels and rings.
--
-- A task runs from one kernel call to the next. Each call is a function of the kernel; interrupts are
-- calls with `isr_nesting` above 0. In a critical section `dint` is set and nothing interrupts, so an
-- order of calls is a list of applications of these functions.
--
-- The configuration is the one of source/os_config.h (5 priorities, mutexes with priority inheritance, all
-- checks on) with the types of the AVR port: `uint8_t` for masks and counters, `uint16_t` for ticks. A
-- counter that may wrap is reduced by `% 2 ^ w`. The `arch_task_init` of the MSP430 takes OS_CONFIG_APICHECK
-- as an argument, since it halts with it.
--
-- Loops over tasks, timers and mutexes run on fuel and fault without it. The loops over a queue need one
-- step more than there are tasks in it, the loop of `timer_trigger` one more than there are timers, the
-- walk of `listprio_append` one more than there are elements in the ring, and the loop of
-- `os_mtx_lock_prio_boost` one for each owner on the chain.
--
-- In the record of the AVR's registers the flags that arithmetic leaves in SREG are not followed: only the
-- I bit and saved values matter to the code. The CPU has no RAMPZ and a program counter of 16 bits.
--
-- In the Linux port a set of signals is a test of signal numbers, and `__fpregs_mem` a number. A switch
-- with SIGUSR1 blocked or without its handler, a failed assertion and `arch_halt` are `none`. The floating
-- point state is not modelled: the kernel restores it from `uc_mcontext.fpregs`, which the port does not
-- write.
--
-- Not modelled: the test programs and the test support of the ports, which print and set up timers of the
-- hardware; arch/linux/ucontext_i.h, which has offsets only. The model of the kernel and the models of the
-- ports meet in the outcome `switched` and the saved context, not in one state.
mod Base
pub mod Ring
pub mod Bitmask
pub mod Kernel
pub mod TaskQueue
pub mod Sched
pub mod Timer
pub mod Block
pub mod Sem
pub mod Waitqueue
pub mod Mtx
pub mod Tasks
pub mod Port
pub mod System
mod Examples
