-- ===== src/Kernel.antt =====
-- The kernel's data: the types of source/os_sched.h, os_timer.h, os_sem.h, os_mtx.h and
-- os_waitqueue.h, and the global variables of os_sched.c, os_timer.c and os_waitqueue.c in one record.
-- A task, a semaphore, a mutex, a wait queue and a timer are their addresses; each kind of object has
-- a memory of its own, a function from addresses.
pub mod Run
pub mod Runs
use rados.Base.{ℕ, ◌+◌, ◌-◌, ◌*◌, ◌/◌, ◌^◌, Bool, Option, List}

pub data TaskState : Type 0 where
  running ready wait destroyed invalid : TaskState

pub data TaskBlock : Type 0 where
  invalid sem mtx waitqueue : TaskBlock

-- The number behind an `os_taskstate_t`, by which the code compares states.
abbrev pub state_value : TaskState → ℕ
state_value TaskState.running = 0
state_value TaskState.ready = 1
state_value TaskState.wait = 2
state_value TaskState.destroyed = 3
state_value TaskState.invalid = 4

-- `os_retcode_t`: plain numbers, since the code shares one field between them and a task's result.
abbrev pub os_ok : ℕ
os_ok = 0

abbrev pub os_wouldblock : ℕ
os_wouldblock = 1

abbrev pub os_timeout : ℕ
os_timeout = 2

abbrev pub os_destroyed : ℕ
os_destroyed = 3

-- `OS_CONFIG_PRIOCNT` of os_config.h, and the types of the AVR port: `arch_atomic_t` has 8 bits,
-- `arch_ticks_t` has 16, `uint_fast8_t` has 8.
abbrev pub priocnt : ℕ
priocnt = 5

abbrev pub atomic_max : ℕ
atomic_max = 2 ^ 8 - 1

abbrev pub ticks_max : ℕ
ticks_max = 2 ^ 16 - 1

-- What `arch_context_t` stands for: the point where a task that is off the CPU goes on. The flag is
-- the interrupt state that the interrupted critical section restores.
pub data Context : Type 0 where
  user_code : Context
  task_entry : ℕ → Context
  in_schedule : Bool → Context
  in_sem_down : Bool → Context
  in_mtx_lock : Bool → Context
  in_waitqueue_wait : Bool → Context
  -- In `os_task_join`: the semaphore's wait and its destruction, with the state of each section.
  in_join : Bool → ℕ → ℕ → Bool → Context
  in_join_destroy : Bool → ℕ → Bool → Context
  exited : Context

pub record Task : Type 0 where
  pub ctx : Context
  pub prio_base : ℕ
  pub prio_current : ℕ
  pub state : TaskState
  pub task_queue : Option ℕ
  pub block_type : TaskBlock
  pub timer : Option ℕ
  pub mtx_list : List ℕ
  pub join_sem : Option ℕ
  -- The union of `ret_value` and `block_code`.
  pub ret_value : ℕ
  pub stack_end : ℕ
  pub stack_size : ℕ

-- The buckets hold the tasks of each priority, first come first; `linked` says that the bucket heads
-- went through `list_init`, and fails for memory that was only cleared.
pub record TaskQueue : Type 0 where
  pub tasks : ℕ → List ℕ
  pub mask : ℕ
  pub linked : Bool

pub record Mtx : Type 0 where
  pub owner : Option ℕ
  pub recur : ℕ

pub data Callback : Type 0 where
  os_sem_timerclbck os_waitqueue_timerclbck : Callback
  user : ℕ → Callback

-- `OS_TIMER_MAGIC1` marks a timer in use, `OS_TIMER_MAGIC2` a destroyed one.
abbrev pub magic1 : ℕ
magic1 = 0xaabb

abbrev pub magic2 : ℕ
magic2 = 0xccdd

pub record Timer : Type 0 where
  pub ticks_rem : ℕ
  pub ticks_reload : ℕ
  pub clbck : Callback
  pub param : ℕ
  pub magic : ℕ

pub record Kernel : Type 0 where
  pub tasks : ℕ → Task
  pub queues : ℕ → TaskQueue
  pub sems : ℕ → ℕ
  pub mtxs : ℕ → Mtx
  pub timers : ℕ → Timer
  pub timer_list : List ℕ
  pub timer_tick_unsynch : ℕ
  pub ticks_cnt : ℕ
  pub task_current : ℕ
  pub isr_nesting : ℕ
  pub sched_lock : ℕ
  pub waitqueue_current : Option ℕ
  -- Whether interrupts are disabled.
  pub dint : Bool
  -- The bytes of the task stacks.
  pub memory : ℕ → ℕ

-- The address of `task_idle`.
abbrev pub task_idle : ℕ
task_idle = 0

-- The addresses of task queues: `ready_queue`, and the field `task_queue` of each object.
abbrev pub ready_queue : ℕ
ready_queue = 0

abbrev pub sem_queue : ℕ → ℕ
sem_queue s = 3 * s + 1

abbrev pub mtx_queue : ℕ → ℕ
mtx_queue m = 3 * m + 2

abbrev pub wait_queue : ℕ → ℕ
wait_queue w = 3 * w + 3

-- `os_container_of(task_queue, os_mtx_t, task_queue)`.
abbrev pub mtx_of_queue : ℕ → ℕ
mtx_of_queue q = (q - 2) / 3
