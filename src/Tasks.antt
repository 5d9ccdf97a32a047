-- ===== src/Tasks.antt =====
-- The life of a task: `os_task_create`, `os_task_join`, `os_task_exit`, `os_task_check` of os_sched.c,
-- `arch_task_init` of arch/avr/arch_port.c, and how a task that is given the CPU goes on.
pub mod Exit
pub mod Create
pub mod Urgent
pub mod Resume
pub mod Join
pub mod JoinExit
pub mod JoinWait
use rados.Base.{
  ℕ, ◌+◌, ◌-◌, ◌/◌, ◌%◌, ◌^◌, Bool, true, false, not, Option, none, some, List, [], ◌∷◌, ◌++◌, ◌==◌,
  ◌&&◌, ltb, leb, if◌then◌else◌, update, replicate,
}
use rados.Kernel.{
  Kernel, TaskState, state_value, Context, user_code, task_entry, in_schedule, in_sem_down,
  in_mtx_lock, in_waitqueue_wait, in_join, in_join_destroy, exited, task_idle, ready_queue, priocnt,
  os_ok, ticks_max,
}
use rados.Kernel.Run.{
  M, pure, ◌>>=◌, ◌>>◌, get, modify, os_halt, os_assert, arch_critical_enter, arch_critical_exit,
  set_task, is_none,
}
use rados.TaskQueue.{os_taskqueue_enqueue}
use rados.Sched.{set_state, set_running, os_schedule}
use rados.Sched.Lock.{os_task_init}
use rados.Block.{os_blocktimer_destroy, set_block_code, switch_to_ready}
use rados.Sem.{os_sem_create, sem_down, sem_destroy, os_sem_up_sync}

-- `OS_STACK_FILLPATERN`, and `OS_STACK_MINSIZE` of the AVR port.
abbrev pub fillpatern : ℕ
fillpatern = 0xab

abbrev pub stack_minsize : ℕ
stack_minsize = 140

unfoldable pub fill : ℕ → ℕ → (ℕ → ℕ) → ℕ → ℕ
fill start size memory a = if leb start a && ltb a (start + size) then fillpatern else memory a

unfoldable pub os_task_check_init : ℕ → ℕ → ℕ → Kernel → Kernel
os_task_check_init t stack stack_size k =
    set_task t (record (k.tasks t) { stack_size = stack_size; stack_end = stack })
      (record k { memory = fill stack stack_size k.memory })

-- `*(stack--) = byte;` for each byte.
unfoldable pub push_down : ℕ → List ℕ → (ℕ → ℕ) → ℕ → ℕ
push_down sp [] memory = memory
push_down sp (byte ∷ rest) memory = push_down (sp - 1) rest (update memory sp byte)

-- The frame that `arch_task_init` builds, from the top of the stack down; `start` is the address of
-- `arch_task_start`. The build without RAMPZ.
unfoldable pub task_frame : ℕ → ℕ → ℕ → ℕ → List ℕ
task_frame start top proc param =
    start % 256
    ∷ start / 256 % 256
    ∷ 0
    ∷ 128
    ∷ (top - 2) % 256
    ∷ (top - 2) / 256 % 256
    ∷ (replicate 16 0
        ++ replicate 5 0
        ++ param % 256 ∷ param / 256 % 256 ∷ proc % 256 ∷ proc / 256 % 256 ∷ replicate 4 0)

unfoldable pub arch_task_init : ℕ → ℕ → ℕ → ℕ → ℕ → ℕ → Kernel → Kernel
arch_task_init start t stack_param stack_size proc param k =
    let top = stack_param + stack_size - 1 in
    set_task t (record (k.tasks t) { ctx = task_entry (top - 35) })
      (record k { memory = push_down top (task_frame start top proc param) k.memory })

unfoldable pub os_task_create : ℕ → ℕ → ℕ → ℕ → ℕ → ℕ → ℕ → M (Unit {0})
os_task_create start t prio stack stack_size proc param = do
  k ← get
  os_assert (k.isr_nesting == 0)
  os_assert (is_none k.waitqueue_current)
  os_assert (ltb prio priocnt)
  os_assert (ltb 0 prio)
  os_assert (not (stack == 0))
  os_assert (leb stack_minsize stack_size)
  modify (os_task_init t prio)
  modify (os_task_check_init t stack stack_size)
  modify (arch_task_init start t stack stack_size proc param)
  cristate ← arch_critical_enter
  os_taskqueue_enqueue ready_queue t
  os_schedule 1 (in_schedule cristate)
  arch_critical_exit cristate

unfoldable pub os_task_check : ℕ → M (Unit {0})
os_task_check t = do
  k ← get
  if k.memory (k.tasks t).stack_end == fillpatern then pure tt else os_halt

unfoldable pub set_join_sem : ℕ → Option ℕ → Kernel → Kernel
set_join_sem t sem k = set_task t (record (k.tasks t) { join_sem = sem }) k

-- The end of `os_task_join`, once the task is known to have finished.
unfoldable pub join_finished : Bool → ℕ → M ℕ
join_finished cristate t = do
  k ← get
  os_assert (state_value (k.tasks t).state == 3)
  modify (set_state t TaskState.invalid)
  modify (set_join_sem t none)
  arch_critical_exit cristate
  pure (k.tasks t).ret_value

-- The part of `os_task_join` after its wait: `s` is the semaphore on its stack.
unfoldable pub join_woken : Bool → ℕ → ℕ → ℕ → ℕ → M ℕ
join_woken cristate t s fuel ret = do
  os_assert (ret == os_ok)
  sem_destroy (in_join_destroy cristate t) fuel s
  join_finished cristate t

unfoldable pub os_task_join : ℕ → ℕ → ℕ → ℕ → M ℕ
os_task_join fuel t join_sem timer = do
  k ← get
  os_assert (k.isr_nesting == 0)
  os_assert (not (k.task_current == task_idle))
  os_assert (is_none k.waitqueue_current)
  cristate ← arch_critical_enter
  os_assert (is_none (k.tasks t).join_sem)
  os_assert (not (state_value (k.tasks t).state == 4))
  if ltb (state_value (k.tasks t).state) 3
      then (do
        os_sem_create join_sem 0
        modify (set_join_sem t (some join_sem))
        ret ← sem_down (in_join cristate t join_sem) join_sem ticks_max timer
        join_woken cristate t join_sem fuel ret)
      else join_finished cristate t

-- The task leaves scheduling: it is put on no queue.
unfoldable pub os_task_exit : ℕ → M (Unit {0})
os_task_exit retv = do
  cristate ← arch_critical_enter
  k ← get
  modify (set_block_code k.task_current retv)
  modify (set_state k.task_current TaskState.destroyed)
  elim (k.tasks k.task_current).join_sem [ none ↦ pure tt | some s ↦ os_sem_up_sync s true ]
  switch_to_ready exited

-- The end of a call that waited: its timer goes, and its code is the result.
unfoldable pub finish_wait : Bool → M ℕ
finish_wait cristate = do
  modify set_running
  k ← get
  os_blocktimer_destroy k.task_current
  k ← get
  arch_critical_exit cristate
  pure (k.tasks k.task_current).ret_value

-- What a task that was given the CPU does up to its own code: the result, if it was in a call that
-- returns one. `fuel` is for the loop of `os_sem_destroy`.
unfoldable pub go_on : ℕ → Context → M (Option ℕ)
go_on fuel user_code = do arch_critical_exit false; pure none
go_on fuel (task_entry sp) = do arch_critical_exit false; pure none
go_on fuel (in_schedule cristate) = do modify set_running; arch_critical_exit cristate; pure none
go_on fuel (in_sem_down cristate) = do pure (some (← finish_wait cristate))
go_on fuel (in_waitqueue_wait cristate) = do pure (some (← finish_wait cristate))
go_on fuel (in_mtx_lock cristate) = do
  modify set_running
  k ← get
  arch_critical_exit cristate
  pure (some (k.tasks k.task_current).ret_value)
go_on fuel (in_join cristate t s inner) = do
  ret ← finish_wait inner
  pure (some (← join_woken cristate t s fuel ret))
go_on fuel (in_join_destroy cristate t inner) = do
  modify set_running
  arch_critical_exit inner
  pure (some (← join_finished cristate t))
go_on fuel exited = do os_halt; pure none

unfoldable pub resume : ℕ → M (Option ℕ)
resume fuel = do k ← get; go_on fuel (k.tasks k.task_current).ctx

-- An interrupt enters and leaves: `arch_contextstore_i` and `arch_contextrestore_i`. The outermost one
-- saves the interrupted task in its own code.
unfoldable pub isr_enter : Kernel → Kernel
isr_enter k =
    let nested = record k { isr_nesting = (k.isr_nesting + 1) % 2 ^ 8; dint = true } in
    if k.isr_nesting == 0
    then set_task k.task_current (record (k.tasks k.task_current) { ctx = user_code }) nested
    else nested

unfoldable pub isr_leave : ℕ → M (Option ℕ)
isr_leave fuel = do
  modify (λ k. record k { isr_nesting = (k.isr_nesting + 255) % 2 ^ 8; dint = true })
  k ← get
  if k.isr_nesting == 0 then resume fuel else (do arch_critical_exit false; pure none)
