-- ===== src/System/Steady/Waking.antt =====
-- Timers, and what blocks and wakes tasks, leave the mutexes alone.
use rados.Base.{ℕ, zero, suc, refl, Option, arith}
use rados.Kernel.{Kernel, TaskBlock, Callback, Context, Timer}
use rados.Kernel.Run.{M, set_timer}
use rados.TaskQueue.{os_taskqueue_init}
use rados.Timer.{timer_add, os_timer_create, stop_timer, reset_unsynch, os_timer_destroy}
use rados.Block.{
  set_task_timer, os_blocktimer_create, os_blocktimer_destroy, set_block_code, switch_to_ready,
  os_task_block_switch, wake, wake_all, clear_queue, time_out_task,
}
use rados.System.Steady.{
  SameMtxs, Steady, Steady-bind, Steady-get, Steady-option, Steady-bind-option, Steady-pure,
  steady_rules,
}
use rados.System.Steady.Queues.{
  Steady-os_taskqueue_dequeue, Steady-os_taskqueue_unlink, Steady-os_task_makeready,
  Steady-os_task_makewait, Steady-arch_context_switch,
}

-- Writes that are no write of a mutex or of a list of mutexes.
timer_add-SameMtxs : (i : ℕ) (k : Kernel) → SameMtxs k (timer_add i k)
unfolding timer_add
timer_add-SameMtxs i k = record { mtxs = refl; lists = λ t. refl }

set_timer-SameMtxs : (i : ℕ) (f : Kernel → Timer) (k : Kernel) → SameMtxs k (set_timer i (f k) k)
set_timer-SameMtxs i f k = record { mtxs = refl; lists = λ t. refl }

stop_timer-SameMtxs : (i : ℕ) (k : Kernel) → SameMtxs k (stop_timer i k)
unfolding stop_timer
stop_timer-SameMtxs i k = record { mtxs = ground arith; lists = λ t. ground arith }

reset_unsynch-SameMtxs : (k : Kernel) → SameMtxs k (reset_unsynch k)
unfolding reset_unsynch
reset_unsynch-SameMtxs k = record { mtxs = ground arith; lists = λ t. ground arith }

set_task_timer-SameMtxs : (t : ℕ) (i : Option ℕ) (k : Kernel) → SameMtxs k (set_task_timer t i k)
unfolding set_task_timer
set_task_timer-SameMtxs t i k = record { mtxs = refl; lists = λ a. ground arith }

pub set_block_code-SameMtxs : (t code : ℕ) (k : Kernel) → SameMtxs k (set_block_code t code k)
unfolding set_block_code
set_block_code-SameMtxs t code k = record { mtxs = refl; lists = λ a. ground arith }

pub clear_queue-SameMtxs : (q : ℕ) (k : Kernel) → SameMtxs k (clear_queue q k)
unfolding clear_queue
clear_queue-SameMtxs q k = record { mtxs = refl; lists = λ a. refl }

pub os_taskqueue_init-SameMtxs : (q : ℕ) (k : Kernel) → SameMtxs k (os_taskqueue_init q k)
unfolding os_taskqueue_init
os_taskqueue_init-SameMtxs q k = record { mtxs = refl; lists = λ a. refl }

ruleset timer_rules = (
  steady_rules, timer_add-SameMtxs, set_timer-SameMtxs, stop_timer-SameMtxs, reset_unsynch-SameMtxs,
  set_task_timer-SameMtxs,
)

pub Steady-os_timer_create :
    (timer : ℕ) (clbck : Callback) (param timeout_ticks reload_ticks : ℕ)
    → Steady (os_timer_create timer clbck param timeout_ticks reload_ticks)
unfolding os_timer_create
Steady-os_timer_create timer clbck param timeout_ticks reload_ticks = search timer_rules depth 12

pub Steady-os_timer_destroy : (timer : ℕ) → Steady (os_timer_destroy timer)
unfolding os_timer_destroy
Steady-os_timer_destroy timer = search timer_rules depth 12

pub Steady-os_blocktimer_create :
    (timer : ℕ) (clbck : Callback) (timeout_ticks : ℕ)
    → Steady (os_blocktimer_create timer clbck timeout_ticks)
unfolding os_blocktimer_create
Steady-os_blocktimer_create timer clbck timeout_ticks =
    search (timer_rules, Steady-os_timer_create) depth 12

pub Steady-os_blocktimer_destroy : (t : ℕ) → Steady (os_blocktimer_destroy t)
unfolding os_blocktimer_destroy
Steady-os_blocktimer_destroy t = Steady-bind _ _ Steady-get λ k.
    Steady-option (k.tasks t).timer _ _ (search timer_rules)
      λ i. search (timer_rules, Steady-os_timer_destroy)

pub Steady-switch_to_ready : {A : Type 0} (ctx : Context) → Steady (switch_to_ready {A = A} ctx)
unfolding switch_to_ready
Steady-switch_to_ready ctx =
    search (steady_rules, Steady-os_taskqueue_dequeue, Steady-arch_context_switch)

pub Steady-os_task_block_switch :
    {A : Type 0} (q : ℕ) (block_type : TaskBlock) (ctx : Context)
    → Steady (os_task_block_switch {A = A} q block_type ctx)
unfolding os_task_block_switch
Steady-os_task_block_switch q block_type ctx =
    search (steady_rules, Steady-os_task_makewait, Steady-switch_to_ready)

pub Steady-wake : (code t : ℕ) → Steady (wake code t)
unfolding wake
Steady-wake code t =
    search (
      steady_rules, Steady-os_blocktimer_destroy, set_block_code-SameMtxs, Steady-os_task_makeready,
    )

pub Steady-wake_all :
    (fuel : ℕ) (waking : ℕ → M (Unit {0})) (q : ℕ)
    → ((t : ℕ) → Steady (waking t))
    → Steady (wake_all fuel waking q)
unfolding wake_all
Steady-wake_all zero waking q each = search steady_rules
Steady-wake_all (suc fuel) waking q each =
    Steady-bind-option _ _ _ (Steady-os_taskqueue_dequeue q) (Steady-pure tt)
      λ t. Steady-bind _ _ (each t) λ _. Steady-wake_all fuel waking q each

pub Steady-time_out_task : (t : ℕ) → Steady (time_out_task t)
unfolding time_out_task
Steady-time_out_task t =
    search
      (steady_rules, Steady-os_taskqueue_unlink, set_block_code-SameMtxs, Steady-os_task_makeready)
      depth 12

pub ruleset waking_rules = (
  steady_rules, Steady-os_taskqueue_dequeue, Steady-os_blocktimer_create,
  Steady-os_blocktimer_destroy, Steady-switch_to_ready, Steady-os_task_block_switch, Steady-wake,
  Steady-wake_all, clear_queue-SameMtxs, os_taskqueue_init-SameMtxs, set_block_code-SameMtxs,
)
