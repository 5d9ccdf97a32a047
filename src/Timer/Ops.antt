-- ===== src/Timer/Ops.antt =====
-- What the calls on timers give: `os_timer_create` and `os_timer_destroy`.
use rados.Base.{ℕ, ◌<◌, ◌≡◌, true, false, arith, ◌==◌, ◌||◌}
use rados.Kernel.{Kernel, Timer, Callback, magic1, magic2}
use rados.Kernel.Run.{ok, set_timer}
use rados.Timer.{
  ticksrem_max, add_ticks, timer_add, os_timer_create, stop_timer, reset_unsynch, os_timer_destroy,
}

abbrev pub new_timer : Callback → ℕ → ℕ → ℕ → Kernel → Timer
new_timer clbck param timeout_ticks reload_ticks k = record {
  ticks_rem = add_ticks timeout_ticks k.timer_tick_unsynch;
  ticks_reload = reload_ticks;
  clbck = clbck;
  param = param;
  magic = magic1;
}

-- The kernel after `os_timer_create`.
abbrev pub timer_created : ℕ → Callback → ℕ → ℕ → ℕ → Kernel → Kernel
timer_created timer clbck param timeout_ticks reload_ticks k =
    timer_add timer (set_timer timer (new_timer clbck param timeout_ticks reload_ticks k) k)

pub os_timer_create_lem :
    (timer : ℕ) (clbck : Callback) (param timeout_ticks reload_ticks : ℕ) (k : Kernel)
    → 0 < timeout_ticks
    → timeout_ticks < ticksrem_max
    → ((k.timers timer).magic == magic1) ≡ false
    → os_timer_create timer clbck param timeout_ticks reload_ticks k
      ≡ ok tt (timer_created timer clbck param timeout_ticks reload_ticks k)
unfolding os_timer_create timer_add
os_timer_create_lem timer clbck param timeout_ticks reload_ticks k h l m = ground arith

-- Only timers differ.
pub record SameButTimers (k k' : Kernel) : Type 0 where
  pub tasks : k'.tasks ≡ k.tasks
  pub queues : k'.queues ≡ k.queues
  pub sems : k'.sems ≡ k.sems
  pub mtxs : k'.mtxs ≡ k.mtxs
  pub task_current : k'.task_current ≡ k.task_current
  pub isr_nesting : k'.isr_nesting ≡ k.isr_nesting
  pub sched_lock : k'.sched_lock ≡ k.sched_lock
  pub waitqueue_current : k'.waitqueue_current ≡ k.waitqueue_current
  pub dint : k'.dint ≡ k.dint

abbrev pub IsMade : Kernel → ℕ → Type 0
IsMade k i = ((k.timers i).magic == magic1 || (k.timers i).magic == magic2) ≡ true

-- The kernel after `os_timer_destroy`.
abbrev pub timer_destroyed : ℕ → Kernel → Kernel
timer_destroyed i k = record (reset_unsynch (stop_timer i (record k { dint = true }))) {
  dint = k.dint;
}

pub os_timer_destroy_lem :
    (i : ℕ) (k : Kernel)
    → IsMade k i
    → (os_timer_destroy i k ≡ ok tt (timer_destroyed i k))
      × SameButTimers k (timer_destroyed i k)
      × ((j : ℕ) → IsMade k j → IsMade (timer_destroyed i k) j)
unfolding os_timer_destroy stop_timer reset_unsynch
os_timer_destroy_lem i k made = (ground arith, ground arith, λ j m. ground arith)
