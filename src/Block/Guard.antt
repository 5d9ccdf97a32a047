-- ===== src/Block/Guard.antt =====
-- The timer that guards a wait: `os_blocktimer_create`.
use rados.Base.{ℕ, ◌<◌, ◌≡◌, refl, false, none, some, arith, ◌==◌}
use rados.Kernel.{Kernel, Callback, magic1}
use rados.Kernel.Run.{ok}
use rados.Sched.Valid.{KernelValid, same-KernelValid, set_task-QueuesValid}
use rados.Timer.{ticksrem_max, place, timer_add}
use rados.Timer.Ops.{new_timer, timer_created, os_timer_create_lem}
use rados.Block.{set_task_timer, os_blocktimer_create}
use rados.Block.Wake.{SameGlobals}

-- The kernel `k'` once the current task of `k` is guarded by a timer.
pub record Guarded (timer : ℕ) (clbck : Callback) (timeout_ticks : ℕ) (k k' : Kernel) : Type 0 where
  pub valid : KernelValid k'
  pub task : k'.tasks k.task_current ≡ record (k.tasks k.task_current) { timer = some timer }
  pub others : (a : ℕ) → (a == k.task_current) ≡ false → k'.tasks a ≡ k.tasks a
  pub queues : k'.queues ≡ k.queues
  pub globals : SameGlobals k k'
  pub runs : k'.timers timer ≡ new_timer clbck k.task_current timeout_ticks 0 k
  pub listed : k'.timer_list ≡ place k'.timers timer k.timer_list

-- In a valid kernel, with a timeout from 1 up to below OS_TIMER_TICKSREM_MAX, a timer that is not
-- in use and no timer at the current task, `os_blocktimer_create` succeeds: the timer runs for the
-- current task without reload, its ticks include those not yet counted down, it stands in the timer
-- list at its place, and the kernel stays valid.
pub os_blocktimer_create_lem :
    (timer : ℕ) (clbck : Callback) (timeout_ticks : ℕ) (k : Kernel)
    → KernelValid k
    → 0 < timeout_ticks
    → timeout_ticks < ticksrem_max
    → ((k.timers timer).magic == magic1) ≡ false
    → (k.tasks k.task_current).timer ≡ none
    → (k' : Kernel) × (os_blocktimer_create timer clbck timeout_ticks k ≡ ok tt k')
      × Guarded timer clbck timeout_ticks k k'
unfolding os_blocktimer_create set_task_timer timer_add
os_blocktimer_create_lem timer clbck timeout_ticks k v h l m free =
    let k1 = timer_created timer clbck k.task_current timeout_ticks 0 k in
    let v1 = same-KernelValid k k1 refl refl refl (λ i e. ground arith) v in
    (
      set_task_timer k.task_current (some timer) k1,
      rw
          (
            os_blocktimer_create,
            free,
            os_timer_create_lem timer clbck k.task_current timeout_ticks 0 k h l m,
          )
          refl,
      record {
        valid = record {
          queues = set_task-QueuesValid k1 v1.queues k.task_current _ refl refl;
          ready_linked = v1.ready_linked;
          current_free = ground (arith, v.current_free);
          in_ready = λ a e. ground (arith, v.in_ready a);
          in_wait = λ a q e n. ground (arith, v.in_wait a q);
          idle_there = ground (arith, v.idle_there);
          timer_made = λ a i e. ground (arith, v1.timer_made a i);
        };
        task = ground arith;
        others = λ a n. ground arith;
        queues = refl;
        globals = ground arith;
        runs = ground arith;
        listed = refl;
      },
    )
