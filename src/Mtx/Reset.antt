-- ===== src/Mtx/Reset.antt =====
-- `os_mtx_unlock_prio_reset`.
use rados.Base.{ℕ, ◌<◌, ◌≡◌, refl, inl, inr, true, false, arith, ◌==◌, Bool-cases}
use rados.Kernel.{Kernel, priocnt}
use rados.Kernel.Run.{ok}
use rados.TaskQueue.{set_prio_current}
use rados.TaskQueue.Ops.{set_prio_current-QueuesValid}
use rados.Sched.Valid.{KernelValid}
use rados.Mtx.{os_mtx_unlock_prio_reset}
use rados.Mtx.Waiters.{Highest, highest_waiter-Highest}

-- The kernel `k'` after the priority of the current task was computed again.
pub record Reset (k k' : Kernel) : Type 0 where
  pub valid : KernelValid k'
  pub n : ℕ
  pub task : k'.tasks k.task_current ≡ record (k.tasks k.task_current) { prio_current = n }
  pub others : (a : ℕ) → (a == k.task_current) ≡ false → k'.tasks a ≡ k.tasks a
  pub rest : k' ≡ record k { tasks = k'.tasks }
  -- A task that was not boosted keeps its priority.
  pub kept :
      ((k.tasks k.task_current).prio_current == (k.tasks k.task_current).prio_base) ≡ true
      → n ≡ (k.tasks k.task_current).prio_base
  pub computed :
      ((k.tasks k.task_current).prio_current == (k.tasks k.task_current).prio_base) ≡ false
      → Highest k (k.tasks k.task_current).mtx_list (k.tasks k.task_current).prio_base n

-- In a valid kernel, where the base priority of the current task is below OS_CONFIG_PRIOCNT,
-- `os_mtx_unlock_prio_reset` gives a task that is boosted the highest of its base priority and the
-- priorities of the tasks that wait for its mutexes, leaves the priority of one that is not,
-- changes no other task, and the kernel stays valid.
pub os_mtx_unlock_prio_reset-Reset :
    (k : Kernel)
    → KernelValid k
    → (k.tasks k.task_current).prio_base < priocnt
    → (k' : Kernel) × (os_mtx_unlock_prio_reset k ≡ ok tt k') × Reset k k'
unfolding os_mtx_unlock_prio_reset set_prio_current
os_mtx_unlock_prio_reset-Reset k v small =
    let t = k.task_current in
    elim (Bool-cases ((k.tasks t).prio_current == (k.tasks t).prio_base)) [
      | inl own ↦ (
        k,
        rw own refl,
        record {
          valid = v;
          n = (k.tasks t).prio_base;
          task = ground arith;
          others = λ a m. refl;
          rest = refl;
          kept = λ e. refl;
          computed = λ e. absurd (ground arith);
        },
      )
      | inr boosted ↦
          let (n, e, h) =
            highest_waiter-Highest k v.queues (k.tasks t).mtx_list (k.tasks t).prio_base in
          (
            set_prio_current t n k,
            rw (boosted, e) refl,
            record {
              valid = record {
                queues = set_prio_current-QueuesValid k v.queues t n v.current_free (h.small small);
                ready_linked = v.ready_linked;
                current_free = ground (arith, v.current_free);
                in_ready = λ a m. ground (arith, v.in_ready a);
                in_wait = λ a q m d. ground (arith, v.in_wait a q);
                idle_there = ground (arith, v.idle_there);
                timer_made = λ a i m. ground (arith, v.timer_made a i);
              };
              n = n;
              task = ground arith;
              others = λ a m. ground arith;
              rest = refl;
              kept = λ e. absurd (ground arith);
              computed = λ d. h;
            },
          )
    ]
