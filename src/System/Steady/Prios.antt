-- ===== src/System/Steady/Prios.antt =====
-- Raising and computing again the priority of a task (source/os_mtx.c) leaves the mutexes alone, and
-- so does waking a task from a mutex.
use rados.Base.{ℕ, zero, suc, List, [], ◌∷◌}
use rados.Kernel.{mtx_queue, mtx_of_queue}
use rados.Mtx.{
  boost_loop, os_mtx_lock_prio_boost, highest_waiter, os_mtx_unlock_prio_reset, wake_from_mtx,
  blocked_on_mtx,
}
use rados.System.Steady.{
  Steady, Steady-bind, Steady-get, Steady-pure, Steady-if, Steady-option, Steady-crash,
  steady_rules,
}
use rados.System.Steady.Queues.{
  Steady-os_taskqueue_reprio, Steady-os_taskqueue_peek, Steady-os_task_makeready,
  set_prio_current-SameMtxs,
}
use rados.System.Steady.Waking.{waking_rules}

Steady-boost_loop : (fuel task prio : ℕ) → Steady (boost_loop fuel task prio)
unfolding boost_loop
Steady-boost_loop zero task prio = Steady-crash
Steady-boost_loop (suc fuel) task prio = Steady-bind _ _ Steady-get λ k.
    Steady-bind _ _ (Steady-os_taskqueue_reprio task _) λ _. Steady-bind _ _ Steady-get λ k.
      Steady-if (blocked_on_mtx (k.tasks task)) _ _
        (Steady-option (k.tasks task).task_queue _ _ Steady-crash λ q.
          Steady-option (k.mtxs (mtx_of_queue q)).owner _ _ Steady-crash
            λ owner. Steady-boost_loop fuel owner prio)
        (Steady-pure tt)

pub Steady-os_mtx_lock_prio_boost : (fuel m : ℕ) → Steady (os_mtx_lock_prio_boost fuel m)
unfolding os_mtx_lock_prio_boost
Steady-os_mtx_lock_prio_boost fuel m = Steady-bind _ _ Steady-get λ k.
    Steady-option (k.mtxs m).owner _ _ Steady-crash
      λ task. Steady-if _ _ _ (Steady-boost_loop fuel task _) (Steady-pure tt)

Steady-highest_waiter : (ms : List ℕ) (prio_new : ℕ) → Steady (highest_waiter ms prio_new)
unfolding highest_waiter
Steady-highest_waiter [] prio_new = Steady-pure prio_new
Steady-highest_waiter (itr ∷ rest) prio_new =
    Steady-bind _ _ (Steady-os_taskqueue_peek (mtx_queue itr))
      λ task. Steady-bind _ _ Steady-get λ k. Steady-highest_waiter rest _

pub Steady-os_mtx_unlock_prio_reset : Steady os_mtx_unlock_prio_reset
unfolding os_mtx_unlock_prio_reset
Steady-os_mtx_unlock_prio_reset =
    search (steady_rules, Steady-highest_waiter, set_prio_current-SameMtxs) depth 12

pub Steady-wake_from_mtx : (code t : ℕ) → Steady (wake_from_mtx code t)
unfolding wake_from_mtx
Steady-wake_from_mtx code t = search (waking_rules, Steady-os_task_makeready) depth 12
