-- ===== src/System/Steady/Tasks.antt =====
-- Join and exit of tasks, and how a task that is given the CPU goes on, leave the mutexes alone.
use rados.Base.{ℕ, refl, Bool, true, false, none, Option, arith, ◌==◌}
use rados.Kernel.{
  Kernel, Context, TaskState, user_code, task_entry, in_schedule, in_sem_down, in_mtx_lock,
  in_waitqueue_wait, in_join, in_join_destroy, exited,
}
use rados.Tasks.{
  set_join_sem, join_finished, join_woken, os_task_join, os_task_exit, finish_wait, go_on, resume,
  isr_leave,
}
use rados.System.Steady.{
  SameMtxs, Steady, Steady-bind, Steady-get, Steady-pure, Steady-if, Steady-option, Steady-modify,
  Steady-arch_critical_enter, Steady-arch_critical_exit,
}
use rados.System.Steady.Queues.{Steady-os_schedule, set_state-SameMtxs, set_running-SameMtxs}
use rados.System.Steady.Waking.{Steady-switch_to_ready, set_block_code-SameMtxs, waking_rules}
use rados.System.Steady.Calls.{
  Steady-os_sem_create, Steady-sem_destroy, Steady-sem_down, Steady-os_sem_up_sync,
}

set_join_sem-SameMtxs : (t : ℕ) (s : Option ℕ) (k : Kernel) → SameMtxs k (set_join_sem t s k)
unfolding set_join_sem
set_join_sem-SameMtxs t s k = record { mtxs = refl; lists = λ a. ground arith }

leave-SameMtxs : (n : ℕ) (k : Kernel) → SameMtxs k (record k { isr_nesting = n; dint = true })
leave-SameMtxs n k = record { mtxs = refl; lists = λ t. refl }

ruleset task_rules = (
  waking_rules, Steady-os_schedule, set_state-SameMtxs, set_running-SameMtxs, set_join_sem-SameMtxs,
  leave-SameMtxs,
)

Steady-join_finished : (c : Bool) (t : ℕ) → Steady (join_finished c t)
unfolding join_finished
Steady-join_finished c t = search task_rules depth 16

Steady-join_woken : (c : Bool) (t s fuel ret : ℕ) → Steady (join_woken c t s fuel ret)
unfolding join_woken
Steady-join_woken c t s fuel ret =
    search (task_rules, Steady-sem_destroy, Steady-join_finished) depth 16

pub Steady-os_task_join : (fuel t s timer : ℕ) → Steady (os_task_join fuel t s timer)
unfolding os_task_join
Steady-os_task_join fuel t s timer =
    search
      (task_rules, Steady-os_sem_create, Steady-sem_down, Steady-join_woken, Steady-join_finished)
      depth 20

pub Steady-os_task_exit : (retv : ℕ) → Steady (os_task_exit retv)
unfolding os_task_exit
Steady-os_task_exit retv = Steady-bind _ _ Steady-arch_critical_enter λ c.
    Steady-bind _ _ Steady-get λ k.
      Steady-bind _ _ (Steady-modify _ (set_block_code-SameMtxs k.task_current retv)) λ _.
        Steady-bind _ _ (Steady-modify _ (set_state-SameMtxs k.task_current TaskState.destroyed))
          λ _.
            Steady-bind _ _
              (Steady-option (k.tasks k.task_current).join_sem _ _ (Steady-pure tt)
                λ s. Steady-os_sem_up_sync s true)
              λ _. Steady-switch_to_ready exited

Steady-finish_wait : (c : Bool) → Steady (finish_wait c)
unfolding finish_wait
Steady-finish_wait c = search task_rules depth 16

Steady-go_on : (fuel : ℕ) (ctx : Context) → Steady (go_on fuel ctx)
unfolding go_on
Steady-go_on fuel user_code = search task_rules
Steady-go_on fuel (task_entry sp) = search task_rules
Steady-go_on fuel (in_schedule c) = search task_rules
Steady-go_on fuel (in_sem_down c) = search (task_rules, Steady-finish_wait)
Steady-go_on fuel (in_waitqueue_wait c) = search (task_rules, Steady-finish_wait)
Steady-go_on fuel (in_mtx_lock c) = search task_rules depth 12
Steady-go_on fuel (in_join c t s inner) =
    search (task_rules, Steady-finish_wait, Steady-join_woken) depth 12
Steady-go_on fuel (in_join_destroy c t inner) = search (task_rules, Steady-join_finished) depth 12
Steady-go_on fuel exited = search task_rules

pub Steady-resume : (fuel : ℕ) → Steady (resume fuel)
unfolding resume
Steady-resume fuel = search (task_rules, Steady-go_on)

pub Steady-isr_leave : (fuel : ℕ) → Steady (isr_leave fuel)
unfolding isr_leave
Steady-isr_leave fuel = Steady-bind _ _ (Steady-modify _ λ k. leave-SameMtxs _ k) λ _.
    Steady-bind _ _ Steady-get λ k.
      Steady-if (k.isr_nesting == 0) _ _ (Steady-resume fuel)
        (Steady-bind _ _ (Steady-arch_critical_exit false) λ _. Steady-pure none)
