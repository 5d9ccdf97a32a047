-- ===== src/Sched/Exit.antt =====
-- Scheduling at the end of a critical section keeps the kernel valid.
use rados.Base.{ℕ, ◌≡◌, refl, Bool, true}
use rados.Kernel.{Kernel, Context}
use rados.Kernel.Run.{Outcome, and_then, arch_critical_exit}
use rados.Kernel.Runs
use rados.Kernel.Runs.{Runs, returns, switches}
use rados.Sched.{os_schedule}
use rados.Sched.Valid.{KernelValid, same-KernelValid}
use rados.Sched.Schedule.{Schedules, locked, keeps, preempts, redirects, os_schedule-Schedules}

pub Schedules-Runs :
    {k : Kernel} {least : ℕ} {ctx : Context} {r : Outcome (Unit {0})}
    → KernelValid k
    → Schedules k least ctx r
    → Runs KernelValid (λ _. KernelValid) r
Schedules-Runs v (locked h) = returns v
Schedules-Runs v (keeps o h) = returns v
Schedules-Runs v (preempts o a i l w) = switches w
Schedules-Runs v (redirects o a i l w) = returns w

-- `os_schedule` and then the end of the critical section.
pub schedule_exit-Runs :
    (k : Kernel)
    → KernelValid k
    → k.dint ≡ true
    → (higher_prio : ℕ) (ctx : Context) (cristate : Bool)
    → Runs KernelValid
        (λ _. KernelValid)
        (and_then (os_schedule higher_prio ctx k) (λ _. arch_critical_exit cristate))
schedule_exit-Runs k v d higher_prio ctx cristate =
    Runs.bind (Schedules-Runs v (os_schedule-Schedules k v ctx higher_prio d))
      λ _ k' w. returns (same-KernelValid k' _ refl refl refl (λ i e. e) w)
