-- ===== src/System/Resume.antt =====
-- A task that is given the CPU goes on in a valid kernel and keeps it valid, also in `os_task_join`.
use rados.Base.{
  ℕ, ◌+◌, ◌%◌, ◌^◌, ◌≡◌, refl, inl, inr, Bool, true, false, none, some, arith, ◌==◌, Bool-cases,
}
use rados.Kernel.{
  Kernel, TaskState, state_value, Context, user_code, task_entry, in_schedule, in_sem_down,
  in_mtx_lock, in_waitqueue_wait, in_join, in_join_destroy, exited, ready_queue, sem_queue, os_ok,
  os_destroyed,
}
use rados.Kernel.Run.{halted, modify, is_none}
use rados.Sched.{set_running}
use rados.Sched.Valid.{KernelValid, same-KernelValid}
use rados.Block.{wake}
use rados.Block.Wake.{set_task-KernelValid}
use rados.Sem.{sem_destroy, os_sem_destroy, set_sem_value}
use rados.Tasks.{finish_wait, go_on, resume, isr_enter, isr_leave, join_finished, join_woken}
use rados.Tasks.Join.{join_finished_lem}
use rados.Tasks.Resume.{running-KernelValid, finish_wait-Finished}
use rados.System.Destroy.{wake-Wakes, Keeps-drain}
use rados.System.Keeps.{
  Keeps, ok-Leads, nowhere-Leads, Keeps-bind, Keeps-pure, Keeps-get, Keeps-modify, Keeps-os_assert,
  Keeps-arch_critical_enter, Keeps-arch_critical_exit, Keeps-os_schedule, Keeps-if,
}

sem_queue-not_ready : (s : ℕ) → (sem_queue s == ready_queue) ≡ false
sem_queue-not_ready s = ground arith

pub Keeps-sem_destroy : (ctx : Bool → Context) (fuel s : ℕ) → Keeps (sem_destroy ctx fuel s)
unfolding sem_destroy set_sem_value
Keeps-sem_destroy ctx fuel s = Keeps-bind _ _ Keeps-get λ k.
    Keeps-bind _ _ (Keeps-os_assert (k.isr_nesting == 0)) λ _.
      Keeps-bind _ _ (Keeps-os_assert (is_none k.waitqueue_current)) λ _.
        Keeps-bind _ _ Keeps-arch_critical_enter λ c.
          Keeps-drain (wake os_destroyed) (wake-Wakes os_destroyed) (sem_queue s)
            (sem_queue-not_ready s) fuel _
            (Keeps-bind _ _
              (Keeps-modify (set_sem_value s 0)
                (λ k v. same-KernelValid k _ refl refl refl (λ i e. e) v))
              λ _. Keeps-bind _ _ (Keeps-os_schedule 1 (ctx c)) λ _. Keeps-arch_critical_exit c)

pub Keeps-os_sem_destroy : (fuel s : ℕ) → Keeps (os_sem_destroy fuel s)
unfolding os_sem_destroy
Keeps-os_sem_destroy = Keeps-sem_destroy in_schedule

is_destroyed : (s : TaskState) → (state_value s == 3) ≡ true → s ≡ TaskState.destroyed
is_destroyed TaskState.destroyed h = refl
is_destroyed TaskState.running h = absurd (cc)
is_destroyed TaskState.ready h = absurd (cc)
is_destroyed TaskState.wait h = absurd (cc)
is_destroyed TaskState.invalid h = absurd (cc)

join_finished-early :
    (k : Kernel) (cristate : Bool) (t : ℕ)
    → (state_value (k.tasks t).state == 3) ≡ false
    → join_finished cristate t k ≡ halted (record k { dint = true; sched_lock = 1 })
unfolding join_finished
join_finished-early k cristate t other = rw other refl

pub Keeps-join_finished : (cristate : Bool) (t : ℕ) → Keeps (join_finished cristate t)
Keeps-join_finished cristate t k k' v l = elim (Bool-cases (state_value (k.tasks t).state == 3)) [
  | inl gone ↦
      let (runs, v1) = join_finished_lem k v cristate t (is_destroyed (k.tasks t).state gone) in
      ok-Leads runs v1 l
  | inr other ↦ nowhere-Leads (inl (_, join_finished-early k cristate t other)) l
]

Keeps-join_woken : (cristate : Bool) (t s fuel ret : ℕ) → Keeps (join_woken cristate t s fuel ret)
unfolding join_woken
Keeps-join_woken cristate t s fuel ret = Keeps-bind _ _ (Keeps-os_assert (ret == os_ok)) λ _.
    Keeps-bind _ _ (Keeps-sem_destroy (in_join_destroy cristate t) fuel s)
      λ _. Keeps-join_finished cristate t

Keeps-finish_wait : (cristate : Bool) → Keeps (finish_wait cristate)
Keeps-finish_wait cristate k k' v l =
    let (k1, runs, f) = finish_wait-Finished k v cristate in ok-Leads runs f.valid l

Keeps-set_running : Keeps (modify set_running)
Keeps-set_running = Keeps-modify set_running running-KernelValid

pub Keeps-go_on : (fuel : ℕ) (ctx : Context) → Keeps (go_on fuel ctx)
unfolding go_on
Keeps-go_on fuel user_code = Keeps-bind _ _ (Keeps-arch_critical_exit false) λ _. Keeps-pure none
Keeps-go_on fuel (task_entry sp) =
    Keeps-bind _ _ (Keeps-arch_critical_exit false) λ _. Keeps-pure none
Keeps-go_on fuel (in_schedule c) =
    Keeps-bind _ _ Keeps-set_running
      λ _. Keeps-bind _ _ (Keeps-arch_critical_exit c) λ _. Keeps-pure none
Keeps-go_on fuel (in_sem_down c) = Keeps-bind _ _ (Keeps-finish_wait c) λ ret. Keeps-pure (some ret)
Keeps-go_on fuel (in_waitqueue_wait c) =
    Keeps-bind _ _ (Keeps-finish_wait c) λ ret. Keeps-pure (some ret)
Keeps-go_on fuel (in_mtx_lock c) = Keeps-bind _ _ Keeps-set_running λ _.
    Keeps-bind _ _ Keeps-get λ k.
      Keeps-bind _ _ (Keeps-arch_critical_exit c)
        λ _. Keeps-pure (some (k.tasks k.task_current).ret_value)
Keeps-go_on fuel (in_join c t s inner) =
    Keeps-bind _ _ (Keeps-finish_wait inner)
      λ ret. Keeps-bind _ _ (Keeps-join_woken c t s fuel ret) λ value. Keeps-pure (some value)
Keeps-go_on fuel (in_join_destroy c t inner) = Keeps-bind _ _ Keeps-set_running λ _.
    Keeps-bind _ _ (Keeps-arch_critical_exit inner)
      λ _. Keeps-bind _ _ (Keeps-join_finished c t) λ value. Keeps-pure (some value)
Keeps-go_on fuel exited = Keeps-bind _ _ (Keeps-os_assert false) λ _. Keeps-pure none

pub Keeps-resume : (fuel : ℕ) → Keeps (resume fuel)
unfolding resume
Keeps-resume fuel = Keeps-bind _ _ Keeps-get λ k. Keeps-go_on fuel (k.tasks k.task_current).ctx

pub isr_enter-KernelValid : (k : Kernel) → KernelValid k → KernelValid (isr_enter k)
unfolding isr_enter
isr_enter-KernelValid k v = elim (Bool-cases (k.isr_nesting == 0)) [
  | inl outer ↦ rw outer (
      set_task-KernelValid _ (same-KernelValid k _ refl refl refl (λ i e. e) v) k.task_current _
        refl refl refl (λ i e. e))
  | inr inner ↦ rw inner (same-KernelValid k _ refl refl refl (λ i e. e) v)
]

pub Keeps-isr_leave : (fuel : ℕ) → Keeps (isr_leave fuel)
unfolding isr_leave
Keeps-isr_leave fuel =
    Keeps-bind _ _
      (Keeps-modify (λ k. record k { isr_nesting = (k.isr_nesting + 255) % 2 ^ 8; dint = true })
        (λ k v. same-KernelValid k _ refl refl refl (λ i e. e) v))
      λ _. Keeps-bind _ _ Keeps-get λ k.
        Keeps-if (k.isr_nesting == 0) _ _ (Keeps-resume fuel)
          (Keeps-bind _ _ (Keeps-arch_critical_exit false) λ _. Keeps-pure none)
