-- ===== src/System/Calls.antt =====
-- Calls that keep the kernel valid wherever they lead: the scheduler lock, `os_yield`, `os_start`, the
-- creation of objects and the timers of the program.
use rados.Base.{
  ℕ, ◌+◌, ◌-◌, ◌%◌, ◌^◌, ◌<◌, ◌≡◌, refl, Bool, true, false, Option, none, some, is_empty, arith,
  ◌==◌, ◌&&◌, ◌||◌, inl, inr, Bool-cases, not, ltb,
}
use rados.Kernel.{
  Kernel, Callback, magic1, magic2, in_schedule, atomic_max, task_idle, sem_queue, mtx_queue,
  wait_queue,
}
use rados.Kernel.Run.{set_timer, ok, modify, is_none}
use rados.TaskQueue.Dequeue.{IsIdle}
use rados.Sched.Valid.{KernelValid, same-KernelValid}
use rados.Sched.Lock.{
  os_scheduler_lock, os_scheduler_unlock, os_yield, os_start, schedule_section, set_sched_lock,
}
use rados.Block.Drain.{os_taskqueue_init-KernelValid}
use rados.Timer.{
  os_timer_create, os_timer_destroy, timer_add, add_ticks, stop_timer, reset_unsynch, ticksrem_max,
}
use rados.Sem.{set_sem_value, os_sem_create}
use rados.Mtx.{os_mtx_create, os_mtx_unlock, set_recur, set_mtx, owned_by}
use rados.Mtx.Unlock.{MayUnlock}
use rados.Waitqueue.{
  os_waitqueue_create, os_waitqueue_prepare, os_waitqueue_break, set_waitqueue_current,
}
use rados.System.Keeps.{
  Leads, Keeps, ok-Leads, Keeps-bind, Keeps-pure, Keeps-get, Keeps-modify, Keeps-os_assert,
  Keeps-if, Keeps-arch_critical_enter, Keeps-arch_critical_exit, Keeps-os_schedule, assert_step,
}

pub Keeps-schedule_section : (higher_prio : ℕ) → Keeps (schedule_section higher_prio)
unfolding schedule_section
Keeps-schedule_section higher_prio = Keeps-bind _ _ Keeps-arch_critical_enter λ c.
    Keeps-bind _ _ (Keeps-os_schedule higher_prio (in_schedule c)) λ _. Keeps-arch_critical_exit c

pub Keeps-set_sched_lock : (n : ℕ) → Keeps (modify (set_sched_lock n))
unfolding set_sched_lock
Keeps-set_sched_lock n =
    Keeps-modify (set_sched_lock n) (λ k v. same-KernelValid k _ refl refl refl (λ i e. e) v)

pub Keeps-os_scheduler_lock : Keeps os_scheduler_lock
unfolding os_scheduler_lock
Keeps-os_scheduler_lock = Keeps-bind _ _ Keeps-get λ k.
    Keeps-bind _ _ (Keeps-os_assert (k.isr_nesting == 0)) λ _.
      Keeps-bind _ _ (Keeps-os_assert (is_none k.waitqueue_current))
        λ _. Keeps-set_sched_lock ((k.sched_lock + 1) % 2 ^ 8)

pub Keeps-os_scheduler_unlock : (sync : Bool) → Keeps (os_scheduler_unlock sync)
unfolding os_scheduler_unlock
Keeps-os_scheduler_unlock sync = Keeps-bind _ _ Keeps-get λ k.
    Keeps-bind _ _ (Keeps-os_assert (k.isr_nesting == 0)) λ _.
      Keeps-bind _ _ (Keeps-os_assert (is_none k.waitqueue_current)) λ _.
        Keeps-bind _ _ (Keeps-set_sched_lock ((k.sched_lock + 255) % 2 ^ 8)) λ _.
          Keeps-if (not sync && (k.sched_lock + 255) % 2 ^ 8 == 0) _ _ (Keeps-schedule_section 1)
            (Keeps-pure tt)

pub Keeps-os_yield : Keeps os_yield
unfolding os_yield
Keeps-os_yield = Keeps-bind _ _ Keeps-get λ k.
    Keeps-bind _ _ (Keeps-os_assert (k.isr_nesting == 0)) λ _.
      Keeps-bind _ _ (Keeps-os_assert (not (k.task_current == task_idle))) λ _.
        Keeps-bind _ _ (Keeps-os_assert (is_none k.waitqueue_current)) λ _. Keeps-schedule_section 0

pub Keeps-set_waitqueue_current : (queue : Option ℕ) → Keeps (modify (set_waitqueue_current queue))
unfolding set_waitqueue_current
Keeps-set_waitqueue_current queue =
    Keeps-modify (set_waitqueue_current queue)
      (λ k v. same-KernelValid k _ refl refl refl (λ i e. e) v)

pub Keeps-os_waitqueue_prepare : (queue : ℕ) → Keeps (os_waitqueue_prepare queue)
unfolding os_waitqueue_prepare
Keeps-os_waitqueue_prepare queue = Keeps-bind _ _ Keeps-get λ k.
    Keeps-bind _ _ (Keeps-os_assert (k.isr_nesting == 0)) λ _.
      Keeps-bind _ _ (Keeps-os_assert (not (k.task_current == task_idle))) λ _.
        Keeps-bind _ _ (Keeps-os_assert (is_empty (k.tasks k.task_current).mtx_list)) λ _.
          Keeps-bind _ _ (Keeps-os_assert (is_none k.waitqueue_current)) λ _.
            Keeps-bind _ _ Keeps-os_scheduler_lock λ _. Keeps-set_waitqueue_current (some queue)

pub Keeps-os_waitqueue_break : Keeps os_waitqueue_break
unfolding os_waitqueue_break
Keeps-os_waitqueue_break = Keeps-bind _ _ Keeps-get λ k.
    Keeps-bind _ _ (Keeps-os_assert (k.isr_nesting == 0))
      λ _. Keeps-bind _ _ (Keeps-set_waitqueue_current none) λ _. Keeps-os_scheduler_unlock false

pub Keeps-os_start : Keeps os_start
unfolding os_start
Keeps-os_start = Keeps-bind _ _ Keeps-get λ k.
    Keeps-bind _ _ (Keeps-os_assert (k.task_current == task_idle)) λ _.
      Keeps-bind _ _ (Keeps-os_assert k.dint) λ _.
        Keeps-bind _ _
          (Keeps-modify (λ k. record k { sched_lock = 0; dint = false })
            (λ k v. same-KernelValid k _ refl refl refl (λ i e. e) v))
          λ _. Keeps-schedule_section 0

module _ (k : Kernel) (v : KernelValid k) where
  pub os_sem_create-KernelValid :
      (s init_value : ℕ) {k' : Kernel}
      → IsIdle k (sem_queue s)
      → Leads (os_sem_create s init_value k) k'
      → KernelValid k'
  unfolding os_sem_create set_sem_value
  os_sem_create-KernelValid s init_value {k'} idle l =
      let v1 = os_taskqueue_init-KernelValid k v (sem_queue s) (ground arith) idle in
      assert_step (ltb init_value atomic_max) _ k k'
        (λ _ l.
          assert_step (is_none k.waitqueue_current) _ k k'
            (λ _ l. ok-Leads refl (same-KernelValid _ _ refl refl refl (λ i e. e) v1) l) l)
        l

  pub os_mtx_create-KernelValid :
      (m : ℕ) {k' : Kernel} → IsIdle k (mtx_queue m) → Leads (os_mtx_create m k) k' → KernelValid k'
  unfolding os_mtx_create set_mtx
  os_mtx_create-KernelValid m {k'} idle l =
      let k1 = set_mtx m (record { owner = none; recur = 0 }) k in
      let v1 : KernelValid k1 = same-KernelValid k k1 refl refl refl (λ i e. e) v in
      let v2 = os_taskqueue_init-KernelValid k1 v1 (mtx_queue m) (ground arith) idle in
      assert_step (k.isr_nesting == 0) _ k k'
        (λ _ l. assert_step (is_none k.waitqueue_current) _ k k' (λ _ l. ok-Leads refl v2 l) l) l

  pub os_waitqueue_create-KernelValid :
      (queue : ℕ) {k' : Kernel}
      → IsIdle k (wait_queue queue)
      → Leads (os_waitqueue_create queue k) k'
      → KernelValid k'
  unfolding os_waitqueue_create
  os_waitqueue_create-KernelValid queue {k'} idle l =
      let v1 = os_taskqueue_init-KernelValid k v (wait_queue queue) (ground arith) idle in
      assert_step (is_none k.waitqueue_current) _ k k' (λ _ l. ok-Leads refl v1 l) l

  -- Only the level of a mutex that stays locked changes.
  pub os_mtx_unlock-inner :
      (m : ℕ)
      → MayUnlock k m
      → 1 < (k.mtxs m).recur
      → (k.mtxs m).recur < 2 ^ 8
      → os_mtx_unlock m k ≡ ok tt (set_recur m ((k.mtxs m).recur - 1) k)
  unfolding os_mtx_unlock set_recur set_mtx
  os_mtx_unlock-inner m may deep small =
      let own : owned_by (k.mtxs m).owner k.task_current ≡ true = ground (arith, may.mine) in
      let down : ((k.mtxs m).recur + 255) % 2 ^ 8 ≡ (k.mtxs m).recur - 1 = omega arith in
      let stays : ltb 0 ((k.mtxs m).recur - 1) ≡ true = ground arith in
      rw (may.in_task, own, may.unprepared, down, stays) refl

-- The timers of the program.
pub Keeps-os_timer_create :
    (timer : ℕ) (clbck : Callback) (param timeout_ticks reload_ticks : ℕ)
    → Keeps (os_timer_create timer clbck param timeout_ticks reload_ticks)
unfolding os_timer_create timer_add
Keeps-os_timer_create timer clbck param timeout_ticks reload_ticks = Keeps-bind _ _ Keeps-get λ k.
    Keeps-bind _ _ (Keeps-os_assert (ltb 0 timeout_ticks)) λ _.
      Keeps-bind _ _ (Keeps-os_assert (ltb timeout_ticks ticksrem_max)) λ _.
        Keeps-bind _ _ (Keeps-os_assert (not ((k.timers timer).magic == magic1))) λ _.
          Keeps-bind _ _ Keeps-arch_critical_enter λ c.
            Keeps-bind _ _
              (Keeps-modify
                (λ k.
                  set_timer timer
                    (record {
                      ticks_rem = add_ticks timeout_ticks k.timer_tick_unsynch;
                      ticks_reload = reload_ticks;
                      clbck = clbck;
                      param = param;
                      magic = magic1;
                    })
                    k)
                (λ k v. same-KernelValid k _ refl refl refl (λ i e. ground arith) v))
              λ _.
                Keeps-bind _ _
                  (Keeps-modify (timer_add timer)
                    (λ k v. same-KernelValid k _ refl refl refl (λ i e. e) v))
                  λ _. Keeps-arch_critical_exit c

stop_timer-KernelValid : (timer : ℕ) (k : Kernel) → KernelValid k → KernelValid (stop_timer timer k)
unfolding stop_timer
stop_timer-KernelValid timer k v = elim (Bool-cases (ltb 0 (k.timers timer).ticks_rem)) [
  | inl armed ↦ rw armed (same-KernelValid k _ refl refl refl (λ i e. ground arith) v)
  | inr idle ↦ rw idle (same-KernelValid k _ refl refl refl (λ i e. ground arith) v)
]

reset_unsynch-KernelValid : (k : Kernel) → KernelValid k → KernelValid (reset_unsynch k)
unfolding reset_unsynch
reset_unsynch-KernelValid k v = elim (Bool-cases (is_empty k.timer_list)) [
  | inl none_left ↦ rw none_left (same-KernelValid k _ refl refl refl (λ i e. e) v)
  | inr some_left ↦ rw some_left v
]

pub Keeps-os_timer_destroy : (timer : ℕ) → Keeps (os_timer_destroy timer)
unfolding os_timer_destroy
Keeps-os_timer_destroy timer = Keeps-bind _ _ Keeps-get λ k.
    Keeps-bind _ _
      (Keeps-os_assert ((k.timers timer).magic == magic1 || (k.timers timer).magic == magic2))
      λ _. Keeps-bind _ _ Keeps-arch_critical_enter λ c.
        Keeps-bind _ _ (Keeps-modify (stop_timer timer) (stop_timer-KernelValid timer)) λ _.
          Keeps-bind _ _ (Keeps-modify reset_unsynch reset_unsynch-KernelValid)
            λ _. Keeps-arch_critical_exit c
