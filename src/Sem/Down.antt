-- ===== src/Sem/Down.antt =====
-- `os_sem_down`, on every branch.
use rados.Base.{ℕ, ◌-◌, ◌<◌, ◌≡◌, refl, ◌∙◌, Bool, true, false, none, [], arith, ◌==◌}
use rados.Kernel.{
  Kernel, TaskBlock, Context, in_sem_down, os_sem_timerclbck, task_idle, sem_queue, os_ok,
  os_wouldblock, ticks_max, magic1,
}
use rados.Kernel.Run.{ok, switched}
use rados.Sched.Valid.{KernelValid, same-KernelValid}
use rados.Timer.{ticksrem_max}
use rados.Block.Guard.{Guarded, os_blocktimer_create_lem}
use rados.Block.Switch.{Blocked, os_task_block_switch-Blocked}
use rados.Block.{os_blocktimer_create, os_task_block_switch}
use rados.Sem.{set_sem_value, sem_wait, sem_down, os_sem_down}

-- What the assertions of a call that may wait ask for.
pub record MayWait (k : Kernel) : Type 0 where
  pub in_task : k.isr_nesting ≡ 0
  pub busy : (k.task_current == task_idle) ≡ false
  pub unprepared : k.waitqueue_current ≡ none
  pub no_mutex : (k.tasks k.task_current).mtx_list ≡ []

-- The kernel inside a critical section.
abbrev pub inside : Kernel → Kernel
inside k = record k { dint = true }

sem_wait-guarded :
    (ctx : Bool → Context) (cristate : Bool) (s timeout_ticks timer : ℕ) (k k1 : Kernel)
    → 0 < timeout_ticks
    → timeout_ticks < ticks_max
    → os_blocktimer_create timer os_sem_timerclbck timeout_ticks k ≡ ok tt k1
    → sem_wait ctx cristate s timeout_ticks timer k
      ≡ os_task_block_switch {A = ℕ} (sem_queue s) TaskBlock.sem (ctx cristate) k1
unfolding sem_wait
sem_wait-guarded ctx cristate s timeout_ticks timer k k1 h l e =
    let a : (timeout_ticks == 0) ≡ false = ground arith in
    let b : (timeout_ticks == ticks_max) ≡ false = ground arith in rw (a, b, e) refl

module _ (k : Kernel) (s : ℕ) (may : MayWait k) where
  -- In a kernel that meets the assertions of `os_sem_down`: where the value is positive it goes
  -- down by one and the call returns OS_OK, whatever the timeout; where it is 0, OS_TIMEOUT_TRY
  -- returns OS_WOULDBLOCK and nothing changes.
  pub os_sem_down_now :
      (timeout_ticks timer : ℕ)
      → (0 < k.sems s
          → os_sem_down s timeout_ticks timer k ≡ ok os_ok (set_sem_value s (k.sems s - 1) k))
        × (k.sems s ≡ 0 → os_sem_down s 0 timer k ≡ ok os_wouldblock k)
  unfolding os_sem_down sem_down set_sem_value sem_wait
  os_sem_down_now timeout_ticks timer = (λ h. ground (arith, may), λ h. ground (arith, may))

  to_wait :
      (ctx : Bool → Context) (timeout_ticks timer : ℕ)
      → k.sems s ≡ 0
      → sem_down ctx s timeout_ticks timer k ≡ sem_wait ctx k.dint s timeout_ticks timer (inside k)
  unfolding sem_down
  to_wait ctx timeout_ticks timer h = ground (arith, may)

  module _ (v : KernelValid k) (link : (k.queues (sem_queue s)).linked ≡ true)
      (none_left : k.sems s ≡ 0) where
    -- A wait without timeout blocks the current task and starts no timer, whatever the call of which
    -- it is a part.
    pub sem_down-Blocked :
        (ctx : Bool → Context) (timer : ℕ)
        → (k' : Kernel) × (sem_down ctx s ticks_max timer k ≡ switched k')
          × Blocked (sem_queue s) TaskBlock.sem (ctx k.dint) (inside k) k'
    unfolding sem_wait
    sem_down-Blocked ctx timer =
        let v1 = same-KernelValid k (inside k) refl refl refl (λ i e. e) v in
        let (k', runs, b) =
          os_task_block_switch-Blocked (inside k) v1 (sem_queue s) TaskBlock.sem (ctx k.dint) link
            (ground arith) may.busy {A = ℕ} in
        (k', to_wait ctx ticks_max timer none_left ∙ runs, b)

    -- In a valid kernel that meets the assertions of `os_sem_down`, where the semaphore was created
    -- and its value is 0, a call with OS_TIMEOUT_INFINITE blocks the current task in the queue of
    -- the semaphore and starts no timer.
    pub os_sem_down_forever :
        (timer : ℕ)
        → (k' : Kernel) × (os_sem_down s ticks_max timer k ≡ switched k')
          × Blocked (sem_queue s) TaskBlock.sem (in_sem_down k.dint) (inside k) k'
    unfolding os_sem_down
    os_sem_down_forever = sem_down-Blocked in_sem_down

    -- In a valid kernel that meets the assertions of `os_sem_down`, where the semaphore was created
    -- and its value is 0, with a timeout from 1 up to below OS_TIMER_TICKSREM_MAX, with a timer
    -- that is not in use and with none guarding the current task, `os_sem_down` first starts the
    -- timer, for the callback of semaphores and the current task, and then blocks the task in the
    -- queue of the semaphore.
    pub os_sem_down-Guarded :
        (timeout_ticks timer : ℕ)
        → 0 < timeout_ticks
        → timeout_ticks < ticksrem_max
        → ((k.timers timer).magic == magic1) ≡ false
        → (k.tasks k.task_current).timer ≡ none
        → (k1 k' : Kernel) × (os_sem_down s timeout_ticks timer k ≡ switched k')
          × Guarded timer os_sem_timerclbck timeout_ticks (inside k) k1
          × Blocked (sem_queue s) TaskBlock.sem (in_sem_down k.dint) k1 k'
    unfolding os_sem_down
    os_sem_down-Guarded timeout_ticks timer h l m free =
        let v1 = same-KernelValid k (inside k) refl refl refl (λ i e. e) v in
        let (k1, starts, g) =
          os_blocktimer_create_lem timer os_sem_timerclbck timeout_ticks (inside k) v1 h l m free in
        let (k', runs, b) =
          os_task_block_switch-Blocked k1 g.valid (sem_queue s) TaskBlock.sem (in_sem_down k.dint)
            (rw g.queues link) (ground arith) (rw g.globals.task_current may.busy) {A = ℕ} in
        (
          k1,
          k',
          to_wait in_sem_down timeout_ticks timer none_left
              ∙ (sem_wait-guarded in_sem_down k.dint s timeout_ticks timer (inside k) k1 h
                    (omega arith) starts
                  ∙ runs),
          g,
          b,
        )
