-- ===== src/Tasks/JoinWait.antt =====
-- `os_task_join` up to its wait, or its result.
use rados.Base.{
  ℕ, ◌≡◌, ◌≢◌, ◌⊎◌, inl, inr, refl, ◌∙◌, true, false, none, some, arith, ◌==◌, ltb, if◌then◌else◌,
}
use rados.Kernel.{Kernel, TaskState, TaskBlock, state_value, in_join, sem_queue, ticks_max}
use rados.Kernel.Run.{M, ok, switched, Outcome, is_none, modify, ◌>>=◌, ◌>>◌}
use rados.TaskQueue.{os_taskqueue_init}
use rados.TaskQueue.Dequeue.{IsIdle}
use rados.Sched.{set_state}
use rados.Sched.Valid.{KernelValid, same-KernelValid}
use rados.Block.Wake.{set_task-KernelValid}
use rados.Block.Switch.{Blocked}
use rados.Block.Drain.{os_taskqueue_init-KernelValid}
use rados.Sem.{os_sem_create, set_sem_value, sem_down}
use rados.Sem.Down.{MayWait, inside, sem_down-Blocked}
use rados.Tasks.{os_task_join, join_finished, join_woken, set_join_sem}
use rados.Tasks.Join.{joined, join_finished_lem}

-- The kernel in which the current task waits to join `t`, with the semaphore `s` on its stack.
abbrev pub awaited : ℕ → ℕ → Kernel → Kernel
awaited t s k =
    set_join_sem t (some s) (set_sem_value s 0 (os_taskqueue_init (sem_queue s) (inside k)))

-- What `os_task_join` of task `t` does to the kernel `k`, by the state of the task.
pub data JoinsOrWaits (k : Kernel) (t s : ℕ) (r : Outcome ℕ) : Type 0 where
  -- A task that has ended gives its value at once, and is marked as joined.
  gone :
      (k.tasks t).state ≡ TaskState.destroyed
      → r ≡ ok (k.tasks t).ret_value (joined k.dint t k)
      → KernelValid (joined k.dint t k)
      → JoinsOrWaits k t s r
  -- For another the current task waits at a new semaphore that the task will signal.
  waits :
      (k' : Kernel)
      → (k.tasks t).state ≢ TaskState.destroyed
      → r ≡ switched k'
      → Blocked (sem_queue s) TaskBlock.sem (in_join k.dint t s true) (awaited t s k) k'
      → ((k'.tasks t).join_sem ≡ some s)
      → JoinsOrWaits k t s r

is_destroyed : (state : TaskState) → (state ≡ TaskState.destroyed) ⊎ (state ≢ TaskState.destroyed)
is_destroyed TaskState.destroyed = inl refl
is_destroyed TaskState.running = inr (λ e. absurd (cc))
is_destroyed TaskState.ready = inr (λ e. absurd (cc))
is_destroyed TaskState.wait = inr (λ e. absurd (cc))
is_destroyed TaskState.invalid = inr (λ e. absurd (cc))

-- A task that was neither joined nor has ended.
live :
    (state : TaskState)
    → state ≢ TaskState.destroyed
    → state ≢ TaskState.invalid
    → (ltb (state_value state) 3 ≡ true) × ((state_value state == 4) ≡ false)
live TaskState.destroyed a b = absurd (a refl)
live TaskState.running a b = (refl, refl)
live TaskState.ready a b = (refl, refl)
live TaskState.wait a b = (refl, refl)
live TaskState.invalid a b = absurd (b refl)

module _ (k : Kernel) (v : KernelValid k) (t s timer : ℕ) (may : MayWait k)
    (first : (k.tasks t).join_sem ≡ none) (fresh : (k.tasks t).state ≢ TaskState.invalid)
    (idle : IsIdle k (sem_queue s)) where
  awaited-KernelValid : KernelValid (awaited t s k)
  unfolding set_join_sem set_sem_value
  awaited-KernelValid =
      let v1 = same-KernelValid k (inside k) refl refl refl (λ i e. e) v in
      let v2 = os_taskqueue_init-KernelValid (inside k) v1 (sem_queue s) (ground arith) idle in
      let k2 = set_sem_value s 0 (os_taskqueue_init (sem_queue s) (inside k)) in
      set_task-KernelValid k2 (same-KernelValid _ k2 refl refl refl (λ i e. e) v2) t _ refl refl
        refl (λ i e. e)

  awaited-MayWait : MayWait (awaited t s k)
  unfolding set_join_sem set_sem_value os_taskqueue_init
  awaited-MayWait = record {
    in_task = may.in_task;
    busy = may.busy;
    unprepared = may.unprepared;
    no_mutex = ground (arith, may.no_mutex);
  }

  asserted_in_task : (k.isr_nesting == 0) ≡ true
  asserted_in_task = ground (arith, may.in_task)

  asserted_unprepared : is_none k.waitqueue_current ≡ true
  asserted_unprepared = rw may.unprepared refl

  asserted_first : is_none (k.tasks t).join_sem ≡ true
  asserted_first = rw first refl

  -- The part of the call behind its assertions.
  abbrev rest : ℕ → M ℕ
  rest fuel =
      if ltb (state_value (k.tasks t).state) 3
      then (do
        os_sem_create s 0
        modify (set_join_sem t (some s))
        ret ← sem_down (in_join k.dint t s) s ticks_max timer
        join_woken k.dint t s fuel ret)
      else join_finished k.dint t

  asserted :
      (fuel : ℕ)
      → (state_value (k.tasks t).state == 4) ≡ false
      → os_task_join fuel t s timer k ≡ rest fuel (inside k)
  unfolding os_task_join
  asserted fuel known =
      let task : (k.isr_nesting == 0) ≡ true = ground (arith, may.in_task) in
      let unprepared : is_none k.waitqueue_current ≡ true = rw may.unprepared refl in
      let alone : is_none (k.tasks t).join_sem ≡ true = rw first refl in
      rw (task, may.busy, unprepared, alone, known) refl

  created :
      os_sem_create s 0 (inside k)
      ≡ ok tt (set_sem_value s 0 (os_taskqueue_init (sem_queue s) (inside k)))
  unfolding os_sem_create
  created = rw may.unprepared refl

  -- In a valid kernel that meets the assertions of `os_task_join`, for a task that nobody has
  -- joined and a new semaphore: of a task that has ended it returns the value at once and marks the
  -- task as joined; else it blocks the current task at the semaphore without timeout, and the task
  -- knows that semaphore. The kernel stays valid.
  pub os_task_join-JoinsOrWaits : (fuel : ℕ) → JoinsOrWaits k t s (os_task_join fuel t s timer k)
  unfolding set_join_sem set_sem_value os_taskqueue_init set_state
  os_task_join-JoinsOrWaits fuel = elim (is_destroyed (k.tasks t).state) [
    | inl ended ↦
        let v1 = same-KernelValid k (inside k) refl refl refl (λ i e. e) v in
        let (runs, valid) = join_finished_lem (inside k) v1 k.dint t ended in
        let known : (state_value (k.tasks t).state == 4) ≡ false = rw ended refl in
        let below : ltb (state_value (k.tasks t).state) 3 ≡ false = rw ended refl in
        JoinsOrWaits.gone ended (asserted fuel known ∙ rw below runs) valid
    | inr runs_on ↦
        let (below, known) = live (k.tasks t).state runs_on fresh in
        let (k', runs, b) =
          sem_down-Blocked (awaited t s k) s awaited-MayWait awaited-KernelValid (ground arith)
            (ground arith) (in_join k.dint t s) timer in
        JoinsOrWaits.waits k' runs_on (asserted fuel known ∙ rw (below, created, runs) refl) b
          (ground (arith, b.task, b.others t))
  ]
