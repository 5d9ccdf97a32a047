-- ===== src/Tasks/Urgent.antt =====
-- Which task runs next where the first waiter of a queue is above every ready task.
use rados.Base.{ℕ, ◌%◌, ◌^◌, ◌+◌, ◌<◌, refl, ◌≤◌, ◌≡◌, List, [], ◌∷◌, arith, ◌==◌, if◌then◌else◌}
use rados.Kernel.{Kernel, Context, ready_queue, sem_queue, os_ok}
use rados.Kernel.Run.{Outcome, ok, switched}
use rados.Sched.Valid.{KernelValid}
use rados.Sched.Schedule.{Schedules, handed_over, redirected}
use rados.TaskQueue.{removed}
use rados.TaskQueue.Dequeue.{IsTop}
use rados.Block.Wake.{Woken}
use rados.Sem.Down.{inside}

-- A queue has one first task.
pub IsTop-same :
    (k : Kernel) (q : ℕ) {t p t' p' : ℕ} {left left' : List ℕ}
    → IsTop k q t p left
    → IsTop k q t' p' left'
    → (p' ≡ p) × (t' ≡ t) × (left' ≡ left)
IsTop-same k q {p = p} {p' = p'} j i =
    let same : p' ≡ p = ground (arith, i.heads, j.heads, i.highest p, j.highest p') in
    (same, ground (arith, same, i.heads, j.heads), ground (arith, same, i.heads, j.heads))

-- A task that is alone in the ready queue from its priority `p` on.
module _ (k1 : Kernel) (t p : ℕ)
    (bucket : (p' : ℕ)
      → p ≤ p'
      → (k1.queues ready_queue).tasks p' ≡ (if p' == p then t ∷ [] else [])) where
  pub bucket-IsTop :
      {t' p' : ℕ} {left' : List ℕ}
      → IsTop k1 ready_queue t' p' left'
      → (p' ≡ p) × (t' ≡ t) × (left' ≡ [])
  bucket-IsTop {t'} {p'} {left'} i =
      let at = bucket p (omega arith) in
      let same : p' ≡ p = ground (arith, i.heads, i.highest p, bucket p', at) in
      (same, ground (arith, same, i.heads, at), ground (arith, same, i.heads, at))

-- The scheduler runs in `k1`, in a task and without lock, where `t` is the only ready task of priority
-- `p` or more and the current task has less.
module _ (k1 : Kernel) (v : KernelValid k1) (t p : ℕ)
    (bucket : (p' : ℕ)
      → p ≤ p'
      → (k1.queues ready_queue).tasks p' ≡ (if p' == p then t ∷ [] else []))
    (task : k1.isr_nesting ≡ 0) (unlocked : k1.sched_lock ≡ 0)
    (below : (k1.tasks k1.task_current).prio_current < p) where
  pub bucket-handed_over :
      {ctx : Context} {r : Outcome (Unit {0})}
      → Schedules k1 (((k1.tasks k1.task_current).prio_current + 1) % 2 ^ 8) ctx r
      → (r ≡ switched (handed_over t p [] ctx k1))
        × KernelValid (handed_over t p [] ctx k1)
        × IsTop k1 ready_queue t p []
  bucket-handed_over (Schedules.locked h) = absurd (ground (arith, task, unlocked))
  bucket-handed_over (Schedules.keeps free h) =
      absurd (ground (arith, h p (omega (arith, below)), bucket p (omega arith)))
  bucket-handed_over {ctx}
        (Schedules.preempts {t = t'} {p = p'} {left = left'} free nest i l valid) =
      let (same, is_t, rest) = bucket-IsTop k1 t p bucket i in
      (rw (same, is_t, rest) refl, rw (same, is_t, rest) at valid, rw (same, is_t, rest) at i)
  bucket-handed_over (Schedules.redirects free isr i l valid) = absurd (ground (arith, task))

-- The scheduler runs in `k1`, in an outermost interrupt and without lock, where `t` is the only ready
-- task of priority `p` or more and the current task has no more.
module _ (k1 : Kernel) (t p : ℕ)
    (bucket : (p' : ℕ)
      → p ≤ p'
      → (k1.queues ready_queue).tasks p' ≡ (if p' == p then t ∷ [] else []))
    (interrupt : k1.isr_nesting ≡ 1) (unlocked : k1.sched_lock ≡ 0)
    (below : (k1.tasks k1.task_current).prio_current ≤ p) where
  pub bucket-redirected :
      {ctx : Context} {r : Outcome (Unit {0})}
      → Schedules k1 (((k1.tasks k1.task_current).prio_current + 0) % 2 ^ 8) ctx r
      → (r ≡ ok tt (redirected t p [] k1))
        × KernelValid (redirected t p [] k1)
        × IsTop k1 ready_queue t p []
  bucket-redirected (Schedules.locked h) = absurd (ground (arith, interrupt, unlocked))
  bucket-redirected (Schedules.keeps free h) =
      absurd (ground (arith, h p (omega (arith, below)), bucket p (omega arith)))
  bucket-redirected (Schedules.preempts free task i l valid) = absurd (ground (arith, interrupt))
  bucket-redirected (Schedules.redirects {t = t'} {p = p'} {left = left'} free isr i l valid) =
      let (same, is_t, rest) = bucket-IsTop k1 t p bucket i in
      (rw (same, is_t, rest) refl, rw (same, is_t, rest) at valid, rw (same, is_t, rest) at i)

module _ (k : Kernel) (s : ℕ) {t p : ℕ} {left : List ℕ} (top : IsTop k (sem_queue s) t p left)
    (above_ready : (p' : ℕ) → p ≤ p' → (k.queues ready_queue).tasks p' ≡ []) (k1 : Kernel)
    (w : Woken os_ok t (removed (sem_queue s) p left t (inside k)) k1) where
  pub woken_bucket :
      (p' : ℕ) → p ≤ p' → (k1.queues ready_queue).tasks p' ≡ (if p' == p then t ∷ [] else [])
  unfolding removed
  woken_bucket p' h = ground (arith, w.ready p', above_ready p' h, top.prio)

  pub woken-IsTop :
      {t' p' : ℕ} {left' : List ℕ}
      → IsTop k1 ready_queue t' p' left'
      → (p' ≡ p) × (t' ≡ t) × (left' ≡ [])
  woken-IsTop = bucket-IsTop k1 t p woken_bucket
