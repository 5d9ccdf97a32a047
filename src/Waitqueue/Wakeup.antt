-- ===== src/Waitqueue/Wakeup.antt =====
-- The loop of `os_waitqueue_wakeup_sync`: how many tasks it wakes, and which.
use rados.Base.{
  ℕ, zero, suc, ◌-◌, ◌≤◌, ◌<◌, ◌≡◌, refl, ◌⊎◌, inl, inr, Bool, true, false, Option, none, some,
  List, arith, ◌==◌, ◌||◌, ◌&&◌, ltb, if◌then◌else◌, Bool-cases,
}
use rados.Kernel.{Kernel, ready_queue, wait_queue, os_ok}
use rados.Kernel.Run.{ok, Outcome, and_then, pure, ◌>>◌}
use rados.TaskQueue.{removed}
use rados.TaskQueue.Valid.{points_at}
use rados.TaskQueue.Dequeue.{IsTop, IsIdle, Dequeues, os_taskqueue_dequeue-Dequeues}
use rados.Sched.Valid.{KernelValid}
use rados.Block.{wake}
use rados.Block.Wake.{SameGlobals, Woken, wake_lem, removed_top-KernelValid}
use rados.Block.Drain.{queue_size, woken_task, removed_size, top_is_highest}
use rados.Waitqueue.{waitqueue_all, wakeup_loop}

-- How many tasks are left of `size` after `wakeup_cnt` were to be woken.
abbrev pub left_of : ℕ → ℕ → ℕ
left_of size wakeup_cnt = if wakeup_cnt == waitqueue_all then 0 else size - wakeup_cnt

-- The kernel `k'` after up to `wakeup_cnt` tasks of queue `q` were woken.
pub record WokenUp (q wakeup_cnt : ℕ) (k k' : Kernel) : Type 0 where
  pub valid : KernelValid k'
  pub size : queue_size k' q ≡ left_of (queue_size k q) wakeup_cnt
  -- Each waiter was woken with OS_OK, or waits as before.
  pub waiters :
      (t : ℕ)
      → points_at (k.tasks t).task_queue q ≡ true
      → (k'.tasks t ≡ k.tasks t) ⊎ (k'.tasks t ≡ woken_task os_ok (k.tasks t))
  pub others : (t : ℕ) → points_at (k.tasks t).task_queue q ≡ false → k'.tasks t ≡ k.tasks t
  -- No waiter that was left is more urgent than one that was woken.
  pub urgent :
      (t u : ℕ)
      → points_at (k.tasks t).task_queue q ≡ true
      → points_at (k'.tasks t).task_queue q ≡ false
      → points_at (k'.tasks u).task_queue q ≡ true
      → (k.tasks u).prio_current ≤ (k.tasks t).prio_current
  pub globals : SameGlobals k k'

module _ (queue : ℕ) where
  abbrev q : ℕ
  q = wait_queue queue

  other : (q == ready_queue) ≡ false
  other = ground arith

  Woken-WokenUp :
      (wakeup_cnt : ℕ) (k : Kernel)
      → KernelValid k
      → 0 < wakeup_cnt
      → wakeup_cnt < 256
      → {t p : ℕ} {left : List ℕ} → IsTop k q t p left
      → (k1 k' : Kernel) → Woken os_ok t (removed q p left t k) k1
      → WokenUp q (if wakeup_cnt == waitqueue_all then waitqueue_all else wakeup_cnt - 1) k1 k'
      → WokenUp q wakeup_cnt k k'
  unfolding removed
  Woken-WokenUp wakeup_cnt k v h small {t} {p} {left} i k1 k' w d =
      let size1 : queue_size k q ≡ suc (queue_size k1 q) =
        rw (w.elsewhere q other) (removed_size k v.queues i) in
      record {
        valid = d.valid;
        size = ground (arith, d.size, size1);
        waiters = λ a m. ground (arith, w.task, w.others a, d.waiters a, d.others a, i.queued);
        others = λ a m. ground (arith, w.task, w.others a, d.others a, i.queued);
        urgent = λ a u m gone still.
            let was : points_at (k.tasks u).task_queue q ≡ true =
              ground (arith, w.task, w.others u, d.others u, i.queued) in
            elim (Bool-cases (a == t)) [
              | inl first ↦ ground (arith, top_is_highest k v.queues i u was, i.prio)
              | inr later ↦ ground (arith, w.task, w.others a, w.others u, d.others u, d.urgent a u)
            ];
        globals = ground (arith, w.globals, d.globals);
      }

  -- Waking nobody.
  none-WokenUp :
      (wakeup_cnt : ℕ) (k : Kernel)
      → KernelValid k
      → queue_size k q ≡ left_of (queue_size k q) wakeup_cnt
      → WokenUp q wakeup_cnt k k
  none-WokenUp wakeup_cnt k v e = record {
    valid = v;
    size = e;
    waiters = λ t m. inl refl;
    others = λ t m. refl;
    urgent = λ t u m gone still. absurd (ground arith);
    globals = ground arith;
  }

  idle_size : (k : Kernel) → IsIdle k q → queue_size k q ≡ 0
  idle_size k i = rw (i 0, i 1, i 2, i 3, i 4) refl

  abbrev next_cnt : ℕ → ℕ
  next_cnt wakeup_cnt = if wakeup_cnt == waitqueue_all then waitqueue_all else wakeup_cnt - 1

  abbrev wakeup_body : ℕ → ℕ → Bool → Outcome (Option ℕ) → Outcome Bool
  wakeup_body fuel wakeup_cnt awoken r = and_then r λ task. elim task [
    | none ↦ pure awoken
    | some t ↦ (do wake os_ok t; wakeup_loop fuel queue (next_cnt wakeup_cnt) true)
  ]

  -- Whether a loop over a queue of `size` tasks woke one.
  abbrev pub woke : ℕ → ℕ → Bool
  woke size wakeup_cnt = ltb 0 wakeup_cnt && ltb 0 size

  wakeup_step :
      (fuel wakeup_cnt : ℕ) (awoken : Bool) (k : Kernel)
      → KernelValid k
      → queue_size k q < suc fuel
      → 0 < wakeup_cnt
      → wakeup_cnt < 256
      → ((k1 : Kernel)
          → KernelValid k1
          → queue_size k1 q < fuel
          → (k' : Kernel) × (wakeup_loop fuel queue (next_cnt wakeup_cnt) true k1 ≡ ok true k')
            × WokenUp q (next_cnt wakeup_cnt) k1 k')
      → {r : Outcome (Option ℕ)} → Dequeues k q r
      → (k' : Kernel) × (wakeup_body fuel wakeup_cnt awoken r
          ≡ ok (awoken || woke (queue_size k q) wakeup_cnt) k')
        × WokenUp q wakeup_cnt k k'
  wakeup_step fuel wakeup_cnt awoken k v h more small next (Dequeues.idle i) =
      let e = idle_size k i in
      (k, ground (arith, e), none-WokenUp wakeup_cnt k v (ground (arith, e)))
  wakeup_step fuel wakeup_cnt awoken k v h more small next (Dequeues.takes {t} {p} {left} i vr) =
      let (v1, out, ne) = removed_top-KernelValid k v i other in
      let (k1, e1, w) = wake_lem (removed q p left t k) v1 os_ok t out ne in
      let size1 : queue_size k q ≡ suc (queue_size k1 q) =
        rw (w.elsewhere q other) (removed_size k v.queues i) in
      let (k', e2, d) = next k1 w.valid (omega (arith, size1)) in
      let yes : (awoken || woke (queue_size k q) wakeup_cnt) ≡ true = ground (arith, size1) in
      (k', rw (e1, e2, yes) refl, Woken-WokenUp wakeup_cnt k v more small i k1 k' w d)

  pub wakeup_loop-WokenUp :
      (fuel wakeup_cnt : ℕ) (awoken : Bool) (k : Kernel)
      → KernelValid k
      → wakeup_cnt < 256
      → queue_size k q < fuel
      → (k' : Kernel) × (wakeup_loop fuel queue wakeup_cnt awoken k
          ≡ ok (awoken || woke (queue_size k q) wakeup_cnt) k')
        × WokenUp q wakeup_cnt k k'
  unfolding wakeup_loop
  wakeup_loop-WokenUp zero wakeup_cnt awoken k v small h = absurd (omega arith)
  wakeup_loop-WokenUp (suc fuel) wakeup_cnt awoken k v small h =
      elim (Bool-cases (wakeup_cnt == waitqueue_all || ltb 0 wakeup_cnt)) [
        | inl go ↦
            let (k', e, d) =
              wakeup_step fuel wakeup_cnt awoken k v h (ground arith) small
                (λ k1 v1 h1.
                  wakeup_loop-WokenUp fuel (next_cnt wakeup_cnt) true k1 v1 (ground arith) h1)
                (os_taskqueue_dequeue-Dequeues k v.queues q) in
            (k', rw go e, d)
        | inr stop ↦ (k, rw stop (ground arith), none-WokenUp wakeup_cnt k v (ground arith))
      ]
