-- ===== src/Mtx/Boost.antt =====
-- Priority inheritance along a chain of owners: `os_mtx_lock_prio_boost`.
use rados.Base.{
  ℕ, zero, suc, ◌≤◌, ◌<◌, ◌≡◌, refl, inl, inr, true, false, some, List, [], ◌∷◌, arith, ◌==◌, ltb,
  if◌then◌else◌, length, mem, Bool-cases,
}
use rados.Kernel.{Kernel, Task, ready_queue, priocnt, mtx_of_queue}
use rados.Kernel.Run.{ok}
use rados.TaskQueue.{os_taskqueue_reprio}
use rados.TaskQueue.Ops.{os_taskqueue_reprio_lem}
use rados.Sched.Valid.{KernelValid}
use rados.Mtx.{blocked_on_mtx, os_max, boost_loop, os_mtx_lock_prio_boost}

-- The tasks that `os_mtx_lock_prio_boost` visits from an owner on: each waits for a mutex of the next.
pub data Chain (k : Kernel) : ℕ → List ℕ → Type 0 where
  last : {t : ℕ} → blocked_on_mtx (k.tasks t) ≡ false → Chain k t (t ∷ [])
  waits :
      {t q owner : ℕ} {rest : List ℕ}
      → blocked_on_mtx (k.tasks t) ≡ true
      → (k.tasks t).task_queue ≡ some q
      → (k.mtxs (mtx_of_queue q)).owner ≡ some owner
      → Chain k owner rest
      → Chain k t (t ∷ rest)

abbrev pub with_prio : ℕ → Task → Task
with_prio prio task = record task { prio_current = prio }

-- The kernel `k'` after the tasks `ts` got the priority `prio`.
pub record Boosted (prio : ℕ) (ts : List ℕ) (k k' : Kernel) : Type 0 where
  pub valid : KernelValid k'
  pub tasks : (a : ℕ) → k'.tasks a ≡ (if mem a ts then with_prio prio (k.tasks a) else k.tasks a)
  pub linked : (q : ℕ) → (k'.queues q).linked ≡ (k.queues q).linked
  pub rest : k' ≡ record k { tasks = k'.tasks; queues = k'.queues }

pub Chain-same :
    (k k' : Kernel)
    → ((a : ℕ) → k'.tasks a ≡ with_prio (k'.tasks a).prio_current (k.tasks a))
    → k'.mtxs ≡ k.mtxs
    → {t : ℕ} {ts : List ℕ} → Chain k t ts
    → Chain k' t ts
Chain-same k k' same em (last {t} free) = last (rw (same t) free)
Chain-same k k' same em (waits {t} {q} {owner} blocked eq eo c) =
    waits {q = q} {owner = owner} (rw (same t) blocked) (rw (same t) eq) (rw em eo)
      (Chain-same k k' same em c)

os_taskqueue_reprio-Boosted :
    (k : Kernel)
    → KernelValid k
    → (t prio : ℕ) → prio < priocnt
    → (k' : Kernel) × (os_taskqueue_reprio t prio k ≡ ok tt k') × Boosted prio (t ∷ []) k k'
os_taskqueue_reprio-Boosted k v t prio h =
    let (k', e, vq, et, eo, el, ek) = os_taskqueue_reprio_lem k v.queues t prio h in
    let same : (a : ℕ) → k'.tasks a ≡ (if a == t then with_prio prio (k.tasks a) else k.tasks a) =
      λ a. ground (arith, et, eo a) in
    (
      k',
      e,
      record {
        valid = record {
          queues = vq;
          ready_linked = ground (arith, el ready_queue, v.ready_linked);
          current_free = ground (arith, ek, same k'.task_current, v.current_free);
          in_ready = λ a m. ground (arith, same a, v.in_ready a);
          in_wait = λ a q m n. ground (arith, same a, v.in_wait a q);
          idle_there = ground (arith, ek, same 0, v.idle_there);
          timer_made = λ a i m. ground (arith, ek, same a, v.timer_made a i);
        };
        tasks = λ a. ground (arith, same a);
        linked = el;
        rest = ek;
      },
    )

Boosted-current :
    {prio : ℕ} {ts : List ℕ} {k k' : Kernel}
    → Boosted prio ts k k'
    → (k.tasks k.task_current).prio_current ≡ prio
    → (k'.tasks k'.task_current).prio_current ≡ prio
Boosted-current {prio} {ts} {k} {k'} b e = ground (arith, b.rest, b.tasks k.task_current)

Boosted-append :
    {prio : ℕ} {t : ℕ} {rest : List ℕ} {k k1 k' : Kernel}
    → Boosted prio (t ∷ []) k k1
    → Boosted prio rest k1 k'
    → Boosted prio (t ∷ rest) k k'
Boosted-append {prio} {t} {rest} {k} {k1} {k'} b c = record {
  valid = c.valid;
  tasks = λ a. ground (arith, b.tasks a, c.tasks a);
  linked = λ q. ground (arith, b.linked q, c.linked q);
  rest = ground (arith, b.rest, c.rest);
}

boost_loop-Boosted :
    (fuel : ℕ) {task : ℕ} {ts : List ℕ} (prio : ℕ) (k : Kernel)
    → KernelValid k
    → prio < priocnt
    → (k.tasks k.task_current).prio_current ≡ prio
    → Chain k task ts
    → length ts ≤ fuel
    → (k' : Kernel) × (boost_loop fuel task prio k ≡ ok tt k') × Boosted prio ts k k'
unfolding boost_loop
boost_loop-Boosted zero prio k v h cur (last free) enough = absurd (omega arith)
boost_loop-Boosted zero prio k v h cur (waits m eq eo c) enough = absurd (omega arith)
boost_loop-Boosted (suc fuel) prio k v h cur (last {t} free) enough =
    let (k1, e, b) = os_taskqueue_reprio-Boosted k v t prio h in
    let own : os_max (k.tasks k.task_current).prio_current prio ≡ prio = ground arith in
    let stop : blocked_on_mtx (k1.tasks t) ≡ false = ground (arith, b.tasks t) in
    (k1, rw (own, e, stop) refl, b)
boost_loop-Boosted (suc fuel) prio k v h cur (waits {t} {q} {owner} {rest} m eq eo c) enough =
    let (k1, e, b) = os_taskqueue_reprio-Boosted k v t prio h in
    let own : os_max (k.tasks k.task_current).prio_current prio ≡ prio = ground arith in
    let go : blocked_on_mtx (k1.tasks t) ≡ true = ground (arith, b.tasks t) in
    let eq1 : (k1.tasks t).task_queue ≡ some q = ground (arith, b.tasks t) in
    let em : k1.mtxs ≡ k.mtxs = ground (arith, b.rest) in
    let eo1 : (k1.mtxs (mtx_of_queue q)).owner ≡ some owner = rw em eo in
    let c1 = Chain-same k k1 (λ a. ground (arith, b.tasks a)) em c in
    let (k', e2, b2) =
      boost_loop-Boosted fuel prio k1 b.valid h (Boosted-current b cur) c1 (omega arith) in
    (k', rw (own, e, go, eq1, eo1) e2, Boosted-append b b2)

-- In a valid kernel, for a mutex whose owner starts a finite chain of tasks of which each waits for
-- a mutex of the next, with fuel for the chain, `os_mtx_lock_prio_boost` ends. Where the owner has
-- a lower priority than the current task, every task of the chain gets exactly the priority of the
-- current task, also one that had a higher one; else no task changes. The kernel stays valid.
pub os_mtx_lock_prio_boost-Boosted :
    (fuel m : ℕ) {owner : ℕ} {ts : List ℕ} (k : Kernel)
    → KernelValid k
    → (k.mtxs m).owner ≡ some owner
    → Chain k owner ts
    → length ts ≤ fuel
    → let prio = (k.tasks k.task_current).prio_current in
      (k' : Kernel) × (os_mtx_lock_prio_boost fuel m k ≡ ok tt k')
      × Boosted prio (if ltb (k.tasks owner).prio_current prio then ts else []) k k'
unfolding os_mtx_lock_prio_boost
os_mtx_lock_prio_boost-Boosted fuel m {owner} {ts} k v eo c enough =
    let prio = (k.tasks k.task_current).prio_current in
    elim (Bool-cases (ltb (k.tasks owner).prio_current prio)) [
      | inl less ↦
          let (k', e, b) =
            boost_loop-Boosted fuel prio k v (v.queues.prio_small k.task_current) refl c enough in
          (k', rw (eo, less) e, rw less b)
      | inr more ↦ (
        k,
        rw (eo, more) refl,
        rw more (record { valid = v; tasks = λ a. refl; linked = λ q. refl; rest = refl }),
      )
    ]
