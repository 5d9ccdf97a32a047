-- ===== src/TaskQueue/Ops.antt =====
-- What the functions of the task queue do to a valid kernel: none faults, and each keeps the invariant.
use rados.Base.{
  ℕ, ◌+◌, ◌<◌, ◌≡◌, refl, inl, inr, true, false, none, some, arith, ◌==◌, if◌then◌else◌, count,
  count-erase_self, count-erase_ne, erase, Bool-cases, Option-cases,
}
use rados.Kernel.{Kernel, priocnt}
use rados.Kernel.Run.{ok}
use rados.TaskQueue.{
  enqueued, removed, set_prio_current, os_taskqueue_enqueue, os_taskqueue_unlink,
  os_taskqueue_reprio,
}
use rados.TaskQueue.Valid.{QueuesValid, enqueued-QueuesValid, removed-QueuesValid}

-- The kernel after `os_taskqueue_unlink` of a task of queue `q`.
abbrev pub unlinked : ℕ → ℕ → Kernel → Kernel
unlinked q t k =
    let prio = (k.tasks t).prio_current in removed q prio (erase t ((k.queues q).tasks prio)) t k

module _ (k : Kernel) (v : QueuesValid k) where
  -- In valid queues `os_taskqueue_enqueue` of a task that stands in no queue, to a queue that was
  -- initialised, puts it at the end of its bucket and leaves the queues valid.
  pub os_taskqueue_enqueue_lem :
      (q t : ℕ)
      → (k.tasks t).task_queue ≡ none
      → (k.queues q).linked ≡ true
      → (os_taskqueue_enqueue q t k ≡ ok tt (enqueued q t k)) × QueuesValid (enqueued q t k)
  unfolding os_taskqueue_enqueue
  os_taskqueue_enqueue_lem q t out link =
      (ground (arith, v.prio_small t), enqueued-QueuesValid k v q t out link)

  erase-count :
      (q t : ℕ)
      → (k.tasks t).task_queue ≡ some q
      → let bucket = (k.queues q).tasks (k.tasks t).prio_current in
        (a : ℕ) → count a bucket ≡ (if t == a then 1 else 0) + count a (erase t bucket)
  erase-count q t e a =
      let bucket = (k.queues q).tasks (k.tasks t).prio_current in
      ground (
        arith,
        v.placed q (k.tasks t).prio_current t,
        count-erase_self t bucket,
        count-erase_ne a t bucket,
      )

  -- In valid queues `os_taskqueue_unlink` of a task that stands in a queue takes it off its bucket
  -- and leaves the queues valid.
  pub os_taskqueue_unlink_lem :
      (q t : ℕ)
      → (k.tasks t).task_queue ≡ some q
      → (os_taskqueue_unlink t k ≡ ok tt (unlinked q t k)) × QueuesValid (unlinked q t k)
  unfolding os_taskqueue_unlink
  os_taskqueue_unlink_lem q t e =
      (rw (e, os_taskqueue_unlink), removed-QueuesValid k v q t _ e (erase-count q t e))

-- A task outside every queue may take any priority.
pub set_prio_current-QueuesValid :
    (k : Kernel)
    → QueuesValid k
    → (t prio : ℕ) → (k.tasks t).task_queue ≡ none
    → prio < priocnt
    → QueuesValid (set_prio_current t prio k)
unfolding set_prio_current
set_prio_current-QueuesValid k v t prio out h = record {
  placed = λ q p a. ground (arith, v.placed q p a);
  masked = v.masked;
  mask_small = v.mask_small;
  prio_small = λ a. ground (arith, v.prio_small a);
  linked = λ a q e. ground (arith, v.linked a q);
}

-- The kernel after `os_taskqueue_reprio` has moved task `t` of queue `q` to another bucket.
abbrev moved : ℕ → ℕ → ℕ → Kernel → Kernel
moved q t prio k = enqueued q t (set_prio_current t prio (unlinked q t k))

moved_lem :
    (k : Kernel)
    → QueuesValid k
    → (q t prio : ℕ) → prio < priocnt
    → ((k.tasks t).prio_current == prio) ≡ false
    → (k.tasks t).task_queue ≡ some q
    → (os_taskqueue_reprio t prio k ≡ ok tt (moved q t prio k)) × QueuesValid (moved q t prio k)
unfolding os_taskqueue_reprio
moved_lem k v q t prio h other e =
    let (gone, v1) = os_taskqueue_unlink_lem k v q t e in
    let out : ((unlinked q t k).tasks t).task_queue ≡ none = unfold removed in ground arith in
    let v2 = set_prio_current-QueuesValid (unlinked q t k) v1 t prio out h in
    let (back, v3) =
      os_taskqueue_enqueue_lem (set_prio_current t prio (unlinked q t k)) v2 q t
        (unfold removed set_prio_current in ground arith)
        (unfold removed set_prio_current in ground (arith, v.linked t q)) in
    (rw (other, os_taskqueue_reprio, e, gone) back, v3)

-- In valid queues `os_taskqueue_reprio` with a priority below OS_CONFIG_PRIOCNT succeeds, whether
-- the task stands in a queue or not: the queues stay valid and initialised, the task has the new
-- priority and else its old fields, no other task changes, and nothing but tasks and queues does.
pub os_taskqueue_reprio_lem :
    (k : Kernel)
    → QueuesValid k
    → (t prio : ℕ) → prio < priocnt
    → (k' : Kernel) × (os_taskqueue_reprio t prio k ≡ ok tt k')
      × QueuesValid k'
      × (k'.tasks t ≡ record (k.tasks t) { prio_current = prio })
      × ((a : ℕ) → (a == t) ≡ false → k'.tasks a ≡ k.tasks a)
      × ((q : ℕ) → (k'.queues q).linked ≡ (k.queues q).linked)
      × (k' ≡ record k { tasks = k'.tasks; queues = k'.queues })
unfolding os_taskqueue_reprio set_prio_current enqueued removed
os_taskqueue_reprio_lem k v t prio h = elim (Bool-cases ((k.tasks t).prio_current == prio)) [
  | inl same ↦ (k, rw same refl, v, ground arith, λ a ne. refl, λ q. refl, refl)
  | inr other ↦ elim (Option-cases (k.tasks t).task_queue) [
    | inl out ↦ (
      set_prio_current t prio k,
      ground arith,
      set_prio_current-QueuesValid k v t prio out h,
      ground arith,
      λ a ne. ground arith,
      λ q. refl,
      refl,
    )
    | inr (q, e) ↦
        let (runs, valid) = moved_lem k v q t prio h other e in
        (moved q t prio k, runs, valid, ground arith, λ a ne. ground arith, λ r. ground arith, refl)
  ]
]
