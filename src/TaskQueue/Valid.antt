-- ===== src/TaskQueue/Valid.antt =====
-- The invariant of the task queues: where each task stands, and what each mask says.
use rados.Base.{
  ℕ, ◌+◌, ◌<◌, ◌≡◌, Bool, true, false, Option, none, some, List, [], ◌∷◌, arith, ◌==◌, ◌&&◌, not,
  if◌then◌else◌, count, count-append, is_empty, is_empty-append,
}
use rados.Bitmask.Laws.{
  bit, bit-arch_bitmask_set, bit-arch_bitmask_clear, arch_bitmask_set-lt, arch_bitmask_clear-lt,
}
use rados.Kernel.{Kernel, Task, priocnt}
use rados.TaskQueue.{enqueued, removed}

abbrev pub points_at : Option ℕ → ℕ → Bool
points_at none q = false
points_at (some r) q = r == q

-- Whether the fields of a task place it in bucket `p` of queue `q`.
abbrev pub stands_at : Task → ℕ → ℕ → Bool
stands_at task q p = points_at task.task_queue q && task.prio_current == p

pub record QueuesValid (k : Kernel) : Type 0 where
  -- A task stands once in the bucket that its fields name, and nowhere else.
  pub placed :
      (q p t : ℕ) → count t ((k.queues q).tasks p) ≡ (if stands_at (k.tasks t) q p then 1 else 0)
  -- The mask marks the buckets that hold a task.
  pub masked : (q p : ℕ) → p < 8 → bit (k.queues q).mask p ≡ not (is_empty ((k.queues q).tasks p))
  pub mask_small : (q : ℕ) → (k.queues q).mask < 256
  pub prio_small : (t : ℕ) → (k.tasks t).prio_current < priocnt
  pub linked : (t q : ℕ) → (k.tasks t).task_queue ≡ some q → (k.queues q).linked ≡ true

module _ (k : Kernel) (v : QueuesValid k) (q t : ℕ) where
  pub enqueued-QueuesValid :
      (k.tasks t).task_queue ≡ none → (k.queues q).linked ≡ true → QueuesValid (enqueued q t k)
  unfolding enqueued
  enqueued-QueuesValid out link =
      let prio = (k.tasks t).prio_current in
      let mask = (k.queues q).mask in
      record {
        placed = λ q' p t'.
            ground (arith, v.placed q' p t', count-append t' ((k.queues q).tasks p) (t ∷ []));
        masked = λ q' p h. ground (
          arith,
          v.masked q' p h,
          v.mask_small q,
          v.prio_small t,
          bit-arch_bitmask_set mask prio p,
          is_empty-append ((k.queues q).tasks p) t,
        );
        mask_small = λ q'. ground (arith, v.mask_small q', arch_bitmask_set-lt mask prio);
        prio_small = λ t'. ground (arith, v.prio_small t', v.prio_small t);
        linked = λ t' q' e. ground (arith, v.linked t' q');
      }

  -- Taking a task off its bucket, which is left with the others.
  pub removed-QueuesValid :
      (left : List ℕ)
      → (k.tasks t).task_queue ≡ some q
      → ((a : ℕ)
          → count a ((k.queues q).tasks (k.tasks t).prio_current)
            ≡ (if t == a then 1 else 0) + count a left)
      → QueuesValid (removed q (k.tasks t).prio_current left t k)
  unfolding removed
  removed-QueuesValid left e same =
      let prio = (k.tasks t).prio_current in
      let mask = (k.queues q).mask in
      record {
        placed = λ q' p t'. ground (arith, v.placed q' p t', v.placed q p t', same t');
        masked = λ q' p h. ground (
          arith,
          v.masked q' p h,
          v.masked q p h,
          v.mask_small q,
          v.prio_small t,
          v.placed q prio t,
          bit-arch_bitmask_clear mask prio p,
        );
        mask_small = λ q'. ground (arith, v.mask_small q', arch_bitmask_clear-lt mask prio);
        prio_small = λ t'. ground (arith, v.prio_small t', v.prio_small t);
        linked = λ t' q' e. ground (arith, v.linked t' q');
      }
