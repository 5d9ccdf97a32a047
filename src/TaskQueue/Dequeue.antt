-- ===== src/TaskQueue/Dequeue.antt =====
-- Taking the most urgent task: `os_taskqueue_dequeue`, `os_taskqueue_dequeue_prio`, `os_taskqueue_peek`.
use rados.Base.{
  ℕ, zero, suc, ◌-◌, ◌≤◌, ◌<◌, ◌≡◌, refl, subst, inl, inr, true, false, Option, none, some, List,
  [], ◌∷◌, arith, ◌==◌, if◌then◌else◌, ltb, count, Bool-cases,
}
use rados.Bitmask.{arch_bitmask_fls}
use rados.Bitmask.Laws.{bit, bit-fls, bit-above_fls}
use rados.Kernel.{Kernel, priocnt}
use rados.Kernel.Run.{ok, fault, Outcome}
use rados.TaskQueue.{
  removed, os_taskqueue_intdequeue, os_taskqueue_dequeue, os_taskqueue_dequeue_prio,
  os_taskqueue_peek,
}
use rados.TaskQueue.Valid.{QueuesValid, removed-QueuesValid}

no_members : (xs : List ℕ) → ((a : ℕ) → count a xs ≡ 0) → xs ≡ []
no_members [] h = refl
no_members (x ∷ xs) h = absurd (ground (arith, h x))

module _ (k : Kernel) (v : QueuesValid k) (q : ℕ) where
  abbrev pub bucket : ℕ → List ℕ
  bucket = (k.queues q).tasks

  beyond : (p : ℕ) → priocnt ≤ p → bucket p ≡ []
  beyond p h = no_members (bucket p) (λ a. ground (arith, v.placed q p a, v.prio_small a))

  empty_of_bit : (p : ℕ) → bit (k.queues q).mask p ≡ false → bucket p ≡ []
  empty_of_bit p h = elim (Bool-cases (ltb p 8)) [
    | inl small ↦ ground (arith, v.masked q p)
    | inr large ↦ beyond p (ground arith)
  ]

  above_fls : (p : ℕ) → arch_bitmask_fls (k.queues q).mask ≤ p → bucket p ≡ []
  above_fls p h = elim (Bool-cases (ltb p 8)) [
    | inl small ↦
        empty_of_bit p (bit-above_fls (k.queues q).mask p (v.mask_small q) (ground arith) h)
    | inr large ↦ beyond p (ground arith)
  ]

-- Task `t` heads the bucket of the highest priority in use, `p`; `left` is the rest of the bucket.
pub record IsTop (k : Kernel) (q t p : ℕ) (left : List ℕ) : Type 0 where
  pub heads : (k.queues q).tasks p ≡ t ∷ left
  pub highest : (p' : ℕ) → p < p' → (k.queues q).tasks p' ≡ []
  pub queued : (k.tasks t).task_queue ≡ some q
  pub prio : (k.tasks t).prio_current ≡ p

abbrev pub IsIdle : Kernel → ℕ → Type 0
IsIdle k q = (p : ℕ) → (k.queues q).tasks p ≡ []

-- What the mask of a valid queue finds.
pub data Found (k : Kernel) (q : ℕ) : ℕ → Type 0 where
  nothing : IsIdle k q → Found k q 0
  top : {t p : ℕ} {left : List ℕ} → IsTop k q t p left → Found k q (suc p)

module _ (k : Kernel) (v : QueuesValid k) (q : ℕ) where
  heads-IsTop :
      (t p : ℕ) (left : List ℕ)
      → (k.queues q).tasks p ≡ t ∷ left
      → ((p' : ℕ) → p < p' → (k.queues q).tasks p' ≡ [])
      → IsTop k q t p left
  heads-IsTop t p left e above =
      let one = v.placed q p t in
      record {
        heads = e;
        highest = above;
        queued = ground (arith, e, one);
        prio = ground (arith, e, one);
      }

  fls-Found : (n : ℕ) → arch_bitmask_fls (k.queues q).mask ≡ n → Found k q n
  fls-Found zero e = nothing (λ p. above_fls k v q p (omega arith))
  fls-Found (suc p) e = from_bucket ((k.queues q).tasks p) refl
    where
      set : (p < 8) × (bit (k.queues q).mask p ≡ true)
      set = bit-fls (k.queues q).mask p (v.mask_small q) e

      from_bucket : (xs : List ℕ) → (k.queues q).tasks p ≡ xs → Found k q (suc p)
      from_bucket [] x = absurd (ground (arith, v.masked q p set.0, set.1, x))
      from_bucket (t ∷ left) x =
          top (heads-IsTop t p left x (λ p' h. above_fls k v q p' (omega (arith, e))))

  -- The queue after its top task has left it.
  pub removed_top-QueuesValid :
      {t p : ℕ} {left : List ℕ} → IsTop k q t p left → QueuesValid (removed q p left t k)
  removed_top-QueuesValid {t} {p} {left} i =
      subst (λ p. QueuesValid (removed q p left t k)) i.prio
        (removed-QueuesValid k v q t left i.queued (λ a. ground (arith, i.prio, i.heads)))

-- The result of taking the top task: none from an idle queue, else the task that `IsTop` describes.
pub data Dequeues (k : Kernel) (q : ℕ) : Outcome (Option ℕ) → Type 0 where
  idle : IsIdle k q → Dequeues k q (ok none k)
  takes :
      {t p : ℕ} {left : List ℕ}
      → IsTop k q t p left
      → QueuesValid (removed q p left t k)
      → Dequeues k q (ok (some t) (removed q p left t k))

pub data DequeuesPrio (k : Kernel) (q prio : ℕ) : Outcome (Option ℕ) → Type 0 where
  lower : ((p : ℕ) → prio ≤ p → (k.queues q).tasks p ≡ []) → DequeuesPrio k q prio (ok none k)
  takes :
      {t p : ℕ} {left : List ℕ}
      → IsTop k q t p left
      → prio ≤ p
      → QueuesValid (removed q p left t k)
      → DequeuesPrio k q prio (ok (some t) (removed q p left t k))

pub data Peeks (k : Kernel) (q : ℕ) : Outcome (Option ℕ) → Type 0 where
  unused : IsIdle k q → Peeks k q (ok none k)
  sees : {t p : ℕ} {left : List ℕ} → IsTop k q t p left → Peeks k q (ok (some t) k)

suc_not_zero : (p : ℕ) → (suc p == 0) ≡ false
suc_not_zero p = ground arith

suc_sub_one : (p : ℕ) → suc p - 1 ≡ p
suc_sub_one p = omega arith

module _ (k : Kernel) (v : QueuesValid k) (q : ℕ) where
  intdequeue-DequeuesPrio :
      (prio : ℕ) {t p : ℕ} {left : List ℕ}
      → IsTop k q t p left
      → prio ≤ p
      → DequeuesPrio k q prio (os_taskqueue_intdequeue q p k)
  unfolding os_taskqueue_intdequeue
  intdequeue-DequeuesPrio prio i h =
      rw (i.heads, os_taskqueue_intdequeue)
        (DequeuesPrio.takes i h (removed_top-QueuesValid k v q i))

  intdequeue-Dequeues :
      {t p : ℕ} {left : List ℕ} → IsTop k q t p left → Dequeues k q (os_taskqueue_intdequeue q p k)
  unfolding os_taskqueue_intdequeue
  intdequeue-Dequeues i =
      rw (i.heads, os_taskqueue_intdequeue) (Dequeues.takes i (removed_top-QueuesValid k v q i))

  dispatch-Dequeues :
      {n : ℕ}
      → Found k q n
      → Dequeues k q (if n == 0 then ok none k else os_taskqueue_intdequeue q (n - 1) k)
  dispatch-Dequeues (nothing i) = idle i
  dispatch-Dequeues (top {p} i) = rw (suc_not_zero p, suc_sub_one p) (intdequeue-Dequeues i)

  -- In valid queues `os_taskqueue_dequeue` takes the first task of the highest priority in use off
  -- the queue, and the queues stay valid; where no task waits it gives NULL and changes nothing.
  pub os_taskqueue_dequeue-Dequeues : Dequeues k q (os_taskqueue_dequeue q k)
  unfolding os_taskqueue_dequeue
  os_taskqueue_dequeue-Dequeues = dispatch-Dequeues (fls-Found k v q _ refl)

  dispatch-DequeuesPrio :
      (prio : ℕ) {n : ℕ}
      → Found k q n
      → DequeuesPrio k q prio (
          if n == 0
          then ok none k
          else if ltb (n - 1) prio
          then ok none k
          else os_taskqueue_intdequeue q (n - 1) k)
  dispatch-DequeuesPrio prio (nothing i) = lower (λ p h. i p)
  dispatch-DequeuesPrio prio (top {t} {p} {left} i) =
      rw (suc_not_zero p, suc_sub_one p)
        (elim (Bool-cases (ltb p prio)) [
          | inl less ↦ rw less (lower (λ p' h. i.highest p' (ground arith)))
          | inr enough ↦ rw enough (intdequeue-DequeuesPrio prio i (ground arith))
        ])

  -- In valid queues `os_taskqueue_dequeue_prio` takes the first task of the highest priority in use
  -- where that is at least `prio`, and the queues stay valid; where no task of such a priority
  -- waits it gives NULL and changes nothing.
  pub os_taskqueue_dequeue_prio-DequeuesPrio :
      (prio : ℕ) → DequeuesPrio k q prio (os_taskqueue_dequeue_prio q prio k)
  unfolding os_taskqueue_dequeue_prio
  os_taskqueue_dequeue_prio-DequeuesPrio prio = dispatch-DequeuesPrio prio (fls-Found k v q _ refl)

  dispatch-Peeks :
      {n : ℕ}
      → Found k q n
      → Peeks k q (
          if n == 0
          then ok none k
          else elim ((k.queues q).tasks (n - 1)) [ [] ↦ fault | t ∷ left ↦ ok (some t) k ])
  dispatch-Peeks (nothing i) = unused i
  dispatch-Peeks (top {p} i) = rw (suc_not_zero p, suc_sub_one p, i.heads) (sees i)

  -- In valid queues `os_taskqueue_peek` gives the first task of the highest priority in use, or
  -- NULL where no task waits, and changes nothing.
  pub os_taskqueue_peek-Peeks : Peeks k q (os_taskqueue_peek q k)
  unfolding os_taskqueue_peek
  os_taskqueue_peek-Peeks = dispatch-Peeks (fls-Found k v q _ refl)
