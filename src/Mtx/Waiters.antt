-- ===== src/Mtx/Waiters.antt =====
-- The priority that `os_mtx_unlock_prio_reset` computes: the highest of the task's own and of those of
-- the tasks that wait for its mutexes.
use rados.Base.{
  ℕ, ◌≤◌, ◌<◌, ◌≡◌, refl, ◌⊎◌, inl, inr, true, false, Bool, Option, none, some, List, [], ◌∷◌,
  arith, ltb, if◌then◌else◌, Bool-cases,
}
use rados.Kernel.{Kernel, mtx_queue, priocnt}
use rados.Kernel.Run.{ok, Outcome, and_then, get, ◌>>=◌}
use rados.TaskQueue.Valid.{QueuesValid, points_at}
use rados.TaskQueue.Dequeue.{Peeks, os_taskqueue_peek-Peeks}
use rados.Block.Drain.{no_waiter, top_is_highest}
use rados.Mtx.{highest_waiter, os_max}

-- Task `t` waits for a mutex of the list.
abbrev pub waits_for : Kernel → List ℕ → ℕ → Bool
waits_for k [] t = false
waits_for k (m ∷ ms) t =
    if points_at (k.tasks t).task_queue (mtx_queue m) then true else waits_for k ms t

-- `n` is the highest of `prio` and the priorities of the waiters.
pub record Highest (k : Kernel) (ms : List ℕ) (prio n : ℕ) : Type 0 where
  pub least : prio ≤ n
  pub above : (t : ℕ) → waits_for k ms t ≡ true → (k.tasks t).prio_current ≤ n
  pub reached : (n ≡ prio) ⊎ ((t : ℕ) × (waits_for k ms t ≡ true) × ((k.tasks t).prio_current ≡ n))
  pub small : prio < priocnt → n < priocnt

module _ (k : Kernel) (v : QueuesValid k) where
  abbrev waiter_body : List ℕ → ℕ → Outcome (Option ℕ) → Outcome ℕ
  waiter_body rest prio r = and_then r λ task. do
    k ← get
    highest_waiter rest (elim task [ none ↦ prio | some t ↦ os_max prio (k.tasks t).prio_current ])

  Highest-step :
      (m : ℕ) (rest : List ℕ) (prio : ℕ)
      → ((prio' : ℕ) → (n : ℕ) × (highest_waiter rest prio' k ≡ ok n k) × Highest k rest prio' n)
      → {r : Outcome (Option ℕ)} → Peeks k (mtx_queue m) r
      → (n : ℕ) × (waiter_body rest prio r ≡ ok n k) × Highest k (m ∷ rest) prio n
  Highest-step m rest prio next (Peeks.unused i) =
      let (n, e, h) = next prio in
      (
        n,
        e,
        record {
          least = h.least;
          above = λ t w. ground (arith, h.above t, no_waiter k v (mtx_queue m) i t);
          reached = elim h.reached [ inl own ↦ inl own | inr (t, w, e) ↦ inr (t, ground arith, e) ];
          small = h.small;
        },
      )
  Highest-step m rest prio next (Peeks.sees {t} {p} i) =
      let (n, e, h) = next (os_max prio (k.tasks t).prio_current) in
      let first : points_at (k.tasks t).task_queue (mtx_queue m) ≡ true =
        ground (arith, i.queued) in
      (
        n,
        e,
        record {
          least = ground (arith, h.least);
          above = λ u w. ground (arith, h.above u, h.least, top_is_highest k v i u, i.prio);
          reached = elim h.reached [
            | inl own ↦ elim (Bool-cases (ltb (k.tasks t).prio_current prio)) [
              | inl less ↦ inl (ground arith)
              | inr more ↦ inr (t, ground arith, ground arith)
            ]
            | inr (u, w, eu) ↦ inr (u, ground arith, eu)
          ];
          small = λ s. ground (arith, h.small, v.prio_small t);
        },
      )

  pub highest_waiter-Highest :
      (ms : List ℕ) (prio : ℕ) → (n : ℕ) × (highest_waiter ms prio k ≡ ok n k) × Highest k ms prio n
  unfolding highest_waiter
  highest_waiter-Highest [] prio = (
    prio,
    refl,
    record {
      least = omega arith;
      above = λ t w. absurd (ground arith);
      reached = inl refl;
      small = λ s. s;
    },
  )
  highest_waiter-Highest (m ∷ rest) prio =
      Highest-step m rest prio (highest_waiter-Highest rest)
        (os_taskqueue_peek-Peeks k v (mtx_queue m))
