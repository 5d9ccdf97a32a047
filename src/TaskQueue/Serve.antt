-- ===== src/TaskQueue/Serve.antt =====
-- Any run of a task queue answers as the list of arrivals does.
use rados.Base.{
  ℕ, ◌≡◌, refl, ◌∙◌, sym, ap, true, false, Option, none, some, List, [], ◌∷◌, ◌++◌, arith, mem,
  mem-append, mem-erase, Distinct, Distinct-erase, fun_ext, Distinct-snoc,
}
use rados.Kernel.{Kernel}
use rados.Kernel.Run.{M, ok, pure, ◌>>=◌, ◌>>◌, Outcome}
use rados.TaskQueue.{enqueued, removed, os_taskqueue_enqueue, os_taskqueue_dequeue}
use rados.TaskQueue.Valid.{QueuesValid}
use rados.TaskQueue.Ops.{os_taskqueue_enqueue_lem}
use rados.TaskQueue.Dequeue.{Dequeues, os_taskqueue_dequeue-Dequeues}
use rados.TaskQueue.Arrival.{
  pick, pick-nil, level, leave, prio_of, Arrived, enqueued-Arrived, removed-Arrived, pick-top,
  idle-nil,
}

pub data Op : Type 0 where
  enqueue : ℕ → Op
  dequeue : Op

-- A run on the queue `q`, with what each `os_taskqueue_dequeue` gave.
unfoldable pub serve : ℕ → List Op → M (List (Option ℕ))
serve q [] = pure []
serve q (enqueue t ∷ rest) = do os_taskqueue_enqueue q t; serve q rest
serve q (dequeue ∷ rest) = do
  first ← os_taskqueue_dequeue q
  later ← serve q rest
  pure (first ∷ later)

-- The same run on a list of arrivals.
unfoldable pub answers : (ℕ → ℕ) → List ℕ → List Op → List (Option ℕ)
answers prio xs [] = []
answers prio xs (enqueue t ∷ rest) = answers prio (xs ++ t ∷ []) rest
answers prio xs (dequeue ∷ rest) = pick prio xs ∷ answers prio (leave (pick prio xs) xs) rest

-- Only tasks that stand in no queue of `k` are enqueued, and none while it waits.
abbrev pub Allowed : Kernel → List ℕ → List Op → Type 0
Allowed k xs [] = Unit {0}
Allowed k xs (enqueue t ∷ rest) =
    (mem t xs ≡ false) × ((k.tasks t).task_queue ≡ none) × Allowed k (xs ++ t ∷ []) rest
Allowed k xs (dequeue ∷ rest) = Allowed k (leave (pick (prio_of k) xs) xs) rest

-- How the kernel `k` stands to the list of arrivals in a run that began in `k0`.
record Stands (k0 : Kernel) (q : ℕ) (xs : List ℕ) (k : Kernel) : Type 0 where
  valid : QueuesValid k
  linked : (k.queues q).linked ≡ true
  arrived : Arrived k q xs
  prios : (t : ℕ) → prio_of k t ≡ prio_of k0 t
  free : (t : ℕ) → (k0.tasks t).task_queue ≡ none → mem t xs ≡ false → (k.tasks t).task_queue ≡ none
  distinct : Distinct xs

module _ (k0 : Kernel) (q : ℕ) (xs : List ℕ) (k : Kernel) (s : Stands k0 q xs k) where
  enqueued-Stands :
      (t : ℕ)
      → mem t xs ≡ false
      → (k0.tasks t).task_queue ≡ none
      → (os_taskqueue_enqueue q t k ≡ ok tt (enqueued q t k))
        × Stands k0 q (xs ++ t ∷ []) (enqueued q t k)
  unfolding enqueued
  enqueued-Stands t new out =
      let (runs, v) = os_taskqueue_enqueue_lem k s.valid q t (s.free t out new) s.linked in
      (
        runs,
        record {
          valid = v;
          linked = ground (arith, s.linked);
          arrived = enqueued-Arrived k q xs s.arrived t;
          prios = λ a. ground (arith, s.prios a);
          free = λ a e m. ground (arith, s.free a, mem-append a xs (t ∷ []));
          distinct = Distinct-snoc xs t s.distinct new;
        },
      )

  served_prios : pick (prio_of k) xs ≡ pick (prio_of k0) xs
  served_prios = ap (λ (prio : ℕ → ℕ). pick prio xs) (fun_ext s.prios)

  dequeued-Stands :
      {r : Outcome (Option ℕ)}
      → Dequeues k q r
      → (k' : Kernel) × (r ≡ ok (pick (prio_of k0) xs) k')
        × Stands k0 q (leave (pick (prio_of k0) xs) xs) k'
  unfolding removed
  dequeued-Stands (Dequeues.idle i) =
      let e : pick (prio_of k0) xs ≡ none =
        rw (idle-nil k q xs s.arrived i) (pick-nil (prio_of k0)) in
      (k, rw e refl, rw e s)
  dequeued-Stands (Dequeues.takes {t} {p} {left} i v) =
      let e : pick (prio_of k0) xs ≡ some t = sym served_prios ∙ pick-top k q xs s.arrived i in
      (
        removed q p left t k,
        rw e refl,
        rw e (record {
          valid = v;
          linked = ground (arith, s.linked);
          arrived = removed-Arrived k q xs s.arrived i;
          prios = λ a. ground (arith, s.prios a);
          free = λ a out m. ground (arith, s.free a, mem-erase a t xs s.distinct);
          distinct = Distinct-erase t xs s.distinct;
        }),
      )

serve_from :
    (k0 : Kernel) (q : ℕ) (ops : List Op) (xs : List ℕ) (k : Kernel)
    → Stands k0 q xs k
    → Allowed k0 xs ops
    → (k' : Kernel) × (serve q ops k ≡ ok (answers (prio_of k0) xs ops) k')
unfolding serve answers
serve_from k0 q [] xs k s h = (k, refl)
serve_from k0 q (enqueue t ∷ rest) xs k s h =
    let (runs, s1) = enqueued-Stands k0 q xs k s t h.0 h.1 in
    let (k', later) = serve_from k0 q rest (xs ++ t ∷ []) (enqueued q t k) s1 h.2 in
    (k', rw runs later)
serve_from k0 q (dequeue ∷ rest) xs k s h =
    let (k1, runs, s1) = dequeued-Stands k0 q xs k s (os_taskqueue_dequeue-Dequeues k s.valid q) in
    let (k', later) = serve_from k0 q rest (leave (pick (prio_of k0) xs) xs) k1 s1 h in
    (k', rw (runs, later) refl)

-- In valid queues, any run of `os_taskqueue_enqueue` and `os_taskqueue_dequeue` on an empty queue
-- that was initialised succeeds, and the dequeues give what the list of arrivals gives: the
-- earliest of the highest priority each time, NULL where none is left. Only tasks in no queue are
-- enqueued, and none while it waits.
pub serve-answers :
    (k : Kernel)
    → QueuesValid k
    → (q : ℕ) → (k.queues q).linked ≡ true
    → ((p : ℕ) → (k.queues q).tasks p ≡ [])
    → (ops : List Op) → Allowed k [] ops
    → (k' : Kernel) × (serve q ops k ≡ ok (answers (prio_of k) [] ops) k')
unfolding level
serve-answers k v q link clear ops h =
    serve_from k q ops [] k
      (record {
        valid = v;
        linked = link;
        arrived = clear;
        prios = λ t. refl;
        free = λ t e m. e;
        distinct = tt;
      })
      h
