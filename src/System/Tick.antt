-- ===== src/System/Tick.antt =====
-- `os_tick` with the kernel's own timer functions keeps the kernel valid.
use rados.Base.{
  ℕ, zero, suc, ◌≡◌, refl, inl, inr, true, false, Option, none, some, List, [], ◌∷◌, ◌++◌, arith,
  ◌==◌, ltb, Bool-cases, Option-cases, erase, mem, is_empty,
}
use rados.Kernel.{
  Kernel, TaskState, Callback, os_sem_timerclbck, os_waitqueue_timerclbck, user, ready_queue,
  os_timeout, in_schedule,
}
use rados.Kernel.Run.{M, ok, halted, fault}
use rados.TaskQueue.{removed, os_taskqueue_unlink}
use rados.TaskQueue.Ops.{unlinked, os_taskqueue_unlink_lem}
use rados.Sched.Valid.{KernelValid, same-KernelValid, made_ready}
use rados.Timer.{
  time_out, trigger_loop, timer_trigger, tick_timers, os_tick, count_down, reload_all, timer_add,
  add_ticks, list_itr_begin, head_due, next_timer,
}
use rados.Block.{time_out_task, set_block_code, is_waiting}
use rados.Block.Wake.{set_task-KernelValid, made_ready-KernelValid}
use rados.System.Keeps.{
  Keeps, ok-Leads, nowhere-Leads, bind_step, Keeps-bind, Keeps-pure, Keeps-get, Keeps-modify,
  Keeps-os_assert, Keeps-crash, Keeps-if, Keeps-arch_critical_enter, Keeps-arch_critical_exit,
  Keeps-os_schedule,
}

-- A task that waits leaves its queue.
pub unlinked-KernelValid :
    (k : Kernel)
    → KernelValid k
    → (t q : ℕ) → (k.tasks t).task_queue ≡ some q
    → (q == ready_queue) ≡ false
    → KernelValid (unlinked q t k)
unfolding removed
unlinked-KernelValid k v t q e ne = record {
  queues = (os_taskqueue_unlink_lem k v.queues q t e).1;
  ready_linked = ground (arith, v.ready_linked);
  current_free = ground (arith, v.current_free);
  in_ready = λ a x. ground (arith, v.in_ready a);
  in_wait = λ a r x n. ground (arith, v.in_wait a r);
  idle_there = ground (arith, v.idle_there);
  timer_made = λ a i x. ground (arith, v.timer_made a i);
}

pub time_out_task_lem :
    (k : Kernel)
    → KernelValid k
    → (t q : ℕ) → (k.tasks t).task_queue ≡ some q
    → (k.tasks t).state ≡ TaskState.wait
    → let k1 = made_ready t (set_block_code t os_timeout (unlinked q t k)) in
      (time_out_task t k ≡ ok tt k1) × KernelValid k1
unfolding time_out_task set_block_code removed
time_out_task_lem k v t q e waits =
    let ne : (q == ready_queue) ≡ false = ground (arith, v.in_ready t) in
    let v1 = unlinked-KernelValid k v t q e ne in
    let k2 = set_block_code t os_timeout (unlinked q t k) in
    let v2 = set_task-KernelValid (unlinked q t k) v1 t _ refl refl refl (λ i x. x) in
    let (runs, v3) =
      made_ready-KernelValid k2 v2 t (ground arith) (ground (arith, v.current_free)) in
    let w : is_waiting (k.tasks t).state ≡ true = rw waits refl in
    (rw (w, (os_taskqueue_unlink_lem k v.queues q t e).0) runs, v3)

waiting : (s : TaskState) → is_waiting s ≡ true → s ≡ TaskState.wait
waiting TaskState.wait h = refl
waiting TaskState.running h = absurd (cc)
waiting TaskState.ready h = absurd (cc)
waiting TaskState.destroyed h = absurd (cc)
waiting TaskState.invalid h = absurd (cc)

time_out_task-idle :
    (k : Kernel) (t : ℕ)
    → is_waiting (k.tasks t).state ≡ false
    → time_out_task t k ≡ halted (record k { dint = true; sched_lock = 1 })
unfolding time_out_task
time_out_task-idle k t other = rw other refl

time_out_task-free :
    (k : Kernel) (t : ℕ)
    → is_waiting (k.tasks t).state ≡ true
    → (k.tasks t).task_queue ≡ none
    → time_out_task t k ≡ fault
unfolding time_out_task os_taskqueue_unlink
time_out_task-free k t waits out = rw (waits, os_taskqueue_unlink, out) refl

pub Keeps-time_out_task : (t : ℕ) → Keeps (time_out_task t)
Keeps-time_out_task t k k' v l = elim (Bool-cases (is_waiting (k.tasks t).state)) [
  | inl waits ↦ elim (Option-cases (k.tasks t).task_queue) [
    | inl out ↦ nowhere-Leads (inr (time_out_task-free k t waits out)) l
    | inr (q, e) ↦
        let (runs, v1) = time_out_task_lem k v t q e (waiting (k.tasks t).state waits) in
        ok-Leads runs v1 l
  ]
  | inr other ↦ nowhere-Leads (inl (_, time_out_task-idle k t other)) l
]

-- Changes of the ticks of a timer and of the timer list.
module _ (call : Callback → ℕ → M (Unit {0}))
    (keeps : (c : Callback) (p : ℕ) → Keeps (call c p)) where
  Keeps-time_out : (i : ℕ) (list_autoreload : List ℕ) → Keeps (time_out call i list_autoreload)
  unfolding time_out
  Keeps-time_out i list_autoreload =
      Keeps-bind _ _
        (Keeps-modify (λ k. record k { timer_list = erase i k.timer_list })
          (λ k v. same-KernelValid k _ refl refl refl (λ i e. e) v))
        λ _. Keeps-bind _ _ Keeps-get λ k.
          Keeps-bind _ _ (keeps (k.timers i).clbck (k.timers i).param) λ _.
            Keeps-bind _ _ Keeps-get λ k.
              Keeps-if (ltb 0 (k.timers i).ticks_reload) _ _
                (Keeps-if (mem i k.timer_list) _ _ Keeps-crash
                  (Keeps-pure (list_autoreload ++ i ∷ [])))
                (Keeps-pure list_autoreload)

  count_down-KernelValid : (i : ℕ) (k : Kernel) → KernelValid k → KernelValid (count_down i k)
  unfolding count_down
  count_down-KernelValid i k v = same-KernelValid k _ refl refl refl (λ j e. ground arith) v

  Keeps-trigger_loop :
      (fuel : ℕ) (itr : Option ℕ) (list_autoreload : List ℕ)
      → Keeps (trigger_loop call fuel itr list_autoreload)
  unfolding trigger_loop
  Keeps-trigger_loop zero itr list_autoreload k k' v l = Keeps-crash k k' v l
  Keeps-trigger_loop (suc fuel) none list_autoreload k k' v l = ok-Leads refl v l
  Keeps-trigger_loop (suc fuel) (some i) list_autoreload k k' v l =
      let k1 = count_down i k in
      let itr = next_timer i k.timer_list in
      let v1 = count_down-KernelValid i k v in
      elim (Bool-cases (ltb 0 (k1.timers i).ticks_rem)) [
        | inl later ↦ Keeps-trigger_loop fuel itr list_autoreload k1 k' v1 (rw later at l)
        | inr now ↦
            bind_step (time_out call i list_autoreload k1) (trigger_loop call fuel itr) k'
              (λ k2. Keeps-time_out i list_autoreload k1 k2 v1) (Keeps-trigger_loop fuel itr)
              (rw now at l)
      ]

  reload_all-KernelValid :
      (is : List ℕ) (k : Kernel) → KernelValid k → KernelValid (reload_all is k)
  unfolding reload_all timer_add
  reload_all-KernelValid [] k v = v
  reload_all-KernelValid (i ∷ is) k v =
      reload_all-KernelValid is _ (same-KernelValid k _ refl refl refl (λ j e. ground arith) v)

  Keeps-timer_trigger : (fuel : ℕ) → Keeps (timer_trigger call fuel)
  unfolding timer_trigger
  Keeps-timer_trigger fuel = Keeps-bind _ _ Keeps-get λ k.
      Keeps-bind _ _ (Keeps-trigger_loop fuel (list_itr_begin k.timer_list) []) λ is.
        Keeps-bind _ _
          (Keeps-modify (λ k. record k { timer_tick_unsynch = 0 })
            (λ k v. same-KernelValid k _ refl refl refl (λ i e. e) v))
          λ _. Keeps-modify (reload_all is) (reload_all-KernelValid is)

  Keeps-tick_timers : (fuel : ℕ) → Keeps (tick_timers call fuel)
  unfolding tick_timers
  Keeps-tick_timers fuel =
      Keeps-bind _ _
        (Keeps-modify (λ k. record k { ticks_cnt = add_ticks k.ticks_cnt 1 })
          (λ k v. same-KernelValid k _ refl refl refl (λ i e. e) v))
        λ _. Keeps-bind _ _ Keeps-get λ k. Keeps-if (is_empty k.timer_list) _ _ (Keeps-pure tt) (
          Keeps-bind _ _
            (Keeps-modify (λ k. record k { timer_tick_unsynch = add_ticks k.timer_tick_unsynch 1 })
              (λ k v. same-KernelValid k _ refl refl refl (λ i e. e) v))
            λ _.
              Keeps-bind _ _ Keeps-get
                λ k. Keeps-if (head_due call k) _ _ (Keeps-timer_trigger fuel) (Keeps-pure tt))

  pub Keeps-os_tick : (fuel : ℕ) → Keeps (os_tick call fuel)
  unfolding os_tick
  Keeps-os_tick fuel = Keeps-bind _ _ Keeps-get λ k.
      Keeps-bind _ _ (Keeps-os_assert (ltb 0 k.isr_nesting)) λ _.
        Keeps-bind _ _ Keeps-arch_critical_enter λ c.
          Keeps-bind _ _ (Keeps-tick_timers fuel) λ _.
            Keeps-bind _ _ (Keeps-os_schedule 0 (in_schedule c)) λ _. Keeps-arch_critical_exit c

-- The functions of timers: the kernel's own two, and those of the program.
unfoldable pub kernel_call : (ℕ → ℕ → M (Unit {0})) → Callback → ℕ → M (Unit {0})
kernel_call program os_sem_timerclbck t = time_out_task t
kernel_call program os_waitqueue_timerclbck t = time_out_task t
kernel_call program (user f) p = program f p

pub Keeps-kernel_call :
    (program : ℕ → ℕ → M (Unit {0}))
    → ((f p : ℕ) → Keeps (program f p))
    → (c : Callback) (p : ℕ) → Keeps (kernel_call program c p)
unfolding kernel_call
Keeps-kernel_call program keeps os_sem_timerclbck t = Keeps-time_out_task t
Keeps-kernel_call program keeps os_waitqueue_timerclbck t = Keeps-time_out_task t
Keeps-kernel_call program keeps (user f) p = keeps f p
