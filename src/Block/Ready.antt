-- ===== src/Block/Ready.antt =====
-- Making a task ready with its code, without its timer.
use rados.Base.{ℕ, Option, ◌≡◌, refl, false, none, arith, ◌==◌}
use rados.Kernel.{Kernel}
use rados.Kernel.Run.{ok}
use rados.TaskQueue.{enqueued}
use rados.Sched.{set_state, os_task_makeready}
use rados.Sched.Valid.{KernelValid, made_ready}
use rados.Block.{set_block_code}
use rados.Block.Wake.{set_task-KernelValid, made_ready-KernelValid, Readied}

-- The timer of the task is left.
abbrev pub same_timer : Option ℕ → Option ℕ
same_timer timer = timer

-- In a valid kernel, where task `t` stands in no queue and is not the current one: it gets its code and
-- joins the ready queue.
pub os_task_makeready-Readied :
    (k : Kernel)
    → KernelValid k
    → (code t : ℕ) → (k.tasks t).task_queue ≡ none
    → (t == k.task_current) ≡ false
    → let k' = made_ready t (set_block_code t code k) in
      (os_task_makeready t (set_block_code t code k) ≡ ok tt k') × Readied same_timer code t k k'
unfolding set_block_code set_state enqueued
os_task_makeready-Readied k v code t out ne =
    let k1 = set_block_code t code k in
    let v1 : KernelValid k1 = set_task-KernelValid k v t _ refl refl refl (λ i e. e) in
    let (runs, v2) = made_ready-KernelValid k1 v1 t (ground (arith, out)) ne in
    (
      runs,
      record {
        valid = v2;
        task = ground arith;
        others = λ a n. ground arith;
        ready = λ p. ground arith;
        elsewhere = λ q n. ground arith;
        globals = ground arith;
      },
    )
